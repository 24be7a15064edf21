-- ===== src/Store/Contents/Chains.antt =====
-- The objects of a block one after the other, and `GetObject` of pkg/store/object.go on one of them.
use ts_store.Prelude.{
  ℕ, ◌^◌, ◌≤◌, ◌<◌, ◌≡◌, refl, sym, Bool, true, false, List, [], ◌∷◌, ◌++◌, arith, lt→ltb,
}
use ts_store.File.{File}
use ts_store.Store.State.Errors.{ok}
use ts_store.Store.State.{Store, block_offset}
use ts_store.Store.Packed.Contents.{Object, end_of, Chain, Chain-le, is_last}
use ts_store.Store.Packed.Scan.{read_packed_object_data-At, object_handle}
use ts_store.Store.Objects.{get_object}
use ts_store.Store.Contents.Spec.{ends_at}

-- A chain ends where its objects end.
pub Chain-end :
    (base : ℕ) (f : File) (closed : Bool) (off : ℕ) (os : List Object) (end : ℕ)
    → Chain base f closed off os end
    → end ≡ ends_at off os
Chain-end base f closed off [] end c = sym c
Chain-end base f closed off (o ∷ os) end c = Chain-end base f closed (end_of off o) os end c.3

-- The part of a chain from one of its objects on.
Chain-drop :
    (base : ℕ) (f : File) (off : ℕ) (before : List Object) (o : Object) (os : List Object) (end : ℕ)
    → Chain base f true off (before ++ (o ∷ os)) end
    → Chain base f true (ends_at off before) (o ∷ os) end
Chain-drop base f off [] o os end c = c
Chain-drop base f off (b ∷ before) o os end c = Chain-drop base f (end_of off b) before o os end c.3

ends_at-le : (off : ℕ) (os : List Object) → off ≤ ends_at off os
ends_at-le off [] = omega arith
ends_at-le off (o ∷ os) = omega (arith, ends_at-le (end_of off o) os)

-- An object of a chain is read back whole by its handle.
pub get_object-Chain :
    (s : Store) (b : ℕ) (before : List Object) (o : Object) (os : List Object) (end : ℕ)
    → s.closed ≡ false
    → end ≤ s.config.data_block_size
    → s.config.data_block_size < 2 ^ 32
    → Chain (block_offset s.config b) s.data_file true 24 (before ++ (o ∷ os)) end
    → get_object (object_handle b (ends_at 24 before) o) s ≡ ok o.bytes
unfolding get_object
get_object-Chain s b before o os end is_open fits small c =
    let rest = Chain-drop (block_offset s.config b) s.data_file 24 before o os end c in
    let le =
      Chain-le (block_offset s.config b) s.data_file true (end_of (ends_at 24 before) o) os end
        rest.3 in
    rw
      (
        read_packed_object_data-At s b end fits small (is_last true os) (ends_at 24 before) o rest.2
            le rest.0 rest.1,
        lt→ltb 0 (ends_at 24 before) (omega (arith, ends_at-le 24 before)),
        is_open,
      )
      refl
