-- ===== src/Store/Packed/Scan.antt =====
-- `scanBlockObjects`, `scanBlockForTimestamp` and `readPackedObjectData` of pkg/store/packed.go on a
-- block that holds a list of objects.
use ts_store.Prelude.{
  ℕ, zero, suc, ◌+◌, ◌^◌, ◌≤◌, ◌<◌, ◌≡◌, refl, Bool, true, false, List, [], ◌∷◌, length, arith,
  lt→ltb, ◌==◌,
}
use ts_store.Word.{add32}
use ts_store.Block.ObjectHeader
use ts_store.Block.ObjectHeader.{ObjectHeader}
use ts_store.Store.State.Errors.{ok}
use ts_store.Store.State.{Store, block_offset, read_object_header, read_data}
use ts_store.Store.State.Access.{At, read_object_header-At, read_block_header-At, read_data-At}
use ts_store.Store.Packed.{ObjectHandle}
use ts_store.Store.Packed.Read.{read_packed_object_data, scan_objects, scan_block_objects}
use ts_store.Store.Packed.Contents.{
  positive_test, Object, IsStorable, end_of, header_of, Chain, Chain-le,
}
use ts_store.Store.Packed.Link.{header_of-IsTyped}
use ts_store.Store.Packed.Append.{Holds, packed_header, packed_header-IsTyped}

-- The handle of an object at `off` of block b, and the handles of a list of objects from there on.
abbrev pub object_handle : ℕ → ℕ → Object → ObjectHandle
object_handle b off o = record {
  timestamp = o.timestamp;
  block_num = b;
  offset = off;
  size = length o.bytes;
  span_count = 1;
}

abbrev pub object_handles : ℕ → ℕ → List Object → List ObjectHandle
object_handles b off [] = []
object_handles b off (o ∷ os) = object_handle b off o ∷ object_handles b (end_of off o) os

module _ (s : Store) (b end : ℕ) (fits : end ≤ s.config.data_block_size)
    (small : s.config.data_block_size < 2 ^ 32) where
  abbrev base : ℕ
  base = block_offset s.config b

  read_header :
      (last : Bool) (off : ℕ) (o : Object)
      → IsStorable o
      → end_of off o ≤ end
      → At s.data_file (base + off) (ObjectHeader.encode (header_of last off o))
      → read_object_header b off s ≡ ok (header_of last off o)
  read_header last off o t le h =
      read_object_header-At s b off (header_of last off o)
        (header_of-IsTyped last off o t (omega arith)) h

  read_bytes :
      (off : ℕ) (o : Object)
      → end_of off o ≤ end
      → At s.data_file (base + (off + 24)) o.bytes
      → read_data (base + add32 off 24) (length o.bytes) s ≡ ok o.bytes
  read_bytes off o le d =
      let e : add32 off 24 ≡ off + 24 = omega arith in
      rw e (read_data-At s (base + (off + 24)) (length o.bytes) o.bytes refl d)

  -- An object that does not span blocks is read back whole.
  pub read_packed_object_data-At :
      (last : Bool) (off : ℕ) (o : Object)
      → IsStorable o
      → end_of off o ≤ end
      → At s.data_file (base + off) (ObjectHeader.encode (header_of last off o))
      → At s.data_file (base + (off + 24)) o.bytes
      → read_packed_object_data b off s ≡ ok o.bytes
  unfolding read_packed_object_data
  read_packed_object_data-At true off o t le h d =
      rw (read_header true off o t le h, read_object_at) refl
    where
      read_object_at : read_data (base + add32 off 24) (length o.bytes) s ≡ ok o.bytes
      read_object_at = read_bytes off o le d
  read_packed_object_data-At false off o t le h d =
      rw (read_header false off o t le h, read_object_at) refl
    where
      read_object_at : read_data (base + add32 off 24) (length o.bytes) s ≡ ok o.bytes
      read_object_at = read_bytes off o le d

  scan_chain :
      (fuel off : ℕ) (o : Object) (os : List Object)
      → end < off + fuel
      → Chain base s.data_file true off (o ∷ os) end
      → scan_objects fuel b off s ≡ ok (object_handles b off (o ∷ os))
  unfolding scan_objects
  scan_chain zero off o os lt c =
      absurd (omega (arith, Chain-le base s.data_file true off (o ∷ os) end c))
  scan_chain (suc fuel) off o [] lt c =
      rw
        (
          lt→ltb off s.config.data_block_size (omega (arith, c.3)),
          scan_objects,
          read_header true off o c.2 (omega (arith, c.3)) c.0,
          positive_test o.timestamp c.2.positive,
        )
        refl
  scan_chain (suc fuel) off o (o' ∷ os) lt c =
      let le = Chain-le base s.data_file true (end_of off o) (o' ∷ os) end c.3 in
      rw
        (
          lt→ltb off s.config.data_block_size (omega (arith, le)),
          scan_objects,
          read_header false off o c.2 le c.0,
          positive_test o.timestamp c.2.positive,
        )
        (rw (nonzero, scan_chain fuel (end_of off o) o' os (omega arith) c.3) refl)
    where
      nonzero : (end_of off o == 0) ≡ false
      nonzero = ground arith

-- `scanBlockObjects` on a block that holds a chain of objects, at least one, inside the block
-- size, which is below 2^32, lists exactly the handles of these objects, oldest first.
pub scan_block_objects-Holds :
    (s : Store) (b : ℕ) (o : Object) (os : List Object) (end : ℕ)
    → end ≤ s.config.data_block_size
    → s.config.data_block_size < 2 ^ 32
    → Holds s b o os end
    → scan_block_objects b s ≡ ok (object_handles b 24 (o ∷ os))
unfolding scan_block_objects
scan_block_objects-Holds s b o os end fits small h =
    rw
      (read_block_header-At s b (packed_header o.timestamp end)
        (packed_header-IsTyped o.timestamp end h.chain.2.typed) h.header)
      (scan_chain s b end fits small (suc s.config.data_block_size) 24 o os (omega arith) h.chain)
