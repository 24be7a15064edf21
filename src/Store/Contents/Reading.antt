-- ===== src/Store/Contents/Reading.antt =====
-- `GetObject` (pkg/store/object.go) on the handles of a store with a known content.
use ts_store.Prelude.{
  ℕ, suc, ◌^◌, ◌≤◌, ◌<◌, ◌≡◌, refl, sym, ap, ◌∙◌, true, false, List, [], ◌∷◌, ◌++◌, map,
  append_assoc, append-nil,
}
use mathlib.Core.Path.{subst, ap₂}
use mathlib.Core.List.{map-append}
use ts_store.Store.Contents.Listing.{handles, handles_from, all_blocks}
use ts_store.Store.State.Errors.{Result, ok}
use ts_store.Store.State.{Store, block_offset}
use ts_store.Store.Valid.{IsValid}
use ts_store.Store.Packed.Contents.{Object, end_of, Chain}
use ts_store.Store.Packed.Scan.{object_handles}
use ts_store.Store.Objects.{get_object}
use ts_store.Store.Contents.{Pack, Packs, Older, Stores, address}
use ts_store.Store.Contents.Spec.{objects, objects_of, ends_at}
use ts_store.Store.Contents.Chains.{get_object-Chain}

ends_at-append :
    (off : ℕ) (os : List Object) (o : Object)
    → end_of (ends_at off os) o ≡ ends_at off (os ++ (o ∷ []))
ends_at-append off [] o = refl
ends_at-append off (x ∷ os) o = ends_at-append (end_of off x) os o

-- The objects of one block are read back whole by their handles.
map-get_object-Chain :
    (s : Store) (b : ℕ) (before os : List Object) (end : ℕ)
    → s.closed ≡ false
    → end ≤ s.config.data_block_size
    → s.config.data_block_size < 2 ^ 32
    → Chain (block_offset s.config b) s.data_file true 24 (before ++ os) end
    → map (λ h. get_object h s) (object_handles b (ends_at 24 before) os) ≡ map (λ o. ok o.bytes) os
map-get_object-Chain s b before [] end is_open fits small c = refl
map-get_object-Chain s b before (o ∷ os) end is_open fits small c =
    let here = get_object-Chain s b before o os end is_open fits small c in
    let same : (before ++ (o ∷ [])) ++ os ≡ before ++ (o ∷ os) = append_assoc before (o ∷ []) os in
    let rest =
      map-get_object-Chain s b (before ++ (o ∷ [])) os end is_open fits small
        (subst (λ l. Chain (block_offset s.config b) s.data_file true 24 l end) (sym same) c) in
    ap₂ (λ (x : Result (List ℕ)) (xs : List (Result (List ℕ))). x ∷ xs) here
      (ap (λ off. map (λ h. get_object h s) (object_handles b off os)) (ends_at-append 24 before o)
        ∙ rest)

map-get_object-Older :
    (s : Store) (i : ℕ) (ks : List Pack)
    → IsValid s
    → s.closed ≡ false
    → Older s i ks
    → map (λ h. get_object h s) (handles_from s i ks) ≡ map (λ o. ok o.bytes) (objects_of ks)
map-get_object-Older s i [] v is_open o = refl
map-get_object-Older s i (k ∷ ks) v is_open o =
    map-append (λ h. get_object h s) (object_handles (address s i) 24 (k.first ∷ k.rest))
      (handles_from s (suc i) ks)
    ∙ ap₂ (λ (xs ys : List (Result (List ℕ))). xs ++ ys)
        (map-get_object-Chain s (address s i) [] (k.first ∷ k.rest) o.0.0 is_open o.0.1.inside
          v.size_fits o.0.1.holds.chain)
        (map-get_object-Older s (suc i) ks v is_open o.1)
    ∙ sym (map-append (λ (x : Object). ok x.bytes) (k.first ∷ k.rest) (objects_of ks))

pub objects-all :
    (ks : List Pack) (k : Pack) → objects_of (ks ++ (k ∷ [])) ≡ objects_of ks ++ (k.first ∷ k.rest)
objects-all [] k = append-nil (k.first ∷ k.rest)
objects-all (k' ∷ ks) k =
    ap (λ l. (k'.first ∷ k'.rest) ++ l) (objects-all ks k)
    ∙ sym (append_assoc (k'.first ∷ k'.rest) (objects_of ks) (k.first ∷ k.rest))

-- In a store with a known content every listed handle reads the bytes of its object: `GetObject`
-- on the handles of all objects gives the bytes of all objects, in the same order.
pub get_object-handles :
    (s : Store) (p : Packs)
    → Stores s p
    → map (λ h. get_object h s) (handles s p) ≡ map (λ o. ok o.bytes) (objects p)
get_object-handles s p st =
    map-get_object-Older s 0 (p.older ++ (p.current ∷ [])) st.valid st.is_open (all_blocks s p st)
    ∙ ap (map (λ (o : Object). ok o.bytes)) (objects-all p.older p.current)
