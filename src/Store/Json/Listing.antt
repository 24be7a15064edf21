-- ===== src/Store/Json/Listing.antt =====
-- `GetOldestJSON` (pkg/store/json.go) on a store with a known content.
use ts_store.Prelude.{
  ℕ, zero, suc, ◌^◌, ◌≤◌, ◌≡◌, refl, sym, ap, ◌∙◌, Option, none, some, List, [], ◌∷◌, map, take,
}
use mathlib.Core.List.{cons-ne-nil}
use ts_store.Prelude.Int.{ℤ, pos, negsuc}
use ts_store.Prelude.Equality.{Bytes}
use ts_store.Prelude.Outcome.{Outcome, done, failed, ◌>>=◌}
use ts_store.Store.State.Errors.{Result, ok}
use ts_store.Store.State.{Store}
use ts_store.Store.Packed.{ObjectHandle}
use ts_store.Store.Packed.Contents.{Object}
use ts_store.Store.Objects.{get_object}
use ts_store.Store.Contents.{Packs, Stores}
use ts_store.Store.Contents.Spec.{objects}
use ts_store.Store.Contents.Listing.{handles, limited, get_oldest_objects-Stores}
use ts_store.Store.Contents.Reading.{get_object-handles}
use ts_store.Store.Json.{
  Codec, Err, invalid_json, keep, raw_of, get_json_raw, raw_objects, listed, get_oldest_json,
  from_store,
}

module _ (C : Codec) where
  -- The JSON texts among the objects, with their handles.
  abbrev pub texts : List ObjectHandle → List Object → List (Bytes × ObjectHandle)
  texts [] os = []
  texts (h ∷ hs) [] = []
  texts (h ∷ hs) (o ∷ os) = elim (C.raw o.bytes) [
    | none ↦ texts hs os
    | some raw ↦ (raw, h) ∷ texts hs os
  ]

  kept_text :
      (h : ObjectHandle) (r : Option Bytes) (rest : List (Bytes × ObjectHandle))
      → keep C (elim r [ none ↦ failed invalid_json | some raw ↦ done raw ]) h rest
        ≡ elim r [ none ↦ rest | some raw ↦ (raw, h) ∷ rest ]
  kept_text h none rest = refl
  kept_text h (some raw) rest = refl

  module _ (s : Store) where
    -- The handles read the objects.
    abbrev Reads : List ObjectHandle → List Object → Type 0
    Reads hs os = map (λ h. get_object h s) hs ≡ map (λ o. ok o.bytes) os

    head_of : Result Bytes → List (Result Bytes) → Result Bytes
    head_of d [] = d
    head_of d (x ∷ xs) = x

    tail_of : List (Result Bytes) → List (Result Bytes)
    tail_of [] = []
    tail_of (x ∷ xs) = xs

    get_raw : Result Bytes → Outcome Err Bytes
    get_raw r = do bs ← from_store r; raw_of C bs

    raw_objects-texts :
        (hs : List ObjectHandle) (os : List Object) → Reads hs os → raw_objects C hs s ≡ texts hs os
    unfolding raw_objects get_json_raw get_raw head_of tail_of
    raw_objects-texts [] os e = refl
    raw_objects-texts (h ∷ hs) [] e = absurd (cons-ne-nil _ _ e)
    raw_objects-texts (h ∷ hs) (o ∷ os) e =
        let read : get_object h s ≡ ok o.bytes = ap (head_of (ok [])) e in
        ap (λ r. keep C (get_raw r) h (raw_objects C hs s)) read
        ∙ ap (λ l. keep C (raw_of C o.bytes) h l) (raw_objects-texts hs os (ap tail_of e))
        ∙ kept_text h (C.raw o.bytes) (texts hs os)

    map-take :
        {A B : Type 0} (f : A → B) (n : ℕ) (xs : List A) → map f (take n xs) ≡ take n (map f xs)
    map-take f zero xs = refl
    map-take f (suc n) [] = refl
    map-take f (suc n) (x ∷ xs) = ap (λ l. f x ∷ l) (map-take f n xs)

    Reads-limited :
        (limit : ℤ) (hs : List ObjectHandle) (os : List Object)
        → Reads hs os
        → Reads (limited limit hs) (limited limit os)
    Reads-limited (pos zero) hs os e = e
    Reads-limited (negsuc n) hs os e = e
    Reads-limited (pos (suc n)) hs os e =
        map-take (λ h. get_object h s) (suc n) hs
        ∙ ap (take (suc n)) e
        ∙ sym (map-take (λ (o : Object). ok o.bytes) (suc n) os)

    -- In a store with a known content and at most 2^31 blocks, `GetOldestJSON` yields the JSON texts among the
    -- oldest objects, in their order and each with the handle of its object. The limit counts the objects: of
    -- those, it passes over what is no JSON.
    pub get_oldest_json-texts :
        (p : Packs) (limit : ℤ)
        → Stores s p
        → s.meta.num_blocks ≤ 2 ^ 31
        → get_oldest_json C limit s
          ≡ done (texts (limited limit (handles s p)) (limited limit (objects p)))
    unfolding get_oldest_json
    get_oldest_json-texts p limit st small =
        ap (λ r. listed C r s) (get_oldest_objects-Stores s p limit st small)
        ∙ ap {B = Outcome Err (List (Bytes × ObjectHandle))} done (
            raw_objects-texts (limited limit (handles s p)) (limited limit (objects p))
              (Reads-limited limit (handles s p) (objects p) (get_object-handles s p st)))
