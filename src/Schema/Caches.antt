-- ===== src/Schema/Caches.antt =====
-- The two caches that `buildCache` (pkg/schema/schema.go) fills for a valid schema are inverse maps.
use ts_store.Prelude.{
  ◌≡◌, ◌≢◌, refl, sym, ap, ◌∙◌, true, false, List, [], ◌∷◌, none, some, arith, Option-cases, inl,
  inr,
}
use mathlib.Core.Option.{none-ne-some, some-injective}
use mathlib.Core.Logic.{dite}
use ts_store.Prelude.Int.{ℤ}
use ts_store.Prelude.Equality.{Eq, Bytes, bytes_eq, int_eq}
use ts_store.Prelude.Dict.{Dict, lookup, insert, NodupKeys, lookup_head, lookup_tail}
use ts_store.Schema.{Field, member, name_cache, index_cache}
use ts_store.Schema.Validity.{Distinct}
use ts_store.Schema.Rename.{rename, rename_at, rename_other}

abbrev pub names_of : List Field → Dict Bytes ℤ
names_of [] = []
names_of (f ∷ fs) = (f.name, f.index) ∷ names_of fs

abbrev pub indices_of : List Field → Dict ℤ Bytes
indices_of [] = []
indices_of (f ∷ fs) = (f.index, f.name) ∷ indices_of fs

module _ {A : Type 0} ⦃e : Eq A⦄ where
  member_head : (a : A) (xs : List A) → member a (a ∷ xs) ≡ true
  member_head a xs = ground arith

  member_tail : (a b : A) (xs : List A) → member a xs ≡ true → member a (b ∷ xs) ≡ true
  member_tail a b xs h = ground arith

  member-ne : (a b : A) (xs : List A) → member a xs ≡ true → member b xs ≡ false → a ≢ b
  member-ne a b xs h h' p = ground (arith, ap (λ x. member x xs) p)

fresh_index :
    (i : ℤ) (seen : List ℤ) (names : List Bytes) (fs : List Field)
    → Distinct seen names fs
    → member i seen ≡ true
    → lookup i (indices_of fs) ≡ none
unfolding lookup
fresh_index i seen names [] d h = refl
fresh_index i seen names (f ∷ fs) d h =
    lookup_tail i f.index f.name (indices_of fs) (member-ne i f.index seen h d.1)
    ∙ fresh_index i (f.index ∷ seen) (f.name ∷ names) fs d.3 (member_tail i f.index seen h)

fresh_name :
    (n : Bytes) (seen : List ℤ) (names : List Bytes) (fs : List Field)
    → Distinct seen names fs
    → member n names ≡ true
    → lookup n (names_of fs) ≡ none
unfolding lookup
fresh_name n seen names [] d h = refl
fresh_name n seen names (f ∷ fs) d h =
    lookup_tail n f.name f.index (names_of fs) (member-ne n f.name names h d.2)
    ∙ fresh_name n (f.index ∷ seen) (f.name ∷ names) fs d.3 (member_tail n f.name names h)

module _ (seen : List ℤ) (names : List Bytes) (f : Field) (fs : List Field)
    (d : Distinct seen names (f ∷ fs)) where
  index_once : lookup f.index (indices_of fs) ≡ none
  index_once =
      fresh_index f.index (f.index ∷ seen) (f.name ∷ names) fs d.3 (member_head f.index seen)

  name_once : lookup f.name (names_of fs) ≡ none
  name_once = fresh_name f.name (f.index ∷ seen) (f.name ∷ names) fs d.3 (member_head f.name names)

names_of-NodupKeys :
    (seen : List ℤ) (names : List Bytes) (fs : List Field)
    → Distinct seen names fs
    → NodupKeys (names_of fs)
names_of-NodupKeys seen names [] d = tt
names_of-NodupKeys seen names (f ∷ fs) d =
    (name_once seen names f fs d, names_of-NodupKeys (f.index ∷ seen) (f.name ∷ names) fs d.3)

indices_of-NodupKeys :
    (seen : List ℤ) (names : List Bytes) (fs : List Field)
    → Distinct seen names fs
    → NodupKeys (indices_of fs)
indices_of-NodupKeys seen names [] d = tt
indices_of-NodupKeys seen names (f ∷ fs) d =
    (index_once seen names f fs d, indices_of-NodupKeys (f.index ∷ seen) (f.name ∷ names) fs d.3)

by_name :
    (seen : List ℤ) (names : List Bytes) (fs : List Field) (n : Bytes) (i : ℤ)
    → Distinct seen names fs
    → lookup n (names_of fs) ≡ some i
    → lookup i (indices_of fs) ≡ some n
unfolding lookup
by_name seen names [] n i d h = absurd (none-ne-some i h)
by_name seen names (f ∷ fs) n i d h =
    dite (bytes_eq.decide n f.name)
      (λ same.
        let index : f.index ≡ i = some-injective f.index i (
          sym (lookup_head f.name f.index (names_of fs))
          ∙ ap (λ x. lookup x (names_of (f ∷ fs))) (sym same)
          ∙ h) in
        ap (λ x. lookup x (indices_of (f ∷ fs))) (sym index)
        ∙ lookup_head f.index f.name (indices_of fs)
        ∙ ap some (sym same))
      (λ differ.
        let there =
          by_name (f.index ∷ seen) (f.name ∷ names) fs n i d.3
            (sym (lookup_tail n f.name f.index (names_of fs) differ) ∙ h) in
        lookup_tail i f.index f.name (indices_of fs) (λ p.
          none-ne-some n (
            sym (index_once seen names f fs d)
            ∙ ap (λ x. lookup x (indices_of fs)) (sym p)
            ∙ there))
        ∙ there)

by_index :
    (seen : List ℤ) (names : List Bytes) (fs : List Field) (i : ℤ) (n : Bytes)
    → Distinct seen names fs
    → lookup i (indices_of fs) ≡ some n
    → lookup n (names_of fs) ≡ some i
unfolding lookup
by_index seen names [] i n d h = absurd (none-ne-some n h)
by_index seen names (f ∷ fs) i n d h =
    dite (int_eq.decide i f.index)
      (λ same.
        let name : f.name ≡ n = some-injective f.name n (
          sym (lookup_head f.index f.name (indices_of fs))
          ∙ ap (λ x. lookup x (indices_of (f ∷ fs))) (sym same)
          ∙ h) in
        ap (λ x. lookup x (names_of (f ∷ fs))) (sym name)
        ∙ lookup_head f.name f.index (names_of fs)
        ∙ ap some (sym same))
      (λ differ.
        let there =
          by_index (f.index ∷ seen) (f.name ∷ names) fs i n d.3
            (sym (lookup_tail i f.index f.name (indices_of fs) differ) ∙ h) in
        lookup_tail n f.name f.index (names_of fs) (λ p.
          none-ne-some i
            (sym (name_once seen names f fs d) ∙ ap (λ x. lookup x (names_of fs)) (sym p) ∙ there))
        ∙ there)

-- Filling a map from entries that have different keys gives these entries.
module _ {K V : Type 0} ⦃e : Eq K⦄ where
  filled : (k : K) (m : Dict K V) → NodupKeys m → lookup k (rename (λ j. some j) m []) ≡ lookup k m
  unfolding lookup
  filled k m u = elim (Option-cases (lookup k m)) [
    | inl absent ↦
        rename_other (λ j. some j) k m []
          (λ j has to_k. has (ap (λ x. lookup x m) (some-injective j k to_k) ∙ absent))
        ∙ sym absent
    | inr (v, at) ↦
        rename_at (λ j. some j) k v k m [] u at refl (λ j has to_k. some-injective j k to_k)
        ∙ sym at
  ]

name_cache-eq :
    (m : Dict Bytes ℤ) (fs : List Field) → name_cache m fs ≡ rename (λ n. some n) (names_of fs) m
unfolding name_cache
name_cache-eq m [] = refl
name_cache-eq m (f ∷ fs) = name_cache-eq (insert f.name f.index m) fs

index_cache-eq :
    (m : Dict ℤ Bytes) (fs : List Field) → index_cache m fs ≡ rename (λ i. some i) (indices_of fs) m
unfolding index_cache
index_cache-eq m [] = refl
index_cache-eq m (f ∷ fs) = index_cache-eq (insert f.index f.name m) fs

pub lookup-name_cache :
    (fs : List Field) (n : Bytes)
    → Distinct [] [] fs
    → lookup n (name_cache [] fs) ≡ lookup n (names_of fs)
lookup-name_cache fs n d =
    ap (lookup n) (name_cache-eq [] fs) ∙ filled n (names_of fs) (names_of-NodupKeys [] [] fs d)

pub lookup-index_cache :
    (fs : List Field) (i : ℤ)
    → Distinct [] [] fs
    → lookup i (index_cache [] fs) ≡ lookup i (indices_of fs)
lookup-index_cache fs i d =
    ap (lookup i) (index_cache-eq [] fs)
    ∙ filled i (indices_of fs) (indices_of-NodupKeys [] [] fs d)

-- A name has an index in the one cache where the index has the name in the other.
pub index_of_name :
    (fs : List Field) (n : Bytes) (i : ℤ)
    → Distinct [] [] fs
    → lookup n (name_cache [] fs) ≡ some i
    → lookup i (index_cache [] fs) ≡ some n
index_of_name fs n i d h =
    lookup-index_cache fs i d ∙ by_name [] [] fs n i d (sym (lookup-name_cache fs n d) ∙ h)

pub name_of_index :
    (fs : List Field) (i : ℤ) (n : Bytes)
    → Distinct [] [] fs
    → lookup i (index_cache [] fs) ≡ some n
    → lookup n (name_cache [] fs) ≡ some i
name_of_index fs i n d h =
    lookup-name_cache fs n d ∙ by_index [] [] fs i n d (sym (lookup-index_cache fs i d) ∙ h)
