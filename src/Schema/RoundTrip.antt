-- ===== src/Schema/RoundTrip.antt =====
-- `FullToCompact` and then `CompactToFull` (pkg/schema/schema.go) give back the record.
use ts_store.Prelude.{
  ◌≡◌, ◌≢◌, refl, sym, ap, ◌∙◌, Option, none, some, [], ◌∷◌, arith, Option-cases, inl, inr,
}
use mathlib.Core.Option.{none-ne-some, some-ne-none, some-injective}
use ts_store.Prelude.Int.{ℤ}
use ts_store.Prelude.Equality.{Bytes, bytes_eq, int_eq}
use ts_store.Prelude.Dict.{Dict, lookup, insert, NodupKeys, lookup_head, has-cons}
use ts_store.Prelude.Outcome.{Outcome, done, failed}
use ts_store.Word.{IsInt64}
use ts_store.Strconv.{itoa, atoi, atoi-itoa}
use ts_store.Schema.{Err, field_not_in_schema, compact_from, expand_from}
use ts_store.Schema.Rename.{
  rename, rename_at, rename_other, rename-from, rename-NodupKeys, rename-none, rename-some,
}

-- The key that a name gets in the compact form, and back.
abbrev pub key_of : Dict Bytes ℤ → Bytes → Option Bytes
key_of index name = elim (lookup name index) [ none ↦ none | some i ↦ some (itoa i) ]

abbrev pub name_of : Dict ℤ Bytes → Bytes → Option Bytes
name_of names key = elim (atoi key) [ none ↦ none | some i ↦ lookup i names ]

key_of-some :
    (index : Dict Bytes ℤ) (n : Bytes) (i : ℤ)
    → lookup n index ≡ some i
    → key_of index n ≡ some (itoa i)
key_of-some index n i at = ap (λ o. elim o [ none ↦ none | some x ↦ some (itoa x) ]) at

name_of-number :
    (names : Dict ℤ Bytes) (k : Bytes) (i : ℤ) → atoi k ≡ some i → name_of names k ≡ lookup i names
name_of-number names k i number = ap (λ o. elim o [ none ↦ none | some j ↦ lookup j names ]) number

-- The two maps are inverse, and the indices are `int` values.
pub record IsInverse (index : Dict Bytes ℤ) (names : Dict ℤ Bytes) : Type 0 where
  pub forth : (n : Bytes) (i : ℤ) → lookup n index ≡ some i → lookup i names ≡ some n
  pub back : (i : ℤ) (n : Bytes) → lookup i names ≡ some n → lookup n index ≡ some i
  pub typed : (n : Bytes) (i : ℤ) → lookup n index ≡ some i → IsInt64 i

-- Two maps with the same entries.
abbrev pub Agrees : {V : Type 0} → Dict Bytes V → Dict Bytes V → Type 0
Agrees m n = (k : Bytes) → lookup k m ≡ lookup k n

module _ {V : Type 0} where
  failed-ne-done :
      (e : Err) (m : Dict Bytes V) → ◌≢◌ {A = Outcome Err (Dict Bytes V)} (failed e) (done m)
  failed-ne-done e m h = ground (arith, h)

  done-injective :
      (m n : Dict Bytes V) → ◌≡◌ {A = Outcome Err (Dict Bytes V)} (done m) (done n) → m ≡ n
  done-injective m n h = ap (λ r. elim r [ done x ↦ x | failed e ↦ m ]) h

  empty_lookup : (k : Bytes) → ◌≡◌ {A = Option V} (lookup k []) none
  unfolding lookup
  empty_lookup k = refl

  -- A compact form that is made renames every field.
  pub compact_from-rename :
      (index : Dict Bytes ℤ) (full acc c : Dict Bytes V)
      → compact_from index full acc ≡ done c
      → (rename (key_of index) full acc ≡ c)
        × ((n : Bytes) → lookup n full ≢ none → lookup n index ≢ none)
  unfolding compact_from lookup
  compact_from-rename index [] acc c h = (done-injective acc c h, λ n has. absurd (has refl))
  compact_from-rename index ((name, v) ∷ full) acc c h = elim (Option-cases (lookup name index)) [
    | inl absent ↦ absurd (failed-ne-done field_not_in_schema c (sym (step_none absent) ∙ h))
    | inr (i, at) ↦
        let rest =
          compact_from-rename index full (insert (itoa i) v acc) c (sym (step_some i at) ∙ h) in
        (
          rename-some (key_of index) name v (itoa i) full acc (key_of-some index name i at)
              ∙ rest.0,
          λ n has. ground (arith, has, rest.1 n, at),
        )
  ]
    where
      go : Option ℤ → Outcome Err (Dict Bytes V)
      go o = elim o [
        | none ↦ failed field_not_in_schema
        | some i ↦ compact_from index full (insert (itoa i) v acc)
      ]

      step_none :
          lookup name index ≡ none
          → compact_from index ((name, v) ∷ full) acc ≡ failed field_not_in_schema
      step_none absent = ap go absent

      step_some :
          (i : ℤ)
          → lookup name index ≡ some i
          → compact_from index ((name, v) ∷ full) acc
            ≡ compact_from index full (insert (itoa i) v acc)
      step_some i at = ap go at

  -- A record with no field outside the schema has a compact form.
  pub compact_from-total :
      (index : Dict Bytes ℤ) (full acc : Dict Bytes V)
      → ((n : Bytes) → lookup n full ≢ none → lookup n index ≢ none)
      → (c : Dict Bytes V) × (compact_from index full acc ≡ done c)
  unfolding compact_from
  compact_from-total index [] acc all = (acc, refl)
  compact_from-total index ((name, v) ∷ full) acc all = elim (Option-cases (lookup name index)) [
    | inl absent ↦
        absurd (all name (λ q. some-ne-none v (sym (lookup_head name v full) ∙ q)) absent)
    | inr (i, at) ↦
        let (c, runs) =
          compact_from-total index full (insert (itoa i) v acc)
            (λ n has. all n (has-cons n name v full has)) in
        (c, rw (at, compact_from) runs)
  ]

  -- A record whose keys are numbers is expanded by renaming, where a key with no name is dropped.
  expand_from-rename :
      (names : Dict ℤ Bytes) (c acc : Dict Bytes V)
      → ((k : Bytes) → lookup k c ≢ none → atoi k ≢ none)
      → expand_from names c acc ≡ done (rename (name_of names) c acc)
  unfolding expand_from
  expand_from-rename names [] acc numbers = refl
  expand_from-rename names ((k, v) ∷ c) acc numbers =
      let rest = λ (acc' : Dict Bytes V).
        expand_from-rename names c acc' (λ k' has. numbers k' (has-cons k' k v c has)) in
      elim (Option-cases (atoi k)) [
        | inl bad ↦ absurd (numbers k (λ q. some-ne-none v (sym (lookup_head k v c) ∙ q)) bad)
        | inr (i, number) ↦ elim (Option-cases (lookup i names)) [
          | inl no_name ↦
              rw (number, expand_from, no_name)
                (rest acc
                  ∙ ap {B = Outcome Err (Dict Bytes V)} done (
                      sym (
                        rename-none (name_of names) k v c acc
                          (name_of-number names k i number ∙ no_name))))
          | inr (n, name) ↦
              rw (number, expand_from, name)
                (rest (insert n v acc)
                  ∙ ap {B = Outcome Err (Dict Bytes V)} done (
                      sym (
                        rename-some (name_of names) k v n c acc
                          (name_of-number names k i number ∙ name))))
        ]
      ]

  module _ (index : Dict Bytes ℤ) (names : Dict ℤ Bytes) (inv : IsInverse index names)
      (full c c' : Dict Bytes V) (u : NodupKeys full) (u' : NodupKeys c')
      (made : compact_from index full [] ≡ done c) (same : Agrees c' c) where
    -- No other field has the key of a field: the index goes back to one name, and the digits to one index.
    only_name :
        (n : Bytes) (i : ℤ)
        → lookup n index ≡ some i
        → (n' : Bytes) → lookup n' full ≢ none
        → key_of index n' ≡ some (itoa i)
        → n' ≡ n
    only_name n i at n' has to_key = elim (Option-cases (lookup n' index)) [
      | inl missing ↦ absurd (
          none-ne-some (itoa i)
            (sym (ap (λ o. elim o [ none ↦ none | some x ↦ some (itoa x) ]) missing) ∙ to_key))
      | inr (i', at') ↦
          let digits : itoa i' ≡ itoa i =
            some-injective (itoa i') (itoa i) (sym (key_of-some index n' i' at') ∙ to_key) in
          let index_same : i' ≡ i = some-injective i' i (
            sym (atoi-itoa i' (inv.typed n' i' at'))
            ∙ ap atoi digits
            ∙ atoi-itoa i (inv.typed n i at)) in
          some-injective n' n
            (sym (inv.forth n' i' at') ∙ ap (λ x. lookup x names) index_same ∙ inv.forth n i at)
    ]

    -- A key of the compact form is that of a field.
    source_of :
        (k : Bytes)
        → lookup k c' ≢ none
        → (n : Bytes) × (i : ℤ) × (lookup n full ≢ none) × (lookup n index ≡ some i) × (k ≡ itoa i)
    source_of k has =
        let (is_copy, all) = compact_from-rename index full [] c made in
        elim (rename-from (key_of index) k full []
          (λ q. has (same k ∙ ap (lookup k) (sym is_copy) ∙ q))) [
            | inl there ↦ absurd (there (empty_lookup k))
            | inr (n, in_full, to_k) ↦ elim (Option-cases (lookup n index)) [
              | inl absent ↦ absurd (all n in_full absent)
              | inr (i, at) ↦ (
                n,
                i,
                in_full,
                at,
                sym (some-injective (itoa i) k (sym (key_of-some index n i at) ∙ to_k)),
              )
            ]
          ]

    number_of : (k : Bytes) → lookup k c' ≢ none → atoi k ≢ none
    number_of k has =
        let (n, i, in_full, at, e) = source_of k has in
        λ q. some-ne-none i (sym (atoi-itoa i (inv.typed n i at)) ∙ ap atoi (sym e) ∙ q)

    -- The name of a key of the compact form is that of its field.
    named : (n : Bytes) (i : ℤ) → lookup n index ≡ some i → name_of names (itoa i) ≡ some n
    named n i at =
        name_of-number names (itoa i) i (atoi-itoa i (inv.typed n i at)) ∙ inv.forth n i at

    abbrev pub full' : Dict Bytes V
    full' = rename (name_of names) c' []

    present : (n : Bytes) (v : V) → lookup n full ≡ some v → lookup n full' ≡ some v
    present n v h =
        let (is_copy, all) = compact_from-rename index full [] c made in
        elim (Option-cases (lookup n index)) [
          | inl absent ↦ absurd (all n (λ q. some-ne-none v (sym h ∙ q)) absent)
          | inr (i, at) ↦
              let in_c : lookup (itoa i) c ≡ some v =
                ap (lookup (itoa i)) (sym is_copy)
                ∙ rename_at (key_of index) n v (itoa i) full [] u h (key_of-some index n i at)
                    (λ n' has to_key. only_name n i at n' has to_key) in
              rename_at (name_of names) (itoa i) v n c' [] u' (same (itoa i) ∙ in_c) (named n i at)
                (λ k has to_n.
                  let (n2, i2, in_full, at2, e) = source_of k has in
                  let same_name : n2 ≡ n =
                    some-injective n2 n
                      (sym (named n2 i2 at2) ∙ ap (name_of names) (sym e) ∙ to_n) in
                  let same_index : i2 ≡ i =
                    some-injective i2 i (sym at2 ∙ ap (λ x. lookup x index) same_name ∙ at) in
                  e ∙ ap itoa same_index)
        ]

    absent : (n : Bytes) → lookup n full ≡ none → lookup n full' ≡ none
    absent n h =
        rename_other (name_of names) n c' [] (λ k has to_n.
          let (n2, i2, in_full, at2, e) = source_of k has in
          let same_name : n2 ≡ n =
            some-injective n2 n (sym (named n2 i2 at2) ∙ ap (name_of names) (sym e) ∙ to_n) in
          in_full (ap (λ x. lookup x full) same_name ∙ h))
        ∙ empty_lookup n

    pub expand-compact :
        (expand_from names c' [] ≡ done full') × NodupKeys full' × Agrees full' full
    expand-compact = (
      expand_from-rename names c' [] number_of,
      rename-NodupKeys (name_of names) c' [] tt,
      λ n. elim (Option-cases (lookup n full)) [
        | inl none_there ↦ absent n none_there ∙ sym none_there
        | inr (v, there) ↦ present n v there ∙ sym there
      ],
    )
