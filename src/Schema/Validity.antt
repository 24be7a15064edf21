-- ===== src/Schema/Validity.antt =====
-- `Schema.Validate` (pkg/schema/schema.go) decides what a schema promises.
use ts_store.Prelude.{
  ◌≡◌, ◌≢◌, ◌↔◌, refl, sym, ap, ◌∙◌, Bool, true, false, not, List, [], ◌∷◌, arith, if◌then◌else◌,
}
use mathlib.Core.Path.{subst}
use mathlib.Core.List.{cons-ne-nil}
use ts_store.Prelude.Int.{ℤ, pos, leb_ℤ}
use ts_store.Prelude.Equality.{Bytes, bytes_eq, int_eq}
use ts_store.Prelude.Outcome.{Outcome, done, failed}
use ts_store.Schema.{
  Err, invalid_schema, invalid_field_type, Schema, Field, is_empty_string, is_valid_type, member,
  validate, validate_fields,
}

-- One field is fit for a schema.
pub record IsFit (f : Field) : Type 0 where
  pub positive : leb_ℤ f.index (pos 0) ≡ false
  pub named : is_empty_string f.name ≡ false
  pub typed : is_valid_type f.field_type ≡ true

-- Fit fields, whose indices and names differ from each other and from those seen before.
abbrev pub Distinct : List ℤ → List Bytes → List Field → Type 0
Distinct seen names [] = Unit
Distinct seen names (f ∷ fs) =
    IsFit f
    × (member f.index seen ≡ false)
    × (member f.name names ≡ false)
    × Distinct (f.index ∷ seen) (f.name ∷ names) fs

pub record IsValid (s : Schema) : Type 0 where
  pub some_fields : s.fields ≢ []
  pub distinct : Distinct [] [] s.fields

Distinct-validate :
    (seen : List ℤ) (names : List Bytes) (fs : List Field)
    → Distinct seen names fs
    → validate_fields seen names fs ≡ done tt
unfolding validate_fields
Distinct-validate seen names [] d = refl
Distinct-validate seen names (f ∷ fs) (fit, index, name, d) = ground (
  arith,
  fit.positive,
  fit.named,
  fit.typed,
  index,
  name,
  Distinct-validate (f.index ∷ seen) (f.name ∷ names) fs d,
)

passed :
    (a b c d e : Bool) (rest : Outcome Err (Unit {0}))
    → (if a
        then failed invalid_schema
        else if b
        then failed invalid_schema
        else if not c
        then failed invalid_field_type
        else if d
        then failed invalid_schema
        else if e
        then failed invalid_schema
        else rest)
      ≡ done tt
    → (a ≡ false) × (b ≡ false) × (c ≡ true) × (d ≡ false) × (e ≡ false) × (rest ≡ done tt)
passed true b c d e rest h = absurd (ground (arith, h))
passed false true c d e rest h = absurd (ground (arith, h))
passed false false false d e rest h = absurd (ground (arith, h))
passed false false true true e rest h = absurd (ground (arith, h))
passed false false true false true rest h = absurd (ground (arith, h))
passed false false true false false rest h = (refl, refl, refl, refl, refl, h)

no_fields : ◌≢◌ {A = Outcome Err (Unit {0})} (failed invalid_schema) (done tt)
no_fields h = ground (arith, h)

validate-Distinct :
    (seen : List ℤ) (names : List Bytes) (fs : List Field)
    → validate_fields seen names fs ≡ done tt
    → Distinct seen names fs
unfolding validate_fields
validate-Distinct seen names [] h = tt
validate-Distinct seen names (f ∷ fs) h =
    let (positive, named, typed, index, name, rest) =
      passed (leb_ℤ f.index (pos 0)) (is_empty_string f.name) (is_valid_type f.field_type)
        (member f.index seen) (member f.name names)
        (validate_fields (f.index ∷ seen) (f.name ∷ names) fs) h in
    (
      record { positive = positive; named = named; typed = typed },
      index,
      name,
      validate-Distinct (f.index ∷ seen) (f.name ∷ names) fs rest,
    )

-- `Validate` accepts exactly the schemas that have a field and whose fields have positive indices, names,
-- valid types, and no index or name twice.
pub validate-IsValid : (s : Schema) → (validate s ≡ done tt) ↔ IsValid s
unfolding validate
validate-IsValid s = by_fields s.fields refl
  where
    by_fields : (fs : List Field) → s.fields ≡ fs → (validate s ≡ done tt) ↔ IsValid s
    by_fields [] e = (
      λ h. absurd (
          no_fields (
            ap
              (λ l. elim l [ [] ↦ failed invalid_schema | f ∷ fs ↦ validate_fields [] [] (f ∷ fs) ])
              (sym e)
            ∙ h)),
      λ v. absurd (v.some_fields e),
    )
    by_fields (f ∷ fs) e = (
      λ h. record {
        some_fields = λ q. cons-ne-nil f fs (sym e ∙ q);
        distinct = subst (Distinct [] []) (sym e) (
            validate-Distinct [] [] (f ∷ fs) (
              ap
                (λ l. elim l [
                  | [] ↦ failed invalid_schema
                  | f' ∷ fs' ↦ validate_fields [] [] (f' ∷ fs')
                ])
                (sym e)
              ∙ h));
      },
      λ v.
          ap
            (λ l. elim l [
              | [] ↦ failed invalid_schema
              | f' ∷ fs' ↦ validate_fields [] [] (f' ∷ fs')
            ])
            e
          ∙ Distinct-validate [] [] (f ∷ fs) (subst (Distinct [] []) e v.distinct),
    )
