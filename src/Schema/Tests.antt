-- ===== src/Schema/Tests.antt =====
-- A set of two schema versions, and a plain encoding of maps, on which the theorems on
-- pkg/schema/schema.go hold.
use ts_store.Prelude.{
  ℕ, zero, suc, ◌≡◌, refl, sym, ap, ◌∙◌, some, none, [], ◌∷◌, ◌++◌, map, ◌⊎◌, ◌↔◌, inl, inr, ◌≢◌,
  arith,
}
use native.Mathlib.Decide.{ℕ_discrete}
use mathlib.Core.Path.{subst}
use ts_store.Prelude.Int.{ℤ, pos}
use ts_store.Prelude.Equality.{Bytes, nat_eq, bytes_eq, bytes_dec, int_eq, int_dec}
use ts_store.Prelude.Dict.{Dict, lookup, insert, NodupKeys}
use ts_store.Prelude.Outcome.{done, failed}
use ts_store.Word.{IsInt64}
use ts_store.Schema.{
  Err, SchemaSet, new_schema_set, validate, add_schema, int32, string, Json, full_to_compact,
  compact_to_full, name_cache,
}
use ts_store.Schema
use ts_store.Schema.Validity.{IsValid, validate-IsValid}
use ts_store.Schema.RoundTrip.{Agrees}
use ts_store.Schema.Versions.{
  IsConsistent, new_schema_set-IsConsistent, add_schema-IsConsistent, grown-IsConsistent, grown,
  IsFaithful, compact_to_full-full_to_compact,
}

abbrev first_schema : Schema.Schema
first_schema = record {
  version = 0;
  fields =
      record { index = pos 1; name = 116 ∷ []; field_type = int32 }
      ∷ record { index = pos 2; name = 104 ∷ []; field_type = string }
      ∷ [];
}

abbrev second_schema : Schema.Schema
second_schema = record {
  version = 0;
  fields = record { index = pos 3; name = 112 ∷ []; field_type = int32 } ∷ first_schema.fields;
}

first_schema-IsValid : IsValid first_schema
unfolding validate Schema.validate_fields int_eq int_dec bytes_eq bytes_dec ℕ_discrete
first_schema-IsValid = (validate-IsValid first_schema).0 refl

abbrev pub one_version : SchemaSet
one_version = grown first_schema new_schema_set new_schema_set-IsConsistent

pub one_version-IsConsistent : IsConsistent one_version
one_version-IsConsistent =
    grown-IsConsistent first_schema new_schema_set new_schema_set-IsConsistent first_schema-IsValid

validate-IsValid_example : (validate second_schema ≡ done tt) ↔ IsValid second_schema
validate-IsValid_example = validate-IsValid second_schema

add_schema-IsConsistent_example :
    ((e : Err) × (add_schema second_schema one_version ≡ (failed e, one_version)))
    ⊎ ((ss' : SchemaSet) × (add_schema second_schema one_version ≡ (done 2, ss'))
        × (lookup 2 ss'.schemas ≡ some (record second_schema { version = 2 }))
        × IsConsistent ss')
unfolding new_schema_set
add_schema-IsConsistent_example =
    add_schema-IsConsistent second_schema one_version one_version-IsConsistent

-- A name is written with its bytes raised by one, then a 0 and the value.
write : Dict Bytes ℕ → Bytes
write [] = []
write ((k, v) ∷ m) = map suc k ++ (0 ∷ v ∷ write m)

extend : ℕ → Dict Bytes ℕ → Dict Bytes ℕ
extend c [] = []
extend c ((k, v) ∷ m) = (c ∷ k, v) ∷ m

read : Bytes → Dict Bytes ℕ
read [] = []
read (zero ∷ []) = []
read (zero ∷ v ∷ bs) = ([], v) ∷ read bs
read (suc c ∷ bs) = extend c (read bs)

read_entry : (k : Bytes) (v : ℕ) (bs : Bytes) → read (map suc k ++ (0 ∷ v ∷ bs)) ≡ (k, v) ∷ read bs
unfolding read extend
read_entry [] v bs = refl
read_entry (c ∷ k) v bs = ap (extend c) (read_entry k v bs)

read-write : (m : Dict Bytes ℕ) → read (write m) ≡ m
unfolding write read
read-write [] = refl
read-write ((k, v) ∷ m) = read_entry k v (write m) ∙ ap (λ n. (k, v) ∷ n) (read-write m)

plain_json : Json
plain_json = record { Value = ℕ; unmarshal = λ bs. some (read bs); marshal = write }

plain_json-IsFaithful : IsFaithful plain_json
unfolding plain_json
plain_json-IsFaithful = record { read_back = λ m u. (m, ap some (read-write m), u, λ n. refl) }

abbrev reading : Dict Bytes ℕ
reading = (104 ∷ [], 45) ∷ (116 ∷ [], 72) ∷ []

reading_once : NodupKeys reading
unfolding lookup bytes_eq bytes_dec ℕ_discrete
reading_once = (refl, (refl, tt))

abbrev names_cached : Dict Bytes ℤ
names_cached = (116 ∷ [], pos 1) ∷ (104 ∷ [], pos 2) ∷ []

name_cache_lem : name_cache [] first_schema.fields ≡ names_cached
unfolding name_cache insert bytes_eq bytes_dec ℕ_discrete
name_cache_lem = refl

index_known : (n : Bytes) (i : ℤ) → lookup n names_cached ≡ some i → (pos 1 ≡ i) ⊎ (pos 2 ≡ i)
unfolding lookup
index_known n i h = ground (arith, h)

indices_typed :
    (n : Bytes) (i : ℤ) → lookup n (name_cache [] first_schema.fields) ≡ some i → IsInt64 i
indices_typed n i h = elim (index_known n i (ap (lookup n) (sym name_cache_lem) ∙ h)) [
  | inl e ↦ subst IsInt64 e (omega arith)
  | inr e ↦ subst IsInt64 e (omega arith)
]

known_name : (n : Bytes) → lookup n reading ≢ none → lookup n names_cached ≢ none
unfolding lookup
known_name n h = ground (arith, h)

reading_known :
    (n : Bytes) → lookup n reading ≢ none → lookup n (name_cache [] first_schema.fields) ≢ none
reading_known n h q = known_name n h (ap (lookup n) (sym name_cache_lem) ∙ q)

compact_to_full-full_to_compact_example :
    (compact : Bytes) × (back : Bytes) × (full_to_compact plain_json
        (105 ∷ 0 ∷ 45 ∷ 117 ∷ 0 ∷ 72 ∷ [])
        one_version
      ≡ done compact)
    × (compact_to_full plain_json compact 0 one_version ≡ done back)
    × (m : Dict Bytes ℕ) × (some (read back) ≡ some m)
    × Agrees m reading
unfolding new_schema_set plain_json read extend lookup insert nat_eq ℕ_discrete
compact_to_full-full_to_compact_example =
    compact_to_full-full_to_compact plain_json plain_json-IsFaithful one_version
      one_version-IsConsistent (record first_schema { version = 1 }) refl indices_typed
      (105 ∷ 0 ∷ 45 ∷ 117 ∷ 0 ∷ 72 ∷ []) reading refl reading_once reading_known
