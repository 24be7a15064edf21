-- ===== src/Schema.antt =====
-- pkg/schema/schema.go: versioned schemas and the compact form of records.
pub mod Rename
pub mod Validity
pub mod Caches
pub mod RoundTrip
pub mod Versions
pub mod Tests
use ts_store.Prelude.{
  ℕ, zero, suc, ◌+◌, Bool, true, false, not, ◌&&◌, ◌||◌, Option, none, some, List, [], ◌∷◌, ◌==◌,
  ltb, if◌then◌else◌,
}
use ts_store.Prelude.Int.{ℤ, pos, leb_ℤ}
use ts_store.Prelude.Equality.{Eq, ◌=?◌, Bytes, nat_eq, bytes_eq, int_eq}
use ts_store.Prelude.Dict.{Dict, lookup, insert}
use ts_store.Prelude.Outcome.{Outcome, done, failed, ◌>>=◌}
use ts_store.Strconv.{itoa, atoi}

pub data Err : Type 0 where
  invalid_schema field_not_in_schema invalid_field_type missing_field : Err
  invalid_json version_mismatch invalid_compact_key : Err

-- The strings that `ValidFieldTypes` holds, and any other string.
pub data FieldType : Type 0 where
  int8 int16 int32 int64 uint8 uint16 uint32 uint64 float32 float64 boolean string : FieldType
  other : Bytes → FieldType

pub record Field : Type 0 where
  pub index : ℤ
  pub name : Bytes
  pub field_type : FieldType

pub record Schema : Type 0 where
  pub version : ℕ
  pub fields : List Field

-- Versions count from 1; a negative version is in no map.
pub record SchemaSet : Type 0 where
  pub current_version : ℕ
  pub schemas : Dict ℕ Schema
  pub name_to_index : Dict ℕ (Dict Bytes ℤ)
  pub index_to_name : Dict ℕ (Dict ℤ Bytes)

unfoldable pub new_schema_set : SchemaSet
new_schema_set = record {
  current_version = 0;
  schemas = [];
  name_to_index = [];
  index_to_name = [];
}

abbrev pub is_valid_type : FieldType → Bool
is_valid_type (other s) = false
is_valid_type _ = true

abbrev pub is_empty_string : Bytes → Bool
is_empty_string [] = true
is_empty_string (c ∷ cs) = false

abbrev pub member {ℓ} : {A : Type ℓ} ⦃e : Eq A⦄ → A → List A → Bool
member a [] = false
member a (x ∷ xs) = a =? x || member a xs

-- The loop of `Validate`, with the indices and names that it has seen.
unfoldable pub validate_fields : List ℤ → List Bytes → List Field → Outcome Err (Unit {0})
validate_fields seen names [] = done tt
validate_fields seen names (f ∷ fs) =
    let rest = validate_fields (f.index ∷ seen) (f.name ∷ names) fs in
    if leb_ℤ f.index (pos 0)
    then failed invalid_schema
    else if is_empty_string f.name
    then failed invalid_schema
    else if not (is_valid_type f.field_type)
    then failed invalid_field_type
    else if member f.index seen
    then failed invalid_schema
    else if member f.name names
    then failed invalid_schema
    else rest

unfoldable pub validate : Schema → Outcome Err (Unit {0})
validate s = elim s.fields [ [] ↦ failed invalid_schema | f ∷ fs ↦ validate_fields [] [] (f ∷ fs) ]

-- Go's `==` on field types, which are strings.
abbrev pub same_type : FieldType → FieldType → Bool
same_type int8 int8 = true
same_type int16 int16 = true
same_type int32 int32 = true
same_type int64 int64 = true
same_type uint8 uint8 = true
same_type uint16 uint16 = true
same_type uint32 uint32 = true
same_type uint64 uint64 = true
same_type float32 float32 = true
same_type float64 float64 = true
same_type boolean boolean = true
same_type string string = true
same_type (other s) (other t) = s =? t
same_type _ _ = false

abbrev pub existing_from : Dict ℤ Field → List Field → Dict ℤ Field
existing_from m [] = m
existing_from m (f ∷ fs) = existing_from (insert f.index f m) fs

unfoldable pub unchanged_fields : Dict ℤ Field → List Field → Outcome Err (Unit {0})
unchanged_fields existing [] = done tt
unchanged_fields existing (f ∷ fs) =
    let rest = unchanged_fields existing fs in
    elim (lookup f.index existing) [
      | none ↦ rest
      | some old ↦
          if not (old.name =? f.name) || not (same_type old.field_type f.field_type)
          then failed invalid_schema
          else rest
    ]

unfoldable pub validate_append_only : Schema → Schema → Outcome Err (Unit {0})
validate_append_only current new = unchanged_fields (existing_from [] current.fields) new.fields

-- The two loops of `buildCache` in one version.
unfoldable pub name_cache : Dict Bytes ℤ → List Field → Dict Bytes ℤ
name_cache m [] = m
name_cache m (f ∷ fs) = name_cache (insert f.name f.index m) fs

unfoldable pub index_cache : Dict ℤ Bytes → List Field → Dict ℤ Bytes
index_cache m [] = m
index_cache m (f ∷ fs) = index_cache (insert f.index f.name m) fs

unfoldable pub build_cache : ℕ → Schema → SchemaSet → SchemaSet
build_cache version s ss = record ss {
  name_to_index = insert version (name_cache [] s.fields) ss.name_to_index;
  index_to_name = insert version (index_cache [] s.fields) ss.index_to_name;
}

-- The check of `AddSchema` against the present version.
abbrev pub compatible : SchemaSet → Schema → Outcome Err (Unit {0})
compatible ss s = elim (ltb 0 ss.current_version) [
  | false ↦ done tt
  | true ↦ elim (lookup ss.current_version ss.schemas) [
    | none ↦ failed invalid_schema
    | some current ↦ validate_append_only current s
  ]
]

-- `AddSchema`: the set that it leaves and the new version. A set that is in order has its current
-- version in the map, where the code follows the pointer without a check.
unfoldable pub add_schema : Schema → SchemaSet → Outcome Err ℕ × SchemaSet
add_schema s ss =
    let version = ss.current_version + 1 in
    let s' = record s { version = version } in
    elim (validate s) [
      | failed e ↦ (failed e, ss)
      | done _ ↦ elim (compatible ss s') [
        | failed e ↦ (failed e, ss)
        | done _ ↦ (
          done version,
          build_cache version s'
              (record ss { current_version = version; schemas = insert version s' ss.schemas }),
        )
      ]
    ]

unfoldable pub get_schema : ℕ → SchemaSet → Outcome Err Schema
get_schema version ss = elim (lookup version ss.schemas) [
  | none ↦ failed version_mismatch
  | some s ↦ done s
]

-- A missing entry is a nil pointer in the code.
unfoldable pub get_current_schema : SchemaSet → Outcome Err (Option Schema)
get_current_schema ss =
    if ss.current_version == 0
    then failed invalid_schema
    else done (lookup ss.current_version ss.schemas)

-- `m[version]` of a map of maps, where a missing entry is an empty map.
abbrev pub cache_at {ℓ κ} : {K : Type ℓ} {V : Type κ} → ℕ → Dict ℕ (Dict K V) → Dict K V
cache_at version m = elim (lookup version m) [ none ↦ [] | some c ↦ c ]

module _ {V : Type 0} where
  -- The loop of `FullToCompact` over the fields of a record.
  unfoldable pub compact_from :
      Dict Bytes ℤ → Dict Bytes V → Dict Bytes V → Outcome Err (Dict Bytes V)
  compact_from index [] compact = done compact
  compact_from index ((name, v) ∷ full) compact = elim (lookup name index) [
    | none ↦ failed field_not_in_schema
    | some idx ↦ compact_from index full (insert (itoa idx) v compact)
  ]

  -- The loop of `CompactToFull`; a field that this version lacks is passed over.
  unfoldable pub expand_from :
      Dict ℤ Bytes → Dict Bytes V → Dict Bytes V → Outcome Err (Dict Bytes V)
  expand_from names [] full = done full
  expand_from names ((key, v) ∷ compact) full = elim (atoi key) [
    | none ↦ failed invalid_compact_key
    | some idx ↦ elim (lookup idx names) [
      | none ↦ expand_from names compact full
      | some name ↦ expand_from names compact (insert name v full)
    ]
  ]

  unfoldable pub validate_full : SchemaSet → Dict Bytes V → Outcome Err (Unit {0})
  validate_full ss [] = done tt
  validate_full ss ((name, v) ∷ fields) =
      let rest = validate_full ss fields in
      elim (lookup name (cache_at ss.current_version ss.name_to_index)) [
        | none ↦ failed field_not_in_schema
        | some _ ↦ rest
      ]

  unfoldable pub validate_compact : SchemaSet → Dict Bytes V → Outcome Err (Unit {0})
  validate_compact ss [] = done tt
  validate_compact ss ((key, v) ∷ fields) =
      let rest = validate_compact ss fields in
      elim (atoi key) [
        | none ↦ failed invalid_compact_key
        | some idx ↦ elim (lookup idx (cache_at ss.current_version ss.index_to_name)) [
          | none ↦ failed field_not_in_schema
          | some _ ↦ rest
        ]
      ]

  -- The first key decides, in the order in which Go ranges over the map.
  abbrev pub is_compact : Dict Bytes V → Bool
  is_compact [] = false
  is_compact ((key, v) ∷ fields) = elim (atoi key) [ none ↦ false | some _ ↦ true ]

-- `encoding/json` on objects: the value type, `Unmarshal` into a map, and `Marshal`.
pub record Json : Type 1 where
  pub Value : Type 0
  pub unmarshal : Bytes → Option (Dict Bytes Value)
  pub marshal : Dict Bytes Value → Bytes

module _ (J : Json) where
  abbrev pub parse : Bytes → Outcome Err (Dict Bytes J.Value)
  parse bs = elim (J.unmarshal bs) [ none ↦ failed invalid_json | some m ↦ done m ]

  unfoldable pub full_to_compact : Bytes → SchemaSet → Outcome Err Bytes
  full_to_compact bs ss = if ss.current_version == 0 then failed invalid_schema else (do
    full ← parse bs
    compact ← compact_from (cache_at ss.current_version ss.name_to_index) full []
    done (J.marshal compact))

  unfoldable pub compact_to_full : Bytes → ℕ → SchemaSet → Outcome Err Bytes
  compact_to_full bs version ss =
      let version' = if version == 0 then ss.current_version else version in
      if version' == 0 then failed invalid_schema else elim (lookup version' ss.index_to_name) [
        | none ↦ failed version_mismatch
        | some names ↦ do
          compact ← parse bs
          full ← expand_from names compact []
          done (J.marshal full)
      ]

  unfoldable pub validate_data : Bytes → SchemaSet → Outcome Err (Unit {0})
  validate_data bs ss = if ss.current_version == 0 then failed invalid_schema else (do
    fields ← parse bs
    if is_compact fields then validate_compact ss fields else validate_full ss fields)
