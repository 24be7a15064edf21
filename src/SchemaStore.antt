-- ===== src/SchemaStore.antt =====
-- pkg/store/schema.go: a store with its schema set, which is kept in a file beside the blocks.
pub mod Reload
mod Tests
use ts_store.Prelude.{ℕ, Bool, true, false, Option, none, some, [], ◌∷◌, ◌==◌, if◌then◌else◌}
use ts_store.Prelude.Equality.{Bytes}
use ts_store.Prelude.Dict.{Dict}
use ts_store.Prelude.Outcome.{Outcome, done, failed, ◌>>=◌}
use ts_store.Schema
use ts_store.Schema.{
  SchemaSet, Json, new_schema_set, build_cache, add_schema, get_current_schema, validate_data,
  full_to_compact, compact_to_full,
}
use ts_store.File.{File}
use ts_store.Store.State.Errors
use ts_store.Store.State.Errors.{ok, err}
use ts_store.Store.Lifecycle.{open_store}
use ts_store.Store.State.{Store}

-- The errors of pkg/store that these methods return, those of pkg/schema, and those of the file.
pub data Err : Type 0 where
  schema_not_supported schema_required file_failed invalid_file store_not_found : Err
  from_store : Errors.Err → Err
  from_schema : Schema.Err → Err

-- The fields of `Store` that the schema methods use besides its metadata: `schemaSet`, and the content of
-- the file `schema.json`.
pub record SchemaStore : Type 0 where
  pub store : Store
  pub schema_set : Option SchemaSet
  pub schema_file : Option Bytes

-- The JSON form of a schema set: its current version and its schemas.
pub record SetCodec : Type 0 where
  pub encode : ℕ → Dict ℕ Schema.Schema → Bytes
  pub decode : Bytes → Option (ℕ × Dict ℕ Schema.Schema)

-- `DataTypeSchema`
abbrev pub data_type_schema : ℕ
data_type_schema = 3

abbrev pub is_schema_store : SchemaStore → Bool
is_schema_store st = st.store.meta.data_type == data_type_schema

abbrev pub from_schemas : {A : Type 0} → Outcome Schema.Err A → Outcome Err A
from_schemas (done a) = done a
from_schemas (failed e) = failed (from_schema e)

-- `buildCache` of every schema, in `UnmarshalJSON`.
unfoldable pub build_caches : Dict ℕ Schema.Schema → SchemaSet → SchemaSet
build_caches [] ss = ss
build_caches ((v, s) ∷ m) ss = build_caches m (build_cache v s ss)

-- `UnmarshalJSON` of a set that was read.
unfoldable pub rebuilt : ℕ → Dict ℕ Schema.Schema → SchemaSet
rebuilt version schemas = build_caches schemas (record {
  current_version = version;
  schemas = schemas;
  name_to_index = [];
  index_to_name = [];
})

unfoldable pub get_schema : SchemaStore → Outcome Err (Option Schema.Schema)
get_schema st =
    if is_schema_store st
    then elim st.schema_set [
      | none ↦ failed schema_required
      | some ss ↦ from_schemas (get_current_schema ss)
    ]
    else failed schema_not_supported

-- `GetSchemaSet`
abbrev pub get_schema_set : SchemaStore → Option SchemaSet
get_schema_set st = st.schema_set

-- How `os.WriteFile` ends: a failed write may leave something else in the file.
pub data Write : Type 0 where
  complete : Write
  broken : Option Bytes → Write

module _ (C : SetCodec) where
  abbrev pub encoded : SchemaSet → Bytes
  encoded ss = C.encode ss.current_version ss.schemas

  unfoldable pub save_schema :
      Write → SchemaSet → SchemaStore → Outcome Err (Unit {0}) × SchemaStore
  save_schema complete ss st = (done tt, record st { schema_file = some (encoded ss) })
  save_schema (broken left) ss st = (failed file_failed, record st { schema_file = left })

  abbrev pub set_or_new : Option SchemaSet → SchemaSet
  set_or_new none = new_schema_set
  set_or_new (some ss) = ss

  -- The set in memory has the new version also where it could not be written.
  abbrev pub persisted : Write → ℕ → SchemaSet → SchemaStore → Outcome Err ℕ × SchemaStore
  persisted w version ss st =
      let saved = save_schema w ss (record st { schema_set = some ss }) in
      elim saved.0 [ failed e ↦ (failed e, saved.1) | done _ ↦ (done version, saved.1) ]

  abbrev pub persist_added :
      Write → Outcome Schema.Err ℕ × SchemaSet → SchemaStore → Outcome Err ℕ × SchemaStore
  persist_added w (r, ss) st = elim r [
    | failed e ↦ (failed (from_schema e), record st { schema_set = some ss })
    | done version ↦ persisted w version ss st
  ]

  unfoldable pub set_schema : Write → Schema.Schema → SchemaStore → Outcome Err ℕ × SchemaStore
  set_schema w sch st =
      if is_schema_store st
      then persist_added w (add_schema sch (set_or_new st.schema_set)) st
      else (failed schema_not_supported, st)

  -- A file that cannot be read (`readable`) for another reason than that it is missing fails.
  unfoldable pub load_schema : Bool → SchemaStore → Outcome Err (Unit {0}) × SchemaStore
  load_schema readable st =
      if is_schema_store st
      then elim st.schema_file [
        | none ↦ (done tt, record st { schema_set = none })
        | some bs ↦ elim readable [
          | false ↦ (failed file_failed, st)
          | true ↦ elim (C.decode bs) [
            | none ↦ (failed invalid_file, record st { schema_set = some new_schema_set })
            | some (version, schemas) ↦
                (done tt, record st { schema_set = some (rebuilt version schemas) })
          ]
        ]
      ]
      else (done tt, st)

  -- `Open`, where the files of the store are opened without fault: whether the directory of the store is there, the files of the store, the schema file and whether it can be
  -- read.
  unfoldable pub open_existing :
      Bool → File → File → File → Option Bytes → Bool → Outcome Err SchemaStore
  open_existing exists data_file index_file meta_file schema_file readable =
      if exists
      then elim (open_store data_file index_file meta_file) [
        | err e ↦ failed (from_store e)
        | ok s ↦
            let loaded =
              load_schema readable
                (record { store = s; schema_set = none; schema_file = schema_file }) in
            elim loaded.0 [ failed e ↦ failed e | done _ ↦ done loaded.1 ]
      ]
      else failed store_not_found

module _ (J : Json) where
  abbrev pub with_set :
      {A : Type 0} → (SchemaSet → Outcome Schema.Err A) → SchemaStore → Outcome Err A
  with_set f st =
      if is_schema_store st
      then elim st.schema_set [ none ↦ failed schema_required | some ss ↦ from_schemas (f ss) ]
      else failed schema_not_supported

  unfoldable pub validate_and_compact : Bytes → SchemaStore → Outcome Err Bytes
  validate_and_compact bs st =
      with_set (λ ss. do _ ← validate_data J bs ss; full_to_compact J bs ss) st

  unfoldable pub expand_data : Bytes → ℕ → SchemaStore → Outcome Err Bytes
  expand_data bs version st = with_set (compact_to_full J bs version) st
