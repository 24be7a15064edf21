-- ===== src/SchemaStore/Tests.antt =====
-- A schema store with one version, on which the theorem on pkg/store/schema.go holds.
use ts_store.Prelude.{refl, none, some, [], ◌∷◌}
use ts_store.Schema.Tests.{one_version, one_version-IsConsistent}
use ts_store.Schema.{new_schema_set}
use ts_store.Prelude.Dict.{lookup, insert}
use ts_store.Prelude.Equality.{nat_eq}
use ts_store.Store.Tests.{with_one}
use ts_store.SchemaStore.{SchemaStore, SetCodec, complete, save_schema}
use ts_store.SchemaStore.Reload.{ReadsBack, Reloaded, load_schema-save_schema}

-- The form of a set is its version; only version 1 can be read.
abbrev first_only : SetCodec
first_only = record {
  encode = λ v m. v ∷ [];
  decode = λ bs. elim bs [ [] ↦ none | v ∷ rest ↦ some (v, one_version.schemas) ];
}

abbrev with_schema : SchemaStore
with_schema = record {
  store = record with_one { meta = record (with_one.meta) { data_type = 3 } };
  schema_set = none;
  schema_file = none;
}

first_only-ReadsBack : ReadsBack first_only one_version
unfolding new_schema_set insert lookup
first_only-ReadsBack = record {
  schemas = one_version.schemas;
  reads = refl;
  once = (refl, tt);
  same = λ v. refl;
}

load_schema-save_schema_example :
    Reloaded first_only one_version (save_schema first_only complete one_version with_schema).1
load_schema-save_schema_example =
    load_schema-save_schema first_only one_version with_schema first_only-ReadsBack
      one_version-IsConsistent refl
