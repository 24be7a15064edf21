-- ===== src/SchemaStore/Reload.antt =====
-- A schema set that is saved and loaded again (pkg/store/schema.go, `UnmarshalJSON` of pkg/schema/schema.go).
use ts_store.Prelude.{ℕ, ◌≡◌, ◌≤◌, refl, sym, ap, ◌∙◌, true, Option, none, some, List, [], ◌∷◌}
use mathlib.Core.Path.{subst}
use mathlib.Core.Logic.{dite}
use native.Mathlib.Decide.{ℕ_discrete}
use ts_store.Prelude.Equality.{nat_eq, bytes_eq, int_eq}
use ts_store.Prelude.Dict.{
  Dict, lookup, insert, NodupKeys, lookup_self, lookup_other, lookup_head, lookup_tail,
}
use ts_store.Prelude.Outcome.{done}
use ts_store.Schema
use ts_store.Schema.{SchemaSet, Field, name_cache, index_cache, build_cache}
use ts_store.Schema.Versions.{IsConsistent}
use ts_store.SchemaStore.{
  SchemaStore, SetCodec, complete, build_caches, rebuilt, save_schema, load_schema, is_schema_store,
  encoded,
}

-- The cache of a version that is in the map, or else what was there.
abbrev cached : {X : Type 0} → (List Field → X) → Option Schema.Schema → Option X → Option X
cached f none old = old
cached f (some s) old = some (f s.fields)

build_caches-names :
    (v : ℕ) (m : Dict ℕ Schema.Schema) (ss : SchemaSet)
    → NodupKeys m
    → lookup v (build_caches m ss).name_to_index
      ≡ cached (name_cache []) (lookup v m) (lookup v ss.name_to_index)
unfolding build_caches build_cache lookup
build_caches-names v [] ss u = refl
build_caches-names v ((k, s) ∷ m) ss (fresh, u) =
    build_caches-names v m (build_cache k s ss) u
    ∙ dite (ℕ_discrete v k)
        (λ same.
          subst
            (λ x.
              cached (name_cache []) (lookup x m)
                (lookup x (insert k (name_cache [] s.fields) ss.name_to_index))
              ≡ cached (name_cache []) (lookup x ((k, s) ∷ m)) (lookup x ss.name_to_index))
            (sym same)
            (ap
                (λ o.
                  cached (name_cache []) o
                    (lookup k (insert k (name_cache [] s.fields) ss.name_to_index)))
                fresh
              ∙ lookup_self k (name_cache [] s.fields) ss.name_to_index
              ∙ ap (λ o. cached (name_cache []) o (lookup k ss.name_to_index))
                  (sym (lookup_head k s m))))
        (λ differ.
          ap (cached (name_cache []) (lookup v m))
            (lookup_other v k (name_cache [] s.fields) ss.name_to_index differ)
          ∙ ap (λ o. cached (name_cache []) o (lookup v ss.name_to_index))
              (sym (lookup_tail v k s m differ)))

build_caches-indices :
    (v : ℕ) (m : Dict ℕ Schema.Schema) (ss : SchemaSet)
    → NodupKeys m
    → lookup v (build_caches m ss).index_to_name
      ≡ cached (index_cache []) (lookup v m) (lookup v ss.index_to_name)
unfolding build_caches build_cache lookup
build_caches-indices v [] ss u = refl
build_caches-indices v ((k, s) ∷ m) ss (fresh, u) =
    build_caches-indices v m (build_cache k s ss) u
    ∙ dite (ℕ_discrete v k)
        (λ same.
          subst
            (λ x.
              cached (index_cache []) (lookup x m)
                (lookup x (insert k (index_cache [] s.fields) ss.index_to_name))
              ≡ cached (index_cache []) (lookup x ((k, s) ∷ m)) (lookup x ss.index_to_name))
            (sym same)
            (ap
                (λ o.
                  cached (index_cache []) o
                    (lookup k (insert k (index_cache [] s.fields) ss.index_to_name)))
                fresh
              ∙ lookup_self k (index_cache [] s.fields) ss.index_to_name
              ∙ ap (λ o. cached (index_cache []) o (lookup k ss.index_to_name))
                  (sym (lookup_head k s m))))
        (λ differ.
          ap (cached (index_cache []) (lookup v m))
            (lookup_other v k (index_cache [] s.fields) ss.index_to_name differ)
          ∙ ap (λ o. cached (index_cache []) o (lookup v ss.index_to_name))
              (sym (lookup_tail v k s m differ)))

build_caches_rest :
    (m : Dict ℕ Schema.Schema) (ss : SchemaSet)
    → ((build_caches m ss).schemas ≡ ss.schemas)
      × ((build_caches m ss).current_version ≡ ss.current_version)
unfolding build_caches build_cache
build_caches_rest [] ss = (refl, refl)
build_caches_rest ((k, s) ∷ m) ss = build_caches_rest m (build_cache k s ss)

-- A set that is read back as the map that it was is in order again.
rebuilt-IsConsistent :
    (ss : SchemaSet) (m : Dict ℕ Schema.Schema)
    → IsConsistent ss
    → NodupKeys m
    → ((v : ℕ) → lookup v m ≡ lookup v ss.schemas)
    → IsConsistent (rebuilt ss.current_version m)
      × ((v : ℕ) → lookup v (rebuilt ss.current_version m).schemas ≡ lookup v ss.schemas)
      × ((rebuilt ss.current_version m).current_version ≡ ss.current_version)
unfolding rebuilt lookup
rebuilt-IsConsistent ss m c u same = (
  record {
    version = λ v s h.
        let at : lookup v m ≡ some s = ap (lookup v) (sym kept.0) ∙ h in
        let known = c.version v s (sym (same v) ∙ at) in
        record {
          valid = known.valid;
          numbered = known.numbered;
          positive = known.positive;
          known = subst (λ n. v ≤ n) (sym kept.1) known.known;
          names = build_caches-names v m bare u ∙ ap (λ o. cached (name_cache []) o none) at;
          indices = build_caches-indices v m bare u ∙ ap (λ o. cached (index_cache []) o none) at;
        };
    present = λ v lt le e.
        c.present v lt (subst (λ n. v ≤ n) kept.1 le)
          (sym (same v) ∙ ap (lookup v) (sym kept.0) ∙ e);
  },
  λ v. ap (lookup v) kept.0 ∙ same v,
  kept.1,
)
  where
    bare : SchemaSet
    bare = record {
      current_version = ss.current_version;
      schemas = m;
      name_to_index = [];
      index_to_name = [];
    }

    kept :
        ((build_caches m bare).schemas ≡ m)
        × ((build_caches m bare).current_version ≡ ss.current_version)
    kept = build_caches_rest m bare

-- The JSON form of a set is read as the same version and the same map of schemas, with every key once.
pub record ReadsBack (C : SetCodec) (ss : SchemaSet) : Type 0 where
  pub schemas : Dict ℕ Schema.Schema
  pub reads : C.decode (encoded C ss) ≡ some (ss.current_version, schemas)
  pub once : NodupKeys schemas
  pub same : (v : ℕ) → lookup v schemas ≡ lookup v ss.schemas

-- What a store that was opened again has.
pub record Reloaded (C : SetCodec) (ss : SchemaSet) (st : SchemaStore) : Type 0 where
  pub loaded : SchemaSet
  pub runs : load_schema C true st ≡ (done tt, record st { schema_set = some loaded })
  pub consistent : IsConsistent loaded
  pub same : (v : ℕ) → lookup v loaded.schemas ≡ lookup v ss.schemas
  pub version : loaded.current_version ≡ ss.current_version

-- A set of schemas in order that a schema store has saved is loaded again from its file: the loaded set has
-- the same current version and the same schemas under the same versions, and is in order, its caches included.
-- The file can be read, and the JSON form of the set is read as the same map of schemas.
pub load_schema-save_schema :
    (C : SetCodec) (ss : SchemaSet) (st : SchemaStore)
    → ReadsBack C ss
    → IsConsistent ss
    → is_schema_store st ≡ true
    → Reloaded C ss (save_schema C complete ss st).1
unfolding save_schema load_schema
load_schema-save_schema C ss st back c kind =
    let again = rebuilt-IsConsistent ss back.schemas c back.once back.same in
    record {
      loaded = rebuilt ss.current_version back.schemas;
      runs = rw (kind, back.reads) refl;
      consistent = again.0;
      same = again.1;
      version = again.2;
    }
