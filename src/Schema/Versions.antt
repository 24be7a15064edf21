-- ===== src/Schema/Versions.antt =====
-- `AddSchema` (pkg/schema/schema.go) keeps a set of schema versions in order, and a record survives the
-- way to its compact form and back.
use ts_store.Prelude.{
  ℕ, ◌+◌, ◌≤◌, ◌<◌, ◌≡◌, ◌≢◌, refl, sym, ap, ◌∙◌, false, none, some, [], ◌==◌, arith, inl, inr, ◌⊎◌,
}
use mathlib.Core.Path.{subst}
use mathlib.Core.Logic.{dite}
use mathlib.Core.Option.{none-ne-some, some-ne-none, some-injective}
use native.Mathlib.Decide.{ℕ_discrete}
use ts_store.Prelude.Int.{ℤ}
use ts_store.Prelude.Equality.{Bytes, nat_eq, bytes_eq, int_eq}
use ts_store.Prelude.Dict.{Dict, lookup, insert, lookup_self, lookup_other, NodupKeys}
use ts_store.Prelude.Outcome.{done, failed, Outcome-cases}
use ts_store.Word.{IsInt64}
use ts_store.Schema.{
  Err, SchemaSet, add_schema, build_cache, validate, compatible, name_cache, index_cache, cache_at,
  Json, full_to_compact, compact_to_full, compact_from, expand_from, parse, new_schema_set,
}
use ts_store.Schema
use ts_store.Schema.Validity.{IsValid, validate-IsValid}
use ts_store.Schema.Caches.{index_of_name, name_of_index}
use ts_store.Schema.Rename.{rename-NodupKeys}
use ts_store.Schema.RoundTrip.{
  IsInverse, Agrees, expand-compact, full', compact_from-total, compact_from-rename, key_of,
}

-- One version of a set: a valid schema, numbered, with its caches.
pub record IsVersion (ss : SchemaSet) (v : ℕ) (s : Schema.Schema) : Type 0 where
  pub valid : IsValid s
  pub numbered : s.version ≡ v
  pub positive : 0 < v
  pub known : v ≤ ss.current_version
  pub names : lookup v ss.name_to_index ≡ some (name_cache [] s.fields)
  pub indices : lookup v ss.index_to_name ≡ some (index_cache [] s.fields)

-- The versions are those from 1 to the current one.
pub record IsConsistent (ss : SchemaSet) : Type 0 where
  pub version : (v : ℕ) (s : Schema.Schema) → lookup v ss.schemas ≡ some s → IsVersion ss v s
  pub present : (v : ℕ) → 0 < v → v ≤ ss.current_version → lookup v ss.schemas ≢ none

pub new_schema_set-IsConsistent : IsConsistent new_schema_set
unfolding new_schema_set lookup
new_schema_set-IsConsistent = record {
  version = λ v s h. absurd (none-ne-some s h);
  present = λ v lt le. absurd (omega (arith, lt, le));
}

module _ (s : Schema.Schema) (ss : SchemaSet) (c : IsConsistent ss) where
  abbrev next : ℕ
  next = ss.current_version + 1

  abbrev numbered_schema : Schema.Schema
  numbered_schema = record s { version = next }

  abbrev pub grown : SchemaSet
  grown = record {
    current_version = next;
    schemas = insert next numbered_schema ss.schemas;
    name_to_index = insert next (name_cache [] s.fields) ss.name_to_index;
    index_to_name = insert next (index_cache [] s.fields) ss.index_to_name;
  }

  pub grown-IsConsistent : IsValid s → IsConsistent grown
  grown-IsConsistent valid = record {
    version =
        λ v t h. dite (ℕ_discrete v next) (λ same. fresh v t same h) (λ differ. older v t differ h);
    present = λ v lt le q.
        dite (ℕ_discrete v next)
          (λ same. some-ne-none numbered_schema (
            sym (lookup_self next numbered_schema ss.schemas)
            ∙ ap (λ x. lookup x (insert next numbered_schema ss.schemas)) (sym same)
            ∙ q))
          (λ differ.
            c.present v lt (omega (arith, le, differ))
              (sym (lookup_other v next numbered_schema ss.schemas differ) ∙ q));
  }
    where
      older :
          (v : ℕ) (t : Schema.Schema)
          → v ≢ next
          → lookup v (insert next numbered_schema ss.schemas) ≡ some t
          → IsVersion grown v t
      older v t differ h =
          let old =
            c.version v t (sym (lookup_other v next numbered_schema ss.schemas differ) ∙ h) in
          record {
            valid = old.valid;
            numbered = old.numbered;
            positive = old.positive;
            known = omega (arith, old.known);
            names =
                lookup_other v next (name_cache [] s.fields) ss.name_to_index differ ∙ old.names;
            indices =
                lookup_other v next (index_cache [] s.fields) ss.index_to_name differ ∙ old.indices;
          }

      fresh :
          (v : ℕ) (t : Schema.Schema)
          → v ≡ next
          → lookup v (insert next numbered_schema ss.schemas) ≡ some t
          → IsVersion grown v t
      fresh v t same h =
          let schema : numbered_schema ≡ t = some-injective numbered_schema t (
            sym (lookup_self next numbered_schema ss.schemas)
            ∙ ap (λ x. lookup x (insert next numbered_schema ss.schemas)) (sym same)
            ∙ h) in
          subst (λ x. IsVersion grown x t) (sym same)
            (subst (IsVersion grown next) schema (record {
              valid = record { some_fields = valid.some_fields; distinct = valid.distinct };
              numbered = refl;
              positive = omega arith;
              known = omega arith;
              names = lookup_self next (name_cache [] s.fields) ss.name_to_index;
              indices = lookup_self next (index_cache [] s.fields) ss.index_to_name;
            }))

  accepted :
      validate s ≡ done tt
      → compatible ss numbered_schema ≡ done tt
      → add_schema s ss ≡ (done next, grown)
  unfolding add_schema build_cache
  accepted valid fits = rw (valid, add_schema, fits) refl

  refused : (e : Err) → (validate s ≡ failed e) → add_schema s ss ≡ (failed e, ss)
  unfolding add_schema
  refused e bad = rw (bad, add_schema) refl

  unfit :
      (e : Err)
      → validate s ≡ done tt
      → compatible ss numbered_schema ≡ failed e
      → add_schema s ss ≡ (failed e, ss)
  unfolding add_schema
  unfit e valid bad = rw (valid, add_schema, bad) refl

  -- `AddSchema` on a set in order either fails and leaves the set as it is, or adds the valid schema as
  -- the next version, and the set is in order again.
  pub add_schema-IsConsistent :
      ((e : Err) × (add_schema s ss ≡ (failed e, ss)))
      ⊎ ((ss' : SchemaSet) × (add_schema s ss ≡ (done (ss.current_version + 1), ss'))
          × (lookup (ss.current_version + 1) ss'.schemas
              ≡ some (record s { version = ss.current_version + 1 }))
          × IsConsistent ss')
  add_schema-IsConsistent = elim (Outcome-cases (validate s)) [
    | inr (e, bad) ↦ inl (e, refused e bad)
    | inl (_, good) ↦ elim (Outcome-cases (compatible ss numbered_schema)) [
      | inr (e, bad) ↦ inl (e, unfit e good bad)
      | inl (_, fits) ↦ inr (
        grown,
        accepted good fits,
        lookup_self next numbered_schema ss.schemas,
        grown-IsConsistent ((validate-IsValid s).0 good),
      )
    ]
  ]

-- What `encoding/json` does with objects: what `Marshal` writes of a map, `Unmarshal` reads as a map with
-- the same entries.
pub record IsFaithful (J : Json) : Type 0 where
  pub read_back :
      (m : Dict Bytes J.Value)
      → NodupKeys m
      → (n : Dict Bytes J.Value) × (J.unmarshal (J.marshal m) ≡ some n) × NodupKeys n × Agrees n m

module _ (J : Json) (f : IsFaithful J) (ss : SchemaSet) (c : IsConsistent ss) (s : Schema.Schema)
    (current : lookup ss.current_version ss.schemas ≡ some s)
    (typed : (n : Bytes) (i : ℤ) → lookup n (name_cache [] s.fields) ≡ some i → IsInt64 i) where
  in_order : IsVersion ss ss.current_version s
  in_order = c.version ss.current_version s current

  inverse : IsInverse (name_cache [] s.fields) (index_cache [] s.fields)
  inverse = record {
    forth = λ n i h. index_of_name s.fields n i in_order.valid.distinct h;
    back = λ i n h. name_of_index s.fields i n in_order.valid.distinct h;
    typed = typed;
  }

  some_version : (ss.current_version == 0) ≡ false
  some_version = not_zero ss.current_version in_order.positive
    where
      not_zero : (n : ℕ) → 0 < n → (n == 0) ≡ false
      not_zero n lt = ground arith

  names_here : cache_at ss.current_version ss.name_to_index ≡ name_cache [] s.fields
  names_here = ap (λ o. elim o [ none ↦ [] | some x ↦ x ]) in_order.names

  compact_runs :
      (bs : Bytes) (full compact : Dict Bytes J.Value)
      → J.unmarshal bs ≡ some full
      → compact_from (name_cache [] s.fields) full [] ≡ done compact
      → full_to_compact J bs ss ≡ done (J.marshal compact)
  unfolding full_to_compact
  compact_runs bs full compact read made = rw (some_version, parse, read, names_here, made) refl

  expand_runs :
      (bs : Bytes) (compact full : Dict Bytes J.Value)
      → J.unmarshal bs ≡ some compact
      → expand_from (index_cache [] s.fields) compact [] ≡ done full
      → compact_to_full J bs 0 ss ≡ done (J.marshal full)
  unfolding compact_to_full
  expand_runs bs compact full read made =
      rw (some_version, in_order.indices, parse, read, made) refl

-- In a set in order whose current schema has `int` indices, a JSON object whose names all stand in the
-- current schema has a compact form, and `CompactToFull` of that form is a JSON object with the same
-- entries, whatever the order in which the maps are ranged over.
pub compact_to_full-full_to_compact :
    (J : Json) (f : IsFaithful J) (ss : SchemaSet) (c : IsConsistent ss) (s : Schema.Schema)
    → lookup ss.current_version ss.schemas ≡ some s
    → ((n : Bytes) (i : ℤ) → lookup n (name_cache [] s.fields) ≡ some i → IsInt64 i)
    → (bs : Bytes) (full : Dict Bytes J.Value) → J.unmarshal bs ≡ some full
    → NodupKeys full
    → ((n : Bytes) → lookup n full ≢ none → lookup n (name_cache [] s.fields) ≢ none)
    → (compact : Bytes) × (back : Bytes) × (full_to_compact J bs ss ≡ done compact)
      × (compact_to_full J compact 0 ss ≡ done back)
      × (m : Dict Bytes J.Value) × (J.unmarshal back ≡ some m)
      × Agrees m full
compact_to_full-full_to_compact J f ss c s current typed bs full read u known =
    let names = name_cache [] s.fields in
    let (made, made_runs) = compact_from-total names full [] known in
    let copied = (compact_from-rename names full [] made made_runs).0 in
    let made_once : NodupKeys made =
      subst NodupKeys copied (rename-NodupKeys (key_of names) full [] tt) in
    let (made', made_read, made_u, same) = f.read_back made made_once in
    let inv = inverse J f ss c s current typed in
    let (runs, full_u, agrees) =
      expand-compact names (index_cache [] s.fields) inv full made made' u made_u made_runs same in
    let expanded =
      full' names (index_cache [] s.fields) inv full made made' u made_u made_runs same in
    let (m, m_read, m_u, m_same) = f.read_back expanded full_u in
    (
      J.marshal made,
      J.marshal expanded,
      compact_runs J f ss c s current typed bs full made read made_runs,
      expand_runs J f ss c s current typed (J.marshal made) made' expanded made_read runs,
      m,
      m_read,
      λ n. m_same n ∙ agrees n,
    )
