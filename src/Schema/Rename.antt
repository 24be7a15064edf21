-- ===== src/Schema/Rename.antt =====
-- Loops that copy a map under other keys, as those of `FullToCompact` and `CompactToFull`.
use ts_store.Prelude.{
  ◌≡◌, ◌≢◌, refl, sym, ap, ◌∙◌, ◌⊎◌, inl, inr, Option, none, some, [], ◌∷◌, Option-cases,
}
use mathlib.Core.Option.{none-ne-some, some-ne-none, some-injective}
use mathlib.Core.Logic.{dite}
use mathlib.Core.Path.{subst}
use ts_store.Prelude.Equality.{Eq}
use ts_store.Prelude.Dict.{
  Dict, lookup, insert, NodupKeys, lookup_self, lookup_other, lookup_head, lookup_tail, has-cons,
  insert-NodupKeys,
}

module _ {ℓ κ μ} {K : Type ℓ} {L : Type κ} {V : Type μ} ⦃e : Eq K⦄ ⦃f : Eq L⦄
    (g : K → Option L) where
  -- Copies the entries whose keys have a new name.
  abbrev pub rename : Dict K V → Dict L V → Dict L V
  rename [] acc = acc
  rename ((k, v) ∷ m) acc = elim (g k) [ none ↦ rename m acc | some j ↦ rename m (insert j v acc) ]

  pub rename-none :
      (k : K) (v : V) (m : Dict K V) (acc : Dict L V)
      → g k ≡ none
      → rename ((k, v) ∷ m) acc ≡ rename m acc
  rename-none k v m acc h =
      ap (λ o. elim o [ none ↦ rename m acc | some j ↦ rename m (insert j v acc) ]) h

  pub rename-some :
      (k : K) (v : V) (j : L) (m : Dict K V) (acc : Dict L V)
      → g k ≡ some j
      → rename ((k, v) ∷ m) acc ≡ rename m (insert j v acc)
  rename-some k v j m acc h =
      ap (λ o. elim o [ none ↦ rename m acc | some i ↦ rename m (insert i v acc) ]) h

  -- A name that no key gets keeps its value.
  pub rename_other :
      (j : L) (m : Dict K V) (acc : Dict L V)
      → ((k : K) → lookup k m ≢ none → g k ≢ some j)
      → lookup j (rename m acc) ≡ lookup j acc
  rename_other j [] acc h = refl
  rename_other j ((k, v) ∷ m) acc h =
      let rest = λ (k' : K) (has : lookup k' m ≢ none). h k' (has-cons k' k v m has) in
      elim (Option-cases (g k)) [
        | inl no_name ↦ ap (lookup j) (rename-none k v m acc no_name) ∙ rename_other j m acc rest
        | inr (j', name) ↦
            let differ : j ≢ j' = λ p.
              h k (λ q. some-ne-none v (sym (lookup_head k v m) ∙ q)) (name ∙ ap some (sym p)) in
            ap (lookup j) (rename-some k v j' m acc name)
            ∙ rename_other j m (insert j' v acc) rest
            ∙ lookup_other j j' v acc differ
      ]

  -- The name of a key gets its value, if no other key has this name.
  pub rename_at :
      (k : K) (v : V) (j : L) (m : Dict K V) (acc : Dict L V)
      → NodupKeys m
      → lookup k m ≡ some v
      → g k ≡ some j
      → ((k' : K) → lookup k' m ≢ none → g k' ≡ some j → k' ≡ k)
      → lookup j (rename m acc) ≡ some v
  unfolding lookup
  rename_at k v j [] acc u at named only = absurd (none-ne-some v at)
  rename_at k v j ((k0, v0) ∷ m) acc (fresh, u) at named only =
      let rest = λ (k' : K) (has : lookup k' m ≢ none). only k' (has-cons k' k0 v0 m has) in
      dite (e.decide k k0)
        (λ same.
          let value : v0 ≡ v =
            some-injective v0 v
              (sym (lookup_head k0 v0 m) ∙ ap (λ x. lookup x ((k0, v0) ∷ m)) (sym same) ∙ at) in
          let head : g k0 ≡ some j = ap g (sym same) ∙ named in
          let others = λ (k' : K) (has : lookup k' m ≢ none) (to_j : g k' ≡ some j).
            has (ap (λ x. lookup x m) (rest k' has to_j ∙ same) ∙ fresh) in
          ap (lookup j) (rename-some k0 v0 j m acc head)
          ∙ rename_other j m (insert j v0 acc) others
          ∙ lookup_self j v0 acc
          ∙ ap some value)
        (λ differ.
          let at' : lookup k m ≡ some v = sym (lookup_tail k k0 v0 m differ) ∙ at in
          elim (Option-cases (g k0)) [
            | inl no_name ↦
                ap (lookup j) (rename-none k0 v0 m acc no_name)
                ∙ rename_at k v j m acc u at' named rest
            | inr (j0, name) ↦
                ap (lookup j) (rename-some k0 v0 j0 m acc name)
                ∙ rename_at k v j m (insert j0 v0 acc) u at' named rest
          ])

  pub rename-NodupKeys : (m : Dict K V) (acc : Dict L V) → NodupKeys acc → NodupKeys (rename m acc)
  rename-NodupKeys [] acc u = u
  rename-NodupKeys ((k, v) ∷ m) acc u = elim (Option-cases (g k)) [
    | inl no_name ↦ subst NodupKeys (sym (rename-none k v m acc no_name)) (rename-NodupKeys m acc u)
    | inr (j, name) ↦
        subst NodupKeys (sym (rename-some k v j m acc name))
          (rename-NodupKeys m (insert j v acc) (insert-NodupKeys j v acc u))
  ]

  -- Every key of the copy is the name of a key.
  pub rename-from :
      (j : L) (m : Dict K V) (acc : Dict L V)
      → lookup j (rename m acc) ≢ none
      → (lookup j acc ≢ none) ⊎ ((k : K) × (lookup k m ≢ none) × (g k ≡ some j))
  rename-from j [] acc h = inl h
  rename-from j ((k, v) ∷ m) acc h = elim (Option-cases (g k)) [
    | inl no_name ↦
        later (rename-from j m acc (λ q. h (ap (lookup j) (rename-none k v m acc no_name) ∙ q)))
    | inr (j', name) ↦
        elim (rename-from j m (insert j' v acc)
          (λ q. h (ap (lookup j) (rename-some k v j' m acc name) ∙ q))) [
            | inr found ↦ later (inr found)
            | inl there ↦
                dite (f.decide j j')
                  (λ same. inr (
                    k,
                    (λ q. some-ne-none v (sym (lookup_head k v m) ∙ q)),
                    name ∙ ap some (sym same),
                  ))
                  (λ differ. inl (λ q. there (lookup_other j j' v acc differ ∙ q)))
          ]
  ]
    where
      later :
          (lookup j acc ≢ none) ⊎ ((k' : K) × (lookup k' m ≢ none) × (g k' ≡ some j))
          → (lookup j acc ≢ none) ⊎ ((k' : K) × (lookup k' ((k, v) ∷ m) ≢ none) × (g k' ≡ some j))
      later (inl x) = inl x
      later (inr (k', has, to_j)) = inr (k', has-cons k' k v m has, to_j)
