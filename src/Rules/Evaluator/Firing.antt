-- ===== src/Rules/Evaluator/Firing.antt =====
-- Which rules fire on a record (`evaluateRecord` of internal/rules/evaluator.go).
use ts_store.Prelude.{
  ℕ, ◌≡◌, ◌≢◌, refl, sym, ap, ◌∙◌, true, false, none, some, List, [], ◌∷◌, Bool-cases, inl, inr,
  if◌then◌else◌,
}
use ts_store.Prelude.Int.{ℤ, pos, ◌==ℤ◌, leb_ℤ}
use ts_store.Prelude.Equality.{Bytes, bytes_eq}
use ts_store.Prelude.Dict.{Dict, insert, lookup_other}
use ts_store.Rules.{Comparisons, evaluate}
use ts_store.Rules.Evaluator.{
  AlertRule, DataRecord, Evaluator, Fired, since, check_cooldown, passes, fired_by, evaluate_rules,
  evaluate_record,
}

module _ (K : Comparisons) where
  -- No rule of the list has the name.
  abbrev pub Unused : Bytes → List (AlertRule K) → Type 0
  Unused n [] = Unit
  Unused n (ar ∷ ars) = (ar.rule.name ≢ n) × Unused n ars

  abbrev pub DistinctNames : List (AlertRule K) → Type 0
  DistinctNames [] = Unit
  DistinctNames (ar ∷ ars) = Unused ar.rule.name ars × DistinctNames ars

  -- The alerts of the rules that pass both tests, as the state was before the record.
  abbrev pub firing : Bytes → ℕ → DataRecord K → Dict Bytes ℕ → List (AlertRule K) → List (Fired K)
  firing store_name now rec lf [] = []
  firing store_name now rec lf (ar ∷ ars) =
      if passes K ar rec now lf
      then fired_by K store_name ar rec ∷ firing store_name now rec lf ars
      else firing store_name now rec lf ars

  -- One step of the loop.
  pub evaluate_rules-pass :
      (s : Bytes) (now : ℕ) (rec : DataRecord K) (ar : AlertRule K) (ars : List (AlertRule K))
      (lf : Dict Bytes ℕ)
      → passes K ar rec now lf ≡ true
      → evaluate_rules K s now rec (ar ∷ ars) lf ≡ (
        fired_by K s ar rec ∷ (evaluate_rules K s now rec ars (insert ar.rule.name now lf)).0,
        (evaluate_rules K s now rec ars (insert ar.rule.name now lf)).1,
      )
  unfolding evaluate_rules
  evaluate_rules-pass s now rec ar ars lf h =
      ap
        (λ b. elim b [
          | false ↦ evaluate_rules K s now rec ars lf
          | true ↦ (
            fired_by K s ar rec ∷ (evaluate_rules K s now rec ars (insert ar.rule.name now lf)).0,
            (evaluate_rules K s now rec ars (insert ar.rule.name now lf)).1,
          )
        ])
        h

  pub evaluate_rules-skip :
      (s : Bytes) (now : ℕ) (rec : DataRecord K) (ar : AlertRule K) (ars : List (AlertRule K))
      (lf : Dict Bytes ℕ)
      → passes K ar rec now lf ≡ false
      → evaluate_rules K s now rec (ar ∷ ars) lf ≡ evaluate_rules K s now rec ars lf
  unfolding evaluate_rules
  evaluate_rules-skip s now rec ar ars lf h =
      ap
        (λ b. elim b [
          | false ↦ evaluate_rules K s now rec ars lf
          | true ↦ (
            fired_by K s ar rec ∷ (evaluate_rules K s now rec ars (insert ar.rule.name now lf)).0,
            (evaluate_rules K s now rec ars (insert ar.rule.name now lf)).1,
          )
        ])
        h

  cooldown_other :
      (m n : Bytes) (c : ℤ) (now : ℕ) (lf : Dict Bytes ℕ)
      → m ≢ n
      → check_cooldown K m c now (insert n now lf) ≡ check_cooldown K m c now lf
  unfolding check_cooldown
  cooldown_other m n c now lf ne =
      ap
        (λ o.
          if c ==ℤ pos 0
          then true
          else elim o [ none ↦ true | some last ↦ leb_ℤ c (since K now last) ])
        (lookup_other m n now lf ne)

  firing_other :
      (s n : Bytes) (now : ℕ) (rec : DataRecord K) (lf : Dict Bytes ℕ) (ars : List (AlertRule K))
      → Unused n ars
      → firing s now rec (insert n now lf) ars ≡ firing s now rec lf ars
  firing_other s n now rec lf [] u = refl
  firing_other s n now rec lf (ar ∷ ars) (ne, u) =
      ap
        (λ b.
          if (if evaluate K ar.rule rec.data_fields then b else false)
          then fired_by K s ar rec ∷ firing s now rec (insert n now lf) ars
          else firing s now rec (insert n now lf) ars)
        (cooldown_other ar.rule.name n ar.cooldown now lf ne)
      ∙ ap (λ rest. if passes K ar rec now lf then fired_by K s ar rec ∷ rest else rest)
          (firing_other s n now rec lf ars u)

  evaluate_rules-firing :
      (s : Bytes) (now : ℕ) (rec : DataRecord K) (ars : List (AlertRule K)) (lf : Dict Bytes ℕ)
      → DistinctNames ars
      → (evaluate_rules K s now rec ars lf).0 ≡ firing s now rec lf ars
  unfolding evaluate_rules
  evaluate_rules-firing s now rec [] lf d = refl
  evaluate_rules-firing s now rec (ar ∷ ars) lf (u, d) =
      elim (Bool-cases (passes K ar rec now lf)) [
        | inl h ↦
            ap (λ r. r.0) (evaluate_rules-pass s now rec ar ars lf h)
            ∙ ap (λ x. fired_by K s ar rec ∷ x)
                (evaluate_rules-firing s now rec ars (insert ar.rule.name now lf) d
                  ∙ firing_other s ar.rule.name now rec lf ars u)
            ∙ sym (
                ap
                  (λ b.
                    if b
                    then fired_by K s ar rec ∷ firing s now rec lf ars
                    else firing s now rec lf ars)
                  h)
        | inr h ↦
            ap (λ r. r.0) (evaluate_rules-skip s now rec ar ars lf h)
            ∙ evaluate_rules-firing s now rec ars lf d
            ∙ sym (
                ap
                  (λ b.
                    if b
                    then fired_by K s ar rec ∷ firing s now rec lf ars
                    else firing s now rec lf ars)
                  h)
      ]

  -- When the rules of a store have different names, the alerts of a record are those of exactly the rules
  -- whose condition holds and whose cooldown is over before the record, in the order of the rules.
  pub evaluate_record-firing :
      (now : ℕ) (rec : DataRecord K) (e : Evaluator K)
      → DistinctNames e.rules
      → (evaluate_record K now rec e).0 ≡ firing e.store_name now rec e.last_fired e.rules
  unfolding evaluate_record
  evaluate_record-firing now rec e d =
      evaluate_rules-firing e.store_name now rec e.rules e.last_fired d
