-- ===== src/Rules/Evaluator/Cooldown.antt =====
-- The cooldown of the rules in a run of internal/rules/evaluator.go.
use ts_store.Prelude.{
  ℕ, ◌+◌, ◌≤◌, ◌<◌, ◌≡◌, ◌≢◌, sym, ap, ◌∙◌, Bool, true, false, Option, none, some, List, [], ◌∷◌,
  ◌++◌, arith, Bool-cases, Option-cases, inl, inr, if◌then◌else◌,
}
use mathlib.Core.Path.{subst}
use ts_store.Prelude.Int.{pos, ◌==ℤ◌, leb_ℤ}
use ts_store.Prelude.Equality.{Bytes, ◌=?◌, bytes_eq}
use ts_store.Prelude.Dict.{Dict, lookup, insert, lookup_other, lookup_self}
use ts_store.Rules.{Comparisons, evaluate}
use ts_store.Rules.Evaluator.{
  AlertRule, DataRecord, Evaluator, Fired, since, check_cooldown, passes, evaluate_rules,
  evaluate_record, run_loop, new_evaluator,
}
use ts_store.Rules.Evaluator.Firing.{evaluate_rules-pass, evaluate_rules-skip}

module _ (K : Comparisons) where
  -- The time once for each alert of the given name.
  abbrev pub times_of : Bytes → ℕ → List (Fired K) → List ℕ
  times_of n now [] = []
  times_of n now (f ∷ fs) =
      if f.alert.rule_name =? n then now ∷ times_of n now fs else times_of n now fs

  abbrev pub all_times : Bytes → List (ℕ × List (Fired K)) → List ℕ
  all_times n [] = []
  all_times n ((now, fs) ∷ rest) = times_of n now fs ++ all_times n rest

  -- Each time lies at least c behind the one before it.
  abbrev pub Spaced : ℕ → Option ℕ → List ℕ → Type 0
  Spaced c o [] = Unit
  Spaced c none (t ∷ ts) = Spaced c (some t) ts
  Spaced c (some last) (t ∷ ts) = (last + c ≤ t) × Spaced c (some t) ts

  -- Every rule of the name has the cooldown c.
  abbrev pub Cools : Bytes → ℕ → List (AlertRule K) → Type 0
  Cools n c [] = Unit
  Cools n c (ar ∷ ars) = (ar.rule.name ≡ n → ar.cooldown ≡ pos c) × Cools n c ars

  -- What the cooldown test says of the time of the last alert.
  cooldown_over :
      (n : Bytes) (c now : ℕ) (lf : Dict Bytes ℕ)
      → 0 < c
      → check_cooldown K n (pos c) now lf ≡ true
      → (last : ℕ) → lookup n lf ≡ some last
      → last + c ≤ now
  unfolding check_cooldown
  cooldown_over n c now lf lt h last at = arithmetic c now last lt (
      sym (
        ap
          (λ o.
            if pos c ==ℤ pos 0
            then true
            else elim o [ none ↦ true | some l ↦ leb_ℤ (pos c) (since K now l) ])
          at)
      ∙ h)
    where
      arithmetic :
          (c now last : ℕ)
          → 0 < c
          → (if pos c ==ℤ pos 0 then true else leb_ℤ (pos c) (since K now last)) ≡ true
          → last + c ≤ now
      arithmetic c now last lt h = ground (arith, h)

  check_of_passes :
      (ar : AlertRule K) (rec : DataRecord K) (now : ℕ) (lf : Dict Bytes ℕ)
      → passes K ar rec now lf ≡ true
      → check_cooldown K ar.rule.name ar.cooldown now lf ≡ true
  check_of_passes ar rec now lf h =
      second (evaluate K ar.rule rec.data_fields) (check_cooldown K ar.rule.name ar.cooldown now lf)
        h
    where
      second : (a b : Bool) → (if a then b else false) ≡ true → b ≡ true
      second true b h = h
      second false b h = absurd (ground (arith, h))

  pub equal_of_test : (m n : Bytes) → (m =? n) ≡ true → m ≡ n
  equal_of_test m n h = ground (arith, h)

  pub differ_of_test : (m n : Bytes) → (m =? n) ≡ false → n ≢ m
  differ_of_test m n h e = ground (arith, h, e)

  -- An alert of the rule m, raised now.
  Spaced-alert :
      (n m : Bytes) (c now : ℕ) (lf : Dict Bytes ℕ) (xs later : List ℕ)
      → (m ≡ n → (last : ℕ) → lookup n lf ≡ some last → last + c ≤ now)
      → Spaced c (lookup n (insert m now lf)) (xs ++ later)
      → Spaced c (lookup n lf) ((if m =? n then now ∷ xs else xs) ++ later)
  Spaced-alert n m c now lf xs later over sp = elim (Bool-cases (m =? n)) [
    | inr h ↦
        subst (λ b. Spaced c (lookup n lf) ((if b then now ∷ xs else xs) ++ later)) (sym h)
          (subst (λ o. Spaced c o (xs ++ later)) (lookup_other n m now lf (differ_of_test m n h))
            sp)
    | inl h ↦
        let e = equal_of_test m n h in
        let from_now : Spaced c (some now) (xs ++ later) =
          subst (λ o. Spaced c o (xs ++ later))
            (ap (λ k. lookup n (insert k now lf)) e ∙ lookup_self n now lf) sp in
        subst (λ b. Spaced c (lookup n lf) ((if b then now ∷ xs else xs) ++ later)) (sym h)
          (elim (Option-cases (lookup n lf)) [
            | inl at ↦ subst (λ o. Spaced c o (now ∷ (xs ++ later))) (sym at) from_now
            | inr (last, at) ↦
                subst (λ o. Spaced c o (now ∷ (xs ++ later))) (sym at) (over e last at, from_now)
          ])
  ]

  Spaced-evaluate_rules :
      (n : Bytes) (c : ℕ) (s : Bytes) (now : ℕ) (rec : DataRecord K) (ars : List (AlertRule K))
      (lf : Dict Bytes ℕ) (later : List ℕ)
      → 0 < c
      → Cools n c ars
      → Spaced c (lookup n (evaluate_rules K s now rec ars lf).1) later
      → Spaced c (lookup n lf) (times_of n now (evaluate_rules K s now rec ars lf).0 ++ later)
  unfolding evaluate_rules
  Spaced-evaluate_rules n c s now rec [] lf later lt cools sp = sp
  Spaced-evaluate_rules n c s now rec (ar ∷ ars) lf later lt (cool, cools) sp =
      elim (Bool-cases (passes K ar rec now lf)) [
        | inr h ↦
            let skip = evaluate_rules-skip K s now rec ar ars lf h in
            subst (λ r. Spaced c (lookup n lf) (times_of n now r.0 ++ later)) (sym skip)
              (Spaced-evaluate_rules n c s now rec ars lf later lt cools
                (subst (λ r. Spaced c (lookup n r.1) later) skip sp))
        | inl h ↦
            let pass = evaluate_rules-pass K s now rec ar ars lf h in
            let after =
              Spaced-evaluate_rules n c s now rec ars (insert ar.rule.name now lf) later lt cools
                (subst (λ r. Spaced c (lookup n r.1) later) pass sp) in
            subst (λ r. Spaced c (lookup n lf) (times_of n now r.0 ++ later)) (sym pass)
              (Spaced-alert n ar.rule.name c now lf
                (times_of n now (evaluate_rules K s now rec ars (insert ar.rule.name now lf)).0)
                later
                (λ e last at.
                  cooldown_over n c now lf lt
                    (ap (λ k. check_cooldown K k (pos c) now lf) (sym e)
                      ∙ ap (λ k. check_cooldown K ar.rule.name k now lf) (sym (cool e))
                      ∙ check_of_passes ar rec now lf h)
                    last at)
                after)
      ]

  Spaced-run_loop :
      (n : Bytes) (c : ℕ) (recs : List (ℕ × DataRecord K)) (e : Evaluator K)
      → 0 < c
      → Cools n c e.rules
      → Spaced c (lookup n e.last_fired) (all_times n (run_loop K recs e).0)
  unfolding run_loop evaluate_record
  Spaced-run_loop n c [] e lt cools = tt
  Spaced-run_loop n c ((now, rec) ∷ recs) e lt cools =
      Spaced-evaluate_rules n c e.store_name now rec e.rules e.last_fired
        (all_times n (run_loop K recs (evaluate_record K now rec e).1).0) lt cools
        (Spaced-run_loop n c recs (evaluate_record K now rec e).1 lt cools)

  -- In every run of a new evaluator, whatever the clock reads, the alerts under one name, all of whose rules
  -- have the same positive cooldown, lie at least that cooldown apart, also when several rules share
  -- the name.
  pub run_loop-Spaced :
      (n : Bytes) (c : ℕ) (store_name : Bytes) (rules : List (AlertRule K))
      (recs : List (ℕ × DataRecord K))
      → 0 < c
      → Cools n c rules
      → Spaced c none (all_times n (run_loop K recs (new_evaluator K store_name rules)).0)
  unfolding lookup
  run_loop-Spaced n c store_name rules recs lt cools =
      Spaced-run_loop n c recs (new_evaluator K store_name rules) lt cools
