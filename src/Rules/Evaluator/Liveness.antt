-- ===== src/Rules/Evaluator/Liveness.antt =====
-- A rule whose condition holds is not silent for longer than its cooldown (internal/rules/evaluator.go).
use ts_store.Prelude.{
  ℕ, ◌+◌, ◌<◌, ◌≡◌, refl, sym, ap, ◌∙◌, true, false, Option, none, some, List, [], ◌∷◌, ◌++◌, arith,
  Bool-cases, Option-cases, inl, inr, if◌then◌else◌,
}
use mathlib.Core.Path.{subst}
use ts_store.Prelude.Int.{pos, ◌==ℤ◌, leb_ℤ}
use ts_store.Prelude.Equality.{Bytes, ◌=?◌, bytes_eq}
use ts_store.Prelude.Dict.{Dict, lookup, insert, lookup_other, lookup_self}
use ts_store.Rules.{Comparisons, evaluate}
use ts_store.Rules.Evaluator.{
  AlertRule, DataRecord, Evaluator, since, check_cooldown, passes, evaluate_rules, evaluate_record,
  run_loop, new_evaluator,
}
use ts_store.Rules.Evaluator.Firing.{evaluate_rules-pass, evaluate_rules-skip}
use ts_store.Rules.Evaluator.Cooldown.{times_of, all_times, equal_of_test, differ_of_test}

module _ (K : Comparisons) where
  -- The last of the times, or else the given one.
  abbrev pub latest : Option ℕ → List ℕ → Option ℕ
  latest o [] = o
  latest o (t ∷ ts) = latest (some t) ts

  latest-append : (o : Option ℕ) (xs ys : List ℕ) → latest o (xs ++ ys) ≡ latest (latest o xs) ys
  latest-append o [] ys = refl
  latest-append o (x ∷ xs) ys = latest-append (some x) xs ys

  latest-alert :
      (n m : Bytes) (now : ℕ) (lf : Dict Bytes ℕ) (xs : List ℕ)
      → latest (lookup n (insert m now lf)) xs
        ≡ latest (lookup n lf) (if m =? n then now ∷ xs else xs)
  latest-alert n m now lf xs = elim (Bool-cases (m =? n)) [
    | inr h ↦
        ap (λ o. latest o xs) (lookup_other n m now lf (differ_of_test K m n h))
        ∙ sym (ap (λ b. latest (lookup n lf) (if b then now ∷ xs else xs)) h)
    | inl h ↦
        ap (λ o. latest o xs)
          (ap (λ k. lookup n (insert k now lf)) (equal_of_test K m n h) ∙ lookup_self n now lf)
        ∙ sym (ap (λ b. latest (lookup n lf) (if b then now ∷ xs else xs)) h)
  ]

  -- `lastFired` is the time of the last alert.
  latest-evaluate_rules :
      (n : Bytes) (s : Bytes) (now : ℕ) (rec : DataRecord K) (ars : List (AlertRule K))
      (lf : Dict Bytes ℕ)
      → lookup n (evaluate_rules K s now rec ars lf).1
        ≡ latest (lookup n lf) (times_of K n now (evaluate_rules K s now rec ars lf).0)
  unfolding evaluate_rules
  latest-evaluate_rules n s now rec [] lf = refl
  latest-evaluate_rules n s now rec (ar ∷ ars) lf = elim (Bool-cases (passes K ar rec now lf)) [
    | inr h ↦
        subst (λ r. lookup n r.1 ≡ latest (lookup n lf) (times_of K n now r.0))
          (sym (evaluate_rules-skip K s now rec ar ars lf h))
          (latest-evaluate_rules n s now rec ars lf)
    | inl h ↦
        subst (λ r. lookup n r.1 ≡ latest (lookup n lf) (times_of K n now r.0))
          (sym (evaluate_rules-pass K s now rec ar ars lf h))
          (latest-evaluate_rules n s now rec ars (insert ar.rule.name now lf)
            ∙ latest-alert n ar.rule.name now lf
                (times_of K n now (evaluate_rules K s now rec ars (insert ar.rule.name now lf)).0))
  ]

  latest-run_loop :
      (n : Bytes) (recs : List (ℕ × DataRecord K)) (e : Evaluator K)
      → lookup n (run_loop K recs e).1.last_fired
        ≡ latest (lookup n e.last_fired) (all_times K n (run_loop K recs e).0)
  unfolding run_loop evaluate_record
  latest-run_loop n [] e = refl
  latest-run_loop n ((now, rec) ∷ recs) e =
      let e' = (evaluate_record K now rec e).1 in
      let fs = (evaluate_record K now rec e).0 in
      latest-run_loop n recs e'
      ∙ ap (λ o. latest o (all_times K n (run_loop K recs e').0))
          (latest-evaluate_rules n e.store_name now rec e.rules e.last_fired)
      ∙ sym (
          latest-append (lookup n e.last_fired) (times_of K n now fs)
            (all_times K n (run_loop K recs e').0))

  -- A time less than c ago.
  abbrev pub Recent : ℕ → ℕ → Option ℕ → Type 0
  Recent c now o = (last : ℕ) × (o ≡ some last) × (now < last + c)

  Recent-alert :
      (n m : Bytes) (c now : ℕ) (lf : Dict Bytes ℕ)
      → 0 < c
      → Recent c now (lookup n lf)
      → Recent c now (lookup n (insert m now lf))
  Recent-alert n m c now lf lt (last, at, recent) = elim (Bool-cases (m =? n)) [
    | inr h ↦ (last, lookup_other n m now lf (differ_of_test K m n h) ∙ at, recent)
    | inl h ↦ (
      now,
      ap (λ k. lookup n (insert k now lf)) (equal_of_test K m n h) ∙ lookup_self n now lf,
      omega (arith, lt),
    )
  ]

  Recent-evaluate_rules :
      (n : Bytes) (c : ℕ) (s : Bytes) (now : ℕ) (rec : DataRecord K) (ars : List (AlertRule K))
      (lf : Dict Bytes ℕ)
      → 0 < c
      → Recent c now (lookup n lf)
      → Recent c now (lookup n (evaluate_rules K s now rec ars lf).1)
  unfolding evaluate_rules
  Recent-evaluate_rules n c s now rec [] lf lt r = r
  Recent-evaluate_rules n c s now rec (ar ∷ ars) lf lt r =
      elim (Bool-cases (passes K ar rec now lf)) [
        | inr h ↦
            subst (λ x. Recent c now (lookup n x.1))
              (sym (evaluate_rules-skip K s now rec ar ars lf h))
              (Recent-evaluate_rules n c s now rec ars lf lt r)
        | inl h ↦
            subst (λ x. Recent c now (lookup n x.1))
              (sym (evaluate_rules-pass K s now rec ar ars lf h))
              (Recent-evaluate_rules n c s now rec ars (insert ar.rule.name now lf) lt
                (Recent-alert n ar.rule.name c now lf lt r))
      ]

  -- A cooldown that is not over was started less than the cooldown ago.
  not_over :
      (n : Bytes) (c now : ℕ) (lf : Dict Bytes ℕ)
      → check_cooldown K n (pos c) now lf ≡ false
      → Recent c now (lookup n lf)
  unfolding check_cooldown
  not_over n c now lf h = elim (Option-cases (lookup n lf)) [
    | inl at ↦ absurd (
        never c now (
          sym (
            ap
              (λ o.
                if pos c ==ℤ pos 0
                then true
                else elim o [ none ↦ true | some l ↦ leb_ℤ (pos c) (since K now l) ])
              at)
          ∙ h))
    | inr (last, at) ↦ (
      last,
      at,
      arithmetic c now last (
          sym (
            ap
              (λ o.
                if pos c ==ℤ pos 0
                then true
                else elim o [ none ↦ true | some l ↦ leb_ℤ (pos c) (since K now l) ])
              at)
          ∙ h),
    )
  ]
    where
      never : (c now : ℕ) → (if pos c ==ℤ pos 0 then true else true) ≡ false → ⊥
      never c now h = ground (arith, h)

      arithmetic :
          (c now last : ℕ)
          → (if pos c ==ℤ pos 0 then true else leb_ℤ (pos c) (since K now last)) ≡ false
          → now < last + c
      arithmetic c now last h = ground (arith, h)

  held :
      (ar : AlertRule K) (c : ℕ) (rec : DataRecord K) (now : ℕ) (lf : Dict Bytes ℕ)
      → evaluate K ar.rule rec.data_fields ≡ true
      → ar.cooldown ≡ pos c
      → passes K ar rec now lf ≡ false
      → check_cooldown K ar.rule.name (pos c) now lf ≡ false
  held ar c rec now lf holds cool h =
      ap (λ k. check_cooldown K ar.rule.name k now lf) (sym cool)
      ∙ sym (ap (λ b. if b then check_cooldown K ar.rule.name ar.cooldown now lf else false) holds)
      ∙ h

  rule_holds :
      (before after : List (AlertRule K)) (ar : AlertRule K) (c : ℕ) (s : Bytes) (now : ℕ)
      (rec : DataRecord K) (lf : Dict Bytes ℕ)
      → 0 < c
      → ar.cooldown ≡ pos c
      → evaluate K ar.rule rec.data_fields ≡ true
      → Recent c now
          (lookup ar.rule.name (evaluate_rules K s now rec (before ++ (ar ∷ after)) lf).1)
  rule_holds [] after ar c s now rec lf lt cool holds = elim (Bool-cases (passes K ar rec now lf)) [
    | inl h ↦
        subst (λ x. Recent c now (lookup ar.rule.name x.1))
          (sym (evaluate_rules-pass K s now rec ar after lf h))
          (Recent-evaluate_rules ar.rule.name c s now rec after (insert ar.rule.name now lf) lt
            (now, lookup_self ar.rule.name now lf, omega (arith, lt)))
    | inr h ↦
        subst (λ x. Recent c now (lookup ar.rule.name x.1))
          (sym (evaluate_rules-skip K s now rec ar after lf h))
          (Recent-evaluate_rules ar.rule.name c s now rec after lf lt
            (not_over ar.rule.name c now lf (held ar c rec now lf holds cool h)))
  ]
  rule_holds (b ∷ before) after ar c s now rec lf lt cool holds =
      elim (Bool-cases (passes K b rec now lf)) [
        | inl h ↦
            subst (λ x. Recent c now (lookup ar.rule.name x.1))
              (sym (evaluate_rules-pass K s now rec b (before ++ (ar ∷ after)) lf h))
              (rule_holds before after ar c s now rec (insert b.rule.name now lf) lt cool holds)
        | inr h ↦
            subst (λ x. Recent c now (lookup ar.rule.name x.1))
              (sym (evaluate_rules-skip K s now rec b (before ++ (ar ∷ after)) lf h))
              (rule_holds before after ar c s now rec lf lt cool holds)
      ]

  -- When a rule with a positive cooldown holds on the record that ends a run of a new evaluator, the last alert under
  -- its name was raised on that record or less than the cooldown before it.
  pub run_loop-Recent :
      (before after : List (AlertRule K)) (ar : AlertRule K) (c : ℕ) (store_name : Bytes)
      (recs : List (ℕ × DataRecord K)) (now : ℕ) (rec : DataRecord K)
      → 0 < c
      → ar.cooldown ≡ pos c
      → evaluate K ar.rule rec.data_fields ≡ true
      → Recent c now (
          latest none (
            all_times K ar.rule.name
              (run_loop K
                (recs ++ ((now, rec) ∷ []))
                (new_evaluator K store_name (before ++ (ar ∷ after)))).0))
  unfolding run_loop evaluate_record lookup
  run_loop-Recent before after ar c store_name recs now rec lt cool holds =
      subst (Recent c now)
        (latest-run_loop ar.rule.name (recs ++ ((now, rec) ∷ []))
          (new_evaluator K store_name (before ++ (ar ∷ after))))
        (ends recs [])
    where
      evaluator : Dict Bytes ℕ → Evaluator K
      evaluator lf = record {
        store_name = store_name;
        rules = before ++ (ar ∷ after);
        last_fired = lf;
      }

      ends :
          (rs : List (ℕ × DataRecord K)) (lf : Dict Bytes ℕ)
          → Recent c now (
              lookup ar.rule.name
                (run_loop K (rs ++ ((now, rec) ∷ [])) (evaluator lf)).1.last_fired)
      ends [] lf = rule_holds before after ar c store_name now rec lf lt cool holds
      ends ((t, r) ∷ rs) lf =
          ends rs (evaluate_rules K store_name t r (before ++ (ar ∷ after)) lf).1
