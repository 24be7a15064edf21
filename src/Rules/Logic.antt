-- ===== src/Rules/Logic.antt =====
-- The connectives and comparisons of internal/rules/rules.go beside their usual meaning.
use ts_store.Prelude.{
  ℕ, ◌≡◌, refl, ap, ◌∙◌, Bool, true, false, not, ◌&&◌, ◌||◌, List, [], ◌∷◌, arith, ◌⊎◌,
  if◌then◌else◌, ◌==◌,
}
use ts_store.Prelude.Equality.{Bytes, ◌=?◌, bytes_eq}
use ts_store.Prelude.Dict.{Dict}
use ts_store.Aggregation.{other_value}
use ts_store.Rules.{
  Comparisons, RuleValue, Condition, Rule, less_string, compare, to_float64, to_string, text, op_lt,
  op_eq, op_gt, evaluate, evaluate_condition, all_hold, some_hold, op_and,
}

module _ (K : Comparisons) where
  abbrev pub every : (Condition K → Bool) → List (Condition K) → Bool
  every p [] = true
  every p (c ∷ cs) = p c && every p cs

  abbrev pub any : (Condition K → Bool) → List (Condition K) → Bool
  any p [] = false
  any p (c ∷ cs) = p c || any p cs

  all_hold-every :
      (d : Dict Bytes (RuleValue K)) (cs : List (Condition K))
      → all_hold K d cs ≡ every (evaluate_condition K d) cs
  unfolding all_hold
  all_hold-every d [] = refl
  all_hold-every d (c ∷ cs) =
      step (evaluate_condition K d c) (all_hold K d cs) (every (evaluate_condition K d) cs)
        (all_hold-every d cs)
    where
      step : (b x y : Bool) → x ≡ y → (if not b then false else x) ≡ (b && y)
      step true x y e = e
      step false x y e = refl

  some_hold-any :
      (d : Dict Bytes (RuleValue K)) (cs : List (Condition K))
      → some_hold K d cs ≡ any (evaluate_condition K d) cs
  unfolding some_hold
  some_hold-any d [] = refl
  some_hold-any d (c ∷ cs) =
      step (evaluate_condition K d c) (some_hold K d cs) (any (evaluate_condition K d) cs)
        (some_hold-any d cs)
    where
      step : (b x y : Bool) → x ≡ y → (if b then true else x) ≡ (b || y)
      step true x y e = refl
      step false x y e = e

  abbrev pub is_nonempty : List (Condition K) → Bool
  is_nonempty [] = false
  is_nonempty (c ∷ cs) = true

  evaluate_lem :
      (name op : Bytes) (cs : List (Condition K)) (d : Dict Bytes (RuleValue K))
      → evaluate K (record { name = name; conditions = cs; logical_op = op }) d ≡ (
          is_nonempty cs
          && (if op =? op_and
              then every (evaluate_condition K d) cs
              else any (evaluate_condition K d) cs))
  unfolding evaluate
  evaluate_lem name op [] d = refl
  evaluate_lem name op (c ∷ []) d = one (op =? op_and) (evaluate_condition K d c)
    where
      one : (b x : Bool) → x ≡ (if b then x && true else x || false)
      one true true = refl
      one true false = refl
      one false true = refl
      one false false = refl
  evaluate_lem name op (c ∷ e ∷ cs) d =
      ap (λ x. if op =? op_and then x else some_hold K d (c ∷ e ∷ cs))
        (all_hold-every d (c ∷ e ∷ cs))
      ∙ ap (λ x. if op =? op_and then every (evaluate_condition K d) (c ∷ e ∷ cs) else x)
          (some_hold-any d (c ∷ e ∷ cs))

  -- A rule holds exactly if it has a condition, and, under "AND", every one of its conditions holds, or,
  -- under any other connective, one of them.
  pub evaluate-connectives :
      (r : Rule K) (d : Dict Bytes (RuleValue K))
      → evaluate K r d ≡ (
          is_nonempty r.conditions
          && (if r.logical_op =? op_and
              then every (evaluate_condition K d) r.conditions
              else any (evaluate_condition K d) r.conditions))
  evaluate-connectives r d = evaluate_lem r.name r.logical_op r.conditions d

  equal-cons : (c d : ℕ) (s t : Bytes) → ((c ∷ s) =? (d ∷ t)) ≡ (c == d && (s =? t))
  equal-cons c d s t = ground arith

  abbrev pub Exactly : Bool → Bool → Bool → Type 0
  Exactly a b c =
      ((a ≡ true) × (b ≡ false) × (c ≡ false))
      ⊎ ((a ≡ false) × (b ≡ true) × (c ≡ false))
      ⊎ ((a ≡ false) × (b ≡ false) × (c ≡ true))

  less_string-trichotomy : (s t : Bytes) → Exactly (less_string s t) (s =? t) (less_string t s)
  unfolding less_string
  less_string-trichotomy [] [] = ground arith
  less_string-trichotomy [] (d ∷ t) = ground arith
  less_string-trichotomy (c ∷ s) [] = ground arith
  less_string-trichotomy (c ∷ s) (d ∷ t) =
      ground (arith, equal-cons c d s t, less_string-trichotomy s t)

  -- On two strings, exactly one of `<`, `==` and `>` holds.
  pub compare-trichotomy :
      (s t : Bytes)
      → Exactly
          (compare K (other_value (text s)) op_lt (other_value (text t)))
          (compare K (other_value (text s)) op_eq (other_value (text t)))
          (compare K (other_value (text s)) op_gt (other_value (text t)))
  unfolding compare to_float64 to_string
  compare-trichotomy s t = less_string-trichotomy s t
