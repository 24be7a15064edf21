-- ===== src/Aggregation/Results.antt =====
-- What the running state of a field (internal/aggregation/aggregation.go) makes of a list of values.
use ts_store.Prelude.{
  ℕ, suc, ◌+◌, ◌≡◌, refl, ap, ◌∙◌, Bool, true, none, some, List, [], ◌∷◌, length, arith, ltb,
  Option-cases, inl, inr, if◌then◌else◌,
}
use ts_store.Prelude.Int.{pos}
use ts_store.Aggregation.{
  AggFunc, sum, avg, max, min, count, last, unknown, Floats, Value, FieldState, new_field_state,
  add_value, result_for, to_float64, float64, integer, int, nil,
}

module _ (F : Floats) (Other : Type 0) where
  abbrev pub state_from : FieldState F Other → List (Value F Other) → FieldState F Other
  state_from fs [] = fs
  state_from fs (v ∷ vs) = state_from (add_value F Other fs v) vs

  -- The numbers among the values.
  abbrev pub numbers : List (Value F Other) → List F.Float
  numbers [] = []
  numbers (v ∷ vs) = elim (to_float64 F Other v) [ none ↦ numbers vs | some x ↦ x ∷ numbers vs ]

  abbrev pub sum_of : F.Float → List F.Float → F.Float
  sum_of s [] = s
  sum_of s (x ∷ xs) = sum_of (F.add s x) xs

  abbrev pub largest : F.Float → List F.Float → F.Float
  largest m [] = m
  largest m (x ∷ xs) = largest (if F.less m x then x else m) xs

  abbrev pub smallest : F.Float → List F.Float → F.Float
  smallest m [] = m
  smallest m (x ∷ xs) = smallest (if F.less x m then x else m) xs

  abbrev pub last_of : Value F Other → List (Value F Other) → Value F Other
  last_of v [] = v
  last_of v (w ∷ ws) = last_of w ws

  -- The fields of a state after a list of values.
  pub state_from_lem :
      (vs : List (Value F Other)) (fs : FieldState F Other)
      → ((state_from fs vs).sum ≡ sum_of fs.sum (numbers vs))
        × ((state_from fs vs).max ≡ largest fs.max (numbers vs))
        × ((state_from fs vs).min ≡ smallest fs.min (numbers vs))
        × ((state_from fs vs).count ≡ fs.count + length vs)
        × ((state_from fs vs).last ≡ last_of fs.last vs)
  unfolding add_value
  state_from_lem [] fs = (refl, refl, refl, omega arith, refl)
  state_from_lem (v ∷ vs) fs =
      let (s, h, l, n, w) = state_from_lem vs (add_value F Other fs v) in
      elim (Option-cases (to_float64 F Other v)) [
        | inl e ↦ (
          s ∙ rw (numbers, e, add_value) refl,
          h ∙ rw (numbers, e, add_value) refl,
          l ∙ rw (numbers, e, add_value) refl,
          n ∙ rw (add_value, e) (omega arith),
          w ∙ rw (add_value, e) refl,
        )
        | inr (x, e) ↦ (
          s ∙ rw (numbers, e, add_value) refl,
          h ∙ rw (numbers, e, add_value) refl,
          l ∙ rw (numbers, e, add_value) refl,
          n ∙ rw (add_value, e) (omega arith),
          w ∙ rw (add_value, e) refl,
        )
      ]

  -- The result that a function has of the values of a window.
  abbrev pub result_of_values :
      AggFunc → Bool → Value F Other → List (Value F Other) → Value F Other
  result_of_values fn partial v vs = elim fn [
    | sum ↦ if partial then nil else float64 (sum_of F.zero_float (numbers (v ∷ vs)))
    | avg ↦
        float64
          (F.divide (sum_of F.zero_float (numbers (v ∷ vs))) (F.of_int (pos (length (v ∷ vs)))))
    | max ↦ float64 (largest (F.negate F.max_float) (numbers (v ∷ vs)))
    | min ↦ float64 (smallest F.max_float (numbers (v ∷ vs)))
    | count ↦ integer int (pos (length (v ∷ vs)))
    | last ↦ last_of v vs
    | unknown s ↦ last_of v vs
  ]

  -- On one value or more, whatever function the state was made for: `sum` is the sum of the numbers among
  -- them in order, nil in a partial result; `avg` is that sum divided by the number of all the values;
  -- `max` and `min` are the largest and the smallest number, from -MaxFloat64 and MaxFloat64 on; `count` is
  -- the number of values; `last`, and any other function, is the last value.
  pub result_for-state_from :
      (fn made : AggFunc) (partial : Bool) (v : Value F Other) (vs : List (Value F Other))
      → result_for F Other (state_from (new_field_state F Other made) (v ∷ vs)) fn partial
        ≡ result_of_values fn partial v vs
  unfolding result_for
  result_for-state_from fn made partial v vs =
      let st = state_from (new_field_state F Other made) (v ∷ vs) in
      let facts = state_from_lem (v ∷ vs) (new_field_state F Other made) in
      let counted : st.count ≡ length (v ∷ vs) = facts.3 ∙ omega arith in
      let some_values : ltb 0 st.count ≡ true = tested st.count (length vs) counted in
      elim fn as (λ k. result_for F Other st k partial ≡ result_of_values k partial v vs) [
        | sum ↦
            ap (λ b. if b then (if partial then nil else float64 st.sum) else nil) some_values
            ∙ ap (λ x. if partial then nil else float64 x) facts.0
        | avg ↦
            ap (λ b. if b then float64 (F.divide st.sum (F.of_int (pos st.count))) else nil)
              some_values
            ∙ ap (λ x. float64 (F.divide x (F.of_int (pos st.count)))) facts.0
            ∙ ap
                (λ n.
                  float64 (F.divide (sum_of F.zero_float (numbers (v ∷ vs))) (F.of_int (pos n))))
                counted
        | max ↦
            ap (λ b. if b then float64 st.max else nil) some_values ∙ ap (λ x. float64 x) facts.1
        | min ↦
            ap (λ b. if b then float64 st.min else nil) some_values ∙ ap (λ x. float64 x) facts.2
        | count ↦
            ap (λ b. if b then integer int (pos st.count) else nil) some_values
            ∙ ap (λ n. integer int (pos n)) counted
        | last ↦ ap (λ b. if b then st.last else nil) some_values ∙ facts.4
        | unknown s ↦ ap (λ b. if b then st.last else nil) some_values ∙ facts.4
      ]
    where
      tested : (m n : ℕ) → m ≡ suc n → ltb 0 m ≡ true
      tested m n e = ground arith
