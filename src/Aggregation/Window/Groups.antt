-- ===== src/Aggregation/Window/Groups.antt =====
-- The records of internal/aggregation/batch.go grouped by window, and the results of the groups.
use ts_store.Prelude.{
  ℕ, ◌+◌, ◌*◌, ◌/◌, ◌^◌, ◌≤◌, ◌<◌, ◌≡◌, ◌≢◌, sym, ap, ◌∙◌, Bool, true, false, List, [], ◌∷◌, ◌++◌,
  ◌==◌, length, append_assoc, arith, if◌then◌else◌, Bool-cases, inl, inr,
}
use ts_store.Prelude.Int.{pos}
use ts_store.Prelude.Equality.{Bytes}
use ts_store.Prelude.Dict.{Dict}
use ts_store.Aggregation.{Config, Floats, Value}
use ts_store.Aggregation.Window.{AggResult, TimestampedRecord, results_from}
use ts_store.Aggregation.Window.State.{gathered}

module _ (F : Floats) (Other : Type 0) where
  abbrev pub Data : Type 0
  Data = Dict Bytes (Value F Other)

  -- A record whose timestamp is not before 1970.
  abbrev pub stamped : List (ℕ × Data) → List (TimestampedRecord F Other)
  stamped [] = []
  stamped ((n, d) ∷ rs) = record { timestamp = pos n; data_fields = d } ∷ stamped rs

  -- The records of window k come before the given groups.
  abbrev pub join : ℕ → List Data → List (ℕ × List Data) → List (ℕ × List Data)
  join k ds [] = (k, ds) ∷ []
  join k ds ((j, es) ∷ gs) = if j == k then (k, ds ++ es) ∷ gs else (k, ds) ∷ (j, es) ∷ gs

  -- Neighbours whose timestamps have one quotient by the width form a group.
  abbrev pub groups : ℕ → List (ℕ × Data) → List (ℕ × List Data)
  groups w [] = []
  groups w ((n, d) ∷ rs) = join (n / w) (d ∷ []) (groups w rs)

  -- The result of one group: the end of its window, its size, and the results of its fields.
  abbrev pub group_result : Config → ℕ → Bool → ℕ × List Data → AggResult F Other
  group_result c w partial (k, ds) = record {
    timestamp = pos (k * w + w);
    count = length ds;
    partial = partial;
    data_fields =
        results_from F Other (gathered F Other c ds).field_funcs partial
          (gathered F Other c ds).fields [];
  }

  -- Only the last result is partial.
  abbrev pub group_results : Config → ℕ → List (ℕ × List Data) → List (AggResult F Other)
  group_results c w [] = []
  group_results c w (g ∷ []) = group_result c w true g ∷ []
  group_results c w (g ∷ h ∷ gs) = group_result c w false g ∷ group_results c w (h ∷ gs)

  -- Timestamps from the given one on, in order, whose windows end within `int64`.
  abbrev pub Ascending : ℕ → ℕ → List (ℕ × Data) → Type 0
  Ascending w low [] = Unit
  Ascending w low ((n, d) ∷ rs) = (low ≤ n) × (n + w < 2 ^ 63) × Ascending w n rs

  pub lower :
      (w : ℕ) (rs : List (ℕ × Data)) (n low : ℕ) → low ≤ n → Ascending w n rs → Ascending w low rs
  lower w [] n low le order = tt
  lower w ((m, d) ∷ rs) n low le (at_least, lt, order) = (omega (arith, le, at_least), lt, order)

  pub join_same :
      (k : ℕ) (ds : List Data) (d : Data) (gs : List (ℕ × List Data))
      → join k ds (join k (d ∷ []) gs) ≡ join k (ds ++ (d ∷ [])) gs
  join_same k ds d [] = ground arith
  join_same k ds d ((j, es) ∷ gs) = elim (Bool-cases (j == k)) [
    | inl h ↦
        ap (λ b. join k ds (if b then (k, d ∷ es) ∷ gs else (k, d ∷ []) ∷ (j, es) ∷ gs)) h
        ∙ same
        ∙ sym (
            ap
              (λ b.
                if b then (k, (ds ++ (d ∷ [])) ++ es) ∷ gs else (k, ds ++ (d ∷ [])) ∷ (j, es) ∷ gs)
              h)
    | inr h ↦
        ap (λ b. join k ds (if b then (k, d ∷ es) ∷ gs else (k, d ∷ []) ∷ (j, es) ∷ gs)) h
        ∙ apart
        ∙ sym (
            ap
              (λ b.
                if b then (k, (ds ++ (d ∷ [])) ++ es) ∷ gs else (k, ds ++ (d ∷ [])) ∷ (j, es) ∷ gs)
              h)
  ]
    where
      test : (k == k) ≡ true
      test = ground arith

      same : join k ds ((k, d ∷ es) ∷ gs) ≡ (k, (ds ++ (d ∷ [])) ++ es) ∷ gs
      same =
          ap (λ b. if b then (k, ds ++ (d ∷ es)) ∷ gs else (k, ds) ∷ (k, d ∷ es) ∷ gs) test
          ∙ ap (λ x. (k, x) ∷ gs) (sym (append_assoc ds (d ∷ []) es))

      apart : join k ds ((k, d ∷ []) ∷ (j, es) ∷ gs) ≡ (k, ds ++ (d ∷ [])) ∷ (j, es) ∷ gs
      apart =
          ap
            (λ b.
              if b
              then (k, ds ++ (d ∷ [])) ∷ (j, es) ∷ gs
              else (k, ds) ∷ (k, d ∷ []) ∷ (j, es) ∷ gs)
            test

  -- A group of another window stands apart, and is not the last.
  pub results_apart :
      (c : Config) (w k j : ℕ) (ds es : List Data) (gs : List (ℕ × List Data))
      → j ≢ k
      → group_results c w (join k ds (join j es gs))
        ≡ group_result c w false (k, ds) ∷ group_results c w (join j es gs)
  results_apart c w k j ds es [] ne = ground (arith, ne)
  results_apart c w k j ds es ((i, fs) ∷ gs) ne = ground (arith, ne)
