-- ===== src/Aggregation/Window/Batch.antt =====
-- `AggregateBatch` (internal/aggregation/batch.go) beside a grouping of the records by window.
use ts_store.Prelude.{
  ℕ, ◌+◌, ◌*◌, ◌/◌, ◌^◌, ◌≤◌, ◌<◌, ◌≡◌, ◌≢◌, refl, sym, ap, ◌∙◌, Bool, true, false, none, some,
  List, [], ◌∷◌, ◌++◌, ◌==◌, length, length-append, append_assoc, arith, if◌then◌else◌, leb, le→leb,
  gt→leb,
}
use mathlib.Core.Path.{subst}
use mathlib.Core.Logic.{dite}
use native.Mathlib.Decide.{ℕ_discrete}
use native.Mathlib.Nat.{div-mul-le_self, lt-div-mul-add, le-div_iff_mul-le}
use ts_store.Prelude.Int.{ℤ, pos, leb_ℤ}
use ts_store.Aggregation.{Config, Floats}
use ts_store.Aggregation.Window.{
  AggResult, Accumulator, new_accumulator, init_window, accumulate, with_window, summary,
  results_from, emit, add, flush, append_some, batch_from, aggregate_batch,
}
use ts_store.Aggregation.Window.Counts.{add_inside, add_outside, emit-some}
use ts_store.Aggregation.Window.State.{
  InWindow, Core, core, count-gathered, accumulate-InWindow, init_window-InWindow,
}
use ts_store.Aggregation.Window.Groups.{
  Data, stamped, join, groups, group_result, group_results, Ascending, lower, join_same,
  results_apart,
}

module _ (F : Floats) (Other : Type 0) where
  module _ (c : Config) (w : ℕ) (positive : 0 < w) (width : c.window ≡ pos w) where
    summary-group_result :
        (partial : Bool) (k : ℕ) (ds : List (Data F Other)) (a : Accumulator F Other)
        → InWindow F Other c w k ds a
        → summary F Other partial a ≡ group_result F Other c w partial (k, ds)
    summary-group_result partial k ds a i =
        ap (λ z. built z.1 (core F Other a)) i.window
        ∙ ap (built (pos (k * w + w))) i.records
        ∙ ap (λ n. record (group_result F Other c w partial (k, ds)) { count = n })
            (count-gathered F Other c ds)
      where
        built : ℤ → Core F Other → AggResult F Other
        built end (z, fields, funcs, n) = record {
          timestamp = end;
          count = n;
          partial = partial;
          data_fields = results_from F Other funcs partial fields [];
        }

    has_records :
        (k : ℕ) (ds : List (Data F Other)) (a : Accumulator F Other)
        → InWindow F Other c w k ds a
        → 0 < length ds
        → (a.count == 0) ≡ false
    has_records k ds a i some_records =
        not_zero a.count (length ds) (ap (λ z. z.3) i.records ∙ count-gathered F Other c ds)
          some_records
      where
        not_zero : (m n : ℕ) → m ≡ n → 0 < n → (m == 0) ≡ false
        not_zero m n e lt = ground arith

    still_open :
        (k n : ℕ) (ds : List (Data F Other)) (a : Accumulator F Other)
        → InWindow F Other c w k ds a
        → 0 < length ds
        → with_window F Other (pos n) a ≡ a
    still_open k n ds a i some_records =
        ap (λ b. if b then init_window F Other (pos n) a else a) (has_records k ds a i some_records)

    closes :
        (k n : ℕ) (ds : List (Data F Other)) (a : Accumulator F Other)
        → InWindow F Other c w k ds a
        → 0 < length ds
        → leb_ℤ (with_window F Other (pos n) a).window_end (pos n) ≡ leb (k * w + w) n
    closes k n ds a i some_records =
        ap (λ x. leb_ℤ x.window_end (pos n)) (still_open k n ds a i some_records)
        ∙ ap (λ z. leb_ℤ z.1 (pos n)) i.window
        ∙ plain (k * w + w) n
      where
        plain : (x n : ℕ) → leb_ℤ (pos x) (pos n) ≡ leb x n
        plain x n = ground arith

    -- A record of the window that is open.
    add_same :
        (k n : ℕ) (ds : List (Data F Other)) (d : Data F Other) (a : Accumulator F Other)
        → InWindow F Other c w k ds a
        → 0 < length ds
        → n / w ≡ k
        → add F Other (pos n) d a ≡ (none, accumulate F Other d a)
    add_same k n ds d a i some_records same =
        add_inside F Other (pos n) d a (
          closes k n ds a i some_records
          ∙ gt→leb (k * w + w) n
              (subst (λ x. n < x * w + w) same (lt-div-mul-add {a = n} {b = w} positive)))
        ∙ ap (λ x. (none, accumulate F Other d x)) (still_open k n ds a i some_records)

    beyond : (k n : ℕ) → k * w ≤ n → n / w ≢ k → k * w + w ≤ n
    beyond k n low differ =
        let at_least : k ≤ n / w = (le-div_iff_mul-le {k = w} {x = k} {y = n} positive).1 low in
        let more : k + 1 ≤ n / w = omega (arith, at_least, differ) in
        subst (λ x. x ≤ n) (add-mul k w)
          ((le-div_iff_mul-le {k = w} {x = k + 1} {y = n} positive).0 more)
      where
        add-mul : (k w : ℕ) → (k + 1) * w ≡ k * w + w
        add-mul k w = grind arith

    -- A record behind the window that is open.
    add_next :
        (k n : ℕ) (ds : List (Data F Other)) (d : Data F Other) (a : Accumulator F Other)
        → InWindow F Other c w k ds a
        → 0 < length ds
        → k * w ≤ n
        → n + w < 2 ^ 63
        → n / w ≢ k
        → (a' : Accumulator F Other) × (add F Other (pos n) d a
            ≡ (some (group_result F Other c w false (k, ds)), a'))
          × InWindow F Other c w (n / w) (d ∷ []) a'
    add_next k n ds d a i some_records low lt differ =
        let emptied = record a { fields = []; field_funcs = []; count = 0 } in
        let emitted : emit F Other false (with_window F Other (pos n) a)
            ≡ (some (group_result F Other c w false (k, ds)), emptied) =
          ap (emit F Other false) (still_open k n ds a i some_records)
          ∙ emit-some F Other false a (has_records k ds a i some_records)
          ∙ ap (λ x. (some x, emptied)) (summary-group_result false k ds a i) in
        (
          accumulate F Other d (init_window F Other (pos n) emptied),
          add_outside F Other (pos n) d a
                (closes k n ds a i some_records ∙ le→leb (k * w + w) n (beyond k n low differ))
              ∙ ap (λ e. (e.0, accumulate F Other d (init_window F Other (pos n) e.1))) emitted,
          accumulate-InWindow F Other c w (n / w) [] (init_window F Other (pos n) emptied)
              (init_window-InWindow F Other c w n emptied lt (ap (λ z. z.2) i.window)
                (ap (λ z. z.0) i.window))
              d,
        )

    -- The first record opens its window.
    add_first :
        (n : ℕ) (d : Data F Other)
        → n + w < 2 ^ 63
        → add F Other (pos n) d (new_accumulator F Other c)
          ≡ (none, accumulate F Other d (init_window F Other (pos n) (new_accumulator F Other c)))
    unfolding new_accumulator
    add_first n d lt = add_inside F Other (pos n) d (new_accumulator F Other c) (
        ap (λ z. leb_ℤ z.1 (pos n))
          (init_window-InWindow F Other c w n (new_accumulator F Other c) lt refl width).window
        ∙ plain (n / w * w + w) n (lt-div-mul-add {a = n} {b = w} positive))
      where
        plain : (x n : ℕ) → n < x → leb_ℤ (pos x) (pos n) ≡ false
        plain x n lt = ground arith

    batch_from-InWindow :
        (rs : List (ℕ × Data F Other)) (k : ℕ) (ds : List (Data F Other)) (a : Accumulator F Other)
        (results : List (AggResult F Other))
        → InWindow F Other c w k ds a
        → 0 < length ds
        → Ascending F Other w (k * w) rs
        → batch_from F Other (stamped F Other rs) a results
          ≡ results ++ group_results F Other c w (join F Other k ds (groups F Other w rs))
    unfolding batch_from flush
    batch_from-InWindow [] k ds a results i some_records order =
        ap (λ b. append_some F Other results (if b then (none, a) else emit F Other true a).0)
          (has_records k ds a i some_records)
        ∙ ap (λ e. append_some F Other results e.0)
            (emit-some F Other true a (has_records k ds a i some_records))
        ∙ ap (λ x. results ++ (x ∷ [])) (summary-group_result true k ds a i)
    batch_from-InWindow ((n, d) ∷ rs) k ds a results i some_records (low, lt, order) =
        dite (ℕ_discrete (n / w) k)
          (λ same.
            ap (λ e. batch_from F Other (stamped F Other rs) e.1 (append_some F Other results e.0))
              (add_same k n ds d a i some_records same)
            ∙ batch_from-InWindow rs k (ds ++ (d ∷ [])) (accumulate F Other d a) results
                (accumulate-InWindow F Other c w k ds a i d)
                (omega (arith, length-append ds (d ∷ []))) (lower F Other w rs n (k * w) low order)
            ∙ ap (λ gs. results ++ group_results F Other c w gs)
                (sym (
                  ap (λ j. join F Other k ds (join F Other j (d ∷ []) (groups F Other w rs))) same
                  ∙ join_same F Other k ds d (groups F Other w rs))))
          (λ differ.
            let (a', added, i') = add_next k n ds d a i some_records low lt differ in
            ap (λ e. batch_from F Other (stamped F Other rs) e.1 (append_some F Other results e.0))
              added
            ∙ batch_from-InWindow rs (n / w) (d ∷ []) a'
                (results ++ (group_result F Other c w false (k, ds) ∷ [])) i' (omega arith)
                (lower F Other w rs n (n / w * w) (div-mul-le_self n w) order)
            ∙ append_assoc results (group_result F Other c w false (k, ds) ∷ [])
                (group_results F Other c w (join F Other (n / w) (d ∷ []) (groups F Other w rs)))
            ∙ ap (λ x. results ++ x)
                (sym
                  (results_apart F Other c w k (n / w) ds (d ∷ []) (groups F Other w rs) differ)))

  -- For a positive width, and records that stand in the order of their timestamps (none before 1970, and no
  -- window beyond `int64`), `AggregateBatch` gives one result for each group of neighbours whose
  -- timestamps have one quotient by the width: the end of that window, the group's size and the results of
  -- the group's own records, each of them complete but the last.
  pub aggregate_batch-groups :
      (c : Config) (w : ℕ) (rs : List (ℕ × Data F Other))
      → 0 < w
      → c.window ≡ pos w
      → Ascending F Other w 0 rs
      → aggregate_batch F Other (stamped F Other rs) c
        ≡ group_results F Other c w (groups F Other w rs)
  unfolding aggregate_batch new_accumulator batch_from
  aggregate_batch-groups c w [] positive width order = refl
  aggregate_batch-groups c w ((n, d) ∷ rs) positive width (low, lt, order) =
      ap (λ e. batch_from F Other (stamped F Other rs) e.1 (append_some F Other [] e.0))
        (add_first c w positive width n d lt)
      ∙ batch_from-InWindow c w positive width rs (n / w) (d ∷ [])
          (accumulate F Other d (init_window F Other (pos n) (new_accumulator F Other c))) []
          (accumulate-InWindow F Other c w (n / w) []
            (init_window F Other (pos n) (new_accumulator F Other c))
            (init_window-InWindow F Other c w n (new_accumulator F Other c) lt refl width) d)
          (omega arith) (lower F Other w rs n (n / w * w) (div-mul-le_self n w) order)
