-- ===== src/Aggregation/Window/Counts.antt =====
-- The counts of the results that internal/aggregation/{accumulator,batch}.go emit.
use ts_store.Prelude.{
  ℕ, ◌+◌, ◌≡◌, refl, sym, ap, ◌∙◌, Bool, true, false, Option, none, some, List, [], ◌∷◌, ◌++◌, ◌==◌,
  length, arith, if◌then◌else◌, Option-cases, Bool-cases, eq_of_test, inl, inr,
}
use ts_store.Prelude.Int.{ℤ, leb_ℤ}
use ts_store.Prelude.Equality.{Bytes, bytes_eq}
use ts_store.Prelude.Dict.{Dict, lookup}
use ts_store.Aggregation.{Config, Floats, Value}
use ts_store.Aggregation.Window.{
  AggResult, TimestampedRecord, Accumulator, new_accumulator, init_window, accumulate_field,
  accumulate_fields, accumulate, with_window, summary, emit, add, flush, append_some, batch_from,
  aggregate_batch,
}

module _ (F : Floats) (Other : Type 0) where
  -- The sum of the results' counts.
  abbrev pub total : List (AggResult F Other) → ℕ
  total [] = 0
  total (r ∷ rs) = r.count + total rs

  total-append : (xs ys : List (AggResult F Other)) → total (xs ++ ys) ≡ total xs + total ys
  total-append [] ys = omega arith
  total-append (x ∷ xs) ys = omega (arith, total-append xs ys)

  total-append_some :
      (xs : List (AggResult F Other)) (o : Option (AggResult F Other))
      → total (append_some F Other xs o) ≡ total xs + total (append_some F Other [] o)
  total-append_some xs none = omega arith
  total-append_some xs (some r) = total-append xs (r ∷ [])

  count-accumulate_field :
      (a : Accumulator F Other) (f : Bytes) (v : Value F Other)
      → (accumulate_field F Other a f v).count ≡ a.count
  unfolding accumulate_field
  count-accumulate_field a f v = elim (Option-cases (lookup f a.fields)) [
    | inl e ↦ rw (accumulate_field, e) refl
    | inr (fs, e) ↦ rw (accumulate_field, e) refl
  ]

  count-accumulate_fields :
      (a : Accumulator F Other) (d : Dict Bytes (Value F Other))
      → (accumulate_fields F Other a d).count ≡ a.count
  unfolding accumulate_fields
  count-accumulate_fields a [] = refl
  count-accumulate_fields a ((f, v) ∷ d) =
      count-accumulate_fields (accumulate_field F Other a f v) d ∙ count-accumulate_field a f v

  pub count-accumulate :
      (a : Accumulator F Other) (d : Dict Bytes (Value F Other))
      → (accumulate F Other d a).count ≡ a.count + 1
  unfolding accumulate
  count-accumulate a d = count-accumulate_fields (record a { count = a.count + 1 }) d

  -- The two ways through `Add`.
  pub add_inside :
      (t : ℤ) (d : Dict Bytes (Value F Other)) (a : Accumulator F Other)
      → leb_ℤ (with_window F Other t a).window_end t ≡ false
      → add F Other t d a ≡ (none, accumulate F Other d (with_window F Other t a))
  unfolding add
  add_inside t d a h =
      ap
        (λ b.
          if b
          then (
            (emit F Other false (with_window F Other t a)).0,
            accumulate F Other d
                (init_window F Other t (emit F Other false (with_window F Other t a)).1),
          )
          else (none, accumulate F Other d (with_window F Other t a)))
        h

  pub add_outside :
      (t : ℤ) (d : Dict Bytes (Value F Other)) (a : Accumulator F Other)
      → leb_ℤ (with_window F Other t a).window_end t ≡ true
      → add F Other t d a ≡ (
        (emit F Other false (with_window F Other t a)).0,
        accumulate F Other d
            (init_window F Other t (emit F Other false (with_window F Other t a)).1),
      )
  unfolding add
  add_outside t d a h =
      ap
        (λ b.
          if b
          then (
            (emit F Other false (with_window F Other t a)).0,
            accumulate F Other d
                (init_window F Other t (emit F Other false (with_window F Other t a)).1),
          )
          else (none, accumulate F Other d (with_window F Other t a)))
        h

  -- `emit` with and without records.
  pub emit-some :
      (partial : Bool) (a : Accumulator F Other)
      → (a.count == 0) ≡ false
      → emit F Other partial a
        ≡ (some (summary F Other partial a), record a { fields = []; field_funcs = []; count = 0 })
  unfolding emit
  emit-some partial a h =
      ap
        (λ b. if b then (none, a) else (
          some (summary F Other partial a),
          record a { fields = []; field_funcs = []; count = 0 },
        ))
        h

  emit-none :
      (partial : Bool) (a : Accumulator F Other)
      → (a.count == 0) ≡ true
      → emit F Other partial a ≡ (none, a)
  unfolding emit
  emit-none partial a h =
      ap
        (λ b. if b then (none, a) else (
          some (summary F Other partial a),
          record a { fields = []; field_funcs = []; count = 0 },
        ))
        h

  count-init_window : (t : ℤ) (a : Accumulator F Other) → (init_window F Other t a).count ≡ 0
  unfolding init_window
  count-init_window t a = refl

  count-with_window : (t : ℤ) (a : Accumulator F Other) → (with_window F Other t a).count ≡ a.count
  count-with_window t a = elim (Bool-cases (a.count == 0)) [
    | inl h ↦
        ap (λ b. (if b then init_window F Other t a else a).count) h
        ∙ count-init_window t a
        ∙ sym (eq_of_test a.count 0 h)
    | inr h ↦ ap (λ b. (if b then init_window F Other t a else a).count) h
  ]

  count-emit :
      (partial : Bool) (a : Accumulator F Other)
      → total (append_some F Other [] (emit F Other partial a).0) ≡ a.count
  count-emit partial a = elim (Bool-cases (a.count == 0)) [
    | inl h ↦
        ap (λ e. total (append_some F Other [] e.0)) (emit-none partial a h)
        ∙ sym (eq_of_test a.count 0 h)
    | inr h ↦ ap (λ e. total (append_some F Other [] e.0)) (emit-some partial a h) ∙ omega arith
  ]

  -- What `Add` emits and what it keeps are the records before and the new one.
  count-add :
      (t : ℤ) (d : Dict Bytes (Value F Other)) (a : Accumulator F Other)
      → total (append_some F Other [] (add F Other t d a).0) + (add F Other t d a).1.count
        ≡ a.count + 1
  count-add t d a = elim (Bool-cases (leb_ℤ (with_window F Other t a).window_end t)) [
    | inl h ↦
        ap (λ e. total (append_some F Other [] e.0) + e.1.count) (add_outside t d a h)
        ∙ omega (
          arith,
          count-emit false (with_window F Other t a),
          count-accumulate (init_window F Other t (emit F Other false (with_window F Other t a)).1)
              d,
          count-init_window t (emit F Other false (with_window F Other t a)).1,
          count-with_window t a,
        )
    | inr h ↦
        ap (λ e. total (append_some F Other [] e.0) + e.1.count) (add_inside t d a h)
        ∙ omega (arith, count-accumulate (with_window F Other t a) d, count-with_window t a)
  ]

  count-flush :
      (a : Accumulator F Other) → total (append_some F Other [] (flush F Other a).0) ≡ a.count
  unfolding flush
  count-flush a = elim (Bool-cases (a.count == 0)) [
    | inl h ↦
        ap (λ b. total (append_some F Other [] (if b then (none, a) else emit F Other true a).0)) h
        ∙ sym (eq_of_test a.count 0 h)
    | inr h ↦
        ap (λ b. total (append_some F Other [] (if b then (none, a) else emit F Other true a).0)) h
        ∙ count-emit true a
  ]

  count-batch_from :
      (rs : List (TimestampedRecord F Other)) (a : Accumulator F Other)
      (results : List (AggResult F Other))
      → total (batch_from F Other rs a results) ≡ total results + a.count + length rs
  unfolding batch_from
  count-batch_from [] a results =
      omega (arith, total-append_some results (flush F Other a).0, count-flush a)
  count-batch_from (r ∷ rs) a results = omega (
    arith,
    count-batch_from rs (add F Other r.timestamp r.data_fields a).1
        (append_some F Other results (add F Other r.timestamp r.data_fields a).0),
    total-append_some results (add F Other r.timestamp r.data_fields a).0,
    count-add r.timestamp r.data_fields a,
  )

  -- Every record is in the count of exactly one result, in whatever order the records stand: the counts
  -- of the results of `AggregateBatch` add up to the number of records.
  pub total-aggregate_batch :
      (records : List (TimestampedRecord F Other)) (c : Config)
      → total (aggregate_batch F Other records c) ≡ length records
  unfolding aggregate_batch new_accumulator
  total-aggregate_batch [] c = refl
  total-aggregate_batch (r ∷ rs) c =
      omega (arith, count-batch_from (r ∷ rs) (new_accumulator F Other c) [])
