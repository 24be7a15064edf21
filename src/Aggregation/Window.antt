-- ===== src/Aggregation/Window.antt =====
-- internal/aggregation/accumulator.go and batch.go: records collected into windows of time.
pub mod Counts
pub mod State
pub mod Groups
pub mod Batch
pub mod Columns
mod Tests
use ts_store.Prelude.{
  ℕ, zero, suc, ◌+◌, ◌*◌, ◌/◌, ◌%◌, ◌^◌, Bool, true, false, not, ◌&&◌, Option, none, some, List, [],
  ◌∷◌, ◌++◌, ◌==◌, if◌then◌else◌,
}
use ts_store.Prelude.Int.{ℤ, pos, negsuc, leb_ℤ}
use ts_store.Prelude.Equality.{Bytes, bytes_eq}
use ts_store.Prelude.Dict.{Dict, lookup, insert}
use ts_store.Word.{word_of, int_of}
use ts_store.Aggregation.{
  AggFunc, Config, Floats, Value, FieldState, new_field_state, add_value, result_for, is_numeric,
  funcs_for_field, first_func, func_name, last,
}

abbrev pub magnitude : ℤ → ℕ
magnitude (pos n) = n
magnitude (negsuc n) = suc n

abbrev pub negated : ℕ → ℤ
negated zero = pos 0
negated (suc n) = negsuc n

-- `(t / w) * w` in Go, whose division cuts toward zero.
abbrev pub align : ℤ → ℤ → ℤ
align (pos n) w = pos (n / magnitude w * magnitude w)
align (negsuc n) w = negated (suc n / magnitude w * magnitude w)

-- `a + b` of `int64` values.
abbrev pub add_int64 : ℤ → ℤ → ℤ
add_int64 a b = int_of ((word_of a + word_of b) % 2 ^ 64)

module _ (F : Floats) (Other : Type 0) where
  pub record AggResult : Type 0 where
    pub timestamp : ℤ
    pub count : ℕ
    pub partial : Bool
    pub data_fields : Dict Bytes (Value F Other)

  pub record TimestampedRecord : Type 0 where
    pub timestamp : ℤ
    pub data_fields : Dict Bytes (Value F Other)

  -- A window of 0, at which Go's division panics, is refused by `NewConfig`.
  pub record Accumulator : Type 0 where
    pub config : Config
    pub window_nanos : ℤ
    pub window_start : ℤ
    pub window_end : ℤ
    pub fields : Dict Bytes (FieldState F Other)
    pub field_funcs : Dict Bytes (List AggFunc)
    pub known_fields : Dict Bytes Bool
    pub count : ℕ

  unfoldable pub new_accumulator : Config → Accumulator
  new_accumulator c = record {
    config = c;
    window_nanos = c.window;
    window_start = pos 0;
    window_end = pos 0;
    fields = [];
    field_funcs = [];
    known_fields = [];
    count = 0;
  }

  unfoldable pub init_window : ℤ → Accumulator → Accumulator
  init_window timestamp a =
      let start = align timestamp a.window_nanos in
      record a {
        window_start = start;
        window_end = add_int64 start a.window_nanos;
        fields = [];
        field_funcs = [];
        count = 0;
      }

  -- `knownFields`, which is set where the configuration has no numeric map.
  abbrev pub note_known : Bytes → Accumulator → Dict Bytes Bool
  note_known field a = elim a.config.numeric_map [
    | none ↦ insert field true a.known_fields
    | some m ↦ a.known_fields
  ]

  -- The functions that a field gets when its first value is `value`.
  abbrev pub funcs_at : Config → Bytes → Value F Other → List AggFunc
  funcs_at c field value = funcs_for_field c field (is_numeric F Other c field value)

  unfoldable pub accumulate_field : Accumulator → Bytes → Value F Other → Accumulator
  accumulate_field a field value = elim (lookup field a.fields) [
    | some fs ↦ record a { fields = insert field (add_value F Other fs value) a.fields }
    | none ↦
        let funcs = funcs_at a.config field value in
        let fs = new_field_state F Other (first_func last funcs) in
        record a {
          known_fields = note_known field a;
          field_funcs = insert field funcs a.field_funcs;
          fields = insert field (add_value F Other fs value) a.fields;
        }
  ]

  unfoldable pub accumulate_fields : Accumulator → Dict Bytes (Value F Other) → Accumulator
  accumulate_fields a [] = a
  accumulate_fields a ((field, value) ∷ rest) =
      accumulate_fields (accumulate_field a field value) rest

  unfoldable pub accumulate : Dict Bytes (Value F Other) → Accumulator → Accumulator
  accumulate d a = accumulate_fields (record a { count = a.count + 1 }) d

  unfoldable pub suffixed :
      FieldState F Other
      → Bytes
      → Bool
      → List AggFunc
      → Dict Bytes (Value F Other)
      → Dict Bytes (Value F Other)
  suffixed fs field partial [] d = d
  suffixed fs field partial (fn ∷ fns) d =
      suffixed fs field partial fns
        (insert (field ++ (95 ∷ func_name fn)) (result_for F Other fs fn partial) d)

  abbrev pub field_results :
      FieldState F Other
      → Bytes
      → Bool
      → List AggFunc
      → Dict Bytes (Value F Other)
      → Dict Bytes (Value F Other)
  field_results fs field partial funcs d = elim funcs [
    | fn ∷ [] ↦ insert field (result_for F Other fs fn partial) d
    | fns ↦ suffixed fs field partial fns d
  ]

  abbrev pub funcs_of : Bytes → Dict Bytes (List AggFunc) → List AggFunc
  funcs_of field m = elim (lookup field m) [ none ↦ [] | some funcs ↦ funcs ]

  unfoldable pub results_from :
      Dict Bytes (List AggFunc)
      → Bool
      → Dict Bytes (FieldState F Other)
      → Dict Bytes (Value F Other)
      → Dict Bytes (Value F Other)
  results_from m partial [] d = d
  results_from m partial ((field, fs) ∷ rest) d =
      results_from m partial rest (field_results fs field partial (funcs_of field m) d)

  abbrev pub summary : Bool → Accumulator → AggResult
  summary partial a = record {
    timestamp = a.window_end;
    count = a.count;
    partial = partial;
    data_fields = results_from a.field_funcs partial a.fields [];
  }

  unfoldable pub emit : Bool → Accumulator → Option AggResult × Accumulator
  emit partial a =
      if a.count == 0
      then (none, a)
      else (some (summary partial a), record a { fields = []; field_funcs = []; count = 0 })

  -- The window is with_window by the first record.
  abbrev pub with_window : ℤ → Accumulator → Accumulator
  with_window timestamp a = if a.count == 0 then init_window timestamp a else a

  unfoldable pub add : ℤ → Dict Bytes (Value F Other) → Accumulator → Option AggResult × Accumulator
  add timestamp d a =
      let a1 = with_window timestamp a in
      if leb_ℤ a1.window_end timestamp
      then ((emit false a1).0, accumulate d (init_window timestamp (emit false a1).1))
      else (none, accumulate d a1)

  unfoldable pub flush : Accumulator → Option AggResult × Accumulator
  flush a = if a.count == 0 then (none, a) else emit true a

  abbrev pub append_some : List AggResult → Option AggResult → List AggResult
  append_some results none = results
  append_some results (some r) = results ++ (r ∷ [])

  unfoldable pub batch_from : List TimestampedRecord → Accumulator → List AggResult → List AggResult
  batch_from [] a results = append_some results (flush a).0
  batch_from (r ∷ rs) a results =
      batch_from rs (add r.timestamp r.data_fields a).1
        (append_some results (add r.timestamp r.data_fields a).0)

  unfoldable pub aggregate_batch : List TimestampedRecord → Config → List AggResult
  aggregate_batch records c = elim records [
    | [] ↦ []
    | r ∷ rs ↦ batch_from (r ∷ rs) (new_accumulator c) []
  ]
