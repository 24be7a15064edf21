-- ===== src/Rules/Tests.antt =====
-- A rule "t > 80" with a cooldown of 10 on three readings, on which the theorems on internal/rules hold.
use ts_store.Prelude.{
  if◌then◌else◌, ℕ, ◌+◌, ◌/◌, ◌≡◌, ◌≢◌, refl, true, false, none, List, [], ◌∷◌, ◌++◌, arith, ltb,
  leb, ◌==◌,
}
use native.Mathlib.Decide.{ℕ_discrete}
use ts_store.Prelude.Int.{pos, pos_part}
use ts_store.Prelude.Equality.{Bytes, bytes_eq, bytes_dec, first_eq}
use ts_store.Prelude.Dict.{lookup}
use ts_store.Aggregation.{integer, int, other_value}
use ts_store.Rules.{
  Comparisons, Rule, op_gt, op_lt, op_and, text, compare, evaluate, evaluate_condition, to_float64,
  all_hold,
}
use ts_store.Rules.Logic.{every, evaluate-connectives}
use ts_store.Rules.Evaluator.{
  AlertRule, DataRecord, evaluate_record, run_loop, new_evaluator, format_value,
}
use ts_store.Rules.Evaluator.Firing.{firing, evaluate_record-firing}
use ts_store.Rules.Evaluator.Cooldown.{Spaced, all_times, run_loop-Spaced}
use ts_store.Rules.Evaluator.Liveness.{Recent, latest, run_loop-Recent}
use ts_store.Prelude.Outcome.{failed}
use ts_store.Strings.{has_prefix}
use ts_store.Rules.Parse.{
  split_keeping_quotes, split_at_delim, split_at, index, slice_out_of_range, parse_value,
}
use ts_store.Rules.Parse.Splitting.{Result, split_keeping_quotes-total}
use ts_store.Rules.Parse.Values.{parse_value-format_value}

-- Numbers in place of floating-point numbers.
abbrev plain_comparisons : Comparisons
plain_comparisons = record {
  floats = record {
    Float = ℕ;
    Float32 = ℕ;
    zero_float = 0;
    max_float = 1000;
    negate = λ x. 0;
    add = λ x y. x + y;
    divide = λ x y. x / y;
    less = ltb;
    of_int = pos_part;
    widen = λ x. x;
  };
  Opaque = Unit;
  equal_float = λ x y. x == y;
  less_eq_float = leb;
  sprint = λ v. [];
}

abbrev hot : Rule plain_comparisons
hot = record {
  name = 104 ∷ [];
  conditions =
      record { field = 116 ∷ []; operator = op_gt; value = integer int (pos 80) }
      ∷ record { field = 116 ∷ []; operator = op_lt; value = integer int (pos 200) }
      ∷ [];
  logical_op = op_and;
}

abbrev hot_alert : AlertRule plain_comparisons
hot_alert = record { rule = hot; has_webhook = false; cooldown = pos 10 }

abbrev cold_alert : AlertRule plain_comparisons
cold_alert = record {
  rule = record hot { name = 99 ∷ []; conditions = [] };
  has_webhook = true;
  cooldown = pos 0;
}

abbrev reading : ℕ → DataRecord plain_comparisons
reading n = record { timestamp = pos n; data_fields = (116 ∷ [], integer int (pos n)) ∷ [] }

abbrev readings : List (ℕ × DataRecord plain_comparisons)
readings = (100, reading 90) ∷ (105, reading 95) ∷ []

hot_holds : evaluate plain_comparisons hot (reading 99).data_fields ≡ true
unfolding evaluate evaluate_condition all_hold compare to_float64 lookup bytes_eq bytes_dec
    ℕ_discrete
hot_holds = refl

names_differ : ◌≢◌ {A = Bytes} (99 ∷ []) (104 ∷ [])
names_differ h = absurd (let e : 99 ≡ 104 = first_eq 99 104 [] [] h in omega (arith, e))

evaluate_record-firing_example :
    (evaluate_record plain_comparisons 100
      (reading 90)
      (new_evaluator plain_comparisons [] (hot_alert ∷ cold_alert ∷ []))).0
    ≡ firing plain_comparisons [] 100 (reading 90) [] (hot_alert ∷ cold_alert ∷ [])
evaluate_record-firing_example =
    evaluate_record-firing plain_comparisons 100 (reading 90)
      (new_evaluator plain_comparisons [] (hot_alert ∷ cold_alert ∷ []))
      ((names_differ, tt), (tt, tt))

run_loop-Spaced_example : Spaced plain_comparisons 10 none (
    all_times plain_comparisons
      (104 ∷ [])
      (run_loop plain_comparisons readings (new_evaluator plain_comparisons [] (hot_alert ∷ []))).0)
run_loop-Spaced_example =
    run_loop-Spaced plain_comparisons (104 ∷ []) 10 [] (hot_alert ∷ []) readings (omega arith)
      ((λ e. refl), tt)

run_loop-Recent_example : Recent plain_comparisons 10 112 (
    latest plain_comparisons none (
      all_times plain_comparisons
        (104 ∷ [])
        (run_loop plain_comparisons
          (readings ++ ((112, reading 99) ∷ []))
          (new_evaluator plain_comparisons [] (cold_alert ∷ hot_alert ∷ []))).0))
run_loop-Recent_example =
    run_loop-Recent plain_comparisons (cold_alert ∷ []) [] hot_alert 10 [] readings 112 (reading 99)
      (omega arith) refl hot_holds

evaluate-connectives_example :
    evaluate plain_comparisons hot (reading 99).data_fields
    ≡ every plain_comparisons
        (evaluate_condition plain_comparisons (reading 99).data_fields)
        hot.conditions
unfolding bytes_eq bytes_dec ℕ_discrete
evaluate-connectives_example = evaluate-connectives plain_comparisons hot (reading 99).data_fields

split_keeping_quotes-total_example :
    Result
      (λ s. s)
      (97 ∷ 32 ∷ 98 ∷ [])
      (split_keeping_quotes (λ s. s) 5 ((32 ∷ []) ∷ []) (97 ∷ 32 ∷ 98 ∷ []))
split_keeping_quotes-total_example =
    split_keeping_quotes-total (λ s. s) 5 ((32 ∷ []) ∷ []) (97 ∷ 32 ∷ 98 ∷ []) (omega arith)
      (omega arith, omega arith, tt)

-- The upper case of U+0250 has one byte more.
abbrev grown : Bytes → Bytes
grown [] = []
grown (c ∷ s) =
    let rest = grown s in
    if c == 201 then 226 ∷ 177 ∷ rest else if c == 144 then 175 ∷ rest else c ∷ rest

-- Behind two such letters, the text behind a delimiter and one letter starts out of range.
split_keeping_quotes-panics :
    split_keeping_quotes grown 20
      ((32 ∷ 65 ∷ 32 ∷ []) ∷ [])
      (201 ∷ 144 ∷ 201 ∷ 144 ∷ 32 ∷ 65 ∷ 32 ∷ 120 ∷ [])
    ≡ failed slice_out_of_range
unfolding split_keeping_quotes split_at_delim split_at index has_prefix
split_keeping_quotes-panics = refl

parse_value-format_value_example :
    parse_value plain_comparisons
      (λ s. none)
      (format_value plain_comparisons (other_value (text (32 ∷ 34 ∷ []))))
    ≡ other_value (text (32 ∷ 34 ∷ []))
parse_value-format_value_example =
    parse_value-format_value plain_comparisons (λ s. none) (32 ∷ 34 ∷ [])
