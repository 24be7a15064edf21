-- ===== src/Aggregation/Window/Tests.antt =====
-- Records of one field in two windows of width 10, on which the theorems on internal/aggregation hold.
use ts_store.Prelude.{ℕ, ◌+◌, ◌/◌, ◌≡◌, refl, true, none, List, [], ◌∷◌, arith, ltb}
use ts_store.Prelude.Int.{pos, pos_part}
use ts_store.Prelude.Equality.{Bytes, bytes_eq}
use ts_store.Prelude.Dict.{Dict, lookup}
use ts_store.Aggregation.{
  avg, max, Config, Floats, Value, integer, int, result_for, new_field_state,
}
use ts_store.Aggregation.Results.{state_from, result_of_values, result_for-state_from}
use ts_store.Aggregation.Window.{aggregate_batch}
use ts_store.Aggregation.Window.State.{gathered}
use ts_store.Aggregation.Window.Groups.{stamped, group_results}
use ts_store.Aggregation.Window.Batch.{aggregate_batch-groups}
use ts_store.Aggregation.Window.Columns.{cell, column, column_cell, gathered-columns}

-- Numbers from 0 to 1000 in place of floating-point numbers.
abbrev small_numbers : Floats
small_numbers = record {
  Float = ℕ;
  Float32 = ℕ;
  zero_float = 0;
  max_float = 1000;
  negate = λ x. 0;
  add = λ x y. x + y;
  divide = λ x y. x / y;
  less = ltb;
  of_int = pos_part;
  widen = λ x. x;
}

abbrev averages : Config
averages = record {
  window = pos 10;
  fields = [];
  default = avg;
  defaults = avg ∷ max ∷ [];
  numeric_map = none;
  field_funcs = [];
}

abbrev reading : ℕ → Dict Bytes (Value small_numbers Unit)
reading n = (116 ∷ [], integer int (pos n)) ∷ []

abbrev readings : List (ℕ × Dict Bytes (Value small_numbers Unit))
readings = (3, reading 20) ∷ (8, reading 30) ∷ (14, reading 40) ∷ []

aggregate_batch-groups_example :
    aggregate_batch small_numbers Unit (stamped small_numbers Unit readings) averages
    ≡ group_results small_numbers Unit averages 10
        ((0, reading 20 ∷ reading 30 ∷ []) ∷ (1, reading 40 ∷ []) ∷ [])
aggregate_batch-groups_example =
    aggregate_batch-groups small_numbers Unit averages 10 readings (omega arith) refl
      (omega arith, omega arith, (omega arith, omega arith, (omega arith, omega arith, tt)))

gathered-columns_example :
    cell small_numbers Unit
      (116 ∷ [])
      (gathered small_numbers Unit averages (reading 20 ∷ reading 30 ∷ []))
    ≡ column_cell small_numbers Unit averages
        (116 ∷ [])
        (column small_numbers Unit (116 ∷ []) (reading 20 ∷ reading 30 ∷ []))
unfolding lookup
gathered-columns_example =
    gathered-columns small_numbers Unit averages (116 ∷ []) (reading 20 ∷ reading 30 ∷ [])
      ((refl, tt), ((refl, tt), tt))

result_for-state_from_example :
    result_for small_numbers Unit
      (state_from small_numbers Unit
        (new_field_state small_numbers Unit avg)
        (integer int (pos 20) ∷ integer int (pos 30) ∷ []))
      max
      true
    ≡ result_of_values small_numbers Unit max true
        (integer int (pos 20))
        (integer int (pos 30) ∷ [])
result_for-state_from_example =
    result_for-state_from small_numbers Unit max avg true (integer int (pos 20))
      (integer int (pos 30) ∷ [])
