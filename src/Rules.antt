-- ===== src/Rules.antt =====
-- internal/rules/rules.go: conditions on the fields of a record, and rules of several conditions.
pub mod Parse
pub mod Evaluator
pub mod Logic
mod Tests
use ts_store.Prelude.{
  ℕ, Bool, true, false, not, ◌&&◌, ◌||◌, Option, none, some, List, [], ◌∷◌, ltb, ◌==◌,
  if◌then◌else◌,
}
use ts_store.Prelude.Equality.{Bytes, ◌=?◌, bytes_eq}
use ts_store.Prelude.Dict.{Dict, lookup}
use ts_store.Strings.{contains}
use ts_store.Aggregation.{Floats, Value, float64, float32, integer, nil, other_value}

-- The operators of `conditionPattern`, and any other string.
pub data Operator : Type 0 where
  op_eq op_ne op_gt op_ge op_lt op_le op_contains : Operator
  other_op : Bytes → Operator

abbrev pub op_and : Bytes
op_and = 65 ∷ 78 ∷ 68 ∷ []

abbrev pub op_or : Bytes
op_or = 79 ∷ 82 ∷ []

-- Go's `<` on strings.
unfoldable pub less_string : Bytes → Bytes → Bool
less_string [] [] = false
less_string [] (d ∷ t) = true
less_string (c ∷ s) [] = false
less_string (c ∷ s) (d ∷ t) =
    let rest = less_string s t in if ltb c d then true else if c == d then rest else false

-- A value that is no number: a string, a Boolean, or a value of another type.
pub data Plain (X : Type 0) : Type 0 where
  text : Bytes → Plain X
  flag : Bool → Plain X
  opaque : X → Plain X

-- What the comparisons need besides arithmetic: `==`, `<` and `<=` on `float64`, and `fmt.Sprintf("%v", v)`.
pub record Comparisons : Type 1 where
  pub floats : Floats
  pub Opaque : Type 0
  pub equal_float : floats.Float → floats.Float → Bool
  pub less_eq_float : floats.Float → floats.Float → Bool
  pub sprint : Value floats (Plain Opaque) → Bytes

module _ (K : Comparisons) where
  abbrev pub RuleValue : Type 0
  RuleValue = Value K.floats (Plain K.Opaque)

  pub record Condition : Type 0 where
    pub field : Bytes
    pub operator : Operator
    pub value : RuleValue

  -- `LogicalOp` is "AND", "OR" or "".
  pub record Rule : Type 0 where
    pub name : Bytes
    pub conditions : List Condition
    pub logical_op : Bytes

  unfoldable pub to_float64 : RuleValue → Option K.floats.Float
  to_float64 (float64 f) = some f
  to_float64 (float32 f) = some (K.floats.widen f)
  to_float64 (integer t n) = some (K.floats.of_int n)
  to_float64 nil = none
  to_float64 (other_value o) = none

  unfoldable pub to_string : RuleValue → Bytes
  to_string (other_value (text s)) = s
  to_string (other_value (flag true)) = 116 ∷ 114 ∷ 117 ∷ 101 ∷ []
  to_string (other_value (flag false)) = 102 ∷ 97 ∷ 108 ∷ 115 ∷ 101 ∷ []
  to_string v = K.sprint v

  abbrev pub compare_strings : Bytes → Operator → Bytes → Bool
  compare_strings s op t = elim op [
    | op_eq ↦ s =? t
    | op_ne ↦ not (s =? t)
    | op_gt ↦ less_string t s
    | op_ge ↦ not (less_string s t)
    | op_lt ↦ less_string s t
    | op_le ↦ not (less_string t s)
    | op_contains ↦ false
    | other_op o ↦ false
  ]

  -- The switch on two numbers, which falls through for any other operator.
  abbrev pub compare_floats : K.floats.Float → Operator → K.floats.Float → Option Bool
  compare_floats x op y = elim op [
    | op_eq ↦ some (K.equal_float x y)
    | op_ne ↦ some (not (K.equal_float x y))
    | op_gt ↦ some (K.floats.less y x)
    | op_ge ↦ some (K.less_eq_float y x)
    | op_lt ↦ some (K.floats.less x y)
    | op_le ↦ some (K.less_eq_float x y)
    | op_contains ↦ none
    | other_op o ↦ none
  ]

  abbrev pub compare_numbers :
      Option K.floats.Float → Operator → Option K.floats.Float → Option Bool
  compare_numbers (some x) op (some y) = compare_floats x op y
  compare_numbers _ op _ = none

  abbrev pub compare_values : RuleValue → Operator → RuleValue → Bool
  compare_values v op w = elim (compare_numbers (to_float64 v) op (to_float64 w)) [
    | some b ↦ b
    | none ↦ compare_strings (to_string v) op (to_string w)
  ]

  unfoldable pub compare : RuleValue → Operator → RuleValue → Bool
  compare v op_contains w = contains (to_string v) (to_string w)
  compare v op w = compare_values v op w

  unfoldable pub evaluate_condition : Dict Bytes RuleValue → Condition → Bool
  evaluate_condition d c = elim (lookup c.field d) [
    | none ↦ false
    | some v ↦ compare v c.operator c.value
  ]

  unfoldable pub all_hold : Dict Bytes RuleValue → List Condition → Bool
  all_hold d [] = true
  all_hold d (c ∷ cs) =
      let rest = all_hold d cs in if not (evaluate_condition d c) then false else rest

  unfoldable pub some_hold : Dict Bytes RuleValue → List Condition → Bool
  some_hold d [] = false
  some_hold d (c ∷ cs) = let rest = some_hold d cs in if evaluate_condition d c then true else rest

  unfoldable pub evaluate : Rule → Dict Bytes RuleValue → Bool
  evaluate r d = elim r.conditions [
    | [] ↦ false
    | c ∷ [] ↦ evaluate_condition d c
    | cs ↦ if r.logical_op =? op_and then all_hold d cs else some_hold d cs
  ]
