-- ===== src/Aggregation.antt =====
-- internal/aggregation/aggregation.go: the aggregation functions, their configuration and the running
-- state of one field.
pub mod Results
pub mod Window
use ts_store.Prelude.{
  ℕ, ◌+◌, Bool, true, false, ◌&&◌, Option, none, some, List, [], ◌∷◌, ◌++◌, ltb, length,
  if◌then◌else◌,
}
use ts_store.Prelude.Int.{ℤ, pos, leb_ℤ}
use ts_store.Prelude.Equality.{Bytes, ◌=?◌, bytes_eq}
use ts_store.Prelude.Dict.{Dict, lookup, insert}
use ts_store.Prelude.Outcome.{Outcome, done, failed, ◌>>=◌}
use ts_store.Strings.{split, cut, trim_space}
use ts_store.Schema.{FieldType, Field, SchemaSet, boolean, string, other, get_current_schema}

-- The strings of `ValidAggFuncs`, and any other string.
pub data AggFunc : Type 0 where
  sum avg max min count last : AggFunc
  unknown : Bytes → AggFunc

-- `AggFunc(s)`
unfoldable pub func_of : Bytes → AggFunc
func_of s =
    if s =? (115 ∷ 117 ∷ 109 ∷ [])
    then sum
    else if s =? (97 ∷ 118 ∷ 103 ∷ [])
    then avg
    else if s =? (109 ∷ 97 ∷ 120 ∷ [])
    then max
    else if s =? (109 ∷ 105 ∷ 110 ∷ [])
    then min
    else if s =? (99 ∷ 111 ∷ 117 ∷ 110 ∷ 116 ∷ [])
    then count
    else if s =? (108 ∷ 97 ∷ 115 ∷ 116 ∷ [])
    then last
    else unknown s

-- `string(fn)`
unfoldable pub func_name : AggFunc → Bytes
func_name sum = 115 ∷ 117 ∷ 109 ∷ []
func_name avg = 97 ∷ 118 ∷ 103 ∷ []
func_name max = 109 ∷ 97 ∷ 120 ∷ []
func_name min = 109 ∷ 105 ∷ 110 ∷ []
func_name count = 99 ∷ 111 ∷ 117 ∷ 110 ∷ 116 ∷ []
func_name last = 108 ∷ 97 ∷ 115 ∷ 116 ∷ []
func_name (unknown s) = s

abbrev pub is_valid_func : AggFunc → Bool
is_valid_func (unknown s) = false
is_valid_func _ = true

pub data Err : Type 0 where
  invalid_window invalid_function invalid_aggregation : Err

pub record FieldAgg : Type 0 where
  pub field : Bytes
  pub function : AggFunc
  pub functions : List AggFunc

pub record Config : Type 0 where
  pub window : ℤ
  pub fields : List FieldAgg
  pub default : AggFunc
  pub defaults : List AggFunc
  pub numeric_map : Option (Dict Bytes Bool)
  pub field_funcs : Dict Bytes (List AggFunc)

abbrev pub all_valid : List AggFunc → Bool
all_valid [] = true
all_valid (fn ∷ fns) = is_valid_func fn && all_valid fns

-- The functions of a field: `Functions`, or else `Function` unless it is "".
abbrev pub chosen : FieldAgg → List AggFunc
chosen fa = elim fa.functions [
  | fn ∷ fns ↦ fn ∷ fns
  | [] ↦ elim fa.function [ unknown [] ↦ [] | fn ↦ fn ∷ [] ]
]

unfoldable pub funcs_of_fields :
    Dict Bytes (List AggFunc) → List FieldAgg → Outcome Err (Dict Bytes (List AggFunc))
funcs_of_fields m [] = done m
funcs_of_fields m (fa ∷ fas) =
    let rest = funcs_of_fields (insert fa.field (chosen fa) m) fas in
    if all_valid (chosen fa) then rest else failed invalid_function

abbrev pub first_func : AggFunc → List AggFunc → AggFunc
first_func fn [] = fn
first_func fn (g ∷ gs) = g

abbrev pub trimmed_funcs : List Bytes → List AggFunc
trimmed_funcs [] = []
trimmed_funcs (p ∷ ps) = func_of (trim_space p) ∷ trimmed_funcs ps

-- The default functions, which a comma separates; "" names none.
abbrev pub default_list : Bytes → List AggFunc
default_list [] = []
default_list (c ∷ s) = trimmed_funcs (split 44 (c ∷ s))

unfoldable pub new_config :
    ℤ → List FieldAgg → Bytes → Option (Dict Bytes Bool) → Outcome Err Config
new_config window fields default numeric_map =
    let defaults = default_list default in
    if leb_ℤ window (pos 0)
    then failed invalid_window
    else if all_valid defaults
    then (do
      funcs ← funcs_of_fields [] fields
      done (record {
        window = window;
        fields = fields;
        default = first_func (unknown []) defaults;
        defaults = defaults;
        numeric_map = numeric_map;
        field_funcs = funcs;
      }))
    else failed invalid_function

abbrev pub default_funcs : Config → Bool → List AggFunc
default_funcs c is_numeric =
    if is_numeric && ltb 0 (length c.defaults) then c.defaults else last ∷ []

unfoldable pub funcs_for_field : Config → Bytes → Bool → List AggFunc
funcs_for_field c field is_numeric = elim (lookup field c.field_funcs) [
  | none ↦ default_funcs c is_numeric
  | some funcs ↦ if ltb 0 (length funcs) then funcs else default_funcs c is_numeric
]

unfoldable pub func_for_field : Config → Bytes → Bool → AggFunc
func_for_field c field is_numeric = first_func last (funcs_for_field c field is_numeric)

-- One part of the text that `ParseFieldAggs` reads, without the space around it.
abbrev pub parse_part : Bytes → Outcome Err FieldAgg
parse_part part = elim (cut 58 part) [
  | field ∷ text ∷ [] ↦
      let funcs = trimmed_funcs (split 43 (trim_space text)) in
      if all_valid funcs
      then done (record {
        field = trim_space field;
        function = elim funcs [ fn ∷ [] ↦ fn | _ ↦ unknown [] ];
        functions = funcs;
      })
      else failed invalid_function
  | _ ↦ failed invalid_aggregation
]

unfoldable pub parse_parts : List FieldAgg → List Bytes → Outcome Err (List FieldAgg)
parse_parts result [] = done result
parse_parts result (p ∷ ps) = elim (trim_space p) [
  | [] ↦ parse_parts result ps
  | c ∷ part ↦ elim (parse_part (c ∷ part)) [
    | failed e ↦ failed e
    | done fa ↦ parse_parts (result ++ (fa ∷ [])) ps
  ]
]

unfoldable pub parse_field_aggs : Bytes → Outcome Err (List FieldAgg)
parse_field_aggs [] = done []
parse_field_aggs (c ∷ s) = parse_parts [] (split 44 (c ∷ s))

abbrev pub is_numeric_field_type : FieldType → Bool
is_numeric_field_type boolean = false
is_numeric_field_type string = false
is_numeric_field_type (other s) = false
is_numeric_field_type _ = true

unfoldable pub numeric_fields : Dict Bytes Bool → List Field → Dict Bytes Bool
numeric_fields m [] = m
numeric_fields m (f ∷ fs) = numeric_fields (insert f.name (is_numeric_field_type f.field_type) m) fs

-- A set whose current schema is missing is one the code does not make.
unfoldable pub build_numeric_map : Option SchemaSet → Option (Dict Bytes Bool)
build_numeric_map none = none
build_numeric_map (some ss) = elim (get_current_schema ss) [
  | failed e ↦ none
  | done none ↦ none
  | done (some s) ↦ some (numeric_fields [] s.fields)
]

-- `float64` and `float32`, with the operations that the code uses.
pub record Floats : Type 1 where
  pub Float : Type 0
  pub Float32 : Type 0
  pub zero_float : Float
  pub max_float : Float
  pub negate : Float → Float
  pub add : Float → Float → Float
  pub divide : Float → Float → Float
  pub less : Float → Float → Bool
  pub of_int : ℤ → Float
  pub widen : Float32 → Float

-- The integer types of Go that `toFloat64` lists.
pub data IntType : Type 0 where
  int int64 int32 int16 int8 uint uint64 uint32 uint16 uint8 : IntType

module _ (F : Floats) (Other : Type 0) where
  -- An `interface{}`: a number, nil, or a value of another type (a string, a Boolean, a list, a map).
  pub data Value : Type 0 where
    float64 : F.Float → Value
    float32 : F.Float32 → Value
    integer : IntType → ℤ → Value
    nil : Value
    other_value : Other → Value

  unfoldable pub to_float64 : Value → Option F.Float
  to_float64 (float64 f) = some f
  to_float64 (float32 f) = some (F.widen f)
  to_float64 (integer t n) = some (F.of_int n)
  to_float64 nil = none
  to_float64 (other_value o) = none

  abbrev pub sniffs_numeric : Value → Bool
  sniffs_numeric (float64 f) = true
  sniffs_numeric (float32 f) = true
  sniffs_numeric (integer int n) = true
  sniffs_numeric (integer int64 n) = true
  sniffs_numeric _ = false

  unfoldable pub is_numeric : Config → Bytes → Value → Bool
  is_numeric c field value = elim c.numeric_map [
    | none ↦ sniffs_numeric value
    | some m ↦ elim (lookup field m) [ none ↦ sniffs_numeric value | some v ↦ v ]
  ]

  pub record FieldState : Type 0 where
    pub fn : AggFunc
    pub sum : F.Float
    pub max : F.Float
    pub min : F.Float
    pub count : ℕ
    pub last : Value

  abbrev pub new_field_state : AggFunc → FieldState
  new_field_state fn = record {
    fn = fn;
    sum = F.zero_float;
    max = F.negate F.max_float;
    min = F.max_float;
    count = 0;
    last = nil;
  }

  unfoldable pub add_value : FieldState → Value → FieldState
  add_value fs value =
      let seen = record fs { last = value; count = fs.count + 1 } in
      elim (to_float64 value) [
        | none ↦ seen
        | some f ↦ record seen {
          sum = F.add fs.sum f;
          max = if F.less fs.max f then f else fs.max;
          min = if F.less f fs.min then f else fs.min;
        }
      ]

  unfoldable pub result_for : FieldState → AggFunc → Bool → Value
  result_for fs fn partial =
      if ltb 0 fs.count
      then elim fn [
        | sum ↦ if partial then nil else float64 fs.sum
        | avg ↦ float64 (F.divide fs.sum (F.of_int (pos fs.count)))
        | max ↦ float64 fs.max
        | min ↦ float64 fs.min
        | count ↦ integer int (pos fs.count)
        | last ↦ fs.last
        | unknown s ↦ fs.last
      ]
      else nil

  -- `result`, which applies the state's own function.
  abbrev pub result : FieldState → Bool → Value
  result fs partial = result_for fs fs.fn partial
