-- ===== src/Rules/Parse.antt =====
-- `Parse` of internal/rules/rules.go: the text form of rules. `strings.ToUpper` is a parameter, since it maps all of
-- Unicode and may make a text longer or shorter; the conditions between the connectives are read as ASCII text of
-- one line without vertical tabs.
pub mod Splitting
pub mod Values
use ts_store.Prelude.{
  ℕ, zero, suc, ◌+◌, ◌-◌, ◌/◌, ◌%◌, Bool, true, false, not, ◌&&◌, ◌||◌, Option, none, some, List,
  [], ◌∷◌, ◌++◌, map, length, take, drop, ltb, leb, ◌==◌, if◌then◌else◌,
}
use ts_store.Prelude.Equality.{Bytes, ◌=?◌, bytes_eq}
use ts_store.Prelude.Outcome.{Outcome, done, failed}
use ts_store.Strings.{trim_space, trim_left, has_prefix, contains, is_empty, is_space}
use ts_store.Aggregation.{float64, other_value}
use ts_store.Rules.{
  Comparisons, RuleValue, Condition, Rule, Operator, op_eq, op_ne, op_gt, op_ge, op_lt, op_le,
  op_contains, text, flag, op_and, op_or,
}

pub data Err : Type 0 where
  empty_condition invalid_condition out_of_fuel : Err
  -- A run-time panic.
  slice_out_of_range : Err

-- `strings.ToLower` on ASCII text; nothing else has a lower case that is an ASCII letter of "true" or "false".
abbrev pub lower : ℕ → ℕ
lower c = if leb 65 c && leb c 90 then c + 32 else c

-- `strings.Index(s, p)`
unfoldable pub index : Bytes → Bytes → Option ℕ
index [] p = if is_empty p then some 0 else none
index (c ∷ s) p =
    let rest = index s p in
    if has_prefix (c ∷ s) p then some 0 else elim rest [ none ↦ none | some i ↦ some (suc i) ]

-- `strings.Count(s, "\"")`
abbrev pub quotes : Bytes → ℕ
quotes [] = 0
quotes (c ∷ s) = (if c == 34 then 1 else 0) + quotes s

-- The end of a loop over the delimiters: no delimiter splits the text, one splits it into the text on its two sides,
-- or a slice is out of range.
pub data Split : Type 0 where
  whole panics : Split
  cut : Bytes → Bytes → Split

-- What a delimiter does that the upper case has at `i`, where the other delimiters end in `rest`.
unfoldable pub split_at : ℕ → Bytes → Bytes → Split → Split
split_at i delim s rest =
    if leb i (length s)
    then if quotes (take i s) % 2 == 0
      then if leb (i + length delim) (length s)
        then cut (take i s) (drop (i + length delim) s)
        else panics
      else rest
    else panics

module _ (to_upper : Bytes → Bytes) where
  -- The loop over the delimiters: the first one splits the text that stands behind an even number of quotes.
  unfoldable pub split_at_delim : List Bytes → Bytes → Split
  split_at_delim [] s = whole
  split_at_delim (delim ∷ delims) s =
      let rest = split_at_delim delims s in
      elim (index (to_upper s) (to_upper delim)) [ none ↦ rest | some i ↦ split_at i delim s rest ]

  -- `splitKeepingQuotes`
  unfoldable pub split_keeping_quotes : ℕ → List Bytes → Bytes → Outcome Err (List Bytes)
  split_keeping_quotes zero delims s = failed out_of_fuel
  split_keeping_quotes (suc fuel) delims s = elim (split_at_delim delims s) [
    | whole ↦ done (s ∷ [])
    | panics ↦ failed slice_out_of_range
    | cut left right ↦ elim (split_keeping_quotes fuel delims right) [
      | failed e ↦ failed e
      | done parts ↦ done (left ∷ parts)
    ]
  ]

-- `\w`
abbrev pub is_word : ℕ → Bool
is_word c = (leb 48 c && leb c 57) || (leb 65 c && leb c 90) || (leb 97 c && leb c 122) || c == 95

-- The operators in the order of the pattern.
abbrev pub operators : List (Operator × Bytes)
operators =
    (op_eq, 61 ∷ 61 ∷ [])
    ∷ (op_ne, 33 ∷ 61 ∷ [])
    ∷ (op_ge, 62 ∷ 61 ∷ [])
    ∷ (op_le, 60 ∷ 61 ∷ [])
    ∷ (op_gt, 62 ∷ [])
    ∷ (op_lt, 60 ∷ [])
    ∷ (op_contains, 99 ∷ 111 ∷ 110 ∷ 116 ∷ 97 ∷ 105 ∷ 110 ∷ 115 ∷ [])
    ∷ []

-- The first operator that the text starts with and that something follows, with what follows it.
unfoldable pub match_operator : List (Operator × Bytes) → Bytes → Option (Operator × Bytes)
match_operator [] s = none
match_operator ((op, name) ∷ ops) s =
    let rest = match_operator ops s in
    let behind = drop (length name) s in
    if has_prefix s name && not (is_empty behind) then some (op, behind) else rest

-- `\w+\s*` and an operator: the longest field that leaves an operator behind it.
unfoldable pub match_field : Bytes → Bytes → Option (Bytes × Operator × Bytes)
match_field seen [] = none
match_field seen (c ∷ s) =
    let longer = match_field (seen ++ (c ∷ [])) s in
    if not (is_word c) then none else elim longer [
      | some found ↦ some found
      | none ↦ elim (match_operator operators (trim_left s)) [
        | none ↦ none
        | some (op, behind) ↦ some (seen ++ (c ∷ []), op, behind)
      ]
    ]

module _ (K : Comparisons) (parse_float : Bytes → Option K.floats.Float) where
  abbrev pub last_byte : ℕ → Bytes → ℕ
  last_byte c [] = c
  last_byte c (d ∷ s) = last_byte d s

  -- A text of two bytes or more between quotes.
  abbrev pub is_quoted : Bytes → Bool
  is_quoted [] = false
  is_quoted (c ∷ s) = leb 1 (length s) && (c == 34 && last_byte c s == 34)

  -- `s[1 : len(s)-1]`
  abbrev pub unquoted : Bytes → Bytes
  unquoted s = take (length s - 2) (drop 1 s)

  unfoldable pub parse_value : Bytes → RuleValue K
  parse_value s =
      let t = trim_space s in
      if is_quoted t
      then other_value (text (unquoted t))
      else if map lower t =? (116 ∷ 114 ∷ 117 ∷ 101 ∷ [])
      then other_value (flag true)
      else if map lower t =? (102 ∷ 97 ∷ 108 ∷ 115 ∷ 101 ∷ [])
      then other_value (flag false)
      else elim (parse_float t) [ some f ↦ float64 f | none ↦ other_value (text t) ]

  unfoldable pub parse_condition : Bytes → Outcome Err (Condition K)
  parse_condition s = elim (match_field [] (trim_left s)) [
    | none ↦ failed invalid_condition
    | some (field, op, behind) ↦
        done (record { field = field; operator = op; value = parse_value (trim_space behind) })
  ]

  unfoldable pub parse_parts : List Bytes → Outcome Err (List (Condition K))
  parse_parts [] = done []
  parse_parts (p ∷ ps) =
      let rest = parse_parts ps in
      elim (parse_condition (trim_space p)) [
        | failed e ↦ failed e
        | done c ↦ elim rest [ failed e ↦ failed e | done cs ↦ done (c ∷ cs) ]
      ]

  abbrev pub rule_of : Bytes → Bytes → Outcome Err (List Bytes) → Outcome Err (Rule K)
  rule_of name op parts = elim parts [
    | failed e ↦ failed e
    | done ps ↦ elim (parse_parts ps) [
      | failed e ↦ failed e
      | done cs ↦ done (record { name = name; conditions = cs; logical_op = op })
    ]
  ]

  -- " AND ", " and ", " OR " and " or ".
  abbrev pub and_delims : List Bytes
  and_delims = (32 ∷ 65 ∷ 78 ∷ 68 ∷ 32 ∷ []) ∷ (32 ∷ 97 ∷ 110 ∷ 100 ∷ 32 ∷ []) ∷ []

  abbrev pub or_delims : List Bytes
  or_delims = (32 ∷ 79 ∷ 82 ∷ 32 ∷ []) ∷ (32 ∷ 111 ∷ 114 ∷ 32 ∷ []) ∷ []

  unfoldable pub parse : (Bytes → Bytes) → Bytes → Bytes → Outcome Err (Rule K)
  parse to_upper name condition =
      let s = trim_space condition in
      if is_empty s
      then failed empty_condition
      else if contains (to_upper s) (32 ∷ 65 ∷ 78 ∷ 68 ∷ 32 ∷ [])
      then rule_of name op_and (split_keeping_quotes to_upper (length s + 1) and_delims s)
      else if contains (to_upper s) (32 ∷ 79 ∷ 82 ∷ 32 ∷ [])
      then rule_of name op_or (split_keeping_quotes to_upper (length s + 1) or_delims s)
      else rule_of name [] (done (s ∷ []))
