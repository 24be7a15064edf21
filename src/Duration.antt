-- ===== src/Duration.antt =====
-- internal/duration/duration.go: durations with days and weeks, on ASCII text.
use ts_store.Prelude.{ℕ, ◌*◌, Option, none, some, [], ◌∷◌, ◌==◌, if◌then◌else◌}
use ts_store.Prelude.Int.{ℤ, pos}
use ts_store.Prelude.Equality.{Bytes}
use ts_store.Prelude.Outcome.{Outcome, done, failed}
use ts_store.Strings.{trim_space}
use ts_store.Aggregation.{Floats}

pub data Err : Type 0 where
  empty_duration invalid_duration : Err

-- What the parser calls of Go: `strconv.ParseFloat`, the product of two `float64`, the conversion to
-- `int64`, and `time.ParseDuration`.
pub record Clocks (F : Floats) : Type 0 where
  pub parse_float : Bytes → Option F.Float
  pub multiply : F.Float → F.Float → F.Float
  pub to_int : F.Float → ℤ
  pub parse_standard : Bytes → Option ℤ

-- `strings.HasSuffix` and `strings.TrimSuffix` of a suffix of one byte.
unfoldable pub cut_suffix : ℕ → Bytes → Option Bytes
cut_suffix u [] = none
cut_suffix u (c ∷ []) = if c == u then some [] else none
cut_suffix u (c ∷ d ∷ s) = elim (cut_suffix u (d ∷ s)) [ none ↦ none | some r ↦ some (c ∷ r) ]

-- Nanoseconds.
abbrev pub day : ℕ
day = 24 * 3600 * 1000000000

module _ (F : Floats) (K : Clocks F) where
  unfoldable pub scaled : Bytes → ℕ → Outcome Err ℤ
  scaled number unit = elim (K.parse_float number) [
    | none ↦ failed invalid_duration
    | some num ↦ done (K.to_int (K.multiply num (F.of_int (pos unit))))
  ]

  abbrev pub standard : Bytes → Outcome Err ℤ
  standard s = elim (K.parse_standard s) [ none ↦ failed invalid_duration | some d ↦ done d ]

  abbrev pub parse_trimmed : Bytes → Outcome Err ℤ
  parse_trimmed s = elim (cut_suffix 100 s) [
    | some number ↦ scaled number day
    | none ↦ elim (cut_suffix 119 s) [ some number ↦ scaled number (7 * day) | none ↦ standard s ]
  ]

  unfoldable pub parse_duration : Bytes → Outcome Err ℤ
  parse_duration s = elim (trim_space s) [
    | [] ↦ failed empty_duration
    | c ∷ cs ↦ parse_trimmed (c ∷ cs)
  ]
