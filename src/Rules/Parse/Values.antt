-- ===== src/Rules/Parse/Values.antt =====
-- The values of conditions (internal/rules/{rules,evaluator}.go) as text.
use ts_store.Prelude.{
  ℕ, ◌-◌, ◌≡◌, refl, ap, ◌∙◌, true, Option, [], ◌∷◌, ◌++◌, length, take, length-append, ◌&&◌, leb,
  arith, if◌then◌else◌, ◌==◌,
}
use ts_store.Prelude.Equality.{Bytes}
use ts_store.Strings.{trim_space, trim_left, trim_right, is_empty, is_space}
use ts_store.Aggregation.{other_value}
use ts_store.Rules.{Comparisons, text}
use ts_store.Rules.Evaluator.{format_value}
use ts_store.Rules.Parse.{parse_value, is_quoted, last_byte}

trim_right-quoted : (s : Bytes) → trim_right (s ++ (34 ∷ [])) ≡ s ++ (34 ∷ [])
unfolding trim_right
trim_right-quoted [] = refl
trim_right-quoted (c ∷ s) =
    ap (λ t. if is_empty t && is_space c then [] else c ∷ t) (trim_right-quoted s) ∙ kept s
  where
    kept :
        (s : Bytes)
        → (if is_empty (s ++ (34 ∷ [])) && is_space c then [] else c ∷ (s ++ (34 ∷ [])))
          ≡ c ∷ (s ++ (34 ∷ []))
    kept [] = refl
    kept (d ∷ s) = refl

trim_space-quoted : (s : Bytes) → trim_space (34 ∷ s ++ (34 ∷ [])) ≡ 34 ∷ s ++ (34 ∷ [])
unfolding trim_space trim_left
trim_space-quoted s = ap trim_left (trim_right-quoted (34 ∷ s))

take_front : (s : Bytes) → take (length (34 ∷ s ++ (34 ∷ [])) - 2) (s ++ (34 ∷ [])) ≡ s
take_front s =
    ap (λ n. take n (s ++ (34 ∷ []))) (omega (arith, length-append s (34 ∷ []))) ∙ front s
  where
    front : (s : Bytes) → take (length s) (s ++ (34 ∷ [])) ≡ s
    front [] = refl
    front (c ∷ s) = ap (λ t. c ∷ t) (front s)

module _ (K : Comparisons) (parse_float : Bytes → Option K.floats.Float) where
  last_byte_quoted : (c : ℕ) (s : Bytes) → last_byte K parse_float c (s ++ (34 ∷ [])) ≡ 34
  last_byte_quoted c [] = refl
  last_byte_quoted c (d ∷ s) = last_byte_quoted d s

  quoted_test : (s : Bytes) → is_quoted K parse_float (34 ∷ s ++ (34 ∷ [])) ≡ true
  quoted_test s =
      ap (λ c. leb 1 (length (s ++ (34 ∷ []))) && (c == 34)) (last_byte_quoted 34 s) ∙ long s
    where
      long : (s : Bytes) → (leb 1 (length (s ++ (34 ∷ []))) && true) ≡ true
      long [] = refl
      long (c ∷ s) = ground arith

  -- The text that `formatValue` shows for a string, in quotes, is read by `parseValue` as that
  -- string, whatever it holds.
  pub parse_value-format_value :
      (s : Bytes)
      → parse_value K parse_float (format_value K (other_value (text s))) ≡ other_value (text s)
  unfolding parse_value format_value
  parse_value-format_value s = rw (trim_space-quoted s, quoted_test s, take_front s) refl
