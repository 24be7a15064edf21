-- ===== src/Rules/Parse/Splitting.antt =====
-- `splitKeepingQuotes` (internal/rules/rules.go) ends, and where a slice of it is out of range.
use ts_store.Prelude.{
  ℕ, zero, suc, ◌+◌, ◌≤◌, ◌<◌, ◌≡◌, refl, sym, ap, ◌∙◌, Bool, true, false, Option, none, some, List,
  [], ◌∷◌, length, take, drop, length-drop, arith, Option-cases, leb, ◌⊎◌, Bool-cases, inl, inr,
  if◌then◌else◌, ◌==◌, ◌%◌,
}
use mathlib.Core.Option.{none-ne-some}
use mathlib.Core.Path.{subst}
use ts_store.Prelude.Outcome.{Outcome, done, failed}
use ts_store.Prelude.Equality.{Bytes}
use ts_store.Strings.{has_prefix}
use ts_store.Rules.Parse.{
  Err, slice_out_of_range, Split, whole, panics, cut, index, quotes, split_at, split_at_delim,
  split_keeping_quotes,
}

prefix_bound : (s p : Bytes) → has_prefix s p ≡ true → length p ≤ length s
unfolding has_prefix
prefix_bound s [] h = omega arith
prefix_bound [] (d ∷ p) h = absurd (ground (arith, h))
prefix_bound (c ∷ s) (d ∷ p) h = ground (arith, h, prefix_bound s p)

index_bound : (s p : Bytes) (i : ℕ) → index s p ≡ some i → i + length p ≤ length s
unfolding index
index_bound [] [] i h = ground (arith, h)
index_bound [] (d ∷ p) i h = absurd (ground (arith, h))
index_bound (c ∷ s) p i h =
    step (has_prefix (c ∷ s) p) (index s p) (length p) (length s) i (prefix_bound (c ∷ s) p)
      (index_bound s p) h
  where
    step :
        (b : Bool) (o : Option ℕ) (m n i : ℕ)
        → (b ≡ true → m ≤ suc n)
        → ((j : ℕ) → o ≡ some j → j + m ≤ n)
        → (if b then some 0 else elim o [ none ↦ none | some j ↦ some (suc j) ]) ≡ some i
        → i + m ≤ suc n
    step true o m n i here later h = ground (arith, here refl, h)
    step false none m n i here later h = absurd (none-ne-some i h)
    step false (some j) m n i here later h = ground (arith, later j refl, h)

-- No delimiter is empty, and none loses bytes by its upper case.
abbrev pub Proper : (Bytes → Bytes) → List Bytes → Type 0
Proper to_upper [] = Unit
Proper to_upper (d ∷ ds) = (0 < length d) × (length d ≤ length (to_upper d)) × Proper to_upper ds

-- The upper case of the text is longer than the text.
abbrev pub Grows : (Bytes → Bytes) → Bytes → Type 0
Grows to_upper s = length s < length (to_upper s)

-- The text behind a delimiter is a shorter end of the text, and a slice is out of range only where the upper case is
-- longer.
abbrev SplitsWell : (Bytes → Bytes) → Bytes → Split → Type 0
SplitsWell to_upper s whole = Unit
SplitsWell to_upper s panics = Grows to_upper s
SplitsWell to_upper s (cut left right) = (n : ℕ) × (right ≡ drop n s) × (length right < length s)

abbrev no_bytes : Bytes
no_bytes = []

drop_none : (k : ℕ) → drop k no_bytes ≡ no_bytes
drop_none zero = refl
drop_none (suc k) = refl

drop-drop : (n k : ℕ) (s : Bytes) → drop k (drop n s) ≡ drop (n + k) s
drop-drop zero k s = let e : k ≡ 0 + k = omega arith in ap (λ m. drop m s) e
drop-drop (suc n) k [] = drop_none k ∙ sym (drop_none (suc n + k))
drop-drop (suc n) k (c ∷ s) =
    let e : suc (n + k) ≡ suc n + k = omega arith in drop-drop n k s ∙ ap (λ m. drop m (c ∷ s)) e

module _ (to_upper : Bytes → Bytes) where
  split_at-SplitsWell :
      (i : ℕ) (d s : Bytes) (rest : Split)
      → 0 < length d
      → i + length d ≤ length (to_upper s)
      → SplitsWell to_upper s rest
      → SplitsWell to_upper s (split_at i d s rest)
  unfolding split_at
  split_at-SplitsWell i d s rest nonempty le well = elim (Bool-cases (leb i (length s))) [
    | inr out ↦
        let beyond : length s < i = ground (arith, out) in rw out (omega (arith, beyond, le))
    | inl within ↦ elim (Bool-cases (quotes (take i s) % 2 == 0)) [
      | inr odd ↦ rw (within, odd) well
      | inl even ↦ elim (Bool-cases (leb (i + length d) (length s))) [
        | inr out ↦
            let beyond : length s < i + length d = ground (arith, out) in
            rw (within, even, out) (omega (arith, beyond, le))
        | inl fits ↦
            let room : i + length d ≤ length s = ground (arith, fits) in
            rw (within, even, fits)
              (i + length d, refl, omega (arith, room, nonempty, length-drop (i + length d) s))
      ]
    ]
  ]

  split_at_delim-SplitsWell :
      (ds : List Bytes) (s : Bytes)
      → Proper to_upper ds
      → SplitsWell to_upper s (split_at_delim to_upper ds s)
  unfolding split_at_delim
  split_at_delim-SplitsWell [] s p = tt
  split_at_delim-SplitsWell (d ∷ ds) s (nonempty, kept, p) =
      elim (Option-cases (index (to_upper s) (to_upper d))) [
        | inl missing ↦ subst step (sym missing) (split_at_delim-SplitsWell ds s p)
        | inr (i, found) ↦ subst step (sym found) (
            split_at-SplitsWell i d s (split_at_delim to_upper ds s) nonempty
              (omega (arith, kept, index_bound (to_upper s) (to_upper d) i found))
              (split_at_delim-SplitsWell ds s p))
      ]
    where
      step : Option ℕ → Type 0
      step o = SplitsWell to_upper s (elim o [
        | none ↦ split_at_delim to_upper ds s
        | some i ↦ split_at i d s (split_at_delim to_upper ds s)
      ])

  -- The parts of a text, or the end of the text whose upper case is longer.
  abbrev pub Result : Bytes → Outcome Err (List Bytes) → Type 0
  Result s r =
      ((parts : List Bytes) × (r ≡ done parts))
      ⊎ ((r ≡ failed slice_out_of_range) × (n : ℕ) × Grows to_upper (drop n s))

  -- With more fuel than the text has bytes, `splitKeepingQuotes` ends, whatever `strings.ToUpper` does and whatever
  -- the delimiters are, if none is empty or loses bytes by its upper case: it gives a list of parts, or it
  -- panics on a slice out of range, and that only if some end of the text has an upper case that is longer
  -- than it is.
  pub split_keeping_quotes-total :
      (fuel : ℕ) (ds : List Bytes) (s : Bytes)
      → length s < fuel
      → Proper to_upper ds
      → Result s (split_keeping_quotes to_upper fuel ds s)
  unfolding split_keeping_quotes
  split_keeping_quotes-total zero ds s lt p = absurd (omega (arith, lt))
  split_keeping_quotes-total (suc fuel) ds s lt p =
      step (split_at_delim to_upper ds s) (split_at_delim-SplitsWell ds s p)
        (λ right shorter. split_keeping_quotes-total fuel ds right (omega (arith, lt, shorter)) p)
    where
      step :
          (o : Split)
          → SplitsWell to_upper s o
          → ((right : Bytes)
              → length right < length s
              → Result right (split_keeping_quotes to_upper fuel ds right))
          → Result s (elim o [
            | whole ↦ done (s ∷ [])
            | panics ↦ failed slice_out_of_range
            | cut left right ↦ elim (split_keeping_quotes to_upper fuel ds right) [
              | failed e ↦ failed e
              | done parts ↦ done (left ∷ parts)
            ]
          ])
      step whole well later = inl (s ∷ [], refl)
      step panics well later = inr (refl, 0, well)
      step (cut left right) (n, e, shorter) later = elim (later right shorter) [
        | inl (parts, h) ↦ inl (left ∷ parts, rw h refl)
        | inr (h, k, grows) ↦
            inr (rw h refl, n + k, subst (Grows to_upper) (ap (drop k) e ∙ drop-drop n k s) grows)
      ]
