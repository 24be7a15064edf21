-- ===== src/Strconv.antt =====
-- `strconv.Itoa` and `strconv.Atoi` of the Go library, which pkg/schema/schema.go uses for keys.
use ts_store.Prelude.{
  ℕ, zero, suc, ◌+◌, ◌-◌, ◌*◌, ◌/◌, ◌%◌, ◌^◌, ◌≤◌, ◌<◌, ◌≡◌, refl, sym, ap, ◌∙◌, inl, inr, Bool,
  true, false, ◌&&◌, Option, none, some, [], ◌∷◌, ◌++◌, arith, leb, ltb, ◌==◌, if◌then◌else◌,
  Bool-cases, lt→ltb,
}
use mathlib.Core.Option.{none-ne-some, some-injective}
use ts_store.Prelude.Int.{ℤ, pos, negsuc}
use ts_store.Prelude.Equality.{Bytes}
use ts_store.Word.{IsInt64}

abbrev digit : ℕ → ℕ
digit d = b'0' + d

-- The decimal digits of n; the fuel is above n.
unfoldable pub digits : ℕ → ℕ → Bytes
digits zero n = []
digits (suc fuel) n =
    if ltb n 10 then digit n ∷ [] else digits fuel (n / 10) ++ (digit (n % 10) ∷ [])

unfoldable pub itoa : ℤ → Bytes
itoa (pos n) = digits (suc n) n
itoa (negsuc n) = b'-' ∷ digits (suc (suc n)) (suc n)

abbrev is_digit : ℕ → Bool
is_digit c = leb b'0' c && leb c b'9'

unfoldable pub read_digits : ℕ → Bytes → Option ℕ
read_digits acc [] = some acc
read_digits acc (c ∷ cs) = if is_digit c then read_digits (acc * 10 + (c - b'0')) cs else none

-- At least one digit.
unfoldable pub read_number : Bytes → Option ℕ
read_number [] = none
read_number (c ∷ cs) = read_digits 0 (c ∷ cs)

-- The range of `int`, which has 64 bits.
abbrev pub in_range_pos : Option ℕ → Option ℤ
in_range_pos none = none
in_range_pos (some n) = if ltb n (2 ^ 63) then some (pos n) else none

abbrev pub in_range_neg : Option ℕ → Option ℤ
in_range_neg none = none
in_range_neg (some zero) = some (pos 0)
in_range_neg (some (suc n)) = if ltb n (2 ^ 63) then some (negsuc n) else none

unfoldable pub atoi : Bytes → Option ℤ
atoi [] = none
atoi (c ∷ cs) =
    if c == b'-'
    then in_range_neg (read_number cs)
    else if c == b'+'
    then in_range_pos (read_number cs)
    else in_range_pos (read_number (c ∷ cs))

read_digit : (d : ℕ) → d < 10 → is_digit (digit d) ≡ true
read_digit d lt = ground arith

read_digits-snoc :
    (acc n d : ℕ) (cs : Bytes)
    → d < 10
    → read_digits acc cs ≡ some n
    → read_digits acc (cs ++ (digit d ∷ [])) ≡ some (n * 10 + d)
unfolding read_digits
read_digits-snoc acc n d [] lt h =
    let value : digit d - b'0' ≡ d = omega arith in
    let same : acc ≡ n = some-injective acc n h in rw (read_digit d lt, value, same) refl
read_digits-snoc acc n d (c ∷ cs) lt h = elim (Bool-cases (is_digit c)) [
  | inl e ↦ rw e (
      read_digits-snoc (acc * 10 + (c - b'0')) n d cs lt
        (ap (λ b. if b then read_digits (acc * 10 + (c - b'0')) cs else none) (sym e) ∙ h))
  | inr e ↦ absurd (
      none-ne-some n
        (ap (λ b. if b then read_digits (acc * 10 + (c - b'0')) cs else none) (sym e) ∙ h))
]

zero_digits : read_digits 0 [] ≡ some 0
unfolding read_digits
zero_digits = refl

-- Decimal digits read back as their number.
read_digits-digits : (fuel n : ℕ) → n < fuel → read_digits 0 (digits fuel n) ≡ some n
unfolding digits
read_digits-digits zero n lt = absurd (omega arith)
read_digits-digits (suc fuel) n lt = elim (Bool-cases (ltb n 10)) [
  | inl small ↦
      rw (small, digits)
        (read_digits-snoc 0 0 n [] (ground (arith, small)) zero_digits ∙ ap some (omega arith))
  | inr large ↦
      let ten : 10 ≤ n = ground (arith, large) in
      let whole : n / 10 * 10 + n % 10 ≡ n = omega arith in
      rw (large, digits)
        (read_digits-snoc 0 (n / 10) (n % 10) (digits fuel (n / 10)) (omega arith)
            (read_digits-digits fuel (n / 10) (omega arith))
          ∙ ap some whole)
]

-- The first byte of a number is a digit, neither sign.
data StartsWithDigit : Bytes → Type 0 where
  digit_first : {c : ℕ} {cs : Bytes} → b'0' ≤ c → StartsWithDigit (c ∷ cs)

StartsWithDigit-append : (xs ys : Bytes) → StartsWithDigit xs → StartsWithDigit (xs ++ ys)
StartsWithDigit-append [] ys h = elim h [ ]
StartsWithDigit-append (c ∷ cs) ys (digit_first h) = digit_first h

digits-StartsWithDigit : (fuel n : ℕ) → n < fuel → StartsWithDigit (digits fuel n)
unfolding digits
digits-StartsWithDigit zero n lt = absurd (omega arith)
digits-StartsWithDigit (suc fuel) n lt = elim (Bool-cases (ltb n 10)) [
  | inl small ↦ rw (small, digits) (digit_first (omega arith))
  | inr large ↦
      rw (large, digits)
        (StartsWithDigit-append (digits fuel (n / 10)) (digit (n % 10) ∷ [])
          (digits-StartsWithDigit fuel (n / 10) (ground (arith, large))))
]

read_number-digit : (cs : Bytes) → StartsWithDigit cs → read_number cs ≡ read_digits 0 cs
unfolding read_number
read_number-digit [] h = elim h [ ]
read_number-digit (c ∷ cs) (digit_first h) = refl

atoi-digit : (cs : Bytes) → StartsWithDigit cs → atoi cs ≡ in_range_pos (read_number cs)
unfolding atoi
atoi-digit [] h = elim h [ ]
atoi-digit (c ∷ cs) (digit_first h) =
    let minus : (c == b'-') ≡ false = ground arith in
    let plus : (c == b'+') ≡ false = ground arith in rw (minus, plus) refl

read_back : (fuel n : ℕ) → n < fuel → read_number (digits fuel n) ≡ some n
read_back fuel n lt =
    read_number-digit (digits fuel n) (digits-StartsWithDigit fuel n lt)
    ∙ read_digits-digits fuel n lt

-- `Atoi` reads back what `Itoa` prints of an `int`.
pub atoi-itoa : (t : ℤ) → IsInt64 t → atoi (itoa t) ≡ some t
unfolding itoa atoi
atoi-itoa (pos n) h =
    atoi-digit (digits (suc n) n) (digits-StartsWithDigit (suc n) n (omega arith))
    ∙ ap in_range_pos (read_back (suc n) n (omega arith))
    ∙ ap (λ b. if b then some (pos n) else none) (lt→ltb n (2 ^ 63) h)
atoi-itoa (negsuc n) h =
    ap in_range_neg (read_back (suc (suc n)) (suc n) (omega arith))
    ∙ ap (λ b. if b then some (negsuc n) else none) (lt→ltb n (2 ^ 63) h)
