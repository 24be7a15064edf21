-- ===== src/Middleware/Compare.antt =====
-- `secureCompare` (internal/middleware/auth.go) is equality of strings.
use ts_store.Prelude.{
  ℕ, zero, suc, ◌/◌, ◌%◌, ◌≤◌, ◌≡◌, ◌≢◌, ◌↔◌, refl, sym, ap, ◌∙◌, Bool, true, false, not, [], ◌∷◌,
  length, arith, ◌==◌, bit_or, bit_xor, if◌then◌else◌, eq_of_test,
}
use Prim.Native.Nat.{digits, differ, max, bit_or-bitwise, bit_xor-bitwise}
use mathlib.Core.Path.{subst}
use mathlib.Core.List.{cons-ne-nil}
use ts_store.Strings.{is_empty}
use ts_store.Prelude.Equality.{Bytes}
use ts_store.Middleware.{
  Request, Answer, unauthorized, next_admin, or_else, differences, secure_compare, admin_auth,
}

or_digits : (n a b : ℕ) → a ≤ n → digits (λ x. x) max n a b ≡ 0 → (a ≡ 0) × (b ≡ 0)
or_digits zero a b le h = (omega (arith, le), h)
or_digits (suc n) zero b le h = (refl, h)
or_digits (suc n) (suc a) b le h =
    let high : digits (λ x. x) max n (suc a / 2) (b / 2) ≡ 0 = omega (arith, h) in
    let low : max (suc a % 2) (b % 2) ≡ 0 = omega (arith, h) in
    let (half, other) = or_digits n (suc a / 2) (b / 2) (omega (arith, le)) high in
    absurd (omega (arith, half, low))

differ_zero : (x y : ℕ) → differ x y ≡ 0 → x ≡ y
differ_zero zero y h = sym h
differ_zero (suc x) zero h = h
differ_zero (suc x) (suc y) h = ap suc (differ_zero x y h)

differ_self : (x : ℕ) → differ x x ≡ 0
differ_self zero = refl
differ_self (suc x) = differ_self x

xor_digits : (n a b : ℕ) → a ≤ n → digits (λ x. x) differ n a b ≡ 0 → a ≡ b
xor_digits zero a b le h = omega (arith, le, h)
xor_digits (suc n) zero b le h = sym h
xor_digits (suc n) (suc a) b le h =
    let high : digits (λ x. x) differ n (suc a / 2) (b / 2) ≡ 0 = omega (arith, h) in
    let low : differ (suc a % 2) (b % 2) ≡ 0 = omega (arith, h) in
    let half : suc a / 2 ≡ b / 2 = xor_digits n (suc a / 2) (b / 2) (omega (arith, le)) high in
    let bit : suc a % 2 ≡ b % 2 = differ_zero (suc a % 2) (b % 2) low in omega (arith, half, bit)

xor_self : (n a : ℕ) → a ≤ n → digits (λ x. x) differ n a a ≡ 0
xor_self zero a le = omega (arith, le)
xor_self (suc n) zero le = refl
xor_self (suc n) (suc a) le =
    omega (arith, xor_self n (suc a / 2) (omega (arith, le)), differ_self (suc a % 2))

bit_or-zero : (a b : ℕ) → bit_or a b ≡ 0 → (a ≡ 0) × (b ≡ 0)
bit_or-zero a b h = or_digits a a b (omega arith) (sym (bit_or-bitwise a b) ∙ h)

bit_xor-zero : (a b : ℕ) → bit_xor a b ≡ 0 → a ≡ b
bit_xor-zero a b h = xor_digits a a b (omega arith) (sym (bit_xor-bitwise a b) ∙ h)

bit_xor_self : (a : ℕ) → bit_xor a a ≡ 0
bit_xor_self a = bit_xor-bitwise a a ∙ xor_self a a (omega arith)

differences-zero :
    (r : ℕ) (a b : Bytes) → length a ≡ length b → differences r a b ≡ 0 → (r ≡ 0) × (a ≡ b)
unfolding differences
differences-zero r [] [] same h = (h, refl)
differences-zero r [] (d ∷ t) same h = absurd (omega (arith, same))
differences-zero r (c ∷ s) [] same h = absurd (omega (arith, same))
differences-zero r (c ∷ s) (d ∷ t) same h =
    let (joined, rest) = differences-zero (bit_or r (bit_xor c d)) s t (omega (arith, same)) h in
    let (before, here) = bit_or-zero r (bit_xor c d) joined in
    (before, ap (λ x. x ∷ s) (bit_xor-zero c d here) ∙ ap (λ x. d ∷ x) rest)

differences_self : (a : Bytes) → differences 0 a a ≡ 0
unfolding differences
differences_self [] = refl
differences_self (c ∷ s) =
    ap (λ x. differences x s s) (ap (bit_or 0) (bit_xor_self c)) ∙ differences_self s

both_true : (x y : Bool) → (if not x then false else y) ≡ true → (x ≡ true) × (y ≡ true)
both_true true y h = (refl, h)
both_true false y h = absurd (ground (arith, h))

secure_compare-eq : (a b : Bytes) → (secure_compare a b ≡ true) ↔ (a ≡ b)
unfolding secure_compare
secure_compare-eq a b = (
  λ h.
      let (same, zero_result) = both_true (length a == length b) (differences 0 a b == 0) h in
      (differences-zero 0 a b (eq_of_test (length a) (length b) same)
        (eq_of_test (differences 0 a b) 0 zero_result)).1,
  λ e.
      subst (λ x. secure_compare a x ≡ true) e
        (self (length a) (differences 0 a a) (differences_self a)),
)
  where
    self : (n d : ℕ) → d ≡ 0 → (if not (n == n) then false else d == 0) ≡ true
    self n d h = ground (arith, h)

guarded : Bytes → Bytes → Answer
guarded key provided =
    if is_empty provided
    then unauthorized
    else if not (secure_compare provided key)
    then unauthorized
    else next_admin

passed : (b : Bool) → (if not b then unauthorized else next_admin) ≡ next_admin → b ≡ true
passed true h = refl
passed false h = absurd (ground (arith, h))

guarded-eq :
    (key provided : Bytes)
    → (guarded key provided ≡ next_admin) ↔ ((provided ≢ []) × (provided ≡ key))
unfolding guarded
guarded-eq key [] = (λ h. absurd (ground (arith, h)), λ (ne, e). absurd (ne refl))
guarded-eq key (c ∷ s) = (
  λ h. (cons-ne-nil c s, (secure_compare-eq (c ∷ s) key).0 (passed (secure_compare (c ∷ s) key) h)),
  λ (ne, e).
      ap (λ b. if not b then unauthorized else next_admin) ((secure_compare-eq (c ∷ s) key).1 e),
)

-- `AdminAuth` passes a request on exactly if it brings a key, in the header or else in the query, and this is
-- the admin key.
pub admin_auth-eq :
    (admin_key : Bytes) (r : Request)
    → (admin_auth admin_key r ≡ next_admin) ↔ (
        (or_else r.admin_header r.admin_query ≢ [])
        × (or_else r.admin_header r.admin_query ≡ admin_key))
unfolding admin_auth guarded
admin_auth-eq admin_key r = guarded-eq admin_key (or_else r.admin_header r.admin_query)
