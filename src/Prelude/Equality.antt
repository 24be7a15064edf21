-- ===== src/Prelude/Equality.antt =====
-- Types whose equality is decided, as Go's `==` on keys. A Go `string` is a list of bytes.
use mathlib.Core.List.{List, [], ◌∷◌, cons-ne-nil}
use mathlib.Core.Logic.{ite}
use mathlib.Core.Bool.{Bool, true, false}
use native.Mathlib.Decide.{ℕ_discrete}
use Prim.Native.Nat.{ℕ, suc}
use mathlib.Core.Path.{◌≡◌, ◌∙◌, refl, sym, ap}
use mathlib.Core.Logic.{dite}
use ts_store.Prelude.Int.{ℤ, pos, negsuc, pos_part, neg_part}
use native.Mathlib.Omega.{arith}

pub record Eq {ℓ} (A : Type ℓ) : Type ℓ where
  pub decide : Discrete A

infix 50 ◌=?◌
abbrev pub ◌=?◌ {ℓ} : {A : Type ℓ} ⦃e : Eq A⦄ → A → A → Bool
◌=?◌ ⦃e⦄ a b = ite (e.decide a b) true false

abbrev pub Bytes : Type 0
Bytes = List ℕ

-- Shut in proofs, where a split on `a =? b` yields the equation or its negation.
instance unfoldable pub nat_eq : Eq ℕ
nat_eq = record { decide = ℕ_discrete }

first_of : Bytes → ℕ
first_of [] = 0
first_of (x ∷ xs) = x

rest_of : Bytes → Bytes
rest_of [] = []
rest_of (x ∷ xs) = xs

pub first_eq : (x y : ℕ) (xs ys : Bytes) → x ∷ xs ≡ y ∷ ys → x ≡ y
unfolding first_of
first_eq x y xs ys p = ap first_of p

pub rest_eq : (x y : ℕ) (xs ys : Bytes) → x ∷ xs ≡ y ∷ ys → xs ≡ ys
unfolding rest_of
rest_eq x y xs ys p = ap rest_of p

unfoldable pub bytes_dec : Discrete Bytes
bytes_dec [] [] = yes refl
bytes_dec [] (y ∷ ys) = no (λ p. cons-ne-nil y ys (sym p))
bytes_dec (x ∷ xs) [] = no (cons-ne-nil x xs)
bytes_dec (x ∷ xs) (y ∷ ys) = elim (ℕ_discrete x y) [
  | no n ↦ no (λ p. n (first_eq x y xs ys p))
  | yes p ↦ elim (bytes_dec xs ys) [
    | no n ↦ no (λ q. n (rest_eq x y xs ys q))
    | yes q ↦ yes (ap (λ z. z ∷ xs) p ∙ ap (λ zs. y ∷ zs) q)
  ]
]

instance unfoldable pub bytes_eq : Eq Bytes
bytes_eq = record { decide = bytes_dec }

unfoldable pub int_dec : Discrete ℤ
int_dec (pos a) (pos b) =
    dite (ℕ_discrete a b) (λ p. yes (ap pos p)) (λ n. no (λ p. n (ap pos_part p)))
int_dec (pos a) (negsuc b) =
    no (λ p. (let e : 0 ≡ suc b = ap neg_part p in absurd (omega (arith, e))))
int_dec (negsuc a) (pos b) =
    no (λ p. (let e : suc a ≡ 0 = ap neg_part p in absurd (omega (arith, e))))
int_dec (negsuc a) (negsuc b) =
    dite (ℕ_discrete a b) (λ p. yes (ap negsuc p))
      (λ n. no (λ p. n (let e : suc a ≡ suc b = ap neg_part p in omega (arith, e))))

instance unfoldable pub int_eq : Eq ℤ
unfolding int_dec
int_eq = record { decide = int_dec }
