-- ===== src/Word.antt =====
-- Machine integers as Go's `uint32` and `int64` use them, and `encoding/binary`'s little-endian
-- layout, which pkg/block/block.go and pkg/store/store.go call.
use ts_store.Prelude.{
  ℕ, zero, suc, ◌+◌, ◌-◌, ◌*◌, ◌/◌, ◌%◌, ◌^◌, ◌<◌, ◌≡◌, refl, ap, ◌∙◌, List, [], ◌∷◌, length, take,
  drop, arith, ltb, if◌then◌else◌,
}
use ts_store.Prelude.Int.{ℤ, pos, negsuc}

abbrev pub max_u32 : ℕ
max_u32 = 2 ^ 32

abbrev pub add32 : ℕ → ℕ → ℕ
add32 a b = (a + b) % 2 ^ 32

abbrev pub sub32 : ℕ → ℕ → ℕ
sub32 a b = (a + 2 ^ 32 - b) % 2 ^ 32

-- `uint64(t)` and `int64(w)`.
abbrev pub word_of : ℤ → ℕ
word_of (pos n) = n % 2 ^ 64
word_of (negsuc n) = 2 ^ 64 - 1 - n % 2 ^ 64

abbrev pub int_of : ℕ → ℤ
int_of w = if ltb w (2 ^ 63) then pos w else negsuc (2 ^ 64 - 1 - w)

-- `a - b` of `int64` values.
unfoldable pub sub_int64 : ℤ → ℤ → ℤ
sub_int64 a b = int_of ((word_of a + 2 ^ 64 - word_of b) % 2 ^ 64)

-- `int64` values.
abbrev pub IsInt64 : ℤ → Type 0
IsInt64 (pos n) = n < 2 ^ 63
IsInt64 (negsuc n) = n < 2 ^ 63

pub int_of-word_of : (t : ℤ) → IsInt64 t → int_of (word_of t) ≡ t
int_of-word_of (pos n) h = ground arith
int_of-word_of (negsuc n) h = ground arith

-- `PutUint32` and `PutUint64` write the k low bytes of n, least significant first.
unfoldable pub le_bytes : ℕ → ℕ → List ℕ
le_bytes zero n = []
le_bytes (suc k) n = n % 256 ∷ le_bytes k (n / 256)

-- `Uint32` and `Uint64` of the bytes of a slice.
unfoldable pub le_value : List ℕ → ℕ
le_value [] = 0
le_value (b ∷ bs) = b + 256 * le_value bs

-- `buf[i : i + n]`
abbrev pub slice : ℕ → ℕ → List ℕ → List ℕ
slice i n bs = take n (drop i bs)

pub length-le_bytes : (k n : ℕ) → length (le_bytes k n) ≡ k
unfolding le_bytes
length-le_bytes zero n = refl
length-le_bytes (suc k) n = omega (arith, length-le_bytes k (n / 256))

pub le_value-le_bytes_four : (n : ℕ) → n < 2 ^ 32 → le_value (le_bytes 4 n) ≡ n
unfolding le_bytes le_value
le_value-le_bytes_four n h = omega arith

pub le_value-le_bytes_eight : (n : ℕ) → n < 2 ^ 64 → le_value (le_bytes 8 n) ≡ n
unfolding le_bytes le_value
le_value-le_bytes_eight n h = omega arith

pub word_of-lt : (t : ℤ) → word_of t < 2 ^ 64
word_of-lt (pos n) = omega arith
word_of-lt (negsuc n) = omega arith

-- An `int64` survives its eight bytes.
pub int_of-le_bytes : (t : ℤ) → IsInt64 t → int_of (le_value (le_bytes 8 (word_of t))) ≡ t
int_of-le_bytes t h =
    ap int_of (le_value-le_bytes_eight (word_of t) (word_of-lt t)) ∙ int_of-word_of t h
