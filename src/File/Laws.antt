-- ===== src/File/Laws.antt =====
-- What a read sees of an earlier write.
use ts_store.Prelude.{
  ℕ, zero, suc, ◌+◌, ◌-◌, ◌≤◌, ◌<◌, ◌≡◌, refl, ◌∙◌, ◌⊎◌, inl, inr, some, List, [], ◌∷◌, length,
  arith, le→ltb,
}
use ts_store.File.{File, bytes_from, read_at, get_or, overwrite, write_at}

get_or_past : (bs : List ℕ) (i d : ℕ) → length bs ≤ i → get_or bs i d ≡ d
get_or_past [] i d h = refl
get_or_past (x ∷ xs) zero d h = absurd (omega arith)
get_or_past (x ∷ xs) (suc i) d h = get_or_past xs i d (omega arith)

overwrite_outside :
    (byte : ℕ → ℕ) (off : ℕ) (bs : List ℕ) (i : ℕ)
    → (i < off) ⊎ (off + length bs ≤ i)
    → overwrite byte off bs i ≡ byte i
overwrite_outside byte off bs i (inl h) = ground arith
overwrite_outside byte off bs i (inr h) = ground (arith, get_or_past bs (i - off) (byte i))

-- The reads agree where the bytes agree.
bytes_from_congr :
    (f g : ℕ → ℕ) (off n : ℕ)
    → ((i : ℕ) → off ≤ i → i < off + n → f i ≡ g i)
    → bytes_from f off n ≡ bytes_from g off n
bytes_from_congr f g off zero h = refl
bytes_from_congr f g off (suc n) h = λ i.
    h off (omega arith) (omega arith) i
    ∷ bytes_from_congr f g (suc off) n (λ j a b. h j (omega arith) (omega arith)) i

bytes_from-overwrite_self :
    (byte : ℕ → ℕ) (off : ℕ) (bs : List ℕ) → bytes_from (overwrite byte off bs) off (length bs) ≡ bs
bytes_from-overwrite_self byte off [] = refl
bytes_from-overwrite_self byte off (x ∷ xs) =
    λ i. first i ∷ (tail_same ∙ bytes_from-overwrite_self byte (suc off) xs) i
  where
    first : overwrite byte off (x ∷ xs) off ≡ x
    first = let e : off - off ≡ 0 = omega arith in rw (le→ltb off off (omega arith), e)

    step : (j : ℕ) → suc off ≤ j → overwrite byte off (x ∷ xs) j ≡ overwrite byte (suc off) xs j
    step j a =
        let e : j - off ≡ suc (j - suc off) = omega arith in
        rw (le→ltb j off (omega arith), le→ltb j (suc off) (omega arith), e)

    tail_same :
        bytes_from (overwrite byte off (x ∷ xs)) (suc off) (length xs)
        ≡ bytes_from (overwrite byte (suc off) xs) (suc off) (length xs)
    tail_same =
        bytes_from_congr (overwrite byte off (x ∷ xs)) (overwrite byte (suc off) xs) (suc off)
          (length xs) (λ j a b. step j a)

bytes_from-overwrite_apart :
    (byte : ℕ → ℕ) (off : ℕ) (bs : List ℕ) (o n : ℕ)
    → (o + n ≤ off) ⊎ (off + length bs ≤ o)
    → bytes_from (overwrite byte off bs) o n ≡ bytes_from byte o n
bytes_from-overwrite_apart byte off bs o n h =
    bytes_from_congr (overwrite byte off bs) byte o n
      (λ i a b. overwrite_outside byte off bs i (omega arith))

-- A read of what was just written returns it.
pub read_at-write_at_self :
    (f : File) (off : ℕ) (bs : List ℕ) → read_at (write_at f off bs) off (length bs) ≡ some bs
unfolding read_at write_at
read_at-write_at_self f off bs = ground (arith, bytes_from-overwrite_self f.byte off bs)

-- A read that succeeds is not disturbed by a write of other bytes.
pub read_at-write_at_apart :
    (f : File) (off : ℕ) (bs : List ℕ) (o n : ℕ) {r : List ℕ}
    → (o + n ≤ off) ⊎ (off + length bs ≤ o)
    → read_at f o n ≡ some r
    → read_at (write_at f off bs) o n ≡ some r
unfolding read_at write_at
read_at-write_at_apart f off bs o n h e =
    ground (arith, bytes_from-overwrite_apart f.byte off bs o n h)
