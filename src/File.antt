-- ===== src/File.antt =====
-- A file as `os.File` gives it to pkg/store: bytes at offsets, read by `ReadAt` and written by
-- `WriteAt`. The only failure modelled is a read past the end of the file (`io.EOF`).
pub mod Laws
use ts_store.Prelude.{
  ℕ, zero, suc, ◌+◌, ◌-◌, Option, none, some, List, [], ◌∷◌, length, ◌||◌, ◌&&◌, ltb, leb, ◌==◌,
  if◌then◌else◌,
}

-- Bytes that were never written read as 0.
pub record File : Type 0 where
  pub size : ℕ
  pub byte : ℕ → ℕ

-- `Create` and `Truncate(n)`.
unfoldable pub allocate : ℕ → File
allocate n = record { size = n; byte = λ i. 0 }

abbrev pub bytes_from : (ℕ → ℕ) → ℕ → ℕ → List ℕ
bytes_from byte off zero = []
bytes_from byte off (suc n) = byte off ∷ bytes_from byte (suc off) n

-- `ReadAt` into a buffer of n bytes.
unfoldable pub read_at : File → ℕ → ℕ → Option (List ℕ)
read_at f off n = if n == 0 || leb (off + n) f.size then some (bytes_from f.byte off n) else none

abbrev pub get_or : List ℕ → ℕ → ℕ → ℕ
get_or [] i d = d
get_or (x ∷ xs) zero d = x
get_or (x ∷ xs) (suc i) d = get_or xs i d

abbrev pub overwrite : (ℕ → ℕ) → ℕ → List ℕ → ℕ → ℕ
overwrite byte off bs i = if ltb i off then byte i else get_or bs (i - off) (byte i)

-- `WriteAt`; a write past the end makes the file longer, and a write of nothing does nothing.
unfoldable pub write_at : File → ℕ → List ℕ → File
write_at f off bs = record {
  size = if ltb 0 (length bs) && ltb f.size (off + length bs) then off + length bs else f.size;
  byte = overwrite f.byte off bs;
}
