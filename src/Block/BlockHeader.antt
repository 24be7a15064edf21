-- ===== src/Block/BlockHeader.antt =====
-- `BlockHeader` of pkg/block/block.go: 24 bytes at the start of each block of the data file.
use ts_store.Prelude.{ℕ, ◌^◌, ◌<◌, ◌≡◌, refl, bit_and, List, ◌++◌, length, Bool, not, ◌==◌}
use ts_store.Prelude.Int.{ℤ}
use ts_store.Word.{
  IsInt64, word_of, int_of, le_bytes, le_value, slice, le_value-le_bytes_four,
  le_value-le_bytes_eight, int_of-le_bytes,
}

pub record BlockHeader : Type 0 where
  pub timestamp : ℤ
  pub data_len : ℕ
  pub flags : ℕ
  pub reserved : ℕ

abbrev pub flag_primary : ℕ
flag_primary = 1

abbrev pub flag_packed : ℕ
flag_packed = 2

abbrev pub flag_continuation : ℕ
flag_continuation = 4

abbrev pub is_primary : BlockHeader → Bool
is_primary h = not (bit_and h.flags flag_primary == 0)

abbrev pub is_packed : BlockHeader → Bool
is_packed h = not (bit_and h.flags flag_packed == 0)

abbrev pub is_continuation : BlockHeader → Bool
is_continuation h = not (bit_and h.flags flag_continuation == 0)

unfoldable pub encode : BlockHeader → List ℕ
encode h =
    le_bytes 8 (word_of h.timestamp)
    ++ (le_bytes 4 h.data_len ++ (le_bytes 4 h.flags ++ le_bytes 8 h.reserved))

unfoldable pub decode : List ℕ → BlockHeader
decode buf = record {
  timestamp = int_of (le_value (slice 0 8 buf));
  data_len = le_value (slice 8 4 buf);
  flags = le_value (slice 12 4 buf);
  reserved = le_value (slice 16 8 buf);
}

-- Every field holds a value of its Go type.
pub record IsTyped (h : BlockHeader) : Type 0 where
  pub timestamp : IsInt64 h.timestamp
  pub data_len : h.data_len < 2 ^ 32
  pub flags : h.flags < 2 ^ 32
  pub reserved : h.reserved < 2 ^ 64

pub length-encode : (h : BlockHeader) → length (encode h) ≡ 24
unfolding encode le_bytes
length-encode h = refl

-- Decoding the 24 bytes of an encoded block header gives the header back.
pub decode-encode : (h : BlockHeader) → IsTyped h → decode (encode h) ≡ h
unfolding encode decode le_bytes
decode-encode h t = λ i. record {
  timestamp = int_of-le_bytes h.timestamp t.timestamp i;
  data_len = le_value-le_bytes_four h.data_len t.data_len i;
  flags = le_value-le_bytes_four h.flags t.flags i;
  reserved = le_value-le_bytes_eight h.reserved t.reserved i;
}
