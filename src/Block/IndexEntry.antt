-- ===== src/Block/IndexEntry.antt =====
-- `IndexEntry` of pkg/block/block.go: 16 bytes for each block, in the index file.
use ts_store.Prelude.{ℕ, ◌^◌, ◌<◌, ◌≡◌, refl, List, ◌++◌, length}
use ts_store.Prelude.Int.{ℤ}
use ts_store.Word.{
  IsInt64, word_of, int_of, le_bytes, le_value, slice, le_value-le_bytes_four, int_of-le_bytes,
}

pub record IndexEntry : Type 0 where
  pub timestamp : ℤ
  pub block_num : ℕ
  pub reserved : ℕ

unfoldable pub encode : IndexEntry → List ℕ
encode e = le_bytes 8 (word_of e.timestamp) ++ (le_bytes 4 e.block_num ++ le_bytes 4 e.reserved)

unfoldable pub decode : List ℕ → IndexEntry
decode buf = record {
  timestamp = int_of (le_value (slice 0 8 buf));
  block_num = le_value (slice 8 4 buf);
  reserved = le_value (slice 12 4 buf);
}

-- Every field holds a value of its Go type.
pub record IsTyped (e : IndexEntry) : Type 0 where
  pub timestamp : IsInt64 e.timestamp
  pub block_num : e.block_num < 2 ^ 32
  pub reserved : e.reserved < 2 ^ 32

pub length-encode : (e : IndexEntry) → length (encode e) ≡ 16
unfolding encode le_bytes
length-encode e = refl

-- Decoding the 16 bytes of an encoded index entry gives the entry back.
pub decode-encode : (e : IndexEntry) → IsTyped e → decode (encode e) ≡ e
unfolding encode decode le_bytes
decode-encode e t = λ i. record {
  timestamp = int_of-le_bytes e.timestamp t.timestamp i;
  block_num = le_value-le_bytes_four e.block_num t.block_num i;
  reserved = le_value-le_bytes_four e.reserved t.reserved i;
}
