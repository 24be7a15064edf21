-- ===== src/Block/ObjectHeader.antt =====
-- `ObjectHeader` of pkg/block/block.go: 24 bytes before each object of a packed block.
use ts_store.Prelude.{ℕ, ◌^◌, ◌<◌, ◌≡◌, refl, bit_and, List, ◌++◌, length, Bool, not, ◌==◌}
use ts_store.Prelude.Int.{ℤ}
use ts_store.Word.{
  IsInt64, word_of, int_of, le_bytes, le_value, slice, le_value-le_bytes_four, int_of-le_bytes,
}

pub record ObjectHeader : Type 0 where
  pub timestamp : ℤ
  pub data_len : ℕ
  pub flags : ℕ
  pub next_offset : ℕ
  pub reserved : ℕ

abbrev pub obj_flag_continuation : ℕ
obj_flag_continuation = 1

abbrev pub obj_flag_continues : ℕ
obj_flag_continues = 2

abbrev pub obj_flag_last_in_block : ℕ
obj_flag_last_in_block = 4

abbrev pub is_continuation : ObjectHeader → Bool
is_continuation o = not (bit_and o.flags obj_flag_continuation == 0)

abbrev pub continues : ObjectHeader → Bool
continues o = not (bit_and o.flags obj_flag_continues == 0)

abbrev pub is_last_in_block : ObjectHeader → Bool
is_last_in_block o = not (bit_and o.flags obj_flag_last_in_block == 0)

unfoldable pub encode : ObjectHeader → List ℕ
encode o =
    le_bytes 8 (word_of o.timestamp)
    ++ (le_bytes 4 o.data_len
        ++ (le_bytes 4 o.flags ++ (le_bytes 4 o.next_offset ++ le_bytes 4 o.reserved)))

unfoldable pub decode : List ℕ → ObjectHeader
decode buf = record {
  timestamp = int_of (le_value (slice 0 8 buf));
  data_len = le_value (slice 8 4 buf);
  flags = le_value (slice 12 4 buf);
  next_offset = le_value (slice 16 4 buf);
  reserved = le_value (slice 20 4 buf);
}

-- Every field holds a value of its Go type.
pub record IsTyped (o : ObjectHeader) : Type 0 where
  pub timestamp : IsInt64 o.timestamp
  pub data_len : o.data_len < 2 ^ 32
  pub flags : o.flags < 2 ^ 32
  pub next_offset : o.next_offset < 2 ^ 32
  pub reserved : o.reserved < 2 ^ 32

pub length-encode : (o : ObjectHeader) → length (encode o) ≡ 24
unfolding encode le_bytes
length-encode o = refl

-- Decoding the 24 bytes of an encoded object header gives the header back.
pub decode-encode : (o : ObjectHeader) → IsTyped o → decode (encode o) ≡ o
unfolding encode decode le_bytes
decode-encode o t = λ i. record {
  timestamp = int_of-le_bytes o.timestamp t.timestamp i;
  data_len = le_value-le_bytes_four o.data_len t.data_len i;
  flags = le_value-le_bytes_four o.flags t.flags i;
  next_offset = le_value-le_bytes_four o.next_offset t.next_offset i;
  reserved = le_value-le_bytes_four o.reserved t.reserved i;
}
