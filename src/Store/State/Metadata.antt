-- ===== src/Store/State/Metadata.antt =====
-- `StoreMetadata` and the 64 bytes of the meta file (pkg/store/store.go: `writeMetaLocked`,
-- `readMetadata`).
use ts_store.Prelude.{ℕ, zero, suc, ◌^◌, ◌%◌, ◌<◌, ◌≡◌, refl, List, [], ◌∷◌, ◌++◌, length, arith}
use ts_store.Word.{le_bytes, le_value, slice, le_value-le_bytes_four, le_value-le_bytes_eight}

pub record StoreMetadata : Type 0 where
  pub magic : ℕ
  pub version : ℕ
  pub num_blocks : ℕ
  pub data_block_size : ℕ
  pub index_block_size : ℕ
  pub head_block : ℕ
  pub tail_block : ℕ
  pub write_offset : ℕ
  pub data_type : ℕ

abbrev pub metadata_size : ℕ
metadata_size = 64

abbrev pub zeros : ℕ → List ℕ
zeros zero = []
zeros (suc n) = 0 ∷ zeros n

unfoldable pub encode : StoreMetadata → List ℕ
encode m =
    le_bytes 8 m.magic
    ++ (le_bytes 4 m.version
        ++ (le_bytes 4 m.num_blocks
            ++ (le_bytes 4 m.data_block_size
                ++ (le_bytes 4 m.index_block_size
                    ++ (le_bytes 4 m.head_block
                        ++ (le_bytes 4 m.tail_block
                            ++ (le_bytes 4 m.write_offset ++ (m.data_type % 256 ∷ zeros 27))))))))

unfoldable pub decode : List ℕ → StoreMetadata
decode buf = record {
  magic = le_value (slice 0 8 buf);
  version = le_value (slice 8 4 buf);
  num_blocks = le_value (slice 12 4 buf);
  data_block_size = le_value (slice 16 4 buf);
  index_block_size = le_value (slice 20 4 buf);
  head_block = le_value (slice 24 4 buf);
  tail_block = le_value (slice 28 4 buf);
  write_offset = le_value (slice 32 4 buf);
  data_type = le_value (slice 36 1 buf);
}

-- Every field holds a value of its Go type.
pub record IsTyped (m : StoreMetadata) : Type 0 where
  pub magic : m.magic < 2 ^ 64
  pub version : m.version < 2 ^ 32
  pub num_blocks : m.num_blocks < 2 ^ 32
  pub data_block_size : m.data_block_size < 2 ^ 32
  pub index_block_size : m.index_block_size < 2 ^ 32
  pub head_block : m.head_block < 2 ^ 32
  pub tail_block : m.tail_block < 2 ^ 32
  pub write_offset : m.write_offset < 2 ^ 32
  pub data_type : m.data_type < 2 ^ 8

pub length-encode : (m : StoreMetadata) → length (encode m) ≡ metadata_size
unfolding encode le_bytes
length-encode m = refl

byte_value : (n : ℕ) → n < 2 ^ 8 → le_value (n % 256 ∷ []) ≡ n
unfolding le_value
byte_value n h = omega arith

-- What `writeMetaLocked` writes, `readMetadata` reads back.
pub decode-encode : (m : StoreMetadata) → IsTyped m → decode (encode m) ≡ m
unfolding encode decode le_bytes
decode-encode m t = λ i. record {
  magic = le_value-le_bytes_eight m.magic t.magic i;
  version = le_value-le_bytes_four m.version t.version i;
  num_blocks = le_value-le_bytes_four m.num_blocks t.num_blocks i;
  data_block_size = le_value-le_bytes_four m.data_block_size t.data_block_size i;
  index_block_size = le_value-le_bytes_four m.index_block_size t.index_block_size i;
  head_block = le_value-le_bytes_four m.head_block t.head_block i;
  tail_block = le_value-le_bytes_four m.tail_block t.tail_block i;
  write_offset = le_value-le_bytes_four m.write_offset t.write_offset i;
  data_type = byte_value m.data_type t.data_type i;
}
