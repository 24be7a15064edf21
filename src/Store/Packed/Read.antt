-- ===== src/Store/Packed/Read.antt =====
-- The readers of pkg/store/packed.go.
use ts_store.Prelude.{
  ℕ, zero, suc, ◌+◌, ◌*◌, min, Bool, true, false, ◌||◌, List, [], ◌∷◌, ◌++◌, ltb, ◌==◌,
}
use ts_store.Prelude.Int.{ℤ, pos, ltb_ℤ, ◌==ℤ◌}
use ts_store.Word.{add32, sub32}
use ts_store.Block.{block_header_size, object_header_size}
use ts_store.Block.BlockHeader
use ts_store.Block.ObjectHeader
use ts_store.Block.ObjectHeader.{ObjectHeader}
use ts_store.Store.State.Errors.{Result, ok, err, ◌>>=◌, out_of_fuel, timestamp_not_found}
use ts_store.Store.State.{
  Store, block_offset, read_block_header, read_object_header, read_index_entry, read_data,
}
use ts_store.Store.Freelist.{next_block}
use ts_store.Store.Packed.{ObjectHandle, calculate_span_count}

-- Where a chunk starts in its block and how long it is: behind the object header in the first block,
-- behind the block header in a continuation block.
abbrev pub chunk_of : ℕ → ℕ → Bool → ℕ × ℕ
chunk_of offset data_len true = (add32 offset object_header_size, sub32 data_len object_header_size)
chunk_of offset data_len false = (block_header_size, data_len)

-- The loop of `readPackedObjectData` over the blocks of a spanning object.
unfoldable pub read_chunks : ℕ → ℕ → ℕ → ℕ → Bool → Store → Result (List ℕ)
read_chunks zero block_num offset remaining is_first s = err out_of_fuel
read_chunks (suc fuel) block_num offset remaining is_first s = elim (ltb 0 remaining) [
  | false ↦ ok []
  | true ↦ do
    block_header ← read_block_header block_num s
    let chunk = chunk_of offset block_header.data_len is_first
    let chunk_size = min (chunk.1) remaining
    bytes ← read_data (block_offset s.config block_num + chunk.0) chunk_size s
    let rest = sub32 remaining chunk_size
    let next : ℕ = elim (ltb 0 rest) [ true ↦ next_block s block_num | false ↦ block_num ]
    more ← read_chunks fuel next offset rest false s
    ok (bytes ++ more)
]

-- Headers that say 0 bytes all round the circle keep the code in the loop for ever; in any other
-- case `num_blocks` rounds read a byte at least.
abbrev pub read_fuel : Store → ℕ → ℕ
read_fuel s data_len = suc (suc data_len * suc s.meta.num_blocks)

unfoldable pub read_packed_object_data : ℕ → ℕ → Store → Result (List ℕ)
read_packed_object_data block_num offset s = do
  obj_header ← read_object_header block_num offset s
  elim (ObjectHeader.continues obj_header) [
    | false ↦
        read_data (block_offset s.config block_num + add32 offset object_header_size)
          obj_header.data_len s
    | true ↦
        read_chunks (read_fuel s obj_header.data_len) block_num offset obj_header.data_len true s
  ]

abbrev pub span_of : Store → ObjectHeader → ℕ
span_of s h = elim (ObjectHeader.continues h) [
  | true ↦ calculate_span_count s.config h.data_len
  | false ↦ 1
]

abbrev pub handle_of : Store → ℕ → ℕ → ObjectHeader → ObjectHandle
handle_of s block_num offset h = record {
  timestamp = h.timestamp;
  block_num = block_num;
  offset = offset;
  size = h.data_len;
  span_count = span_of s h;
}

-- `scanBlockForTimestamp`, from `offset` on.
unfoldable pub scan_for_timestamp : ℕ → ℕ → ℤ → ℕ → Store → Result (List ℕ × ObjectHandle)
scan_for_timestamp zero block_num timestamp offset s = err out_of_fuel
scan_for_timestamp (suc fuel) block_num timestamp offset s =
    elim (ltb offset s.config.data_block_size) [
      | false ↦ err timestamp_not_found
      | true ↦ do
        h ← read_object_header block_num offset s
        elim (h.timestamp ==ℤ pos 0) [
          | true ↦ err timestamp_not_found
          | false ↦ elim (h.timestamp ==ℤ timestamp) [
            | true ↦ do
              bytes ← read_packed_object_data block_num offset s
              ok (bytes, handle_of s block_num offset h)
            | false ↦
                elim (ltb_ℤ timestamp h.timestamp
                  || (h.next_offset == 0 || ObjectHeader.is_last_in_block h)) [
                    | true ↦ err timestamp_not_found
                    | false ↦ scan_for_timestamp fuel block_num timestamp h.next_offset s
                  ]
          ]
        ]
    ]

unfoldable pub scan_block_for_timestamp : ℕ → ℤ → Store → Result (List ℕ × ObjectHandle)
scan_block_for_timestamp block_num timestamp s =
    scan_for_timestamp (suc s.config.data_block_size) block_num timestamp block_header_size s

-- The V2 loop of `scanBlockObjects`, from `offset` on. A failed read ends it.
unfoldable pub scan_objects : ℕ → ℕ → ℕ → Store → Result (List ObjectHandle)
scan_objects zero block_num offset s = err out_of_fuel
scan_objects (suc fuel) block_num offset s = elim (ltb offset s.config.data_block_size) [
  | false ↦ ok []
  | true ↦ elim (read_object_header block_num offset s) [
    | err e ↦ ok []
    | ok h ↦ elim (h.timestamp ==ℤ pos 0) [
      | true ↦ ok []
      | false ↦ elim (h.next_offset == 0 || ObjectHeader.is_last_in_block h) [
        | true ↦ ok (handle_of s block_num offset h ∷ [])
        | false ↦ do
          more ← scan_objects fuel block_num h.next_offset s
          ok (handle_of s block_num offset h ∷ more)
      ]
    ]
  ]
]

-- V1 blocks hold one object each.
unfoldable pub scan_v1_block : ℕ → ℕ → Store → Result (List ObjectHandle)
scan_v1_block block_num data_len s = do
  entry ← read_index_entry block_num s
  elim (entry.timestamp ==ℤ pos 0) [
    | true ↦ ok []
    | false ↦ ok (
        record {
          timestamp = entry.timestamp;
          block_num = block_num;
          offset = 0;
          size = data_len;
          span_count = 0;
        }
        ∷ [])
  ]

unfoldable pub scan_block_objects : ℕ → Store → Result (List ObjectHandle)
scan_block_objects block_num s = do
  header ← read_block_header block_num s
  elim (BlockHeader.is_continuation header) [
    | true ↦ ok []
    | false ↦ elim (BlockHeader.is_packed header) [
      | true ↦ scan_objects (suc s.config.data_block_size) block_num block_header_size s
      | false ↦ scan_v1_block block_num header.data_len s
    ]
  ]
