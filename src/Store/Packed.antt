-- ===== src/Store/Packed.antt =====
-- pkg/store/packed.go: objects packed into blocks (V2 format), and objects that span blocks.
pub mod Read
pub mod Contents
pub mod Link
pub mod Append
pub mod NewBlock
pub mod Scan
use ts_store.Prelude.{
  ℕ, zero, suc, ◌+◌, ◌-◌, ◌*◌, ◌/◌, ◌%◌, ◌^◌, min, bit_and, bit_or, bit_xor, Bool, true, false, not,
  ◌&&◌, List, length, take, drop, ltb, leb, ◌==◌, if◌then◌else◌,
}
use ts_store.Prelude.Int.{ℤ, pos}
use ts_store.Word.{add32, sub32}
use ts_store.Block.{block_header_size, object_header_size}
use ts_store.Block.BlockHeader.{BlockHeader, flag_primary, flag_packed, flag_continuation}
use ts_store.Block.ObjectHeader
use ts_store.Block.ObjectHeader.{ObjectHeader, obj_flag_continues, obj_flag_last_in_block}
use ts_store.Block.IndexEntry.{IndexEntry}
use ts_store.Store.State.Errors.{Result, ok, err, out_of_fuel}
use ts_store.Store.State.{
  Config, Store, M, pure, reads, gets, ◌>>=◌, ◌>>◌, block_offset, set_head, set_write_offset,
  read_block_header, write_block_header, write_index_entry, read_object_header, write_object_header,
  write_data,
}
use ts_store.Store.Freelist.{allocate_next_block}

-- `ObjectHandle` of pkg/store/object.go.
pub record ObjectHandle : Type 0 where
  pub timestamp : ℤ
  pub block_num : ℕ
  pub offset : ℕ
  pub size : ℕ
  pub span_count : ℕ

-- `uint32(len(data))`
abbrev pub len32 : List ℕ → ℕ
len32 bs = length bs % 2 ^ 32

abbrev pub usable_per_block : Config → ℕ
usable_per_block c = sub32 c.data_block_size block_header_size

abbrev pub first_block_usable : Config → ℕ
first_block_usable c = sub32 (usable_per_block c) object_header_size

-- `uint32` division that rounds up, as `(n + d - 1) / d`.
abbrev pub div_up : ℕ → ℕ → ℕ
div_up n d = sub32 (add32 n d) 1 / d

unfoldable pub calculate_span_count : Config → ℕ → ℕ
calculate_span_count c data_len =
    if leb data_len (first_block_usable c)
    then 1
    else add32 1 (div_up (sub32 data_len (first_block_usable c)) (usable_per_block c))

unfoldable pub can_fit_in_current_block : ℕ → Store → Bool
can_fit_in_current_block obj_size s =
    if s.meta.write_offset == 0
    then false
    else leb obj_size (sub32 s.config.data_block_size s.meta.write_offset)

-- `objHeader.Flags &^= ObjFlagLastInBlock`
abbrev pub clear_last : ℕ → ℕ
clear_last flags = bit_and flags (bit_xor obj_flag_last_in_block (2 ^ 32 - 1))

-- The loop of `updatePreviousObjectLink`, from `offset` on. A chain of offsets that goes round never
-- ends in the code: it runs out of fuel here.
unfoldable pub link_from : ℕ → ℕ → ℕ → ℕ → M (Unit {0})
link_from zero block_num new_offset offset s = (err out_of_fuel, s)
link_from (suc fuel) block_num new_offset offset s = elim (ltb offset s.meta.write_offset) [
  | false ↦ (ok tt, s)
  | true ↦ elim (read_object_header block_num offset s) [
    | err e ↦ (err e, s)
    | ok h ↦ elim (ObjectHeader.is_last_in_block h) [
      | true ↦
          write_object_header block_num offset
            (record h { flags = clear_last h.flags; next_offset = new_offset }) s
      | false ↦ elim (h.next_offset == 0) [
        | true ↦ (ok tt, s)
        | false ↦ link_from fuel block_num new_offset h.next_offset s
      ]
    ]
  ]
]

-- Offsets that grow stay below the write offset, so this much fuel serves every chain that does.
unfoldable pub update_previous_object_link : ℕ → ℕ → M (Unit {0})
update_previous_object_link block_num new_offset s =
    link_from (suc s.meta.write_offset) block_num new_offset block_header_size s

-- The header that a new object gets.
abbrev pub new_object_header : ℤ → ℕ → ObjectHeader
new_object_header timestamp len = record {
  timestamp = timestamp;
  data_len = len;
  flags = obj_flag_last_in_block;
  next_offset = 0;
  reserved = 0;
}

-- `if len(data) > 0 { WriteAt }`: a write of nothing changes nothing.
unfoldable pub append_to_current_block : ℤ → List ℕ → M ObjectHandle
append_to_current_block timestamp bs = do
  block_num ← gets (λ s. s.meta.head_block)
  write_offset ← gets (λ s. s.meta.write_offset)
  c ← gets (λ s. s.config)
  update_previous_object_link block_num write_offset
  write_object_header block_num write_offset (new_object_header timestamp (len32 bs))
  let data_offset = add32 write_offset object_header_size
  write_data (block_offset c block_num + data_offset) bs
  block_header ← reads (read_block_header block_num)
  let end = add32 data_offset (len32 bs)
  write_block_header block_num (record block_header { data_len = sub32 end block_header_size })
  set_write_offset end
  pure (record {
    timestamp = timestamp;
    block_num = block_num;
    offset = write_offset;
    size = len32 bs;
    span_count = 1;
  })

unfoldable pub write_to_new_block : ℤ → List ℕ → M ObjectHandle
write_to_new_block timestamp bs = do
  block_num ← allocate_next_block
  c ← gets (λ s. s.config)
  write_block_header block_num (record {
    timestamp = timestamp;
    data_len = add32 object_header_size (len32 bs);
    flags = bit_or flag_primary flag_packed;
    reserved = 0;
  })
  write_object_header block_num block_header_size (new_object_header timestamp (len32 bs))
  let data_offset = add32 block_header_size object_header_size
  write_data (block_offset c block_num + data_offset) bs
  write_index_entry block_num
      (record { timestamp = timestamp; block_num = block_num; reserved = 0 })
  set_head block_num
  set_write_offset (add32 data_offset (len32 bs))
  pure (record {
    timestamp = timestamp;
    block_num = block_num;
    offset = block_header_size;
    size = len32 bs;
    span_count = 1;
  })

-- One round of the loop that writes the continuation blocks.
unfoldable pub write_continuation : List ℕ → ℕ → M (Unit {0})
write_continuation chunk chunk_size = do
  next ← allocate_next_block
  set_head next
  write_block_header next (record {
    timestamp = pos 0;
    data_len = chunk_size;
    flags = bit_or (bit_or flag_primary flag_packed) flag_continuation;
    reserved = 0;
  })
  c ← gets (λ s. s.config)
  write_data (block_offset c next + block_header_size) chunk
  write_index_entry next (record { timestamp = pos 0; block_num = next; reserved = 0 })

-- The loop, with the data that is left and its length.
unfoldable pub write_continuations : ℕ → ℕ → List ℕ → M (Unit {0})
write_continuations zero remaining rest s = (err out_of_fuel, s)
write_continuations (suc fuel) remaining rest s = elim (ltb 0 remaining) [
  | false ↦ (ok tt, s)
  | true ↦
      let chunk_size = min remaining (usable_per_block s.config) in
      (write_continuation (take chunk_size rest) chunk_size
          >> write_continuations fuel (sub32 remaining chunk_size) (drop chunk_size rest))
        s
]

-- The first block of an object that spans blocks.
unfoldable pub write_first_block : ℤ → List ℕ → ℕ → ℕ → M (Unit {0})
write_first_block timestamp bs chunk_size first_block = do
  write_block_header first_block (record {
    timestamp = timestamp;
    data_len = add32 object_header_size chunk_size;
    flags = bit_or flag_primary flag_packed;
    reserved = 0;
  })
  write_object_header first_block block_header_size
      (record (new_object_header timestamp (len32 bs)) {
        flags =
            if ltb chunk_size (len32 bs)
            then bit_or obj_flag_last_in_block obj_flag_continues
            else obj_flag_last_in_block;
      })
  c ← gets (λ s. s.config)
  write_data (block_offset c first_block + (block_header_size + object_header_size))
      (take chunk_size bs)
  write_index_entry first_block
      (record { timestamp = timestamp; block_num = first_block; reserved = 0 })

-- `lastChunkSize`, as the code computes it.
abbrev pub last_chunk_size : Config → ℕ → ℕ
last_chunk_size c len =
    if len % usable_per_block c == 0 && ltb 0 len
    then usable_per_block c
    else len % usable_per_block c

-- The fuel is the number of bytes and one round more.
unfoldable pub write_spanning_object : ℤ → List ℕ → M ObjectHandle
write_spanning_object timestamp bs = do
  c ← gets (λ s. s.config)
  let len = len32 bs
  first_block ← allocate_next_block
  set_head first_block
  let chunk_size = min (first_block_usable c) len
  write_first_block timestamp bs chunk_size first_block
  write_continuations (suc len) (sub32 len chunk_size) (drop chunk_size bs)
  set_write_offset (add32 block_header_size (last_chunk_size c len))
  pure (record {
    timestamp = timestamp;
    block_num = first_block;
    offset = block_header_size;
    size = len;
    span_count = calculate_span_count c len;
  })
