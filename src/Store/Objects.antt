-- ===== src/Store/Objects.antt =====
-- pkg/store/object.go: storing an object and reading it by its handle.
pub mod Query
pub mod Delete
use ts_store.Prelude.{
  ℕ, zero, suc, ◌+◌, ◌-◌, ◌%◌, Bool, true, false, ◌&&◌, ◌||◌, List, [], ◌∷◌, ◌++◌, length, leb, ltb,
  ◌==◌, if◌then◌else◌,
}
use mathlib.Core.List.{reverse}
use ts_store.Prelude.Int.{ℤ, pos, ltb_ℤ, leb_ℤ, ◌==ℤ◌}
use ts_store.Word.{add32, sub32}
use ts_store.Block.{block_header_size, object_header_size}
use ts_store.Block.BlockHeader
use ts_store.Store.State.Errors
use ts_store.Store.State.Errors.{
  Result, ok, err, out_of_fuel, store_closed, invalid_timestamp, timestamp_out_of_order,
  timestamp_not_found, block_out_of_range,
}
use ts_store.Store.State.{
  Config, Store, M, pure, reads, gets, raise_if, ◌>>=◌, ◌>>◌, block_offset, set_tail,
  read_block_header, read_index_entry, read_object_header, read_data, write_meta_locked,
}
use ts_store.Store.Freelist.{next_block, clear_index_entry}
use ts_store.Store.Packed.{
  ObjectHandle, len32, usable_per_block, can_fit_in_current_block, append_to_current_block,
  write_to_new_block, write_spanning_object,
}
use ts_store.Store.Packed.Read.{
  read_packed_object_data, scan_block_for_timestamp, scan_block_objects,
}
use ts_store.Store.Index.{
  active_block_count, block_num_from_offset, find_block_by_time_locked, find_offset_for_time_locked,
  get_newest_timestamp_locked, get_oldest_timestamp_locked, when_open,
}

unfoldable pub max_object_size : Store → ℕ
max_object_size s = usable_per_block s.config

-- `tsErr == nil && timestamp <= newestTs`
unfoldable pub is_out_of_order : ℤ → Store → Bool
is_out_of_order timestamp s = elim (get_newest_timestamp_locked s) [
  | ok newest ↦ leb_ℤ timestamp newest
  | err e ↦ false
]

-- The three ways to store an object, chosen by its size.
unfoldable pub place_object : ℤ → List ℕ → M ObjectHandle
place_object timestamp bs s =
    let obj_size = add32 object_header_size (len32 bs) in
    (if can_fit_in_current_block obj_size s
        then append_to_current_block timestamp bs
        else (if leb obj_size (usable_per_block s.config)
            then write_to_new_block timestamp bs
            else write_spanning_object timestamp bs))
      s

unfoldable pub put_object : ℤ → List ℕ → M ObjectHandle
put_object timestamp bs = do
  closed ← gets (λ s. s.closed)
  raise_if closed store_closed
  raise_if (leb_ℤ timestamp (pos 0)) invalid_timestamp
  out_of_order ← gets (is_out_of_order timestamp)
  raise_if out_of_order timestamp_out_of_order
  handle ← place_object timestamp bs
  write_meta_locked
  pure handle

-- `readBlockDataLocked`
unfoldable pub read_block_data_locked : ℕ → Store → Result (List ℕ)
read_block_data_locked block_num s = Errors.◌>>=◌ (read_block_header block_num s) λ header.
    elim (header.data_len == 0) [
      | true ↦ ok []
      | false ↦ read_data (block_offset s.config block_num + block_header_size) header.data_len s
    ]

unfoldable pub get_object : ObjectHandle → Store → Result (List ℕ)
get_object handle s = when_open s (
    if ltb 0 handle.offset
    then read_packed_object_data handle.block_num handle.offset s
    else read_block_data_locked handle.block_num s)

-- `PutObjectNow`, where `time.Now` is the argument.
unfoldable pub put_object_now : ℤ → List ℕ → M ObjectHandle
put_object_now now bs = put_object now bs

unfoldable pub read_block_data : ℕ → Store → Result (List ℕ)
read_block_data block_num s = when_open s (
    if leb s.meta.num_blocks block_num
    then err block_out_of_range
    else read_block_data_locked block_num s)
