-- ===== src/Store/Insert.antt =====
-- pkg/store/insert.go: the V1 insert, one entry to a block.
use ts_store.Prelude.{ℕ, ◌+◌, List, ltb, ◌==◌, if◌then◌else◌}
use ts_store.Prelude.Int.{ℤ, pos, leb_ℤ, ◌==ℤ◌}
use ts_store.Block.{block_header_size}
use ts_store.Block.BlockHeader.{flag_primary}
use ts_store.Store.State.Errors.{
  Result, ok, err, store_closed, invalid_timestamp, block_out_of_range, nil_dereference,
}
use ts_store.Store.State.{
  Store, M, pure, reads, gets, raise_if, ◌>>=◌, ◌>>◌, block_offset, set_head, read_index_entry,
  write_block_header, write_index_entry, write_data, write_meta_locked,
}
use ts_store.Store.Freelist.{next_block, allocate_block}
use ts_store.Store.Packed.{len32, usable_per_block}

-- The first entry of the head block; the error of the read is dropped and nil is followed.
unfoldable pub head_timestamp : Store → Result ℤ
head_timestamp s = elim (read_index_entry s.meta.head_block s) [
  | err e ↦ err nil_dereference
  | ok entry ↦ ok entry.timestamp
]

unfoldable pub choose_block : M ℕ
choose_block = do
  head ← reads head_timestamp
  head_block ← gets (λ s. s.meta.head_block)
  next_head ← gets (λ s. next_block s head_block)
  tail_block ← gets (λ s. s.meta.tail_block)
  (if head ==ℤ pos 0 then pure head_block else (do
    block_num ← (if next_head == tail_block then allocate_block else pure next_head)
    set_head block_num
    pure block_num))

unfoldable pub insert : ℤ → List ℕ → M ℕ
insert timestamp bs = do
  closed ← gets (λ s. s.closed)
  raise_if closed store_closed
  raise_if (leb_ℤ timestamp (pos 0)) invalid_timestamp
  c ← gets (λ s. s.config)
  raise_if (ltb (usable_per_block c) (len32 bs)) block_out_of_range
  block_num ← choose_block
  write_block_header block_num
      (record { timestamp = timestamp; data_len = len32 bs; flags = flag_primary; reserved = 0 })
  write_data (block_offset c block_num + block_header_size) bs
  write_index_entry block_num
      (record { timestamp = timestamp; block_num = block_num; reserved = 0 })
  write_meta_locked
  pure block_num
