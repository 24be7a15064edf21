-- ===== src/Store/Objects/Delete.antt =====
-- Deletion: `DeleteObject` and `DeleteObjectByTime` of pkg/store/object.go, and
-- `adjustTailAfterReclaim` of pkg/store/insert.go.
use ts_store.Prelude.{ℕ, zero, suc, true, false, ◌==◌, if◌then◌else◌}
use ts_store.Prelude.Int.{ℤ, pos, ◌==ℤ◌}
use ts_store.Store.State.Errors.{ok, err, out_of_fuel, store_closed, timestamp_not_found}
use ts_store.Store.State.{
  M, fail, reads, gets, raise_if, ◌>>=◌, ◌>>◌, set_tail, read_index_entry, write_meta_locked,
}
use ts_store.Store.Freelist.{next_block, clear_index_entry}
use ts_store.Store.Packed.{ObjectHandle}
use ts_store.Store.Index.{find_block_by_time_locked}

-- The loop moves the tail on past empty entries.
unfoldable pub adjust_tail_from : ℕ → M (Unit {0})
adjust_tail_from zero s = (err out_of_fuel, s)
adjust_tail_from (suc fuel) s = elim (read_index_entry s.meta.tail_block s) [
  | err e ↦ (ok tt, s)
  | ok entry ↦ elim (entry.timestamp ==ℤ pos 0) [
    | false ↦ (ok tt, s)
    | true ↦ elim (next_block s s.meta.tail_block == s.meta.head_block) [
      | true ↦ (ok tt, s)
      | false ↦ adjust_tail_from fuel (set_tail (next_block s s.meta.tail_block) s).1
    ]
  ]
]

unfoldable pub adjust_tail_after_reclaim : M (Unit {0})
adjust_tail_after_reclaim s = adjust_tail_from (suc s.meta.num_blocks) s

unfoldable pub delete_object : ObjectHandle → M (Unit {0})
delete_object handle = do
  closed ← gets (λ s. s.closed)
  raise_if closed store_closed
  clear_index_entry handle.block_num
  adjust_tail_after_reclaim
  write_meta_locked

unfoldable pub delete_object_by_time : ℤ → M (Unit {0})
delete_object_by_time timestamp = do
  closed ← gets (λ s. s.closed)
  raise_if closed store_closed
  block_num ← reads (find_block_by_time_locked timestamp)
  entry ← reads (read_index_entry block_num)
  (if entry.timestamp ==ℤ timestamp
      then (do clear_index_entry block_num; adjust_tail_after_reclaim; write_meta_locked)
      else fail timestamp_not_found)
