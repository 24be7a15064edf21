-- ===== src/Store/Freelist.antt =====
-- pkg/store/freelist.go, and `allocateNextBlock` of pkg/store/packed.go: which block is written
-- next, and how the oldest one is reclaimed when the circle is full.
pub mod Skip
pub mod Allocate
use ts_store.Prelude.{ℕ, zero, suc, ◌%◌, Bool, true, false, ◌&&◌, ◌==◌, if◌then◌else◌}
use ts_store.Prelude.Int.{pos, ◌==ℤ◌}
use ts_store.Word.{add32}
use ts_store.Block.BlockHeader
use ts_store.Block.BlockHeader.{BlockHeader}
use ts_store.Block.IndexEntry.{IndexEntry}
use ts_store.Store.State.Errors.{Result, ok, err, out_of_fuel, nil_dereference}
use ts_store.Store.State.{
  Store, M, pure, reads, gets, ◌>>=◌, ◌>>◌, set_tail, read_block_header, write_block_header,
  read_index_entry, write_index_entry,
}

-- `(b + 1) % s.meta.NumBlocks`
abbrev pub next_block : Store → ℕ → ℕ
next_block s b = add32 b 1 % s.meta.num_blocks

abbrev pub empty_entry : ℕ → IndexEntry
empty_entry b = record { timestamp = pos 0; block_num = b; reserved = 0 }

abbrev pub clear_header : BlockHeader
clear_header = record { timestamp = pos 0; data_len = 0; flags = 0; reserved = 0 }

unfoldable pub clear_index_entry : ℕ → M (Unit {0})
clear_index_entry b = write_index_entry b (empty_entry b)

-- The loop of `reclaimOldestBlock`: the tail moves on past continuation blocks, at most to the head.
unfoldable pub skip_continuations : ℕ → M (Unit {0})
skip_continuations zero s = (err out_of_fuel, s)
skip_continuations (suc fuel) s = elim (s.meta.tail_block == s.meta.head_block) [
  | true ↦ (ok tt, s)
  | false ↦ elim (read_block_header s.meta.tail_block s) [
    | err e ↦ (ok tt, s)
    | ok h ↦ elim (BlockHeader.is_continuation h) [
      | false ↦ (ok tt, s)
      | true ↦
          let cleared = (clear_index_entry s.meta.tail_block s).1 in
          skip_continuations fuel (set_tail (next_block s s.meta.tail_block) cleared).1
    ]
  ]
]

unfoldable pub reclaim_oldest_block : M ℕ
reclaim_oldest_block = do
  tail_block ← gets (λ s. s.meta.tail_block)
  clear_index_entry tail_block
  next_tail ← gets (λ s. next_block s tail_block)
  set_tail next_tail
  num_blocks ← gets (λ s. s.meta.num_blocks)
  skip_continuations (suc num_blocks)
  write_block_header tail_block clear_header
  pure tail_block

unfoldable pub allocate_block : M ℕ
allocate_block = reclaim_oldest_block

-- "Truly empty block": the first insert ever. A failed read leaves a nil pointer, which the code
-- then follows.
unfoldable pub is_first_insert : Store → Result Bool
is_first_insert s = elim (read_index_entry s.meta.head_block s) [
  | err e ↦ err nil_dereference
  | ok entry ↦ elim (entry.timestamp ==ℤ pos 0) [
    | false ↦ ok false
    | true ↦ elim (read_block_header s.meta.head_block s) [
      | err e ↦ err nil_dereference
      | ok header ↦ ok (header.data_len == 0 && header.flags == 0)
    ]
  ]
]

unfoldable pub allocate_next_block : M ℕ
allocate_next_block = do
  first ← reads is_first_insert
  head_block ← gets (λ s. s.meta.head_block)
  next_head ← gets (λ s. next_block s head_block)
  tail_block ← gets (λ s. s.meta.tail_block)
  if first
      then pure head_block
      else (if next_head == tail_block then allocate_block else pure next_head)
