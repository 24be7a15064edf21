-- ===== src/Store/Recovery.antt =====
-- pkg/store/recovery.go: what `Open` repairs after a crash.
pub mod Crash
pub mod LostHead
use ts_store.Prelude.{ℕ, zero, suc, Bool, true, false, not, ◌&&◌, ◌==◌, if◌then◌else◌}
use ts_store.Prelude.Int.{pos, ◌==ℤ◌}
use ts_store.Word.{add32}
use ts_store.Block.{block_header_size}
use ts_store.Block.BlockHeader
use ts_store.Block.BlockHeader.{BlockHeader}
use ts_store.Store.State.Errors
use ts_store.Store.State.Errors.{Result, ok, err}
use ts_store.Store.State.{
  Store, M, pure, gets, ◌>>=◌, ◌>>◌, set_head, set_tail, set_write_offset, read_block_header,
  write_meta_locked,
}
use ts_store.Store.Freelist.{next_block}

abbrev pub is_blank : BlockHeader → Bool
is_blank h = h.data_len == 0 && h.flags == 0

-- The loop of `findOrphanedHead`, with `rounds` scans left.
unfoldable pub scan_orphans : ℕ → ℕ → Store → ℕ
scan_orphans zero current s = current
scan_orphans (suc rounds) current s = elim (next_block s current == s.meta.tail_block) [
  | true ↦ current
  | false ↦ elim (read_block_header (next_block s current) s) [
    | err e ↦ current
    | ok header ↦ elim (is_blank header) [
      | true ↦ current
      | false ↦ scan_orphans rounds (next_block s current) s
    ]
  ]
]

unfoldable pub find_orphaned_head : Store → ℕ
find_orphaned_head s = elim (read_block_header s.meta.head_block s) [
  | err e ↦ s.meta.head_block
  | ok header ↦ elim (is_blank header) [
    | true ↦ s.meta.head_block
    | false ↦ scan_orphans s.meta.num_blocks s.meta.head_block s
  ]
]

-- The loop of `fixTailPointer`, with `rounds` scans left.
unfoldable pub fix_tail_from : ℕ → M (Unit {0})
fix_tail_from zero s = (ok tt, s)
fix_tail_from (suc rounds) s = elim (s.meta.tail_block == s.meta.head_block) [
  | true ↦ (ok tt, s)
  | false ↦ elim (read_block_header s.meta.tail_block s) [
    | err e ↦ (err e, s)
    | ok header ↦ elim (BlockHeader.is_continuation header) [
      | true ↦ fix_tail_from rounds (set_tail (next_block s s.meta.tail_block) s).1
      | false ↦ (ok tt, s)
    ]
  ]
]

unfoldable pub fix_tail_pointer : M (Unit {0})
fix_tail_pointer s = fix_tail_from s.meta.num_blocks s

unfoldable pub fix_write_offset : M (Unit {0})
fix_write_offset s = elim (read_block_header s.meta.head_block s) [
  | err e ↦ (ok tt, s)
  | ok header ↦ elim (is_blank header) [
    | true ↦ set_write_offset 0 s
    | false ↦
        (if BlockHeader.is_packed header && not (BlockHeader.is_continuation header)
            then set_write_offset (add32 block_header_size header.data_len)
            else pure tt)
          s
  ]
]

unfoldable pub recover_from_crash : M (Unit {0})
recover_from_crash = do
  head_block ← gets (λ s. s.meta.head_block)
  orphaned_head ← gets find_orphaned_head
  set_head orphaned_head
  fix_tail_pointer
  fix_write_offset
  (if orphaned_head == head_block then pure tt else write_meta_locked)

-- `isBlockEmpty`
unfoldable pub is_block_empty : ℕ → Store → Result Bool
is_block_empty block_num s =
    Errors.◌>>=◌ (read_block_header block_num s)
      λ header. ok ((header.data_len == 0 && header.flags == 0) && header.timestamp ==ℤ pos 0)
