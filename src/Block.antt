-- ===== src/Block.antt =====
-- pkg/block/block.go: the records that lie on disk, with their flags and byte layout (the children),
-- and the arithmetic of block sizes.
pub mod BlockHeader
pub mod ObjectHeader
pub mod IndexEntry
use ts_store.Prelude.{ℕ, ◌/◌, bit_and, Bool, true, false, not, ltb, ◌==◌, if◌then◌else◌}
use ts_store.Word.{sub32}

abbrev pub block_header_size : ℕ
block_header_size = 24

abbrev pub min_block_size : ℕ
min_block_size = 64

abbrev pub object_header_size : ℕ
object_header_size = 24

abbrev pub index_entry_size : ℕ
index_entry_size = 16

-- `ValidateBlockSize`: true where the Go function returns nil.
unfoldable pub validate_block_size : ℕ → Bool
validate_block_size size =
    if ltb size min_block_size
    then false
    else if not (bit_and size (sub32 size 1) == 0)
    then false
    else true

abbrev pub usable_data_size : ℕ → ℕ
usable_data_size size = sub32 size block_header_size

abbrev pub index_entries_per_block : ℕ → ℕ
index_entries_per_block size = size / index_entry_size
