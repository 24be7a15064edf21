-- ===== src/Store/Lifecycle.antt =====
-- Creating, opening, closing and resetting a store: pkg/store/store.go and `Config` of
-- pkg/store/config.go. The files are created, opened and synced without fault.
pub mod Create
pub mod Close
use ts_store.Prelude.{
  ℕ, ◌+◌, ◌-◌, ◌*◌, ◌/◌, Bool, true, false, not, Option, none, some, ◌==◌, if◌then◌else◌,
}
use ts_store.Prelude.Int.{ℤ, pos, ◌==ℤ◌}
use ts_store.Prelude.Equality.{Bytes}
use ts_store.Strings.{is_empty}
use ts_store.File.{File, allocate, read_at, write_at}
use ts_store.Block.{validate_block_size, index_entries_per_block}
use ts_store.Store.State.Errors
use ts_store.Store.State.Errors.{
  Result, ok, err, store_closed, invalid_magic, version_mismatch, name_required, path_required,
  store_exists, invalid_num_blocks, invalid_block_size, io_eof,
}
use ts_store.Store.State.Metadata
use ts_store.Store.State.Metadata.{StoreMetadata, metadata_size, zeros}
use ts_store.Store.State.{
  Config, Store, M, gets, raise_if, ◌>>=◌, ◌>>◌, set_head, set_tail, set_write_offset, index_offset,
  read_index_entry, write_meta_locked,
}
use ts_store.Store.Index.{active_block_count}
use ts_store.Store.Recovery.{recover_from_crash}

abbrev pub magic_number : ℕ
magic_number = 0x545353544F524531

abbrev pub version : ℕ
version = 1

-- `Config.Validate`. The name and the path are no part of `Config` here, since only this and `Create` use them.
unfoldable pub validate : Bytes → Bytes → Config → Result (Unit {0})
validate name path c =
    if is_empty name
    then err name_required
    else if is_empty path
    then err path_required
    else if c.num_blocks == 0
    then err invalid_num_blocks
    else if not (validate_block_size c.data_block_size)
    then err invalid_block_size
    else if not (validate_block_size c.index_block_size)
    then err invalid_block_size
    else ok tt

unfoldable pub data_file_size : Config → ℕ
data_file_size c = c.num_blocks * c.data_block_size

unfoldable pub index_file_size : Config → ℕ
index_file_size c =
    let entries = index_entries_per_block c.index_block_size in
    (c.num_blocks + entries - 1) / entries * c.index_block_size

abbrev pub initial_metadata : Config → StoreMetadata
initial_metadata c = record {
  magic = magic_number;
  version = version;
  num_blocks = c.num_blocks;
  data_block_size = c.data_block_size;
  index_block_size = c.index_block_size;
  head_block = 0;
  tail_block = 0;
  write_offset = 0;
  data_type = c.data_type;
}

-- The files and the state that `Create` makes.
abbrev pub created : Config → Store
created c = record {
  config = c;
  meta = initial_metadata c;
  data_file = allocate (data_file_size c);
  index_file = allocate (index_file_size c);
  meta_file = write_at (allocate 0) 0 (Metadata.encode (initial_metadata c));
  closed = false;
}

-- `Create`; `exists` is whether `os.Stat` finds the directory of the store.
unfoldable pub create : Bool → Bytes → Bytes → Config → Result Store
create exists name path c =
    Errors.◌>>=◌ (validate name path c) λ _. if exists then err store_exists else ok (created c)

unfoldable pub read_metadata : File → Result StoreMetadata
read_metadata f = elim (read_at f 0 metadata_size) [
  | none ↦ err io_eof
  | some buf ↦ ok (Metadata.decode buf)
]

-- The state that `Open` builds before recovery.
abbrev pub opened : File → File → File → StoreMetadata → Store
opened data_file index_file meta_file m = record {
  config = record {
    num_blocks = m.num_blocks;
    data_block_size = m.data_block_size;
    index_block_size = m.index_block_size;
    data_type = m.data_type;
  };
  meta = m;
  data_file = data_file;
  index_file = index_file;
  meta_file = meta_file;
  closed = false;
}

-- `Open` on the three files of a store, up to the load of its schemas, which `SchemaStore.open_existing` adds.
unfoldable pub open_store : File → File → File → Result Store
open_store data_file index_file meta_file = Errors.◌>>=◌ (read_metadata meta_file) λ m.
    if not (m.magic == magic_number)
    then err invalid_magic
    else if not (m.version == version)
    then err version_mismatch
    else (let (r, s) = recover_from_crash (opened data_file index_file meta_file m) in
        elim r [ err e ↦ err e | ok _ ↦ ok s ])

unfoldable pub close : M (Unit {0})
close = do
  closed ← gets (λ s. s.closed)
  raise_if closed store_closed
  write_meta_locked
  (λ s. (ok tt, record s { closed = true }))

unfoldable pub reset : M (Unit {0})
reset = do
  closed ← gets (λ s. s.closed)
  raise_if closed store_closed
  set_head 0
  set_tail 0
  set_write_offset 0
  (λ s. (ok tt, record s { index_file = write_at s.index_file (index_offset 0) (zeros 16) }))
  write_meta_locked

-- `StoreStats`, without the block configuration and the formatted times. An end whose entry cannot
-- be read or is empty has no timestamp.
pub record StoreStats : Type 0 where
  pub head_block : ℕ
  pub tail_block : ℕ
  pub write_offset : ℕ
  pub active_blocks : ℕ
  pub oldest_timestamp : Option ℤ
  pub newest_timestamp : Option ℤ

abbrev pub stats_timestamp : ℕ → Store → Option ℤ
stats_timestamp block_num s = elim (read_index_entry block_num s) [
  | err e ↦ none
  | ok entry ↦ if entry.timestamp ==ℤ pos 0 then none else some entry.timestamp
]

unfoldable pub stats : Store → StoreStats
stats s = record {
  head_block = s.meta.head_block;
  tail_block = s.meta.tail_block;
  write_offset = s.meta.write_offset;
  active_blocks = active_block_count s;
  oldest_timestamp = stats_timestamp s.meta.tail_block s;
  newest_timestamp = stats_timestamp s.meta.head_block s;
}
