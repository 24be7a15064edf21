-- ===== src/Store/Tests/Reopened.antt =====
-- The small store closed, or crashed, and opened again.
use mathlib.Core.Path.{subst}
use ts_store.Prelude.{◌≡◌, refl, arith, inr, false}
use ts_store.Prelude.Int.{pos}
use ts_store.Word.{le_bytes, le_value}
use ts_store.File.{read_at, write_at, allocate}
use ts_store.Block.BlockHeader
use ts_store.Block.IndexEntry
use ts_store.Block.ObjectHeader
use ts_store.Store.State.Errors.{ok, err, store_closed}
use ts_store.Store.State.Metadata
use ts_store.Store.State.{
  Store, read_block_header, write_block_header, read_index_entry, write_index_entry,
  write_object_header, write_data, write_meta_locked,
}
use ts_store.Store.Freelist.{allocate_next_block, is_first_insert}
use ts_store.Store.Packed.{write_to_new_block, can_fit_in_current_block}
use ts_store.Store.Index.{get_newest_timestamp_locked, timestamp_of_block}
use ts_store.Store.Objects.{put_object, is_out_of_order, place_object}
use ts_store.Store.Contents.{Stores}
use ts_store.Store.Lifecycle.{
  data_file_size, index_file_size, opened, open_store, close, read_metadata, magic_number, version,
}
use ts_store.Store.Lifecycle.Close.{close-open_store}
use ts_store.Block.IndexEntry.{IndexEntry}
use ts_store.Store.State.Metadata.{zeros}
use ts_store.Store.Recovery.Crash.{IsClean, open_store-Stores}
use ts_store.Store.Tests.{with_one, packs_one, with_one-Stores}

with_one-opened :
    with_one ≡ opened with_one.data_file with_one.index_file with_one.meta_file with_one.meta
unfolding put_object is_out_of_order place_object can_fit_in_current_block write_to_new_block
    allocate_next_block is_first_insert get_newest_timestamp_locked timestamp_of_block
    read_index_entry read_block_header write_block_header write_index_entry write_object_header
    write_data write_meta_locked read_at write_at allocate data_file_size index_file_size
    IndexEntry.decode BlockHeader.decode le_value IndexEntry.encode BlockHeader.encode
    ObjectHeader.encode le_bytes Metadata.encode
with_one-opened = refl

with_one-IsClean :
    IsClean (opened with_one.data_file with_one.index_file with_one.meta_file with_one.meta)
unfolding put_object is_out_of_order place_object can_fit_in_current_block write_to_new_block
    allocate_next_block is_first_insert get_newest_timestamp_locked timestamp_of_block
    read_index_entry read_block_header write_block_header write_index_entry write_object_header
    write_data write_meta_locked read_at write_at allocate data_file_size index_file_size
    IndexEntry.decode BlockHeader.decode le_value IndexEntry.encode BlockHeader.encode
    ObjectHeader.encode le_bytes Metadata.encode
with_one-IsClean =
    inr (record { timestamp = pos 0; data_len = 0; flags = 0; reserved = 0 }, refl, refl)

with_one-IsTyped : Metadata.IsTyped with_one.meta
unfolding put_object is_out_of_order place_object can_fit_in_current_block write_to_new_block
    allocate_next_block is_first_insert get_newest_timestamp_locked timestamp_of_block
    read_index_entry read_block_header write_block_header write_index_entry write_object_header
    write_data write_meta_locked read_at write_at allocate data_file_size index_file_size
    IndexEntry.decode BlockHeader.decode le_value IndexEntry.encode BlockHeader.encode
    ObjectHeader.encode le_bytes Metadata.encode
with_one-IsTyped = record {
  magic = omega arith;
  version = omega arith;
  num_blocks = omega arith;
  data_block_size = omega arith;
  index_block_size = omega arith;
  head_block = omega arith;
  tail_block = omega arith;
  write_offset = omega arith;
  data_type = omega arith;
}

with_one-magic : with_one.meta.magic ≡ magic_number
unfolding put_object is_out_of_order place_object can_fit_in_current_block write_to_new_block
    allocate_next_block is_first_insert get_newest_timestamp_locked timestamp_of_block
    read_index_entry read_block_header write_block_header write_index_entry write_object_header
    write_data write_meta_locked read_at write_at allocate data_file_size index_file_size
    IndexEntry.decode BlockHeader.decode le_value IndexEntry.encode BlockHeader.encode
    ObjectHeader.encode le_bytes Metadata.encode
with_one-magic = refl

with_one-version : with_one.meta.version ≡ version
unfolding put_object is_out_of_order place_object can_fit_in_current_block write_to_new_block
    allocate_next_block is_first_insert get_newest_timestamp_locked timestamp_of_block
    read_index_entry read_block_header write_block_header write_index_entry write_object_header
    write_data write_meta_locked read_at write_at allocate data_file_size index_file_size
    IndexEntry.decode BlockHeader.decode le_value IndexEntry.encode BlockHeader.encode
    ObjectHeader.encode le_bytes Metadata.encode
with_one-version = refl

opened_one-Stores :
    Stores
      (opened with_one.data_file with_one.index_file with_one.meta_file with_one.meta)
      packs_one
opened_one-Stores = subst (λ s. Stores s packs_one) with_one-opened with_one-Stores

close-open_store_example :
    (s : Store) × (close
        (opened with_one.data_file with_one.index_file with_one.meta_file with_one.meta)
      ≡ (ok tt, s))
    × (close s ≡ (err store_closed, s))
    × (open_store s.data_file s.index_file s.meta_file ≡ ok (record s { closed = false }))
close-open_store_example =
    close-open_store with_one.data_file with_one.index_file with_one.meta_file with_one.meta
      packs_one opened_one-Stores with_one-IsClean with_one-IsTyped with_one-magic with_one-version

stale_meta :
    read_metadata
      (write_at (allocate 0) 0 (Metadata.encode (record (with_one.meta) { write_offset = 0 })))
    ≡ ok (record (with_one.meta) { write_offset = 0 })
unfolding put_object is_out_of_order place_object can_fit_in_current_block write_to_new_block
    allocate_next_block is_first_insert get_newest_timestamp_locked timestamp_of_block
    read_index_entry read_block_header write_block_header write_index_entry write_object_header
    write_data write_meta_locked read_at write_at allocate data_file_size index_file_size
    IndexEntry.decode BlockHeader.decode le_value IndexEntry.encode BlockHeader.encode
    ObjectHeader.encode le_bytes Metadata.encode read_metadata Metadata.decode
stale_meta = refl

-- A crash before the metadata says where the next object goes.
open_store-Stores_example :
    open_store with_one.data_file with_one.index_file
      (write_at (allocate 0) 0 (Metadata.encode (record (with_one.meta) { write_offset = 0 })))
    ≡ ok (
        opened with_one.data_file with_one.index_file
          (write_at (allocate 0) 0 (Metadata.encode (record (with_one.meta) { write_offset = 0 })))
          with_one.meta)
open_store-Stores_example =
    open_store-Stores with_one.data_file with_one.index_file with_one.meta_file
      (write_at (allocate 0) 0 (Metadata.encode (record (with_one.meta) { write_offset = 0 })))
      with_one.meta packs_one 0 opened_one-Stores with_one-IsClean with_one-magic with_one-version
      stale_meta
