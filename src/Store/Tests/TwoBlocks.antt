-- ===== src/Store/Tests/TwoBlocks.antt =====
-- The small store after an object that takes the next block.
use mathlib.Core.Path.{subst}
use ts_store.Prelude.{ℕ, ◌≡◌, refl, sym, ap, arith, inr, false}
use ts_store.Prelude.Int.{pos}
use ts_store.Word.{le_bytes, le_value}
use ts_store.File.{read_at, write_at, allocate}
use ts_store.Block.BlockHeader
use ts_store.Block.IndexEntry
use ts_store.Block.ObjectHeader
use ts_store.Store.State.Errors.{ok}
use ts_store.Store.State.Metadata
use ts_store.Store.State.{
  Store, read_block_header, write_block_header, read_index_entry, write_index_entry,
  write_object_header, write_data, write_meta_locked,
}
use ts_store.Store.Freelist.{allocate_next_block, is_first_insert}
use ts_store.Store.Packed.{write_to_new_block, can_fit_in_current_block}
use ts_store.Store.Packed.Contents.{Object, IsStorable}
use ts_store.Store.Index.{get_newest_timestamp_locked, timestamp_of_block}
use ts_store.Store.Objects.{put_object, is_out_of_order, place_object}
use ts_store.Store.Contents.{Packs, Stores}
use ts_store.Store.Contents.Put.{Stored, put_object-Stored}
use ts_store.Store.Lifecycle.{
  data_file_size, index_file_size, opened, open_store, read_metadata, magic_number, version,
}
use ts_store.Store.Index.{entry_at, active_block_count, find_blocks_in_range, block_num_from_offset}
use ts_store.Store.Index.Search.{IsSorted}
use ts_store.Store.Index.Range.{blocks_in_range, find_blocks_in_range-IsSorted}
use ts_store.Block.IndexEntry.{IndexEntry}
use ts_store.Prelude.{ℕ, ◌<◌, ◌≤◌, zero}
use ts_store.Prelude.Int.{◌≤ℤ◌}
use ts_store.Store.Contents.Spec.{put}
use ts_store.Store.Contents.{address}
use ts_store.Store.State.Metadata.{zeros}
use ts_store.Prelude.{suc, length}
use ts_store.Store.Recovery.LostHead.{open_store-lost_head}
use ts_store.Store.Recovery.Crash.{IsClean}
use ts_store.Store.Tests.{with_one, packs_one, with_one-Stores, with_one-size}

-- An object that takes the next block.
abbrev large : Object
large = record { timestamp = pos 9; bytes = zeros 60 }

large-IsStorable : IsStorable large
large-IsStorable = record { typed = omega arith; positive = omega arith; short = omega arith }

abbrev with_two : Store
with_two = (put_object large.timestamp large.bytes with_one).1

abbrev packs_two : Packs
packs_two = put 4 128 large packs_one

two-Stored : Stored with_one packs_one large
two-Stored =
    put_object-Stored with_one packs_one large with_one-Stores large-IsStorable
      (omega (arith, with_one-size)) (omega arith)

with_two-Stores : Stores with_two packs_two
unfolding put_object is_out_of_order place_object can_fit_in_current_block write_to_new_block
    allocate_next_block is_first_insert get_newest_timestamp_locked timestamp_of_block
    read_index_entry read_block_header write_block_header write_index_entry write_object_header
    write_data write_meta_locked read_at write_at allocate data_file_size index_file_size
    IndexEntry.decode BlockHeader.decode le_value IndexEntry.encode BlockHeader.encode
    ObjectHeader.encode le_bytes Metadata.encode read_metadata Metadata.decode put
with_two-Stores =
    subst (λ s. Stores s packs_two) (sym (ap (λ r. r.1) two-Stored.runs)) two-Stored.stores

with_two-IsClean :
    IsClean (opened with_two.data_file with_two.index_file with_two.meta_file with_two.meta)
unfolding put_object is_out_of_order place_object can_fit_in_current_block write_to_new_block
    allocate_next_block is_first_insert get_newest_timestamp_locked timestamp_of_block
    read_index_entry read_block_header write_block_header write_index_entry write_object_header
    write_data write_meta_locked read_at write_at allocate data_file_size index_file_size
    IndexEntry.decode BlockHeader.decode le_value IndexEntry.encode BlockHeader.encode
    ObjectHeader.encode le_bytes Metadata.encode read_metadata Metadata.decode put
with_two-IsClean =
    inr (record { timestamp = pos 0; data_len = 0; flags = 0; reserved = 0 }, refl, refl)

with_two-older : suc 0 ≡ length packs_two.older
unfolding put_object is_out_of_order place_object can_fit_in_current_block write_to_new_block
    allocate_next_block is_first_insert get_newest_timestamp_locked timestamp_of_block
    read_index_entry read_block_header write_block_header write_index_entry write_object_header
    write_data write_meta_locked read_at write_at allocate data_file_size index_file_size
    IndexEntry.decode BlockHeader.decode le_value IndexEntry.encode BlockHeader.encode
    ObjectHeader.encode le_bytes Metadata.encode read_metadata Metadata.decode put
with_two-older = refl

with_two-magic : with_two.meta.magic ≡ magic_number
unfolding put_object is_out_of_order place_object can_fit_in_current_block write_to_new_block
    allocate_next_block is_first_insert get_newest_timestamp_locked timestamp_of_block
    read_index_entry read_block_header write_block_header write_index_entry write_object_header
    write_data write_meta_locked read_at write_at allocate data_file_size index_file_size
    IndexEntry.decode BlockHeader.decode le_value IndexEntry.encode BlockHeader.encode
    ObjectHeader.encode le_bytes Metadata.encode read_metadata Metadata.decode put
with_two-magic = refl

with_two-version : with_two.meta.version ≡ version
unfolding put_object is_out_of_order place_object can_fit_in_current_block write_to_new_block
    allocate_next_block is_first_insert get_newest_timestamp_locked timestamp_of_block
    read_index_entry read_block_header write_block_header write_index_entry write_object_header
    write_data write_meta_locked read_at write_at allocate data_file_size index_file_size
    IndexEntry.decode BlockHeader.decode le_value IndexEntry.encode BlockHeader.encode
    ObjectHeader.encode le_bytes Metadata.encode read_metadata Metadata.decode put
with_two-version = refl

opened_two-Stores :
    Stores
      (opened with_two.data_file with_two.index_file with_two.meta_file with_two.meta)
      packs_two
unfolding put_object is_out_of_order place_object can_fit_in_current_block write_to_new_block
    allocate_next_block is_first_insert get_newest_timestamp_locked timestamp_of_block
    read_index_entry read_block_header write_block_header write_index_entry write_object_header
    write_data write_meta_locked read_at write_at allocate data_file_size index_file_size
    IndexEntry.decode BlockHeader.decode le_value IndexEntry.encode BlockHeader.encode
    ObjectHeader.encode le_bytes Metadata.encode read_metadata Metadata.decode put
opened_two-Stores = with_two-Stores

-- The metadata as the first object left it.
first_meta :
    read_metadata with_one.meta_file
    ≡ ok (record (with_two.meta) {
      head_block =
          address
            (opened with_two.data_file with_two.index_file with_two.meta_file with_two.meta)
            0;
      write_offset = 51;
    })
unfolding put_object is_out_of_order place_object can_fit_in_current_block write_to_new_block
    allocate_next_block is_first_insert get_newest_timestamp_locked timestamp_of_block
    read_index_entry read_block_header write_block_header write_index_entry write_object_header
    write_data write_meta_locked read_at write_at allocate data_file_size index_file_size
    IndexEntry.decode BlockHeader.decode le_value IndexEntry.encode BlockHeader.encode
    ObjectHeader.encode le_bytes Metadata.encode read_metadata Metadata.decode put
first_meta = refl

open_store-lost_head_example :
    open_store with_two.data_file with_two.index_file with_one.meta_file
    ≡ ok (
        opened with_two.data_file with_two.index_file
          (write_at with_one.meta_file 0 (Metadata.encode with_two.meta))
          with_two.meta)
open_store-lost_head_example =
    open_store-lost_head with_two.data_file with_two.index_file with_two.meta_file
      with_one.meta_file with_two.meta packs_two 51 0 opened_two-Stores with_two-IsClean
      with_two-older with_two-magic with_two-version first_meta

abbrev two_entries : ℕ → IndexEntry
two_entries zero = record { timestamp = pos 5; block_num = 0; reserved = 0 }
two_entries (suc i) = record { timestamp = pos 9; block_num = 1; reserved = 0 }

two_entries-read : (i : ℕ) → i < 2 → entry_at with_two i ≡ ok (two_entries i)
unfolding put_object is_out_of_order place_object can_fit_in_current_block write_to_new_block
    allocate_next_block is_first_insert get_newest_timestamp_locked timestamp_of_block
    read_index_entry read_block_header write_block_header write_index_entry write_object_header
    write_data write_meta_locked read_at write_at allocate data_file_size index_file_size
    IndexEntry.decode BlockHeader.decode le_value IndexEntry.encode BlockHeader.encode
    ObjectHeader.encode le_bytes Metadata.encode read_metadata Metadata.decode put
    block_num_from_offset
two_entries-read zero lt = refl
two_entries-read (suc zero) lt = refl
two_entries-read (suc (suc i)) lt = absurd (omega (arith, lt))

two_entries-sorted :
    (i j : ℕ) → i ≤ j → j < 2 → (two_entries i).timestamp ≤ℤ (two_entries j).timestamp
two_entries-sorted zero zero le lt = omega arith
two_entries-sorted zero (suc j) le lt = omega arith
two_entries-sorted (suc i) zero le lt = absurd (omega (arith, le))
two_entries-sorted (suc i) (suc j) le lt = omega arith

with_two-IsSorted : IsSorted with_two 2 two_entries
with_two-IsSorted = record {
  reads = two_entries-read;
  sorted = two_entries-sorted;
  small = omega arith;
}

with_two-active : active_block_count with_two ≡ 2
unfolding put_object is_out_of_order place_object can_fit_in_current_block write_to_new_block
    allocate_next_block is_first_insert get_newest_timestamp_locked timestamp_of_block
    read_index_entry read_block_header write_block_header write_index_entry write_object_header
    write_data write_meta_locked read_at write_at allocate data_file_size index_file_size
    IndexEntry.decode BlockHeader.decode le_value IndexEntry.encode BlockHeader.encode
    ObjectHeader.encode le_bytes Metadata.encode read_metadata Metadata.decode put
    active_block_count
with_two-active = refl

with_two-is_open : with_two.closed ≡ false
unfolding put_object is_out_of_order place_object can_fit_in_current_block write_to_new_block
    allocate_next_block is_first_insert get_newest_timestamp_locked timestamp_of_block
    read_index_entry read_block_header write_block_header write_index_entry write_object_header
    write_data write_meta_locked read_at write_at allocate data_file_size index_file_size
    IndexEntry.decode BlockHeader.decode le_value IndexEntry.encode BlockHeader.encode
    ObjectHeader.encode le_bytes Metadata.encode read_metadata Metadata.decode put
with_two-is_open = refl

find_blocks_in_range-IsSorted_example :
    find_blocks_in_range (pos 6) (pos 20) with_two
    ≡ ok (blocks_in_range with_two two_entries (pos 6) (pos 20) 2 0)
find_blocks_in_range-IsSorted_example =
    find_blocks_in_range-IsSorted with_two 1 two_entries (pos 6) (pos 20) with_two-is_open
      with_two-active with_two-IsSorted (omega arith)
