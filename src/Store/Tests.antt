-- ===== src/Store/Tests.antt =====
-- Runs of a small store, and the theorems' instances.
mod Reopened
mod TwoBlocks
use mathlib.Core.Path.{subst}
use ts_store.Prelude.{
  ℕ, List, none, some, ◌≡◌, refl, sym, ap, [], ◌∷◌, arith, map, ◌⊎◌, inr, ◌+◌, ◌%◌, true, false,
}
use ts_store.Prelude.Int.{pos, pos_part}
use ts_store.Word.{le_bytes, le_value}
use ts_store.File.{read_at, write_at, allocate}
use ts_store.Block.BlockHeader
use ts_store.Block.IndexEntry
use ts_store.Block.ObjectHeader
use ts_store.Store.State.Errors.{Err, store_exists, ok, err, store_closed, timestamp_out_of_order}
use ts_store.Store.State.Metadata
use ts_store.Store.State.{
  Config, Store, read_block_header, write_block_header, read_index_entry, write_index_entry,
  write_object_header, write_data, write_meta_locked,
}
use ts_store.Store.Freelist.{allocate_next_block, is_first_insert}
use ts_store.Store.Packed.{write_to_new_block, can_fit_in_current_block}
use ts_store.Store.Packed.Contents.{Object, IsStorable}
use ts_store.Store.Index.{get_newest_timestamp_locked, timestamp_of_block}
use ts_store.Store.Objects.{put_object, is_out_of_order, place_object, get_object}
use ts_store.Store.Objects.Query.{get_oldest_objects, get_newest_objects, get_objects_in_range}
use ts_store.Store.Json
use ts_store.Store.Json.Listing.{texts, get_oldest_json-texts}
use ts_store.Prelude.Outcome
use ts_store.Store.Contents.InRange.{AnswersFrom, get_objects_in_range-Stores}
use ts_store.Store.Contents.{Packs, Stores}
use ts_store.Store.Contents.Put.{Stored, StoredAs, put_object-Stored, put_object-out_of_order}
use ts_store.Store.Contents.First.{IsEmpty, put_object_first}
use ts_store.Store.Contents.Listing.{get_oldest_objects-Stores, handles, limited}
use mathlib.Core.List.{reverse}
use ts_store.Store.Contents.Newest.{get_newest_objects-Stores}
use ts_store.Store.Contents.Sequence.{Sequence, put_object-Sequence}
use ts_store.Store.Contents.Reading.{get_object-handles}
use ts_store.Store.Contents.Spec.{objects}
use ts_store.Store.Lifecycle.{
  created, data_file_size, index_file_size, opened, open_store, close, read_metadata, magic_number,
  version, validate, create,
}
use ts_store.Store.Lifecycle.Close.{close-open_store}
use ts_store.Store.Index.{entry_at, active_block_count, find_blocks_in_range, block_num_from_offset}
use ts_store.Store.Index.Search.{IsSorted}
use ts_store.Store.Index.Range.{blocks_in_range, find_blocks_in_range-IsSorted}
use ts_store.Block.IndexEntry.{IndexEntry}
use ts_store.Prelude.{ℕ, ◌<◌, ◌≤◌, zero}
use ts_store.Prelude.Int.{◌≤ℤ◌}
use ts_store.Store.Contents.Spec.{put}
use ts_store.Store.Contents.{address}
use ts_store.Store.State.Metadata.{zeros}
use ts_store.Prelude.{suc, length}
use ts_store.Store.Recovery.LostHead.{open_store-lost_head}
use ts_store.Store.Recovery.Crash.{IsClean, open_store-Stores}
use ts_store.Store.Freelist.Allocate.{Allocated, allocate_next_block-Allocated}
use ts_store.Store.Freelist.Skip.{Skipped, skip_total}
use ts_store.Store.Packed.Read.{scan_block_objects}
use ts_store.Store.Packed.Scan.{scan_block_objects-Holds, object_handles}
use ts_store.Store.Lifecycle.Create.{created-IsEmpty, created-IsValid, create-IsEmpty}

abbrev small : Config
small = record { num_blocks = 4; data_block_size = 128; index_block_size = 64; data_type = 0 }

abbrev empty : Store
empty = created small

abbrev one : Object
one = record { timestamp = pos 5; bytes = 7 ∷ 8 ∷ 9 ∷ [] }

abbrev two : Object
two = record { timestamp = pos 6; bytes = 1 ∷ 2 ∷ [] }

one-IsStorable : IsStorable one
one-IsStorable = record { typed = omega arith; positive = omega arith; short = omega arith }

two-IsStorable : IsStorable two
two-IsStorable = record { typed = omega arith; positive = omega arith; short = omega arith }

empty-IsEmpty : IsEmpty empty
empty-IsEmpty = created-IsEmpty small (
    created-IsValid small (omega arith) (omega arith)
      (record { some_blocks = omega arith; data_least = omega arith; index_least = omega arith }))

-- The store after its first object.
abbrev pub with_one : Store
with_one = (put_object one.timestamp one.bytes empty).1

abbrev pub packs_one : Packs
packs_one = record { older = []; current = record { first = one; rest = [] } }

first_stored : StoredAs empty one packs_one
first_stored = put_object_first empty empty-IsEmpty one one-IsStorable (omega arith)

pub with_one-Stores : Stores with_one packs_one
with_one-Stores =
    subst (λ s. Stores s packs_one) (sym (ap (λ r. r.1) first_stored.runs)) first_stored.stores

with_one-size : with_one.config.data_block_size ≡ 128
unfolding put_object is_out_of_order place_object can_fit_in_current_block write_to_new_block
    allocate_next_block is_first_insert get_newest_timestamp_locked timestamp_of_block
    read_index_entry read_block_header write_block_header write_index_entry write_object_header
    write_data write_meta_locked read_at write_at allocate data_file_size index_file_size
    IndexEntry.decode BlockHeader.decode le_value IndexEntry.encode BlockHeader.encode
    ObjectHeader.encode le_bytes Metadata.encode
with_one-size = refl

pub with_one-blocks : with_one.meta.num_blocks ≡ 4
unfolding put_object is_out_of_order place_object can_fit_in_current_block write_to_new_block
    allocate_next_block is_first_insert get_newest_timestamp_locked timestamp_of_block
    read_index_entry read_block_header write_block_header write_index_entry write_object_header
    write_data write_meta_locked read_at write_at allocate data_file_size index_file_size
    IndexEntry.decode BlockHeader.decode le_value IndexEntry.encode BlockHeader.encode
    ObjectHeader.encode le_bytes Metadata.encode
with_one-blocks = refl

with_one-tail : (with_one.meta.tail_block + 0) % with_one.meta.num_blocks ≡ with_one.meta.head_block
unfolding put_object is_out_of_order place_object can_fit_in_current_block write_to_new_block
    allocate_next_block is_first_insert get_newest_timestamp_locked timestamp_of_block
    read_index_entry read_block_header write_block_header write_index_entry write_object_header
    write_data write_meta_locked read_at write_at allocate data_file_size index_file_size
    IndexEntry.decode BlockHeader.decode le_value IndexEntry.encode BlockHeader.encode
    ObjectHeader.encode le_bytes Metadata.encode
with_one-tail = refl

put_object_first_example : StoredAs empty one packs_one
put_object_first_example = put_object_first empty empty-IsEmpty one one-IsStorable (omega arith)

put_object-Stored_example : Stored with_one packs_one two
put_object-Stored_example =
    put_object-Stored with_one packs_one two with_one-Stores two-IsStorable
      (omega (arith, with_one-size)) (omega arith)

put_object-out_of_order_example :
    put_object (pos 5) (4 ∷ []) with_one ≡ (err timestamp_out_of_order, with_one)
put_object-out_of_order_example =
    put_object-out_of_order with_one packs_one (pos 5) (4 ∷ []) with_one-Stores (omega arith)
      (omega arith)

get_oldest_objects-Stores_example :
    get_oldest_objects (pos 1) with_one ≡ ok (limited (pos 1) (handles with_one packs_one))
get_oldest_objects-Stores_example =
    get_oldest_objects-Stores with_one packs_one (pos 1) with_one-Stores
      (omega (arith, with_one-blocks))

get_objects_in_range-Stores_example :
    AnswersFrom with_one packs_one
      (pos 2)
      (pos 9)
      (pos 1)
      (get_objects_in_range (pos 20) (pos 2) (pos 9) (pos 1) with_one)
get_objects_in_range-Stores_example =
    get_objects_in_range-Stores with_one packs_one with_one-Stores (omega (arith, with_one-blocks))
      (omega arith) (pos 20) (pos 2) (pos 9) (pos 1) (omega arith)
      (λ e. absurd (omega (arith, ap pos_part e))) (λ e. absurd (omega (arith, ap pos_part e)))

-- Any bytes that are there count as a text.
abbrev any_text : Json.Codec
any_text = record {
  Value = List ℕ;
  marshal = λ bs. some bs;
  unmarshal = λ bs. some bs;
  raw = λ bs. elim bs [ [] ↦ none | b ∷ rest ↦ some (b ∷ rest) ];
}

get_oldest_json-texts_example :
    Json.get_oldest_json any_text (pos 1) with_one
    ≡ Outcome.done (
        texts any_text
          (limited (pos 1) (handles with_one packs_one))
          (limited (pos 1) (objects packs_one)))
get_oldest_json-texts_example =
    get_oldest_json-texts any_text with_one packs_one (pos 1) with_one-Stores
      (omega (arith, with_one-blocks))

get_object-handles_example :
    map (λ h. get_object h with_one) (handles with_one packs_one)
    ≡ map (λ o. ok o.bytes) (objects packs_one)
get_object-handles_example = get_object-handles with_one packs_one with_one-Stores

create-IsEmpty_example :
    ((e : Err) × (validate (97 ∷ []) (98 ∷ []) small ≡ err e)
      × (create false (97 ∷ []) (98 ∷ []) small ≡ err e))
    ⊎ (((validate (97 ∷ []) (98 ∷ []) small ≡ ok tt)
          × (false ≡ true)
          × (create false (97 ∷ []) (98 ∷ []) small ≡ err store_exists))
        ⊎ ((validate (97 ∷ []) (98 ∷ []) small ≡ ok tt)
            × (false ≡ false)
            × (s : Store) × (create false (97 ∷ []) (98 ∷ []) small ≡ ok s)
            × IsEmpty s))
create-IsEmpty_example = create-IsEmpty false (97 ∷ []) (98 ∷ []) small (omega arith) (omega arith)

allocate_next_block-Allocated_example : Allocated with_one
allocate_next_block-Allocated_example = allocate_next_block-Allocated with_one with_one-Stores.valid

skip_total_example : Skipped with_one 1
skip_total_example =
    skip_total 1 0 with_one (omega arith) (omega (arith, with_one-blocks))
      with_one-Stores.valid.tail_in with_one-tail

scan_block_objects-Holds_example :
    scan_block_objects with_one.meta.head_block with_one
    ≡ ok (object_handles with_one.meta.head_block 24 (one ∷ []))
scan_block_objects-Holds_example =
    scan_block_objects-Holds with_one with_one.meta.head_block one [] with_one.meta.write_offset
      with_one-Stores.current.inside with_one-Stores.valid.size_fits with_one-Stores.current.holds

get_newest_objects-Stores_example :
    get_newest_objects (pos 1) with_one
    ≡ ok (limited (pos 1) (reverse (handles with_one packs_one)))
get_newest_objects-Stores_example =
    get_newest_objects-Stores with_one packs_one 1 with_one-Stores (omega (arith, with_one-blocks))

put_object-Sequence_example : Sequence empty (one ∷ two ∷ []) (one ∷ two ∷ [])
put_object-Sequence_example =
    put_object-Sequence empty one (two ∷ []) empty-IsEmpty one-IsStorable (omega arith)
      (omega arith, two-IsStorable, omega arith, tt)
