-- ===== src/Store/Contents/First.antt =====
-- The first `PutObject` (pkg/store/object.go) into an empty store.
use ts_store.Prelude.{◌%◌, ◌≤◌, ◌≡◌, refl, sym, ap, ◌∙◌, inr, true, false, [], arith, leb, le→leb}
use native.Mathlib.Nat.{mod-eq_of_lt}
use ts_store.Word.{add32}
use ts_store.File.{File, write_at}
use ts_store.Store.State.Errors.{ok, err, empty_store}
use ts_store.Store.State.Metadata
use ts_store.Store.State.Metadata.{StoreMetadata}
use ts_store.Store.State.{Store}
use ts_store.Store.Valid.{IsValid}
use ts_store.Store.Freelist.{is_first_insert}
use ts_store.Store.Freelist.Allocate.{Allocated, reuse_first}
use ts_store.Store.Packed.{len32, usable_per_block, can_fit_in_current_block, write_to_new_block}
use ts_store.Store.Packed.Contents.{Object, IsStorable, end_of}
use ts_store.Store.Packed.NewBlock.{Started, new_handle, write_to_new_block-Started}
use ts_store.Store.Index.{get_newest_timestamp_locked}
use ts_store.Store.Objects.{place_object, is_out_of_order, get_object}
use ts_store.Store.Contents.{Packs, Stores, altered}
use ts_store.Store.Contents.Chains.{get_object-Chain}
use ts_store.Store.Contents.Put.{StoredAs, put_runs, handle_new}

-- An open store that was never written.
pub record IsEmpty (s : Store) : Type 0 where
  pub valid : IsValid s
  pub is_open : s.closed ≡ false
  pub head : s.meta.head_block ≡ s.meta.tail_block
  pub unwritten : s.meta.write_offset ≡ 0
  pub first : is_first_insert s ≡ ok true
  pub no_newest : get_newest_timestamp_locked s ≡ err empty_store

module _ (s : Store) (e : IsEmpty s) (new : Object) (t : IsStorable new)
    (room : end_of 24 new ≤ s.config.data_block_size) where
  abbrev place : Allocated s
  place = reuse_first s e.valid e.first

  started : Started s new place
  started = write_to_new_block-Started s new t (omega (arith, e.valid.size_fits)) place

  abbrev meta_after : StoreMetadata
  meta_after = record (s.meta) {
    head_block = place.block;
    tail_block = place.tail;
    write_offset = end_of 24 new;
  }

  abbrev after : File → Store
  after mf = altered s meta_after started.file started.index mf

  in_order : is_out_of_order new.timestamp s ≡ false
  unfolding is_out_of_order
  in_order = rw (e.no_newest, is_out_of_order) refl

  placed : place_object new.timestamp new.bytes s ≡ write_to_new_block new.timestamp new.bytes s
  unfolding place_object can_fit_in_current_block
  placed =
      let usable : leb (add32 24 (len32 new.bytes)) (usable_per_block s.config) ≡ true =
        le→leb _ _ (omega (arith, e.valid.size_fits)) in
      rw (e.unwritten, usable) refl

  abbrev first_packs : Packs
  first_packs = record { older = []; current = record { first = new; rest = [] } }

  stores : (mf : File) → Stores (after mf) first_packs
  unfolding reuse_first
  stores mf = record {
    valid = record {
      config_agrees = e.valid.config_agrees;
      some_blocks = e.valid.some_blocks;
      blocks_fit = e.valid.blocks_fit;
      size_least = e.valid.size_least;
      size_fits = e.valid.size_fits;
      head_in = e.valid.head_in;
      tail_in = e.valid.tail_in;
      data_allocated = omega (arith, e.valid.data_allocated, started.file_grows);
      index_allocated = omega (arith, e.valid.index_allocated, started.index_grows);
      offset_in = room;
      offset_out = inr (omega arith);
    };
    is_open = e.is_open;
    older = tt;
    current = record {
      holds = record { header = started.holds.header; chain = started.holds.chain };
      inside = room;
      entry = started.entry;
    };
    head =
        e.head ∙ sym (mod-eq_of_lt e.valid.tail_in) ∙ ap (λ k. k % s.meta.num_blocks) (omega arith);
    count = e.valid.some_blocks;
  }

  -- The first object in an empty store, if its timestamp is positive and it fits in one block, is
  -- stored, is then all that the store holds, and is read by its handle.
  pub put_object_first :
      StoredAs s new (record { older = []; current = record { first = new; rest = [] } })
  unfolding reuse_first
  put_object_first =
      let mf = write_at s.meta_file 0 (Metadata.encode meta_after) in
      record {
        handle = new_handle place.block new.timestamp new.bytes;
        after = after mf;
        runs = put_runs s new _ _ e.is_open t.positive in_order (placed ∙ started.runs);
        stores = stores mf;
        reads =
            ap (λ h. get_object h (after mf)) (sym (handle_new new t place.block))
            ∙ get_object-Chain (after mf) place.block [] new [] (end_of 24 new) e.is_open room
                e.valid.size_fits (stores mf).current.holds.chain;
        timestamp = refl;
        blocks = refl;
        size = refl;
      }
