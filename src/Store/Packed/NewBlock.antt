-- ===== src/Store/Packed/NewBlock.antt =====
-- `writeToNewBlock` of pkg/store/packed.go starts a block with one object.
use mathlib.Core.Path.{subst}
use ts_store.Prelude.{ℕ, ◌+◌, ◌^◌, ◌≤◌, ◌<◌, ◌≡◌, refl, ap, ◌∙◌, true, List, [], length, arith}
use ts_store.Prelude.Int.{ℤ}
use ts_store.Word.{add32, sub32}
use ts_store.File.{File, write_at}
use ts_store.Block.BlockHeader
use ts_store.Block.BlockHeader.{BlockHeader}
use ts_store.Block.ObjectHeader
use ts_store.Block.ObjectHeader.{ObjectHeader}
use ts_store.Block.IndexEntry
use ts_store.Block.IndexEntry.{IndexEntry}
use ts_store.Store.State.Errors.{ok}
use ts_store.Store.State.{
  Store, block_offset, index_offset, write_block_header, write_object_header, write_index_entry,
  write_data,
}
use ts_store.Store.State.Access.{
  At, Frame, At-write_at, Frame-trans, Frame-weaken, Frame-object_header, Frame-block_header,
  Frame-index_entry, write_at-Frame,
}
use ts_store.Store.Valid.{size-write_at}
use ts_store.Store.Freelist.{allocate_next_block}
use ts_store.Store.Freelist.Skip.{moved}
use ts_store.Store.Freelist.Allocate.{Allocated}
use ts_store.Store.Packed.{ObjectHandle, len32, new_object_header, write_to_new_block}
use ts_store.Store.Packed.Contents.{Object, IsStorable, end_of, header_of}
use ts_store.Store.Packed.Link.{with_data}
use ts_store.Store.Packed.Append.{Holds, packed_header}

abbrev pub new_handle : ℕ → ℤ → List ℕ → ObjectHandle
new_handle b timestamp bs = record {
  timestamp = timestamp;
  block_num = b;
  offset = 24;
  size = len32 bs;
  span_count = 1;
}

abbrev first_header : ℤ → List ℕ → BlockHeader
first_header timestamp bs = record {
  timestamp = timestamp;
  data_len = add32 24 (len32 bs);
  flags = 3;
  reserved = 0;
}

abbrev pub entry_of : ℤ → ℕ → IndexEntry
entry_of timestamp b = record { timestamp = timestamp; block_num = b; reserved = 0 }

abbrev headed : Store → File → ℕ → ℤ → List ℕ → File
headed s f b timestamp bs =
    write_at (write_at f (block_offset s.config b) (BlockHeader.encode (first_header timestamp bs)))
      (block_offset s.config b + 24) (ObjectHeader.encode (new_object_header timestamp (len32 bs)))

abbrev filled : Store → File → ℕ → ℤ → List ℕ → File
filled s f b timestamp bs = write_at (headed s f b timestamp bs) (block_offset s.config b + 48) bs

abbrev new_state : Store → ℕ → ℕ → File → File → ℤ → List ℕ → Store
new_state s b tail index f timestamp bs = record s {
  meta = record (s.meta) { head_block = b; tail_block = tail; write_offset = add32 48 (len32 bs) };
  index_file = write_at index (index_offset b) (IndexEntry.encode (entry_of timestamp b));
  data_file = filled s f b timestamp bs;
}

new_block_runs :
    (s : Store) (b tail : ℕ) (index f : File) (timestamp : ℤ) (bs : List ℕ)
    → allocate_next_block s ≡ (ok b, moved s tail index f)
    → write_to_new_block timestamp bs s
      ≡ (ok (new_handle b timestamp bs), new_state s b tail index f timestamp bs)
unfolding write_to_new_block write_object_header write_data write_block_header write_index_entry
new_block_runs s b tail index f timestamp bs allocated = ground (arith, allocated)

-- The state after a new block: head, tail, write offset, index and data have changed.
abbrev pub started_state : Store → ℕ → ℕ → ℕ → File → File → Store
started_state s b tail end index f = record s {
  meta = record (s.meta) { head_block = b; tail_block = tail; write_offset = end };
  index_file = index;
  data_file = f;
}

-- What starting a block with `new` has done.
pub record Started (s : Store) (new : Object) (place : Allocated s) : Type 0 where
  pub index : File
  pub file : File
  pub runs : write_to_new_block new.timestamp new.bytes s ≡ (
    ok (new_handle place.block new.timestamp new.bytes),
    started_state s place.block place.tail (end_of 24 new) index file,
  )
  pub holds : Holds (with_data s file) place.block new [] (end_of 24 new)
  pub frame :
      Frame s.data_file file
        (block_offset s.config place.block)
        (block_offset s.config place.block + end_of 24 new)
  pub entry :
      At index (index_offset place.block) (IndexEntry.encode (entry_of new.timestamp place.block))
  pub index_frame :
      Frame place.index index (index_offset place.block) (index_offset place.block + 16)
  pub file_grows : s.data_file.size ≤ file.size
  pub index_grows : s.index_file.size ≤ index.size

module _ (s : Store) (new : Object) (t : IsStorable new) (room : end_of 24 new < 2 ^ 32)
    (a : Allocated s) where
  abbrev base : ℕ
  base = block_offset s.config a.block

  len_eq : len32 new.bytes ≡ length new.bytes
  len_eq = omega arith

  abbrev headed_file : File
  headed_file = headed s a.file a.block new.timestamp new.bytes

  abbrev file_of : File
  file_of = filled s a.file a.block new.timestamp new.bytes

  abbrev head_file : File
  head_file = write_at a.file base (BlockHeader.encode (first_header new.timestamp new.bytes))

  Frame-bytes : Frame headed_file file_of (base + 48) (base + 48 + length new.bytes)
  Frame-bytes = write_at-Frame headed_file (base + 48) new.bytes

  Frame-object : Frame head_file headed_file (base + 24) (base + 24 + 24)
  Frame-object =
      Frame-object_header head_file (base + 24) (new_object_header new.timestamp (len32 new.bytes))

  header-At : At file_of base (BlockHeader.encode (packed_header new.timestamp (end_of 24 new)))
  header-At =
      subst
        (λ n.
          At file_of base
            (BlockHeader.encode (record (first_header new.timestamp new.bytes) { data_len = n })))
        data_len_eq
        (Frame-bytes base (BlockHeader.encode (first_header new.timestamp new.bytes))
          (omega (arith, BlockHeader.length-encode (first_header new.timestamp new.bytes)))
          (Frame-object base (BlockHeader.encode (first_header new.timestamp new.bytes))
            (omega (arith, BlockHeader.length-encode (first_header new.timestamp new.bytes)))
            (At-write_at a.file base (BlockHeader.encode (first_header new.timestamp new.bytes)))))
    where
      data_len_eq : add32 24 (len32 new.bytes) ≡ sub32 (end_of 24 new) 24
      data_len_eq = omega arith

  object-At : At file_of (base + 24) (ObjectHeader.encode (header_of true 24 new))
  object-At =
      subst (λ n. At file_of (base + 24) (ObjectHeader.encode (new_object_header new.timestamp n)))
        len_eq
        (Frame-bytes (base + 24)
          (ObjectHeader.encode (new_object_header new.timestamp (len32 new.bytes)))
          (omega
            (arith, ObjectHeader.length-encode (new_object_header new.timestamp (len32 new.bytes))))
          (At-write_at head_file (base + 24)
            (ObjectHeader.encode (new_object_header new.timestamp (len32 new.bytes)))))

  Frame-all : Frame s.data_file file_of base (base + end_of 24 new)
  Frame-all =
      Frame-trans s.data_file headed_file file_of base (base + end_of 24 new)
        (Frame-trans s.data_file head_file headed_file base (base + end_of 24 new)
          (Frame-trans s.data_file a.file head_file base (base + end_of 24 new)
            (Frame-weaken s.data_file a.file base (base + 24) _ _ (omega arith) (omega arith)
              a.frame)
            (Frame-weaken a.file head_file base (base + 24) _ _ (omega arith) (omega arith)
              (Frame-block_header a.file base (first_header new.timestamp new.bytes))))
          (Frame-weaken head_file headed_file (base + 24) (base + 24 + 24) _ _ (omega arith)
            (omega arith) Frame-object))
        (Frame-weaken headed_file file_of _ _ base (base + end_of 24 new) (omega arith)
          (omega arith) Frame-bytes)

  pub write_to_new_block-Started : Started s new a
  write_to_new_block-Started = record {
    index =
        write_at a.index (index_offset a.block)
          (IndexEntry.encode (entry_of new.timestamp a.block));
    file = file_of;
    runs =
        new_block_runs s a.block a.tail a.index a.file new.timestamp new.bytes a.runs
        ∙ ap
            (λ w. (
              ok (new_handle a.block new.timestamp new.bytes),
              started_state s a.block a.tail w
                  (write_at a.index (index_offset a.block)
                    (IndexEntry.encode (entry_of new.timestamp a.block)))
                  file_of,
            ))
            (omega arith);
    holds = record {
      header = header-At;
      chain = (object-At, At-write_at headed_file (base + 48) new.bytes, t, refl);
    };
    frame = Frame-all;
    entry = At-write_at a.index _ _;
    index_frame = Frame-index_entry a.index (index_offset a.block) (entry_of new.timestamp a.block);
    file_grows = omega (arith, a.file_grows, size-write_at);
    index_grows = omega (arith, a.index_grows, size-write_at);
  }
