-- ===== src/Store/Contents/Append.antt =====
-- `appendToCurrentBlock` of pkg/store/packed.go keeps the abstract view of a store.
use ts_store.Prelude.{◌+◌, ◌%◌, ◌≤◌, ap, inr, [], ◌∷◌, ◌++◌, arith}
use ts_store.File.{File}
use ts_store.Store.State.Metadata.{StoreMetadata}
use ts_store.Store.State.{Store}
use ts_store.Store.State.Access.{Frame-refl, Frame-weaken}
use ts_store.Store.Valid.{IsValid}
use ts_store.Store.Packed.Contents.{Object, IsStorable, end_of}
use ts_store.Store.Packed.Append.{Appended, append-Appended}
use ts_store.Store.Contents.{Packs, Stores, altered, Older-Frame, older-ne-head}

module _ (s : Store) (p : Packs) (st : Stores s p) (new : Object) (t : IsStorable new)
    (room : end_of s.meta.write_offset new ≤ s.config.data_block_size) where
  pub done : Appended s p.current.first p.current.rest new
  done =
      append-Appended s p.current.first p.current.rest new t (omega (arith, st.valid.size_fits))
        st.current.holds

  abbrev pub meta_after : StoreMetadata
  meta_after = record (s.meta) { write_offset = end_of s.meta.write_offset new }

  abbrev pub after : File → Store
  after mf = altered s meta_after done.file s.index_file mf

  IsValid-after : (mf : File) → IsValid (after mf)
  IsValid-after mf = record {
    config_agrees = st.valid.config_agrees;
    some_blocks = st.valid.some_blocks;
    blocks_fit = st.valid.blocks_fit;
    size_least = st.valid.size_least;
    size_fits = st.valid.size_fits;
    head_in = st.valid.head_in;
    tail_in = st.valid.tail_in;
    data_allocated = omega (arith, st.valid.data_allocated, done.grows);
    index_allocated = st.valid.index_allocated;
    offset_in = room;
    offset_out = inr (omega arith);
  }

  -- An append adds the object to the current block, and no full block changes.
  pub append-Stores :
      (mf : File)
      → Stores
          (after mf)
          (record p { current = record (p.current) { rest = p.current.rest ++ (new ∷ []) } })
  append-Stores mf = record {
    valid = IsValid-after mf;
    is_open = st.is_open;
    older =
        Older-Frame s meta_after done.file s.index_file mf s.meta.head_block 0 0 p.older
          (Frame-weaken s.data_file done.file _ _ _ _ (omega arith) (omega (arith, room))
            done.frame)
          (Frame-refl s.index_file _ _)
          (λ x y e. ap (λ z. (s.meta.tail_block + z) % s.meta.num_blocks) (omega arith))
          (λ x a b. older-ne-head s p st x a (omega arith)) st.older;
    current = record {
      holds = record { header = done.holds.header; chain = done.holds.chain };
      inside = room;
      entry = st.current.entry;
    };
    head = st.head;
    count = st.count;
  }
