-- ===== src/Store/Freelist/Allocate.antt =====
-- `allocateNextBlock` (pkg/store/packed.go) with `allocateBlock` and `reclaimOldestBlock`
-- (pkg/store/freelist.go) always finds a block, and touches nothing but that block's header, the tail
-- and the index.
use ts_store.Prelude.{
  ℕ, suc, ◌+◌, ◌≤◌, ◌<◌, ◌≡◌, ◌≢◌, refl, sym, ap, ◌∙◌, ◌⊎◌, inl, inr, Bool, true, false, ◌&&◌,
  arith, ◌==◌, if◌then◌else◌, Bool-cases, ne_of_test,
}
use native.Mathlib.Nat.{mod-lt}
use ts_store.Prelude.Int.{pos, ◌==ℤ◌}
use ts_store.File.{File, write_at}
use ts_store.Block.BlockHeader
use ts_store.Block.BlockHeader.{BlockHeader}
use ts_store.Block.IndexEntry
use ts_store.Store.State.Errors.{Result, ok}
use ts_store.Store.State.{
  Store, block_offset, index_offset, read_block_header, write_block_header, write_index_entry,
}
use ts_store.Store.State.Access.{
  At, At-write_at, Frame, Frame-refl, Frame-block_header, Frame-index_entry,
}
use ts_store.Store.Valid.{IsValid, size-write_at, read_block_header_total, read_index_entry_total}
use ts_store.Store.Freelist.Skip.{
  IsUnused, cleared-IsUnused, next_differs, same_header, moved, Skipped, cleared_index, skip_total,
  distance,
}
use ts_store.Store.Freelist.{
  next_block, empty_entry, clear_header, clear_index_entry, skip_continuations,
  reclaim_oldest_block, allocate_block, is_first_insert, allocate_next_block,
}

-- The circle was full: the block behind the head, the tail, is cleared and loses its index entry, and the tail
-- moves off it, to the head or to a block that is no continuation.
pub record Reclaims (s : Store) (tail : ℕ) (index file : File) : Type 0 where
  pub later : is_first_insert s ≡ ok false
  pub full : next_block s s.meta.head_block ≡ s.meta.tail_block
  pub clears : At file (block_offset s.config s.meta.tail_block) (BlockHeader.encode clear_header)
  pub unlists : IsUnused index s.meta.tail_block
  pub leaves : 1 < s.meta.num_blocks → tail ≢ s.meta.tail_block
  pub stops :
      (tail ≡ s.meta.head_block)
      ⊎ ((h : BlockHeader)
          → read_block_header tail s ≡ ok h
          → BlockHeader.is_continuation h ≡ false)

-- The circle was not full, or the insert is the first: nothing is written and the tail stays.
pub record Spares (s : Store) (tail : ℕ) (index file : File) : Type 0 where
  pub unused : (is_first_insert s ≡ ok true) ⊎ (next_block s s.meta.head_block ≢ s.meta.tail_block)
  pub same_tail : tail ≡ s.meta.tail_block
  pub same_index : index ≡ s.index_file
  pub same_file : file ≡ s.data_file

-- What `allocateNextBlock` has done.
pub record Allocated (s : Store) : Type 0 where
  pub block : ℕ
  pub tail : ℕ
  pub index : File
  pub file : File
  pub runs : allocate_next_block s ≡ (ok block, moved s tail index file)
  pub choice :
      ((is_first_insert s ≡ ok true) × (block ≡ s.meta.head_block))
      ⊎ ((is_first_insert s ≡ ok false) × (block ≡ next_block s s.meta.head_block))
  pub effect : Reclaims s tail index file ⊎ Spares s tail index file
  pub block_in : block < s.meta.num_blocks
  pub tail_in : tail < s.meta.num_blocks
  pub index_grows : s.index_file.size ≤ index.size
  pub file_grows : s.data_file.size ≤ file.size
  pub frame :
      Frame s.data_file file (block_offset s.config block) (block_offset s.config block + 24)

module _ (s : Store) (v : IsValid s) where
  first_total : (b : Bool) × (is_first_insert s ≡ ok b)
  unfolding is_first_insert
  first_total =
      let (entry, e) = read_index_entry_total s.meta.head_block s v v.head_in in
      let (header, h) = read_block_header_total s.meta.head_block s v v.head_in in
      elim (Bool-cases (entry.timestamp ==ℤ pos 0)) [
        | inr used ↦ (false, rw (e, is_first_insert, used))
        | inl unused ↦
            (header.data_len == 0 && header.flags == 0, rw (e, is_first_insert, unused, h))
      ]

  abbrev tail : ℕ
  tail = s.meta.tail_block

  abbrev after_clear : Store
  after_clear = moved s (next_block s tail) (cleared_index s) s.data_file

  skipped : Skipped after_clear (suc s.meta.num_blocks)
  skipped =
      let (d, lt, e) =
        distance (next_block s tail) s.meta.head_block s.meta.num_blocks (mod-lt _ v.some_blocks)
          v.head_in in
      skip_total (suc s.meta.num_blocks) d after_clear lt v.blocks_fit (mod-lt _ v.some_blocks) e

  abbrev reclaimed_file : File
  reclaimed_file =
      write_at s.data_file (block_offset s.config tail) (BlockHeader.encode clear_header)

  -- Reclaiming always succeeds and yields the old tail.
  reclaim_runs : allocate_block s ≡ (ok tail, moved s skipped.tail skipped.index reclaimed_file)
  unfolding allocate_block reclaim_oldest_block clear_index_entry write_index_entry
      write_block_header
  reclaim_runs = ground (arith, skipped.runs)

  unfoldable pub reuse_first : is_first_insert s ≡ ok true → Allocated s
  unfolding allocate_next_block
  reuse_first first = record {
    block = s.meta.head_block;
    tail = s.meta.tail_block;
    index = s.index_file;
    file = s.data_file;
    runs = ground (arith, first);
    choice = inl (first, refl);
    effect =
        inr (record { unused = inl first; same_tail = refl; same_index = refl; same_file = refl });
    block_in = v.head_in;
    tail_in = v.tail_in;
    index_grows = omega arith;
    file_grows = omega arith;
    frame = Frame-refl s.data_file _ _;
  }

  advance :
      is_first_insert s ≡ ok false
      → (next_block s s.meta.head_block == s.meta.tail_block) ≡ false
      → Allocated s
  unfolding allocate_next_block
  advance later apart = record {
    block = next_block s s.meta.head_block;
    tail = s.meta.tail_block;
    index = s.index_file;
    file = s.data_file;
    runs = ground (arith, later, apart);
    choice = inr (later, refl);
    effect = inr (record {
      unused = inr (ne_of_test _ _ apart);
      same_tail = refl;
      same_index = refl;
      same_file = refl;
    });
    block_in = mod-lt _ v.some_blocks;
    tail_in = v.tail_in;
    index_grows = omega arith;
    file_grows = omega arith;
    frame = Frame-refl s.data_file _ _;
  }

  reclaim :
      is_first_insert s ≡ ok false
      → (next_block s s.meta.head_block == s.meta.tail_block) ≡ true
      → Allocated s
  unfolding allocate_next_block read_block_header
  reclaim later full = record {
    block = s.meta.tail_block;
    tail = skipped.tail;
    index = skipped.index;
    file = reclaimed_file;
    runs = ground (arith, later, full, reclaim_runs);
    choice = inr (later, ground (arith, full));
    effect =
        let around : next_block s s.meta.head_block ≡ s.meta.tail_block = ground (arith, full) in
        inl (record {
          later = later;
          full = around;
          clears = At-write_at s.data_file _ _;
          unlists = skipped.keeps s.meta.tail_block (cleared-IsUnused s);
          leaves = λ two e.
              skipped.before (λ e'. next_differs _ _ v.tail_in v.blocks_fit two (e' ∙ around))
                (e ∙ sym around);
          stops = skipped.stops;
        });
    block_in = v.tail_in;
    tail_in = skipped.tail_in;
    index_grows = omega (
      arith,
      skipped.grows,
      size-write_at s.index_file (index_offset tail) (IndexEntry.encode (empty_entry tail)),
    );
    file_grows =
        size-write_at s.data_file (block_offset s.config tail) (BlockHeader.encode clear_header);
    frame = Frame-block_header s.data_file (block_offset s.config tail) clear_header;
  }

  -- In a valid store `allocateNextBlock` always returns a block of the store: the head on the
  -- first insert, and otherwise the block behind the head. If that block is the tail, it is
  -- reclaimed: its header is cleared, its index entry is emptied, and the tail moves off it (if the
  -- store has more than one block), to the head or to a block whose header, if it can be read, is of no
  -- continuation. Otherwise, and on the first insert, nothing is written and the tail stays. In every
  -- case the tail stays a block of the store, and of the data file at most the header of the returned block
  -- changes.
  pub allocate_next_block-Allocated : Allocated s
  allocate_next_block-Allocated = elim (Bool-cases first_total.0) [
    | inl first ↦ reuse_first (first_total.1 ∙ ap {B = Result Bool} ok first)
    | inr later ↦ elim (Bool-cases (next_block s s.meta.head_block == s.meta.tail_block)) [
      | inl full ↦ reclaim (first_total.1 ∙ ap {B = Result Bool} ok later) full
      | inr apart ↦ advance (first_total.1 ∙ ap {B = Result Bool} ok later) apart
    ]
  ]

-- A block behind the head, with the tail and the index entries that change on the way.
pub record Advanced (s : Store) : Type 0 where
  pub place : Allocated s
  pub block : place.block ≡ next_block s s.meta.head_block
  pub tail : place.tail ≡ (
      if next_block s s.meta.head_block == s.meta.tail_block
      then next_block s s.meta.tail_block
      else s.meta.tail_block)
  pub index_frame :
      Frame s.index_file place.index (index_offset place.block) (index_offset place.block + 16)

-- The block that becomes the tail is the head, or no continuation of a spanning object.
abbrev pub IsCalm : Store → Type 0
IsCalm s =
    (next_block s s.meta.tail_block ≡ s.meta.head_block)
    ⊎ ((h : BlockHeader) × (read_block_header (next_block s s.meta.tail_block) s ≡ ok h)
        × (BlockHeader.is_continuation h ≡ false))

module _ (s : Store) (v : IsValid s) (later : is_first_insert s ≡ ok false) where
  abbrev cleared : Store
  cleared = moved s (next_block s s.meta.tail_block) (cleared_index s) s.data_file

  calm_skip : IsCalm s → skip_continuations (suc s.meta.num_blocks) cleared ≡ (ok tt, cleared)
  unfolding skip_continuations read_block_header
  calm_skip (inl same) =
      let test : (next_block s s.meta.tail_block == s.meta.head_block) ≡ true = ground arith in
      rw (test, skip_continuations) refl
  calm_skip (inr (h, good, primary)) =
      elim (Bool-cases (next_block s s.meta.tail_block == s.meta.head_block)) [
        | inl same ↦ rw (same, skip_continuations) refl
        | inr apart ↦ rw (apart, skip_continuations, good, primary) refl
      ]

  calm_stops :
      IsCalm s
      → (next_block s s.meta.tail_block ≡ s.meta.head_block)
        ⊎ ((h : BlockHeader)
            → read_block_header (next_block s s.meta.tail_block) s ≡ ok h
            → BlockHeader.is_continuation h ≡ false)
  calm_stops (inl same) = inl same
  calm_stops (inr (h, good, primary)) = inr (λ k read. same_header h k (sym good ∙ read) primary)

  calm_reclaim_runs :
      IsCalm s
      → allocate_block s ≡ (
        ok s.meta.tail_block,
        moved s (next_block s s.meta.tail_block) (cleared_index s) (reclaimed_file s v),
      )
  unfolding allocate_block reclaim_oldest_block clear_index_entry write_index_entry
      write_block_header
  calm_reclaim_runs calm = ground (arith, calm_skip calm)

  pub allocate_next_block-Advanced :
      ((next_block s s.meta.head_block == s.meta.tail_block) ≡ true → IsCalm s) → Advanced s
  unfolding allocate_next_block advance
  allocate_next_block-Advanced calm =
      elim (Bool-cases (next_block s s.meta.head_block == s.meta.tail_block)) [
        | inl full ↦ record {
          place = record {
            block = s.meta.tail_block;
            tail = next_block s s.meta.tail_block;
            index = cleared_index s;
            file = reclaimed_file s v;
            runs = ground (arith, later, full, calm_reclaim_runs (calm full));
            choice = inr (later, ground (arith, full));
            effect = inl (record {
              later = later;
              full = ground (arith, full);
              clears = At-write_at s.data_file _ _;
              unlists = cleared-IsUnused s;
              leaves = next_differs _ _ v.tail_in v.blocks_fit;
              stops = calm_stops (calm full);
            });
            block_in = v.tail_in;
            tail_in = mod-lt _ v.some_blocks;
            index_grows = size-write_at s.index_file _ _;
            file_grows = size-write_at s.data_file _ _;
            frame = Frame-block_header s.data_file _ clear_header;
          };
          block = ground (arith, full);
          tail = rw full refl;
          index_frame = Frame-index_entry s.index_file _ (empty_entry s.meta.tail_block);
        }
        | inr apart ↦ record {
          place = advance s v later apart;
          block = refl;
          tail = rw apart refl;
          index_frame = Frame-refl s.index_file _ _;
        }
      ]
