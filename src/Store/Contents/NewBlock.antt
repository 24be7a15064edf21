-- ===== src/Store/Contents/NewBlock.antt =====
-- `writeToNewBlock` of pkg/store/packed.go keeps the abstract view of a store: a full circle loses its
-- oldest block, and nothing else changes but the new block.
use mathlib.Core.Path.{subst}
use native.Mathlib.Nat.{mod-add-mod, mod-lt, mod-eq_of_lt}
use ts_store.Prelude.{
  ℕ, suc, ◌+◌, ◌%◌, ◌^◌, ◌≤◌, ◌<◌, ◌≡◌, refl, sym, ap, ◌∙◌, inl, inr, Bool, true, false, List, [],
  ◌∷◌, ◌++◌, length, length-append, drop, arith, ◌==◌, if◌then◌else◌, Bool-cases, eq_of_test,
  ne_of_test, length-drop,
}
use ts_store.Word.{add32}
use ts_store.File.{File}
use ts_store.Store.State.Errors.{ok}
use ts_store.Store.State.Metadata.{StoreMetadata}
use ts_store.Store.State.{Store, block_offset, index_offset}
use ts_store.Store.State.Access.{Frame, Frame-trans, Frame-weaken}
use ts_store.Store.Valid.{IsValid}
use ts_store.Store.Freelist.{next_block, is_first_insert}
use ts_store.Store.Packed.Contents.{Object, IsStorable, end_of, positive_test}
use ts_store.Store.Freelist.Allocate.{Advanced, allocate_next_block-Advanced, IsCalm}
use ts_store.Store.Packed.Append.{packed_header}
use ts_store.Store.Packed.NewBlock.{Started, write_to_new_block-Started}
use ts_store.Store.Contents.{
  Pack, Packs, address, Placed, Older, Stores, altered, address-ne, Older-Frame, Older-append,
  two_cases, Placed-header, Placed-entry,
}
use ts_store.Store.Contents.Spec.{retire}

-- Going on from the last of L + 1 blocks comes back to the tail exactly when they are all.
next_at_tail :
    (t n count : ℕ)
    → t < n
    → count < n
    → n < 2 ^ 32
    → (add32 ((t + count) % n) 1 % n == t) ≡ (n == (count + 1))
next_at_tail t n count ht hc fits =
    let step : add32 ((t + count) % n) 1 ≡ (t + count) % n + 1 =
      omega (arith, mod-lt (t + count) {m = n} (omega arith)) in
    let turn : ((t + count) % n + 1) % n ≡ (t + (count + 1)) % n =
      mod-add-mod (t + count) n 1 ∙ ap (λ k. k % n) (omega arith) in
    rw (step, turn) (ground (arith, two_cases (t + (count + 1)) n (omega arith)))

pub next_address :
    (t n i j : ℕ) → 0 < n → n < 2 ^ 32 → i + 1 ≡ j → add32 ((t + i) % n) 1 % n ≡ (t + j) % n
next_address t n i j some_blocks fits e =
    let step : add32 ((t + i) % n) 1 ≡ (t + i) % n + 1 =
      omega (arith, mod-lt (t + i) {m = n} some_blocks) in
    ap (λ k. k % n) step ∙ mod-add-mod (t + i) n 1 ∙ ap (λ k. k % n) (omega arith)

address_wrap : (t n i : ℕ) → t < n → i ≡ n → (t + i) % n ≡ (t + 0) % n
address_wrap t n i h e =
    omega (arith, two_cases (t + i) n (omega arith), two_cases (t + 0) n (omega arith))

second_block : (s : Store) → IsValid s → next_block s s.meta.tail_block ≡ address s 1
second_block s v = ap (λ k. k % s.meta.num_blocks) (omega (arith, v.tail_in, v.blocks_fit))

module _ (s : Store) (p : Packs) (st : Stores s p) where
  -- The head has an entry, so this is not the first insert.
  later : is_first_insert s ≡ ok false
  unfolding is_first_insert
  later =
      rw
        (
          Placed-entry s s.meta.head_block p.current s.meta.write_offset
              (omega (arith, st.valid.head_in, st.valid.blocks_fit)) st.current,
          is_first_insert,
          positive_test p.current.first.timestamp st.current.holds.chain.2.positive,
        )
        refl

  -- The circle is full when every block but the current one is a full block.
  pub full_iff :
      (next_block s s.meta.head_block == s.meta.tail_block)
      ≡ (s.meta.num_blocks == length (p.older ++ (p.current ∷ [])))
  full_iff =
      let e : length (p.older ++ (p.current ∷ [])) ≡ length p.older + 1 =
        length-append p.older (p.current ∷ []) in
      rw (e, st.head)
        (next_at_tail s.meta.tail_block s.meta.num_blocks (length p.older) st.valid.tail_in st.count
          st.valid.blocks_fit)

-- The block behind the tail is the head, or a full block.
calm :
    (s : Store) (older : List Pack) (current : Pack)
    → (st : Stores s (record { older = older; current = current }))
    → (next_block s s.meta.head_block == s.meta.tail_block) ≡ true
    → IsCalm s
calm s [] current st full = inl (ap (next_block s) (sym same) ∙ all ∙ sym same)
  where
    same : s.meta.head_block ≡ s.meta.tail_block
    same = st.head ∙ ap (λ k. k % s.meta.num_blocks) (omega arith) ∙ mod-eq_of_lt st.valid.tail_in

    all : next_block s s.meta.head_block ≡ s.meta.tail_block
    all = eq_of_test _ _ full
calm s (k ∷ []) current st full = inl (second_block s st.valid ∙ sym st.head)
calm s (k ∷ k' ∷ ks) current st full = inr (
  packed_header k'.first.timestamp st.older.1.0.0,
  rw (second_block s st.valid) (Placed-header s (address s 1) k' st.older.1.0.0 st.older.1.0.1),
  refl,
)

module _ (s : Store) (p : Packs) (st : Stores s p) (new : Object) (t : IsStorable new)
    (room : end_of 24 new ≤ s.config.data_block_size) where
  pub advanced : Advanced s
  advanced = allocate_next_block-Advanced s st.valid (later s p st) (calm s p.older p.current st)

  pub started : Started s new advanced.place
  started = write_to_new_block-Started s new t (omega (arith, st.valid.size_fits)) advanced.place

  abbrev pub new_block : ℕ
  new_block = advanced.place.block

  abbrev pub meta_after : StoreMetadata
  meta_after = record (s.meta) {
    head_block = new_block;
    tail_block = advanced.place.tail;
    write_offset = end_of 24 new;
  }

  abbrev pub after : File → Store
  after mf = altered s meta_after started.file started.index mf

  IsValid-after : (mf : File) → IsValid (after mf)
  IsValid-after mf = record {
    config_agrees = st.valid.config_agrees;
    some_blocks = st.valid.some_blocks;
    blocks_fit = st.valid.blocks_fit;
    size_least = st.valid.size_least;
    size_fits = st.valid.size_fits;
    head_in = advanced.place.block_in;
    tail_in = advanced.place.tail_in;
    data_allocated = omega (arith, st.valid.data_allocated, started.file_grows);
    index_allocated = omega (arith, st.valid.index_allocated, started.index_grows);
    offset_in = room;
    offset_out = inr (omega arith);
  }

  current_after :
      (mf : File) → Placed (after mf) new_block (record { first = new; rest = [] }) (end_of 24 new)
  current_after mf = record {
    holds = record { header = started.holds.header; chain = started.holds.chain };
    inside = room;
    entry = started.entry;
  }

  data-Frame :
      Frame s.data_file started.file
        (block_offset s.config new_block)
        (block_offset s.config new_block + s.config.data_block_size)
  data-Frame =
      Frame-weaken s.data_file started.file _ _ _ _ (omega arith) (omega (arith, room))
        started.frame

  index-Frame :
      Frame s.index_file started.index (index_offset new_block) (index_offset new_block + 16)
  index-Frame =
      Frame-trans s.index_file advanced.place.index started.index _ _ advanced.index_frame
        started.index_frame

  -- The full blocks of before, with the block that was current.
  abbrev all : List Pack
  all = p.older ++ (p.current ∷ [])

  all_before : Older s 0 all
  all_before =
      Older-append s 0 (length p.older) p.older p.current s.meta.write_offset (omega arith) st.older
        (subst (λ b. Placed s b p.current s.meta.write_offset) st.head st.current)

  new_block-eq : new_block ≡ address s (length all)
  new_block-eq =
      advanced.block
      ∙ ap (λ b. add32 b 1 % s.meta.num_blocks) st.head
      ∙ next_address s.meta.tail_block s.meta.num_blocks (length p.older) (length all)
          st.valid.some_blocks st.valid.blocks_fit
          (omega (arith, length-append p.older (p.current ∷ [])))

  Older-full :
      (mf : File) (ks : List Pack)
      → Older s 0 ks
      → new_block ≡ address s (length ks)
      → length ks ≡ s.meta.num_blocks
      → advanced.place.tail ≡ next_block s s.meta.tail_block
      → Older (after mf) 0 (drop 1 ks)
  Older-full mf [] o e full tail = tt
  Older-full mf (k ∷ ks) o e full tail =
      Older-Frame s meta_after started.file started.index mf new_block 1 0 ks data-Frame index-Frame
        (λ x y h.
          ap (λ k. k % s.meta.num_blocks) (omega arith)
          ∙ sym (mod-add-mod (s.meta.tail_block + 1) s.meta.num_blocks y)
          ∙ ap (λ b. (b + y) % s.meta.num_blocks) (sym (tail ∙ second_block s st.valid)))
        (λ x a b h.
          address-ne s.meta.tail_block s.meta.num_blocks 0 x st.valid.tail_in (omega arith)
            (omega arith)
            (sym (
              h
              ∙ e
              ∙ address_wrap s.meta.tail_block s.meta.num_blocks (suc (length ks)) st.valid.tail_in
                  full)))
        o.1

  Older-room :
      (mf : File) (ks : List Pack)
      → Older s 0 ks
      → new_block ≡ address s (length ks)
      → length ks < s.meta.num_blocks
      → advanced.place.tail ≡ s.meta.tail_block
      → Older (after mf) 0 ks
  Older-room mf ks o e some_left tail =
      Older-Frame s meta_after started.file started.index mf new_block 0 0 ks data-Frame index-Frame
        (λ x y h.
          let same : x ≡ y = omega arith in
          ap (λ z. (s.meta.tail_block + z) % s.meta.num_blocks) same
          ∙ ap (λ b. (b + y) % s.meta.num_blocks) (sym tail))
        (λ x a b h.
          address-ne s.meta.tail_block s.meta.num_blocks x (length ks) st.valid.tail_in
            (omega arith) some_left (h ∙ e))
        o

  length-all : length all ≡ length p.older + 1
  length-all = length-append p.older (p.current ∷ [])

  tail_moves :
      (full : Bool)
      → (s.meta.num_blocks == length all) ≡ full
      → advanced.place.tail ≡ (if full then next_block s s.meta.tail_block else s.meta.tail_block)
  tail_moves full e =
      advanced.tail
      ∙ ap (λ c. if c then next_block s s.meta.tail_block else s.meta.tail_block)
          (full_iff s p st ∙ e)

  Stores-full :
      (mf : File)
      → (s.meta.num_blocks == length all) ≡ true
      → Stores
          (after mf)
          (record { older = drop 1 all; current = record { first = new; rest = [] } })
  Stores-full mf full =
      let e : s.meta.num_blocks ≡ length all = eq_of_test _ _ full in
      let len = length-drop 1 all in
      record {
        valid = IsValid-after mf;
        is_open = st.is_open;
        older = Older-full mf all all_before new_block-eq (sym e) (tail_moves true full);
        current = current_after mf;
        head =
            new_block-eq
            ∙ ap (λ k. k % s.meta.num_blocks) (omega (arith, length-all))
            ∙ sym (mod-add-mod (s.meta.tail_block + 1) s.meta.num_blocks (length (drop 1 all)))
            ∙ ap (λ b. (b + length (drop 1 all)) % s.meta.num_blocks)
                (sym (tail_moves true full ∙ second_block s st.valid));
        count = omega (arith, st.valid.some_blocks);
      }

  Stores-room :
      (mf : File)
      → (s.meta.num_blocks == length all) ≡ false
      → Stores (after mf) (record { older = all; current = record { first = new; rest = [] } })
  Stores-room mf some_left =
      let lt : length all < s.meta.num_blocks =
        omega (arith, length-all, st.count, ne_of_test _ _ some_left) in
      record {
        valid = IsValid-after mf;
        is_open = st.is_open;
        older = Older-room mf all all_before new_block-eq lt (tail_moves false some_left);
        current = current_after mf;
        head =
            new_block-eq
            ∙ ap (λ b. (b + length all) % s.meta.num_blocks) (sym (tail_moves false some_left));
        count = lt;
      }

  -- Starting a block keeps every object but, in a full circle, those of the oldest block.
  pub new_block-Stores :
      (mf : File)
      → Stores (after mf) (record {
        older = retire s.meta.num_blocks all;
        current = record { first = new; rest = [] };
      })
  new_block-Stores mf = elim (Bool-cases (s.meta.num_blocks == length all)) [
    | inl full ↦ rw full (Stores-full mf full)
    | inr some_left ↦ rw some_left (Stores-room mf some_left)
  ]
