-- ===== src/Store/Contents/InRange.antt =====
-- `GetObjectsInRange` (pkg/store/object.go) on a store with a known content.
use ts_store.Prelude.{
  ℕ, zero, suc, ◌+◌, ◌-◌, ◌^◌, ◌≤◌, ◌<◌, ◌≡◌, ◌≢◌, refl, sym, ap, ◌∙◌, ◌⊎◌, true, false, [], ◌∷◌,
  ◌++◌, length, length-append, length-drop, drop, arith, ◌==◌, List,
}
use native.Mathlib.Nat.{mod-lt}
use native.Mathlib.Decide.{dec_lt}
use mathlib.Core.Path.{subst}
use ts_store.Prelude.Int.{ℤ, pos, negsuc, ◌≤ℤ◌, ◌<ℤ◌, ◌==ℤ◌, ltb_ℤ}
use ts_store.Word.{sub32}
use ts_store.Block.IndexEntry.{IndexEntry}
use ts_store.Store.State.Errors.{Result, ok, err, invalid_timestamp}
use ts_store.Store.State.{Store, read_index_entry}
use ts_store.Store.Packed.{ObjectHandle}
use ts_store.Store.Packed.NewBlock.{entry_of}
use ts_store.Store.Index.{entry_at, find_offset_for_time_locked, when_open-IsOpen}
use ts_store.Store.Index.Search.{IsSorted, After, find_offset-first, find_offset-last}
use ts_store.Store.Objects.Query.{get_objects_in_range, objects_between, range_rounds, wants_more}
use ts_store.Store.Contents.{Pack, Packs, Older, Stores, address, Placed-entry}
use ts_store.Store.Contents.Listing.{
  handles, handles_from, limited, block_num-address, all_blocks, active_block_count-Stores,
}
use ts_store.Store.Contents.Walk.{Ascending, in_range, in_range-none}
use ts_store.Store.Contents.Between.{
  pack_at, Older-at, Older-drop, Ascending-drop, from_first, firsts_grow, range_from-Older,
}

abbrev pub packs_of : Packs → List Pack
packs_of p = p.older ++ (p.current ∷ [])

-- The timestamp of the first object of a block, by the block's offset from the tail.
abbrev pub block_start : Packs → ℕ → ℤ
block_start p i = (pack_at (packs_of p) i).first.timestamp

-- The answer lists, from a block on, the objects of the range: the block is the first one that starts in
-- the range or behind it, or else the oldest.
pub record AnswersFrom (s : Store) (p : Packs) (start end limit : ℤ)
    (answer : Result (List ObjectHandle)) : Type 0 where
  pub block : ℕ
  pub inside : block < length (packs_of p)
  pub earlier : (i : ℕ) → i < block → block_start p i <ℤ start
  pub starts : (block ≡ 0) ⊎ (start ≤ℤ block_start p block)
  pub answers :
      answer
      ≡ ok (limited limit (in_range start end (handles_from s block (drop block (packs_of p)))))

drop_all : (c : ℕ) (ks : List Pack) → length ks ≤ c → drop c ks ≡ []
drop_all zero [] h = refl
drop_all zero (k ∷ ks) h = absurd (omega arith)
drop_all (suc c) [] h = refl
drop_all (suc c) (k ∷ ks) h = drop_all c ks (omega arith)

drop-drop : (a b : ℕ) (ks : List Pack) → drop b (drop a ks) ≡ drop (a + b) ks
drop-drop zero b ks = ap (λ n. drop n ks) (omega arith)
drop-drop (suc a) b [] = drop_all b [] (omega arith) ∙ sym (drop_all (suc a + b) [] (omega arith))
drop-drop (suc a) b (k ∷ ks) =
    let e : suc (a + b) ≡ suc a + b = omega arith in drop-drop a b ks ∙ ap (λ n. drop n (k ∷ ks)) e

-- The rounds stay among the blocks, and go past the last block that may hold something of the range.
rounds_reach :
    (a b n : ℕ) → a < n → b < n → (b < a + range_rounds a b n) × (range_rounds a b n ≤ n - a)
rounds_reach a b n a_in b_in = ground arith

not_after : (x y : ℤ) → x ≤ℤ y → ltb_ℤ y x ≡ false
not_after x y le = ground arith

is_after : (x y : ℤ) → y <ℤ x → ltb_ℤ y x ≡ true
is_after x y lt = ground arith

not_zero : (x : ℤ) → x ≢ pos 0 → (x ==ℤ pos 0) ≡ false
not_zero (pos zero) ne = absurd (ne refl)
not_zero (pos (suc n)) ne = ground arith
not_zero (negsuc n) ne = ground arith

ne_zero : (n : ℕ) → (suc n == 0) ≡ false
ne_zero n = ground arith

room : (l : ℤ) → wants_more l [] ≡ true
room (pos zero) = refl
room (pos (suc n)) = ground arith
room (negsuc n) = ground arith

module _ (s : Store) (p : Packs) (st : Stores s p) (small : s.meta.num_blocks ≤ 2 ^ 31)
    (asc : Ascending (pos 0) (handles s p)) where
  abbrev count : ℕ
  count = length (packs_of p)

  abbrev entries : ℕ → IndexEntry
  entries i = entry_of (block_start p i) (address s i)

  count_is : count ≡ suc (length p.older)
  count_is = length-append p.older (p.current ∷ []) ∙ omega arith

  reads_entry : (i : ℕ) → i < count → entry_at s i ≡ ok (entries i)
  reads_entry i lt =
      let (end, placed) = Older-at s 0 i (packs_of p) (all_blocks s p st) lt in
      let at : address s (0 + i) ≡ address s i = ap (address s) (omega arith) in
      let below : address s (0 + i) < s.meta.num_blocks =
        mod-lt (s.meta.tail_block + (0 + i)) {m = s.meta.num_blocks} st.valid.some_blocks in
      ap (λ b. read_index_entry b s)
        (block_num-address s i st.valid small (omega (arith, lt, count_is, st.count)) ∙ sym at)
      ∙ Placed-entry s (address s (0 + i)) (pack_at (packs_of p) i) end
          (omega (arith, below, st.valid.blocks_fit)) placed
      ∙ ap {B = Result IndexEntry} (λ b. ok (entry_of (block_start p i) b)) at

  pub index-IsSorted : IsSorted s count entries
  index-IsSorted = record {
    reads = reads_entry;
    sorted = λ i j le lt. firsts_grow s (pos 0) 0 i j (packs_of p) asc le lt;
    small = omega (arith, count_is, st.count, small);
  }

  -- Behind the last block that may hold something of the range there is nothing of it.
  nothing_later :
      (start end : ℤ) (b c : ℕ)
      → After s count entries index-IsSorted end b
      → b < c
      → in_range start end (handles_from s c (drop c (packs_of p))) ≡ []
  nothing_later start end b c after lt = elim (dec_lt c count) [
    | yes within ↦
        let (_, later) = from_first s (pos 0) 0 c (packs_of p) asc within in
        let asc_c : Ascending end (handles_from s c (drop c (packs_of p))) =
          subst (λ x. Ascending end (handles_from s x (drop c (packs_of p)))) (omega arith)
            (later end (after c lt within)) in
        in_range-none start end end (handles_from s c (drop c (packs_of p))) (omega arith) asc_c
    | no beyond ↦
        ap (λ ks. in_range start end (handles_from s c ks))
          (drop_all c (packs_of p) (omega (arith, beyond)))
  ]

  module _ (now start end limit : ℤ) (order : start ≤ℤ end) where
    from_offsets :
        (a b : ℕ)
        → a < count
        → b < count
        → find_offset_for_time_locked start 0 (length p.older) true s ≡ ok a
        → find_offset_for_time_locked end 0 (length p.older) false s ≡ ok b
        → After s count entries index-IsSorted end b
        → objects_between start end limit s
          ≡ ok (limited limit (in_range start end (handles_from s a (drop a (packs_of p)))))
    unfolding objects_between
    from_offsets a b a_in b_in a_runs b_runs after =
        let active = active_block_count-Stores s p st ∙ count_is in
        let last : sub32 (suc (length p.older)) 1 ≡ length p.older =
          omega (arith, st.count, small) in
        let reach = rounds_reach a b count a_in b_in in
        let rounds = range_rounds a b count in
        let counted : range_rounds a b (suc (length p.older)) ≡ rounds =
          ap (range_rounds a b) (sym count_is) in
        rw (not_after start end order, active, last, a_runs, b_runs, counted)
          (range_from-Older s start end limit st.valid small rounds a (pos 0) []
            (drop a (packs_of p)) (room limit)
            (omega (arith, length-drop a (packs_of p), a_in, count_is, st.count))
            (omega (arith, length-drop a (packs_of p), reach.1))
            (subst (λ x. Older s x (drop a (packs_of p))) (omega arith)
              (Older-drop s 0 a (packs_of p) (all_blocks s p st)))
            (subst (λ x. Ascending (pos 0) (handles_from s x (drop a (packs_of p)))) (omega arith)
              (Ascending-drop s (pos 0) 0 a (packs_of p) asc))
            (ap (λ ks. in_range start end (handles_from s (a + rounds) ks))
                (drop-drop a rounds (packs_of p))
              ∙ nothing_later start end b (a + rounds) after reach.0))

    between_answers : AnswersFrom s p start end limit (objects_between start end limit s)
    between_answers =
        let (a, a_runs, a_in, before, starts) =
          find_offset-first s count entries index-IsSorted start (length p.older)
            (omega (arith, count_is)) in
        let (b, b_runs, b_in, after) =
          find_offset-last s count entries index-IsSorted end (length p.older) (sym count_is) in
        record {
          block = a;
          inside = a_in;
          earlier = before;
          starts = starts;
          answers = from_offsets a b a_in b_in a_runs b_runs after;
        }

    -- In a store with a known content whose timestamps are positive and grow, and at most 2^31 blocks,
    -- `GetObjectsInRange` of two ends that are not 0, the start not behind the end, lists the objects of the
    -- range in their order, all of them or, under a positive limit, that many, from one block on: that block is
    -- the oldest or starts at the start of the range or later, and every block before it starts earlier.
    pub get_objects_in_range-Stores :
        start ≢ pos 0
        → end ≢ pos 0
        → AnswersFrom s p start end limit (get_objects_in_range now start end limit s)
    unfolding get_objects_in_range
    get_objects_in_range-Stores some_start some_end =
        let active = active_block_count-Stores s p st ∙ count_is in
        subst (AnswersFrom s p start end limit)
          (sym (
            when_open-IsOpen s _ st.is_open
            ∙ rw
                (not_zero end some_end, active, ne_zero (length p.older), not_zero start some_start)
                refl))
          between_answers

  -- A range that ends before it starts is refused.
  pub get_objects_in_range_backwards :
      (now start end limit : ℤ)
      → end <ℤ start
      → start ≢ pos 0
      → end ≢ pos 0
      → get_objects_in_range now start end limit s ≡ err invalid_timestamp
  unfolding get_objects_in_range objects_between
  get_objects_in_range_backwards now start end limit order some_start some_end =
      let active = active_block_count-Stores s p st ∙ count_is in
      when_open-IsOpen s _ st.is_open
      ∙ rw
          (
            not_zero end some_end,
            active,
            ne_zero (length p.older),
            not_zero start some_start,
            is_after start end order,
          )
          refl
