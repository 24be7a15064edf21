-- ===== src/Store/Index/Range.antt =====
-- `FindBlocksInRange` (pkg/store/index.go) finds exactly the blocks of the range.
use ts_store.Prelude.{
  ℕ, zero, suc, ◌+◌, ◌-◌, ◌≤◌, ◌<◌, ◌^◌, ◌≡◌, refl, sym, ap, ◌∙◌, inl, inr, Bool, true, false, ◌&&◌,
  List, [], ◌∷◌, ◌++◌, append-nil, ltb, ◌==◌, arith, Bool-cases, if◌then◌else◌,
}
use mathlib.Core.Path.{ap₂}
use ts_store.Prelude.Int.{ℤ, ◌≤ℤ◌, ◌<ℤ◌, leb_ℤ, ltb_ℤ}
use ts_store.Word.{sub32}
use ts_store.Block.IndexEntry.{IndexEntry}
use ts_store.Store.State.Errors.{Result, ok}
use ts_store.Store.State.{Store}
use ts_store.Store.Index.{
  block_num_from_offset, collect_range, find_blocks_in_range, active_block_count, when_open-IsOpen,
  find_offset_for_time_locked,
}
use ts_store.Store.Index.Search.{IsSorted, Before, After, find_offset-first, find_offset-last}

abbrev pub is_in_range : ℤ → ℤ → IndexEntry → Bool
is_in_range start end entry = leb_ℤ start entry.timestamp && leb_ℤ entry.timestamp end

-- The blocks at n offsets from `offset` on whose timestamps lie in the range.
abbrev pub blocks_in_range : Store → (ℕ → IndexEntry) → ℤ → ℤ → ℕ → ℕ → List ℕ
blocks_in_range s e start end zero offset = []
blocks_in_range s e start end (suc n) offset =
    let rest = blocks_in_range s e start end n (offset + 1) in
    if is_in_range start end (e offset) then block_num_from_offset s offset ∷ rest else rest

too_early : (start end t : ℤ) → t <ℤ start → (leb_ℤ start t && leb_ℤ t end) ≡ false
too_early start end t h = let no : leb_ℤ start t ≡ false = not_from start t h in rw no refl
  where
    not_from : (a b : ℤ) → b <ℤ a → leb_ℤ a b ≡ false
    not_from a b h' = ground arith

too_late : (start end t : ℤ) → end <ℤ t → (leb_ℤ start t && leb_ℤ t end) ≡ false
too_late start end t h =
    let no : leb_ℤ t end ≡ false = not_to t end h in
    elim (Bool-cases (leb_ℤ start t)) [ inl a ↦ rw (no, a) refl | inr a ↦ rw (no, a) refl ]
  where
    not_to : (a b : ℤ) → b <ℤ a → leb_ℤ a b ≡ false
    not_to a b h' = ground arith

module _ (s : Store) (count : ℕ) (e : ℕ → IndexEntry) (h : IsSorted s count e) (start end : ℤ) where
  abbrev found : ℕ → ℕ → List ℕ
  found n offset = blocks_in_range s e start end n offset

  collect_range-found :
      (n offset : ℕ) → offset + n ≤ count → collect_range n offset start end s ≡ ok (found n offset)
  unfolding collect_range
  collect_range-found zero offset le = refl
  collect_range-found (suc n) offset le =
      rw
        (
          h.reads offset (omega (arith, le)),
          collect_range,
          collect_range-found n (offset + 1) (omega (arith, le)),
        )
        refl

  found-none :
      (n offset : ℕ)
      → ((i : ℕ) → offset ≤ i → i < offset + n → is_in_range start end (e i) ≡ false)
      → found n offset ≡ []
  found-none zero offset out = refl
  found-none (suc n) offset out =
      rw (out offset (omega arith) (omega arith))
        (found-none n (offset + 1) (λ i ge lt. out i (omega (arith, ge)) (omega (arith, lt))))

  found-append :
      (n m offset k : ℕ) → offset + n ≡ k → found (n + m) offset ≡ found n offset ++ found m k
  found-append zero m offset k at = ap₂ (λ a b. found a b) (omega arith) (omega (arith, at))
  found-append (suc n) m offset k at =
      let split : suc n + m ≡ suc (n + m) = omega arith in
      let rest = found-append n m (offset + 1) k (omega (arith, at)) in
      ap (λ x. found x offset) split ∙ elim (Bool-cases (is_in_range start end (e offset))) [
        | inl within ↦ rw within (ap (λ l. block_num_from_offset s offset ∷ l) rest)
        | inr without ↦ rw without rest
      ]

  Before-none : (r : ℕ) → Before s count e h start r → found r 0 ≡ []
  Before-none r before =
      found-none r 0 (λ i ge lt. too_early start end (e i).timestamp (before i (omega (arith, lt))))

  After-none :
      (r n offset : ℕ)
      → After s count e h end r
      → r < offset
      → offset + n ≤ count
      → found n offset ≡ []
  After-none r n offset after lt le = found-none n offset (λ i ge below.
      too_late start end (e i).timestamp
        (after i (omega (arith, ge, lt)) (omega (arith, below, le))))

  -- The offsets in between hold every block of the range.
  between :
      (a b : ℕ)
      → Before s count e h start a
      → After s count e h end b
      → a ≤ b
      → b < count
      → found count 0 ≡ found (b + 1 - a) a
  between a b before after le lt =
      let all : count ≡ a + (b + 1 - a + (count - (b + 1))) = omega (arith, le, lt) in
      let last : a + (b + 1 - a) ≡ b + 1 = omega (arith, le) in
      ap (λ n. found n 0) all
      ∙ found-append a (b + 1 - a + (count - (b + 1))) 0 a (omega arith)
      ∙ ap₂ (λ (x y : List ℕ). x ++ y) (Before-none a before)
          (found-append (b + 1 - a) (count - (b + 1)) a (b + 1) last
            ∙ ap (λ l. found (b + 1 - a) a ++ l)
                (After-none b (count - (b + 1)) (b + 1) after (omega arith) (omega (arith, lt)))
            ∙ append-nil (found (b + 1 - a) a))

  nothing :
      (a b : ℕ)
      → Before s count e h start a
      → After s count e h end b
      → b < a
      → a < count
      → found count 0 ≡ []
  nothing a b before after lt in_count =
      let all : count ≡ a + (count - a) = omega (arith, in_count) in
      ap (λ n. found n 0) all
      ∙ found-append a (count - a) 0 a (omega arith)
      ∙ ap₂ (λ (x y : List ℕ). x ++ y) (Before-none a before)
          (After-none b (count - a) a after lt (omega (arith, in_count)))

  range_runs :
      (right a b : ℕ) (found_blocks : List ℕ)
      → ltb_ℤ end start ≡ false
      → active_block_count s ≡ suc right
      → suc right < 2 ^ 32
      → find_offset_for_time_locked start 0 right true s ≡ ok a
      → find_offset_for_time_locked end 0 right false s ≡ ok b
      → (if ltb b a then ok [] else collect_range (b + 1 - a) a start end s) ≡ ok found_blocks
      → s.closed ≡ false
      → find_blocks_in_range start end s ≡ ok found_blocks
  unfolding find_blocks_in_range
  range_runs right a b found_blocks order active fits first_found last_found got is_open =
      let some : (suc right == 0) ≡ false = ne_zero right in
      let one_less : sub32 (suc right) 1 ≡ right = omega (arith, fits) in
      when_open-IsOpen s _ is_open ∙ rw (order, active, some, one_less, first_found, last_found) got
    where
      ne_zero : (n : ℕ) → (suc n == 0) ≡ false
      ne_zero n = ground arith

-- `FindBlocksInRange` over a sorted index yields exactly the blocks whose entries lie in the range, from
-- the oldest to the newest. The store is open, its entries are readable, and it has at most 2^31 blocks.
pub find_blocks_in_range-IsSorted :
    (s : Store) (right : ℕ) (e : ℕ → IndexEntry) (start end : ℤ)
    → s.closed ≡ false
    → active_block_count s ≡ suc right
    → IsSorted s (suc right) e
    → start ≤ℤ end
    → find_blocks_in_range start end s ≡ ok (blocks_in_range s e start end (suc right) 0)
find_blocks_in_range-IsSorted s right e start end is_open active h order =
    let (a, a_runs, a_in, before, _) =
      find_offset-first s (suc right) e h start right (omega arith) in
    let (b, b_runs, b_in, after) = find_offset-last s (suc right) e h end right refl in
    range_runs s (suc right) e h start end right a b (blocks_in_range s e start end (suc right) 0)
      (not_after start end order) active (omega (arith, h.small)) a_runs b_runs
      (elim (Bool-cases (ltb b a)) [
        | inl empty ↦ rw empty (
            ap {B = Result (List ℕ)} ok
              (sym (nothing s (suc right) e h start end a b before after (below b a empty) a_in)))
        | inr some ↦ rw some (
            collect_range-found s (suc right) e h start end (b + 1 - a) a
              (omega (arith, b_in, not_below b a some))
            ∙ ap {B = Result (List ℕ)} ok (
                sym
                  (between s (suc right) e h start end a b before after (not_below b a some) b_in)))
      ])
      is_open
  where
    not_after : (x y : ℤ) → x ≤ℤ y → ltb_ℤ y x ≡ false
    not_after x y le = ground arith

    below : (x y : ℕ) → ltb x y ≡ true → x < y
    below x y lt = ground arith

    not_below : (x y : ℕ) → ltb x y ≡ false → y ≤ x
    not_below x y ge = ground arith
