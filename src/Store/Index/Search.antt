-- ===== src/Store/Index/Search.antt =====
-- The binary search of `findOffsetForTimeLocked` (pkg/store/index.go) over blocks with growing timestamps.
use ts_store.Prelude.{
  ℕ, zero, suc, ◌-◌, ◌/◌, ◌≤◌, ◌<◌, ◌^◌, ◌≡◌, refl, ◌∙◌, ◌⊎◌, inl, inr, true, false, leb, ◌==◌,
  arith, Bool-cases, eq_of_test, ne_of_test,
}
use ts_store.Prelude.Int.{ℤ, ◌≤ℤ◌, ◌<ℤ◌, leb_ℤ}
use ts_store.Word.{add32, sub32}
use ts_store.Block.IndexEntry.{IndexEntry}
use ts_store.Store.State.Errors.{ok}
use ts_store.Store.State.{Store}
use ts_store.Store.Index.{entry_at, search_offset, find_offset_for_time_locked}

le_test : (a b : ℤ) → leb_ℤ a b ≡ true → a ≤ℤ b
le_test a b h = ground arith

gt_test : (a b : ℤ) → leb_ℤ a b ≡ false → b <ℤ a
gt_test a b h = ground arith

-- The index of a store: `count` readable entries, the timestamps growing from the tail to the head.
pub record IsSorted (s : Store) (count : ℕ) (e : ℕ → IndexEntry) : Type 0 where
  pub reads : (i : ℕ) → i < count → entry_at s i ≡ ok (e i)
  pub sorted : (i j : ℕ) → i ≤ j → j < count → (e i).timestamp ≤ℤ (e j).timestamp
  pub small : count ≤ 2 ^ 31

pub middle :
    (left right : ℕ)
    → left ≤ right
    → right < 2 ^ 31
    → (left ≤ add32 left right / 2) × (add32 left right / 2 ≤ right)
middle left right le small = (omega arith, omega arith)

module _ (s : Store) (count : ℕ) (e : ℕ → IndexEntry) (h : IsSorted s count e) (t : ℤ) where
  -- Every block before r starts before t.
  abbrev pub Before : ℕ → Type 0
  Before r = (i : ℕ) → i < r → (e i).timestamp <ℤ t

  -- Every block after r starts after t.
  abbrev pub After : ℕ → Type 0
  After r = (i : ℕ) → r < i → i < count → t <ℤ (e i).timestamp

  -- Block r does not start before t, or is the oldest.
  abbrev pub StartsAt : ℕ → Type 0
  StartsAt r = (r ≡ 0) ⊎ (t ≤ℤ (e r).timestamp)

  search_first :
      (fuel left right result : ℕ)
      → left ≤ suc right
      → right < count
      → suc right - left < fuel
      → result < count
      → Before left
      → (result ≡ 0) ⊎ (result ≡ suc right)
      → StartsAt result
      → (r : ℕ) × (search_offset fuel t true left right result s ≡ ok r)
        × (r < count)
        × Before r
        × StartsAt r
  unfolding search_offset
  search_first zero left right result le in_range fuel_ok small before at starts =
      absurd (omega arith)
  search_first (suc fuel) left right result le in_range fuel_ok small before at starts =
      elim (Bool-cases (leb left right)) [
        | inr over ↦
            let past : right < left = ground (arith, over) in
            (
              result,
              rw (over, search_offset) refl,
              small,
              λ i lt. before i (omega (arith, at)),
              starts,
            )
        | inl more ↦
            let order : left ≤ right = ground (arith, more) in
            let (low, high) = middle left right order (omega (arith, h.small)) in
            let mid = add32 left right / 2 in
            let read = h.reads mid (omega (arith, high)) in
            elim (Bool-cases (leb_ℤ t (e mid).timestamp)) [
              | inl found ↦ elim (Bool-cases (mid == 0)) [
                | inl none ↦ (
                  mid,
                  rw (more, search_offset, read, found, none) refl,
                  omega (arith, high),
                  λ i lt. absurd (omega (arith, lt, eq_of_test mid 0 none)),
                  inl (eq_of_test mid 0 none),
                )
                | inr some ↦
                    let pos_mid = ne_of_test mid 0 some in
                    let down : sub32 mid 1 ≡ mid - 1 = omega (arith, pos_mid, high, h.small) in
                    let rest =
                      search_first fuel left (mid - 1) mid (omega (arith, low, pos_mid))
                        (omega (arith, high)) (omega (arith, low, high, pos_mid))
                        (omega (arith, high)) before (inr (omega (arith, pos_mid)))
                        (inr (le_test t (e mid).timestamp found)) in
                    let stepped : search_offset (suc fuel) t true left right result s
                        ≡ search_offset fuel t true left (mid - 1) mid s =
                      rw (more, search_offset, read, found, some, down) refl in
                    (rest.0, stepped ∙ rest.1, rest.2, rest.3, rest.4)
              ]
              | inr not_yet ↦
                  let up : add32 mid 1 ≡ suc mid = omega (arith, high, h.small) in
                  let rest =
                    search_first fuel (suc mid) right result (omega (arith, high)) in_range
                      (omega (arith, low, high)) small
                      (λ i lt.
                        let le_mid = h.sorted i mid (omega arith) (omega (arith, high)) in
                        let below = gt_test t (e mid).timestamp not_yet in
                        omega (arith, le_mid, below))
                      at starts in
                  let stepped : search_offset (suc fuel) t true left right result s
                      ≡ search_offset fuel t true (suc mid) right result s =
                    rw (more, search_offset, read, not_yet, up) refl in
                  (rest.0, stepped ∙ rest.1, rest.2, rest.3, rest.4)
            ]
      ]

  -- The first offset that may lie in a range from t on.
  pub find_offset-first :
      (right : ℕ)
      → right < count
      → (r : ℕ) × (find_offset_for_time_locked t 0 right true s ≡ ok r)
        × (r < count)
        × Before r
        × StartsAt r
  unfolding find_offset_for_time_locked
  find_offset-first right lt =
      search_first (suc (suc right)) 0 right 0 (omega arith) lt (omega arith) (omega arith)
        (λ i below. absurd (omega (arith, below))) (inl refl) (inl refl)

  search_last :
      (fuel left right result : ℕ)
      → left ≤ suc right
      → right < count
      → suc right - left < fuel
      → result < count
      → After right
      → ((left ≡ 0) × (result ≡ 0)) ⊎ (left ≡ suc result)
      → (r : ℕ) × (search_offset fuel t false left right result s ≡ ok r) × (r < count) × After r
  unfolding search_offset
  search_last zero left right result le in_range fuel_ok small after at = absurd (omega arith)
  search_last (suc fuel) left right result le in_range fuel_ok small after at =
      elim (Bool-cases (leb left right)) [
        | inr over ↦
            let past : right < left = ground (arith, over) in
            (
              result,
              rw (over, search_offset) refl,
              small,
              λ i lt in_count. after i (omega (arith, at, past, lt)) in_count,
            )
        | inl more ↦
            let order : left ≤ right = ground (arith, more) in
            let (low, high) = middle left right order (omega (arith, h.small)) in
            let mid = add32 left right / 2 in
            let read = h.reads mid (omega (arith, high)) in
            elim (Bool-cases (leb_ℤ (e mid).timestamp t)) [
              | inl found ↦
                  let up : add32 mid 1 ≡ suc mid = omega (arith, high, h.small) in
                  let rest =
                    search_last fuel (suc mid) right mid (omega (arith, high)) in_range
                      (omega (arith, low, high)) (omega (arith, high)) after (inr refl) in
                  let stepped : search_offset (suc fuel) t false left right result s
                      ≡ search_offset fuel t false (suc mid) right mid s =
                    rw (more, search_offset, read, found, up) refl in
                  (rest.0, stepped ∙ rest.1, rest.2, rest.3)
              | inr late ↦
                  let above = gt_test (e mid).timestamp t late in
                  let from_mid : (i : ℕ) → mid ≤ i → i < count → t <ℤ (e i).timestamp =
                    λ i ge lt. (let grows = h.sorted mid i ge lt in omega (arith, grows, above)) in
                  elim (Bool-cases (mid == 0)) [
                    | inl none ↦ (
                      result,
                      rw (more, search_offset, read, late, none) refl,
                      small,
                      λ i lt in_count. from_mid i (omega (arith, eq_of_test mid 0 none)) in_count,
                    )
                    | inr some ↦
                        let pos_mid = ne_of_test mid 0 some in
                        let down : sub32 mid 1 ≡ mid - 1 = omega (arith, pos_mid, high, h.small) in
                        let rest =
                          search_last fuel left (mid - 1) result (omega (arith, low, pos_mid))
                            (omega (arith, high)) (omega (arith, low, high, pos_mid)) small
                            (λ i lt in_count. from_mid i (omega (arith, lt, pos_mid)) in_count)
                            at in
                        let stepped : search_offset (suc fuel) t false left right result s
                            ≡ search_offset fuel t false left (mid - 1) result s =
                          rw (more, search_offset, read, late, some, down) refl in
                        (rest.0, stepped ∙ rest.1, rest.2, rest.3)
                  ]
            ]
      ]

  -- The last offset that may lie in a range up to t.
  pub find_offset-last :
      (right : ℕ)
      → suc right ≡ count
      → (r : ℕ) × (find_offset_for_time_locked t 0 right false s ≡ ok r) × (r < count) × After r
  unfolding find_offset_for_time_locked
  find_offset-last right all =
      search_last (suc (suc right)) 0 right 0 (omega arith) (omega arith) (omega arith)
        (omega arith) (λ i above in_count. absurd (omega (arith, above, in_count)))
        (inl (refl, refl))
