-- ===== src/Store/Contents/Newest.antt =====
-- `GetNewestObjects` (pkg/store/object.go) on a store with a known content.
use ts_store.Prelude.{
  ℕ, zero, suc, ◌+◌, ◌≤◌, ◌<◌, ◌^◌, ◌≡◌, refl, sym, ap, ◌∙◌, inl, inr, true, false, List, [], ◌∷◌,
  ◌++◌, length, length-append, take, take_all, length-take, append_assoc, append-nil, arith,
  Bool-cases, if◌then◌else◌,
}
use mathlib.Core.Path.{subst}
use mathlib.Core.List.{reverse, reverse-append}
use ts_store.Prelude.Int.{pos, ltb_ℤ}
use ts_store.Store.State.Errors.{Result, ok, err, negative_capacity}
use ts_store.Store.State.{Store}
use ts_store.Store.Valid.{IsValid}
use ts_store.Store.Packed.{ObjectHandle}
use ts_store.Store.Packed.Read.{scan_block_objects}
use ts_store.Store.Packed.Scan.{object_handles}
use ts_store.Store.Index.{active_block_count, block_num_from_offset, when_open-IsOpen}
use ts_store.Store.Objects.Query.{get_newest_objects, newest_from, append_newest, wants_more}
use ts_store.Store.Contents.{Pack, Packs, Placed, Older, Stores, address}
use ts_store.Store.Contents.Listing.{
  handles, handles_from, limited, IsUnder, limited-full, limited-append, limited-IsUnder,
  block_num-address, scan-Placed, active_block_count-Stores, all_blocks,
}

-- A list with room for one more stays under its limit.
IsUnder-more :
    (limit : ℕ) (acc : List ObjectHandle) (h : ObjectHandle)
    → wants_more (pos limit) acc ≡ true
    → IsUnder (pos limit) (acc ++ (h ∷ []))
IsUnder-more zero acc h more = refl
IsUnder-more (suc n) acc h more =
    take_all (suc n) (acc ++ (h ∷ [])) (ground (arith, more, length-append acc (h ∷ [])))

append_newest-limited :
    (limit : ℕ) (acc hs : List ObjectHandle)
    → IsUnder (pos limit) acc
    → append_newest (pos limit) acc hs ≡ limited (pos limit) (acc ++ hs)
unfolding append_newest
append_newest-limited limit acc [] under = sym (ap (limited (pos limit)) (append-nil acc) ∙ under)
append_newest-limited limit acc (h ∷ hs) under = elim (Bool-cases (wants_more (pos limit) acc)) [
  | inr full ↦ rw (full, append_newest) (sym (limited-full (pos limit) acc (h ∷ hs) under full))
  | inl more ↦
      rw (more, append_newest)
        (append_newest-limited limit (acc ++ (h ∷ [])) hs (IsUnder-more limit acc h more)
          ∙ ap (limited (pos limit)) (append_assoc acc (h ∷ []) hs))
]

handles_from-append :
    (s : Store) (i n : ℕ) (ks : List Pack) (k : Pack)
    → i + length ks ≡ n
    → handles_from s i (ks ++ (k ∷ []))
      ≡ handles_from s i ks ++ object_handles (address s n) 24 (k.first ∷ k.rest)
handles_from-append s i n [] k e =
    let same : i ≡ n = omega arith in
    append-nil (object_handles (address s i) 24 (k.first ∷ k.rest))
    ∙ ap (λ x. object_handles (address s x) 24 (k.first ∷ k.rest)) same
handles_from-append s i n (k' ∷ ks) k e =
    let here = object_handles (address s i) 24 (k'.first ∷ k'.rest) in
    ap (λ l. here ++ l) (handles_from-append s (suc i) n ks k (omega arith))
    ∙ sym (
        append_assoc here (handles_from s (suc i) ks)
          (object_handles (address s n) 24 (k.first ∷ k.rest)))

-- The block at an offset, as the last of the blocks up to there.
pub record LastOf (s : Store) (j i : ℕ) (ks : List Pack) : Type 0 where
  pub pack : Pack
  pub end : ℕ
  pub placed : Placed s (address s (j + i)) pack end
  pub split : take (suc i) ks ≡ take i ks ++ (pack ∷ [])

pub last_of :
    (s : Store) (j i : ℕ) (ks : List Pack) → i < length ks → Older s j ks → LastOf s j i ks
last_of s j i [] lt o = absurd (omega arith)
last_of s j zero (k ∷ ks) lt o = record {
  pack = k;
  end = o.0.0;
  placed = subst (λ x. Placed s (address s x) k o.0.0) (omega arith) o.0.1;
  split = refl;
}
last_of s j (suc i) (k ∷ ks) lt o =
    let rest = last_of s (suc j) i ks (omega arith) o.1 in
    record {
      pack = rest.pack;
      end = rest.end;
      placed = subst (λ x. Placed s (address s x) rest.pack rest.end) (omega arith) rest.placed;
      split = ap (λ l. k ∷ l) rest.split;
    }

newest_from-Older :
    (s : Store) (limit i : ℕ) (acc : List ObjectHandle) (ks : List Pack)
    → IsValid s
    → s.meta.num_blocks ≤ 2 ^ 31
    → length ks ≤ s.meta.num_blocks
    → i ≤ length ks
    → Older s 0 ks
    → IsUnder (pos limit) acc
    → newest_from i (pos limit) acc s
      ≡ ok (limited (pos limit) (acc ++ reverse (handles_from s 0 (take i ks))))
unfolding newest_from
newest_from-Older s limit zero acc ks v small le at o under =
    ap {B = Result (List ObjectHandle)} ok (sym (ap (limited (pos limit)) (append-nil acc) ∙ under))
newest_from-Older s limit (suc i) acc ks v small le at o under =
    let b = last_of s 0 i ks (omega arith) o in
    let here = object_handles (address s i) 24 (b.pack.first ∷ b.pack.rest) in
    let before = handles_from s 0 (take i ks) in
    let shown : handles_from s 0 (take (suc i) ks) ≡ before ++ here =
      ap (handles_from s 0) b.split
      ∙ handles_from-append s 0 i (take i ks) b.pack (omega (arith, length-take i ks)) in
    let turned : reverse (handles_from s 0 (take (suc i) ks)) ≡ reverse here ++ reverse before =
      ap reverse shown ∙ reverse-append before here in
    elim (Bool-cases (wants_more (pos limit) acc)) [
      | inr full ↦
          rw (full, newest_from)
            (ap {B = Result (List ObjectHandle)} ok (
              sym (
                limited-full (pos limit) acc (reverse (handles_from s 0 (take (suc i) ks))) under
                  full)))
      | inl more ↦
          let scanned : scan_block_objects (block_num_from_offset s i) s ≡ ok here =
            ap (λ x. scan_block_objects x s) (block_num-address s i v small (omega arith))
            ∙ scan-Placed s (address s i) b.pack b.end v
                (subst (λ x. Placed s (address s x) b.pack b.end) (omega arith) b.placed) in
          let added = append_newest-limited limit acc (reverse here) under in
          rw (more, newest_from, scanned, added)
            (newest_from-Older s limit i (limited (pos limit) (acc ++ reverse here)) ks v small le
                (omega arith) o (limited-IsUnder (pos limit) (acc ++ reverse here))
              ∙ ap {B = Result (List ObjectHandle)} ok (
                  limited-append (pos limit) (acc ++ reverse here) (reverse before)
                  ∙ ap (limited (pos limit)) (
                      append_assoc acc (reverse here) (reverse before)
                      ∙ ap (λ l. acc ++ l) (sym turned))))
    ]

not_negative : (n : ℕ) → ltb_ℤ (pos n) (pos 0) ≡ false
not_negative n = ground arith

-- In a store with a known content and at most 2^31 blocks, `GetNewestObjects` lists the handles
-- of the stored objects, the last that was stored first: all of them for the limit 0, and that
-- many for a positive limit.
pub get_newest_objects-Stores :
    (s : Store) (p : Packs) (limit : ℕ)
    → Stores s p
    → s.meta.num_blocks ≤ 2 ^ 31
    → get_newest_objects (pos limit) s ≡ ok (limited (pos limit) (reverse (handles s p)))
unfolding get_newest_objects
get_newest_objects-Stores s p limit st small =
    let all = p.older ++ (p.current ∷ []) in
    let len : length all ≡ length p.older + 1 = length-append p.older (p.current ∷ []) in
    let signed : ltb_ℤ (pos limit) (pos 0) ≡ false = not_negative limit in
    when_open-IsOpen s _ st.is_open
    ∙ ap
        (λ c.
          if c then err negative_capacity else newest_from (active_block_count s) (pos limit) [] s)
        signed
    ∙ ap (λ n. newest_from n (pos limit) [] s) (active_block_count-Stores s p st)
    ∙ newest_from-Older s limit (length all) [] all st.valid small (omega (arith, len, st.count))
        (omega arith) (all_blocks s p st) (under limit)
    ∙ ap (λ l. ok (limited (pos limit) (reverse (handles_from s 0 l))))
        (take_all (length all) all (omega arith))
  where
    under : (l : ℕ) → IsUnder (pos l) []
    under zero = refl
    under (suc n) = refl
