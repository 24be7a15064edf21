-- ===== src/Store/Contents/Between.antt =====
-- The outer loop of `GetObjectsInRange` (pkg/store/object.go) over the blocks of a store with a known content.
use ts_store.Prelude.{
  ℕ, zero, suc, ◌+◌, ◌^◌, ◌≤◌, ◌<◌, ◌≡◌, refl, sym, ap, ◌∙◌, inl, inr, true, false, List, [], ◌∷◌,
  ◌++◌, length, drop, append_assoc, append-nil, arith, Bool,
}
use mathlib.Core.Path.{subst}
use ts_store.Prelude.Int.{ℤ, pos, ◌≤ℤ◌, ◌<ℤ◌}
use ts_store.Store.State.Errors.{Result, ok}
use ts_store.Store.State.{Store}
use ts_store.Store.Valid.{IsValid}
use ts_store.Store.Packed.{ObjectHandle}
use ts_store.Store.Packed.Read.{scan_block_objects}
use ts_store.Store.Packed.Scan.{object_handles}
use ts_store.Store.Index.{block_num_from_offset}
use ts_store.Store.Objects.Query.{append_in_range, range_from}
use ts_store.Store.Contents.{Pack, Placed, Older, address}
use ts_store.Store.Contents.Listing.{handles_from, limited, block_num-address, scan-Placed}
use ts_store.Store.Contents.Walk.{
  Ascending, Ascending-append_right, in_range, in_range-append, HasRoom, HasRoom-IsUnder,
  append_in_range-Walked,
}

no_pack : Pack
no_pack = record { first = record { timestamp = pos 0; bytes = [] }; rest = [] }

-- The pack at a place of the list.
pub pack_at : List Pack → ℕ → Pack
pack_at [] j = no_pack
pack_at (k ∷ ks) zero = k
pack_at (k ∷ ks) (suc j) = pack_at ks j

pub Older-at :
    (s : Store) (i j : ℕ) (ks : List Pack)
    → Older s i ks
    → j < length ks
    → (end : ℕ) × Placed s (address s (i + j)) (pack_at ks j) end
unfolding pack_at
Older-at s i j [] o lt = absurd (omega arith)
Older-at s i zero (k ∷ ks) o lt =
    (o.0.0, subst (λ x. Placed s (address s x) k o.0.0) (omega arith) o.0.1)
Older-at s i (suc j) (k ∷ ks) o lt =
    let (end, p) = Older-at s (suc i) j ks o.1 (omega arith) in
    (end, subst (λ x. Placed s (address s x) (pack_at ks j) end) (omega arith) p)

pub Older-drop : (s : Store) (i j : ℕ) (ks : List Pack) → Older s i ks → Older s (i + j) (drop j ks)
Older-drop s i zero ks o = subst (λ x. Older s x ks) (omega arith) o
Older-drop s i (suc j) [] o = tt
Older-drop s i (suc j) (k ∷ ks) o =
    subst (λ x. Older s x (drop j ks)) (omega arith) (Older-drop s (suc i) j ks o.1)

module _ (s : Store) where
  pub Ascending-drop :
      (t : ℤ) (i j : ℕ) (ks : List Pack)
      → Ascending t (handles_from s i ks)
      → Ascending t (handles_from s (i + j) (drop j ks))
  Ascending-drop t i zero ks a = subst (λ x. Ascending t (handles_from s x ks)) (omega arith) a
  Ascending-drop t i (suc j) [] a = tt
  Ascending-drop t i (suc j) (k ∷ ks) a =
      subst (λ x. Ascending t (handles_from s x (drop j ks))) (omega arith)
        (Ascending-drop t (suc i) j ks (
          Ascending-append_right t (object_handles (address s i) 24 (k.first ∷ k.rest))
            (handles_from s (suc i) ks) a))

  -- The handles from a block on start with the block's first object.
  pub from_first :
      (t : ℤ) (i j : ℕ) (ks : List Pack)
      → Ascending t (handles_from s i ks)
      → j < length ks
      → (t <ℤ (pack_at ks j).first.timestamp)
        × ((u : ℤ)
            → u <ℤ (pack_at ks j).first.timestamp
            → Ascending u (handles_from s (i + j) (drop j ks)))
  unfolding pack_at
  from_first t i j [] a lt = absurd (omega arith)
  from_first t i zero (k ∷ ks) a lt =
      (a.0, λ u le. subst (λ x. Ascending u (handles_from s x (k ∷ ks))) (omega arith) (le, a.1))
  from_first t i (suc j) (k ∷ ks) a lt =
      let (here, later) =
        from_first t (suc i) j ks
          (Ascending-append_right t (object_handles (address s i) 24 (k.first ∷ k.rest))
            (handles_from s (suc i) ks) a)
          (omega arith) in
      (
        here,
        λ u le. subst (λ x. Ascending u (handles_from s x (drop j ks))) (omega arith) (later u le),
      )

  pub firsts_grow :
      (t : ℤ) (i x y : ℕ) (ks : List Pack)
      → Ascending t (handles_from s i ks)
      → x ≤ y
      → y < length ks
      → (pack_at ks x).first.timestamp ≤ℤ (pack_at ks y).first.timestamp
  unfolding pack_at
  firsts_grow t i x y [] a le lt = absurd (omega arith)
  firsts_grow t i zero zero (k ∷ ks) a le lt = omega arith
  firsts_grow t i (suc x) zero (k ∷ ks) a le lt = absurd (omega arith)
  firsts_grow t i zero (suc y) (k ∷ ks) a le lt =
      let next =
        from_first k.first.timestamp (suc i) y ks
          (Ascending-append_right k.first.timestamp
            (object_handles (address s i) (24 + 24 + length k.first.bytes) k.rest)
            (handles_from s (suc i) ks) a.1)
          (omega arith) in
      omega (arith, next.0)
  firsts_grow t i (suc x) (suc y) (k ∷ ks) a le lt =
      firsts_grow t (suc i) x y ks
        (Ascending-append_right t (object_handles (address s i) 24 (k.first ∷ k.rest))
          (handles_from s (suc i) ks) a)
        (omega arith) (omega arith)

module _ (s : Store) (start end limit : ℤ) (v : IsValid s)
    (small : s.meta.num_blocks ≤ 2 ^ 31) where
  -- What a block's handles leave to do.
  abbrev onward : ℕ → ℕ → List ObjectHandle × Bool → Result (List ObjectHandle)
  onward rounds i w = elim (w.1) [
    | true ↦ ok w.0
    | false ↦ range_from rounds (i + 1) start end limit w.0 s
  ]

  range_from-step :
      (rounds i : ℕ) (acc hs : List ObjectHandle)
      → scan_block_objects (block_num_from_offset s i) s ≡ ok hs
      → range_from (suc rounds) i start end limit acc s
        ≡ onward rounds i (append_in_range start end limit acc hs)
  unfolding range_from
  range_from-step rounds i acc hs e = rw (e, range_from) refl

  onward_stop :
      (rounds i : ℕ) (w : List ObjectHandle × Bool) → w.1 ≡ true → onward rounds i w ≡ ok w.0
  onward_stop rounds i w h = rw h refl

  onward_next :
      (rounds i : ℕ) (w : List ObjectHandle × Bool) (acc : List ObjectHandle)
      → w.1 ≡ false
      → w.0 ≡ acc
      → onward rounds i w ≡ range_from rounds (suc i) start end limit acc s
  onward_next rounds i w acc h e =
      let next : i + 1 ≡ suc i = omega arith in
      rw h (
        ap (λ a. range_from rounds (i + 1) start end limit a s) e
        ∙ ap (λ n. range_from rounds n start end limit acc s) next)

  -- The loop over as many blocks as hold something of the range.
  pub range_from-Older :
      (rounds i : ℕ) (t : ℤ) (acc : List ObjectHandle) (ks : List Pack)
      → HasRoom limit acc
      → i + length ks ≤ s.meta.num_blocks
      → rounds ≤ length ks
      → Older s i ks
      → Ascending t (handles_from s i ks)
      → in_range start end (handles_from s (i + rounds) (drop rounds ks)) ≡ []
      → range_from rounds i start end limit acc s
        ≡ ok (limited limit (acc ++ in_range start end (handles_from s i ks)))
  unfolding range_from
  range_from-Older zero i t acc ks room le fits o a rest =
      let none : in_range start end (handles_from s i ks) ≡ [] =
        ap (λ x. in_range start end (handles_from s x ks)) (omega arith) ∙ rest in
      ap {B = Result (List ObjectHandle)} ok (
        sym (HasRoom-IsUnder limit acc room)
        ∙ ap (limited limit) (sym (append-nil acc) ∙ ap (λ l. acc ++ l) (sym none)))
  range_from-Older (suc rounds) i t acc [] room le fits o a rest = absurd (omega arith)
  range_from-Older (suc rounds) i t acc (k ∷ ks) room le fits o a rest =
      let here = object_handles (address s i) 24 (k.first ∷ k.rest) in
      let later = handles_from s (suc i) ks in
      let scanned : scan_block_objects (block_num_from_offset s i) s ≡ ok here =
        ap (λ b. scan_block_objects b s) (block_num-address s i v small (omega arith))
        ∙ scan-Placed s (address s i) k o.0.0 v o.0.1 in
      let w = append_in_range start end limit acc here in
      range_from-step rounds i acc here scanned
      ∙ elim (append_in_range-Walked start end limit t acc here later room a) [
        | inl (stop, answer) ↦
            onward_stop rounds i w stop ∙ ap {B = Result (List ObjectHandle)} ok answer
        | inr (go_on, added, more) ↦
            onward_next rounds i w (acc ++ in_range start end here) go_on added
            ∙ range_from-Older rounds (suc i) t (acc ++ in_range start end here) ks more
                (omega arith) (omega arith) o.1 (Ascending-append_right t here later a)
                (ap (λ x. in_range start end (handles_from s x (drop rounds ks))) (omega arith)
                  ∙ rest)
            ∙ ap {B = Result (List ObjectHandle)} (λ l. ok (limited limit l))
                (append_assoc acc (in_range start end here) (in_range start end later)
                  ∙ ap (λ l. acc ++ l) (sym (in_range-append start end here later)))
      ]
