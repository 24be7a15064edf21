-- ===== src/Store/Contents/Listing.antt =====
-- `GetOldestObjects` and `GetObject` (pkg/store/object.go) on a store with a known content.
use ts_store.Prelude.{
  min, length-take, ℕ, zero, suc, ◌+◌, ◌%◌, ◌^◌, ◌≤◌, ◌<◌, ◌≡◌, refl, sym, ap, ◌∙◌, inl, inr, true,
  false, List, [], ◌∷◌, ◌++◌, length, length-append, take, take_all, append_assoc, append-nil,
  arith, leb, le→leb, gt→leb, if◌then◌else◌, Bool-cases,
}
use mathlib.Core.Path.{subst}
use ts_store.Prelude.Int.{ℤ, pos, negsuc}
use ts_store.Word.{add32, sub32}
use ts_store.Store.State.Errors.{Result, ok}
use ts_store.Store.State.{Store}
use ts_store.Store.Valid.{IsValid}
use ts_store.Store.Packed.{ObjectHandle}
use ts_store.Store.Packed.Read.{scan_block_objects}
use ts_store.Store.Packed.Scan.{object_handles, scan_block_objects-Holds}
use ts_store.Store.Index.{active_block_count, block_num_from_offset, when_open-IsOpen}
use ts_store.Store.Objects.Query.{
  get_oldest_objects, oldest_from, append_oldest, wants_more, is_full,
}
use ts_store.Store.Contents.{Pack, Packs, Placed, Older, Stores, address, Older-append, two_cases}

-- The handles of all objects, oldest first.
abbrev pub handles_from : Store → ℕ → List Pack → List ObjectHandle
handles_from s i [] = []
handles_from s i (k ∷ ks) =
    object_handles (address s i) 24 (k.first ∷ k.rest) ++ handles_from s (suc i) ks

abbrev pub handles : Store → Packs → List ObjectHandle
handles s p = handles_from s 0 (p.older ++ (p.current ∷ []))

-- A positive limit takes that many; any other limit takes all.
abbrev pub limited {ℓ} : {A : Type ℓ} → ℤ → List A → List A
limited (pos zero) xs = xs
limited (pos (suc n)) xs = take (suc n) xs
limited (negsuc n) xs = xs

take-take-append {ℓ} :
    {A : Type ℓ} (n : ℕ) (xs ys : List A) → take n (take n xs ++ ys) ≡ take n (xs ++ ys)
take-take-append zero xs ys = refl
take-take-append (suc n) [] ys = refl
take-take-append (suc n) (x ∷ xs) ys = rw (take-take-append n xs ys)

pub take-append_all {ℓ} :
    {A : Type ℓ} (n : ℕ) (xs ys : List A) → n ≡ length xs → take n (xs ++ ys) ≡ xs
take-append_all zero [] ys h = refl
take-append_all zero (x ∷ xs) ys h = absurd (omega arith)
take-append_all (suc n) [] ys h = absurd (omega arith)
take-append_all (suc n) (x ∷ xs) ys h = rw (take-append_all n xs ys (omega arith))

-- Room under a limit for a list that is not cut.
abbrev pub IsUnder : ℤ → List ObjectHandle → Type 0
IsUnder limit acc = limited limit acc ≡ acc

append_oldest_all :
    (limit : ℤ) (acc hs : List ObjectHandle)
    → ((xs : List ObjectHandle) → is_full limit xs ≡ false)
    → append_oldest limit acc hs ≡ acc ++ hs
unfolding append_oldest
append_oldest_all limit acc [] h = sym (append-nil acc)
append_oldest_all limit acc (x ∷ hs) h =
    rw (h (acc ++ (x ∷ [])), append_oldest)
      (append_oldest_all limit (acc ++ (x ∷ [])) hs h ∙ append_assoc acc (x ∷ []) hs)

append_oldest_some :
    (n : ℕ) (acc hs : List ObjectHandle)
    → length acc < suc n
    → append_oldest (pos (suc n)) acc hs ≡ take (suc n) (acc ++ hs)
unfolding append_oldest
append_oldest_some n acc [] lt =
    sym (ap (take (suc n)) (append-nil acc) ∙ take_all (suc n) acc (omega arith))
append_oldest_some n acc (x ∷ hs) lt =
    let len : length (acc ++ (x ∷ [])) ≡ length acc + 1 = length-append acc (x ∷ []) in
    let same : (acc ++ (x ∷ [])) ++ hs ≡ acc ++ (x ∷ hs) = append_assoc acc (x ∷ []) hs in
    elim (Bool-cases (is_full (pos (suc n)) (acc ++ (x ∷ [])))) [
      | inl full ↦
          rw (full, append_oldest)
            (sym (
              ap (take (suc n)) (sym same)
              ∙ take-append_all (suc n) (acc ++ (x ∷ [])) hs (ground (arith, full, len))))
      | inr more ↦
          rw (more, append_oldest)
            (append_oldest_some n (acc ++ (x ∷ [])) hs (ground (arith, more, len))
              ∙ ap (take (suc n)) same)
    ]

append_oldest-limited :
    (limit : ℤ) (acc hs : List ObjectHandle)
    → wants_more limit acc ≡ true
    → append_oldest limit acc hs ≡ limited limit (acc ++ hs)
append_oldest-limited (pos zero) acc hs more = append_oldest_all (pos zero) acc hs (λ xs. refl)
append_oldest-limited (negsuc n) acc hs more =
    append_oldest_all (negsuc n) acc hs (λ xs. ground arith)
append_oldest-limited (pos (suc n)) acc hs more = append_oldest_some n acc hs (ground (arith, more))

-- A list that fills its limit takes no more.
pub limited-full :
    (limit : ℤ) (acc hs : List ObjectHandle)
    → IsUnder limit acc
    → wants_more limit acc ≡ false
    → limited limit (acc ++ hs) ≡ acc
limited-full (pos zero) acc hs under full = absurd (ground (arith, full))
limited-full (negsuc n) acc hs under full = absurd (ground (arith, full))
limited-full (pos (suc n)) acc hs under full =
    let len : length acc ≡ min (suc n) (length acc) =
      ap length (sym under) ∙ length-take (suc n) acc in
    take-append_all (suc n) acc hs (ground (arith, len, full))

pub limited-append :
    (limit : ℤ) (xs ys : List ObjectHandle)
    → limited limit (limited limit xs ++ ys) ≡ limited limit (xs ++ ys)
limited-append (pos zero) xs ys = refl
limited-append (negsuc n) xs ys = refl
limited-append (pos (suc n)) xs ys = take-take-append (suc n) xs ys

pub limited-IsUnder : (limit : ℤ) (xs : List ObjectHandle) → IsUnder limit (limited limit xs)
limited-IsUnder limit xs =
    ap (limited limit) (sym (append-nil (limited limit xs)))
    ∙ limited-append limit xs []
    ∙ ap (limited limit) (append-nil xs)

pub block_num-address :
    (s : Store) (i : ℕ)
    → IsValid s
    → s.meta.num_blocks ≤ 2 ^ 31
    → i < s.meta.num_blocks
    → block_num_from_offset s i ≡ address s i
unfolding block_num_from_offset
block_num-address s i v small lt = ap (λ k. k % s.meta.num_blocks) (omega (arith, v.tail_in))

pub scan-Placed :
    (s : Store) (b : ℕ) (k : Pack) (end : ℕ)
    → IsValid s
    → Placed s b k end
    → scan_block_objects b s ≡ ok (object_handles b 24 (k.first ∷ k.rest))
scan-Placed s b k end v p =
    scan_block_objects-Holds s b k.first k.rest end p.inside v.size_fits p.holds

oldest_from-Older :
    (s : Store) (i : ℕ) (limit : ℤ) (acc : List ObjectHandle) (ks : List Pack)
    → IsValid s
    → s.meta.num_blocks ≤ 2 ^ 31
    → i + length ks ≤ s.meta.num_blocks
    → Older s i ks
    → IsUnder limit acc
    → oldest_from (length ks) i limit acc s ≡ ok (limited limit (acc ++ handles_from s i ks))
unfolding oldest_from
oldest_from-Older s i limit acc [] v small le o under =
    ap {B = Result (List ObjectHandle)} ok (sym (ap (limited limit) (append-nil acc) ∙ under))
oldest_from-Older s i limit acc (k ∷ ks) v small le o under =
    elim (Bool-cases (wants_more limit acc)) [
      | inr full ↦
          rw (full, oldest_from)
            (ap {B = Result (List ObjectHandle)} ok
              (sym (limited-full limit acc (handles_from s i (k ∷ ks)) under full)))
      | inl more ↦
          let here = object_handles (address s i) 24 (k.first ∷ k.rest) in
          let scanned : scan_block_objects (block_num_from_offset s i) s ≡ ok here =
            ap (λ b. scan_block_objects b s) (block_num-address s i v small (omega arith))
            ∙ scan-Placed s (address s i) k o.0.0 v o.0.1 in
          let next : i + 1 ≡ suc i = omega arith in
          let added : append_oldest limit acc here ≡ limited limit (acc ++ here) =
            append_oldest-limited limit acc here more in
          rw (more, oldest_from, scanned, next, added)
            (oldest_from-Older s (suc i) limit (limited limit (acc ++ here)) ks v small
                (omega arith) o.1 (limited-IsUnder limit (acc ++ here))
              ∙ ap {B = Result (List ObjectHandle)} ok (
                  limited-append limit (acc ++ here) (handles_from s (suc i) ks)
                  ∙ ap (limited limit) (append_assoc acc here (handles_from s (suc i) ks))))
    ]

-- The full blocks and the current block, one behind the other.
pub all_blocks : (s : Store) (p : Packs) → Stores s p → Older s 0 (p.older ++ (p.current ∷ []))
all_blocks s p st =
    Older-append s 0 (length p.older) p.older p.current s.meta.write_offset (omega arith) st.older
      (subst (λ b. Placed s b p.current s.meta.write_offset) st.head st.current)

steps_to_head :
    (t n count h : ℕ)
    → t < n
    → count < n
    → n < 2 ^ 32
    → h ≡ (t + count) % n
    → (if leb t h then add32 (sub32 h t) 1 else add32 (add32 (sub32 n t) h) 1) ≡ count + 1
steps_to_head t n count h ht hc fits e = elim (two_cases (t + count) n (omega arith)) [
  | inl (lt, same) ↦
      let ahead : leb t h ≡ true = le→leb t h (omega (arith, e, same)) in
      rw ahead (omega (arith, e, same, lt))
  | inr (le, same) ↦
      let behind : leb t h ≡ false = gt→leb t h (omega (arith, e, same, le)) in
      rw behind (omega (arith, e, same, le))
]

-- The blocks from the tail to the head are as many as the packs.
pub active_block_count-Stores :
    (s : Store) (p : Packs)
    → Stores s p
    → active_block_count s ≡ length (p.older ++ (p.current ∷ []))
unfolding active_block_count
active_block_count-Stores s p st =
    steps_to_head s.meta.tail_block s.meta.num_blocks (length p.older) s.meta.head_block
      st.valid.tail_in st.count st.valid.blocks_fit st.head
    ∙ sym (length-append p.older (p.current ∷ []))

-- In a store with a known content and at most 2^31 blocks, `GetOldestObjects` lists the handles
-- of the stored objects in the order in which they were stored, all of them or, under a positive
-- limit, that many.
pub get_oldest_objects-Stores :
    (s : Store) (p : Packs) (limit : ℤ)
    → Stores s p
    → s.meta.num_blocks ≤ 2 ^ 31
    → get_oldest_objects limit s ≡ ok (limited limit (handles s p))
unfolding get_oldest_objects
get_oldest_objects-Stores s p limit st small =
    when_open-IsOpen s (oldest_from (active_block_count s) 0 limit [] s) st.is_open
    ∙ ap (λ n. oldest_from n 0 limit [] s) (active_block_count-Stores s p st)
    ∙ oldest_from-Older s 0 limit [] (p.older ++ (p.current ∷ [])) st.valid small
        (omega (arith, length-append p.older (p.current ∷ []), st.count)) (all_blocks s p st)
        (under limit)
  where
    under : (l : ℤ) → IsUnder l []
    under (pos zero) = refl
    under (pos (suc n)) = refl
    under (negsuc n) = refl
