-- ===== src/Store/Freelist/Skip.antt =====
-- The loop of `reclaimOldestBlock` (pkg/store/freelist.go) that moves the tail past continuation blocks
-- ends, and changes nothing but the tail and the index.
use ts_store.Prelude.{
  ℕ, zero, suc, ◌+◌, ◌-◌, ◌%◌, ◌^◌, ◌≤◌, ◌<◌, ◌≡◌, sym, ap, ◌∙◌, ◌≢◌, inl, inr, arith, leb, ◌==◌,
  Bool-cases, ◌⊎◌, false, length, ltb,
}
use mathlib.Core.Path.{subst}
use native.Mathlib.Nat.{mod-add-mod, mod-eq_of_lt, mod-lt, mod_self}
use ts_store.Word.{add32}
use ts_store.File.{File, write_at}
use ts_store.Block.BlockHeader
use ts_store.Block.IndexEntry
use ts_store.Block.BlockHeader.{BlockHeader}
use ts_store.Store.State.Access.{At, At-write_at, Frame-index_entry}
use ts_store.Store.State.Errors.{Err, Result, ok, err}
use ts_store.Store.State.{Store, index_offset, read_block_header, write_index_entry}
use ts_store.Store.Valid.{Result-cases, size-write_at}
use ts_store.Store.Freelist.{next_block, empty_entry, clear_index_entry, skip_continuations}

-- A state that differs in the tail, the index and the data file.
abbrev pub moved : Store → ℕ → File → File → Store
moved s tail index f = record s {
  meta = record (s.meta) { tail_block = tail };
  index_file = index;
  data_file = f;
}

-- The index entry of the block is the empty one.
abbrev pub IsUnused : File → ℕ → Type 0
IsUnused f b = At f (index_offset b) (IndexEntry.encode (empty_entry b))

pub record Skipped (s : Store) (fuel : ℕ) : Type 0 where
  pub tail : ℕ
  pub index : File
  pub runs : skip_continuations fuel s ≡ (ok tt, moved s tail index s.data_file)
  pub tail_in : tail < s.meta.num_blocks
  pub grows : s.index_file.size ≤ index.size
  -- The head ends the walk, or a block that is no continuation.
  pub stops :
      (tail ≡ s.meta.head_block)
      ⊎ ((h : BlockHeader)
          → read_block_header tail s ≡ ok h
          → BlockHeader.is_continuation h ≡ false)
  -- The entries that were empty stay empty.
  pub keeps : (b : ℕ) → IsUnused s.index_file b → IsUnused index b
  -- The walk comes to the block behind the head only if it starts there.
  pub before :
      s.meta.tail_block ≢ next_block s s.meta.head_block → tail ≢ next_block s s.meta.head_block

abbrev pub cleared_index : Store → File
cleared_index s =
    write_at s.index_file (index_offset s.meta.tail_block)
      (IndexEntry.encode (empty_entry s.meta.tail_block))

-- An entry that is cleared is empty, and the other empty ones stay.
pub cleared-IsUnused : (s : Store) → IsUnused (cleared_index s) s.meta.tail_block
cleared-IsUnused s = At-write_at s.index_file _ _

cleared-keeps : (s : Store) (b : ℕ) → IsUnused s.index_file b → IsUnused (cleared_index s) b
cleared-keeps s b u = elim (Bool-cases (b == s.meta.tail_block)) [
  | inl same ↦
      let e : s.meta.tail_block ≡ b = ground (arith, same) in
      subst (IsUnused (cleared_index s)) e (cleared-IsUnused s)
  | inr differ ↦
      Frame-index_entry s.index_file (index_offset s.meta.tail_block)
        (empty_entry s.meta.tail_block) (index_offset b) (IndexEntry.encode (empty_entry b))
        (apart b s.meta.tail_block (length (IndexEntry.encode (empty_entry b)))
          (ground (arith, differ)) (IndexEntry.length-encode (empty_entry b)))
        u
]
  where
    apart :
        (b t n : ℕ)
        → b ≢ t
        → n ≡ 16
        → (index_offset b + n ≤ index_offset t) ⊎ (index_offset t + 16 ≤ index_offset b)
    apart b t n ne e = ground (arith, ne, e)

next_lem :
    (t n : ℕ)
    → t < n
    → n < 2 ^ 32
    → ((suc t < n) × (add32 t 1 % n ≡ suc t)) ⊎ ((suc t ≡ n) × (add32 t 1 % n ≡ 0))
next_lem t n lt fits = elim (Bool-cases (ltb (suc t) n)) [
  | inl within ↦
      let le : suc t < n = ground (arith, within) in
      let one : add32 t 1 ≡ suc t = omega arith in inl (le, rw one (mod-eq_of_lt le))
  | inr end ↦
      let e : suc t ≡ n = ground (arith, end, lt) in
      let one : add32 t 1 ≡ n = omega arith in inr (e, rw one (mod_self n))
]

-- Two blocks with the same block behind them are the same, and with two blocks or more no block is behind itself.
next_injective : (t u n : ℕ) → t < n → u < n → n < 2 ^ 32 → add32 t 1 % n ≡ add32 u 1 % n → t ≡ u
next_injective t u n lt lu fits e = elim (next_lem t n lt fits) [
  | inl (_, a) ↦ elim (next_lem u n lu fits) [
    | inl (_, b) ↦ omega (arith, a, b, e)
    | inr (_, b) ↦ absurd (omega (arith, a, b, e))
  ]
  | inr (p, a) ↦ elim (next_lem u n lu fits) [
    | inl (_, b) ↦ absurd (omega (arith, a, b, e))
    | inr (q, b) ↦ omega (arith, p, q)
  ]
]

pub next_differs : (t n : ℕ) → t < n → n < 2 ^ 32 → 1 < n → add32 t 1 % n ≢ t
next_differs t n lt fits two e = elim (next_lem t n lt fits) [
  | inl (_, a) ↦ absurd (omega (arith, a, e))
  | inr (p, a) ↦ absurd (omega (arith, p, a, e, two))
]

stay :
    (s : Store) (fuel : ℕ)
    → s.meta.tail_block < s.meta.num_blocks
    → skip_continuations fuel s ≡ (ok tt, s)
    → (s.meta.tail_block ≡ s.meta.head_block)
      ⊎ ((h : BlockHeader)
          → read_block_header s.meta.tail_block s ≡ ok h
          → BlockHeader.is_continuation h ≡ false)
    → Skipped s fuel
stay s fuel h e stops = record {
  tail = s.meta.tail_block;
  index = s.index_file;
  runs = e;
  tail_in = h;
  grows = omega arith;
  stops = stops;
  keeps = λ b u. u;
  before = λ ne. ne;
}

-- One step of the tail brings it nearer to the head.
step_nearer :
    (t d n head : ℕ)
    → t < n
    → n < 2 ^ 32
    → (t + d) % n ≡ head
    → t ≢ head
    → (0 < d) × ((add32 t 1 % n + (d - 1)) % n ≡ head)
step_nearer t zero n head lt fits e ne =
    absurd (ne (sym (mod-eq_of_lt lt) ∙ ap (λ k. k % n) (omega arith) ∙ e))
step_nearer t (suc d) n head lt fits e ne = (
  omega arith,
  ap (λ k. (k % n + (suc d - 1)) % n) one
      ∙ mod-add-mod (t + 1) n (suc d - 1)
      ∙ ap (λ k. k % n) (omega arith)
      ∙ e,
)
  where
    one : add32 t 1 ≡ t + 1
    one = omega arith

unread : (x : Err) (h : BlockHeader) → ◌≢◌ {A = Result BlockHeader} (err x) (ok h)
unread x h e = ground (arith, e)

pub same_header :
    (h k : BlockHeader)
    → ◌≡◌ {A = Result BlockHeader} (ok h) (ok k)
    → BlockHeader.is_continuation h ≡ false
    → BlockHeader.is_continuation k ≡ false
same_header h k e f =
    ap (λ r. elim r [ err x ↦ false | ok j ↦ BlockHeader.is_continuation j ]) (sym e) ∙ f

head_in :
    (s : Store) (d : ℕ)
    → s.meta.tail_block < s.meta.num_blocks
    → (s.meta.tail_block + d) % s.meta.num_blocks ≡ s.meta.head_block
    → s.meta.head_block < s.meta.num_blocks
head_in s d h e = subst (λ k. k < s.meta.num_blocks) e (mod-lt _ (omega (arith, h)))

differ_of_test : (a b : ℕ) → (a == b) ≡ false → a ≢ b
differ_of_test a b h e = ground (arith, h, e)

-- The loop of `reclaimOldestBlock` that passes over continuation blocks ends: with fewer than
-- 2^32 blocks, the tail one of them and the head d steps ahead of it, more than d rounds of fuel
-- suffice, and the loop changes nothing but the tail and the index file, which does not shrink. The
-- tail that it leaves is the head or a block whose header, if it can be read, is of no continuation;
-- it is the block behind the head only if the walk starts there; and index entries that were empty stay so.
pub skip_total :
    (fuel d : ℕ) (s : Store)
    → d < fuel
    → s.meta.num_blocks < 2 ^ 32
    → s.meta.tail_block < s.meta.num_blocks
    → (s.meta.tail_block + d) % s.meta.num_blocks ≡ s.meta.head_block
    → Skipped s fuel
unfolding skip_continuations clear_index_entry write_index_entry read_block_header
skip_total zero d s lt fits h e = absurd (omega arith)
skip_total (suc fuel) d s lt fits h e = elim (Bool-cases (s.meta.tail_block == s.meta.head_block)) [
  | inl same ↦ stay s (suc fuel) h (rw (same, skip_continuations)) (inl (ground (arith, same)))
  | inr apart ↦ elim (Result-cases (read_block_header s.meta.tail_block s)) [
    | inr (x, bad) ↦
        stay s (suc fuel) h (rw (apart, skip_continuations, bad))
          (inr (λ k read. absurd (unread x k (sym bad ∙ read))))
    | inl (header, good) ↦ elim (Bool-cases (BlockHeader.is_continuation header)) [
      | inr primary ↦
          stay s (suc fuel) h (rw (apart, skip_continuations, good, primary))
            (inr (λ k read. same_header header k (sym good ∙ read) primary))
      | inl cont ↦
          let near =
            step_nearer s.meta.tail_block d s.meta.num_blocks s.meta.head_block h fits e
              (ground arith) in
          let next = moved s (next_block s s.meta.tail_block) (cleared_index s) s.data_file in
          let rest =
            skip_total fuel (d - 1) next (omega (arith, near.0)) fits (mod-lt _ (omega arith))
              near.1 in
          record {
            tail = rest.tail;
            index = rest.index;
            runs = rw (apart, skip_continuations, good, cont) rest.runs;
            tail_in = rest.tail_in;
            grows = omega (
              arith,
              rest.grows,
              size-write_at s.index_file (index_offset s.meta.tail_block)
                  (IndexEntry.encode (empty_entry s.meta.tail_block)),
            );
            stops = rest.stops;
            keeps = λ b u. rest.keeps b (cleared-keeps s b u);
            before = λ ne. rest.before (λ e'. differ_of_test _ _ apart (
                next_injective s.meta.tail_block s.meta.head_block s.meta.num_blocks h
                  (head_in s d h e) fits e'));
          }
    ]
  ]
]

-- From any tail the head is at most `num_blocks` steps ahead.
pub distance : (t head n : ℕ) → t < n → head < n → (d : ℕ) × (d < suc n) × ((t + d) % n ≡ head)
distance t head n ht hh = elim (Bool-cases (leb t head)) [
  | inl ahead ↦
      let e : t + (head - t) ≡ head = ground arith in
      (head - t, omega arith, rw e (mod-eq_of_lt hh))
  | inr behind ↦
      let e : t + (head + n - t) ≡ head + n = ground arith in
      (head + n - t, ground arith, rw e (grind arith))
]
