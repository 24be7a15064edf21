-- ===== src/Store/Contents.antt =====
-- The abstract view of a store: the packed blocks from the oldest to the one that is written, each
-- with its objects, and how this view survives writes to other blocks.
pub mod Spec
pub mod Append
pub mod NewBlock
pub mod Chains
pub mod Put
pub mod First
pub mod Listing
pub mod Walk
pub mod Between
pub mod InRange
pub mod Reading
pub mod Sequence
pub mod Newest
use ts_store.Prelude.{
  ℕ, zero, suc, ◌+◌, ◌-◌, ◌*◌, ◌%◌, ◌^◌, ◌≤◌, ◌<◌, ◌≡◌, ◌≢◌, refl, sym, ap, ◌∙◌, ◌⊎◌, inl, inr,
  Bool, true, false, List, [], ◌∷◌, ◌++◌, length, arith,
}
use mathlib.Core.Path.{subst}
use native.Mathlib.Nat.{mod-eq_of_lt, mod-eq-sub-mod, mod-add-mod, mod-lt, add-zero}
use native.Mathlib.Decide.{dec_lt}
use ts_store.Word.{add32}
use ts_store.File.{File}
use ts_store.Block.IndexEntry
use ts_store.Block.BlockHeader
use ts_store.Store.State.Metadata.{StoreMetadata}
use ts_store.Store.State.Errors.{ok}
use ts_store.Store.State.{read_block_header, read_index_entry, Store, block_offset, index_offset}
use ts_store.Store.State.Access.{read_block_header-At, read_index_entry-At, At, Frame, Frame-weaken}
use ts_store.Store.Valid.{IsValid, block_inside}
use ts_store.Store.Freelist.{next_block}
use ts_store.Store.Packed.Contents.{Object, end_of, Chain-le, Chain-Frame}
use ts_store.Store.Packed.Append.{Holds, packed_header, packed_header-IsTyped}
use ts_store.Store.Packed.NewBlock.{entry_of}

-- The objects of one block, which has at least one.
pub record Pack : Type 0 where
  pub first : Object
  pub rest : List Object

pub record Packs : Type 0 where
  pub older : List Pack
  pub current : Pack

-- The block at an offset from the tail.
abbrev pub address : Store → ℕ → ℕ
address s i = (s.meta.tail_block + i) % s.meta.num_blocks

pub record Placed (s : Store) (b : ℕ) (k : Pack) (end : ℕ) : Type 0 where
  pub holds : Holds s b k.first k.rest end
  pub inside : end ≤ s.config.data_block_size
  pub entry : At s.index_file (index_offset b) (IndexEntry.encode (entry_of k.first.timestamp b))

-- The full blocks, from offset i on.
abbrev pub Older : Store → ℕ → List Pack → Type 0
Older s i [] = Unit
Older s i (k ∷ ks) = ((end : ℕ) × Placed s (address s i) k end) × Older s (suc i) ks

pub record Stores (s : Store) (p : Packs) : Type 0 where
  pub valid : IsValid s
  pub is_open : s.closed ≡ false
  pub older : Older s 0 p.older
  pub current : Placed s s.meta.head_block p.current s.meta.write_offset
  pub head : s.meta.head_block ≡ address s (length p.older)
  pub count : length p.older < s.meta.num_blocks

-- Different blocks lie apart in both files.
blocks_apart : (b c size : ℕ) → b ≢ c → (b * size + size ≤ c * size) ⊎ (c * size + size ≤ b * size)
blocks_apart b c size ne = elim (dec_lt b c) [
  | yes h ↦ inl (block_inside b c size h)
  | no h ↦ inr (block_inside c b size (omega arith))
]

-- The store with other metadata and files.
abbrev pub altered : Store → StoreMetadata → File → File → File → Store
altered s m f g mf = record s { meta = m; data_file = f; index_file = g; meta_file = mf }

-- A change of block c alone leaves what another block holds.
pub Placed-Frame :
    (s : Store) (m : StoreMetadata) (f g mf : File) (b c : ℕ) (k : Pack) (end : ℕ)
    → Frame s.data_file f
        (block_offset s.config c)
        (block_offset s.config c + s.config.data_block_size)
    → Frame s.index_file g (index_offset c) (index_offset c + 16)
    → b ≢ c
    → Placed s b k end
    → Placed (altered s m f g mf) b k end
Placed-Frame s m f g mf b c k end data_frame index_frame ne p = record {
  holds = record {
    header =
        data_frame base (BlockHeader.encode (packed_header k.first.timestamp end))
          (omega (arith, apart, size, le, p.inside)) p.holds.header;
    chain =
        Chain-Frame base s.data_file f other (other + s.config.data_block_size) true 24
          (k.first ∷ k.rest) end data_frame (omega (arith, apart, p.inside)) p.holds.chain;
  };
  inside = p.inside;
  entry =
      index_frame (index_offset b) (IndexEntry.encode (entry_of k.first.timestamp b))
        (omega (arith, ne, IndexEntry.length-encode (entry_of k.first.timestamp b))) p.entry;
}
  where
    base : ℕ
    base = block_offset s.config b

    other : ℕ
    other = block_offset s.config c

    apart : (base + s.config.data_block_size ≤ other) ⊎ (other + s.config.data_block_size ≤ base)
    apart = blocks_apart b c s.config.data_block_size ne

    size : length (BlockHeader.encode (packed_header k.first.timestamp end)) ≡ 24
    size = BlockHeader.length-encode (packed_header k.first.timestamp end)

    le : 24 ≤ end
    le = Chain-le base s.data_file true 24 (k.first ∷ k.rest) end p.holds.chain

pub two_cases : (x n : ℕ) → x < n + n → ((x < n) × (x % n ≡ x)) ⊎ ((n ≤ x) × (x % n ≡ x - n))
two_cases x n h = elim (dec_lt x n) [
  | yes lt ↦ inl (lt, mod-eq_of_lt lt)
  | no ge ↦
      inr (omega arith, mod-eq-sub-mod {n = x} {m = n} (omega arith) ∙ mod-eq_of_lt (omega arith))
]

-- Fewer than `num_blocks` steps round the circle reach different blocks.
pub address-ne : (t n i j : ℕ) → t < n → i < j → j < n → (t + i) % n ≢ (t + j) % n
address-ne t n i j ht hij hj =
    omega (arith, two_cases (t + i) n (omega arith), two_cases (t + j) n (omega arith))

-- The full blocks survive a change of another block, also when the tail, and so every offset, moves.
pub Older-Frame :
    (s : Store) (m : StoreMetadata) (f g mf : File) (c i j : ℕ) (ks : List Pack)
    → Frame s.data_file f
        (block_offset s.config c)
        (block_offset s.config c + s.config.data_block_size)
    → Frame s.index_file g (index_offset c) (index_offset c + 16)
    → ((x y : ℕ) → x + j ≡ y + i → address s x ≡ address (altered s m f g mf) y)
    → ((x : ℕ) → i ≤ x → x < i + length ks → address s x ≢ c)
    → Older s i ks
    → Older (altered s m f g mf) j ks
Older-Frame s m f g mf c i j [] fr gr same ne o = tt
Older-Frame s m f g mf c i j (k ∷ ks) fr gr same ne o = (
  (
    o.0.0,
    subst (λ b. Placed (altered s m f g mf) b k o.0.0) (same i j (omega arith))
        (Placed-Frame s m f g mf (address s i) c k o.0.0 fr gr (ne i (omega arith) (omega arith))
          o.0.1),
  ),
  Older-Frame s m f g mf c (suc i) (suc j) ks fr gr (λ x y e. same x y (omega arith))
      (λ x a b. ne x (omega arith) (omega arith)) o.1,
)

pub Older-append :
    (s : Store) (i n : ℕ) (ks : List Pack) (k : Pack) (end : ℕ)
    → i + length ks ≡ n
    → Older s i ks
    → Placed s (address s n) k end
    → Older s i (ks ++ (k ∷ []))
Older-append s i n [] k end e o p =
    ((end, subst (λ x. Placed s (address s x) k end) (omega arith) p), tt)
Older-append s i n (k' ∷ ks) k end e o p =
    (o.0, Older-append s (suc i) n ks k end (omega arith) o.1 p)

-- The head is none of the full blocks.
pub older-ne-head :
    (s : Store) (p : Packs)
    → Stores s p
    → (x : ℕ) → 0 ≤ x
    → x < length p.older
    → address s x ≢ s.meta.head_block
older-ne-head s p st x _ lt = λ e.
    address-ne s.meta.tail_block s.meta.num_blocks x (length p.older) st.valid.tail_in lt st.count
      (e ∙ st.head)

-- A block that is placed has a readable header and index entry.
pub Placed-header :
    (s : Store) (b : ℕ) (k : Pack) (end : ℕ)
    → Placed s b k end
    → read_block_header b s ≡ ok (packed_header k.first.timestamp end)
Placed-header s b k end p =
    read_block_header-At s b (packed_header k.first.timestamp end)
      (packed_header-IsTyped k.first.timestamp end p.holds.chain.2.typed) p.holds.header

pub Placed-entry :
    (s : Store) (b : ℕ) (k : Pack) (end : ℕ)
    → b < 2 ^ 32
    → Placed s b k end
    → read_index_entry b s ≡ ok (entry_of k.first.timestamp b)
Placed-entry s b k end h p =
    read_index_entry-At s b (entry_of k.first.timestamp b)
      (record { timestamp = p.holds.chain.2.typed; block_num = h; reserved = omega arith }) p.entry
