-- ===== src/Store/Valid.antt =====
-- The well-formedness invariant of an open store, and the totality of its reads.
use ts_store.Prelude.{ℕ, ◌+◌, ◌*◌, ◌^◌, ◌≤◌, ◌<◌, ◌≡◌, ◌⊎◌, inl, inr, some, arith}
use ts_store.File.{File, bytes_from, read_at, write_at}
use ts_store.Block.BlockHeader
use ts_store.Block.BlockHeader.{BlockHeader}
use ts_store.Block.IndexEntry
use ts_store.Block.IndexEntry.{IndexEntry}
use ts_store.Store.State.Errors.{Result, ok, err}
use ts_store.Store.State.{Store, block_offset, index_offset, read_block_header, read_index_entry}

pub record IsValid (s : Store) : Type 0 where
  pub config_agrees : s.config.num_blocks ≡ s.meta.num_blocks
  pub some_blocks : 0 < s.meta.num_blocks
  pub blocks_fit : s.meta.num_blocks < 2 ^ 32
  pub size_least : 64 ≤ s.config.data_block_size
  pub size_fits : s.config.data_block_size < 2 ^ 32
  pub head_in : s.meta.head_block < s.meta.num_blocks
  pub tail_in : s.meta.tail_block < s.meta.num_blocks
  pub data_allocated : s.meta.num_blocks * s.config.data_block_size ≤ s.data_file.size
  pub index_allocated : s.meta.num_blocks * 16 ≤ s.index_file.size
  pub offset_in : s.meta.write_offset ≤ s.config.data_block_size
  pub offset_out : (s.meta.write_offset ≡ 0) ⊎ (24 ≤ s.meta.write_offset)

pub Result-cases {ℓ} :
    {A : Type ℓ} (r : Result A) → ((a : A) × (r ≡ ok a)) ⊎ ((e : _) × (r ≡ err e))
Result-cases (ok a) = inl (a, λ i. ok a)
Result-cases (err e) = inr (e, λ i. err e)

pub read_at_total :
    (f : File) (off n : ℕ) → off + n ≤ f.size → read_at f off n ≡ some (bytes_from f.byte off n)
unfolding read_at
read_at_total f off n h = ground arith

pub size-write_at : (f : File) (off : ℕ) (bs : _) → f.size ≤ (write_at f off bs).size
unfolding write_at
size-write_at f off bs = ground arith

-- A block lies inside the file, and blocks do not overlap.
pub block_inside : (b n size : ℕ) → b < n → b * size + size ≤ n * size
block_inside b n size h = grind arith

pub read_block_header_total :
    (b : ℕ) (s : Store)
    → IsValid s
    → b < s.meta.num_blocks
    → (h : BlockHeader) × (read_block_header b s ≡ ok h)
unfolding read_block_header
read_block_header_total b s v h = (
  BlockHeader.decode (bytes_from s.data_file.byte (block_offset s.config b) 24),
  rw (
    read_at_total s.data_file (block_offset s.config b) 24
        (omega (arith, block_inside b s.meta.num_blocks s.config.data_block_size h)),
    read_block_header,
  ),
)

pub read_index_entry_total :
    (n : ℕ) (s : Store)
    → IsValid s
    → n < s.meta.num_blocks
    → (e : IndexEntry) × (read_index_entry n s ≡ ok e)
unfolding read_index_entry
read_index_entry_total n s v h = (
  IndexEntry.decode (bytes_from s.index_file.byte (index_offset n) 16),
  rw (read_at_total s.index_file (index_offset n) 16 (omega arith), read_index_entry),
)
