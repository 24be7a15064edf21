-- ===== src/Store/State.antt =====
-- The state of `Store` (pkg/store/store.go, pkg/store/config.go), errors, the two monads that the
-- methods are written in, and the access to the three files.
pub mod Errors
pub mod Metadata
pub mod Access
use ts_store.Prelude.{ℕ, ◌+◌, ◌-◌, ◌*◌, ◌/◌, Bool, Option, none, some, List, ◌==◌, if◌then◌else◌}
use ts_store.Prelude.Int.{ℤ, pos}
use ts_store.Word.{word_of}
use ts_store.File.{File, read_at, write_at}
use ts_store.Block.{block_header_size, object_header_size, index_entry_size}
use ts_store.Block.{index_entries_per_block}
use ts_store.Block.BlockHeader
use ts_store.Block.BlockHeader.{BlockHeader}
use ts_store.Block.ObjectHeader
use ts_store.Block.ObjectHeader.{ObjectHeader}
use ts_store.Block.IndexEntry
use ts_store.Block.IndexEntry.{IndexEntry}
use Metadata.{StoreMetadata}
use Errors.{Result, ok, err, io_eof}

-- `Config`, without the name and the path, which only locate the files. A `DataType` is a byte.
pub record Config : Type 0 where
  pub num_blocks : ℕ
  pub data_block_size : ℕ
  pub index_block_size : ℕ
  pub data_type : ℕ

-- `Store`. The lock is not modelled: each exported method runs as one step.
pub record Store : Type 0 where
  pub config : Config
  pub meta : StoreMetadata
  pub data_file : File
  pub index_file : File
  pub meta_file : File
  pub closed : Bool

-- A method that changes the store; what it wrote stays written when it fails.
abbrev pub M : Type 0 → Type 0
M A = Store → Result A × Store

module _ {A : Type 0} where
  abbrev pub pure : A → M A
  pure a s = (ok a, s)

  abbrev pub fail : Errors.Err → M A
  fail e s = (err e, s)

  -- A method that only reads.
  abbrev pub reads : (Store → Result A) → M A
  reads f s = (f s, s)

infixl 5 ◌>>=◌ ◌>>◌
abbrev pub ◌>>=◌ : {A B : Type 0} → M A → (A → M B) → M B
◌>>=◌ m f s = let (r, s') = m s in elim r [ ok a ↦ f a s' | err e ↦ (err e, s') ]

abbrev pub ◌>>◌ : {A B : Type 0} → M A → M B → M B
m >> k = m >>= λ _. k

abbrev pub gets : {A : Type 0} → (Store → A) → M A
gets f s = (ok (f s), s)

abbrev pub raise_if : Bool → Errors.Err → M (Unit {0})
raise_if c e = if c then fail e else pure tt

abbrev pub set_head : ℕ → M (Unit {0})
set_head b s = (ok tt, record s { meta = record (s.meta) { head_block = b } })

abbrev pub set_tail : ℕ → M (Unit {0})
set_tail b s = (ok tt, record s { meta = record (s.meta) { tail_block = b } })

abbrev pub set_write_offset : ℕ → M (Unit {0})
set_write_offset w s = (ok tt, record s { meta = record (s.meta) { write_offset = w } })

-- Products of two `uint32` in `int64`. A store whose file would reach 2^63 bytes cannot be created.
abbrev pub block_offset : Config → ℕ → ℕ
block_offset c b = b * c.data_block_size

abbrev pub index_offset : ℕ → ℕ
index_offset n = n * index_entry_size

unfoldable pub read_block_header : ℕ → Store → Result BlockHeader
read_block_header b s = elim (read_at s.data_file (block_offset s.config b) block_header_size) [
  | none ↦ err io_eof
  | some buf ↦ ok (BlockHeader.decode buf)
]

unfoldable pub write_block_header : ℕ → BlockHeader → M (Unit {0})
write_block_header b h s = (
  ok tt,
  record s { data_file = write_at s.data_file (block_offset s.config b) (BlockHeader.encode h) },
)

unfoldable pub read_index_entry : ℕ → Store → Result IndexEntry
read_index_entry n s = elim (read_at s.index_file (index_offset n) index_entry_size) [
  | none ↦ err io_eof
  | some buf ↦ ok (IndexEntry.decode buf)
]

unfoldable pub write_index_entry : ℕ → IndexEntry → M (Unit {0})
write_index_entry n e s =
    (ok tt, record s { index_file = write_at s.index_file (index_offset n) (IndexEntry.encode e) })

unfoldable pub read_object_header : ℕ → ℕ → Store → Result ObjectHeader
read_object_header b offset s =
    elim (read_at s.data_file (block_offset s.config b + offset) object_header_size) [
      | none ↦ err io_eof
      | some buf ↦ ok (ObjectHeader.decode buf)
    ]

unfoldable pub write_object_header : ℕ → ℕ → ObjectHeader → M (Unit {0})
write_object_header b offset h s = (
  ok tt,
  record s {
    data_file = write_at s.data_file (block_offset s.config b + offset) (ObjectHeader.encode h);
  },
)

-- `dataFile.ReadAt` of n bytes, and `dataFile.WriteAt`.
unfoldable pub read_data : ℕ → ℕ → Store → Result (List ℕ)
read_data off n s = elim (read_at s.data_file off n) [ none ↦ err io_eof | some bs ↦ ok bs ]

unfoldable pub write_data : ℕ → List ℕ → M (Unit {0})
write_data off bs s = (ok tt, record s { data_file = write_at s.data_file off bs })

unfoldable pub write_meta_locked : M (Unit {0})
write_meta_locked s =
    (ok tt, record s { meta_file = write_at s.meta_file 0 (Metadata.encode s.meta) })
