-- ===== src/Store/State/Access.antt =====
-- The accesses of pkg/store/store.go to the data file, in terms of the bytes that lie at an offset.
use ts_store.Prelude.{ℕ, ◌+◌, ◌≤◌, ◌≡◌, ◌⊎◌, some, List, length, arith}
use ts_store.File.{File, read_at, write_at}
use ts_store.File.Laws.{read_at-write_at_self, read_at-write_at_apart}
use ts_store.Block.BlockHeader
use ts_store.Block.BlockHeader.{BlockHeader}
use ts_store.Block.ObjectHeader
use ts_store.Block.ObjectHeader.{ObjectHeader}
use ts_store.Block.IndexEntry
use ts_store.Block.IndexEntry.{IndexEntry}
use ts_store.Store.State.Errors.{ok}
use ts_store.Store.State.{
  Store, block_offset, index_offset, read_block_header, read_object_header, read_index_entry,
  read_data,
}

-- The file holds `bs` at `off`.
abbrev pub At : File → ℕ → List ℕ → Type 0
At f off bs = read_at f off (length bs) ≡ some bs

-- What lies outside `lo` to `hi` in f lies there in g too.
abbrev pub Frame : File → File → ℕ → ℕ → Type 0
Frame f g lo hi = (o : ℕ) (r : List ℕ) → (o + length r ≤ lo) ⊎ (hi ≤ o) → At f o r → At g o r

pub At-write_at : (f : File) (off : ℕ) (bs : List ℕ) → At (write_at f off bs) off bs
At-write_at f off bs = read_at-write_at_self f off bs

pub write_at-Frame :
    (f : File) (off : ℕ) (bs : List ℕ) → Frame f (write_at f off bs) off (off + length bs)
write_at-Frame f off bs o r h e = read_at-write_at_apart f off bs o (length r) h e

pub Frame-refl : (f : File) (lo hi : ℕ) → Frame f f lo hi
Frame-refl f lo hi o r h e = e

pub Frame-trans : (f g k : File) (lo hi : ℕ) → Frame f g lo hi → Frame g k lo hi → Frame f k lo hi
Frame-trans f g k lo hi p q o r h e = q o r h (p o r h e)

pub Frame-weaken :
    (f g : File) (lo hi lo' hi' : ℕ) → lo' ≤ lo → hi ≤ hi' → Frame f g lo hi → Frame f g lo' hi'
Frame-weaken f g lo hi lo' hi' a b p o r h e = p o r (omega arith) e

At-block_header :
    (f : File) (off : ℕ) (h : BlockHeader)
    → At f off (BlockHeader.encode h)
    → read_at f off 24 ≡ some (BlockHeader.encode h)
At-block_header f off h e = rw (BlockHeader.length-encode h) at e

At-object_header :
    (f : File) (off : ℕ) (h : ObjectHeader)
    → At f off (ObjectHeader.encode h)
    → read_at f off 24 ≡ some (ObjectHeader.encode h)
At-object_header f off h e = rw (ObjectHeader.length-encode h) at e

At-index_entry :
    (f : File) (off : ℕ) (h : IndexEntry)
    → At f off (IndexEntry.encode h)
    → read_at f off 16 ≡ some (IndexEntry.encode h)
At-index_entry f off h e = rw (IndexEntry.length-encode h) at e

pub read_block_header-At :
    (s : Store) (b : ℕ) (h : BlockHeader)
    → BlockHeader.IsTyped h
    → At s.data_file (block_offset s.config b) (BlockHeader.encode h)
    → read_block_header b s ≡ ok h
unfolding read_block_header
read_block_header-At s b h t e =
    rw (At-block_header s.data_file _ h e, read_block_header, BlockHeader.decode-encode h t)

pub read_object_header-At :
    (s : Store) (b off : ℕ) (h : ObjectHeader)
    → ObjectHeader.IsTyped h
    → At s.data_file (block_offset s.config b + off) (ObjectHeader.encode h)
    → read_object_header b off s ≡ ok h
unfolding read_object_header
read_object_header-At s b off h t e =
    rw (At-object_header s.data_file _ h e, read_object_header, ObjectHeader.decode-encode h t)

pub read_index_entry-At :
    (s : Store) (n : ℕ) (h : IndexEntry)
    → IndexEntry.IsTyped h
    → At s.index_file (index_offset n) (IndexEntry.encode h)
    → read_index_entry n s ≡ ok h
unfolding read_index_entry
read_index_entry-At s n h t e =
    rw (At-index_entry s.index_file _ h e, read_index_entry, IndexEntry.decode-encode h t)

pub read_data-At :
    (s : Store) (off n : ℕ) (bs : List ℕ)
    → n ≡ length bs
    → At s.data_file off bs
    → read_data off n s ≡ ok bs
unfolding read_data
read_data-At s off n bs l e = rw (l, e, read_data)

-- What is written and outside the rest of the files stays.
pub Frame-block_header :
    (f : File) (off : ℕ) (h : BlockHeader)
    → Frame f (write_at f off (BlockHeader.encode h)) off (off + 24)
Frame-block_header f off h =
    rw (BlockHeader.length-encode h) at (write_at-Frame f off (BlockHeader.encode h))

pub Frame-object_header :
    (f : File) (off : ℕ) (h : ObjectHeader)
    → Frame f (write_at f off (ObjectHeader.encode h)) off (off + 24)
Frame-object_header f off h =
    rw (ObjectHeader.length-encode h) at (write_at-Frame f off (ObjectHeader.encode h))

pub Frame-index_entry :
    (f : File) (off : ℕ) (h : IndexEntry)
    → Frame f (write_at f off (IndexEntry.encode h)) off (off + 16)
Frame-index_entry f off h =
    rw (IndexEntry.length-encode h) at (write_at-Frame f off (IndexEntry.encode h))
