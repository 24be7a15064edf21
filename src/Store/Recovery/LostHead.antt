-- ===== src/Store/Recovery/LostHead.antt =====
-- `findOrphanedHead` (pkg/store/recovery.go) behind a crash between the start of a block and the write of
-- the metadata.
use ts_store.Prelude.{
  ℕ, zero, suc, ◌+◌, ◌%◌, ◌<◌, ◌≡◌, ◌≢◌, sym, ap, ◌∙◌, false, length, ◌==◌, arith,
}
use mathlib.Core.Path.{subst}
use native.Mathlib.Nat.{mod-eq_of_lt}
use ts_store.File.{File, write_at}
use ts_store.Store.State.Errors.{ok}
use ts_store.Store.State.Metadata
use ts_store.Store.State.Metadata.{StoreMetadata}
use ts_store.Store.State.{Store, read_block_header, write_meta_locked}
use ts_store.Store.Freelist.{next_block}
use ts_store.Store.Packed.Append.{packed_header}
use ts_store.Store.Contents.{Packs, Stores, Placed-header, address, address-ne}
use ts_store.Store.Contents.NewBlock.{next_address}
use ts_store.Store.Contents.Newest.{last_of}
use ts_store.Store.Recovery.{scan_orphans, find_orphaned_head, recover_from_crash}
use ts_store.Store.Recovery.Crash.{
  IsClean, IsCleanAt, written, scan_clean, recover_runs, open_runs, stale, head_header, tail_stays,
  offset_back,
}
use ts_store.Store.Lifecycle.{opened, open_store, read_metadata, magic_number, version}

ne→test : (a b : ℕ) → a ≢ b → (a == b) ≡ false
ne→test a b h = ground arith

module _ (d g mf mf' : File) (m : StoreMetadata) (p : Packs) (st : Stores (opened d g mf m) p)
    (clean : IsClean (opened d g mf m)) (w j : ℕ) (last : suc j ≡ length p.older) where
  abbrev s : Store
  s = opened d g mf m

  abbrev old_head : ℕ
  old_head = address s j

  -- The metadata on disk still names the block before the head.
  abbrev lost : Store
  lost = opened d g mf' (record m { head_block = old_head; write_offset = w })

  old_header : (t : _) × (end : ℕ) × (read_block_header old_head lost ≡ ok (packed_header t end))
  unfolding read_block_header
  old_header =
      let b = last_of s 0 j p.older (omega arith) st.older in
      (
        b.pack.first.timestamp,
        b.end,
        ap (λ x. read_block_header ((m.tail_block + x) % m.num_blocks) lost) (omega arith)
            ∙ Placed-header s (address s (0 + j)) b.pack b.end b.placed,
      )

  next : next_block lost old_head ≡ m.head_block
  next =
      next_address m.tail_block m.num_blocks j (length p.older) st.valid.some_blocks
        st.valid.blocks_fit (omega arith)
      ∙ sym st.head

  head-ne-tail : m.head_block ≢ m.tail_block
  head-ne-tail = λ e.
      address-ne m.tail_block m.num_blocks 0 (length p.older) st.valid.tail_in (omega arith)
        st.count
        (ap (λ k. k % m.num_blocks) (omega arith) ∙ mod-eq_of_lt st.valid.tail_in ∙ sym e ∙ st.head)

  head-ne-old : m.head_block ≢ old_head
  head-ne-old = λ e.
      address-ne m.tail_block m.num_blocks j (length p.older) st.valid.tail_in (omega arith)
        st.count (sym e ∙ st.head)

  next_header :
      read_block_header (next_block lost old_head) lost
      ≡ ok (packed_header p.current.first.timestamp m.write_offset)
  unfolding read_block_header
  next_header = ap (λ b. read_block_header b lost) next ∙ head_header d g mf mf' m p st clean w

  next-IsClean : IsCleanAt lost (next_block lost old_head)
  unfolding read_block_header
  next-IsClean = subst (IsCleanAt lost) (sym next) clean

  scan_one : (rounds : ℕ) → 0 < rounds → scan_orphans rounds old_head lost ≡ m.head_block
  unfolding scan_orphans
  scan_one zero h = absurd (omega arith)
  scan_one (suc rounds) h =
      let apart : (next_block lost old_head == m.tail_block) ≡ false =
        ne→test (next_block lost old_head) m.tail_block (λ e. head-ne-tail (sym next ∙ e)) in
      rw (apart, scan_orphans, next_header, written p.current.first.timestamp m.write_offset)
        (scan_clean lost rounds (next_block lost old_head) next-IsClean ∙ next)

  found : find_orphaned_head lost ≡ m.head_block
  unfolding find_orphaned_head
  found =
      rw (old_header.2, find_orphaned_head, written old_header.0 old_header.1)
        (scan_one m.num_blocks st.valid.some_blocks)

  recovered_head :
      recover_from_crash lost ≡ (ok tt, opened d g (write_at mf' 0 (Metadata.encode m)) m)
  unfolding write_meta_locked
  recovered_head =
      recover_runs lost (stale d g mf mf' m p st clean w) (opened d g mf' m) m.head_block found
        (tail_stays d g mf mf' m p st clean w) (offset_back d g mf mf' m p st clean w) false
        (ne→test m.head_block old_head head-ne-old)

-- `Open` finds the head that a crash lost: where the metadata on disk names the block before the head,
-- with any write offset, because the crash came between the start of a block and the write of the
-- metadata, and no stale block lies behind the head, it yields the store that was written, with its
-- contents, and writes its metadata.
pub open_store-lost_head :
    (d g mf mf' : File) (m : StoreMetadata) (p : Packs) (w j : ℕ)
    → Stores (opened d g mf m) p
    → IsClean (opened d g mf m)
    → suc j ≡ length p.older
    → m.magic ≡ magic_number
    → m.version ≡ version
    → read_metadata mf'
      ≡ ok (record m { head_block = address (opened d g mf m) j; write_offset = w })
    → open_store d g mf' ≡ ok (opened d g (write_at mf' 0 (Metadata.encode m)) m)
open_store-lost_head d g mf mf' m p w j st clean last magic_ok version_ok read =
    open_runs d g mf' (record m { head_block = address (opened d g mf m) j; write_offset = w })
      (opened d g (write_at mf' 0 (Metadata.encode m)) m) read magic_ok version_ok
      (recovered_head d g mf mf' m p st clean w j last)
