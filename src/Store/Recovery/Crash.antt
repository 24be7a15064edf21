-- ===== src/Store/Recovery/Crash.antt =====
-- `Open` and `recoverFromCrash` (pkg/store/store.go, pkg/store/recovery.go) on the files of a store whose
-- last writes of the metadata may be missing.
use ts_store.Prelude.{
  ℕ, zero, suc, ◌*◌, ◌%◌, ◌≡◌, refl, sym, ap, ◌∙◌, ◌⊎◌, inl, inr, Bool, true, false, List, [], ◌∷◌,
  ◌==◌, arith, if◌then◌else◌, Bool-cases,
}
use native.Mathlib.Nat.{mod-eq_of_lt}
use ts_store.Prelude.Int.{ℤ}
use ts_store.Word.{add32, sub32}
use ts_store.File.{File}
use ts_store.Block.BlockHeader
use ts_store.Block.BlockHeader.{BlockHeader}
use ts_store.Store.State.Errors.{ok}
use ts_store.Store.State.Metadata.{StoreMetadata}
use ts_store.Store.State.{Store, pure, set_head, write_meta_locked, read_block_header}
use ts_store.Store.Freelist.{next_block}
use ts_store.Store.Packed.Append.{packed_header}
use ts_store.Store.Packed.Contents.{Chain-le}
use ts_store.Store.Contents.{Pack, Packs, Stores, Placed-header, address}
use ts_store.Store.Recovery.{
  is_blank, scan_orphans, find_orphaned_head, fix_tail_from, fix_tail_pointer, fix_write_offset,
  recover_from_crash,
}
use ts_store.Store.Lifecycle.{opened, open_store, read_metadata, magic_number, version}

-- Behind a block is the tail, or a block that was never written.
abbrev pub IsCleanAt : Store → ℕ → Type 0
IsCleanAt s b =
    (next_block s b ≡ s.meta.tail_block)
    ⊎ ((h : BlockHeader) × (read_block_header (next_block s b) s ≡ ok h) × (is_blank h ≡ true))

-- No stale block lies behind the head.
abbrev pub IsClean : Store → Type 0
IsClean s = IsCleanAt s s.meta.head_block

pub written : (t : ℤ) (end : ℕ) → is_blank (packed_header t end) ≡ false
written t end = elim (Bool-cases (sub32 end 24 == 0)) [ inl e ↦ rw e refl | inr e ↦ rw e refl ]

pub scan_clean : (s : Store) (rounds b : ℕ) → IsCleanAt s b → scan_orphans rounds b s ≡ b
unfolding scan_orphans
scan_clean s zero b c = refl
scan_clean s (suc rounds) b (inl e) =
    let test : (next_block s b == s.meta.tail_block) ≡ true = ground arith in
    rw (test, scan_orphans) refl
scan_clean s (suc rounds) b (inr (h, good, blank)) =
    elim (Bool-cases (next_block s b == s.meta.tail_block)) [
      | inl test ↦ rw (test, scan_orphans) refl
      | inr test ↦ rw (test, scan_orphans, good, blank) refl
    ]

-- The tail is the head, or starts with no continuation.
tail_header :
    (s : Store) (older : List Pack) (current : Pack)
    → Stores s (record { older = older; current = current })
    → (s.meta.tail_block ≡ s.meta.head_block)
      ⊎ ((h : BlockHeader) × (read_block_header s.meta.tail_block s ≡ ok h)
          × (BlockHeader.is_continuation h ≡ false))
tail_header s [] current st =
    inl (
      sym (st.head ∙ ap (λ k. k % s.meta.num_blocks) (omega arith) ∙ mod-eq_of_lt st.valid.tail_in))
tail_header s (k ∷ ks) current st =
    let here : address s 0 ≡ s.meta.tail_block =
      ap (λ k. k % s.meta.num_blocks) (omega arith) ∙ mod-eq_of_lt st.valid.tail_in in
    inr (
      packed_header k.first.timestamp st.older.0.0,
      ap (λ b. read_block_header b s) (sym here)
          ∙ Placed-header s (address s 0) k st.older.0.0 st.older.0.1,
      refl,
    )

fix_tail_stays :
    (s : Store) (rounds : ℕ)
    → (s.meta.tail_block ≡ s.meta.head_block)
      ⊎ ((h : BlockHeader) × (read_block_header s.meta.tail_block s ≡ ok h)
          × (BlockHeader.is_continuation h ≡ false))
    → fix_tail_from rounds s ≡ (ok tt, s)
unfolding fix_tail_from
fix_tail_stays s zero c = refl
fix_tail_stays s (suc rounds) (inl e) =
    let test : (s.meta.tail_block == s.meta.head_block) ≡ true = ground arith in
    rw (test, fix_tail_from) refl
fix_tail_stays s (suc rounds) (inr (h, good, primary)) =
    elim (Bool-cases (s.meta.tail_block == s.meta.head_block)) [
      | inl test ↦ rw (test, fix_tail_from) refl
      | inr test ↦ rw (test, fix_tail_from, good, primary) refl
    ]

pub same_test : (n : ℕ) → (n == n) ≡ true
same_test n = ground arith

pub recover_runs :
    (s s1 s2 : Store) (h : ℕ)
    → find_orphaned_head s ≡ h
    → fix_tail_pointer (set_head h s).1 ≡ (ok tt, s1)
    → fix_write_offset s1 ≡ (ok tt, s2)
    → (same : Bool) → (h == s.meta.head_block) ≡ same
    → recover_from_crash s ≡ (if same then pure tt else write_meta_locked) s2
unfolding recover_from_crash
recover_runs s s1 s2 h orphan tail offset same test = ground (arith, orphan, tail, offset, test)

pub open_runs :
    (d g mf : File) (m : StoreMetadata) (s : Store)
    → read_metadata mf ≡ ok m
    → m.magic ≡ magic_number
    → m.version ≡ version
    → recover_from_crash (opened d g mf m) ≡ (ok tt, s)
    → open_store d g mf ≡ ok s
unfolding open_store
open_runs d g mf m s read magic_ok version_ok recovered =
    let magic_test : (m.magic == magic_number) ≡ true = ground arith in
    let version_test : (m.version == version) ≡ true = ground arith in
    ground (arith, read, magic_test, version_test, recovered)

-- Recovery of a store whose write offset on disk, w, is any older one.
module _ (d g mf mf' : File) (m : StoreMetadata) (p : Packs) (st : Stores (opened d g mf m) p)
    (clean : IsClean (opened d g mf m)) (w : ℕ) where
  abbrev pub stale : Store
  stale = opened d g mf' (record m { write_offset = w })

  pub head_header :
      read_block_header m.head_block stale
      ≡ ok (packed_header p.current.first.timestamp m.write_offset)
  unfolding read_block_header
  head_header = Placed-header (opened d g mf m) m.head_block p.current m.write_offset st.current

  orphan : find_orphaned_head stale ≡ m.head_block
  unfolding find_orphaned_head read_block_header
  orphan =
      rw (head_header, find_orphaned_head, written p.current.first.timestamp m.write_offset)
        (scan_clean stale m.num_blocks m.head_block clean)

  pub tail_stays : fix_tail_pointer stale ≡ (ok tt, stale)
  unfolding fix_tail_pointer read_block_header
  tail_stays =
      fix_tail_stays stale m.num_blocks (tail_header (opened d g mf m) p.older p.current st)

  pub offset_back : fix_write_offset stale ≡ (ok tt, opened d g mf' m)
  unfolding fix_write_offset
  offset_back =
      let le =
        Chain-le (m.head_block * m.data_block_size) d true 24 (p.current.first ∷ p.current.rest)
          m.write_offset st.current.holds.chain in
      let e : add32 24 (sub32 m.write_offset 24) ≡ m.write_offset =
        omega (arith, st.valid.offset_in, st.valid.size_fits) in
      rw (head_header, fix_write_offset, written p.current.first.timestamp m.write_offset)
        (ap (λ x. (ok tt, opened d g mf' (record m { write_offset = x }))) e)

  recovered : recover_from_crash stale ≡ (ok tt, opened d g mf' m)
  unfolding recover_from_crash
  recovered =
      recover_runs stale stale (opened d g mf' m) m.head_block orphan tail_stays offset_back true
        (same_test m.head_block)

-- `Open` restores a store whose metadata on disk has any older write offset, as after a crash behind an
-- append, or the present one, as after `Close`: if no stale block lies behind the head, it yields
-- exactly the store that was written, with its contents.
pub open_store-Stores :
    (d g mf mf' : File) (m : StoreMetadata) (p : Packs) (w : ℕ)
    → Stores (opened d g mf m) p
    → IsClean (opened d g mf m)
    → m.magic ≡ magic_number
    → m.version ≡ version
    → read_metadata mf' ≡ ok (record m { write_offset = w })
    → open_store d g mf' ≡ ok (opened d g mf' m)
unfolding open_store
open_store-Stores d g mf mf' m p w st clean magic_ok version_ok read =
    open_runs d g mf' (record m { write_offset = w }) (opened d g mf' m) read magic_ok version_ok
      (recovered d g mf mf' m p st clean w)
