-- ===== src/Store/Lifecycle/Close.antt =====
-- `Close` and then `Open` (pkg/store/store.go).
use ts_store.Prelude.{◌≡◌, refl, sym, ap, ◌∙◌, true, false, some}
use ts_store.File.{File, read_at, write_at}
use ts_store.File.Laws.{read_at-write_at_self}
use ts_store.Store.State.Errors.{Result, ok, err, store_closed}
use ts_store.Store.State.Metadata
use ts_store.Store.State.Metadata.{StoreMetadata}
use ts_store.Store.State.{Store, write_meta_locked}
use ts_store.Store.Contents.{Packs, Stores}
use ts_store.Store.Recovery.Crash.{IsClean, open_store-Stores}
use ts_store.Store.Lifecycle.{opened, open_store, close, read_metadata, magic_number, version}

-- What the metadata file says after `writeMetaLocked`.
read_metadata-write :
    (mf : File) (m : StoreMetadata)
    → Metadata.IsTyped m
    → read_metadata (write_at mf 0 (Metadata.encode m)) ≡ ok m
unfolding read_metadata
read_metadata-write mf m t =
    let size = Metadata.length-encode m in
    let written : read_at (write_at mf 0 (Metadata.encode m)) 0 64 ≡ some (Metadata.encode m) =
      ap (read_at (write_at mf 0 (Metadata.encode m)) 0) (sym size)
      ∙ read_at-write_at_self mf 0 (Metadata.encode m) in
    rw (written, read_metadata) (ap {B = Result StoreMetadata} ok (Metadata.decode-encode m t))

-- `Close` succeeds on an open store with a known content, a second `Close` fails, and `Open` on
-- the files that it leaves gives back the same store, if no stale block lies behind the head and
-- the metadata has the magic number, the version and values of its Go types.
pub close-open_store :
    (d g mf : File) (m : StoreMetadata) (p : Packs)
    → Stores (opened d g mf m) p
    → IsClean (opened d g mf m)
    → Metadata.IsTyped m
    → m.magic ≡ magic_number
    → m.version ≡ version
    → (s : Store) × (close (opened d g mf m) ≡ (ok tt, s))
      × (close s ≡ (err store_closed, s))
      × (open_store s.data_file s.index_file s.meta_file ≡ ok (record s { closed = false }))
unfolding close write_meta_locked
close-open_store d g mf m p st clean t magic_ok version_ok =
    let mf' = write_at mf 0 (Metadata.encode m) in
    (
      record (opened d g mf' m) { closed = true },
      refl,
      refl,
      open_store-Stores d g mf mf' m p m.write_offset st clean magic_ok version_ok
          (read_metadata-write mf m t),
    )
