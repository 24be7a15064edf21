-- ===== src/ApiKey/Keys.antt =====
-- Which keys a store accepts after an operation of the manager (internal/apikey/apikey.go).
use ts_store.Prelude.{
  ◌≡◌, ◌≢◌, sym, ap, ◌∙◌, Option, none, some, List, [], ◌∷◌, ◌++◌, arith, Bool-cases, inl, inr,
  if◌then◌else◌,
}
use mathlib.Core.Path.{subst}
use ts_store.Prelude.Equality.{Bytes, ◌=?◌, bytes_eq}
use ts_store.Prelude.Outcome.{Outcome, done, failed, Outcome-cases}
use ts_store.WriteFile.{Write, written, unreached, torn}
use ts_store.ApiKey.{
  Err, invalid_key, key_not_found, KeyEntry, KeyFile, Manager, Codec, Outside, load_key_file,
  save_key_file, save_new, new_key, new_entry, with_entry, generate, validate, revoke, regenerate,
  find_entry, kept_entries, has_entry,
}
use ts_store.ApiKey.Coherence.{
  IsFaithful, IsCoherent, load-saved, save-IsCoherent, get_key_file-load, generate_more,
  generate_bad, revoke_found, revoke_bad, revoke_missing,
}
use ts_store.ApiKey.Entries.{find_appended, find_kept, find_others}

module _ (C : Codec) where
  -- The keys that the file of a store lists.
  abbrev pub keys_at : Bytes → Manager → List KeyEntry
  keys_at store m = elim (load_key_file C store m) [ failed e ↦ [] | done kf ↦ kf.keys ]

  validate-load :
      (store key : Bytes) (m : Manager) (kf : KeyFile)
      → IsCoherent C store m
      → load_key_file C store m ≡ done kf
      → (validate C store key m).0 ≡ find_entry (C.hash_key key) kf.keys
  unfolding validate
  validate-load store key m kf c load =
      ap (λ r. elim r [ failed e ↦ failed e | done k ↦ find_entry (C.hash_key key) k.keys ])
        (get_key_file-load C store m c ∙ load)

  -- A new key that was handed out was saved.
  save_new-done :
      (o : Outside) (store note : Bytes) (kf : KeyFile) (m : Manager) (key : Bytes) (e : KeyEntry)
      (m' : Manager)
      → save_new C o store note kf m ≡ (done (key, e), m')
      → (new_key C o ≡ key)
        × (new_entry C o note ≡ e)
        × ((save_key_file C written store kf m).1 ≡ m')
  unfolding save_key_file
  save_new-done o store note kf m key e m' h = go o.write h
    where
      saved : Write → Outcome Err (Bytes × KeyEntry) × Manager
      saved w =
          let r = save_key_file C w store kf m in
          (elim r.0 [ failed x ↦ failed x | done _ ↦ done (new_key C o, new_entry C o note) ], r.1)

      go :
          (w : Write)
          → saved w ≡ (done (key, e), m')
          → (new_key C o ≡ key)
            × (new_entry C o note ≡ e)
            × ((save_key_file C written store kf m).1 ≡ m')
      go unreached h = absurd (ground (arith, ap (λ r. r.0) h))
      go (torn n) h = absurd (ground (arith, ap (λ r. r.0) h))
      go written h = (
        ap (λ r. elim r.0 [ done p ↦ p.0 | failed x ↦ new_key C o ]) h,
        ap (λ r. elim r.0 [ done p ↦ p.1 | failed x ↦ new_entry C o note ]) h,
        ap (λ r. r.1) h,
      )

  -- The store that a new key is saved for.
  saved_file :
      (f : IsFaithful C) (o : Outside) (store note : Bytes) (old : Option KeyFile) (m : Manager)
      (key : Bytes) (e : KeyEntry) (m' : Manager)
      → IsCoherent C store m
      → save_new C o store note (with_entry C store (new_entry C o note) old) m
        ≡ (done (key, e), m')
      → (load_key_file C store m' ≡ done (with_entry C store e old))
        × IsCoherent C store m'
        × (e.hash ≡ C.hash_key key)
  unfolding save_key_file
  saved_file f o store note old m key e m' c h =
      let (key_is, entry_is, state) =
        save_new-done o store note (with_entry C store (new_entry C o note) old) m key e m' h in
      (
        subst (λ x. load_key_file C store x ≡ done (with_entry C store e old)) state
            (load-saved C f store (with_entry C store (new_entry C o note) old) m
              ∙ ap (λ y. done (with_entry C store y old)) entry_is),
        subst (IsCoherent C store) state (
            save-IsCoherent C f store written store (with_entry C store (new_entry C o note) old) m
              tt c),
        sym (ap (λ y. y.hash) entry_is) ∙ ap C.hash_key key_is,
      )

  -- If key files are read back as they were written, and the cache agrees with the file of the store, a key that `Generate` hands out is accepted for its store, under
  -- an entry with its hash, and the entry stands behind those that the file listed before.
  pub generate-validate :
      (f : IsFaithful C) (o : Outside) (store note : Bytes) (m : Manager) (key : Bytes)
      (e : KeyEntry) (m' : Manager)
      → IsCoherent C store m
      → generate C o store note m ≡ (done (key, e), m')
      → (keys_at store m' ≡ keys_at store m ++ (e ∷ []))
        × (entry : KeyEntry) × ((validate C store key m').0 ≡ done entry)
        × (entry.hash ≡ C.hash_key key)
  generate-validate f o store note m key e m' c h = elim (Outcome-cases (load_key_file C store m)) [
    | inl (kf, load) ↦
        let h' = sym (generate_more C o store note m kf load) ∙ h in
        let (saved, c', hashed) = saved_file f o store note (some kf) m key e m' c h' in
        let (entry, found, same) = find_appended (C.hash_key key) kf.keys e hashed in
        (
          ap listed saved ∙ sym (ap (λ r. listed r ++ (e ∷ [])) load),
          entry,
          validate-load store key m' (with_entry C store e (some kf)) c' saved ∙ found,
          same,
        )
    | inr (x, load) ↦ elim (generate_bad C o store note m x load) [
      | inr bad ↦ absurd (not_made x m m' (sym bad ∙ h))
      | inl made ↦
          let (saved, c', hashed) = saved_file f o store note none m key e m' c (sym made ∙ h) in
          let (entry, found, same) = find_appended (C.hash_key key) [] e hashed in
          (
            ap listed saved ∙ sym (ap (λ r. listed r ++ (e ∷ [])) load),
            entry,
            validate-load store key m' (with_entry C store e none) c' saved ∙ found,
            same,
          )
    ]
  ]
    where
      listed : Outcome Err KeyFile → List KeyEntry
      listed r = elim r [ failed e ↦ [] | done kf ↦ kf.keys ]

      not_made :
          (x : Err) (m m' : Manager)
          → ◌≢◌ {A = Outcome Err (Bytes × KeyEntry) × Manager} (failed x, m) (done (key, e), m')
      not_made x m m' h = ground (arith, ap (λ r. r.0) h)

  written_lem :
      (w : Write) (store : Bytes) (kf : KeyFile) (m m' : Manager)
      → save_key_file C w store kf m ≡ (done tt, m')
      → (save_key_file C written store kf m).1 ≡ m'
  unfolding save_key_file
  written_lem written store kf m m' h = ap (λ r. r.1) h
  written_lem unreached store kf m m' h = absurd (ground (arith, ap (λ r. r.0) h))
  written_lem (torn n) store kf m m' h = absurd (ground (arith, ap (λ r. r.0) h))

  -- The files behind a `Revoke` that succeeds.
  revoked :
      (f : IsFaithful C) (write : Write) (store id : Bytes) (m m' : Manager)
      → IsCoherent C store m
      → revoke C write store id m ≡ (done tt, m')
      → (kf : KeyFile) × (load_key_file C store m ≡ done kf)
        × (load_key_file C store m' ≡ done (record kf { keys = kept_entries id kf.keys }))
        × IsCoherent C store m'
  revoked f write store id m m' c h = elim (Outcome-cases (load_key_file C store m)) [
    | inr (e, load) ↦ absurd (failure e m m' (sym (revoke_bad C write store id m e load) ∙ h))
    | inl (kf, load) ↦ elim (Bool-cases (has_entry id kf.keys)) [
      | inr missing ↦
          absurd (
            failure key_not_found m m'
              (sym (revoke_missing C write store id m kf load missing) ∙ h))
      | inl found ↦
          let state =
            is_written write (record kf { keys = kept_entries id kf.keys })
              (sym (revoke_found C write store id m kf load found) ∙ h) in
          (
            kf,
            load,
            subst
                (λ x. load_key_file C store x ≡ done (record kf { keys = kept_entries id kf.keys }))
                state (load-saved C f store (record kf { keys = kept_entries id kf.keys }) m),
            subst (IsCoherent C store) state (
                save-IsCoherent C f store written store
                  (record kf { keys = kept_entries id kf.keys }) m tt c),
          )
    ]
  ]
    where
      failure :
          (e : Err) (m m' : Manager)
          → ◌≢◌ {A = Outcome Err (Unit {0}) × Manager} (failed e, m) (done tt, m')
      failure e m m' h = ground (arith, ap (λ r. r.0) h)

      is_written :
          (w : Write) (kf : KeyFile)
          → save_key_file C w store kf m ≡ (done tt, m')
          → (save_key_file C written store kf m).1 ≡ m'
      is_written w kf h = written_lem w store kf m m' h

  -- If key files are read back as they were written, and the cache agrees with the file of the store, after a
  -- `Revoke` that succeeds no key is accepted under an entry whose id was revoked.
  pub revoke-validate :
      (f : IsFaithful C) (write : Write) (store id : Bytes) (m m' : Manager) (key : Bytes)
      (entry : KeyEntry)
      → IsCoherent C store m
      → revoke C write store id m ≡ (done tt, m')
      → (validate C store key m').0 ≡ done entry
      → entry.id ≢ id
  revoke-validate f write store id m m' key entry c h accepted =
      let (kf, load, load', c') = revoked f write store id m m' c h in
      find_kept (C.hash_key key) id kf.keys entry (
        sym (validate-load store key m' (record kf { keys = kept_entries id kf.keys }) c' load')
        ∙ accepted)

  -- If key files are read back as they were written, and the cache agrees with the file of the store, a key that is
  -- accepted under an entry stays accepted behind a `Revoke` of another id that succeeds.
  pub validate-revoke :
      (f : IsFaithful C) (write : Write) (store id : Bytes) (m m' : Manager) (key : Bytes)
      (entry : KeyEntry)
      → IsCoherent C store m
      → revoke C write store id m ≡ (done tt, m')
      → (validate C store key m).0 ≡ done entry
      → entry.id ≢ id
      → (validate C store key m').0 ≡ done entry
  validate-revoke f write store id m m' key entry c h accepted ne =
      let (kf, load, load', c') = revoked f write store id m m' c h in
      validate-load store key m' (record kf { keys = kept_entries id kf.keys }) c' load'
      ∙ find_others (C.hash_key key) id kf.keys entry
          (sym (validate-load store key m kf c load) ∙ accepted) ne

  -- If key files are read back as they were written, and the cache agrees with the file of the store, then after a
  -- `Regenerate` that succeeds a key is accepted for the store exactly if it has the hash of the new key.
  pub regenerate-validate :
      (f : IsFaithful C) (o : Outside) (store note : Bytes) (m : Manager) (key : Bytes)
      (e : KeyEntry) (m' : Manager) (other : Bytes)
      → IsCoherent C store m
      → regenerate C o store note m ≡ (done (key, e), m')
      → (validate C store other m').0
        ≡ (if C.hash_key key =? C.hash_key other then done e else failed invalid_key)
  unfolding regenerate find_entry
  regenerate-validate f o store note m key e m' other c h =
      let (load, c', hashed) = saved_file f o store note none m key e m' c h in
      validate-load store other m' (with_entry C store e none) c' load
      ∙ ap (λ x. if x =? C.hash_key other then done e else failed invalid_key) hashed
