-- ===== src/ApiKey/Coherence.antt =====
-- The cache of a manager (internal/apikey/apikey.go) never disagrees with the key files.
use ts_store.Prelude.{
  ◌≡◌, ◌≢◌, ◌⊎◌, refl, sym, ap, ◌∙◌, Bool, true, false, Option, none, some, arith, Option-cases,
  Bool-cases, inl, inr, take, if◌then◌else◌,
}
use mathlib.Core.Path.{subst}
use mathlib.Core.Option.{none-ne-some, some-injective}
use ts_store.Prelude.Equality.{Bytes, ◌=?◌, bytes_eq}
use ts_store.Prelude.Dict.{lookup, insert, lookup_self, lookup_other, lookup-erase}
use ts_store.Prelude.Outcome.{Outcome, done, failed, Outcome-cases}
use ts_store.WriteFile.{Write, written, unreached, torn}
use ts_store.ApiKey.{
  Err, no_file, key_file_corrupt, key_not_found, invalid_key, write_failed, remove_failed, KeyFile,
  Manager, Codec, Outside, load_key_file, save_key_file, get_key_file, save_new, with_entry,
  new_entry, generate, revoke, delete_key_file, has_entry, kept_entries,
}

module _ (C : Codec) where
  -- What is written is read back.
  abbrev pub IsFaithful : Type 0
  IsFaithful = (kf : KeyFile) → C.decode (C.encode kf) ≡ some kf

  -- The entry of the store in the cache, if there is one, is what its file holds.
  abbrev pub IsCoherent : Bytes → Manager → Type 0
  IsCoherent store m =
      (kf : KeyFile) → lookup store m.cache ≡ some kf → load_key_file C store m ≡ done kf

  -- The write of the file of `store` does not break off in the file of `at`.
  abbrev pub Spares : Bytes → Bytes → Write → Type 0
  Spares at store written = Unit
  Spares at store unreached = Unit
  Spares at store (torn n) = at ≢ store

  done-ne-failed : (kf : KeyFile) (e : Err) → ◌≢◌ {A = Outcome Err KeyFile} (failed e) (done kf)
  done-ne-failed kf e h = ground (arith, h)

  pub equal_of_test : (s t : Bytes) → (s =? t) ≡ true → s ≡ t
  equal_of_test s t h = ground (arith, h)

  pub differ_of_test : (s t : Bytes) → (s =? t) ≡ false → s ≢ t
  differ_of_test s t h e = ground (arith, h, e)

  load_of : Option Bytes → Outcome Err KeyFile
  load_of o = elim o [
    | none ↦ failed no_file
    | some bytes ↦ elim (C.decode bytes) [ none ↦ failed key_file_corrupt | some kf ↦ done kf ]
  ]

  pub load-saved :
      (f : IsFaithful) (store : Bytes) (kf : KeyFile) (m : Manager)
      → load_key_file C store (save_key_file C written store kf m).1 ≡ done kf
  unfolding load_key_file save_key_file load_of
  load-saved f store kf m =
      ap load_of (lookup_self store (C.encode kf) m.files) ∙ ap (λ o. decoded o) (f kf)
    where
      decoded : Option KeyFile → Outcome Err KeyFile
      decoded o = elim o [ none ↦ failed key_file_corrupt | some k ↦ done k ]

  pub save-IsCoherent :
      (f : IsFaithful) (s : Bytes) (write : Write) (store : Bytes) (kf : KeyFile) (m : Manager)
      → Spares s store write
      → IsCoherent s m
      → IsCoherent s (save_key_file C write store kf m).1
  unfolding save_key_file load_key_file load_of
  save-IsCoherent f s unreached store kf m sp c k at = c k at
  save-IsCoherent f s (torn n) store kf m sp c k at =
      ap load_of (lookup_other s store (take n (C.encode kf)) m.files sp) ∙ c k at
  save-IsCoherent f s written store kf m sp c k at = elim (Bool-cases (s =? store)) [
    | inl same ↦
        let e = equal_of_test s store same in
        let k_is_kf : kf ≡ k = some-injective kf k (
          sym (ap (λ x. lookup x (insert store kf m.cache)) e ∙ lookup_self store kf m.cache)
          ∙ at) in
        ap (λ x. load_of (lookup x (insert store (C.encode kf) m.files))) e
        ∙ load-saved f store kf m
        ∙ ap done k_is_kf
    | inr differ ↦
        let ne = differ_of_test s store differ in
        ap load_of (lookup_other s store (C.encode kf) m.files ne)
        ∙ c k (sym (lookup_other s store kf m.cache ne) ∙ at)
  ]

  get_hit :
      (store : Bytes) (m : Manager) (kf : KeyFile)
      → lookup store m.cache ≡ some kf
      → get_key_file C store m ≡ (done kf, m)
  unfolding get_key_file
  get_hit store m kf at = rw (get_key_file, at) refl

  get_bad :
      (store : Bytes) (m : Manager) (e : Err)
      → lookup store m.cache ≡ none
      → load_key_file C store m ≡ failed e
      → get_key_file C store m ≡ (failed e, m)
  unfolding get_key_file
  get_bad store m e at load = rw (get_key_file, at, load) refl

  get_read :
      (store : Bytes) (m : Manager) (kf : KeyFile)
      → lookup store m.cache ≡ none
      → load_key_file C store m ≡ done kf
      → get_key_file C store m ≡ (done kf, record m { cache = insert store kf m.cache })
  unfolding get_key_file
  get_read store m kf at load = rw (get_key_file, at, load) refl

  cached-IsCoherent :
      (s store : Bytes) (kf : KeyFile) (m : Manager)
      → load_key_file C store m ≡ done kf
      → IsCoherent s m
      → IsCoherent s (record m { cache = insert store kf m.cache })
  unfolding load_key_file
  cached-IsCoherent s store kf m load c k at = elim (Bool-cases (s =? store)) [
    | inl same ↦
        let e = equal_of_test s store same in
        ap (λ x. load_key_file C x m) e
        ∙ load
        ∙ ap done (
            some-injective kf k (
              sym (ap (λ x. lookup x (insert store kf m.cache)) e ∙ lookup_self store kf m.cache)
              ∙ at))
    | inr differ ↦ c k (sym (lookup_other s store kf m.cache (differ_of_test s store differ)) ∙ at)
  ]

  -- Behind the cache stands the file.
  pub get_key_file-load :
      (store : Bytes) (m : Manager)
      → IsCoherent store m
      → (get_key_file C store m).0 ≡ load_key_file C store m
  get_key_file-load store m c = elim (Option-cases (lookup store m.cache)) [
    | inr (kf, at) ↦ ap (λ r. r.0) (get_hit store m kf at) ∙ sym (c kf at)
    | inl at ↦ elim (Outcome-cases (load_key_file C store m)) [
      | inl (kf, load) ↦ ap (λ r. r.0) (get_read store m kf at load) ∙ sym load
      | inr (e, load) ↦ ap (λ r. r.0) (get_bad store m e at load) ∙ sym load
    ]
  ]

  pub get-IsCoherent :
      (s store : Bytes) (m : Manager) → IsCoherent s m → IsCoherent s (get_key_file C store m).1
  get-IsCoherent s store m c = elim (Option-cases (lookup store m.cache)) [
    | inr (kf, at) ↦ subst (λ r. IsCoherent s r.1) (sym (get_hit store m kf at)) c
    | inl at ↦ elim (Outcome-cases (load_key_file C store m)) [
      | inl (kf, load) ↦
          subst (λ r. IsCoherent s r.1) (sym (get_read store m kf at load))
            (cached-IsCoherent s store kf m load c)
      | inr (e, load) ↦ subst (λ r. IsCoherent s r.1) (sym (get_bad store m e at load)) c
    ]
  ]

  pub delete-IsCoherent :
      (s : Bytes) (removable : Bool) (store : Bytes) (m : Manager)
      → IsCoherent s m
      → IsCoherent s (delete_key_file C removable store m).1
  unfolding delete_key_file load_key_file load_of
  delete-IsCoherent s false store m c k at = elim (Bool-cases (s =? store)) [
    | inl same ↦ absurd (
        none-ne-some k (
          sym (lookup-erase s store m.cache ∙ ap (λ b. if b then none else lookup s m.cache) same)
          ∙ at))
    | inr differ ↦ c k (
        sym (lookup-erase s store m.cache ∙ ap (λ b. if b then none else lookup s m.cache) differ)
        ∙ at)
  ]
  delete-IsCoherent s true store m c k at = elim (Bool-cases (s =? store)) [
    | inl same ↦ absurd (
        none-ne-some k (
          sym (lookup-erase s store m.cache ∙ ap (λ b. if b then none else lookup s m.cache) same)
          ∙ at))
    | inr differ ↦
        ap load_of
          (lookup-erase s store m.files ∙ ap (λ b. if b then none else lookup s m.files) differ)
        ∙ c k (
            sym
              (lookup-erase s store m.cache ∙ ap (λ b. if b then none else lookup s m.cache) differ)
            ∙ at)
  ]

  pub generate_more :
      (o : Outside) (store note : Bytes) (m : Manager) (kf : KeyFile)
      → load_key_file C store m ≡ done kf
      → generate C o store note m
        ≡ save_new C o store note (with_entry C store (new_entry C o note) (some kf)) m
  unfolding generate
  generate_more o store note m kf load = rw (generate, load) refl

  pub generate_bad :
      (o : Outside) (store note : Bytes) (m : Manager) (e : Err)
      → load_key_file C store m ≡ failed e
      → (generate C o store note m
          ≡ save_new C o store note (with_entry C store (new_entry C o note) none) m)
        ⊎ (generate C o store note m ≡ (failed e, m))
  unfolding generate
  generate_bad o store note m no_file load = inl (rw (generate, load) refl)
  generate_bad o store note m key_not_found load = inr (rw (generate, load) refl)
  generate_bad o store note m invalid_key load = inr (rw (generate, load) refl)
  generate_bad o store note m key_file_corrupt load = inr (rw (generate, load) refl)
  generate_bad o store note m remove_failed load = inr (rw (generate, load) refl)
  generate_bad o store note m write_failed load = inr (rw (generate, load) refl)

  pub revoke_bad :
      (write : Write) (store id : Bytes) (m : Manager) (e : Err)
      → load_key_file C store m ≡ failed e
      → revoke C write store id m ≡ (failed e, m)
  unfolding revoke
  revoke_bad write store id m e load = rw (revoke, load) refl

  pub revoke_missing :
      (write : Write) (store id : Bytes) (m : Manager) (kf : KeyFile)
      → load_key_file C store m ≡ done kf
      → has_entry id kf.keys ≡ false
      → revoke C write store id m ≡ (failed key_not_found, m)
  unfolding revoke
  revoke_missing write store id m kf load missing = rw (revoke, load, missing) refl

  pub revoke_found :
      (write : Write) (store id : Bytes) (m : Manager) (kf : KeyFile)
      → load_key_file C store m ≡ done kf
      → has_entry id kf.keys ≡ true
      → revoke C write store id m
        ≡ save_key_file C write store (record kf { keys = kept_entries id kf.keys }) m
  unfolding revoke
  revoke_found write store id m kf load found = rw (revoke, load, found) refl
