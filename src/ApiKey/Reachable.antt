-- ===== src/ApiKey/Reachable.antt =====
-- In every state that a manager of keys (internal/apikey/apikey.go) can reach, the cache agrees with the file of
-- a store in which no write broke off.
use ts_store.Prelude.{sym, Bool, none, some, Bool-cases, inl, inr}
use mathlib.Core.Path.{subst}
use mathlib.Core.Option.{none-ne-some}
use ts_store.Prelude.Equality.{Bytes, bytes_eq}
use ts_store.Prelude.Dict.{Dict, lookup}
use ts_store.Prelude.Outcome.{Outcome-cases}
use ts_store.WriteFile.{Write}
use ts_store.ApiKey.{
  Manager, Codec, Outside, new_manager, load_key_file, with_entry, new_entry, generate, validate,
  revoke, list_keys, regenerate, delete_key_file, has_entry, kept_entries,
}
use ts_store.ApiKey.Coherence.{
  IsFaithful, IsCoherent, Spares, save-IsCoherent, get-IsCoherent, delete-IsCoherent, generate_more,
  generate_bad, revoke_bad, revoke_missing, revoke_found,
}

module _ (C : Codec) where
  -- An operation of the manager, in which no write breaks off in the file of `at`.
  pub data Step (at : Bytes) : Manager → Manager → Type 0 where
    generates :
        (o : Outside) (store note : Bytes) (m : Manager)
        → Spares C at store o.write
        → Step at m (generate C o store note m).1
    validates : (store key : Bytes) (m : Manager) → Step at m (validate C store key m).1
    revokes :
        (write : Write) (store id : Bytes) (m : Manager)
        → Spares C at store write
        → Step at m (revoke C write store id m).1
    lists : (store : Bytes) (m : Manager) → Step at m (list_keys C store m).1
    regenerates :
        (o : Outside) (store note : Bytes) (m : Manager)
        → Spares C at store o.write
        → Step at m (regenerate C o store note m).1
    deletes :
        (removable : Bool) (store : Bytes) (m : Manager)
        → Step at m (delete_key_file C removable store m).1

  pub data Reachable (at : Bytes) : Manager → Type 0 where
    start : (files : Dict Bytes Bytes) → Reachable at (new_manager files)
    step : (m m' : Manager) → Reachable at m → Step at m m' → Reachable at m'

  generate-IsCoherent :
      (f : IsFaithful C) (s : Bytes) (o : Outside) (store note : Bytes) (m : Manager)
      → Spares C s store o.write
      → IsCoherent C s m
      → IsCoherent C s (generate C o store note m).1
  generate-IsCoherent f s o store note m sp c = elim (Outcome-cases (load_key_file C store m)) [
    | inl (kf, load) ↦
        subst (λ r. IsCoherent C s r.1) (sym (generate_more C o store note m kf load))
          (save-IsCoherent C f s o.write store (with_entry C store (new_entry C o note) (some kf)) m
            sp c)
    | inr (e, load) ↦ elim (generate_bad C o store note m e load) [
      | inl made ↦
          subst (λ r. IsCoherent C s r.1) (sym made)
            (save-IsCoherent C f s o.write store (with_entry C store (new_entry C o note) none) m sp
              c)
      | inr bad ↦ subst (λ r. IsCoherent C s r.1) (sym bad) c
    ]
  ]

  revoke-IsCoherent :
      (f : IsFaithful C) (s : Bytes) (write : Write) (store id : Bytes) (m : Manager)
      → Spares C s store write
      → IsCoherent C s m
      → IsCoherent C s (revoke C write store id m).1
  unfolding revoke
  revoke-IsCoherent f s write store id m sp c = elim (Outcome-cases (load_key_file C store m)) [
    | inr (e, load) ↦ subst (λ r. IsCoherent C s r.1) (sym (revoke_bad C write store id m e load)) c
    | inl (kf, load) ↦ elim (Bool-cases (has_entry id kf.keys)) [
      | inl found ↦
          subst (λ r. IsCoherent C s r.1) (sym (revoke_found C write store id m kf load found))
            (save-IsCoherent C f s write store (record kf { keys = kept_entries id kf.keys }) m sp
              c)
      | inr missing ↦
          subst (λ r. IsCoherent C s r.1) (sym (revoke_missing C write store id m kf load missing))
            c
    ]
  ]

  Step-IsCoherent :
      (f : IsFaithful C) (s : Bytes) (m m' : Manager)
      → Step s m m'
      → IsCoherent C s m
      → IsCoherent C s m'
  unfolding validate list_keys regenerate
  Step-IsCoherent f s _ _ (generates o store note m sp) c =
      generate-IsCoherent f s o store note m sp c
  Step-IsCoherent f s _ _ (validates store key m) c = get-IsCoherent C s store m c
  Step-IsCoherent f s _ _ (revokes write store id m sp) c =
      revoke-IsCoherent f s write store id m sp c
  Step-IsCoherent f s _ _ (lists store m) c = get-IsCoherent C s store m c
  Step-IsCoherent f s _ _ (regenerates o store note m sp) c =
      save-IsCoherent C f s o.write store (with_entry C store (new_entry C o note) none) m sp c
  Step-IsCoherent f s _ _ (deletes removable store m) c = delete-IsCoherent C s removable store m c

  -- If key files are read back as they were written, then after any operations of a manager on any stores, the
  -- entry of a store in its cache, if there is one, is what the file of the store holds, as long as no write
  -- broke off in that file. Every other fault is allowed: a write that fails before the file is opened, a write
  -- that breaks off in the file of another store, and a file that cannot be removed.
  pub Reachable-IsCoherent :
      (f : IsFaithful C) (store : Bytes) (m : Manager) → Reachable store m → IsCoherent C store m
  unfolding lookup
  Reachable-IsCoherent f store _ (start files) kf at = absurd (none-ne-some kf at)
  Reachable-IsCoherent f store _ (step m m' r s) kf at =
      Step-IsCoherent f store m m' s (Reachable-IsCoherent f store m r) kf at
