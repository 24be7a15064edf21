-- ===== src/ApiKey.antt =====
-- internal/apikey/apikey.go: the keys of the stores, which a manager keeps in a cache and in one file for
-- each store.
pub mod Coherence
pub mod Reachable
pub mod Entries
pub mod Keys
mod Tests
use ts_store.Prelude.{
  ℕ, ◌+◌, Bool, true, false, Option, none, some, List, [], ◌∷◌, ◌++◌, take, length, ltb,
  if◌then◌else◌,
}
use ts_store.Prelude.Int.{ℤ}
use ts_store.Prelude.Equality.{Bytes, ◌=?◌, bytes_eq}
use ts_store.Prelude.Dict.{Dict, lookup, insert, erase}
use ts_store.Prelude.Outcome.{Outcome, done, failed}
use ts_store.WriteFile.{Write, written, unreached, torn}

-- `no_file` is the error for which `os.IsNotExist` holds, `write_failed` any error of `saveKeyFileLocked`,
-- `remove_failed` any other error of `os.Remove`.
pub data Err : Type 0 where
  key_not_found invalid_key key_file_corrupt no_file write_failed remove_failed : Err

pub record KeyEntry : Type 0 where
  pub id : Bytes
  pub hash : Bytes
  pub created_at : ℤ
  pub note : Bytes

pub record KeyFile : Type 0 where
  pub store_name : Bytes
  pub keys : List KeyEntry

-- The cache, and the contents of the key file of each store.
pub record Manager : Type 0 where
  pub cache : Dict Bytes KeyFile
  pub files : Dict Bytes Bytes

abbrev pub key_prefix : Bytes
key_prefix = 116 ∷ 115 ∷ 115 ∷ 116 ∷ 111 ∷ 114 ∷ 101 ∷ 95 ∷ []

abbrev pub new_manager : Dict Bytes Bytes → Manager
new_manager files = record { cache = []; files = files }

-- `ValidateKeyFormat`
unfoldable pub validate_key_format : Bytes → Bool
validate_key_format key =
    if ltb (length key) (length key_prefix + 36)
    then false
    else take (length key_prefix) key =? key_prefix

-- The first entry with the hash.
unfoldable pub find_entry : Bytes → List KeyEntry → Outcome Err KeyEntry
find_entry hash [] = failed invalid_key
find_entry hash (e ∷ es) = let rest = find_entry hash es in if e.hash =? hash then done e else rest

-- The entries that `Revoke` keeps, and whether it finds the key.
unfoldable pub kept_entries : Bytes → List KeyEntry → List KeyEntry
kept_entries id [] = []
kept_entries id (e ∷ es) = let rest = kept_entries id es in if e.id =? id then rest else e ∷ rest

unfoldable pub has_entry : Bytes → List KeyEntry → Bool
has_entry id [] = false
has_entry id (e ∷ es) = let rest = has_entry id es in if e.id =? id then true else rest

-- The hash of a key in hexadecimal digits, and the JSON form of a key file.
pub record Codec : Type 0 where
  pub hash_key : Bytes → Bytes
  pub encode : KeyFile → Bytes
  pub decode : Bytes → Option KeyFile

-- What an operation that makes a key gets from outside: a random UUID, the clock, and what becomes of the write
-- of the file.
pub record Outside : Type 0 where
  pub uuid : Bytes
  pub now : ℤ
  pub write : Write

module _ (C : Codec) where
  unfoldable pub load_key_file : Bytes → Manager → Outcome Err KeyFile
  load_key_file store m = elim (lookup store m.files) [
    | none ↦ failed no_file
    | some bytes ↦ elim (C.decode bytes) [ none ↦ failed key_file_corrupt | some kf ↦ done kf ]
  ]

  -- `saveKeyFileLocked`, and the cache behind it. A directory that cannot be made counts as a file that is not
  -- reached.
  unfoldable pub save_key_file :
      Write → Bytes → KeyFile → Manager → Outcome Err (Unit {0}) × Manager
  save_key_file written store kf m = (
    done tt,
    record m { files = insert store (C.encode kf) m.files; cache = insert store kf m.cache },
  )
  save_key_file unreached store kf m = (failed write_failed, m)
  save_key_file (torn n) store kf m =
      (failed write_failed, record m { files = insert store (take n (C.encode kf)) m.files })

  unfoldable pub get_key_file : Bytes → Manager → Outcome Err KeyFile × Manager
  get_key_file store m = elim (lookup store m.cache) [
    | some kf ↦ (done kf, m)
    | none ↦ elim (load_key_file store m) [
      | failed e ↦ (failed e, m)
      | done kf ↦ (done kf, record m { cache = insert store kf m.cache })
    ]
  ]

  abbrev pub new_key : Outside → Bytes
  new_key o = key_prefix ++ o.uuid

  abbrev pub new_entry : Outside → Bytes → KeyEntry
  new_entry o note = record {
    id = take 8 o.uuid;
    hash = C.hash_key (new_key o);
    created_at = o.now;
    note = note;
  }

  -- The file is saved, and the key handed out.
  abbrev pub save_new :
      Outside → Bytes → Bytes → KeyFile → Manager → Outcome Err (Bytes × KeyEntry) × Manager
  save_new o store note kf m =
      let saved = save_key_file o.write store kf m in
      (elim saved.0 [ failed e ↦ failed e | done _ ↦ done (new_key o, new_entry o note) ], saved.1)

  abbrev pub with_entry : Bytes → KeyEntry → Option KeyFile → KeyFile
  with_entry store entry none = record { store_name = store; keys = entry ∷ [] }
  with_entry store entry (some kf) = record kf { keys = kf.keys ++ (entry ∷ []) }

  unfoldable pub generate :
      Outside → Bytes → Bytes → Manager → Outcome Err (Bytes × KeyEntry) × Manager
  generate o store note m = elim (load_key_file store m) [
    | done kf ↦ save_new o store note (with_entry store (new_entry o note) (some kf)) m
    | failed e ↦ elim e [
      | no_file ↦ save_new o store note (with_entry store (new_entry o note) none) m
      | key_not_found ↦ (failed key_not_found, m)
      | invalid_key ↦ (failed invalid_key, m)
      | key_file_corrupt ↦ (failed key_file_corrupt, m)
      | write_failed ↦ (failed write_failed, m)
      | remove_failed ↦ (failed remove_failed, m)
    ]
  ]

  unfoldable pub validate : Bytes → Bytes → Manager → Outcome Err KeyEntry × Manager
  validate store key m =
      let got = get_key_file store m in
      (elim got.0 [ failed e ↦ failed e | done kf ↦ find_entry (C.hash_key key) kf.keys ], got.1)

  unfoldable pub revoke : Write → Bytes → Bytes → Manager → Outcome Err (Unit {0}) × Manager
  revoke write store id m = elim (load_key_file store m) [
    | failed e ↦ (failed e, m)
    | done kf ↦
        if has_entry id kf.keys
        then save_key_file write store (record kf { keys = kept_entries id kf.keys }) m
        else (failed key_not_found, m)
  ]

  unfoldable pub list_keys : Bytes → Manager → Outcome Err (List KeyEntry) × Manager
  list_keys store m =
      let got = get_key_file store m in
      (elim got.0 [ failed e ↦ failed e | done kf ↦ done kf.keys ], got.1)

  unfoldable pub regenerate :
      Outside → Bytes → Bytes → Manager → Outcome Err (Bytes × KeyEntry) × Manager
  regenerate o store note m = save_new o store note (with_entry store (new_entry o note) none) m

  -- Whether the operating system removes the file, or says that there is none.
  unfoldable pub delete_key_file : Bool → Bytes → Manager → Outcome Err (Unit {0}) × Manager
  delete_key_file removable store m =
      if removable
      then (done tt, record m { cache = erase store m.cache; files = erase store m.files })
      else (failed remove_failed, record m { cache = erase store m.cache })
