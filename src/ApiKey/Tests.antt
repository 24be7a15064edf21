-- ===== src/ApiKey/Tests.antt =====
-- A plain encoding of key files, and the keys of one store, on which the theorems on internal/apikey/apikey.go hold.
use ts_store.Prelude.{
  ℕ, zero, suc, ◌≡◌, ◌≢◌, refl, ap, ◌∙◌, Option, some, none, List, [], ◌∷◌, ◌++◌, map, length,
  arith, if◌then◌else◌,
}
use native.Mathlib.Decide.{ℕ_discrete}
use ts_store.Prelude.Int.{ℤ, pos, negsuc}
use ts_store.Prelude.Equality.{Bytes, ◌=?◌, bytes_eq, bytes_dec, first_eq}
use ts_store.Prelude.Dict.{lookup, insert}
use ts_store.Prelude.Outcome.{done, failed}
use ts_store.WriteFile.{written}
use ts_store.ApiKey.{
  KeyEntry, KeyFile, Manager, Codec, Outside, new_manager, generate, validate, revoke, regenerate,
  load_key_file, save_key_file, new_entry, new_key, invalid_key, find_entry, has_entry,
  kept_entries, get_key_file,
}
use ts_store.ApiKey.Coherence.{IsFaithful, IsCoherent}
use ts_store.ApiKey.Reachable.{Reachable, start, step, generates, Reachable-IsCoherent}
use ts_store.ApiKey.Keys.{
  keys_at, generate-validate, revoke-validate, validate-revoke, regenerate-validate,
}

write_string : Bytes → Bytes → Bytes
write_string s r = map suc s ++ (0 ∷ r)

read_string : Bytes → Bytes × Bytes
read_string [] = ([], [])
read_string (zero ∷ r) = ([], r)
read_string (suc c ∷ r) = let rest = read_string r in (c ∷ rest.0, rest.1)

read-write_string : (s r : Bytes) → read_string (write_string s r) ≡ (s, r)
unfolding write_string read_string
read-write_string [] r = refl
read-write_string (c ∷ s) r = ap (λ x. (c ∷ x.0, x.1)) (read-write_string s r)

write_int : ℤ → Bytes → Bytes
write_int (pos n) r = 0 ∷ n ∷ r
write_int (negsuc n) r = 1 ∷ n ∷ r

read_int : Bytes → ℤ × Bytes
read_int (zero ∷ n ∷ r) = (pos n, r)
read_int (suc k ∷ n ∷ r) = (negsuc n, r)
read_int (k ∷ []) = (pos 0, [])
read_int [] = (pos 0, [])

read-write_int : (t : ℤ) (r : Bytes) → read_int (write_int t r) ≡ (t, r)
unfolding write_int read_int
read-write_int (pos n) r = refl
read-write_int (negsuc n) r = refl

write_entry : KeyEntry → Bytes → Bytes
write_entry e r =
    write_string e.id (write_string e.hash (write_int e.created_at (write_string e.note r)))

read_entry : Bytes → KeyEntry × Bytes
read_entry bs =
    let a = read_string bs in
    let b = read_string a.1 in
    let c = read_int b.1 in
    let d = read_string c.1 in (record { id = a.0; hash = b.0; created_at = c.0; note = d.0 }, d.1)

read-write_entry : (e : KeyEntry) (r : Bytes) → read_entry (write_entry e r) ≡ (e, r)
unfolding write_entry read_entry
read-write_entry e r =
    rw
      (
        read-write_string e.id
            (write_string e.hash (write_int e.created_at (write_string e.note r))),
        read-write_string e.hash (write_int e.created_at (write_string e.note r)),
        read-write_int e.created_at (write_string e.note r),
        read-write_string e.note r,
      )
      refl

write_entries : List KeyEntry → Bytes
write_entries [] = []
write_entries (e ∷ es) = write_entry e (write_entries es)

read_entries : ℕ → Bytes → List KeyEntry
read_entries zero bs = []
read_entries (suc n) bs = let e = read_entry bs in e.0 ∷ read_entries n e.1

read-write_entries : (es : List KeyEntry) → read_entries (length es) (write_entries es) ≡ es
unfolding write_entries read_entries
read-write_entries [] = refl
read-write_entries (e ∷ es) =
    ap (λ x. x.0 ∷ read_entries (length es) x.1) (read-write_entry e (write_entries es))
    ∙ ap (λ x. e ∷ x) (read-write_entries es)

encode_file : KeyFile → Bytes
encode_file kf = length kf.keys ∷ write_string kf.store_name (write_entries kf.keys)

decode_file : Bytes → Option KeyFile
decode_file [] = none
decode_file (n ∷ bs) =
    let s = read_string bs in some (record { store_name = s.0; keys = read_entries n s.1 })

-- A key is its own hash.
abbrev plain_codec : Codec
plain_codec = record { hash_key = λ k. k; encode = encode_file; decode = decode_file }

plain_codec-IsFaithful : IsFaithful plain_codec
unfolding encode_file decode_file
plain_codec-IsFaithful kf =
    ap (λ s. some (record { store_name = s.0; keys = read_entries (length kf.keys) s.1 }))
      (read-write_string kf.store_name (write_entries kf.keys))
    ∙ ap (λ ks. some (record { store_name = kf.store_name; keys = ks }))
        (read-write_entries kf.keys)

abbrev first_outside : Outside
first_outside = record { uuid = 49 ∷ []; now = pos 7; write = written }

abbrev store_a : Bytes
store_a = 97 ∷ []

abbrev empty_manager : Manager
empty_manager = new_manager []

abbrev one_key : Manager
one_key = (generate plain_codec first_outside store_a [] empty_manager).1

empty_manager-IsCoherent : IsCoherent plain_codec store_a empty_manager
empty_manager-IsCoherent =
    Reachable-IsCoherent plain_codec plain_codec-IsFaithful store_a empty_manager (start [])

one_key-Reachable : Reachable plain_codec store_a one_key
one_key-Reachable =
    step empty_manager one_key (start []) (generates first_outside store_a [] empty_manager tt)

Reachable-IsCoherent_example : IsCoherent plain_codec store_a one_key
Reachable-IsCoherent_example =
    Reachable-IsCoherent plain_codec plain_codec-IsFaithful store_a one_key one_key-Reachable

first_generated :
    generate plain_codec first_outside store_a [] empty_manager
    ≡ (done (new_key plain_codec first_outside, new_entry plain_codec first_outside []), one_key)
unfolding generate load_key_file lookup save_key_file
first_generated = refl

generate-validate_example :
    (keys_at plain_codec store_a one_key ≡ new_entry plain_codec first_outside [] ∷ [])
    × (entry : KeyEntry) × ((validate plain_codec store_a
          (new_key plain_codec first_outside)
          one_key).0
        ≡ done entry)
    × (entry.hash ≡ new_key plain_codec first_outside)
unfolding load_key_file lookup
generate-validate_example =
    generate-validate plain_codec plain_codec-IsFaithful first_outside store_a [] empty_manager
      (new_key plain_codec first_outside) (new_entry plain_codec first_outside []) one_key
      empty_manager-IsCoherent first_generated

regenerate-validate_example :
    (validate plain_codec store_a
      (120 ∷ [])
      (regenerate plain_codec first_outside store_a [] one_key).1).0
    ≡ (if new_key plain_codec first_outside =? (120 ∷ [])
        then done (new_entry plain_codec first_outside [])
        else failed invalid_key)
unfolding regenerate save_key_file
regenerate-validate_example =
    regenerate-validate plain_codec plain_codec-IsFaithful first_outside store_a [] one_key
      (new_key plain_codec first_outside) (new_entry plain_codec first_outside [])
      (regenerate plain_codec first_outside store_a [] one_key).1 (120 ∷ [])
      (Reachable-IsCoherent plain_codec plain_codec-IsFaithful store_a one_key one_key-Reachable)
      refl

abbrev second_outside : Outside
second_outside = record { uuid = 50 ∷ []; now = pos 8; write = written }

abbrev two_keys : Manager
two_keys = (generate plain_codec second_outside store_a [] one_key).1

abbrev revoked_one : Manager
revoked_one = (revoke plain_codec written store_a (49 ∷ []) two_keys).1

two_keys-IsCoherent : IsCoherent plain_codec store_a two_keys
two_keys-IsCoherent =
    Reachable-IsCoherent plain_codec plain_codec-IsFaithful store_a two_keys
      (step one_key two_keys one_key-Reachable (generates second_outside store_a [] one_key tt))

first_revoked : revoke plain_codec written store_a (49 ∷ []) two_keys ≡ (done tt, revoked_one)
unfolding generate revoke load_key_file save_key_file lookup insert has_entry kept_entries
    encode_file decode_file write_string read_string write_int read_int write_entry read_entry
    write_entries read_entries bytes_eq bytes_dec ℕ_discrete
first_revoked = refl

second_validates :
    (validate plain_codec store_a (new_key plain_codec second_outside) two_keys).0
    ≡ done (new_entry plain_codec second_outside [])
unfolding generate validate get_key_file find_entry load_key_file save_key_file lookup insert
    encode_file decode_file write_string read_string write_int read_int write_entry read_entry
    write_entries read_entries bytes_eq bytes_dec ℕ_discrete
second_validates = refl

ids_differ : ◌≢◌ {A = Bytes} (50 ∷ []) (49 ∷ [])
ids_differ h = absurd (let e : 50 ≡ 49 = first_eq 50 49 [] [] h in omega (arith, e))

second_still :
    (validate plain_codec store_a (new_key plain_codec second_outside) revoked_one).0
    ≡ done (new_entry plain_codec second_outside [])
second_still =
    validate-revoke plain_codec plain_codec-IsFaithful written store_a (49 ∷ []) two_keys
      revoked_one (new_key plain_codec second_outside) (new_entry plain_codec second_outside [])
      two_keys-IsCoherent first_revoked second_validates ids_differ

validate-revoke_example :
    (validate plain_codec store_a (new_key plain_codec second_outside) revoked_one).0
    ≡ done (new_entry plain_codec second_outside [])
validate-revoke_example =
    validate-revoke plain_codec plain_codec-IsFaithful written store_a (49 ∷ []) two_keys
      revoked_one (new_key plain_codec second_outside) (new_entry plain_codec second_outside [])
      two_keys-IsCoherent first_revoked second_validates ids_differ

revoke-validate_example : (new_entry plain_codec second_outside []).id ≢ 49 ∷ []
revoke-validate_example =
    revoke-validate plain_codec plain_codec-IsFaithful written store_a (49 ∷ []) two_keys
      revoked_one (new_key plain_codec second_outside) (new_entry plain_codec second_outside [])
      two_keys-IsCoherent first_revoked second_still
