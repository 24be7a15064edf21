-- ===== src/ApiKey/Entries.antt =====
-- The searches through the entries of a key file (internal/apikey/apikey.go).
use ts_store.Prelude.{
  ◌≡◌, ◌≢◌, sym, ap, ◌∙◌, true, false, List, [], ◌∷◌, ◌++◌, arith, Bool-cases, inl, inr,
  if◌then◌else◌,
}
use mathlib.Core.Path.{subst}
use ts_store.Prelude.Equality.{Bytes, ◌=?◌, bytes_eq}
use ts_store.Prelude.Outcome.{Outcome, done, failed}
use ts_store.ApiKey.{Err, invalid_key, KeyEntry, find_entry, kept_entries}

pub find_appended :
    (h : Bytes) (es : List KeyEntry) (e : KeyEntry)
    → e.hash ≡ h
    → (entry : KeyEntry) × (find_entry h (es ++ (e ∷ [])) ≡ done entry) × (entry.hash ≡ h)
unfolding find_entry
find_appended h [] e same = (e, ground (arith, same), same)
find_appended h (x ∷ es) e same = elim (Bool-cases (x.hash =? h)) [
  | inl here ↦
      (x, ap (λ b. if b then done x else find_entry h (es ++ (e ∷ []))) here, ground (arith, here))
  | inr later ↦
      let (entry, found, hashed) = find_appended h es e same in
      (entry, ap (λ b. if b then done x else find_entry h (es ++ (e ∷ []))) later ∙ found, hashed)
]

invalid-ne-done : (e : KeyEntry) → ◌≢◌ {A = Outcome Err KeyEntry} (failed invalid_key) (done e)
invalid-ne-done e h = ground (arith, h)

done_entry : (e x : KeyEntry) → ◌≡◌ {A = Outcome Err KeyEntry} (done e) (done x) → e ≡ x
done_entry e x h = ap (λ r. elim r [ done y ↦ y | failed z ↦ e ]) h

equal_ids : (s t : Bytes) → (s =? t) ≡ true → s ≡ t
equal_ids s t h = ground (arith, h)

differ_ids : (s t : Bytes) → (s =? t) ≡ false → s ≢ t
differ_ids s t h e = ground (arith, h, e)

-- No entry that is kept has the revoked id.
pub find_kept :
    (h id : Bytes) (es : List KeyEntry) (x : KeyEntry)
    → find_entry h (kept_entries id es) ≡ done x
    → x.id ≢ id
unfolding find_entry kept_entries
find_kept h id [] x found = absurd (invalid-ne-done x found)
find_kept h id (e ∷ es) x found = elim (Bool-cases (e.id =? id)) [
  | inl same ↦ find_kept h id es x (
      sym (ap (λ b. find_entry h (if b then kept_entries id es else e ∷ kept_entries id es)) same)
      ∙ found)
  | inr differ ↦
      let kept : find_entry h (e ∷ kept_entries id es) ≡ done x =
        sym
          (ap (λ b. find_entry h (if b then kept_entries id es else e ∷ kept_entries id es)) differ)
        ∙ found in
      elim (Bool-cases (e.hash =? h)) [
        | inl here ↦
            subst (λ y. y.id ≢ id)
              (done_entry e x (
                sym (ap (λ b. if b then done e else find_entry h (kept_entries id es)) here)
                ∙ kept))
              (differ_ids e.id id differ)
        | inr later ↦
            find_kept h id es x
              (sym (ap (λ b. if b then done e else find_entry h (kept_entries id es)) later) ∙ kept)
      ]
]

-- An entry with another id is found as before.
pub find_others :
    (h id : Bytes) (es : List KeyEntry) (x : KeyEntry)
    → find_entry h es ≡ done x
    → x.id ≢ id
    → find_entry h (kept_entries id es) ≡ done x
unfolding find_entry kept_entries
find_others h id [] x found ne = found
find_others h id (e ∷ es) x found ne = elim (Bool-cases (e.hash =? h)) [
  | inl here ↦
      let e_is_x : e ≡ x =
        done_entry e x (sym (ap (λ b. if b then done e else find_entry h es) here) ∙ found) in
      elim (Bool-cases (e.id =? id)) [
        | inl same ↦ absurd (ne (sym (ap (λ y. y.id) e_is_x) ∙ equal_ids e.id id same))
        | inr differ ↦
            ap (λ b. find_entry h (if b then kept_entries id es else e ∷ kept_entries id es)) differ
            ∙ ap (λ b. if b then done e else find_entry h (kept_entries id es)) here
            ∙ ap done e_is_x
      ]
  | inr later ↦
      let rest : find_entry h (kept_entries id es) ≡ done x =
        find_others h id es x (sym (ap (λ b. if b then done e else find_entry h es) later) ∙ found)
          ne in
      elim (Bool-cases (e.id =? id)) [
        | inl same ↦
            ap (λ b. find_entry h (if b then kept_entries id es else e ∷ kept_entries id es)) same
            ∙ rest
        | inr differ ↦
            ap (λ b. find_entry h (if b then kept_entries id es else e ∷ kept_entries id es)) differ
            ∙ ap (λ b. if b then done e else find_entry h (kept_entries id es)) later
            ∙ rest
      ]
]
