-- ===== src/Middleware/Access.antt =====
-- `Auth` (internal/middleware/auth.go) lets through the requests with a key of the store.
use ts_store.Prelude.{◌≡◌, ◌↔◌, refl, ap, Bool, true, false, not, arith, if◌then◌else◌}
use ts_store.Prelude.Equality.{Bytes}
use ts_store.Prelude.Outcome.{Outcome, done, failed}
use ts_store.Strings.{is_empty}
use ts_store.ApiKey.{Err, KeyEntry, Manager, Codec, validate_key_format}
use ts_store.ApiKey
use ts_store.Middleware.{
  Request, Answer, bad_request, unauthorized, next, next_admin, answer_of, api_key_value, auth,
}

decision : Bool → Bool → Bool → Bytes → Outcome Err KeyEntry → Manager → Manager → Answer × Manager
decision a b c store o m m' =
    if a
    then (bad_request, m)
    else if b
    then (unauthorized, m)
    else if not c
    then (unauthorized, m)
    else (answer_of store o, m')

entry_of : KeyEntry → Answer → KeyEntry
entry_of e (next s x) = x
entry_of e bad_request = e
entry_of e unauthorized = e
entry_of e next_admin = e

decided :
    (a b c : Bool) (store : Bytes) (o : Outcome Err KeyEntry) (m m' : Manager) (e : KeyEntry)
    → (decision a b c store o m m').0 ≡ next store e
    → (a ≡ false) × (b ≡ false) × (c ≡ true) × (o ≡ done e)
unfolding decision entry_of
decided true b c store o m m' e h = absurd (ground (arith, h))
decided false true c store o m m' e h = absurd (ground (arith, h))
decided false false false store o m m' e h = absurd (ground (arith, h))
decided false false true store (failed x) m m' e h = absurd (ground (arith, h))
decided false false true store (done x) m m' e h = (refl, refl, refl, ap done (ap (entry_of x) h))

-- `Auth` passes a request on under an entry exactly if it names a store, and a key of the right form, and
-- the manager accepts that key for that store under that entry.
pub auth-validate :
    (C : Codec) (r : Request) (m : Manager) (e : KeyEntry)
    → ((auth C r m).0 ≡ next r.store_param e) ↔ (
        (is_empty r.store_param ≡ false)
        × (is_empty (api_key_value r) ≡ false)
        × (validate_key_format (api_key_value r) ≡ true)
        × ((ApiKey.validate C r.store_param (api_key_value r) m).0 ≡ done e))
unfolding auth decision
auth-validate C r m e = (
  λ h.
      decided (is_empty r.store_param) (is_empty (api_key_value r))
        (validate_key_format (api_key_value r)) r.store_param
        (ApiKey.validate C r.store_param (api_key_value r) m).0 m
        (ApiKey.validate C r.store_param (api_key_value r) m).1 e h,
  λ (store, key, form, found). rw (auth, store, key, form, found) refl,
)
