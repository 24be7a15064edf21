-- ===== src/Middleware.antt =====
-- internal/middleware/auth.go: which requests the API lets through.
pub mod Access
pub mod Compare
mod Tests
use ts_store.Prelude.{
  ℕ, Bool, true, false, not, Option, some, none, List, [], ◌∷◌, drop, length, bit_or, bit_xor, ◌==◌,
  if◌then◌else◌,
}
use ts_store.Prelude.Equality.{Bytes}
use ts_store.Prelude.Outcome.{Outcome, done, failed}
use ts_store.Strings.{has_prefix, is_empty}
use ts_store.ApiKey.{Err, KeyEntry, Manager, Codec, validate_key_format}
use ts_store.ApiKey

-- The parts of a request that the code reads; a missing one is "".
pub record Request : Type 0 where
  pub store_param : Bytes
  pub api_key_header : Bytes
  pub authorization : Bytes
  pub api_key_query : Bytes
  pub admin_header : Bytes
  pub admin_query : Bytes

-- The two error answers, or the next handler with the store and the entry set in the context.
pub data Answer : Type 0 where
  bad_request unauthorized : Answer
  next : Bytes → KeyEntry → Answer
  next_admin : Answer

abbrev pub or_else : Bytes → Bytes → Bytes
or_else s t = if is_empty s then t else s

abbrev pub bearer : Bytes
bearer = 66 ∷ 101 ∷ 97 ∷ 114 ∷ 101 ∷ 114 ∷ 32 ∷ []

abbrev pub bearer_token : Bytes → Bytes
bearer_token s = if has_prefix s bearer then drop (length bearer) s else []

unfoldable pub api_key_value : Request → Bytes
api_key_value r = or_else (or_else r.api_key_header (bearer_token r.authorization)) r.api_key_query

abbrev pub answer_of : Bytes → Outcome Err KeyEntry → Answer
answer_of store (failed e) = unauthorized
answer_of store (done e) = next store e

unfoldable pub auth : Codec → Request → Manager → Answer × Manager
auth C r m =
    if is_empty r.store_param
    then (bad_request, m)
    else if is_empty (api_key_value r)
    then (unauthorized, m)
    else if not (validate_key_format (api_key_value r))
    then (unauthorized, m)
    else (
      answer_of r.store_param (ApiKey.validate C r.store_param (api_key_value r) m).0,
      (ApiKey.validate C r.store_param (api_key_value r) m).1,
    )

-- The loop of `secureCompare` on strings of one length.
unfoldable pub differences : ℕ → Bytes → Bytes → ℕ
differences result [] t = result
differences result (c ∷ s) [] = result
differences result (c ∷ s) (d ∷ t) = differences (bit_or result (bit_xor c d)) s t

unfoldable pub secure_compare : Bytes → Bytes → Bool
secure_compare a b = if not (length a == length b) then false else differences 0 a b == 0

unfoldable pub admin_auth : Bytes → Request → Answer
admin_auth admin_key r =
    let provided = or_else r.admin_header r.admin_query in
    if is_empty provided
    then unauthorized
    else if not (secure_compare provided admin_key)
    then unauthorized
    else next_admin
