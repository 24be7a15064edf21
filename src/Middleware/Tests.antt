-- ===== src/Middleware/Tests.antt =====
-- A request with a key of a store, on which the theorem on internal/middleware/auth.go holds.
use ts_store.Prelude.{◌≡◌, ◌≢◌, ◌↔◌, true, false, none, [], ◌∷◌, ◌++◌}
use ts_store.Prelude.Int.{pos}
use ts_store.Prelude.Equality.{Bytes}
use ts_store.Prelude.Outcome.{done}
use ts_store.Strings.{is_empty}
use ts_store.ApiKey.{KeyEntry, Manager, Codec, key_prefix, validate_key_format}
use ts_store.ApiKey
use ts_store.Middleware.{Request, next, next_admin, or_else, admin_auth, api_key_value, auth}
use ts_store.Middleware.Access.{auth-validate}
use ts_store.Middleware.Compare.{admin_auth-eq}

abbrev nine : Bytes
nine = 48 ∷ 49 ∷ 50 ∷ 51 ∷ 52 ∷ 53 ∷ 54 ∷ 55 ∷ 56 ∷ []

abbrev some_key : Bytes
some_key = key_prefix ++ (nine ++ (nine ++ (nine ++ nine)))

abbrev some_entry : KeyEntry
some_entry = record { id = nine; hash = some_key; created_at = pos 7; note = [] }

-- A key is its own hash, and no file is read.
abbrev cached_codec : Codec
cached_codec = record { hash_key = λ k. k; encode = λ kf. []; decode = λ bs. none }

abbrev cached : Manager
cached = record {
  cache = (97 ∷ [], record { store_name = 97 ∷ []; keys = some_entry ∷ [] }) ∷ [];
  files = [];
}

abbrev some_request : Request
some_request = record {
  store_param = 97 ∷ [];
  api_key_header = some_key;
  authorization = [];
  api_key_query = [];
  admin_header = [];
  admin_query = [];
}

auth-validate_example : ((auth cached_codec some_request cached).0 ≡ next (97 ∷ []) some_entry) ↔ (
    (is_empty (97 ∷ []) ≡ false)
    × (is_empty (api_key_value some_request) ≡ false)
    × (validate_key_format (api_key_value some_request) ≡ true)
    × ((ApiKey.validate cached_codec (97 ∷ []) (api_key_value some_request) cached).0
        ≡ done some_entry))
auth-validate_example = auth-validate cached_codec some_request cached some_entry

admin_auth-eq_example :
    (admin_auth nine (record some_request { admin_query = nine }) ≡ next_admin)
    ↔ ((or_else [] nine ≢ []) × (or_else [] nine ≡ nine))
admin_auth-eq_example = admin_auth-eq nine (record some_request { admin_query = nine })
