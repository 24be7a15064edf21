-- ===== src/Store/Json.antt =====
-- pkg/store/json.go: objects that are JSON texts. A list of them passes over what is no JSON.
pub mod Listing
use ts_store.Prelude.{ℕ, Option, none, some, List, [], ◌∷◌}
use ts_store.Prelude.Int.{ℤ}
use ts_store.Prelude.Equality.{Bytes}
use ts_store.Prelude.Outcome.{Outcome, done, failed, ◌>>=◌}
use ts_store.Store.State.Errors
use ts_store.Store.State.Errors.{Result, ok, err}
use ts_store.Store.State.{Store}
use ts_store.Store.Packed.{ObjectHandle}
use ts_store.Store.Objects.{put_object, get_object}
use ts_store.Store.Objects.Query.{
  get_object_by_time, get_object_by_block, get_oldest_objects, get_newest_objects,
  get_objects_in_range, get_objects_since,
}

-- `encoding/json` on the values of one type: `Marshal`, `Unmarshal` into that type, and `Unmarshal` into a
-- `RawMessage`, which yields the text without the space around it.
pub record Codec : Type 1 where
  pub Value : Type 0
  pub marshal : Value → Option Bytes
  pub unmarshal : Bytes → Option Value
  pub raw : Bytes → Option Bytes

pub data Err : Type 0 where
  invalid_json : Err
  in_store : Errors.Err → Err

abbrev pub from_store : {A : Type 0} → Result A → Outcome Err A
from_store (ok a) = done a
from_store (err e) = failed (in_store e)

module _ (C : Codec) where
  unfoldable pub put_json : ℤ → C.Value → Store → Outcome Err ObjectHandle × Store
  put_json timestamp value s = elim (C.marshal value) [
    | none ↦ (failed invalid_json, s)
    | some bs ↦ (from_store (put_object timestamp bs s).0, (put_object timestamp bs s).1)
  ]

  -- `PutJSONNow`, where `time.Now` is the argument.
  unfoldable pub put_json_now : ℤ → C.Value → Store → Outcome Err ObjectHandle × Store
  put_json_now now value s = put_json now value s

  abbrev pub value_of : Bytes → Outcome Err C.Value
  value_of bs = elim (C.unmarshal bs) [ none ↦ failed invalid_json | some v ↦ done v ]

  abbrev pub raw_of : Bytes → Outcome Err Bytes
  raw_of bs = elim (C.raw bs) [ none ↦ failed invalid_json | some r ↦ done r ]

  unfoldable pub get_json : ObjectHandle → Store → Outcome Err C.Value
  get_json handle s = do bs ← from_store (get_object handle s); value_of bs

  abbrev pub parsed :
      {B : Type 0}
      → (Bytes → Outcome Err B)
      → Result (Bytes × ObjectHandle)
      → Outcome Err (B × ObjectHandle)
  parsed f r = do (bs, handle) ← from_store r; v ← f bs; done (v, handle)

  unfoldable pub get_json_by_time : ℤ → Store → Outcome Err (C.Value × ObjectHandle)
  get_json_by_time timestamp s = parsed value_of (get_object_by_time timestamp s)

  unfoldable pub get_json_by_block : ℕ → Store → Outcome Err (C.Value × ObjectHandle)
  get_json_by_block block_num s = parsed value_of (get_object_by_block block_num s)

  unfoldable pub get_json_raw : ObjectHandle → Store → Outcome Err Bytes
  get_json_raw handle s = do bs ← from_store (get_object handle s); raw_of bs

  unfoldable pub get_json_raw_by_time : ℤ → Store → Outcome Err (Bytes × ObjectHandle)
  get_json_raw_by_time timestamp s = parsed raw_of (get_object_by_time timestamp s)

  unfoldable pub get_json_raw_by_block : ℕ → Store → Outcome Err (Bytes × ObjectHandle)
  get_json_raw_by_block block_num s = parsed raw_of (get_object_by_block block_num s)

  -- A text that was read, with its handle; one that was not is passed over.
  abbrev pub keep :
      Outcome Err Bytes → ObjectHandle → List (Bytes × ObjectHandle) → List (Bytes × ObjectHandle)
  keep (failed e) h rest = rest
  keep (done raw) h rest = (raw, h) ∷ rest

  -- The loop that the four lists share: the texts with their handles.
  unfoldable pub raw_objects : List ObjectHandle → Store → List (Bytes × ObjectHandle)
  raw_objects [] s = []
  raw_objects (h ∷ hs) s = keep (get_json_raw h s) h (raw_objects hs s)

  abbrev pub listed : Result (List ObjectHandle) → Store → Outcome Err (List (Bytes × ObjectHandle))
  listed r s = do handles ← from_store r; done (raw_objects handles s)

  unfoldable pub get_oldest_json : ℤ → Store → Outcome Err (List (Bytes × ObjectHandle))
  get_oldest_json limit s = listed (get_oldest_objects limit s) s

  unfoldable pub get_newest_json : ℤ → Store → Outcome Err (List (Bytes × ObjectHandle))
  get_newest_json limit s = listed (get_newest_objects limit s) s

  unfoldable pub get_json_in_range :
      ℤ → ℤ → ℤ → ℤ → Store → Outcome Err (List (Bytes × ObjectHandle))
  get_json_in_range now start end limit s = listed (get_objects_in_range now start end limit s) s

  unfoldable pub get_json_since : ℤ → ℤ → ℤ → ℤ → Store → Outcome Err (List (Bytes × ObjectHandle))
  get_json_since now later d limit s = listed (get_objects_since now later d limit s) s
