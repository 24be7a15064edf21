-- ===== src/Ws/Pusher.antt =====
-- internal/ws/pusher.go: a connection that sends the objects of a store to a remote server.
pub mod Setup
pub mod Loop
pub mod Rounds
pub mod Retry
pub mod Order
pub mod Fresh
pub mod Stream
pub mod Delivery
use ts_store.Prelude.{
  ℕ, ◌+◌, Bool, true, false, not, ◌||◌, Option, none, some, List, [], ◌∷◌, ◌++◌, length, ◌==◌,
  if◌then◌else◌,
}
use ts_store.Prelude.Int.{ℤ, pos, ◌==ℤ◌}
use ts_store.Prelude.Equality.{Bytes, ◌=?◌, bytes_eq}
use ts_store.Prelude.Dict.{Dict}
use ts_store.Prelude.Outcome.{Outcome, done, failed}
use ts_store.Strings.{is_empty}
use ts_store.Filter.{matches_filter}
use ts_store.Duration
use ts_store.Duration.{Clocks, parse_duration}
use ts_store.Schema
use ts_store.Aggregation
use ts_store.Aggregation.{parse_field_aggs, build_numeric_map, new_config}
use ts_store.Aggregation.Window.{Accumulator, AggResult, add, add_int64}
use ts_store.Rules.{Comparisons, RuleValue, Plain}
use ts_store.Rules.Parse.{parse}
use ts_store.Rules.Evaluator.{AlertRule, Alert, DataRecord, Evaluator, new_evaluator, send}
use ts_store.Store.State.Errors
use ts_store.Store.State.Errors.{Result, ok, err}
use ts_store.Store.Packed.{ObjectHandle}
use ts_store.Store.Objects.{get_object}
use ts_store.Store.Objects.Query.{get_oldest_objects, get_objects_in_range}
use ts_store.SchemaStore.{SchemaStore, get_schema_set, expand_data, is_schema_store}
use ts_store.Ws.Config.{WsConnection, AlertRuleConfig}

abbrev pub compact : Bytes
compact = 99 ∷ 111 ∷ 109 ∷ 112 ∷ 97 ∷ 99 ∷ 116 ∷ []

-- The strings that `status` takes.
pub data Status : Type 0 where
  disconnected connecting connected error : Status

-- What `err.Error()` tells of: an error of the store, or one of the WebSocket library as a text.
pub data Failure : Type 0 where
  in_store : Errors.Err → Failure
  in_socket : Bytes → Failure

module _ (K : Comparisons) where
  -- `json.Unmarshal` into `map[string]interface{}` and `json.Marshal` of such a map.
  pub record MapCodec : Type 0 where
    pub unmarshal : Bytes → Option (Dict Bytes (RuleValue K))
    pub marshal : Dict Bytes (RuleValue K) → Bytes

  abbrev pub json_of : MapCodec → Schema.Json
  json_of J = record { Value = RuleValue K; unmarshal = J.unmarshal; marshal = J.marshal }

  -- The messages: `data` with the text of an object, `data` with a window's result, and `alert`.
  pub data Message : Type 0 where
    data_message : ℤ → Bytes → Message
    result_message : ℤ → Dict Bytes (RuleValue K) → Message
    alert_message : Alert K → Message

  -- A WebSocket connection of the library: `WriteJSON` fails with a text or not.
  pub record Socket : Type 1 where
    pub Conn : Type 0
    pub write_json : Message → Conn → Option Bytes × Conn

  abbrev pub Window : Type 0
  Window = Accumulator K.floats (Plain K.Opaque)

  abbrev pub WindowResult : Type 0
  WindowResult = AggResult K.floats (Plain K.Opaque)

  module _ (W : Socket) where
    -- `queue` is the channel of the evaluator. The text "" of `lastError` is `none`.
    pub record Pusher : Type 0 where
      pub store_name : Bytes
      pub config : WsConnection
      pub conn : Option W.Conn
      pub status : Status
      pub last_timestamp : ℤ
      pub messages_sent : ℕ
      pub errors : ℕ
      pub last_error : Option Failure
      pub accumulator : Option Window
      pub evaluator : Option (Evaluator K)
      pub queue : List (DataRecord K)
      pub alerts_fired : ℕ

    -- How a step of the loop ends: the messages that the connection has taken, and the error, if any.
    pub record Sent : Type 0 where
      pub messages : List Message
      pub failure : Option Failure

    abbrev pub Step : Type 0
    Step = Pusher → Sent × Pusher

    abbrev pub nothing : Step
    nothing p = (record { messages = []; failure = none }, p)

    abbrev pub fails : Failure → Step
    fails e p = (record { messages = []; failure = some e }, p)

    -- What comes behind a step: an error leaves it out, or else its messages come behind those of the step.
    abbrev pub then_rest : Option Failure → Sent × Pusher → Sent × Pusher → Sent × Pusher
    then_rest (some e) r rest = r
    then_rest none r rest = (record (rest.0) { messages = r.0.messages ++ rest.0.messages }, rest.1)

    -- `WriteJSON` on the connection of the pusher, which is there.
    abbrev pub written : Message → Option Bytes × W.Conn → Step
    written m (r, c) p = elim r [
      | none ↦ (
        record { messages = m ∷ []; failure = none },
        record p { conn = some c; messages_sent = p.messages_sent + 1 },
      )
      | some e ↦
          (record { messages = []; failure = some (in_socket e) }, record p { conn = some c })
    ]

    -- `sendAggResult`
    unfoldable pub send_agg_result : WindowResult → Step
    send_agg_result r p = elim p.conn [
      | none ↦ nothing p
      | some c ↦ let m = result_message r.timestamp r.data_fields in written m (W.write_json m c) p
    ]

    abbrev pub move_cursor : ObjectHandle → Pusher → Pusher
    move_cursor h p = record p { last_timestamp = h.timestamp }

    -- `Evaluate`, where there are rules.
    unfoldable pub feed_rules : ℤ → Dict Bytes (RuleValue K) → Pusher → Pusher
    feed_rules timestamp fields p = elim p.evaluator [
      | none ↦ p
      | some e ↦ record p {
        queue = send K (record { timestamp = timestamp; data_fields = fields }) p.queue;
      }
    ]

    abbrev pub send_result : Option WindowResult → Step
    send_result none p = nothing p
    send_result (some r) p = send_agg_result r p

    module _ (J : MapCodec) where
      -- The object in full where the store has a schema and the text can be expanded.
      unfoldable pub expanded : Bytes → SchemaStore → Bytes
      expanded bs st =
          if is_schema_store st
          then elim (expand_data (json_of J) bs 0 st) [ failed e ↦ bs | done full ↦ full ]
          else bs

      -- The payload of a message: `Format` may keep the compact form.
      unfoldable pub payload : WsConnection → Bytes → SchemaStore → Bytes
      payload c bs st = if c.format =? compact then bs else expanded bs st

      -- `feedToAccumulator`, where the accumulator is there.
      unfoldable pub feed_to_accumulator : Window → ObjectHandle → Bytes → SchemaStore → Step
      feed_to_accumulator a h bs st p = elim (J.unmarshal (expanded bs st)) [
        | none ↦ nothing (move_cursor h p)
        | some fields ↦
            let r = add K.floats (Plain K.Opaque) h.timestamp fields a in
            send_result r.0
              (record (move_cursor h (feed_rules h.timestamp fields p)) { accumulator = some r.1 })
      ]

      -- The rules see an object that is sent on its own, where it is a JSON object.
      abbrev pub rules_on : ObjectHandle → Bytes → Pusher → Pusher
      rules_on h text p = elim (J.unmarshal text) [
        | none ↦ p
        | some fields ↦ feed_rules h.timestamp fields p
      ]

      -- The message and, where it was taken, the cursor. The connection is there, as only `Stop` and the
      -- loop itself remove it.
      unfoldable pub send_object : ObjectHandle → Bytes → Step
      send_object h text p = elim p.conn [
        | none ↦ nothing p
        | some c ↦
            let m = data_message h.timestamp text in
            elim (W.write_json m c).0 [
              | none ↦ written m (W.write_json m c) (move_cursor h p)
              | some e ↦ written m (W.write_json m c) p
            ]
      ]

      -- One round of the loop of `sendNewData`.
      unfoldable pub send_handle : SchemaStore → ObjectHandle → Step
      send_handle st h p = elim (get_object h st.store) [
        | err e ↦ nothing p
        | ok bs ↦ elim (matches_filter bs p.config.filter p.config.filter_ignore_case) [
          | false ↦ nothing (move_cursor h p)
          | true ↦ elim p.accumulator [
            | some a ↦ feed_to_accumulator a h bs st p
            | none ↦ let text = payload p.config bs st in send_object h text (rules_on h text p)
          ]
        ]
      ]

      -- The messages of one round come before those of the next, which an error leaves out.
      unfoldable pub send_handles : SchemaStore → List ObjectHandle → Step
      send_handles st [] p = nothing p
      send_handles st (h ∷ hs) p =
          let r = send_handle st h p in then_rest r.0.failure r (send_handles st hs r.1)

      -- The handles of `sendNewData`, where `time.Now` is the argument.
      unfoldable pub new_handles : ℤ → SchemaStore → ℤ → Result (List ObjectHandle)
      new_handles now st last_timestamp =
          if last_timestamp ==ℤ pos 0
          then get_oldest_objects (pos 100) st.store
          else get_objects_in_range now (add_int64 last_timestamp (pos 1)) now (pos 100) st.store

      abbrev pub send_listed : SchemaStore → Result (List ObjectHandle) → Step
      send_listed st (err e) p = fails (in_store e) p
      send_listed st (ok handles) p = send_handles st handles p

      unfoldable pub send_new_data : ℤ → SchemaStore → Step
      send_new_data now st p = elim p.conn [
        | none ↦ nothing p
        | some c ↦ send_listed st (new_handles now st p.last_timestamp) p
      ]
