-- ===== src/Ws/Pusher/Setup.antt =====
-- `NewPusher` of internal/ws/pusher.go: the aggregation and the rules of a connection.
use ts_store.Prelude.{not, Option, none, some, List, [], ◌∷◌, if◌then◌else◌}
use ts_store.Prelude.Int.{ℤ, pos}
use ts_store.Prelude.Equality.{Bytes}
use ts_store.Prelude.Outcome.{Outcome, done, failed, ◌>>=◌}
use ts_store.Strings.{is_empty}
use ts_store.Duration
use ts_store.Duration.{Clocks, parse_duration}
use ts_store.Aggregation
use ts_store.Aggregation.{parse_field_aggs, build_numeric_map, new_config}
use ts_store.Aggregation.Window.{new_accumulator}
use ts_store.Rules.{Comparisons, Plain, Rule}
use ts_store.Rules.Parse
use ts_store.Rules.Parse.{parse}
use ts_store.Rules.Evaluator.{AlertRule, Evaluator, new_evaluator}
use ts_store.SchemaStore.{SchemaStore, get_schema_set}
use ts_store.Ws.Config.{WsConnection, AlertRuleConfig}
use ts_store.Ws.Pusher.{Socket, Pusher, Window, disconnected}

pub data Err : Type 0 where
  in_duration : Duration.Err → Err
  in_aggregation : Aggregation.Err → Err

abbrev pub from_duration : {A : Type 0} → Outcome Duration.Err A → Outcome Err A
from_duration (done a) = done a
from_duration (failed e) = failed (in_duration e)

abbrev pub from_aggregation : {A : Type 0} → Outcome Aggregation.Err A → Outcome Err A
from_aggregation (done a) = done a
from_aggregation (failed e) = failed (in_aggregation e)

-- A run-time panic while a rule is parsed, which nothing on the way recovers from.
pub data Panic : Type 0 where
  slice_panic : Panic

-- A rule that cannot be read is passed over.
abbrev pub after_error : {A : Type 0} → Parse.Err → Outcome Panic (List A) → Outcome Panic (List A)
after_error Parse.slice_out_of_range rest = failed slice_panic
after_error Parse.empty_condition rest = rest
after_error Parse.invalid_condition rest = rest
after_error Parse.out_of_fuel rest = rest

module _ (K : Comparisons) (D : Clocks K.floats) (to_upper : Bytes → Bytes) where
  -- `initAggregation`
  unfoldable pub init_aggregation : WsConnection → SchemaStore → Outcome Err (Window K)
  init_aggregation c st = do
    window ← from_duration (parse_duration K.floats D c.agg_window)
    fields ← from_aggregation (parse_field_aggs c.agg_fields)
    cfg ←
        from_aggregation
          (new_config window fields c.agg_default (build_numeric_map (get_schema_set st)))
    done (new_accumulator K.floats (Plain K.Opaque) cfg)

  -- A cooldown that cannot be read is none.
  unfoldable pub cooldown_of : Bytes → ℤ
  cooldown_of text =
      if is_empty text
      then pos 0
      else elim (parse_duration K.floats D text) [ failed e ↦ pos 0 | done d ↦ d ]

  abbrev pub alert_rule : AlertRuleConfig → Rule K → AlertRule K
  alert_rule rc rule = record {
    rule = rule;
    has_webhook = not (is_empty rc.webhook);
    cooldown = cooldown_of rc.cooldown;
  }

  -- The loop of `initRules`.
  unfoldable pub alert_rules : List AlertRuleConfig → Outcome Panic (List (AlertRule K))
  alert_rules [] = done []
  alert_rules (rc ∷ rcs) =
      let rest = alert_rules rcs in
      elim (parse K D.parse_float to_upper rc.name rc.condition) [
        | failed e ↦ after_error e rest
        | done rule ↦ elim rest [ failed p ↦ failed p | done rs ↦ done (alert_rule rc rule ∷ rs) ]
      ]

  unfoldable pub init_rules : Bytes → List AlertRuleConfig → Outcome Panic (Option (Evaluator K))
  init_rules store_name rcs = elim (alert_rules rcs) [
    | failed p ↦ failed p
    | done [] ↦ done none
    | done (r ∷ rs) ↦ done (some (new_evaluator K store_name (r ∷ rs)))
  ]

  -- The aggregation of a connection, none where it is not asked for or is not in order.
  unfoldable pub accumulator_of : WsConnection → SchemaStore → Option (Window K)
  accumulator_of c st =
      if is_empty c.agg_window
      then none
      else elim (init_aggregation c st) [ failed e ↦ none | done a ↦ some a ]

  unfoldable pub new_pusher :
      (W : Socket K) → SchemaStore → Bytes → WsConnection → Outcome Panic (Pusher K W)
  new_pusher W st store_name c = do
    evaluator ← init_rules store_name c.rules
    done (record {
      store_name = store_name;
      config = c;
      conn = none;
      status = disconnected;
      last_timestamp = c.from;
      messages_sent = 0;
      errors = 0;
      last_error = none;
      accumulator = accumulator_of c st;
      evaluator = evaluator;
      queue = [];
      alerts_fired = 0;
    })
