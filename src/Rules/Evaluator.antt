-- ===== src/Rules/Evaluator.antt =====
-- internal/rules/evaluator.go: the alerts that the rules of a store raise on each record, and their cooldown.
pub mod Firing
pub mod Cooldown
pub mod Liveness
use ts_store.Prelude.{
  ℕ, suc, ◌-◌, ◌+◌, Bool, true, false, not, ◌&&◌, Option, none, some, List, [], ◌∷◌, ◌++◌, leb, ltb,
  length, if◌then◌else◌,
}
use ts_store.Prelude.Int.{ℤ, pos, negsuc, leb_ℤ, ◌==ℤ◌}
use ts_store.Prelude.Equality.{Bytes, bytes_eq}
use ts_store.Prelude.Dict.{Dict, lookup, insert}
use ts_store.Aggregation.{Value, other_value}
use ts_store.Rules.{
  Comparisons, RuleValue, Condition, Rule, Operator, op_eq, op_ne, op_gt, op_ge, op_lt, op_le,
  op_contains, other_op, text, flag, opaque, to_string, evaluate,
}

-- `string(op)`
unfoldable pub op_name : Operator → Bytes
op_name op_eq = 61 ∷ 61 ∷ []
op_name op_ne = 33 ∷ 61 ∷ []
op_name op_gt = 62 ∷ []
op_name op_ge = 62 ∷ 61 ∷ []
op_name op_lt = 60 ∷ []
op_name op_le = 60 ∷ 61 ∷ []
op_name op_contains = 99 ∷ 111 ∷ 110 ∷ 116 ∷ 97 ∷ 105 ∷ 110 ∷ 115 ∷ []
op_name (other_op s) = s

module _ (K : Comparisons) where
  unfoldable pub format_value : RuleValue K → Bytes
  format_value (other_value (text s)) = 34 ∷ s ++ (34 ∷ [])
  format_value v = to_string K v

  abbrev pub condition_part : Condition K → Bytes
  condition_part c = c.field ++ (32 ∷ op_name c.operator ++ (32 ∷ format_value c.value))

  unfoldable pub more_parts : Bytes → Bytes → List (Condition K) → Bytes
  more_parts op result [] = result
  more_parts op result (c ∷ cs) = more_parts op (result ++ (32 ∷ op ++ (32 ∷ condition_part c))) cs

  unfoldable pub condition_string : Rule K → Bytes
  condition_string r = elim r.conditions [
    | [] ↦ []
    | c ∷ cs ↦ more_parts r.logical_op (condition_part c) cs
  ]

  pub record AlertRule : Type 0 where
    pub rule : Rule K
    pub has_webhook : Bool
    pub cooldown : ℤ

  pub record Alert : Type 0 where
    pub rule_name : Bytes
    pub condition : Bytes
    pub timestamp : ℤ
    pub data_fields : Dict Bytes (RuleValue K)
    pub store_name : Bytes

  pub record DataRecord : Type 0 where
    pub timestamp : ℤ
    pub data_fields : Dict Bytes (RuleValue K)

  -- `lastFired` holds clock readings in nanoseconds.
  pub record Evaluator : Type 0 where
    pub store_name : Bytes
    pub rules : List AlertRule
    pub last_fired : Dict Bytes ℕ

  abbrev pub new_evaluator : Bytes → List AlertRule → Evaluator
  new_evaluator store_name rules = record {
    store_name = store_name;
    rules = rules;
    last_fired = [];
  }

  -- What a rule that fires hands on: the alert to its webhook, if it has one, and to the callback.
  pub record Fired : Type 0 where
    pub alert : Alert
    pub to_webhook : Bool

  -- `now.Sub(last)` of clock readings.
  abbrev pub since : ℕ → ℕ → ℤ
  since now last = if leb last now then pos (now - last) else negsuc (last - now - 1)

  unfoldable pub check_cooldown : Bytes → ℤ → ℕ → Dict Bytes ℕ → Bool
  check_cooldown name cooldown now last_fired =
      if cooldown ==ℤ pos 0 then true else elim (lookup name last_fired) [
        | none ↦ true
        | some last ↦ leb_ℤ cooldown (since now last)
      ]

  -- The two tests of a rule.
  abbrev pub passes : AlertRule → DataRecord → ℕ → Dict Bytes ℕ → Bool
  passes ar rec now last_fired =
      if evaluate K ar.rule rec.data_fields
      then check_cooldown ar.rule.name ar.cooldown now last_fired
      else false

  abbrev pub fired_by : Bytes → AlertRule → DataRecord → Fired
  fired_by store_name ar rec = record {
    alert = record {
      rule_name = ar.rule.name;
      condition = condition_string ar.rule;
      timestamp = rec.timestamp;
      data_fields = rec.data_fields;
      store_name = store_name;
    };
    to_webhook = ar.has_webhook;
  }

  -- The loop of `evaluateRecord`.
  unfoldable pub evaluate_rules :
      Bytes → ℕ → DataRecord → List AlertRule → Dict Bytes ℕ → List Fired × Dict Bytes ℕ
  evaluate_rules store_name now rec [] last_fired = ([], last_fired)
  evaluate_rules store_name now rec (ar ∷ ars) last_fired = elim (passes ar rec now last_fired) [
    | false ↦ evaluate_rules store_name now rec ars last_fired
    | true ↦
        let rest = evaluate_rules store_name now rec ars (insert ar.rule.name now last_fired) in
        (fired_by store_name ar rec ∷ rest.0, rest.1)
  ]

  unfoldable pub evaluate_record : ℕ → DataRecord → Evaluator → List Fired × Evaluator
  evaluate_record now rec e =
      let r = evaluate_rules e.store_name now rec e.rules e.last_fired in
      (r.0, record e { last_fired = r.1 })

  -- `runLoop` on the records of the channel, each with the clock reading at which it is taken.
  unfoldable pub run_loop : List (ℕ × DataRecord) → Evaluator → List (ℕ × List Fired) × Evaluator
  run_loop [] e = ([], e)
  run_loop ((now, rec) ∷ recs) e =
      let r = evaluate_record now rec e in
      let rest = run_loop recs r.1 in ((now, r.0) ∷ rest.0, rest.1)

  -- `Evaluate`, on what the channel `dataCh` holds: a full channel drops the record.
  unfoldable pub send : DataRecord → List DataRecord → List DataRecord
  send rec queue = if ltb (length queue) 1000 then queue ++ (rec ∷ []) else queue
