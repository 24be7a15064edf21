-- ===== src/Ws/Pusher/Loop.antt =====
-- The loops of internal/ws/pusher.go: connecting, polling, and waiting before the next attempt.
use ts_store.Prelude.{
  ℕ, ◌+◌, ◌*◌, Option, none, some, List, [], ◌∷◌, ◌++◌, length, ltb, if◌then◌else◌,
}
use ts_store.Prelude.Int.{ℤ}
use ts_store.Prelude.Equality.{Bytes}
use ts_store.Prelude.Outcome.{Outcome, done, failed}
use ts_store.Aggregation.Window.{flush}
use ts_store.Rules.{Comparisons, Plain}
use ts_store.Rules.Evaluator.{Alert}
use ts_store.SchemaStore.{SchemaStore}
use ts_store.Ws.Config.{WsConnection}
use ts_store.Ws.Pusher.{
  Status, disconnected, connecting, connected, error, Failure, in_socket, MapCodec, Message,
  alert_message, Socket, Pusher, Step, nothing, send_result, send_new_data, then_rest,
}

-- What `sendAlert` does: no connection, a message that is taken or refused, or a nil pointer.
pub data AlertResult : Type 0 where
  no_connection sent refused nil_pointer : AlertResult

-- Nanoseconds: the first delay and the longest.
abbrev pub second : ℕ
second = 1000000000

abbrev pub max_retry_delay : ℕ
max_retry_delay = 60 * second

-- `min(retryDelay*2, maxRetryDelay)`
unfoldable pub next_delay : ℕ → ℕ
next_delay delay = if ltb max_retry_delay (delay * 2) then max_retry_delay else delay * 2

module _ (K : Comparisons) (W : Socket K) where
  -- `setError`
  unfoldable pub set_error : Failure → Pusher K W → Pusher K W
  set_error e p = record p { last_error = some e; status = error; errors = p.errors + 1 }

  -- `connect`, with the outcome of `Dial`.
  unfoldable pub connect : Outcome Bytes W.Conn → Pusher K W → Option Failure × Pusher K W
  connect (failed e) p = (some (in_socket e), record p { status = connecting })
  connect (done c) p = (none, record p { conn = some c; status = connected; last_error = none })

  -- The clean-up behind the push loop, and at the end of `Stop`.
  unfoldable pub disconnect : Pusher K W → Pusher K W
  disconnect p = record p { conn = none; status = disconnected }

  -- The case of the flush ticker.
  unfoldable pub flush_window : Step K W
  flush_window p = elim p.accumulator [
    | none ↦ nothing K W p
    | some a ↦
        let r = flush K.floats (Plain K.Opaque) a in
        send_result K W r.0 (record p { accumulator = some r.1 })
  ]

  -- `sendAlert` reads the connection, and takes the lock a second time to write: the first argument is the
  -- connection that was read, the pusher is as it is behind the second lock.
  unfoldable pub send_alert : Option W.Conn → Alert K → Pusher K W → AlertResult × Pusher K W
  send_alert none alert p = (no_connection, p)
  send_alert (some _) alert p = elim p.conn [
    | none ↦ (nil_pointer, p)
    | some c ↦
        let r = W.write_json (alert_message alert) c in
        elim r.0 [
          | some e ↦ (refused, record p { conn = some r.1 })
          | none ↦ (sent, record p { conn = some r.1; alerts_fired = p.alerts_fired + 1 })
        ]
  ]

  -- `Stop`, behind the end of the loop: the flush goes over a connection only.
  unfoldable pub stop : Step K W
  stop p = elim p.conn [
    | none ↦ (record { messages = []; failure = none }, disconnect p)
    | some c ↦ let r = flush_window p in (record (r.0) { failure = none }, disconnect r.1)
  ]

  -- A report of the pusher.
  pub record ConnectionStatus : Type 0 where
    pub config : WsConnection
    pub rules_count : ℕ
    pub alerts_fired : ℕ
    pub status : Status
    pub last_timestamp : ℤ
    pub messages_sent : ℕ
    pub errors : ℕ
    pub last_error : Option Failure

  unfoldable pub status_of : Pusher K W → ConnectionStatus
  status_of p = record {
    config = p.config;
    rules_count = length (p.config.rules);
    alerts_fired = p.alerts_fired;
    status = p.status;
    last_timestamp = p.last_timestamp;
    messages_sent = p.messages_sent;
    errors = p.errors;
    last_error = p.last_error;
  }

  -- What the push loop receives before it is stopped: a tick of the flush ticker, or one of the poll
  -- ticker with the clock reading and the store as it is then.
  pub data Tick : Type 0 where
    flush_tick : Tick
    poll_tick : ℤ → SchemaStore → Tick

  -- One round of `runLoop`: the outcome of `Dial`, and the ticks up to the stop, where there is one.
  pub record Round : Type 0 where
    pub dial : Outcome Bytes W.Conn
    pub ticks : List Tick

  -- The messages of a run, and the waits between its rounds.
  pub record Run : Type 0 where
    pub messages : List (Message K)
    pub waits : List ℕ
    pub pusher : Pusher K W

  module _ (J : MapCodec K) where
    unfoldable pub on_tick : Tick → Step K W
    on_tick flush_tick p = flush_window p
    on_tick (poll_tick now st) p = send_new_data K W J now st p

    unfoldable pub push_loop : List Tick → Step K W
    push_loop [] p = nothing K W p
    push_loop (t ∷ ts) p = let r = on_tick t p in then_rest K W r.0.failure r (push_loop ts r.1)

    abbrev pub noted : Option Failure → Pusher K W → Pusher K W
    noted none p = p
    noted (some e) p = set_error e p

    -- The rounds of `runLoop` up to the stop, from a delay on.
    unfoldable pub run_loop : ℕ → List Round → Pusher K W → Run
    run_loop delay [] p = record { messages = []; waits = []; pusher = p }
    run_loop delay (round ∷ rounds) p =
        let dialled = connect round.dial p in
        elim dialled.0 [
          | some e ↦
              let rest = run_loop (next_delay delay) rounds (set_error e dialled.1) in
              record rest { waits = next_delay delay ∷ rest.waits }
          | none ↦
              let pushed = push_loop round.ticks dialled.1 in
              let rest = run_loop second rounds (disconnect (noted pushed.0.failure pushed.1)) in
              record rest {
                messages = pushed.0.messages ++ rest.messages;
                waits = second ∷ rest.waits;
              }
        ]
