-- ===== src/Ws/Tests.antt =====
-- A connection to a server that takes a few messages, and a manager with one connection, on which the
-- theorems on internal/ws hold.
use ts_store.Prelude.{
  ℕ, zero, suc, ◌+◌, ◌*◌, ◌/◌, ◌≡◌, ◌≢◌, refl, ap, false, none, some, List, [], ◌∷◌, arith, ltb,
  leb, ◌==◌,
}
use ts_store.Prelude.Int.{pos, pos_part}
use ts_store.Prelude.Equality.{bytes_eq}
use ts_store.Prelude.Outcome.{done, failed}
use ts_store.Rules.{Comparisons}
use ts_store.Store.Tests.{with_one, packs_one, with_one-Stores, with_one-blocks}
use ts_store.SchemaStore.{SchemaStore}
use ts_store.Ws.Config.{WsConnection}
use ts_store.Ws.Pusher.{MapCodec, Socket, Pusher, disconnected}
use ts_store.Ws.Pusher.Loop.{Round, flush_tick, poll_tick, run_loop, second}
use ts_store.Ws.Pusher.Retry.{backoff, expected_waits, run_loop-waits}
use ts_store.Ws.Pusher.Order.{Between, times}
use ts_store.Ws.Pusher.Fresh.{Readable}
use ts_store.Ws.Pusher.Stream.{run_loop-Between}

-- Numbers in place of floating-point numbers.
abbrev plain_comparisons : Comparisons
plain_comparisons = record {
  floats = record {
    Float = ℕ;
    Float32 = ℕ;
    zero_float = 0;
    max_float = 1000;
    negate = λ x. 0;
    add = λ x y. x + y;
    divide = λ x y. x / y;
    less = ltb;
    of_int = pos_part;
    widen = λ x. x;
  };
  Opaque = Unit;
  equal_float = λ x y. x == y;
  less_eq_float = leb;
  sprint = λ v. [];
}

abbrev no_objects : MapCodec plain_comparisons
no_objects = record { unmarshal = λ bs. none; marshal = λ m. [] }

-- A connection takes as many messages as its number says.
abbrev limited_line : Socket plain_comparisons
limited_line = record {
  Conn = ℕ;
  write_json = λ m c. elim c [ zero ↦ (some [], zero) | suc n ↦ (none, n) ];
}

abbrev to_server : WsConnection
to_server = record {
  id = 105 ∷ [];
  mode = [];
  url = [];
  from = pos 0;
  format = [];
  headers = [];
  filter = [];
  filter_ignore_case = false;
  agg_window = [];
  agg_fields = [];
  agg_default = [];
  rules = [];
  created_at = pos 0;
}

abbrev idle : Pusher plain_comparisons limited_line
idle = record {
  store_name = [];
  config = to_server;
  conn = none;
  status = disconnected;
  last_timestamp = pos 0;
  messages_sent = 0;
  errors = 0;
  last_error = none;
  accumulator = none;
  evaluator = none;
  queue = [];
  alerts_fired = 0;
}

abbrev stored : SchemaStore
stored = record { store = with_one; schema_set = none; schema_file = none }

-- The server cannot be reached twice, then refuses the first message, then takes it.
abbrev attempts : List (Round plain_comparisons limited_line)
attempts =
    record { dial = failed []; ticks = [] }
    ∷ record { dial = failed []; ticks = [] }
    ∷ record { dial = done 0; ticks = poll_tick (pos 50) stored ∷ [] }
    ∷ record {
      dial = done 2;
      ticks = flush_tick ∷ poll_tick (pos 60) stored ∷ poll_tick (pos 70) stored ∷ [];
    }
    ∷ []

run_loop-waits_example :
    (run_loop plain_comparisons limited_line no_objects (backoff 0) attempts idle).waits
    ≡ expected_waits plain_comparisons limited_line 0 attempts
run_loop-waits_example = run_loop-waits plain_comparisons limited_line no_objects 0 attempts idle

attempts_wait :
    expected_waits plain_comparisons limited_line 0 attempts
    ≡ (2 * second) ∷ (4 * second) ∷ second ∷ second ∷ []
attempts_wait = refl

with_one-Readable : Readable with_one
with_one-Readable = record {
  contents = packs_one;
  stores = with_one-Stores;
  small = omega (arith, with_one-blocks);
  fresh = omega arith;
}

not_zero : (n : ℕ) → pos (suc n) ≢ pos 0
not_zero n = λ e. absurd (omega (arith, ap pos_part e))

run_loop-Between_example :
    Between
      (pos 0)
      (times plain_comparisons
        (run_loop plain_comparisons limited_line no_objects 5 attempts idle).messages)
      (run_loop plain_comparisons limited_line no_objects 5 attempts idle).pusher.last_timestamp
run_loop-Between_example =
    run_loop-Between plain_comparisons limited_line no_objects 5 attempts idle
      (
        tt,
        (
          tt,
          (
            (not_zero 49, omega arith, with_one-Readable, tt),
            (
              (
                not_zero 59,
                omega arith,
                with_one-Readable,
                (not_zero 69, omega arith, with_one-Readable, tt),
              ),
              tt,
            ),
          ),
        ),
      )
      (omega arith, omega arith)
