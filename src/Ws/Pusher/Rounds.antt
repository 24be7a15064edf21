-- ===== src/Ws/Pusher/Rounds.antt =====
-- One round of the loops of internal/ws/pusher.go: equations for the cases.
use ts_store.Prelude.{ℕ, none, some, List, ◌∷◌, ◌++◌, ◌≡◌, refl, ap}
use ts_store.Prelude.Equality.{Bytes}
use ts_store.Prelude.Outcome.{done, failed}
use ts_store.Rules.{Comparisons}
use ts_store.Ws.Pusher.{Sent, then_rest, MapCodec, Socket, Pusher, Failure, in_socket}
use ts_store.Ws.Pusher.Loop.{
  Round, Tick, run_loop, next_delay, second, connect, push_loop, on_tick, noted, disconnect,
  set_error,
}

module _ (K : Comparisons) (W : Socket K) (J : MapCodec K) where
  -- The pusher behind a failed attempt, and behind a connection.
  abbrev pub unreached : Bytes → Pusher K W → Pusher K W
  unreached t p = set_error K W (in_socket t) (connect K W (failed t) p).1

  abbrev pub reached : W.Conn → Pusher K W → Pusher K W
  reached c p = (connect K W (done c) p).1

  abbrev pub after_push : List (Tick K W) → Pusher K W → Pusher K W
  after_push ts p =
      disconnect K W (noted K W J (push_loop K W J ts p).0.failure (push_loop K W J ts p).1)

  module _ (delay : ℕ) (round : Round K W) (rounds : List (Round K W)) (p : Pusher K W) where
    pub run_loop_failed :
        (t : Bytes)
        → round.dial ≡ failed t
        → run_loop K W J delay (round ∷ rounds) p ≡ (
            let rest = run_loop K W J (next_delay delay) rounds (unreached t p) in
            record rest { waits = next_delay delay ∷ rest.waits })
    unfolding run_loop connect
    run_loop_failed t e =
        let dialled : connect K W round.dial p ≡ connect K W (failed t) p =
          ap (λ d. connect K W d p) e in
        rw (dialled, run_loop) (rw dialled refl)

    pub run_loop_connected :
        (c : W.Conn)
        → round.dial ≡ done c
        → run_loop K W J delay (round ∷ rounds) p ≡ (
            let rest = run_loop K W J second rounds (after_push round.ticks (reached c p)) in
            record rest {
              messages = (push_loop K W J round.ticks (reached c p)).0.messages ++ rest.messages;
              waits = second ∷ rest.waits;
            })
    unfolding run_loop connect
    run_loop_connected c e =
        let dialled : connect K W round.dial p ≡ connect K W (done c) p =
          ap (λ d. connect K W d p) e in
        rw (dialled, run_loop) (rw dialled refl)

  module _ (t : Tick K W) (ts : List (Tick K W)) (p : Pusher K W) where
    abbrev rest : Sent K W × Pusher K W
    rest = push_loop K W J ts (on_tick K W J t p).1

    pub push_loop_failed :
        (e : Failure)
        → (on_tick K W J t p).0.failure ≡ some e
        → push_loop K W J (t ∷ ts) p ≡ on_tick K W J t p
    unfolding push_loop
    push_loop_failed e h = ap (λ f. then_rest K W f (on_tick K W J t p) rest) h

    pub push_loop_next :
        (on_tick K W J t p).0.failure ≡ none
        → push_loop K W J (t ∷ ts) p ≡ then_rest K W none (on_tick K W J t p) rest
    unfolding push_loop
    push_loop_next h = ap (λ f. then_rest K W f (on_tick K W J t p) rest) h
