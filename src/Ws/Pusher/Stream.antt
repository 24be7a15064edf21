-- ===== src/Ws/Pusher/Stream.antt =====
-- The order of everything that a connection (internal/ws/pusher.go) sends over its life.
use ts_store.Prelude.{
  ℕ, ◌≡◌, ◌≢◌, refl, sym, none, some, Option, List, [], ◌∷◌, ◌++◌, arith, inl, inr,
}
use mathlib.Core.Path.{subst}
use ts_store.Prelude.Int.{ℤ, pos, ◌≤ℤ◌}
use ts_store.Prelude.Equality.{Bytes}
use ts_store.Prelude.Outcome.{Outcome-cases}
use ts_store.Aggregation.Window.{flush}
use ts_store.Rules.{Comparisons, Plain}
use ts_store.Store.State.Errors.{Result, ok, err}
use ts_store.Store.Packed.{ObjectHandle}
use ts_store.SchemaStore.{SchemaStore}
use ts_store.Ws.Pusher.{
  MapCodec, Socket, Pusher, Sent, Failure, Window, nothing, fails, send_new_data, send_listed,
  new_handles, send_result, in_store,
}
use ts_store.Ws.Pusher.Loop.{
  Tick, flush_tick, poll_tick, Round, Run, run_loop, push_loop, on_tick, flush_window, second,
  next_delay, connect, disconnect, noted, set_error,
}
use ts_store.Ws.Pusher.Rounds.{unreached, reached, after_push, run_loop_failed, run_loop_connected}
use ts_store.Ws.Pusher.Order.{
  bound, Between, Between-append, Between-le, times, times-append, Delivers, Quiet, Quiet-Delivers,
  then_rest-Delivers, send_result-Quiet, FreshFrom,
}
use ts_store.Ws.Pusher.Delivery.{send_handles-Delivers}
use ts_store.Ws.Pusher.Fresh.{Readable, new_handles-FreshFrom}

module _ (K : Comparisons) (W : Socket K) where
  -- Every poll finds a readable store, and a clock that is not 0 and not above the bound.
  abbrev pub ReadsWell : List (Tick K W) → Type 0
  ReadsWell [] = Unit
  ReadsWell (flush_tick ∷ ts) = ReadsWell ts
  ReadsWell (poll_tick now st ∷ ts) =
      (now ≢ pos 0) × (now ≤ℤ bound) × Readable st.store × ReadsWell ts

  abbrev pub AllRead : List (Round K W) → Type 0
  AllRead [] = Unit
  AllRead (round ∷ rounds) = ReadsWell round.ticks × AllRead rounds

  -- A cursor that a timestamp of an object, or the configuration, may be.
  abbrev pub IsCursor : ℤ → Type 0
  IsCursor t = (pos 0 ≤ℤ t) × (t ≤ℤ bound)

  flush_window-Quiet : (p : Pusher K W) → Quiet K W p.last_timestamp (flush_window K W p)
  unfolding flush_window
  flush_window-Quiet p = with_window p.accumulator
    where
      with_window :
          (o : Option (Window K))
          → Quiet K W p.last_timestamp (elim o [
            | none ↦ nothing K W p
            | some a ↦
                let r = flush K.floats (Plain K.Opaque) a in
                send_result K W r.0 (record p { accumulator = some r.1 })
          ])
      with_window none = record { silent = refl; cursor = refl }
      with_window (some a) =
          send_result-Quiet K W (flush K.floats (Plain K.Opaque) a).0
            (record p { accumulator = some (flush K.floats (Plain K.Opaque) a).1 })

  module _ (C : MapCodec K) where
    send_listed-Delivers :
        (st : SchemaStore) (r : Result (List ObjectHandle)) (p : Pusher K W)
        → p.last_timestamp ≤ℤ bound
        → ((hs : List ObjectHandle) → r ≡ ok hs → FreshFrom p.last_timestamp hs)
        → Delivers K W p.last_timestamp bound (send_listed K W C st r p)
    send_listed-Delivers st (err e) p le fresh =
        Quiet-Delivers K W p.last_timestamp p.last_timestamp bound (fails K W (in_store e) p)
          (omega arith) le (record { silent = refl; cursor = refl })
    send_listed-Delivers st (ok hs) p le fresh =
        send_handles-Delivers K W C st hs p le (fresh hs refl)

    send_new_data-Delivers :
        (now : ℤ) (st : SchemaStore) (p : Pusher K W)
        → now ≢ pos 0
        → now ≤ℤ bound
        → Readable st.store
        → IsCursor p.last_timestamp
        → Delivers K W p.last_timestamp bound (send_new_data K W C now st p)
    unfolding send_new_data
    send_new_data-Delivers now st p some_now now_le readable (low, le) = over p.conn
      where
        over :
            (o : Option W.Conn)
            → Delivers K W p.last_timestamp bound (elim o [
              | none ↦ nothing K W p
              | some c ↦ send_listed K W C st (new_handles K W C now st p.last_timestamp) p
            ])
        over none =
            Quiet-Delivers K W p.last_timestamp p.last_timestamp bound (nothing K W p) (omega arith)
              le (record { silent = refl; cursor = refl })
        over (some c) =
            send_listed-Delivers st (new_handles K W C now st p.last_timestamp) p le (λ hs e.
              new_handles-FreshFrom K W C now st p.last_timestamp hs readable some_now now_le low le
                e)

    moved :
        (t : ℤ) (r : Sent K W × Pusher K W)
        → IsCursor t
        → Delivers K W t bound r
        → IsCursor r.1.last_timestamp
    moved t r c d =
        let up = Between-le t r.1.last_timestamp (times K r.0.messages) d.between in
        (omega (arith, up, c.0), d.bounded)

    push_loop-Delivers :
        (ts : List (Tick K W)) (p : Pusher K W)
        → ReadsWell ts
        → IsCursor p.last_timestamp
        → Delivers K W p.last_timestamp bound (push_loop K W C ts p)
    unfolding push_loop on_tick
    push_loop-Delivers [] p w c =
        Quiet-Delivers K W p.last_timestamp p.last_timestamp bound (nothing K W p) (omega arith) c.1
          (record { silent = refl; cursor = refl })
    push_loop-Delivers (flush_tick ∷ ts) p w c =
        let r = flush_window K W p in
        let one =
          Quiet-Delivers K W p.last_timestamp p.last_timestamp bound r (omega arith) c.1
            (flush_window-Quiet p) in
        then_rest-Delivers K W r.0.failure p.last_timestamp bound bound r (push_loop K W C ts r.1)
          one (omega arith) (push_loop-Delivers ts r.1 w (moved p.last_timestamp r c one))
    push_loop-Delivers (poll_tick now st ∷ ts) p w c =
        let r = send_new_data K W C now st p in
        let one = send_new_data-Delivers now st p w.0 w.1 w.2 c in
        then_rest-Delivers K W r.0.failure p.last_timestamp bound bound r (push_loop K W C ts r.1)
          one (omega arith) (push_loop-Delivers ts r.1 w.3 (moved p.last_timestamp r c one))

    noted-cursor :
        (f : Option Failure) (p : Pusher K W)
        → (disconnect K W (noted K W C f p)).last_timestamp ≡ p.last_timestamp
    unfolding disconnect set_error
    noted-cursor none p = refl
    noted-cursor (some e) p = refl

    unreached-cursor :
        (t : Bytes) (p : Pusher K W) → (unreached K W C t p).last_timestamp ≡ p.last_timestamp
    unfolding connect set_error
    unreached-cursor t p = refl

    reached-cursor :
        (c : W.Conn) (p : Pusher K W) → (reached K W C c p).last_timestamp ≡ p.last_timestamp
    unfolding connect
    reached-cursor c p = refl

    -- What a run from p has sent.
    abbrev InOrder : Pusher K W → Run K W → Type 0
    InOrder p run = Between p.last_timestamp (times K run.messages) run.pusher.last_timestamp

    behind_push :
        (ts : List (Tick K W)) (p : Pusher K W) (run : Run K W)
        → Delivers K W p.last_timestamp bound (push_loop K W C ts p)
        → InOrder (after_push K W C ts p) run
        → Between p.last_timestamp
            (times K ((push_loop K W C ts p).0.messages ++ run.messages))
            run.pusher.last_timestamp
    behind_push ts p run d rest =
        let r = push_loop K W C ts p in
        subst (λ l. Between p.last_timestamp l run.pusher.last_timestamp)
          (sym (times-append K r.0.messages run.messages))
          (Between-append p.last_timestamp r.1.last_timestamp run.pusher.last_timestamp
            (times K r.0.messages) (times K run.messages) d.between
            (subst (λ t. Between t (times K run.messages) run.pusher.last_timestamp)
              (noted-cursor r.0.failure r.1) rest))

    -- Whatever servers, ticks and failures bring: the objects that a connection has sent on their own, over all
    -- its attempts, have growing timestamps, all above the cursor that it started with and none above the one
    -- that it ends with; so no object is sent twice. The cursor at the start lies between 0 and 2^63 - 2; every
    -- poll finds a store with a known content, at most 2^31 blocks and growing timestamps up to 2^63 - 2, and a
    -- clock that is not 0 and not above that.
    pub run_loop-Between :
        (delay : ℕ) (rounds : List (Round K W)) (p : Pusher K W)
        → AllRead rounds
        → IsCursor p.last_timestamp
        → Between p.last_timestamp
            (times K (run_loop K W C delay rounds p).messages)
            (run_loop K W C delay rounds p).pusher.last_timestamp
    unfolding run_loop
    run_loop-Between delay [] p w c = omega arith
    run_loop-Between delay (round ∷ rounds) p w c = elim (Outcome-cases (round.dial)) [
      | inr (t, e) ↦
          let q = unreached K W C t p in
          let same = unreached-cursor t p in
          subst (InOrder p) (sym (run_loop_failed K W C delay round rounds p t e)) (
            subst
              (λ x.
                Between x (times K (run_loop K W C (next_delay delay) rounds q).messages)
                  (run_loop K W C (next_delay delay) rounds q).pusher.last_timestamp)
              same (run_loop-Between (next_delay delay) rounds q w.1 (subst IsCursor (sym same) c)))
      | inl (conn, e) ↦
          let q = reached K W C conn p in
          let same = reached-cursor conn p in
          let d = push_loop-Delivers round.ticks q w.0 (subst IsCursor (sym same) c) in
          let next = after_push K W C round.ticks q in
          let cursor =
            noted-cursor (push_loop K W C round.ticks q).0.failure
              (push_loop K W C round.ticks q).1 in
          let run = run_loop K W C second rounds next in
          subst (InOrder p) (sym (run_loop_connected K W C delay round rounds p conn e)) (
            subst
              (λ x.
                Between x (times K ((push_loop K W C round.ticks q).0.messages ++ run.messages))
                  run.pusher.last_timestamp)
              same
              (behind_push round.ticks q run d (
                run_loop-Between second rounds next w.1 (
                  subst IsCursor (sym cursor) (
                    moved q.last_timestamp (push_loop K W C round.ticks q)
                      (subst IsCursor (sym same) c) d)))))
    ]
