-- ===== src/Ws/Pusher/Order.antt =====
-- Steps of a connection (internal/ws/pusher.go) whose objects have growing timestamps.
use ts_store.Prelude.{◌-◌, ◌^◌, ◌≡◌, refl, sym, ap, none, some, Option, List, [], ◌∷◌, ◌++◌, arith}
use mathlib.Core.Path.{subst}
use ts_store.Prelude.Int.{ℤ, pos, ◌≤ℤ◌, ◌<ℤ◌}
use ts_store.Prelude.Equality.{Bytes}
use ts_store.Prelude.Dict.{Dict}
use ts_store.Rules.Evaluator.{Evaluator, send}
use ts_store.Rules.{Comparisons, RuleValue}
use ts_store.Store.Packed.{ObjectHandle}
use ts_store.Ws.Pusher.{
  Message, data_message, result_message, alert_message, Socket, Pusher, Sent, Failure, WindowResult,
  then_rest, feed_rules, send_agg_result, send_result, written, nothing,
}

-- Timestamps that grow from behind t, and end at u at most.
abbrev pub Between : ℤ → List ℤ → ℤ → Type 0
Between t [] u = t ≤ℤ u
Between t (x ∷ xs) u = (t <ℤ x) × Between x xs u

pub Between-append :
    (t u v : ℤ) (xs ys : List ℤ) → Between t xs u → Between u ys v → Between t (xs ++ ys) v
Between-append t u v [] [] h k = omega (arith, h, k)
Between-append t u v [] (y ∷ ys) h k = (omega (arith, h, k.0), k.1)
Between-append t u v (x ∷ xs) ys h k = (h.0, Between-append x u v xs ys h.1 k)

pub Between-le : (t u : ℤ) (xs : List ℤ) → Between t xs u → t ≤ℤ u
Between-le t u [] h = h
Between-le t u (x ∷ xs) h = omega (arith, h.0, Between-le x u xs h.1)

-- The largest timestamp behind which another one fits in an `int64`.
abbrev pub bound : ℤ
bound = pos (2 ^ 63 - 2)

-- Handles of objects newer than t, each newer than the one before, up to the bound.
abbrev pub FreshFrom : ℤ → List ObjectHandle → Type 0
FreshFrom t [] = Unit
FreshFrom t (h ∷ hs) = (t <ℤ h.timestamp) × (h.timestamp ≤ℤ bound) × FreshFrom h.timestamp hs

pub FreshFrom-weaken : (t u : ℤ) (hs : List ObjectHandle) → t ≤ℤ u → FreshFrom u hs → FreshFrom t hs
FreshFrom-weaken t u [] le f = tt
FreshFrom-weaken t u (h ∷ hs) le f = (omega (arith, le, f.0), f.1, f.2)

module _ (K : Comparisons) where
  -- The timestamps of the objects among the messages.
  abbrev pub times : List (Message K) → List ℤ
  times [] = []
  times (data_message t bs ∷ ms) = t ∷ times ms
  times (result_message t d ∷ ms) = times ms
  times (alert_message a ∷ ms) = times ms

  pub times-append : (ms ns : List (Message K)) → times (ms ++ ns) ≡ times ms ++ times ns
  times-append [] ns = refl
  times-append (data_message t bs ∷ ms) ns = ap (λ l. t ∷ l) (times-append ms ns)
  times-append (result_message t d ∷ ms) ns = times-append ms ns
  times-append (alert_message a ∷ ms) ns = times-append ms ns

  module _ (W : Socket K) where
    -- A step from the cursor t has sent objects in order, from behind t up to the cursor that it leaves, which
    -- is u at most.
    pub record Delivers (t u : ℤ) (r : Sent K W × Pusher K W) : Type 0 where
      pub between : Between t (times r.0.messages) r.1.last_timestamp
      pub bounded : r.1.last_timestamp ≤ℤ u

    pub then_rest-Delivers :
        (f : Option Failure) (t v u : ℤ) (r rest : Sent K W × Pusher K W)
        → Delivers t v r
        → v ≤ℤ u
        → Delivers r.1.last_timestamp u rest
        → Delivers t u (then_rest K W f r rest)
    then_rest-Delivers (some e) t v u r rest d le k = record {
      between = d.between;
      bounded = omega (arith, d.bounded, le);
    }
    then_rest-Delivers none t v u r rest d le k = record {
      between =
          subst (λ l. Between t l rest.1.last_timestamp)
            (sym (times-append r.0.messages rest.0.messages))
            (Between-append t r.1.last_timestamp rest.1.last_timestamp (times r.0.messages)
              (times rest.0.messages) d.between k.between);
      bounded = k.bounded;
    }

    -- What a step with no object among its messages leaves, with the cursor at c.
    pub record Quiet (c : ℤ) (r : Sent K W × Pusher K W) : Type 0 where
      pub silent : times r.0.messages ≡ []
      pub cursor : r.1.last_timestamp ≡ c

    pub Quiet-Delivers :
        (t c u : ℤ) (r : Sent K W × Pusher K W) → t ≤ℤ c → c ≤ℤ u → Quiet c r → Delivers t u r
    Quiet-Delivers t c u r le b q = record {
      between =
          subst (λ l. Between t l r.1.last_timestamp) (sym q.silent)
            (subst (λ u. t ≤ℤ u) (sym q.cursor) le);
      bounded = subst (λ x. x ≤ℤ u) (sym q.cursor) b;
    }

    written-Quiet :
        (m : Message K) (w : Option Bytes × W.Conn) (p : Pusher K W)
        → times (m ∷ []) ≡ []
        → Quiet p.last_timestamp (written K W m w p)
    written-Quiet m (none, c) p e = record { silent = e; cursor = refl }
    written-Quiet m (some t, c) p e = record { silent = refl; cursor = refl }

    written_to :
        (m : Message K) (o : Option W.Conn) (p : Pusher K W)
        → times (m ∷ []) ≡ []
        → Quiet p.last_timestamp
            (elim o [ none ↦ nothing K W p | some c ↦ written K W m (W.write_json m c) p ])
    written_to m none p e = record { silent = refl; cursor = refl }
    written_to m (some c) p e = written-Quiet m (W.write_json m c) p e

    pub send_result-Quiet :
        (x : Option (WindowResult K)) (p : Pusher K W)
        → Quiet p.last_timestamp (send_result K W x p)
    unfolding send_agg_result
    send_result-Quiet none p = record { silent = refl; cursor = refl }
    send_result-Quiet (some x) p =
        written_to (result_message x.timestamp x.data_fields) p.conn p refl

    pub feed_rules-cursor :
        (t : ℤ) (d : Dict Bytes (RuleValue K)) (p : Pusher K W)
        → (feed_rules K W t d p).last_timestamp ≡ p.last_timestamp
    unfolding feed_rules
    feed_rules-cursor t d p = fed p.evaluator
      where
        fed :
            (o : Option (Evaluator K))
            → Pusher.last_timestamp (elim o [
              | none ↦ p
              | some e ↦ record p {
                queue = send K (record { timestamp = t; data_fields = d }) p.queue;
              }
            ])
              ≡ p.last_timestamp
        fed none = refl
        fed (some e) = refl
