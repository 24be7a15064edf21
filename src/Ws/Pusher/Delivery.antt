-- ===== src/Ws/Pusher/Delivery.antt =====
-- The order in which one call of `sendNewData` (internal/ws/pusher.go) sends the objects it is given.
use ts_store.Prelude.{
  Bool, ◌≡◌, refl, true, false, none, some, Option, List, [], ◌∷◌, arith, Option-cases, inl, inr,
}
use ts_store.Prelude.Int.{ℤ, ◌≤ℤ◌, ◌<ℤ◌}
use ts_store.Prelude.Equality.{Bytes}
use ts_store.Prelude.Dict.{Dict}
use ts_store.Aggregation.Window.{add}
use ts_store.Rules.{Comparisons, RuleValue, Plain}
use ts_store.Store.State.Errors.{Result, ok, err}
use ts_store.Store.Packed.{ObjectHandle}
use ts_store.Store.Objects.{get_object}
use ts_store.Filter.{matches_filter}
use ts_store.SchemaStore.{SchemaStore}
use ts_store.Ws.Pusher.{
  data_message, MapCodec, Socket, Pusher, Window, move_cursor, rules_on, feed_rules, payload,
  send_result, written, nothing, feed_to_accumulator, send_object, send_handle, send_handles,
  expanded,
}
use ts_store.Ws.Pusher.Order.{
  bound, FreshFrom, FreshFrom-weaken, Delivers, Quiet, then_rest-Delivers, Quiet-Delivers,
  send_result-Quiet, feed_rules-cursor,
}

module _ (K : Comparisons) (W : Socket K) where
  module _ (J : MapCodec K) where
    rules_on-cursor :
        (h : ObjectHandle) (text : Bytes) (p : Pusher K W)
        → (rules_on K W J h text p).last_timestamp ≡ p.last_timestamp
    rules_on-cursor h text p = elim (Option-cases (J.unmarshal text)) [
      | inl e ↦ rw (e, rules_on) refl
      | inr (d, e) ↦ rw (e, rules_on) (feed_rules-cursor K W h.timestamp d p)
    ]

    feed_to_accumulator-Quiet :
        (a : Window K) (h : ObjectHandle) (bs : Bytes) (st : SchemaStore) (p : Pusher K W)
        → Quiet K W h.timestamp (feed_to_accumulator K W J a h bs st p)
    unfolding feed_to_accumulator
    feed_to_accumulator-Quiet a h bs st p = fed (J.unmarshal (expanded K W J bs st))
      where
        fed :
            (o : Option (Dict Bytes (RuleValue K)))
            → Quiet K W h.timestamp (elim o [
              | none ↦ nothing K W (move_cursor K W h p)
              | some fields ↦
                  let r = add K.floats (Plain K.Opaque) h.timestamp fields a in
                  send_result K W r.0
                    (record (move_cursor K W h (feed_rules K W h.timestamp fields p)) {
                      accumulator = some r.1;
                    })
            ])
        fed none = record { silent = refl; cursor = refl }
        fed (some fields) =
            send_result-Quiet K W (add K.floats (Plain K.Opaque) h.timestamp fields a).0
              (record (move_cursor K W h (feed_rules K W h.timestamp fields p)) {
                accumulator = some (add K.floats (Plain K.Opaque) h.timestamp fields a).1;
              })

    written_object :
        (h : ObjectHandle) (text : Bytes) (t : ℤ) (w : Option Bytes × W.Conn) (p : Pusher K W)
        → p.last_timestamp ≡ t
        → t <ℤ h.timestamp
        → Delivers K W t h.timestamp (elim (w.0) [
          | none ↦ written K W (data_message h.timestamp text) w (move_cursor K W h p)
          | some e ↦ written K W (data_message h.timestamp text) w p
        ])
    written_object h text t (none, c) p e lt = record {
      between = (lt, omega arith);
      bounded = omega arith;
    }
    written_object h text t (some x, c) p e lt =
        Quiet-Delivers K W t t h.timestamp
          (written K W (data_message h.timestamp text) (some x, c) p) (omega arith)
          (omega (arith, lt)) (record { silent = refl; cursor = e })

    send_object-Delivers :
        (h : ObjectHandle) (text : Bytes) (t : ℤ) (p : Pusher K W)
        → p.last_timestamp ≡ t
        → t <ℤ h.timestamp
        → Delivers K W t h.timestamp (send_object K W J h text p)
    unfolding send_object
    send_object-Delivers h text t p e lt = to p.conn
      where
        to :
            (o : Option W.Conn)
            → Delivers K W t h.timestamp (elim o [
              | none ↦ nothing K W p
              | some c ↦
                  let m = data_message h.timestamp text in
                  elim (W.write_json m c).0 [
                    | none ↦ written K W m (W.write_json m c) (move_cursor K W h p)
                    | some x ↦ written K W m (W.write_json m c) p
                  ]
            ])
        to none =
            Quiet-Delivers K W t t h.timestamp (nothing K W p) (omega arith) (omega (arith, lt))
              (record { silent = refl; cursor = e })
        to (some c) =
            written_object h text t (W.write_json (data_message h.timestamp text) c) p e lt

    -- One handle newer than the cursor.
    pub send_handle-Delivers :
        (st : SchemaStore) (h : ObjectHandle) (p : Pusher K W)
        → p.last_timestamp <ℤ h.timestamp
        → Delivers K W p.last_timestamp h.timestamp (send_handle K W J st h p)
    unfolding send_handle
    send_handle-Delivers st h p lt = got (get_object h st.store)
      where
        direct :
            (bs : Bytes) (o : Option (Window K))
            → Delivers K W p.last_timestamp h.timestamp (elim o [
              | some a ↦ feed_to_accumulator K W J a h bs st p
              | none ↦
                  let text = payload K W J p.config bs st in
                  send_object K W J h text (rules_on K W J h text p)
            ])
        direct bs (some a) =
            Quiet-Delivers K W p.last_timestamp h.timestamp h.timestamp
              (feed_to_accumulator K W J a h bs st p) (omega (arith, lt)) (omega arith)
              (feed_to_accumulator-Quiet a h bs st p)
        direct bs none =
            let text = payload K W J p.config bs st in
            send_object-Delivers h text p.last_timestamp (rules_on K W J h text p)
              (rules_on-cursor h text p) lt

        filtered :
            (bs : Bytes) (b : Bool)
            → Delivers K W p.last_timestamp h.timestamp (elim b [
              | false ↦ nothing K W (move_cursor K W h p)
              | true ↦ elim (p.accumulator) [
                | some a ↦ feed_to_accumulator K W J a h bs st p
                | none ↦
                    let text = payload K W J p.config bs st in
                    send_object K W J h text (rules_on K W J h text p)
              ]
            ])
        filtered bs false =
            Quiet-Delivers K W p.last_timestamp h.timestamp h.timestamp
              (nothing K W (move_cursor K W h p)) (omega (arith, lt)) (omega arith)
              (record { silent = refl; cursor = refl })
        filtered bs true = direct bs p.accumulator

        got :
            (r : Result Bytes)
            → Delivers K W p.last_timestamp h.timestamp (elim r [
              | err e ↦ nothing K W p
              | ok bs ↦ elim (matches_filter bs p.config.filter p.config.filter_ignore_case) [
                | false ↦ nothing K W (move_cursor K W h p)
                | true ↦ elim (p.accumulator) [
                  | some a ↦ feed_to_accumulator K W J a h bs st p
                  | none ↦
                      let text = payload K W J p.config bs st in
                      send_object K W J h text (rules_on K W J h text p)
                ]
              ]
            ])
        got (err e) =
            Quiet-Delivers K W p.last_timestamp p.last_timestamp h.timestamp (nothing K W p)
              (omega arith) (omega (arith, lt)) (record { silent = refl; cursor = refl })
        got (ok bs) = filtered bs (matches_filter bs p.config.filter p.config.filter_ignore_case)

    pub send_handles-Delivers :
        (st : SchemaStore) (hs : List ObjectHandle) (p : Pusher K W)
        → p.last_timestamp ≤ℤ bound
        → FreshFrom p.last_timestamp hs
        → Delivers K W p.last_timestamp bound (send_handles K W J st hs p)
    unfolding send_handles
    send_handles-Delivers st [] p le f =
        Quiet-Delivers K W p.last_timestamp p.last_timestamp bound (nothing K W p) (omega arith) le
          (record { silent = refl; cursor = refl })
    send_handles-Delivers st (h ∷ hs) p le f =
        let r = send_handle K W J st h p in
        let one = send_handle-Delivers st h p f.0 in
        then_rest-Delivers K W r.0.failure p.last_timestamp h.timestamp bound r
          (send_handles K W J st hs r.1) one f.1
          (send_handles-Delivers st hs r.1 (omega (arith, one.bounded, f.1))
            (FreshFrom-weaken r.1.last_timestamp h.timestamp hs one.bounded f.2))
