-- ===== src/Api/Booking/Cancel.antt =====
-- The cancellation of an order.
use eventsphere.Prelude.{
  ==_refl, true, ◌==◌, ap, [], ◌∷◌, arith, ◌≢◌, ◌++◌, ◌≡◌, none, some, ℕ, refl, inl, inr,
  Bool-cases, Option-cases,
}
use eventsphere.Errors.{not_found, or_raise, validation, Result, ok, err, Result-cases}
use eventsphere.Storage.{Storage}
use eventsphere.Api.Booking.{get_order, World, cancel_order, may_cancel}
use eventsphere.Api.Repositories.{get_for_user, set_status}
use eventsphere.Enums.{OrderStatus, cancelled}
use eventsphere.Api.Client.{InventoryClient}
use eventsphere.Api.Models.{ApiDb, Order, User}
use eventsphere.Kafka.Producer.{publish, envelope}
use eventsphere.Kafka.Topics.{EventType, order_cancelled}
use eventsphere.Kafka.Schemas.{order_cancelled_payload}
use eventsphere.Api.Booking.Outcome.{publish-ok}

module _ ⦃S : Storage⦄ ⦃C : InventoryClient⦄ where
  may_cancel-allowed :
      (o : Order) (user : User)
      → may_cancel o user ≡ ok tt
      → (o.user_id ≡ user.id)
        × (o.status ≢ OrderStatus.cancelled)
        × (o.status ≢ OrderStatus.expired)
  may_cancel-allowed o user h = (ground arith, ground arith, ground arith)

  -- The user's order is marked, its seats are given back, and one message is sent.
  pub record Cancelled (order_id : ℕ) (user : User) (w : World) (o : Order) (w' : World)
      : Type 0 where
    pub before : Order
    pub owned : get_for_user order_id user.id w.api ≡ some before
    pub own : before.user_id ≡ user.id
    pub not_cancelled : before.status ≢ OrderStatus.cancelled
    pub not_expired : before.status ≢ OrderStatus.expired
    pub order : o ≡ record before { status = cancelled }
    pub released : C.release_reservation before.reservation_id w.inventory ≡ (ok tt, w'.inventory)
    pub stored : w'.api ≡ record w.api {
      orders = S.put w.api.orders before.id (record before { status = OrderStatus.cancelled });
    }
    pub announced :
        w'.kafka.sent
        ≡ w.kafka.sent
          ++ envelope order_cancelled before.id
              (order_cancelled_payload before.id before.reservation_id)
            ∷ []

  -- A cancellation that returns was of an order of the user that was neither cancelled nor expired;
  -- its reservation was released, the order is stored as cancelled, and exactly one message,
  -- ORDER_CANCELLED for that order, was sent.
  pub cancel_order-Cancelled :
      (order_id : ℕ) (user : User) (w w' : World) (o : Order)
      → cancel_order order_id user w ≡ (ok o, w')
      → Cancelled order_id user w o w'
  unfolding cancel_order set_status
  cancel_order-Cancelled order_id user w w' o h =
      elim (Option-cases (get_for_user order_id user.id w.api)) [
        | inl missing ↦ absurd (cc (rw (missing, or_raise, cancel_order) at h))
        | inr (before, owned) ↦ elim (Result-cases (may_cancel before user, w)) [
          | inr (e, s, f) ↦
              let g : may_cancel before user ≡ err e = cc f in
              absurd (cc (rw (owned, g, or_raise, cancel_order) at h))
          | inl (u, s, f) ↦
              let g : may_cancel before user ≡ ok tt = cc f in
              elim (Result-cases (C.release_reservation before.reservation_id w.inventory)) [
                | inr (e, s, released) ↦
                    absurd (cc (rw (owned, g, released, or_raise, cancel_order) at h))
                | inl (v, s, released) ↦
                    elim (Result-cases (
                      publish EventType.order_cancelled before.id
                        (order_cancelled_payload before.id before.reservation_id) w.kafka)) [
                          | inr (e, p, k) ↦
                              absurd (cc (rw (owned, g, released, k, or_raise, cancel_order) at h))
                          | inl (x, p, sent) ↦
                              let api : ApiDb = set_status before cancelled w.api in
                              let o' : Order = record before { status = cancelled } in
                              let done : ◌≡◌ {A = Result Order × World}
                                  (ok o', record { api = api; inventory = s; kafka = p })
                                  (ok o, w') =
                                rw (owned, g, released, sent, or_raise, cancel_order) at h in
                              let same : ◌≡◌ {A = World}
                                  (record { api = api; inventory = s; kafka = p }) w' =
                                cc in
                              record {
                                before = before;
                                owned = owned;
                                own = (may_cancel-allowed before user g).0;
                                not_cancelled = (may_cancel-allowed before user g).1;
                                not_expired = (may_cancel-allowed before user g).2;
                                order = cc;
                                released = cc (released, ap World.inventory same);
                                stored = cc (ap World.api same);
                                announced = rw (← ap World.kafka same) (
                                    publish-ok EventType.order_cancelled before.id
                                      (order_cancelled_payload before.id before.reservation_id)
                                      w.kafka p sent);
                              }
                        ]
              ]
        ]
      ]

  -- An order of another user is as good as missing, for reading and for cancelling: the answer is
  -- not-found, never a refusal, and nothing changes.
  pub others_order_hidden :
      (order_id : ℕ) (user : User) (w : World) (o : Order)
      → S.get w.api.orders order_id ≡ some o
      → o.user_id ≢ user.id
      → (get_order order_id user w ≡ (err not_found, w))
        × (cancel_order order_id user w ≡ (err not_found, w))
  unfolding get_order cancel_order get_for_user
  others_order_hidden order_id user w o stored other =
      let hidden : get_for_user order_id user.id w.api ≡ none =
        rw (stored, get_for_user) (ground arith) in
      (rw hidden refl, rw (hidden, or_raise, cancel_order) refl)

  pub own_order :
      (order_id user_id : ℕ) (db : ApiDb) (o : Order)
      → get_for_user order_id user_id db ≡ some o
      → (S.get db.orders order_id ≡ some o) × ((o.user_id == user_id) ≡ true)
  unfolding get_for_user
  own_order order_id user_id db o h = elim (Option-cases (S.get db.orders order_id)) [
    | inl missing ↦ absurd (cc (rw (missing, get_for_user) at h))
    | inr (x, stored) ↦ elim (Bool-cases (x.user_id == user_id)) [
      | inl own ↦ let e : x ≡ o = cc (rw (stored, own, get_for_user) at h) in (cc, rw (← e) own)
      | inr other ↦ absurd (cc (rw (stored, other, get_for_user) at h))
    ]
  ]

  still_own :
      (order_id user_id : ℕ) (db : ApiDb) (o : Order) (status : OrderStatus)
      → o.id ≡ order_id
      → (o.user_id == user_id) ≡ true
      → get_for_user order_id user_id (set_status o status db) ≡ some (record o { status = status })
  unfolding get_for_user set_status
  still_own order_id user_id db o status key own =
      rw
        (
          S.get-put db.orders o.id order_id (record o { status = status }),
          key,
          ==_refl order_id,
          get_for_user,
        )
        (rw own refl)

  -- Cancelling an order again is refused as invalid and changes nothing, if the order was stored
  -- under its own id.
  pub cancel_twice :
      (order_id : ℕ) (user : User) (w w' : World) (o : Order)
      → ((x : Order) → S.get w.api.orders order_id ≡ some x → x.id ≡ order_id)
      → cancel_order order_id user w ≡ (ok o, w')
      → cancel_order order_id user w' ≡ (err validation, w')
  unfolding cancel_order set_status
  cancel_twice order_id user w w' o keyed h =
      let c = cancel_order-Cancelled order_id user w w' o h in
      let (stored, own) = own_order order_id user.id w.api c.before c.owned in
      let found : get_for_user order_id user.id w'.api
          ≡ some (record c.before { status = cancelled }) =
        rw c.stored
          (still_own order_id user.id w.api c.before cancelled (keyed c.before stored) own) in
      rw (found, or_raise, cancel_order) (rw own refl)
