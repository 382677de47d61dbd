-- ===== src/Api/Booking/Outcome.antt =====
-- What a booking leaves behind.
use eventsphere.Prelude.{
  ◌||◌, arith, ==_refl, sym, Option-cases, ap, [], ◌∷◌, ◌++◌, ◌≡◌, Option, some, ℕ, String, refl,
  inl, inr, Bool-cases,
}
use eventsphere.Errors.{Error, Result, ok, err, or_raise, Result-cases}
use eventsphere.Storage.{Storage}
use eventsphere.Kafka.Producer.{Producer, publish, envelope}
use eventsphere.Api.Booking.{World, BookingRun, new_order, order_created_message, book_new}
use eventsphere.Kafka.Topics.{order_created, EventType}
use eventsphere.Api.Client.{ReservationResult, InventoryClient}
use eventsphere.Api.Models.{ApiDb, Event, Order, User}
use eventsphere.Kafka.Schemas.{Payload, order_created_payload}
use eventsphere.Prelude.Int.{pos, leb_ℤ, ℤ, ◌*ℤ◌}
use eventsphere.Enums.{OrderStatus}
use eventsphere.Api.Repositories.{add_order, key_in_use}

-- A publication that returns has put its message behind those sent before, and does nothing else.
pub publish-returned :
    (t : EventType) (key : ℕ) (payload : Payload) (p p' : Producer)
    → publish t key payload p ≡ (ok tt, p')
    → p' ≡ record p { sent = p.sent ++ envelope t key payload ∷ [] }
unfolding publish
publish-returned t key payload p p' h = elim (Bool-cases p.started) [
  | inr off ↦ absurd (cc (rw (off, publish) at h))
  | inl on ↦ elim (Bool-cases p.reachable) [
    | inr off ↦ absurd (cc (rw (on, off, publish) at h))
    | inl up ↦
        let e : record p { sent = p.sent ++ envelope t key payload ∷ [] } ≡ p' =
          cc (rw (on, up, publish) at h) in
        sym e
  ]
]

pub publish-ok :
    (t : EventType) (key : ℕ) (payload : Payload) (p p' : Producer)
    → publish t key payload p ≡ (ok tt, p')
    → p'.sent ≡ p.sent ++ envelope t key payload ∷ []
publish-ok t key payload p p' h = ap Producer.sent (publish-returned t key payload p p' h)

module _ ⦃S : Storage⦄ where
  pub add_order-stored :
      (o : Order) (db db' : ApiDb) → add_order o db ≡ (ok tt, db') → S.get db'.orders o.id ≡ some o
  unfolding add_order
  add_order-stored o db db' h = elim (Bool-cases (key_in_use o db || leb_ℤ o.quantity (pos 0))) [
    | inl refused ↦ absurd (cc (rw refused at h))
    | inr accepted ↦
        let written : record db { orders = S.put db.orders o.id o } ≡ db' = cc (rw accepted at h) in
        rw (← written) (ground (arith, S.get-put db.orders o.id o.id o, ==_refl o.id))
  ]

  add_order-row :
      (o : Order) (db db' : ApiDb)
      → add_order o db ≡ (ok tt, db')
      → db' ≡ record db { orders = S.put db.orders o.id o }
  unfolding add_order
  add_order-row o db db' h = elim (Bool-cases (key_in_use o db || leb_ℤ o.quantity (pos 0))) [
    | inl refused ↦ absurd (cc (rw refused at h))
    | inr accepted ↦
        let written : record db { orders = S.put db.orders o.id o } ≡ db' = cc (rw accepted at h) in
        sym written
  ]

module _ ⦃S : Storage⦄ ⦃C : InventoryClient⦄ where
  -- The booking of an order: seats reserved for it, the row inserted, one message sent.
  pub record Booked (b : BookingRun) (user : User) (event_id : ℕ) (quantity : ℤ)
      (key : Option String) (w : World) (o : Order) (w' : World) : Type 0 where
    pub event : Event
    pub reservation : ReservationResult
    pub known : S.get w.api.events event_id ≡ some event
    pub reserved :
        C.reserve_seats event_id b.order_id quantity w.inventory ≡ (ok reservation, w'.inventory)
    pub order : o ≡ record {
      id = b.order_id;
      user_id = user.id;
      event_id = event_id;
      reservation_id = reservation.reservation_id;
      quantity = quantity;
      unit_price_cents = event.price_cents;
      total_price_cents = event.price_cents *ℤ quantity;
      status = OrderStatus.pending;
      idempotency_key = key;
      created_at = b.now;
    }
    pub inserted : add_order o (b.meanwhile w.api) ≡ (ok tt, w'.api)
    -- the new row is all that differs from what others have committed
    pub row :
        w'.api ≡ record (b.meanwhile w.api) { orders = S.put (b.meanwhile w.api).orders o.id o }
    pub announced : w'.kafka ≡ record w.kafka {
      sent =
          w.kafka.sent
          ++ envelope order_created o.id (
              order_created_payload o.id o.event_id o.user_id o.quantity o.total_price_cents
                o.reservation_id)
            ∷ [];
    }

  -- A new booking that returns has found the event, has reserved its seats, returns a pending order
  -- for the user, the event and the reservation, priced at the event's price times the quantity, has
  -- added that order's row and nothing else to what others had committed by then, and has sent exactly
  -- one message, ORDER_CREATED for that order.
  pub book_new-Booked :
      (b : BookingRun) (user : User) (event_id : ℕ) (quantity : ℤ) (key : Option String)
      (w w' : World) (o : Order)
      → book_new b user event_id quantity key w ≡ (ok o, w')
      → Booked b user event_id quantity key w o w'
  unfolding book_new
  book_new-Booked b user event_id quantity key w w' o h =
      elim (Option-cases (S.get w.api.events event_id)) [
        | inl missing ↦ absurd (cc (rw (missing, or_raise, book_new) at h))
        | inr (event, known) ↦
            elim (Result-cases (C.reserve_seats event_id b.order_id quantity w.inventory)) [
              | inr (e, s, f) ↦ absurd (cc (rw (known, f, or_raise, book_new) at h))
              | inl (reservation, s, reserved) ↦
                  let order : Order = new_order b user event_id event quantity key reservation in
                  elim (Result-cases (add_order order (b.meanwhile w.api))) [
                    | inr (e, db, f) ↦
                        absurd (cc (rw (known, reserved, f, or_raise, book_new) at h))
                    | inl (u, db, inserted) ↦
                        elim (Result-cases
                          (publish order_created order.id (order_created_message order) w.kafka)) [
                            | inr (e, p, f) ↦
                                absurd
                                  (cc (rw (known, reserved, inserted, f, or_raise, book_new) at h))
                            | inl (v, p, sent) ↦
                                let done : ◌≡◌ {A = Result Order × World}
                                    (ok order, record { api = db; inventory = s; kafka = p })
                                    (ok o, w') =
                                  rw (known, reserved, inserted, sent, or_raise, book_new) at h in
                                let same : ◌≡◌ {A = World}
                                    (record { api = db; inventory = s; kafka = p }) w' =
                                  cc in
                                let is_o : o ≡ order = cc in
                                record {
                                  event = event;
                                  reservation = reservation;
                                  known = known;
                                  reserved = cc (reserved, ap World.inventory same);
                                  order = is_o;
                                  inserted = rw is_o (cc (inserted, ap World.api same));
                                  row = rw is_o (
                                      add_order-row order (b.meanwhile w.api) w'.api
                                        (cc (inserted, ap World.api same)));
                                  announced =
                                      rw (is_o, ← ap World.kafka same)
                                        (publish-returned order_created order.id
                                          (order_created_message order) w.kafka p sent);
                                }
                          ]
                  ]
            ]
      ]

  -- For an event that exists, a booking whose seats are refused is refused with the same error,
  -- and neither the orders nor the messages change.
  pub book_new_refused :
      (b : BookingRun) (user : User) (event_id : ℕ) (quantity : ℤ) (key : Option String) (w : World)
      (event : Event) (e : Error) (s : C.State)
      → S.get w.api.events event_id ≡ some event
      → C.reserve_seats event_id b.order_id quantity w.inventory ≡ (err e, s)
      → book_new b user event_id quantity key w ≡ (err e, record w { inventory = s })
  unfolding book_new
  book_new_refused b user event_id quantity key w event e s known refused =
      rw (known, refused, or_raise, book_new) refl
