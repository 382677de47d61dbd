-- ===== src/Api/Workers/Status.antt =====
-- The order status worker: which orders it moves, and what a redelivered message does.
use eventsphere.Prelude.{
  none, Option, ==_iff, ◌==◌, false, true, ◌⊎◌, ◌≡◌, some, ℕ, refl, inl, inr, Bool-cases,
}
use eventsphere.Errors.{err, ok, Action, Result-cases}
use eventsphere.Storage.{Storage}
use eventsphere.Api.Workers.{
  if_pending, status_handler, expire, handle_reservation_expired, handle_payment_processed,
  handle_status_message, settle_payment, settle_paid, settle_unpaid,
}
use eventsphere.Api.Client.{InventoryClient}
use eventsphere.Api.Models.{ApiDb, Order}
use eventsphere.Api.Repositories.{set_status}
use eventsphere.Api.Booking.{World}
use eventsphere.Enums.{OrderStatus, same_order_status}
use eventsphere.Kafka.Topics.{reservation_expired, payment_processed, EventType}
use eventsphere.Kafka.Producer.{Message}
use eventsphere.Kafka.Schemas.{success_of, order_id_of, Payload}

module _ ⦃S : Storage⦄ ⦃C : InventoryClient⦄ where
  -- Every order is stored under its own id.
  abbrev pub OwnKeys : ApiDb → Type 0
  OwnKeys db = (k : ℕ) (o : Order) → S.get db.orders k ≡ some o → o.id ≡ k

  -- Writing the status of a stored pending order
  set_status-kept :
      (db : ApiDb) (o : Order) (status : OrderStatus) (id k : ℕ) (p : Order)
      → OwnKeys db
      → S.get db.orders id ≡ some o
      → same_order_status o.status OrderStatus.pending ≡ true
      → S.get db.orders k ≡ some p
      → same_order_status p.status OrderStatus.pending ≡ false
      → S.get (set_status o status db).orders k ≡ some p
  unfolding set_status
  set_status-kept db o status id k p keys found was_pending stored done =
      elim (Bool-cases (o.id == k)) [
        | inl same ↦ absurd (cc (found, keys id o found, (==_iff o.id k).0 same))
        | inr other ↦ rw (S.get-put db.orders o.id k (record o { status = status }), other) stored
      ]

  settle_paid-api :
      (o : Order) (w : World)
      → ((settle_paid o w).1.api ≡ w.api)
        ⊎ ((settle_paid o w).1.api ≡ set_status o OrderStatus.confirmed w.api)
  unfolding settle_paid
  settle_paid-api o w = elim (Result-cases (C.confirm_reservation o.reservation_id w.inventory)) [
    | inr (e, s, f) ↦ inl (rw (f, settle_paid) refl)
    | inl (u, s, f) ↦ inr (rw (f, settle_paid) refl)
  ]

  settle_unpaid-api :
      (o : Order) (w : World)
      → ((settle_unpaid o w).1.api ≡ w.api)
        ⊎ ((settle_unpaid o w).1.api ≡ set_status o OrderStatus.cancelled w.api)
  unfolding settle_unpaid
  settle_unpaid-api o w = elim (Result-cases (C.release_reservation o.reservation_id w.inventory)) [
    | inr (e, s, f) ↦ inl (rw (f, settle_unpaid) refl)
    | inl (u, s, f) ↦ inr (rw (f, settle_unpaid) refl)
  ]

  -- What a handler may do to the tables: nothing, or move one order that was pending.
  pub data Moves (db : ApiDb) : ApiDb → Type 0 where
    none_moved : Moves db db
    moved :
        (id : ℕ) (o : Order) (status : OrderStatus)
        → S.get db.orders id ≡ some o
        → same_order_status o.status OrderStatus.pending ≡ true
        → Moves db (set_status o status db)

  Moves-kept :
      {db db' : ApiDb} (k : ℕ) (p : Order)
      → OwnKeys db
      → Moves db db'
      → S.get db.orders k ≡ some p
      → same_order_status p.status OrderStatus.pending ≡ false
      → S.get db'.orders k ≡ some p
  Moves-kept k p keys none_moved stored done = stored
  Moves-kept {db} k p keys (moved id o status found was_pending) stored done =
      set_status-kept db o status id k p keys found was_pending stored done

  settle_payment-Moves :
      (payload : Payload) (o : Order) (id : ℕ) (w : World)
      → S.get w.api.orders id ≡ some o
      → same_order_status o.status OrderStatus.pending ≡ true
      → Moves w.api (settle_payment payload o w).1.api
  unfolding settle_payment
  settle_payment-Moves payload o id w found was_pending =
      elim (success_of payload)
          as (λ x. success_of payload ≡ x → Moves w.api (settle_payment payload o w).1.api) [
            | err e ↦ λ f. rw (f, settle_payment) none_moved
            | ok true ↦ λ f.
                rw (f, settle_payment)
                  (elim (settle_paid-api o w) [
                    | inl e ↦ rw e none_moved
                    | inr e ↦ rw e (moved id o OrderStatus.confirmed found was_pending)
                  ])
            | ok false ↦ λ f.
                rw (f, settle_payment)
                  (elim (settle_unpaid-api o w) [
                    | inl e ↦ rw e none_moved
                    | inr e ↦ rw e (moved id o OrderStatus.cancelled found was_pending)
                  ])
          ]
        refl

  if_pending-Moves :
      (id : ℕ) (body : Order → Action World (Unit {0})) (w : World) (found : Option Order)
      → S.get w.api.orders id ≡ found
      → ((o : Order)
          → S.get w.api.orders id ≡ some o
          → same_order_status o.status OrderStatus.pending ≡ true
          → Moves w.api (body o w).1.api)
      → Moves w.api (if_pending found body w).1.api
  if_pending-Moves id body w none e h = none_moved
  if_pending-Moves id body w (some o) e h =
      elim (Bool-cases (same_order_status o.status OrderStatus.pending)) [
        | inl y ↦ rw y (h o e y)
        | inr n ↦ rw n none_moved
      ]

  payment_processed-Moves :
      (payload : Payload) (w : World) → Moves w.api (handle_payment_processed payload w).1.api
  unfolding handle_payment_processed
  payment_processed-Moves payload w =
      elim (order_id_of payload)
          as (λ x.
            order_id_of payload ≡ x → Moves w.api (handle_payment_processed payload w).1.api) [
              | err e ↦ λ f. rw (f, handle_payment_processed) none_moved
              | ok id ↦ λ f.
                  rw (f, handle_payment_processed)
                    (if_pending-Moves id (settle_payment payload) w (S.get w.api.orders id) refl
                      (λ o found y. settle_payment-Moves payload o id w found y))
            ]
        refl

  reservation_expired-Moves :
      (payload : Payload) (w : World) → Moves w.api (handle_reservation_expired payload w).1.api
  unfolding handle_reservation_expired expire
  reservation_expired-Moves payload w =
      elim (order_id_of payload)
          as (λ x.
            order_id_of payload ≡ x → Moves w.api (handle_reservation_expired payload w).1.api) [
              | err e ↦ λ f. rw (f, handle_reservation_expired) none_moved
              | ok id ↦ λ f.
                  rw (f, handle_reservation_expired)
                    (if_pending-Moves id expire w (S.get w.api.orders id) refl
                      (λ o found y. moved id o OrderStatus.expired found y))
            ]
        refl

  pub status_handler-Moves :
      (t : EventType) (payload : Payload) (w : World)
      → Moves w.api (status_handler t payload w).1.api
  status_handler-Moves payment_processed payload w = payment_processed-Moves payload w
  status_handler-Moves reservation_expired payload w = reservation_expired-Moves payload w
  status_handler-Moves _ payload w = none_moved

  -- An order that is confirmed, cancelled or expired is never written again by the worker, whatever
  -- message it is given and whether or not its handler raises, if orders are stored under their
  -- own ids.
  pub settled_order_kept :
      (m : Message) (w : World) (k : ℕ) (o : Order)
      → OwnKeys w.api
      → S.get w.api.orders k ≡ some o
      → same_order_status o.status OrderStatus.pending ≡ false
      → S.get (handle_status_message m w).1.api.orders k ≡ some o
  unfolding handle_status_message
  settled_order_kept m w k o keys stored done =
      Moves-kept k o keys (status_handler-Moves m.event_type m.payload w) stored done

  -- A message for an order that is no longer pending is done with: it changes neither the tables
  -- nor the inventory and sends nothing, and it does not raise, so that it is not delivered again.
  pub redelivery_ignored :
      (m : Message) (w : World) (id : ℕ) (o : Order)
      → order_id_of m.payload ≡ ok id
      → S.get w.api.orders id ≡ some o
      → same_order_status o.status OrderStatus.pending ≡ false
      → handle_status_message m w ≡ (ok tt, w)
  unfolding handle_status_message handle_payment_processed handle_reservation_expired
  redelivery_ignored m w id o named stored done = ignored m.event_type
    where
      ignored : (t : EventType) → status_handler t m.payload w ≡ (ok tt, w)
      ignored payment_processed = rw (named, stored, handle_payment_processed) (rw done refl)
      ignored reservation_expired = rw (named, stored, handle_reservation_expired) (rw done refl)
      ignored _ = refl
