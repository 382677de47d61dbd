-- ===== src/Api/Workers/Journey.antt =====
-- An order from its booking to its tickets.
use mathlib.Core.Path.{subst}
use eventsphere.Prelude.{
  ℕ, ◌≡◌, refl, sym, ap, ◌∙◌, true, Bool, String, Option, some, List, [], ◌∷◌, ◌++◌,
}
use eventsphere.Prelude.Int.{ℤ}
use eventsphere.Errors.{Result, ok, err}
use eventsphere.Storage.{Storage}
use eventsphere.Redis.{Redis}
use eventsphere.Redis.Keys.{lock_event}
use eventsphere.Enums.{OrderStatus, ReservationStatus, same_status}
use eventsphere.Api.Client.{
  Settings, ReservationResult, inventory_client, reserve_seats_call, received, reservation_result,
}
use eventsphere.Inventory.Service
use eventsphere.Inventory.Servicer.{reserve_seats_rpc, reservation_to_proto, reserve_code, reply}
use eventsphere.Inventory.History.{with_lock-returned}
use eventsphere.Inventory.Models.{Db, Reservation, EventInventory}
use eventsphere.Inventory.Repository.{reserve, undisturbed, Request}
use eventsphere.Inventory.Repository.Reserve.{IsFair, Stores, Scoped, reserve-Scoped}
use eventsphere.Inventory.Seats.{IsValid}
use eventsphere.Inventory.Session.{session_scope}
use eventsphere.Api.Models.{Order, ApiDb, User}
use eventsphere.Api.Booking.{World, BookingRun, book_new, order_created_message}
use eventsphere.Api.Booking.Outcome.{add_order-stored, book_new-Booked}
use eventsphere.Api.Workers.{handle_order_created, handle_status_message}
use eventsphere.Api.Workers.Paid.{after_confirm, paid_order_confirmed}
use eventsphere.Kafka.Producer.{ready, Message, envelope, publish}
use eventsphere.Kafka.Schemas.{
  payment_processed_payload, ticket_issued_payload, order_id_of, total_price_cents_of,
}
use eventsphere.Kafka.Topics.{order_created, payment_processed, ticket_issued}

id_of : Result ReservationResult → ℕ
id_of (ok res) = res.reservation_id
id_of (err e) = 0

abbrev pub paid_message : Order → ℕ → Message
paid_message o transaction_ref =
    envelope payment_processed o.id (payment_processed_payload o.id true transaction_ref)

abbrev pub ticket_message : Order → Message
ticket_message o = envelope ticket_issued o.id (ticket_issued_payload o.id o.user_id o.event_id)

module _ ⦃S : Storage⦄ ⦃R : Redis⦄ (c : Settings) where
  abbrev pub request : ℕ → ℕ → ℤ → Request
  request event_id order_id quantity = record {
    event_id = event_id;
    order_id = order_id;
    quantity = quantity;
    reservation_ttl_seconds = c.reservation_ttl_seconds;
  }

  abbrev pub created_message : Order → Message
  created_message o = envelope order_created o.id (order_created_message ⦃C = inventory_client c⦄ o)

module _ ⦃S : Storage⦄ ⦃R : Redis⦄ (c : Settings) (fair : (i : ℕ) → IsFair (c.attempts i)) where
  -- What a reservation that the client has got is in the inventory.
  record Held (q : Request) (res : ReservationResult) (db : Db) : Type 0 where
    row : Reservation
    valid : IsValid db
    stores : Stores q db row
    named : res.reservation_id ≡ row.id

  service-Held :
      (event_id order_id : ℕ) (quantity : ℤ) (db : Db) (s : R.State) (r : Reservation) (db' : Db)
      (s' : R.State)
      → IsValid db
      → Service.reserve_seats c.lock_run c.attempts c.optimistic_retry_attempts
          c.reservation_ttl_seconds event_id order_id quantity db s
        ≡ (ok r, db', s')
      → Scoped (request c event_id order_id quantity) db (ok r, db')
  unfolding Service.reserve_seats
  service-Held event_id order_id quantity db s r db' s' valid h =
      let q : Request = request c event_id order_id quantity in
      subst (Scoped q db)
        (with_lock-returned c.lock_run (lock_event event_id)
          (session_scope (reserve q c.attempts c.optimistic_retry_attempts)) db s r db' s' h)
        (reserve-Scoped q c.attempts c.optimistic_retry_attempts db fair valid)

  replied-Held :
      (event_id order_id : ℕ) (quantity : ℤ) (db : Db) (s : R.State)
      (out : Result Reservation × Db × R.State) (res : ReservationResult) (db' : Db) (s' : R.State)
      → IsValid db
      → Service.reserve_seats c.lock_run c.attempts c.optimistic_retry_attempts
          c.reservation_ttl_seconds event_id order_id quantity db s
        ≡ out
      → ◌≡◌ {A = Result ReservationResult × Db × R.State}
          (
            received reservation_result (reply reserve_code reservation_to_proto out.0),
            out.1,
            out.2,
          )
          (ok res, db', s')
      → Held (request c event_id order_id quantity) res db'
  unfolding reservation_to_proto id_of
  replied-Held event_id order_id quantity db s (err e, d, t) res db' s' valid h got = absurd (cc)
  replied-Held event_id order_id quantity db s (ok r, d, t) res db' s' valid h got =
      let same : d ≡ db' = ap (λ (x : Result ReservationResult × Db × R.State). x.1) got in
      let scoped = service-Held event_id order_id quantity db s r d t valid h in
      subst (Held (request c event_id order_id quantity) res) same (record {
        row = r;
        valid = scoped.0.valid;
        stores = scoped.1;
        named = sym (ap (λ (x : Result ReservationResult × Db × R.State). id_of x.0) got);
      })

  call-Held :
      (event_id order_id : ℕ) (quantity : ℤ) (db : Db) (s : R.State) (res : ReservationResult)
      (inventory : Db × R.State)
      → IsValid db
      → reserve_seats_call c event_id order_id quantity (db, s) ≡ (ok res, inventory)
      → Held (request c event_id order_id quantity) res inventory.0
  unfolding reserve_seats_call reserve_seats_rpc
  call-Held event_id order_id quantity db s res (db', s') valid got =
      replied-Held event_id order_id quantity db s
        (Service.reserve_seats c.lock_run c.attempts c.optimistic_retry_attempts
          c.reservation_ttl_seconds event_id order_id quantity db s)
        res db' s' valid refl
        (ap (λ (x : Result ReservationResult × (Db × R.State)). (x.0, x.1.0, x.1.1)) got)

  charged :
      (charge : ℕ → ℤ → Bool × ℕ) (o : Order) (transaction_ref : ℕ) (sent : List Message)
      → charge o.id o.total_price_cents ≡ (true, transaction_ref)
      → handle_order_created charge (created_message c o) (ready sent)
        ≡ (ok tt, ready (sent ++ paid_message o transaction_ref ∷ []))
  unfolding handle_order_created order_id_of total_price_cents_of publish
  charged charge o transaction_ref sent paid = rw paid refl

  -- A booking reaches its tickets. With the inventory service of the repository, whatever fair
  -- transactions of others met its `reserve`, on a valid database and with a broker that takes
  -- messages: if a booking has returned an order and the gateway accepts the charge of its total
  -- price, the payment worker turns ORDER_CREATED into PAYMENT_PROCESSED, and the order status
  -- worker, undisturbed, turns that into TICKET_ISSUED, one message each. The reservation of the order,
  -- which is for the event, the order and the quantity asked for, and the order are confirmed then,
  -- and its seats have moved from `reserved_count` to `confirmed_count`.
  pub booking_completed :
      c.waits ≡ undisturbed
      → (b : BookingRun ⦃C = inventory_client c⦄) (user : User) (event_id : ℕ) (quantity : ℤ)
        (key : Option String) (api : ApiDb) (db : Db) (s : R.State) (sent : List Message)
        (o : Order) (w : World ⦃C = inventory_client c⦄) (charge : ℕ → ℤ → Bool × ℕ)
        (transaction_ref : ℕ)
      → IsValid db
      → book_new ⦃C = inventory_client c⦄ b user event_id quantity key
          (record { api = api; inventory = (db, s); kafka = ready sent })
        ≡ (ok o, w)
      → charge o.id o.total_price_cents ≡ (true, transaction_ref)
      → (r : Reservation) × (inv : EventInventory) × Stores
          (request c event_id b.order_id quantity)
          w.inventory.0
          r
        × (S.get w.inventory.0.inventories r.event_id ≡ some inv)
        × (w.kafka ≡ ready (sent ++ created_message c o ∷ []))
        × (handle_order_created charge (created_message c o) w.kafka ≡ (
          ok tt,
          ready ((sent ++ created_message c o ∷ []) ++ paid_message o transaction_ref ∷ []),
        ))
        × (handle_status_message ⦃C = inventory_client c⦄ (paid_message o transaction_ref) (record {
          api = w.api;
          inventory = w.inventory;
          kafka = ready ((sent ++ created_message c o ∷ []) ++ paid_message o transaction_ref ∷ []);
        })
            ≡ (
              ok tt,
              record {
                api = record w.api {
                  orders = S.put w.api.orders o.id (record o { status = OrderStatus.confirmed });
                };
                inventory = (after_confirm r inv w.inventory.0, w.inventory.1);
                kafka = ready (
                    ((sent ++ created_message c o ∷ []) ++ paid_message o transaction_ref ∷ [])
                    ++ ticket_message o ∷ []);
              },
            ))
  booking_completed alone b user event_id quantity key api db s sent o w charge transaction_ref
        valid h paid =
      let booked =
        book_new-Booked ⦃C = inventory_client c⦄ b user event_id quantity key
          (record { api = api; inventory = (db, s); kafka = ready sent }) w o h in
      let held =
        call-Held event_id b.order_id quantity db s booked.reservation w.inventory valid
          booked.reserved in
      let row : S.get w.inventory.0.reservations o.reservation_id ≡ some held.row =
        cc (held.stores.stored, held.named, ap (λ (x : Order). x.reservation_id) booked.order) in
      let waiting : same_status held.row.status ReservationStatus.pending ≡ true =
        ap (λ x. same_status x ReservationStatus.pending) held.stores.status in
      let (inv, there, done) =
        paid_order_confirmed c alone (paid_message o transaction_ref) o transaction_ref held.row
          w.api w.inventory.0 w.inventory.1
          ((sent ++ created_message c o ∷ []) ++ paid_message o transaction_ref ∷ []) refl refl
          (add_order-stored o (b.meanwhile api) w.api booked.inserted)
          (ap (λ (x : Order). x.status) booked.order) held.valid row waiting in
      (
        held.row,
        inv,
        held.stores,
        there,
        booked.announced,
        ap (handle_order_created charge (created_message c o)) booked.announced
            ∙ charged charge o transaction_ref (sent ++ created_message c o ∷ []) paid,
        done,
      )
