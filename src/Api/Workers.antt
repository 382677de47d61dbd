-- ===== src/Api/Workers.antt =====
-- services/api/app/workers: the handlers of the messages from Kafka, and the loop that runs them.
pub mod Status
pub mod Paid
pub mod Late
pub mod Journey
pub mod Tests
use eventsphere.Prelude.{
  ◌++◌, [], ◌∷◌, none, not, if◌then◌else◌, some, String, Option, ℕ, Bool, List,
}
use eventsphere.Storage.{Storage}
use eventsphere.Api.Client.{InventoryClient}
use eventsphere.Api.Models.{Order, User, ApiDb}
use eventsphere.Errors.{err, pure, ok, Action, ◌>>=◌, Result}
use eventsphere.Kafka.Producer.{publish, Message, Producer}
use eventsphere.Kafka.Topics.{
  EventType, payment_processed, reservation_expired, ticket_issued, order_cancelled,
}
use eventsphere.Kafka.Schemas.{
  Payload, order_id_of, success_of, total_price_cents_of, ticket_issued_payload,
  order_cancelled_payload, payment_processed_payload,
}
use eventsphere.Enums.{OrderStatus, same_order_status}
use eventsphere.Api.Repositories.{set_status}
use eventsphere.Api.Booking.{World, on_api, on_inventory, on_kafka, query}
use eventsphere.Prelude.Int.{ℤ}

module _ ⦃S : Storage⦄ ⦃C : InventoryClient⦄ where
  -- `if order is None or order.status != OrderStatus.PENDING: return`
  abbrev pub if_pending : Option Order → (Order → Action World (Unit {0})) → Action World (Unit {0})
  if_pending none body = pure tt
  if_pending (some o) body =
      if same_order_status o.status OrderStatus.pending then body o else pure tt

  abbrev pub find_order : ℕ → World → Option Order
  find_order order_id w = S.get w.api.orders order_id

  unfoldable pub settle_paid : Order → Action World (Unit {0})
  settle_paid o = do
    _ ← on_inventory (C.confirm_reservation o.reservation_id)
    _ ← on_api (λ db. (ok tt, set_status o OrderStatus.confirmed db))
    on_kafka (publish ticket_issued o.id (ticket_issued_payload o.id o.user_id o.event_id))

  unfoldable pub settle_unpaid : Order → Action World (Unit {0})
  settle_unpaid o = do
    _ ← on_inventory (C.release_reservation o.reservation_id)
    _ ← on_api (λ db. (ok tt, set_status o OrderStatus.cancelled db))
    on_kafka (publish order_cancelled o.id (order_cancelled_payload o.id o.reservation_id))

  unfoldable pub settle_payment : Payload → Order → Action World (Unit {0})
  settle_payment payload o = do
    success ← query (λ _. success_of payload)
    if success then settle_paid o else settle_unpaid o

  unfoldable pub handle_payment_processed : Payload → Action World (Unit {0})
  handle_payment_processed payload = do
    order_id ← query (λ _. order_id_of payload)
    λ w. if_pending (find_order order_id w) (settle_payment payload) w

  unfoldable pub expire : Order → Action World (Unit {0})
  expire o = on_api (λ db. (ok tt, set_status o OrderStatus.expired db))

  unfoldable pub handle_reservation_expired : Payload → Action World (Unit {0})
  handle_reservation_expired payload = do
    order_id ← query (λ _. order_id_of payload)
    λ w. if_pending (find_order order_id w) expire w

  -- `_handle_message` of the order status worker; other types are logged.
  abbrev pub status_handler : EventType → Payload → Action World (Unit {0})
  status_handler payment_processed = handle_payment_processed
  status_handler reservation_expired = handle_reservation_expired
  status_handler _ = λ _. pure tt

  unfoldable pub handle_status_message : Message → Action World (Unit {0})
  handle_status_message m = status_handler m.event_type m.payload

-- `_handle_message` of the payment worker. The gateway's answer and its reference are the
-- argument: `_mock_charge` draws both at random.
unfoldable pub handle_order_created : (ℕ → ℤ → Bool × ℕ) → Message → Action Producer (Unit {0})
handle_order_created charge m p = elim (order_id_of m.payload) [
  | err e ↦ (err e, p)
  | ok order_id ↦ elim (total_price_cents_of m.payload) [
    | err e ↦ (err e, p)
    | ok amount ↦
        let (success, transaction_ref) = charge order_id amount in
        publish payment_processed order_id
          (payment_processed_payload order_id success transaction_ref) p
  ]
]

-- The mails of the notification worker.
pub data Subject : Type 0 where
  tickets_are_confirmed order_was_cancelled : Subject

pub record Email : Type 0 where
  pub to : String
  pub subject : Subject
  pub order_id : ℕ

abbrev pub emails_for : EventType → ℕ → User → List Email
emails_for ticket_issued order_id user =
    record { to = user.email; subject = tickets_are_confirmed; order_id = order_id } ∷ []
emails_for order_cancelled order_id user =
    record { to = user.email; subject = order_was_cancelled; order_id = order_id } ∷ []
emails_for _ order_id user = []

module _ ⦃S : Storage⦄ where
  abbrev pub addressee : Option Order → ApiDb → Option User
  addressee none db = none
  addressee (some o) db = S.get db.users o.user_id

  abbrev pub notify : Option User → EventType → ℕ → List Email
  notify none t order_id = []
  notify (some user) t order_id = emails_for t order_id user

  -- `_handle_message` of the notification worker: the state is the mails sent.
  unfoldable pub handle_notification : ApiDb → Message → Action (List Email) (Unit {0})
  handle_notification db m sent = elim (order_id_of m.payload) [
    | err e ↦ (err e, sent)
    | ok order_id ↦
        (ok tt, sent ++ notify (addressee (S.get db.orders order_id) db) m.event_type order_id)
  ]
