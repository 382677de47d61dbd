-- ===== src/Api/Booking.antt =====
-- services/api/app/services/booking_service.py, over any inventory client.
pub mod Idempotency
pub mod Outcome
pub mod Cancel
use eventsphere.Prelude.{◌||◌, ◌==◌, none, not, str_eq, if◌then◌else◌, some, String, Option, ℕ}
use eventsphere.Storage.{Storage}
use eventsphere.Api.Client.{ReservationResult, InventoryClient}
use eventsphere.Api.Models.{Event, Order, User, ApiDb}
use eventsphere.Errors.{
  not_found, ◌>>=◌, validation, authorization, err, pure, ok, or_raise, Result, Action,
}
use eventsphere.Kafka.Producer.{publish, Producer}
use eventsphere.Prelude.Int.{◌*ℤ◌, ℤ}
use eventsphere.Pagination.{create, offset, limit, Page, PaginationParams}
use eventsphere.Kafka.Schemas.{order_cancelled_payload, order_created_payload, Payload}
use eventsphere.Enums.{expired, cancelled, same_order_status, pending}
use eventsphere.Api.Repositories.{
  get_by_idempotency_key, get_for_user, list_for_user, add_order, set_status,
}
use eventsphere.Kafka.Topics.{order_created, order_cancelled}

module _ ⦃S : Storage⦄ ⦃C : InventoryClient⦄ where
  -- The stores and services that a request reaches.
  pub record World : Type 0 where
    pub api : ApiDb
    pub inventory : C.State
    pub kafka : Producer

  abbrev pub on_api : {A : Type 0} → Action ApiDb A → Action World A
  on_api m w = let (r, db) = m w.api in (r, record w { api = db })

  abbrev pub on_inventory : {A : Type 0} → Action C.State A → Action World A
  on_inventory m w = let (r, s) = m w.inventory in (r, record w { inventory = s })

  abbrev pub on_kafka : {A : Type 0} → Action Producer A → Action World A
  on_kafka m w = let (r, p) = m w.kafka in (r, record w { kafka = p })

  abbrev pub query : {A : Type 0} → (ApiDb → Result A) → Action World A
  query f w = (f w.api, w)

  -- What a booking draws and meets: the id that `uuid4` gives, the server's clock, and what other
  -- requests commit before its INSERT.
  pub record BookingRun : Type 0 where
    pub order_id : ℕ
    pub now : ℕ
    pub meanwhile : ApiDb → ApiDb

  abbrev pub new_order :
      BookingRun → User → ℕ → Event → ℤ → Option String → ReservationResult → Order
  new_order b user event_id event quantity idempotency_key reservation = record {
    id = b.order_id;
    user_id = user.id;
    event_id = event_id;
    reservation_id = reservation.reservation_id;
    quantity = quantity;
    unit_price_cents = event.price_cents;
    total_price_cents = event.price_cents *ℤ quantity;
    status = pending;
    idempotency_key = idempotency_key;
    created_at = b.now;
  }

  abbrev pub order_created_message : Order → Payload
  order_created_message o =
      order_created_payload o.id o.event_id o.user_id o.quantity o.total_price_cents
        o.reservation_id

  -- The booking proper: reserve, then write the order, then announce it.
  unfoldable pub book_new : BookingRun → User → ℕ → ℤ → Option String → Action World Order
  book_new b user event_id quantity idempotency_key = do
    event ← λ w. or_raise (S.get w.api.events event_id) not_found w
    reservation ← on_inventory (C.reserve_seats event_id b.order_id quantity)
    let order = new_order b user event_id event quantity idempotency_key reservation
    _ ← λ w. on_api (add_order order) (record w { api = b.meanwhile w.api })
    _ ← on_kafka (publish order_created order.id (order_created_message order))
    pure order

  -- `if idempotency_key:` passes over an empty text too.
  abbrev pub existing_order : ℕ → Option String → ApiDb → Result (Option Order)
  existing_order user_id none db = ok none
  existing_order user_id (some key) db =
      if str_eq key "" then ok none else get_by_idempotency_key user_id key db

  abbrev pub replay_or : Option Order → Action World Order → Action World Order
  replay_or (some existing) book = pure existing
  replay_or none book = book

  unfoldable pub book_tickets : BookingRun → User → ℕ → ℤ → Option String → Action World Order
  book_tickets b user event_id quantity idempotency_key = do
    existing ← query (existing_order user.id idempotency_key)
    replay_or existing (book_new b user event_id quantity idempotency_key)

  unfoldable pub get_order : ℕ → User → Action World Order
  get_order order_id user w = or_raise (get_for_user order_id user.id w.api) not_found w

  unfoldable pub list_orders : User → PaginationParams → World → Page Order
  list_orders user pagination w =
      let (items, total) = list_for_user user.id (limit pagination) (offset pagination) w.api in
      create items total pagination

  -- `if order.user_id != user.id` and the check of the status
  abbrev pub may_cancel : Order → User → Result (Unit {0})
  may_cancel o user =
      if not (o.user_id == user.id)
      then err authorization
      else if same_order_status o.status cancelled || same_order_status o.status expired
      then err validation
      else ok tt

  unfoldable pub cancel_order : ℕ → User → Action World Order
  cancel_order order_id user = do
    order ← λ w. or_raise (get_for_user order_id user.id w.api) not_found w
    _ ← query (λ _. may_cancel order user)
    _ ← on_inventory (C.release_reservation order.reservation_id)
    _ ← on_api (λ db. (ok tt, set_status order cancelled db))
    _ ←
        on_kafka
          (publish order_cancelled order.id (order_cancelled_payload order.id order.reservation_id))
    pure (record order { status = cancelled })
