-- ===== src/Api/Integrity/Tests.antt =====
-- The theorem on the tables at a concrete history: an account, an event, a booking, a message.
use eventsphere.Prelude.{ℕ, ◌≡◌, refl, none, some, Option, String, []}
use eventsphere.Prelude.Int.{pos}
use eventsphere.Errors.{ok}
use eventsphere.Storage.Assoc.{assoc}
use eventsphere.Redis.Memory.{memory}
use eventsphere.Inventory.Tests.{five_seats, no_keys}
use eventsphere.Kafka.Producer.{ready}
use eventsphere.Api.Auth.{register, add_user, get_by_email}
use eventsphere.Api.Auth.Tests.{bare}
use eventsphere.Api.Booking.{book_tickets}
use eventsphere.Api.Events.{EventCreate, create_event}
use eventsphere.Api.Integrity.{IsSound}
use eventsphere.Api.Integrity.History.{
  ApiReach, start, after, registered, created, booked, settled, empty_api, history-IsSound,
}
use eventsphere.Api.Models.{ApiDb, User, Order}
use eventsphere.Api.Repositories.{get_by_idempotency_key}
use eventsphere.Api.Tests.{client, alice, booking_run}
use eventsphere.Api.Workers.{handle_status_message}
use eventsphere.Api.Workers.Tests.{paid_message}

abbrev fields : EventCreate
fields = record {
  title = "Concert";
  description = none;
  venue = "Hall";
  starts_at = 1_000;
  total_seats = pos 5;
  price_cents = pos 2500;
}

abbrev with_account : ApiDb
with_account = (register 1 8 (λ db. db) "a@b.example" "secret" "Alice" empty_api).1

abbrev with_event : ApiDb
with_event = (create_event 1 fields alice (record { api = with_account; kafka = ready [] })).1.api

no_order : assoc.get with_event.orders 42 ≡ none
unfolding register add_user get_by_email create_event eventsphere.Api.Tokens.hash_password
no_order = refl

abbrev with_order : ApiDb
with_order =
    (book_tickets booking_run alice 1 (pos 2) (some "k1")
      (record { api = with_event; inventory = (five_seats, no_keys); kafka = ready [] })).1.api

abbrev paid : ApiDb
paid =
    (handle_status_message paid_message
      (record { api = with_order; inventory = (five_seats, no_keys); kafka = ready [] })).1.api

history : ApiReach empty_api paid
history =
    after
      (after
        (after
          (after start
            (registered 1 8 (λ db. db) "a@b.example" "secret" "Alice" (λ d sound. sound) refl))
          (created 1 fields alice (ready [])))
        (booked booking_run alice 1 (pos 2) (some "k1") (five_seats, no_keys) (ready [])
          (λ d sound. sound) no_order))
      (settled paid_message (five_seats, no_keys) (ready []))

history-IsSound_example :
    IsSound paid
    × ((email : String) → (o : Option User) × (get_by_email email paid ≡ ok o))
    × ((user_id : ℕ) (key : String)
        → (o : Option Order) × (get_by_idempotency_key user_id key paid ≡ ok o))
history-IsSound_example = history-IsSound history
