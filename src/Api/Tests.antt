-- ===== src/Api/Tests.antt =====
-- The theorems on the API service at concrete inputs, over the inventory service of the
-- repository and stores of association lists.
use eventsphere.Prelude.{◌⊎◌, ◌↔◌, arith, ◌≢◌, true, some, none, [], ◌≡◌, refl}
use eventsphere.Storage.Assoc.{assoc}
use eventsphere.Redis.Memory.{memory}
use eventsphere.Enums.{OrderStatus, UserRole}
use eventsphere.Errors.{Error, err, ok, Result}
use eventsphere.Inventory.Tests.{quiet, lock_run, five_seats, no_keys}
use eventsphere.Kafka.Producer.{publish}
use eventsphere.Kafka.Topics
use eventsphere.Inventory.Service
use eventsphere.Inventory.Repository
use eventsphere.Prelude.Int
use eventsphere.Api.Booking.Outcome.{Booked, book_new-Booked}
use eventsphere.Api.Booking.Idempotency.{book_twice}
use eventsphere.Api.Booking.Cancel.{
  cancel_twice, others_order_hidden, Cancelled, cancel_order-Cancelled,
}
use eventsphere.Api.RateLimit.{burst_lem, burst}
use eventsphere.Api.Events.Owner.{others_refused}
use eventsphere.Api.Booking.{get_order, cancel_order, book_new, BookingRun, book_tickets, World}
use eventsphere.Api.Client.{
  domain_error, release_reservation_call, reserve_seats_call, inventory_client, InventoryClient,
  Settings,
}
use eventsphere.Api.Models.{User, Event, Order}
use eventsphere.Prelude.Int.{pos}
use eventsphere.Inventory.Repository.{undisturbed}
use eventsphere.Kafka.Topics.{orders_status_changed}
use eventsphere.Api.Repositories.{set_status, get_for_user, add_order, get_by_idempotency_key}
use eventsphere.Inventory.Servicer.{
  reserve_code, release_reservation_rpc, reservation_to_proto, reserve_seats_rpc,
}
use eventsphere.Inventory.Lock.{release_script, set_nx, acquire, with_lock}
use eventsphere.Inventory.Session.{flush_inventory, session_scope}
use eventsphere.Inventory.Models.{available}
use eventsphere.Api.Events.{Field, unset, delete_event, update_event, EventUpdate, EventWorld}
use eventsphere.Api.Client.Codes.{reserve_errors_exact, reserve_http_status, http_status}

abbrev pub client_settings : Settings
client_settings = record {
  lock_run = lock_run;
  attempts = quiet;
  optimistic_retry_attempts = 3;
  reservation_ttl_seconds = 900;
  waits = undisturbed;
}

instance abbrev pub client : InventoryClient
client = inventory_client client_settings

abbrev pub alice : User
alice = record {
  id = 1;
  email = "alice@example.org";
  hashed_password = "";
  full_name = "Alice";
  role = UserRole.attendee;
  is_active = true;
}

abbrev pub bob : User
bob = record {
  id = 2;
  email = "bob@example.org";
  hashed_password = "";
  full_name = "Bob";
  role = UserRole.attendee;
  is_active = true;
}

abbrev pub concert : Event
concert = record {
  id = 1;
  title = "Concert";
  description = none;
  venue = "Hall";
  starts_at = 1_000;
  total_seats = pos 5;
  price_cents = pos 2500;
  organizer_id = 9;
}

abbrev pub open_world : World
open_world = record {
  api = record {
    users = assoc.put (assoc.put assoc.empty 1 alice) 2 bob;
    events = assoc.put assoc.empty 1 concert;
    orders = assoc.empty;
  };
  inventory = (five_seats, no_keys);
  kafka = record { started = true; reachable = true; sent = [] };
}

abbrev pub booking_run : BookingRun
booking_run = record { order_id = 42; now = 2_000; meanwhile = λ db. db }

abbrev booking : Result Order × World
booking = book_tickets booking_run alice 1 (pos 2) (some "k1") open_world

abbrev pub alices_order : Order
alices_order = record {
  id = 42;
  user_id = 1;
  event_id = 1;
  reservation_id = 1;
  quantity = pos 2;
  unit_price_cents = pos 2500;
  total_price_cents = pos 5000;
  status = OrderStatus.pending;
  idempotency_key = some "k1";
  created_at = 2_000;
}

booked : booking ≡ (ok alices_order, booking.1)
unfolding book_tickets book_new get_by_idempotency_key add_order publish Topics.topic_for_event_type
    reserve_seats_call reserve_seats_rpc reservation_to_proto Service.initialize_inventory
    Service.reserve_seats with_lock acquire set_nx release_script session_scope Repository.reserve
    Repository.reserve_rounds Repository.try_reserve flush_inventory Repository.initialize_inventory
    available Int.◌*ℤ◌ Int.◌+ℤ◌ Int.◌-ℤ◌
booked = refl

no_orders : assoc.get (booking_run.meanwhile open_world.api).orders 42 ≡ none
no_orders = refl

book_twice_example :
    book_tickets booking_run alice 7 (pos 3) (some "k1") booking.1 ≡ (ok alices_order, booking.1)
book_twice_example =
    book_twice booking_run booking_run alice 1 7 (pos 2) (pos 3) "k1" open_world booking.1
      alices_order refl no_orders booked

abbrev pub new_booking : Result Order × World
new_booking = book_new booking_run alice 1 (pos 2) (some "k1") open_world

pub newly_booked : new_booking ≡ (ok alices_order, new_booking.1)
unfolding book_tickets book_new get_by_idempotency_key add_order publish Topics.topic_for_event_type
    reserve_seats_call reserve_seats_rpc reservation_to_proto Service.initialize_inventory
    Service.reserve_seats with_lock acquire set_nx release_script session_scope Repository.reserve
    Repository.reserve_rounds Repository.try_reserve flush_inventory Repository.initialize_inventory
    available Int.◌*ℤ◌ Int.◌+ℤ◌ Int.◌-ℤ◌
newly_booked = refl

book_new-Booked_example :
    Booked booking_run alice 1 (pos 2) (some "k1") open_world alices_order new_booking.1
book_new-Booked_example =
    book_new-Booked booking_run alice 1 (pos 2) (some "k1") open_world new_booking.1 alices_order
      newly_booked

-- The world after a booking, written out but for the inventory.
abbrev pub booked_world : World
booked_world = record open_world {
  api = record open_world.api { orders = assoc.put assoc.empty 42 alices_order };
}

others_order_hidden_example :
    (get_order 42 bob booked_world ≡ (err Error.not_found, booked_world))
    × (cancel_order 42 bob booked_world ≡ (err Error.not_found, booked_world))
others_order_hidden_example =
    others_order_hidden 42 bob booked_world alices_order refl (omega arith)

abbrev cancellation : Result Order × World
cancellation = cancel_order 42 alice (record booked_world { inventory = booking.1.inventory })

abbrev pub cancelled_order : Order
cancelled_order = record alices_order { status = OrderStatus.cancelled }

cancelled_once : cancellation ≡ (ok cancelled_order, cancellation.1)
unfolding cancel_order get_for_user set_status release_reservation_call release_reservation_rpc
    Service.release_reservation Repository.release Repository.settle book_tickets book_new
    get_by_idempotency_key add_order publish Topics.topic_for_event_type reserve_seats_call
    reserve_seats_rpc reservation_to_proto Service.initialize_inventory Service.reserve_seats
    with_lock acquire set_nx release_script session_scope Repository.reserve
    Repository.reserve_rounds Repository.try_reserve flush_inventory Repository.initialize_inventory
    available Int.◌*ℤ◌ Int.◌+ℤ◌ Int.◌-ℤ◌
cancelled_once = refl

stored_by_id : (o : Order) → assoc.get booked_world.api.orders 42 ≡ some o → o.id ≡ 42
stored_by_id o h = cc

cancel_twice_example : cancel_order 42 alice cancellation.1 ≡ (err Error.validation, cancellation.1)
cancel_twice_example =
    cancel_twice 42 alice (record booked_world { inventory = booking.1.inventory }) cancellation.1
      cancelled_order stored_by_id cancelled_once

cancel_order-Cancelled_example :
    Cancelled 42 alice
      (record booked_world { inventory = booking.1.inventory })
      cancelled_order
      cancellation.1
cancel_order-Cancelled_example =
    cancel_order-Cancelled 42 alice (record booked_world { inventory = booking.1.inventory })
      cancellation.1 cancelled_order cancelled_once

burst_lem_example : (burst 60 4 120_000 100 no_keys).0 ≡ 60
burst_lem_example = burst_lem 60 4 120_000 100 no_keys

abbrev pub new_seats : EventUpdate
new_seats = record {
  title = unset;
  description = unset;
  venue = unset;
  starts_at = unset;
  total_seats = Field.given (pos 9);
  price_cents = unset;
}

abbrev pub event_world : EventWorld
event_world = record { api = open_world.api; kafka = open_world.kafka }

not_admin : alice.role ≢ UserRole.admin
not_admin h = absurd (cc)

others_refused_example :
    (update_event 1 new_seats alice event_world ≡ (err Error.authorization, event_world))
    × (delete_event 1 alice event_world ≡ (err Error.authorization, event_world))
others_refused_example =
    others_refused 1 new_seats alice event_world concert refl not_admin (omega arith)

reserve_errors_exact_example :
    (domain_error (reserve_code Error.lock_acquisition) ≡ Error.capacity_exceeded
      ↔ Error.lock_acquisition ≡ Error.capacity_exceeded)
    × (domain_error (reserve_code Error.lock_acquisition) ≡ Error.not_found
        ↔ Error.lock_acquisition ≡ Error.not_found)
    × (domain_error (reserve_code Error.lock_acquisition) ≡ Error.conflict ↔ (
        Error.lock_acquisition ≡ Error.conflict ⊎ Error.lock_acquisition ≡ Error.lock_acquisition))
reserve_errors_exact_example = reserve_errors_exact Error.lock_acquisition

reserve_http_status_example :
    http_status (domain_error (reserve_code Error.capacity_exceeded)) ≡ 409
reserve_http_status_example = reserve_http_status Error.capacity_exceeded
