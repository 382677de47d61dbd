-- ===== src/Api/Workers/Tests.antt =====
-- The theorems on the workers at concrete inputs.
use eventsphere.Prelude.{inr, ==_iff, inl, [], some, ◌==◌, ◌∷◌, ◌≡◌, true, Bool-cases, refl}
use eventsphere.Api.Tests.{
  client, client_settings, alices_order, booked_world, open_world, cancelled_order,
}
use eventsphere.Inventory.Tests.{
  no_keys, two_reserved, two_reserved-IsValid, reservation_row, reservation_of_two,
}
use eventsphere.Api.Tests.{newly_booked, new_booking, booking_run, alice}
use eventsphere.Inventory.Tests.{quiet-IsFair, five_seats, five_seats-IsValid}
use eventsphere.Inventory.Repository.Reserve.{Stores}
use eventsphere.Api.Workers.Journey
use eventsphere.Api.Workers.Journey.{booking_completed, created_message, ticket_message, request}
use eventsphere.Api.Workers.{handle_order_created}
use eventsphere.Storage.Assoc.{assoc}
use eventsphere.Redis.Memory.{memory}
use eventsphere.Kafka.Topics
use eventsphere.Enums.{OrderStatus, ReservationStatus}
use eventsphere.Api.Workers.Status.{OwnKeys, settled_order_kept, redelivery_ignored}
use eventsphere.Api.Workers.Late.{late_payment_confirmed}
use eventsphere.Api.Workers.Paid.{paid_order_confirmed, after_confirm}
use eventsphere.Kafka.Producer.{ready, envelope, Message}
use eventsphere.Inventory.Models.{Reservation, Db, EventInventory}
use eventsphere.Api.Booking.{World}
use eventsphere.Kafka.Schemas.{ticket_issued_payload, payment_processed_payload, order_id_of}
use eventsphere.Api.Workers.{handle_status_message}
use eventsphere.Prelude.Int.{pos}
use eventsphere.Kafka.Topics.{orders_status_changed}
use eventsphere.Errors.{ok}
use eventsphere.Api.Repositories.{set_status}

abbrev cancelled_world : World
cancelled_world = record open_world {
  api = record open_world.api { orders = assoc.put assoc.empty 42 cancelled_order };
}

abbrev pub paid_message : Message
paid_message = record {
  topic = orders_status_changed;
  key = 42;
  event_type = Topics.payment_processed;
  payload = payment_processed_payload 42 true 5;
}

own_keys : OwnKeys cancelled_world.api
own_keys k o h = elim (Bool-cases (42 == k)) [
  | inl same ↦ let e : cancelled_order ≡ o = cc (rw same at h) in cc (e, (==_iff 42 k).0 same)
  | inr other ↦ absurd (cc (rw other at h))
]

settled_order_kept_example :
    assoc.get (handle_status_message paid_message cancelled_world).1.api.orders 42
    ≡ some cancelled_order
settled_order_kept_example =
    settled_order_kept paid_message cancelled_world 42 cancelled_order own_keys refl refl

named : order_id_of paid_message.payload ≡ ok 42
unfolding order_id_of
named = refl

redelivery_ignored_example :
    handle_status_message paid_message cancelled_world ≡ (ok tt, cancelled_world)
redelivery_ignored_example =
    redelivery_ignored paid_message cancelled_world 42 cancelled_order named refl refl

abbrev ended_reservation : Reservation
ended_reservation = record {
  id = 1;
  event_id = 1;
  order_id = 42;
  quantity = pos 2;
  status = ReservationStatus.expired;
  expires_at = 901_000_000;
}

-- The inventory after the reservation has expired.
abbrev ended_db : Db
ended_db = record {
  inventories = assoc.put assoc.empty 1 (record {
    event_id = 1;
    total_capacity = pos 5;
    reserved_count = pos 0;
    confirmed_count = pos 0;
    version = 3;
  });
  reservations = assoc.put assoc.empty 1 ended_reservation;
}

late_payment_confirmed_example :
    handle_status_message paid_message (record {
      api = booked_world.api;
      inventory = (ended_db, no_keys);
      kafka = record { started = true; reachable = true; sent = [] };
    })
    ≡ (
      ok tt,
      record {
        api = set_status alices_order OrderStatus.confirmed booked_world.api;
        inventory = (ended_db, no_keys);
        kafka = record {
          started = true;
          reachable = true;
          sent = envelope Topics.ticket_issued 42 (ticket_issued_payload 42 1 1) ∷ [];
        };
      },
    )
late_payment_confirmed_example =
    late_payment_confirmed client_settings paid_message alices_order 5 ended_reservation
      booked_world.api ended_db no_keys [] refl refl refl refl refl refl

paid_order_confirmed_example :
    (inv : EventInventory) × (assoc.get two_reserved.inventories 1 ≡ some inv)
    × (handle_status_message paid_message (record {
      api = booked_world.api;
      inventory = (two_reserved, no_keys);
      kafka = record { started = true; reachable = true; sent = [] };
    })
        ≡ (
          ok tt,
          record {
            api = record booked_world.api {
              orders =
                  assoc.put booked_world.api.orders 42
                    (record alices_order { status = OrderStatus.confirmed });
            };
            inventory = (after_confirm reservation_of_two inv two_reserved, no_keys);
            kafka = record {
              started = true;
              reachable = true;
              sent = envelope Topics.ticket_issued 42 (ticket_issued_payload 42 1 1) ∷ [];
            };
          },
        ))
paid_order_confirmed_example =
    paid_order_confirmed client_settings refl paid_message alices_order 5 reservation_of_two
      booked_world.api two_reserved no_keys [] refl refl refl refl two_reserved-IsValid
      reservation_row refl

booking_completed_example :
    (r : Reservation) × (inv : EventInventory) × Stores
      (request client_settings 1 42 (pos 2))
      new_booking.1.inventory.0
      r
    × (assoc.get new_booking.1.inventory.0.inventories r.event_id ≡ some inv)
    × (new_booking.1.kafka ≡ ready (created_message client_settings alices_order ∷ []))
    × (handle_order_created
          (λ id price. (true, 5))
          (created_message client_settings alices_order)
          new_booking.1.kafka
        ≡ (
          ok tt,
          ready (
              created_message client_settings alices_order
              ∷ (Journey.paid_message alices_order 5 ∷ [])),
        ))
    × (handle_status_message (Journey.paid_message alices_order 5) (record {
      api = new_booking.1.api;
      inventory = new_booking.1.inventory;
      kafka = ready (
          created_message client_settings alices_order
          ∷ (Journey.paid_message alices_order 5 ∷ []));
    })
        ≡ (
          ok tt,
          record {
            api = record new_booking.1.api {
              orders =
                  assoc.put new_booking.1.api.orders 42
                    (record alices_order { status = OrderStatus.confirmed });
            };
            inventory = (after_confirm r inv new_booking.1.inventory.0, new_booking.1.inventory.1);
            kafka = ready (
                created_message client_settings alices_order
                ∷ (Journey.paid_message alices_order 5 ∷ (ticket_message alices_order ∷ [])));
          },
        ))
booking_completed_example =
    booking_completed client_settings quiet-IsFair refl booking_run alice 1 (pos 2) (some "k1")
      open_world.api five_seats no_keys [] alices_order new_booking.1 (λ id price. (true, 5)) 5
      five_seats-IsValid newly_booked refl
