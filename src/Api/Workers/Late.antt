-- ===== src/Api/Workers/Late.antt =====
-- A payment that succeeds after its reservation has ended.
use eventsphere.Prelude.{List, ℕ, ◌≡◌, refl, some, true, false, [], ◌∷◌, ◌++◌}
use eventsphere.Errors.{ok}
use eventsphere.Storage.{Storage}
use eventsphere.Redis.{Redis}
use eventsphere.Api.Client.{Settings, inventory_client, confirm_reservation_call}
use eventsphere.Api.Workers.{
  settle_payment, handle_payment_processed, settle_paid, handle_status_message,
}
use eventsphere.Inventory.Service
use eventsphere.Inventory.Servicer.{confirm_reservation_rpc}
use eventsphere.Inventory.Session.{session_scope}
use eventsphere.Inventory.Repository.{confirm}
use eventsphere.Kafka.Producer.{envelope, Message, publish}
use eventsphere.Kafka.Schemas.{
  ticket_issued_payload, payment_processed_payload, success_of, order_id_of,
}
use eventsphere.Inventory.Models.{Db, Reservation}
use eventsphere.Enums.{OrderStatus, ReservationStatus, same_status}
use eventsphere.Api.Models.{ApiDb, Order}
use eventsphere.Kafka.Topics.{ticket_issued, EventType}
use eventsphere.Api.Repositories.{set_status}

module _ ⦃S : Storage⦄ ⦃R : Redis⦄ (c : Settings) where
  confirm_ended :
      (id : ℕ) (r : Reservation) (db : Db) (s : R.State)
      → S.get db.reservations id ≡ some r
      → same_status r.status ReservationStatus.pending ≡ false
      → confirm_reservation_call c id (db, s) ≡ (ok tt, (db, s))
  unfolding confirm_reservation_call confirm_reservation_rpc Service.confirm_reservation
      session_scope confirm
  confirm_ended id r db s stored ended = rw (stored, confirm) (rw ended refl)

  -- With the inventory service of the repository and a broker that takes messages: a successful
  -- payment for an order that is stored under its id and still pending, whose reservation has
  -- expired, was released or confirmed before, is answered as if it had just been confirmed.
  -- Nothing changes in the inventory, but the order becomes confirmed and its ticket is issued.
  pub late_payment_confirmed :
      (m : Message) (o : Order) (transaction_ref : ℕ) (r : Reservation) (api : ApiDb) (db : Db)
      (s : R.State) (sent : List Message)
      → m.event_type ≡ EventType.payment_processed
      → m.payload ≡ payment_processed_payload o.id true transaction_ref
      → S.get api.orders o.id ≡ some o
      → o.status ≡ OrderStatus.pending
      → S.get db.reservations o.reservation_id ≡ some r
      → same_status r.status ReservationStatus.pending ≡ false
      → handle_status_message ⦃C = inventory_client c⦄ m (record {
        api = api;
        inventory = (db, s);
        kafka = record { started = true; reachable = true; sent = sent };
      })
        ≡ (
          ok tt,
          record {
            api = set_status o OrderStatus.confirmed api;
            inventory = (db, s);
            kafka = record {
              started = true;
              reachable = true;
              sent =
                  sent
                  ++ envelope ticket_issued o.id (ticket_issued_payload o.id o.user_id o.event_id)
                    ∷ [];
            };
          },
        )
  unfolding handle_status_message handle_payment_processed settle_payment settle_paid publish
      order_id_of success_of
  late_payment_confirmed m o transaction_ref r api db s sent is_payment payload found is_pending
        stored ended =
      rw (is_payment, payload, handle_payment_processed)
        (rw (found, is_pending, confirm_ended o.reservation_id r db s stored ended) refl)
