-- ===== src/Api/Workers/Paid.antt =====
-- A payment that succeeds in time.
use eventsphere.Prelude.{List, ℕ, ◌≡◌, refl, some, true, [], ◌∷◌, ◌++◌}
use eventsphere.Errors.{ok}
use eventsphere.Prelude.Int.{◌+ℤ◌, ◌-ℤ◌}
use eventsphere.Storage.{Storage}
use eventsphere.Redis.{Redis}
use eventsphere.Api.Client.{Settings, inventory_client, confirm_reservation_call}
use eventsphere.Api.Workers.{
  settle_payment, handle_payment_processed, settle_paid, handle_status_message,
}
use eventsphere.Inventory.Service
use eventsphere.Inventory.Repository
use eventsphere.Inventory.Repository.Holds.{Confirmed, confirm-Confirmed}
use eventsphere.Inventory.Repository.{confirm_seats, undisturbed}
use eventsphere.Inventory.Servicer.{confirm_reservation_rpc}
use eventsphere.Inventory.Models.{EventInventory, Db, Reservation}
use eventsphere.Inventory.Seats.{IsValid}
use eventsphere.Inventory.Session.{session_scope, write_reservation}
use eventsphere.Kafka.Producer.{envelope, Message, publish}
use eventsphere.Enums.{OrderStatus, ReservationStatus, same_status}
use eventsphere.Kafka.Schemas.{
  ticket_issued_payload, payment_processed_payload, success_of, order_id_of,
}
use eventsphere.Inventory.Seats.Moves.{write_inventory}
use eventsphere.Api.Models.{ApiDb, Order}
use eventsphere.Kafka.Topics.{ticket_issued, EventType}
use eventsphere.Api.Repositories.{set_status}

module _ ⦃S : Storage⦄ where
  -- The database once the seats of a pending reservation are confirmed: they have left
  -- `reserved_count` for `confirmed_count`, the version has moved on, the reservation is confirmed.
  abbrev pub after_confirm : Reservation → EventInventory → Db → Db
  after_confirm r inv db =
      write_reservation (record r { status = ReservationStatus.confirmed })
        (write_inventory
          (record {
            event_id = inv.event_id;
            total_capacity = inv.total_capacity;
            reserved_count = inv.reserved_count -ℤ r.quantity;
            confirmed_count = inv.confirmed_count +ℤ r.quantity;
            version = S.next_version inv.version;
          })
          db)

module _ ⦃S : Storage⦄ ⦃R : Redis⦄ (c : Settings) (alone : c.waits ≡ undisturbed) where
  confirmed_out :
      (id : ℕ) (r : Reservation) (db : Db)
      → IsValid db
      → S.get db.reservations id ≡ some r
      → same_status r.status ReservationStatus.pending ≡ true
      → (inv : EventInventory) × (S.get db.inventories r.event_id ≡ some inv)
        × (session_scope (Repository.confirm undisturbed id) db
            ≡ (ok (record r { status = ReservationStatus.confirmed }), after_confirm r inv db))
  confirmed_out id r db valid stored waiting =
      rw (stored, waiting, Confirmed) at (confirm-Confirmed db id valid)

  confirm_waiting :
      (id : ℕ) (r : Reservation) (db db' : Db) (s : R.State)
      → session_scope (Repository.confirm undisturbed id) db ≡ (ok r, db')
      → confirm_reservation_call c id (db, s) ≡ (ok tt, (db', s))
  unfolding confirm_reservation_call confirm_reservation_rpc Service.confirm_reservation
  confirm_waiting id r db db' s h = rw alone (rw h refl)

  -- With the inventory service of the repository, undisturbed and with a valid database, and a
  -- broker that takes messages: a successful payment for a pending order, stored under its id,
  -- with a pending reservation moves the seats of the reservation from `reserved_count` to
  -- `confirmed_count`, marks the reservation and the order confirmed, and sends one message, the
  -- ticket's.
  pub paid_order_confirmed :
      (m : Message) (o : Order) (transaction_ref : ℕ) (r : Reservation) (api : ApiDb) (db : Db)
      (s : R.State) (sent : List Message)
      → m.event_type ≡ EventType.payment_processed
      → m.payload ≡ payment_processed_payload o.id true transaction_ref
      → S.get api.orders o.id ≡ some o
      → o.status ≡ OrderStatus.pending
      → IsValid db
      → S.get db.reservations o.reservation_id ≡ some r
      → same_status r.status ReservationStatus.pending ≡ true
      → (inv : EventInventory) × (S.get db.inventories r.event_id ≡ some inv)
        × (handle_status_message ⦃C = inventory_client c⦄ m (record {
          api = api;
          inventory = (db, s);
          kafka = record { started = true; reachable = true; sent = sent };
        })
            ≡ (
              ok tt,
              record {
                api = record api {
                  orders = S.put api.orders o.id (record o { status = OrderStatus.confirmed });
                };
                inventory = (after_confirm r inv db, s);
                kafka = record {
                  started = true;
                  reachable = true;
                  sent =
                      sent
                      ++ envelope ticket_issued o.id
                          (ticket_issued_payload o.id o.user_id o.event_id)
                        ∷ [];
                };
              },
            ))
  unfolding set_status handle_status_message handle_payment_processed settle_payment settle_paid
      publish order_id_of success_of
  paid_order_confirmed m o transaction_ref r api db s sent is_payment payload found is_pending valid
        stored waiting =
      let (inv, row, out) = confirmed_out o.reservation_id r db valid stored waiting in
      (
        inv,
        row,
        rw (is_payment, payload, handle_payment_processed)
            (rw
              (
                found,
                is_pending,
                confirm_waiting o.reservation_id _ db (after_confirm r inv db) s out,
              )
              refl),
      )
