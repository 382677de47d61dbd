-- ===== src/Inventory/Service.antt =====
-- services/inventory/app/services/inventory_service.py: each operation as one database
-- transaction, the writes to an event's seats under its Redis lock. The settings are those of
-- services/inventory/app/core/config.py.
pub mod Sweep
pub mod Drain
use eventsphere.Prelude.{[], true, ◌∷◌, List, Bool, ℕ}
use eventsphere.Inventory.Repository
use eventsphere.Inventory.Repository.{
  get_inventory, Waits, undisturbed, Attempt, confirm, release, reserve, find_expired_pending,
}
use eventsphere.Storage.{Storage}
use eventsphere.Errors.{err, not_found, ok, or_raise, Result, Action}
use eventsphere.Prelude.Int.{ℤ}
use eventsphere.Redis.{Redis}
use eventsphere.Inventory.Lock.{with_lock, LockRun}
use eventsphere.Inventory.Models.{EventInventory, Db, Reservation}
use eventsphere.Inventory.Session.{Session, Transaction, session_scope}
use eventsphere.Redis.Keys.{lock_event}

module _ ⦃S : Storage⦄ where
  unfoldable pub initialize_inventory : (Db → Db) → ℕ → ℤ → Action Db EventInventory
  initialize_inventory meanwhile event_id total_capacity =
      session_scope (Repository.initialize_inventory meanwhile event_id total_capacity)

  unfoldable pub get_availability : ℕ → Action Db EventInventory
  get_availability event_id =
      session_scope (λ s. or_raise (get_inventory event_id s.visible) not_found s)

  unfoldable pub confirm_reservation : Waits → ℕ → Action Db Reservation
  confirm_reservation w reservation_id = session_scope (confirm w reservation_id)

  unfoldable pub release_reservation : Waits → Bool → ℕ → Action Db Reservation
  release_reservation w is_expired reservation_id =
      session_scope (release w is_expired reservation_id)

  abbrev pub add_released :
      Reservation → Result (List Reservation) × Session → Result (List Reservation) × Session
  add_released r (ok list, s) = (ok (r ∷ list), s)
  add_released r (err e, s) = (err e, s)

  -- `released.append(await repo.release(...))`: an exception ends the loop.
  abbrev pub swept :
      Result Reservation × Session
      → Transaction (List Reservation)
      → Result (List Reservation) × Session
  swept (ok r, s) rest = add_released r (rest s)
  swept (err e, s) rest = (err e, s)

  -- The loop of `sweep_expired_reservations`, inside one session.
  unfoldable pub sweep_rows : List Reservation → Transaction (List Reservation)
  sweep_rows [] s = (ok [], s)
  sweep_rows (r ∷ rest) s = swept (release undisturbed true r.id s) (sweep_rows rest)

  -- `find_expired_pending` takes at most 100 rows.
  unfoldable pub sweep_expired_reservations : ℕ → Action Db (List Reservation)
  sweep_expired_reservations now =
      session_scope (λ s. sweep_rows (find_expired_pending now 100 s.visible) s)

module _ ⦃S : Storage⦄ ⦃R : Redis⦄ where
  unfoldable pub adjust_capacity :
      LockRun → (Db → Db) → ℕ → ℤ → Db → R.State → Result EventInventory × Db × R.State
  adjust_capacity l meanwhile event_id new_total_capacity =
      with_lock l (lock_event event_id)
        (session_scope (Repository.adjust_capacity meanwhile event_id new_total_capacity))

  -- `optimistic_retry_attempts` and `reservation_ttl_seconds` are settings of the service.
  unfoldable pub reserve_seats :
      LockRun → (ℕ → Attempt) → ℕ → ℕ → ℕ → ℕ → ℤ → Db → R.State → Result Reservation × Db × R.State
  reserve_seats l attempts retry_attempts ttl_seconds event_id order_id quantity =
      with_lock l (lock_event event_id) (
        session_scope (
          reserve
            (record {
              event_id = event_id;
              order_id = order_id;
              quantity = quantity;
              reservation_ttl_seconds = ttl_seconds;
            })
            attempts retry_attempts))
