-- ===== src/Api/Client.antt =====
-- services/api/app/grpc_client/inventory_client.py: the calls of the inventory service, as the API
-- and its workers see them.
pub mod Codes
use eventsphere.Prelude.{ℕ}
use eventsphere.Inventory.Servicer.{
  initialize_inventory_rpc, adjust_capacity_rpc, reserve_seats_rpc, release_reservation_rpc,
  confirm_reservation_rpc, ReservationResponse, StatusCode, Reply, sent, failed,
}
use eventsphere.Errors.{err, ok, Action, Result, Error}
use eventsphere.Storage.{Storage}
use eventsphere.Prelude.Int.{ℤ}
use eventsphere.Redis.{Redis}
use eventsphere.Inventory.Lock.{LockRun}
use eventsphere.Inventory.Models.{Db}
use eventsphere.Inventory.Repository.{Waits, Attempt}

pub record ReservationResult : Type 0 where
  pub reservation_id : ℕ
  pub expires_at_unix : ℕ

-- `_raise_domain_error`
abbrev pub domain_error : StatusCode → Error
domain_error StatusCode.not_found = Error.not_found
domain_error StatusCode.failed_precondition = Error.capacity_exceeded
domain_error StatusCode.aborted = Error.conflict
domain_error StatusCode.resource_exhausted = Error.conflict
domain_error StatusCode.unknown = Error.domain

-- What the API's code needs of the inventory service.
pub record InventoryClient : Type 1 where
  pub State : Type 0
  pub reserve_seats : ℕ → ℕ → ℤ → Action State ReservationResult
  pub confirm_reservation : ℕ → Action State (Unit {0})
  pub release_reservation : ℕ → Action State (Unit {0})

abbrev pub received : {A B : Type 0} → (A → B) → Reply A → Result B
received f (sent a) = ok (f a)
received f (failed code) = err (domain_error code)

abbrev pub reservation_result : ReservationResponse → ReservationResult
reservation_result r = record {
  reservation_id = r.reservation_id;
  expires_at_unix = r.expires_at_unix;
}

-- The surroundings of the inventory service's calls.
pub record Settings ⦃S : Storage⦄ ⦃R : Redis⦄ : Type 0 where
  pub lock_run : LockRun
  pub attempts : ℕ → Attempt
  pub optimistic_retry_attempts : ℕ
  pub reservation_ttl_seconds : ℕ
  pub waits : Waits

-- The client of the inventory service of this repository: each call is one RPC. The response of
-- `confirm_reservation` and of `release_reservation` is not looked at.
module _ ⦃S : Storage⦄ ⦃R : Redis⦄ (c : Settings) where
  abbrev pub Backend : Type 0
  Backend = Db × R.State

  -- Nothing in the API calls this one and the next.
  unfoldable pub initialize_inventory_call : ℕ → ℤ → Action Backend (Unit {0})
  initialize_inventory_call event_id total_capacity (db, s) =
      let (r, db') = initialize_inventory_rpc (λ d. d) event_id total_capacity db in
      (received (λ _. tt) r, (db', s))

  unfoldable pub adjust_capacity_call : ℕ → ℤ → Action Backend (Unit {0})
  adjust_capacity_call event_id new_total_capacity (db, s) =
      let (r, db', s') = adjust_capacity_rpc c.lock_run (λ d. d) event_id new_total_capacity db s in
      (received (λ _. tt) r, (db', s'))

  unfoldable pub reserve_seats_call : ℕ → ℕ → ℤ → Action Backend ReservationResult
  reserve_seats_call event_id order_id quantity (db, s) =
      let (r, db', s') =
        reserve_seats_rpc c.lock_run c.attempts c.optimistic_retry_attempts
          c.reservation_ttl_seconds event_id order_id quantity db s in
      (received reservation_result r, (db', s'))

  unfoldable pub confirm_reservation_call : ℕ → Action Backend (Unit {0})
  confirm_reservation_call reservation_id (db, s) =
      let (r, db') = confirm_reservation_rpc c.waits reservation_id db in
      (received (λ _. tt) r, (db', s))

  unfoldable pub release_reservation_call : ℕ → Action Backend (Unit {0})
  release_reservation_call reservation_id (db, s) =
      let (r, db') = release_reservation_rpc c.waits reservation_id db in
      (received (λ _. tt) r, (db', s))

  abbrev pub inventory_client : InventoryClient
  inventory_client = record {
    State = Backend;
    reserve_seats = reserve_seats_call;
    confirm_reservation = confirm_reservation_call;
    release_reservation = release_reservation_call;
  }
