-- ===== src/Inventory/Servicer.antt =====
-- services/inventory/app/grpc_handlers/inventory_servicer.py with the messages of
-- proto/inventory.proto. Ids travel as the text of a UUID, which both ends convert back, so they
-- are numbers here; the human-readable `message` fields are left out.
use eventsphere.Prelude.{false, ℕ, Bool, true, ◌/◌}
use eventsphere.Inventory.Service
use eventsphere.Errors.{Error, Result, ok, err}
use eventsphere.Enums.{ReservationStatus}
use eventsphere.Prelude.Int.{ℤ}
use eventsphere.Storage.{Storage}
use eventsphere.Inventory.Models.{Db, EventInventory, Reservation, available}
use eventsphere.Redis.{Redis}
use eventsphere.Inventory.Repository.{Attempt, Waits}
use eventsphere.Inventory.Lock.{LockRun}

-- The codes that the handlers abort with. An exception that leaves a handler reaches the client
-- as a code of its own (`unknown`).
pub data StatusCode : Type 0 where
  not_found failed_precondition aborted resource_exhausted unknown : StatusCode

pub data ProtoStatus : Type 0 where
  unspecified pending confirmed released expired : ProtoStatus

pub record ReservationResponse : Type 0 where
  pub success : Bool
  pub reservation_id : ℕ
  pub event_id : ℕ
  pub order_id : ℕ
  pub quantity : ℤ
  pub status : ProtoStatus
  pub expires_at_unix : ℕ

pub record InventoryResponse : Type 0 where
  pub success : Bool
  pub event_id : ℕ
  pub total_capacity : ℤ
  pub reserved_count : ℤ
  pub confirmed_count : ℤ
  pub available : ℤ
  pub version : ℕ

-- What a call brings the client: a response, or an AioRpcError with its code.
pub data Reply (A : Type 0) : Type 0 where
  sent : A → Reply A
  failed : StatusCode → Reply A

abbrev pub status_to_proto : ReservationStatus → ProtoStatus
status_to_proto ReservationStatus.pending = ProtoStatus.pending
status_to_proto ReservationStatus.confirmed = ProtoStatus.confirmed
status_to_proto ReservationStatus.released = ProtoStatus.released
status_to_proto ReservationStatus.expired = ProtoStatus.expired

unfoldable pub reservation_to_proto : Reservation → ReservationResponse
reservation_to_proto r = record {
  success = true;
  reservation_id = r.id;
  event_id = r.event_id;
  order_id = r.order_id;
  quantity = r.quantity;
  status = status_to_proto r.status;
  expires_at_unix = r.expires_at / 1_000_000;
}

unfoldable pub inventory_to_proto : EventInventory → InventoryResponse
unfolding available
inventory_to_proto inv = record {
  success = true;
  event_id = inv.event_id;
  total_capacity = inv.total_capacity;
  reserved_count = inv.reserved_count;
  confirmed_count = inv.confirmed_count;
  available = available inv;
  version = inv.version;
}

-- The `except` clauses of ReserveSeats.
abbrev pub reserve_code : Error → StatusCode
reserve_code Error.not_found = StatusCode.not_found
reserve_code Error.capacity_exceeded = StatusCode.failed_precondition
reserve_code Error.conflict = StatusCode.aborted
reserve_code Error.lock_acquisition = StatusCode.resource_exhausted
reserve_code _ = StatusCode.unknown

-- The `except` clause of the other handlers.
abbrev pub not_found_code : Error → StatusCode
not_found_code Error.not_found = StatusCode.not_found
not_found_code _ = StatusCode.unknown

-- A handler that catches nothing.
abbrev pub uncaught : Error → StatusCode
uncaught _ = StatusCode.unknown

abbrev pub reply : {A B : Type 0} → (Error → StatusCode) → (A → B) → Result A → Reply B
reply code to_proto (ok a) = sent (to_proto a)
reply code to_proto (err e) = failed (code e)

module _ ⦃S : Storage⦄ where
  unfoldable pub initialize_inventory_rpc : (Db → Db) → ℕ → ℤ → Db → Reply InventoryResponse × Db
  initialize_inventory_rpc meanwhile event_id total_capacity db =
      let (result, db') = Service.initialize_inventory meanwhile event_id total_capacity db in
      (reply uncaught inventory_to_proto result, db')

  unfoldable pub confirm_reservation_rpc : Waits → ℕ → Db → Reply ReservationResponse × Db
  confirm_reservation_rpc w reservation_id db =
      let (result, db') = Service.confirm_reservation w reservation_id db in
      (reply not_found_code reservation_to_proto result, db')

  unfoldable pub release_reservation_rpc : Waits → ℕ → Db → Reply ReservationResponse × Db
  release_reservation_rpc w reservation_id db =
      let (result, db') = Service.release_reservation w false reservation_id db in
      (reply not_found_code reservation_to_proto result, db')

  unfoldable pub get_availability_rpc : ℕ → Db → Reply InventoryResponse × Db
  get_availability_rpc event_id db =
      let (result, db') = Service.get_availability event_id db in
      (reply not_found_code inventory_to_proto result, db')

module _ ⦃S : Storage⦄ ⦃R : Redis⦄ where
  unfoldable pub adjust_capacity_rpc :
      LockRun → (Db → Db) → ℕ → ℤ → Db → R.State → Reply InventoryResponse × Db × R.State
  adjust_capacity_rpc l meanwhile event_id new_total_capacity db s =
      let (result, db', s') =
        Service.adjust_capacity l meanwhile event_id new_total_capacity db s in
      (reply not_found_code inventory_to_proto result, db', s')

  unfoldable pub reserve_seats_rpc :
      LockRun
      → (ℕ → Attempt)
      → ℕ
      → ℕ
      → ℕ
      → ℕ
      → ℤ
      → Db
      → R.State
      → Reply ReservationResponse × Db × R.State
  reserve_seats_rpc l attempts retry_attempts ttl_seconds event_id order_id quantity db s =
      let (result, db', s') =
        Service.reserve_seats l attempts retry_attempts ttl_seconds event_id order_id quantity db
          s in
      (reply reserve_code reservation_to_proto result, db', s')
