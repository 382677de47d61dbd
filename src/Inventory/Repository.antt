-- ===== src/Inventory/Repository.antt =====
-- services/inventory/app/repositories/inventory_repository.py, method by method.
pub mod Reserve
pub mod Settle
pub mod Holds
pub mod Safety
pub mod Capacity
pub mod Race
pub mod Serial
use eventsphere.Prelude.{
  ℕ, zero, suc, ◌+◌, ◌*◌, Bool, Option, none, some, List, map, ltb, ◌&&◌, ◌||◌, if◌then◌else◌,
}
use eventsphere.Prelude.Int.{ℤ, pos, ◌+ℤ◌, ◌-ℤ◌, ltb_ℤ, leb_ℤ}
use eventsphere.Prelude.Lists.{take, select}
use eventsphere.Errors.{
  Result, ok, err, not_found, conflict, capacity_exceeded, value_error, stale_data, integrity,
}
use eventsphere.Enums.{ReservationStatus, pending, confirmed, released, expired, same_status}
use eventsphere.Storage.{Storage}
use eventsphere.Inventory.Models.{EventInventory, available, Reservation, Db}
use eventsphere.Inventory.Session.{
  Session, Transaction, write, rollback, interfere, flush_inventory, write_reservation,
}

-- The arguments of `reserve`.
pub record Request : Type 0 where
  pub event_id : ℕ
  pub order_id : ℕ
  pub quantity : ℤ
  pub reservation_ttl_seconds : ℕ

module _ ⦃S : Storage⦄ where
  abbrev pub get_inventory : ℕ → Db → Option EventInventory
  get_inventory event_id db = S.get db.inventories event_id

  -- The flush of a new inventory row, under the primary key.
  abbrev pub inserted : EventInventory → Option EventInventory → Transaction EventInventory
  inserted inventory (some _) s = (err integrity, s)
  inserted inventory none s =
      let db : Db = record s.visible {
        inventories = S.put s.visible.inventories inventory.event_id inventory;
      } in
      (ok inventory, write db s)

  -- `meanwhile` is what other transactions commit between the read and the flush.
  unfoldable pub initialize_inventory : (Db → Db) → ℕ → ℤ → Transaction EventInventory
  initialize_inventory meanwhile event_id total_capacity s =
      elim (get_inventory event_id s.visible) [
        | some existing ↦ (ok existing, s)
        | none ↦
            let inventory : EventInventory = record {
              event_id = event_id;
              total_capacity = total_capacity;
              reserved_count = pos 0;
              confirmed_count = pos 0;
              version = S.first_version;
            } in
            let s' = interfere meanwhile s in
            inserted inventory (get_inventory event_id s'.visible) s'
      ]

  -- The end of a flush: what the UPDATE of the inventory row gave, and the object to return.
  abbrev pub flushed : {A : Type 0} → A → Option Db → Transaction A
  flushed a none s = (err stale_data, s)
  flushed a (some db) s = (ok a, write db s)

  unfoldable pub adjust_capacity : (Db → Db) → ℕ → ℤ → Transaction EventInventory
  adjust_capacity meanwhile event_id new_total_capacity s =
      elim (get_inventory event_id s.visible) [
        | none ↦ (err not_found, s)
        | some inventory ↦
            let changed : EventInventory = record inventory {
              total_capacity = new_total_capacity;
            } in
            let s' = interfere meanwhile s in
            flushed changed (flush_inventory inventory changed s'.visible) s'
      ]

  -- What one round of the retry loop meets: the transactions that others commit between its read
  -- and its flush, the clock, and the id that `uuid4` draws.
  pub record Attempt : Type 0 where
    pub meanwhile : Db → Db
    pub now : ℕ
    pub fresh_id : Db → ℕ

  pub data Round : Type 0 where
    returned : Result Reservation → Session → Round
    stale : Session → Round

  abbrev pub new_reservation : Request → Attempt → ℕ → Reservation
  new_reservation q a id = record {
    id = id;
    event_id = q.event_id;
    order_id = q.order_id;
    quantity = q.quantity;
    status = pending;
    expires_at = a.now + q.reservation_ttl_seconds * 1_000_000;
  }

  -- The flush of one round: the reserved seats and the new row go together or not at all.
  abbrev pub flush_reserve : Reservation → Option Db → Session → Round
  flush_reserve r none s = stale (rollback s)
  flush_reserve r (some db) s = returned (ok r) (write (write_reservation r db) s)

  unfoldable pub try_reserve : Request → Attempt → Session → Round
  try_reserve q a s = elim (get_inventory q.event_id s.visible) [
    | none ↦ returned (err not_found) s
    | some inventory ↦
        if ltb_ℤ (available inventory) q.quantity
        then returned (err capacity_exceeded) s
        else let changed : EventInventory = record inventory {
          reserved_count = inventory.reserved_count +ℤ q.quantity;
        } in
          let s' = interfere a.meanwhile s in
          flush_reserve (new_reservation q a (a.fresh_id s'.visible))
            (flush_inventory inventory changed s'.visible) s'
  ]

  -- `return`, or `continue` with the rounds that are left.
  abbrev pub continue : Round → Transaction Reservation → Result Reservation × Session
  continue (returned r s) others = (r, s)
  continue (stale s) others = others s

  -- `for _attempt in range(max_retries)`; `attempts n` is met with n rounds left after it.
  unfoldable pub reserve_rounds : Request → (ℕ → Attempt) → ℕ → Transaction Reservation
  reserve_rounds q attempts zero s = (err conflict, s)
  reserve_rounds q attempts (suc n) s =
      continue (try_reserve q (attempts n) s) (reserve_rounds q attempts n)

  unfoldable pub reserve : Request → (ℕ → Attempt) → ℕ → Transaction Reservation
  reserve q attempts max_retries s =
      if leb_ℤ q.quantity (pos 0)
      then (err value_error, s)
      else reserve_rounds q attempts max_retries s

  -- What other transactions commit while `confirm` or `release` waits: between the reads of the
  -- reservation and of the inventory, and between that and the flush.
  pub record Waits : Type 0 where
    pub before_inventory : Db → Db
    pub before_flush : Db → Db

  abbrev pub undisturbed : Waits
  undisturbed = record { before_inventory = λ db. db; before_flush = λ db. db }

  abbrev pub flush_settled : Reservation → Option Db → Transaction Reservation
  flush_settled r none s = (err stale_data, s)
  flush_settled r (some db) s = (ok r, write (write_reservation r db) s)

  -- The common end of `confirm` and `release`: the counters move, if there is an inventory, and
  -- the reservation takes its new status.
  unfoldable pub settle :
      Waits
      → (EventInventory → EventInventory)
      → Reservation
      → ReservationStatus
      → Transaction Reservation
  settle w change r status s =
      let r' : Reservation = record r { status = status } in
      let s₁ = interfere w.before_inventory s in
      elim (get_inventory r.event_id s₁.visible) [
        | none ↦
            let s₂ = interfere w.before_flush s₁ in
            (ok r', write (write_reservation r' s₂.visible) s₂)
        | some inventory ↦
            let s₂ = interfere w.before_flush s₁ in
            flush_settled r' (flush_inventory inventory (change inventory) s₂.visible) s₂
      ]

  abbrev pub confirm_seats : ℤ → EventInventory → EventInventory
  confirm_seats quantity inventory = record inventory {
    reserved_count = inventory.reserved_count -ℤ quantity;
    confirmed_count = inventory.confirmed_count +ℤ quantity;
  }

  abbrev pub release_seats : Bool → ℤ → EventInventory → EventInventory
  release_seats is_pending quantity inventory = record inventory {
    reserved_count =
        if is_pending then inventory.reserved_count -ℤ quantity else inventory.reserved_count;
    confirmed_count =
        if is_pending then inventory.confirmed_count else inventory.confirmed_count -ℤ quantity;
  }

  unfoldable pub confirm : Waits → ℕ → Transaction Reservation
  confirm w reservation_id s = elim (S.get s.visible.reservations reservation_id) [
    | none ↦ (err not_found, s)
    | some r ↦
        if same_status r.status pending
        then settle w (confirm_seats r.quantity) r confirmed s
        else (ok r, s)
  ]

  unfoldable pub release : Waits → Bool → ℕ → Transaction Reservation
  release w is_expired reservation_id s = elim (S.get s.visible.reservations reservation_id) [
    | none ↦ (err not_found, s)
    | some r ↦
        if same_status r.status pending || same_status r.status confirmed
        then settle w (release_seats (same_status r.status pending) r.quantity) r
            (if is_expired then expired else released) s
        else (ok r, s)
  ]

  abbrev pub is_expired_pending : ℕ → ℕ × Reservation → Bool
  is_expired_pending now (_, r) = same_status r.status pending && ltb r.expires_at now

  unfoldable pub find_expired_pending : ℕ → ℕ → Db → List Reservation
  find_expired_pending now limit db =
      map (λ row. row.1) (take limit (select (is_expired_pending now) (S.rows db.reservations)))
