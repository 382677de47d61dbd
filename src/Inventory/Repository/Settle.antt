-- ===== src/Inventory/Repository/Settle.antt =====
-- `confirm` and `release` with no other transaction in between: the closed form of what they
-- write, and the invariant.
use eventsphere.Prelude.{Bool, ◌||◌, sym, true, ◌≡◌, false, none, some, arith, ==_refl}
use eventsphere.Prelude.Int.{int_laws, ℤ, pos, ◌-ℤ◌, ◌<ℤ◌}
use eventsphere.Errors.{ok}
use eventsphere.Enums.{expired, released, confirmed, same_status, ReservationStatus, pending}
use eventsphere.Storage.{Storage}
use eventsphere.Inventory.Models.{EventInventory, Reservation, Db}
use eventsphere.Inventory.Session.{
  begin, close_scope, unchanged, flush_inventory, write_reservation,
}
use eventsphere.Inventory.Seats.{Counted, IsValid}
use eventsphere.Inventory.Seats.Moves.{settle-IsValid, write_inventory}
use eventsphere.Inventory.Repository.{undisturbed, settle, confirm_seats, release_seats}

module _ ⦃S : Storage⦄ where
  -- The row after an UPDATE.
  abbrev pub bumped : EventInventory → EventInventory → EventInventory
  bumped old new = record new { version = S.next_version old.version }

  -- A flush finds the row that the same session has just read.
  pub flush_inventory_self :
      (old new : EventInventory) (db : Db)
      → new.event_id ≡ old.event_id
      → S.get db.inventories old.event_id ≡ some old
      → unchanged old new ≡ false
      → flush_inventory old new db ≡ some (write_inventory (bumped old new) db)
  unfolding flush_inventory
  flush_inventory_self old new db same found changed =
      ground (arith, found, changed, ==_refl old.version)

  pub unchanged-confirm_seats :
      (q : ℤ) (inv : EventInventory) → pos 0 <ℤ q → unchanged inv (confirm_seats q inv) ≡ false
  unfolding ◌-ℤ◌
  unchanged-confirm_seats q inv h = ground arith

  pub unchanged-release_seats :
      (is_pending : Bool) (q : ℤ) (inv : EventInventory)
      → pos 0 <ℤ q
      → unchanged inv (release_seats is_pending q inv) ≡ false
  unfolding ◌-ℤ◌
  unchanged-release_seats true q inv h = ground arith
  unchanged-release_seats false q inv h = ground arith

  module _ (db : Db) (valid : IsValid db) (r : Reservation)
      (stored : S.get db.reservations r.id ≡ some r) where
    pub settle-found :
        (change : EventInventory → EventInventory) (status : ReservationStatus)
        (inv : EventInventory)
        → S.get db.inventories r.event_id ≡ some inv
        → (change inv).event_id ≡ inv.event_id
        → unchanged inv (change inv) ≡ false
        → close_scope (settle undisturbed change r status (begin db)) ≡ (
          ok (record r { status = status }),
          write_reservation
              (record r { status = status })
              (write_inventory (bumped inv (change inv)) db),
        )
    unfolding settle
    settle-found change status inv found same changed =
        let key : inv.event_id ≡ r.event_id = (valid.counted r.event_id inv found).keyed in
        let found' : S.get db.inventories inv.event_id ≡ some inv = cc in
        rw (found, settle) (rw (flush_inventory_self inv (change inv) db same found' changed))

    settle-missing :
        (change : EventInventory → EventInventory) (status : ReservationStatus)
        → S.get db.inventories r.event_id ≡ none
        → close_scope (settle undisturbed change r status (begin db))
          ≡ (ok (record r { status = status }), write_reservation (record r { status = status }) db)
    unfolding settle
    settle-missing change status missing = rw (missing, settle)

    -- The seats of a pending reservation become confirmed ones.
    pub confirmed-IsValid :
        (inv : EventInventory)
        → S.get db.inventories r.event_id ≡ some inv
        → same_status r.status pending ≡ true
        → IsValid (
            write_reservation
              (record r { status = confirmed })
              (write_inventory (bumped inv (confirm_seats r.quantity inv)) db))
    confirmed-IsValid inv found is_pending =
        let was : Counted db r.event_id inv = valid.counted r.event_id inv found in
        settle-IsValid (bumped inv (confirm_seats r.quantity inv)) (record r { status = confirmed })
          db valid inv r (cc) stored (sym was.keyed) (sym was.keyed) (valid.positive r.id r stored)
          (grind (int_laws, was.keyed)) (grind (int_laws, was.keyed)) (omega (int_laws, was.fits))

    -- The seats of a reservation that is given up go back.
    pub released-IsValid :
        (inv : EventInventory) (status : ReservationStatus)
        → S.get db.inventories r.event_id ≡ some inv
        → (same_status r.status pending || same_status r.status confirmed) ≡ true
        → (same_status status released || same_status status expired) ≡ true
        → IsValid (
            write_reservation
              (record r { status = status })
              (write_inventory
                (bumped inv (release_seats (same_status r.status pending) r.quantity inv))
                db))
    released-IsValid inv status found holding gone =
        let was : Counted db r.event_id inv = valid.counted r.event_id inv found in
        settle-IsValid (bumped inv (release_seats (same_status r.status pending) r.quantity inv))
          (record r { status = status }) db valid inv r (cc) stored (sym was.keyed) (sym was.keyed)
          (valid.positive r.id r stored) (grind (int_laws, was.keyed)) (grind (int_laws, was.keyed))
          (grind (int_laws, was.fits, valid.positive r.id r stored))
