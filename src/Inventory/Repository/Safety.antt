-- ===== src/Inventory/Repository/Safety.antt =====
-- `confirm` and `release` keep the invariant, on every branch.
use eventsphere.Prelude.{
  refl, false, true, none, if◌then◌else◌, inr, ◌||◌, inl, Bool-cases, some, ◌≡◌, Option, Bool, ℕ,
}
use eventsphere.Storage.{Storage}
use eventsphere.Inventory.Models.{EventInventory, Reservation, Db}
use eventsphere.Errors.{Result}
use eventsphere.Inventory.Seats.{Evolves, IsNext, IsValid}
use eventsphere.Inventory.Repository.Holds.{confirm_row, release_row, ConfirmedBy, ReleasedBy}
use eventsphere.Enums.{ReservationStatus, released, expired, confirmed, pending, same_status}
use eventsphere.Inventory.Repository.Settle.{bumped, released-IsValid, confirmed-IsValid}
use eventsphere.Inventory.Session.{write_reservation, session_scope}
use eventsphere.Inventory.Repository.{confirm_seats, release_seats, undisturbed, release, confirm}
use eventsphere.Inventory.Seats.Evolution.{write-Evolves, Evolves-write_reservation, IsNext-refl}
use eventsphere.Inventory.Seats.Moves.{write_inventory}

gone :
    (is_expired : Bool)
    → (same_status (if is_expired then expired else released) released
        || same_status (if is_expired then expired else released) expired)
      ≡ true
gone true = refl
gone false = refl

module _ ⦃S : Storage⦄ where
  settled-Evolves :
      (db : Db) (valid : IsValid db) (r : Reservation) (change : EventInventory → EventInventory)
      (status : ReservationStatus) (inv : EventInventory)
      → S.get db.inventories r.event_id ≡ some inv
      → (change inv).event_id ≡ inv.event_id
      → Evolves db (
          write_reservation
            (record r { status = status })
            (write_inventory (bumped inv (change inv)) db))
  settled-Evolves db valid r change status inv found same =
      let key : inv.event_id ≡ r.event_id = (valid.counted r.event_id inv found).keyed in
      let found' : S.get db.inventories (change inv).event_id ≡ some inv = cc in
      Evolves-write_reservation (record r { status = status })
        (write-Evolves inv (bumped inv (change inv)) db found' (S.lt-next_version inv.version))

  Confirmed-IsNext :
      (db : Db) (id : ℕ) (o : Option Reservation) (out : Result Reservation × Db)
      → IsValid db
      → S.get db.reservations id ≡ o
      → ConfirmedBy db o out
      → IsNext db out.1
  Confirmed-IsNext db id none out valid h moved = rw moved (IsNext-refl db valid)
  Confirmed-IsNext db id (some r) out valid h moved =
      elim (Bool-cases (same_status r.status pending)) [
        | inl is_pending ↦
            let (inv, found, done) = rw (is_pending, ConfirmedBy) at moved in
            let key : r.id ≡ id = valid.keyed id r h in
            let stored : S.get db.reservations r.id ≡ some r = cc in
            rw done (record {
              valid = confirmed-IsValid db valid r stored inv found is_pending;
              evolves =
                  settled-Evolves db valid r (confirm_seats r.quantity) confirmed inv found refl;
            })
        | inr done ↦ rw (rw (done, ConfirmedBy) at moved) (IsNext-refl db valid)
      ]

  Released-IsNext :
      (is_expired : Bool) (db : Db) (id : ℕ) (o : Option Reservation)
      (out : Result Reservation × Db)
      → IsValid db
      → S.get db.reservations id ≡ o
      → ReleasedBy is_expired db o out
      → IsNext db out.1
  Released-IsNext is_expired db id none out valid h moved = rw moved (IsNext-refl db valid)
  Released-IsNext is_expired db id (some r) out valid h moved =
      elim (Bool-cases (same_status r.status pending || same_status r.status confirmed)) [
        | inl holding ↦
            let (inv, found, done) = rw (holding, ReleasedBy) at moved in
            let key : r.id ≡ id = valid.keyed id r h in
            let stored : S.get db.reservations r.id ≡ some r = cc in
            rw done (record {
              valid =
                  released-IsValid db valid r stored inv (if is_expired then expired else released)
                    found holding (gone is_expired);
              evolves =
                  settled-Evolves db valid r
                    (release_seats (same_status r.status pending) r.quantity)
                    (if is_expired then expired else released) inv found refl;
            })
        | inr done ↦ rw (rw (done, ReleasedBy) at moved) (IsNext-refl db valid)
      ]

  -- `confirm` keeps the invariant and moves the version of what it changes, whether it moves
  -- seats, changes nothing or raises.
  pub confirm-IsNext :
      (db : Db) (id : ℕ) → IsValid db → IsNext db (session_scope (confirm undisturbed id) db).1
  confirm-IsNext db id valid =
      Confirmed-IsNext db id (S.get db.reservations id) _ valid refl
        (confirm_row db id (S.get db.reservations id) valid refl)

  -- `release` keeps the invariant and moves the version of what it changes, whether it gives
  -- seats back, changes nothing or raises.
  pub release-IsNext :
      (is_expired : Bool) (db : Db) (id : ℕ)
      → IsValid db
      → IsNext db (session_scope (release undisturbed is_expired id) db).1
  release-IsNext is_expired db id valid =
      Released-IsNext is_expired db id (S.get db.reservations id) _ valid refl
        (release_row is_expired db id (S.get db.reservations id) valid refl)
