-- ===== src/Inventory/Repository/Holds.antt =====
-- What `confirm` and `release` do to the seats that a reservation holds, on every branch.
use eventsphere.Prelude.{
  refl, ◌||◌, none, Bool, inr, if◌then◌else◌, inl, Bool-cases, some, ◌≡◌, Option, ℕ,
}
use eventsphere.Prelude.Int.{ℤ, ◌+ℤ◌, ◌-ℤ◌}
use eventsphere.Storage.{Storage}
use eventsphere.Inventory.Session.{write_reservation, session_scope}
use eventsphere.Inventory.Models.{EventInventory, Reservation, Db}
use eventsphere.Inventory.Repository.{release_seats, release, confirm_seats, undisturbed, confirm}
use eventsphere.Inventory.Seats.{IsValid}
use eventsphere.Errors.{ok, not_found, err, Result}
use eventsphere.Enums.{released, expired, ReservationStatus, confirmed, pending, same_status}
use eventsphere.Inventory.Repository.Settle.{
  unchanged-release_seats, bumped, unchanged-confirm_seats, settle-found,
}
use eventsphere.Inventory.Seats.Moves.{write_inventory}

module _ ⦃S : Storage⦄ where
  -- The reservation `r` has taken a status, and the row of its event has been changed.
  abbrev pub SettledBy :
      Db
      → Reservation
      → (EventInventory → EventInventory)
      → ReservationStatus
      → Result Reservation × Db
      → Type 0
  SettledBy db r change status out =
      (inv : EventInventory) × (S.get db.inventories r.event_id ≡ some inv)
      × (out ≡ (
        ok (record r { status = status }),
        write_reservation (record r { status = status })
            (write_inventory (bumped inv (change inv)) db),
      ))

  -- The branches of `confirm`, with no other transaction in between.
  abbrev pub ConfirmedBy : Db → Option Reservation → Result Reservation × Db → Type 0
  ConfirmedBy db none out = out ≡ (err not_found, db)
  ConfirmedBy db (some r) out =
      if same_status r.status pending
      then SettledBy db r (confirm_seats r.quantity) confirmed out
      else (out ≡ (ok r, db))

  -- The branches of `release`.
  abbrev pub ReleasedBy : Bool → Db → Option Reservation → Result Reservation × Db → Type 0
  ReleasedBy is_expired db none out = out ≡ (err not_found, db)
  ReleasedBy is_expired db (some r) out =
      if same_status r.status pending || same_status r.status confirmed
      then SettledBy db r (release_seats (same_status r.status pending) r.quantity)
          (if is_expired then expired else released) out
      else (out ≡ (ok r, db))

  pub confirm_row :
      (db : Db) (id : ℕ) (o : Option Reservation)
      → IsValid db
      → S.get db.reservations id ≡ o
      → ConfirmedBy db o (session_scope (confirm undisturbed id) db)
  unfolding session_scope confirm
  confirm_row db id none valid h = rw (h, confirm)
  confirm_row db id (some r) valid h = elim (Bool-cases (same_status r.status pending)) [
    | inl is_pending ↦
        let (inv, found) = valid.home id r h in
        let key : r.id ≡ id = valid.keyed id r h in
        let stored : S.get db.reservations r.id ≡ some r = cc in
        rw (is_pending, ConfirmedBy)
          (
            inv,
            found,
            rw (h, confirm)
                (rw is_pending (
                  settle-found db valid r stored (confirm_seats r.quantity) confirmed inv found refl
                    (unchanged-confirm_seats r.quantity inv (valid.positive id r h)))),
          )
    | inr done ↦ rw (done, ConfirmedBy) (rw (h, confirm) (rw done))
  ]

  pub release_row :
      (is_expired : Bool) (db : Db) (id : ℕ) (o : Option Reservation)
      → IsValid db
      → S.get db.reservations id ≡ o
      → ReleasedBy is_expired db o (session_scope (release undisturbed is_expired id) db)
  unfolding session_scope release
  release_row is_expired db id none valid h = rw (h, release)
  release_row is_expired db id (some r) valid h =
      elim (Bool-cases (same_status r.status pending || same_status r.status confirmed)) [
        | inl holding ↦
            let (inv, found) = valid.home id r h in
            let key : r.id ≡ id = valid.keyed id r h in
            let stored : S.get db.reservations r.id ≡ some r = cc in
            rw (holding, ReleasedBy)
              (
                inv,
                found,
                rw (h, release)
                    (rw holding (
                      settle-found db valid r stored
                        (release_seats (same_status r.status pending) r.quantity)
                        (if is_expired then expired else released) inv found refl
                        (unchanged-release_seats (same_status r.status pending) r.quantity inv
                          (valid.positive id r h)))),
              )
        | inr done ↦ rw (done, ReleasedBy) (rw (h, release) (rw done))
      ]

  -- The reservation `r` has taken a status, and the two counters of its event these values; the
  -- version has moved on, and nothing else of the row has changed.
  abbrev pub Settled :
      Db
      → Reservation
      → (EventInventory → ℤ)
      → (EventInventory → ℤ)
      → ReservationStatus
      → Result Reservation × Db
      → Type 0
  Settled db r reserved_count confirmed_count status out =
      (inv : EventInventory) × (S.get db.inventories r.event_id ≡ some inv)
      × (out ≡ (
        ok (record r { status = status }),
        write_reservation (record r { status = status })
            (write_inventory
              (record {
                event_id = inv.event_id;
                total_capacity = inv.total_capacity;
                reserved_count = reserved_count inv;
                confirmed_count = confirmed_count inv;
                version = S.next_version inv.version;
              })
              db),
      ))

  -- The branches of `confirm`, with no other transaction in between.
  abbrev pub Confirmed : Db → Option Reservation → Result Reservation × Db → Type 0
  Confirmed db none out = out ≡ (err not_found, db)
  Confirmed db (some r) out =
      if same_status r.status pending
      then Settled db r (λ inv. inv.reserved_count -ℤ r.quantity)
          (λ inv. inv.confirmed_count +ℤ r.quantity) confirmed out
      else (out ≡ (ok r, db))

  -- The branches of `release`: a pending reservation gives back reserved seats, a confirmed one
  -- confirmed seats, any other nothing.
  abbrev pub Released : Bool → Db → Option Reservation → Result Reservation × Db → Type 0
  Released is_expired db none out = out ≡ (err not_found, db)
  Released is_expired db (some r) out =
      if same_status r.status pending
      then Settled db r (λ inv. inv.reserved_count -ℤ r.quantity) EventInventory.confirmed_count
          (if is_expired then expired else released) out
      else if same_status r.status confirmed
      then Settled db r EventInventory.reserved_count (λ inv. inv.confirmed_count -ℤ r.quantity)
          (if is_expired then expired else released) out
      else (out ≡ (ok r, db))

  confirm_explicit :
      (db : Db) (id : ℕ) (o : Option Reservation)
      → ConfirmedBy db o (session_scope (confirm undisturbed id) db)
      → Confirmed db o (session_scope (confirm undisturbed id) db)
  confirm_explicit db id none h = h
  confirm_explicit db id (some r) h = h

  pub release_explicit :
      (is_expired : Bool) (db : Db) (o : Option Reservation) (out : Result Reservation × Db)
      → ReleasedBy is_expired db o out
      → Released is_expired db o out
  release_explicit is_expired db none out h = h
  release_explicit is_expired db (some r) out h = elim (Bool-cases (same_status r.status pending)) [
    | inl is_pending ↦ rw (is_pending, Released) (rw (is_pending, ReleasedBy) at h)
    | inr other ↦ elim (Bool-cases (same_status r.status confirmed)) [
      | inl is_confirmed ↦
          rw (other, is_confirmed, Released) (rw (other, is_confirmed, ReleasedBy) at h)
      | inr done ↦ rw (other, done, Released) (rw (other, done, ReleasedBy) at h)
    ]
  ]

  -- On a valid database `confirm` raises NotFoundError and changes nothing, returns a reservation
  -- that is not pending as it is and changes nothing, or moves the seats of a pending one from
  -- `reserved_count` to `confirmed_count` and marks it confirmed.
  pub confirm-Confirmed :
      (db : Db) (id : ℕ)
      → IsValid db
      → Confirmed db (S.get db.reservations id) (session_scope (confirm undisturbed id) db)
  confirm-Confirmed db id valid =
      confirm_explicit db id (S.get db.reservations id)
        (confirm_row db id (S.get db.reservations id) valid refl)

  -- On a valid database `release` raises NotFoundError and changes nothing, returns a reservation
  -- that was given up before as it is and changes nothing, or takes the seats of the reservation
  -- out of the counter that holds them, `reserved_count` for a pending one and `confirmed_count` for
  -- a confirmed one, and marks it released or expired.
  pub release-Released :
      (is_expired : Bool) (db : Db) (id : ℕ)
      → IsValid db
      → Released is_expired db
          (S.get db.reservations id)
          (session_scope (release undisturbed is_expired id) db)
  release-Released is_expired db id valid =
      release_explicit is_expired db (S.get db.reservations id)
        (session_scope (release undisturbed is_expired id) db)
        (release_row is_expired db id (S.get db.reservations id) valid refl)
