-- ===== src/Inventory/Seats.antt =====
-- The invariant of the inventory schema: the counters of an event are the seats that its
-- reservations hold, and together they fit the capacity.
pub mod Moves
pub mod Evolution
use eventsphere.Prelude.{ℕ, ◌<◌, ◌≤◌, ◌≡◌, ◌⊎◌, Option, none, some, ◌==◌, ◌&&◌, if◌then◌else◌}
use eventsphere.Prelude.Int.{ℤ, pos, ◌+ℤ◌, ◌≤ℤ◌, ◌<ℤ◌}
use eventsphere.Prelude.Lists.{total}
use eventsphere.Enums.{ReservationStatus, pending, confirmed, same_status}
use eventsphere.Storage.{Storage}
use eventsphere.Inventory.Models.{EventInventory, Reservation, Db}

-- The seats that a row of `reservations` holds of an event, in a status.
abbrev pub held : ReservationStatus → ℕ → ℕ × Reservation → ℤ
held status event_id (_, r) =
    if r.event_id == event_id && same_status r.status status then r.quantity else pos 0

module _ ⦃S : Storage⦄ where
  abbrev pub seats : ReservationStatus → ℕ → Db → ℤ
  seats status event_id db = total (held status event_id) (S.rows db.reservations)

  -- The counters of one event.
  pub record Counted (db : Db) (k : ℕ) (inv : EventInventory) : Type 0 where
    pub keyed : inv.event_id ≡ k
    pub reserved : inv.reserved_count ≡ seats pending k db
    pub confirmed : inv.confirmed_count ≡ seats confirmed k db
    pub fits : inv.reserved_count +ℤ inv.confirmed_count ≤ℤ inv.total_capacity

  pub record IsValid (db : Db) : Type 0 where
    pub counted :
        (k : ℕ) (inv : EventInventory) → S.get db.inventories k ≡ some inv → Counted db k inv
    pub keyed : (k : ℕ) (r : Reservation) → S.get db.reservations k ≡ some r → r.id ≡ k
    pub positive :
        (k : ℕ) (r : Reservation) → S.get db.reservations k ≡ some r → pos 0 <ℤ r.quantity
    -- the foreign key to `event_inventory`: no reservation is for an event without a row
    pub unheld :
        (status : ReservationStatus) (k : ℕ)
        → S.get db.inventories k ≡ none
        → seats status k db ≡ pos 0
    pub home :
        (k : ℕ) (r : Reservation)
        → S.get db.reservations k ≡ some r
        → (inv : EventInventory) × (S.get db.inventories r.event_id ≡ some inv)

  -- What a transaction may do to the inventory rows, as others see it: no row goes away, and a row
  -- that has kept its version has kept all else.
  pub record Evolves (db db' : Db) : Type 0 where
    pub row :
        (k : ℕ) (inv : EventInventory)
        → S.get db.inventories k ≡ some inv
        → (inv' : EventInventory) × (S.get db'.inventories k ≡ some inv')
          × (inv'.version ≡ inv.version → inv' ≡ inv)
          × (inv.version ≤ inv'.version)

  -- What every transaction promises the others: the invariant, and honest versions.
  pub record IsNext (db db' : Db) : Type 0 where
    pub valid : IsValid db'
    pub evolves : Evolves db db'
