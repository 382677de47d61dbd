-- ===== src/Inventory/Ledger.antt =====
-- The contract of the inventory service, without its tables: the capacity of each event, the
-- seats taken of it, and what each reservation holds. Versions, times, orders and the order of the
-- rows are forgotten, and so is whether seats were given back or have expired.
pub mod Moves
pub mod Refines
pub mod Tests
use eventsphere.Prelude.{◌≢◌, ℕ, Option, none, some, ◌≡◌, ◌==◌, if◌then◌else◌}
use eventsphere.Prelude.Int.{ℤ, pos, ◌+ℤ◌, ◌-ℤ◌, ◌≤ℤ◌, ◌<ℤ◌}
use eventsphere.Enums.{ReservationStatus}
use eventsphere.Storage.{Storage}
use eventsphere.Inventory.Models.{EventInventory, Reservation, Db}
use eventsphere.Inventory.Seats.{seats}

pub data HoldState : Type 0 where
  waiting sold closed : HoldState

pub record Hold : Type 0 where
  pub event_id : ℕ
  pub quantity : ℤ
  pub state : HoldState

pub record Ledger : Type 0 where
  pub capacity : ℕ → Option ℤ
  pub taken : ℕ → ℤ
  pub hold : ℕ → Option Hold

abbrev pub set : {A : Type 0} → ℕ → A → (ℕ → A) → ℕ → A
set k a f j = if k == j then a else f j

-- What may happen to a ledger.
pub data Move (l l' : Ledger) : Type 0 where
  opens :
      (e : ℕ) (c : ℤ)
      → l.capacity e ≡ none
      → pos 0 ≤ℤ c
      → l' ≡ record l { capacity = set e (some c) l.capacity }
      → Move l l'
  resizes :
      (e : ℕ) (old c : ℤ)
      → l.capacity e ≡ some old
      → l.taken e ≤ℤ c
      → l' ≡ record l { capacity = set e (some c) l.capacity }
      → Move l l'
  takes :
      (id e : ℕ) (q c : ℤ)
      → l.hold id ≡ none
      → l.capacity e ≡ some c
      → pos 0 <ℤ q
      → l.taken e +ℤ q ≤ℤ c
      → l' ≡ record l {
        taken = set e (l.taken e +ℤ q) l.taken;
        hold = set id (some (record { event_id = e; quantity = q; state = waiting })) l.hold;
      }
      → Move l l'
  sells :
      (id : ℕ) (h : Hold)
      → l.hold id ≡ some h
      → h.state ≡ waiting
      → l' ≡ record l { hold = set id (some (record h { state = sold })) l.hold }
      → Move l l'
  closes :
      (id : ℕ) (h : Hold)
      → l.hold id ≡ some h
      → h.state ≢ closed
      → l' ≡ record l {
        taken = set h.event_id (l.taken h.event_id -ℤ h.quantity) l.taken;
        hold = set id (some (record h { state = closed })) l.hold;
      }
      → Move l l'

pub data Runs (l : Ledger) : Ledger → Type 0 where
  stay : Runs l l
  go : {l' l'' : Ledger} → Runs l l' → Move l' l'' → Runs l l''

-- How the tables are read as a ledger.
abbrev pub hold_state : ReservationStatus → HoldState
hold_state ReservationStatus.pending = waiting
hold_state ReservationStatus.confirmed = sold
hold_state ReservationStatus.released = closed
hold_state ReservationStatus.expired = closed

abbrev pub capacity_of : Option EventInventory → Option ℤ
capacity_of none = none
capacity_of (some inv) = some inv.total_capacity

abbrev pub hold_of_row : Reservation → Hold
hold_of_row r = record { event_id = r.event_id; quantity = r.quantity; state = hold_state r.status }

abbrev pub hold_of : Option Reservation → Option Hold
hold_of none = none
hold_of (some r) = some (hold_of_row r)

module _ ⦃S : Storage⦄ where
  unfoldable pub ledger : Db → Ledger
  ledger db = record {
    capacity = λ e. capacity_of (S.get db.inventories e);
    taken = λ e. seats ReservationStatus.pending e db +ℤ seats ReservationStatus.confirmed e db;
    hold = λ id. hold_of (S.get db.reservations id);
  }
