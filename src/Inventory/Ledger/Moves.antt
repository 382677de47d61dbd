-- ===== src/Inventory/Ledger/Moves.antt =====
-- The writes of the operations, as moves of the ledger.
use mathlib.Core.Path.{subst}
use eventsphere.Prelude.{
  sym, ◌∙◌, ◌≢◌, false, true, ==_iff, ◌&&◌, ◌||◌, ◌==◌, if◌then◌else◌, Bool, ℕ, none, some, ◌≡◌, ap,
  refl, arith, inl, inr, Bool-cases,
}
use eventsphere.Inventory.Ledger.{
  closes, closed, sells, hold_state, waiting, hold_of_row, takes, opens, resizes, capacity_of,
  hold_of, Ledger, Move, Runs, stay, go, ledger, set,
}
use eventsphere.Inventory.Seats.Moves.{seats-update, seats-insert, write_inventory}
use eventsphere.Storage.{Storage}
use eventsphere.Inventory.Models.{Db, EventInventory, Reservation}
use eventsphere.Enums.{same_status, ReservationStatus}
use eventsphere.Inventory.Seats.{held, seats}
use eventsphere.Prelude.Int.{◌-ℤ◌, int_laws, ℤ, ◌+ℤ◌, ◌<ℤ◌, ◌≤ℤ◌, pos}
use eventsphere.Inventory.Session.{write_reservation}

ledger_ext :
    (l l' : Ledger)
    → ((e : ℕ) → l.capacity e ≡ l'.capacity e)
    → ((e : ℕ) → l.taken e ≡ l'.taken e)
    → ((id : ℕ) → l.hold id ≡ l'.hold id)
    → l ≡ l'
ledger_ext l l' p q r =
    λ i. record { capacity = λ e. p e i; taken = λ e. q e i; hold = λ id. r id i }

pub Runs-trans : {a b c : Ledger} → Runs a b → Runs b c → Runs a c
Runs-trans p stay = p
Runs-trans p (go q m) = go (Runs-trans p q) m

sum_new :
    (a b x y : ℤ) {w x' y' : ℤ} → a +ℤ b ≡ w → x' ≡ a +ℤ x → y' ≡ b +ℤ y → x' +ℤ y' ≡ w +ℤ (x +ℤ y)
sum_new a b x y p q r = grind int_laws

sum_changed :
    (a b a' b' x y x' y' : ℤ) {w w' : ℤ}
    → a +ℤ b ≡ w
    → a' +ℤ b' ≡ w'
    → a +ℤ x' ≡ a' +ℤ x
    → b +ℤ y' ≡ b' +ℤ y
    → w +ℤ (x' +ℤ y') ≡ w' +ℤ (x +ℤ y)
sum_changed a b a' b' x y x' y' p q r s = grind int_laws

plus_none : (w x : ℤ) {y : ℤ} → y ≡ w +ℤ x → w ≡ pos 0 → y ≡ x
plus_none w x p q = grind int_laws

plus_some : (w x q : ℤ) {y : ℤ} → y ≡ w +ℤ x → w ≡ q → y ≡ x +ℤ q
plus_some w x q p r = grind int_laws

same_worth : (w w' x : ℤ) {y : ℤ} → w +ℤ y ≡ w' +ℤ x → w ≡ w' → y ≡ x
same_worth w w' x p q = grind int_laws

lost_worth : (w w' x q : ℤ) {y : ℤ} → w +ℤ y ≡ w' +ℤ x → w ≡ q → w' ≡ pos 0 → y ≡ x -ℤ q
lost_worth w w' x q p e f = grind int_laws

module _ ⦃S : Storage⦄ where
  -- A write to an inventory row.
  capacity-write :
      (inv : EventInventory) (db : Db) (e : ℕ)
      → capacity_of (S.get (write_inventory inv db).inventories e)
        ≡ set inv.event_id (some inv.total_capacity) (λ k. capacity_of (S.get db.inventories k)) e
  capacity-write inv db e = ground (arith, S.get-put db.inventories inv.event_id e inv)

  hold-write :
      (r : Reservation) (db : Db) (id : ℕ)
      → hold_of (S.get (write_reservation r db).reservations id)
        ≡ set r.id (some (hold_of_row r)) (λ k. hold_of (S.get db.reservations k)) id
  hold-write r db id = ground (arith, S.get-put db.reservations r.id id r)

  -- Writing the capacity that is there changes nothing.
  capacity-same :
      (inv old : EventInventory) (db : Db) (e : ℕ)
      → S.get db.inventories inv.event_id ≡ some old
      → inv.total_capacity ≡ old.total_capacity
      → capacity_of (S.get (write_inventory inv db).inventories e)
        ≡ capacity_of (S.get db.inventories e)
  capacity-same inv old db e found same =
      ground (arith, S.get-put db.inventories inv.event_id e inv)

  -- The seats that a row takes of an event.
  abbrev pub live : ReservationStatus → Bool
  live status =
      same_status status ReservationStatus.pending || same_status status ReservationStatus.confirmed

  abbrev worth : ℕ → Reservation → ℤ
  worth e r = if r.event_id == e && live r.status then r.quantity else pos 0

  worth-held :
      (e : ℕ) (r : Reservation)
      → held ReservationStatus.pending e (r.id, r) +ℤ held ReservationStatus.confirmed e (r.id, r)
        ≡ worth e r
  unfolding ◌+ℤ◌
  worth-held e r = elim (Bool-cases (r.event_id == e)) [
    | inl mine ↦ rw mine (by_status r.status r.quantity)
    | inr other ↦ rw other refl
  ]
    where
      by_status :
          (status : ReservationStatus) (q : ℤ)
          → (if same_status status ReservationStatus.pending then q else pos 0)
              +ℤ (if same_status status ReservationStatus.confirmed then q else pos 0)
            ≡ (if live status then q else pos 0)
      by_status ReservationStatus.pending q = ground arith
      by_status ReservationStatus.confirmed q = ground arith
      by_status ReservationStatus.released q = refl
      by_status ReservationStatus.expired q = refl

  abbrev pub taken_of : ℕ → Db → ℤ
  taken_of e db = seats ReservationStatus.pending e db +ℤ seats ReservationStatus.confirmed e db

  taken-insert :
      (e : ℕ) (r : Reservation) (db : Db)
      → S.get db.reservations r.id ≡ none
      → taken_of e (write_reservation r db) ≡ worth e r +ℤ taken_of e db
  taken-insert e r db fresh =
      sum_new _ _ _ _ (worth-held e r) (seats-insert ReservationStatus.pending e r db fresh)
        (seats-insert ReservationStatus.confirmed e r db fresh)

  taken-update :
      (e : ℕ) (old r : Reservation) (db : Db)
      → S.get db.reservations r.id ≡ some old
      → old.id ≡ r.id
      → worth e old +ℤ taken_of e (write_reservation r db) ≡ worth e r +ℤ taken_of e db
  taken-update e old r db stored same =
      sum_changed _ _ _ _ _ _ _ _
        (subst
          (λ k.
            held ReservationStatus.pending e (k, old) +ℤ held ReservationStatus.confirmed e (k, old)
            ≡ worth e old)
          same (worth-held e old))
        (worth-held e r) (seats-update ReservationStatus.pending e old r db stored)
        (seats-update ReservationStatus.confirmed e old r db stored)

  pub open_Move :
      (inv : EventInventory) (db : Db)
      → S.get db.inventories inv.event_id ≡ none
      → pos 0 ≤ℤ inv.total_capacity
      → Move (ledger db) (ledger (write_inventory inv db))
  unfolding ledger
  open_Move inv db missing room =
      opens inv.event_id inv.total_capacity (ap capacity_of missing) room
        (ledger_ext _ _ (capacity-write inv db) (λ e. refl) (λ id. refl))

  pub resize_Move :
      (inv old : EventInventory) (db : Db)
      → S.get db.inventories inv.event_id ≡ some old
      → seats ReservationStatus.pending inv.event_id db
          +ℤ seats ReservationStatus.confirmed inv.event_id db
        ≤ℤ inv.total_capacity
      → Move (ledger db) (ledger (write_inventory inv db))
  unfolding ledger
  resize_Move inv old db found fits =
      resizes inv.event_id old.total_capacity inv.total_capacity (ap capacity_of found) fits
        (ledger_ext _ _ (capacity-write inv db) (λ e. refl) (λ id. refl))

  -- A new pending row.
  pub take_Move :
      (inv old : EventInventory) (r : Reservation) (db : Db)
      → S.get db.inventories inv.event_id ≡ some old
      → inv.total_capacity ≡ old.total_capacity
      → S.get db.reservations r.id ≡ none
      → r.event_id ≡ inv.event_id
      → r.status ≡ ReservationStatus.pending
      → pos 0 <ℤ r.quantity
      → (seats ReservationStatus.pending inv.event_id db
            +ℤ seats ReservationStatus.confirmed inv.event_id db)
          +ℤ r.quantity
        ≤ℤ old.total_capacity
      → Move (ledger db) (ledger (write_reservation r (write_inventory inv db)))
  unfolding ledger
  take_Move inv old r db found same fresh home is_pending positive room =
      takes r.id inv.event_id r.quantity old.total_capacity (ap hold_of fresh)
        (ap capacity_of found) positive room
        (ledger_ext _ _ (λ e. capacity-same inv old db e found same) (λ e. taken-set e)
          (λ id. taken_hold id))
    where
      taken-set :
          (e : ℕ)
          → taken_of e (write_reservation r (write_inventory inv db))
            ≡ set inv.event_id (taken_of inv.event_id db +ℤ r.quantity) (λ k. taken_of k db) e
      taken-set e = elim (Bool-cases (inv.event_id == e)) [
        | inl mine ↦
            let key : inv.event_id ≡ e = (==_iff inv.event_id e).0 mine in
            rw (mine, key)
              (plus_some (worth e r) (taken_of e db) r.quantity
                (taken-insert e r (write_inventory inv db) fresh)
                (ground (arith, home, is_pending, key)))
        | inr other ↦ rw other (
            plus_none (worth e r) (taken_of e db) (taken-insert e r (write_inventory inv db) fresh)
              (ground (arith, home, other)))
      ]

      taken_hold :
          (id : ℕ)
          → hold_of (S.get (write_reservation r db).reservations id)
            ≡ set r.id
                (some (record { event_id = inv.event_id; quantity = r.quantity; state = waiting }))
                (λ k. hold_of (S.get db.reservations k))
                id
      taken_hold id = ground (arith, S.get-put db.reservations r.id id r)

  -- A row that changes its status, together with the row of its event.
  module _ (new old : EventInventory) (r : Reservation) (db : Db)
      (found : S.get db.inventories new.event_id ≡ some old)
      (same : new.total_capacity ≡ old.total_capacity)
      (stored : S.get db.reservations r.id ≡ some r) where
    abbrev pub with_status : ReservationStatus → Reservation
    with_status status = record r { status = status }

    abbrev pub after : ReservationStatus → Db
    after status = write_reservation (with_status status) (write_inventory new db)

    moved_taken :
        (e : ℕ) (status : ReservationStatus)
        → worth e r +ℤ taken_of e (after status) ≡ worth e (with_status status) +ℤ taken_of e db
    moved_taken e status =
        taken-update e r (with_status status) (write_inventory new db) stored refl

    moved_hold :
        (status : ReservationStatus) (id : ℕ)
        → hold_of (S.get (after status).reservations id)
          ≡ set r.id
              (some (record (hold_of_row r) { state = hold_state status }))
              (λ k. hold_of (S.get db.reservations k))
              id
    moved_hold status id = ground (arith, S.get-put db.reservations r.id id (with_status status))

    pub sell_Move :
        r.status ≡ ReservationStatus.pending
        → Move (ledger db) (ledger (after ReservationStatus.confirmed))
    unfolding ledger
    sell_Move is_pending =
        sells r.id (hold_of_row r) (ap hold_of stored) (ap hold_state is_pending) (
          ledger_ext _ _ (λ e. capacity-same new old db e found same) kept_taken
            (moved_hold ReservationStatus.confirmed))
      where
        kept_taken : (e : ℕ) → taken_of e (after ReservationStatus.confirmed) ≡ taken_of e db
        kept_taken e =
            same_worth (worth e r) _ _ (moved_taken e ReservationStatus.confirmed)
              (ground (arith, is_pending))

    pub close_Move :
        (status : ReservationStatus)
        → live r.status ≡ true
        → live status ≡ false
        → Move (ledger db) (ledger (after status))
    unfolding ledger
    close_Move status was_live gone =
        closes r.id (hold_of_row r) (ap hold_of stored) (open_state r.status was_live)
          (ledger_ext _ _ (λ e. capacity-same new old db e found same) given_back hold_closed)
      where
        open_state : (status : ReservationStatus) → live status ≡ true → hold_state status ≢ closed
        open_state ReservationStatus.pending h p = absurd (cc)
        open_state ReservationStatus.confirmed h p = absurd (cc)
        open_state ReservationStatus.released h p = absurd (cc)
        open_state ReservationStatus.expired h p = absurd (cc)

        closed_state :
            (status : ReservationStatus) → live status ≡ false → hold_state status ≡ closed
        closed_state ReservationStatus.pending h = absurd (cc)
        closed_state ReservationStatus.confirmed h = absurd (cc)
        closed_state ReservationStatus.released h = refl
        closed_state ReservationStatus.expired h = refl

        given_back :
            (e : ℕ)
            → taken_of e (after status)
              ≡ set r.event_id (taken_of r.event_id db -ℤ r.quantity) (λ k. taken_of k db) e
        given_back e = elim (Bool-cases (r.event_id == e)) [
          | inl mine ↦
              let key : r.event_id ≡ e = (==_iff r.event_id e).0 mine in
              rw mine (
                lost_worth (worth e r) _ _ r.quantity (moved_taken e status)
                  (ground (arith, was_live, key)) (ground (arith, gone))
                ∙ ap (λ (k : ℕ). taken_of k db -ℤ r.quantity) (sym key))
          | inr other ↦
              rw other (same_worth (worth e r) _ _ (moved_taken e status) (ground (arith, other)))
        ]

        hold_closed :
            (id : ℕ)
            → hold_of (S.get (after status).reservations id)
              ≡ set r.id
                  (some (record (hold_of_row r) { state = closed }))
                  (λ k. hold_of (S.get db.reservations k))
                  id
        hold_closed id = rw (← closed_state status gone) (moved_hold status id)
