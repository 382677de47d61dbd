-- ===== src/Inventory/Seats/Moves.antt =====
-- One UPDATE of an inventory row together with one INSERT or UPDATE of a reservation.
use eventsphere.Prelude.{
  ℕ, ◌≡◌, refl, sym, ◌∙◌, none, some, false, arith, inl, inr, Bool-cases, ◌==◌, ==_iff,
}
use eventsphere.Prelude.Int.{ℤ, pos, ◌+ℤ◌, ◌≤ℤ◌, ◌<ℤ◌, int_laws}
use eventsphere.Enums.{ReservationStatus, pending, confirmed}
use eventsphere.Storage.{Storage}
use eventsphere.Storage.Totals.{total-insert, total-update}
use eventsphere.Inventory.Models.{EventInventory, Reservation, Db}
use eventsphere.Inventory.Session.{write_reservation}
use eventsphere.Inventory.Seats.{held, seats, Counted, IsValid}

-- A counter that moves by what a row gains stays equal to the sum that moves by it.
follows :
    (lost gained : ℤ) {count count' sum sum' : ℤ}
    → count ≡ sum
    → lost +ℤ count' ≡ gained +ℤ count
    → lost +ℤ sum' ≡ gained +ℤ sum
    → count' ≡ sum'
follows lost gained e p q = grind int_laws

stays :
    (lost gained : ℤ) {sum sum' : ℤ}
    → lost ≡ pos 0
    → gained ≡ pos 0
    → lost +ℤ sum' ≡ gained +ℤ sum
    → sum' ≡ sum
stays lost gained p q e = grind int_laws

module _ ⦃S : Storage⦄ where
  abbrev pub write_inventory : EventInventory → Db → Db
  write_inventory inv db = record db { inventories = S.put db.inventories inv.event_id inv }

  -- A reservation is worth nothing to another event.
  held-ne :
      (status : ReservationStatus) (k id : ℕ) (r : Reservation)
      → (r.event_id == k) ≡ false
      → held status k (id, r) ≡ pos 0
  held-ne status k id r h = ground arith

  pub seats-insert :
      (status : ReservationStatus) (k : ℕ) (r : Reservation) (db : Db)
      → S.get db.reservations r.id ≡ none
      → seats status k (write_reservation r db) ≡ held status k (r.id, r) +ℤ seats status k db
  seats-insert status k r db h = total-insert (held status k) db.reservations r.id r h

  pub seats-update :
      (status : ReservationStatus) (k : ℕ) (old r : Reservation) (db : Db)
      → S.get db.reservations r.id ≡ some old
      → held status k (r.id, old) +ℤ seats status k (write_reservation r db)
        ≡ held status k (r.id, r) +ℤ seats status k db
  seats-update status k old r db h = total-update (held status k) db.reservations r.id old r h

  -- An event that has no row after a write is not the one written, and had none before.
  module _ (inv : EventInventory) (db : Db) (k : ℕ)
      (h : S.get (write_inventory inv db).inventories k ≡ none) where
    unwritten : (inv.event_id == k) ≡ false
    unwritten = ground (arith, S.get-put db.inventories inv.event_id k inv)

    still_none : S.get db.inventories k ≡ none
    still_none = ground (arith, S.get-put db.inventories inv.event_id k inv)

  stored_row :
      (inv : EventInventory) (db : Db) (key : ℕ)
      → ((old : EventInventory) × (S.get db.inventories key ≡ some old))
      → (row : EventInventory) × (S.get (write_inventory inv db).inventories key ≡ some row)
  stored_row inv db key (old, h) = elim (Bool-cases (inv.event_id == key)) [
    | inl same ↦ (inv, ground (arith, S.get-put db.inventories inv.event_id key inv))
    | inr other ↦ (old, ground (arith, S.get-put db.inventories inv.event_id key inv))
  ]

  -- A write to the inventory alone, with counters that are right.
  pub write_inventory-IsValid :
      (inv : EventInventory) (db : Db)
      → IsValid db
      → Counted db inv.event_id inv
      → IsValid (write_inventory inv db)
  write_inventory-IsValid inv db valid counted = record {
    counted = λ k row h. elim (Bool-cases (inv.event_id == k)) [
      | inl same ↦
          let key : inv.event_id ≡ k = (==_iff inv.event_id k).0 same in
          let this : inv ≡ row = ground (arith, S.get-put db.inventories inv.event_id k inv) in
          let there : Counted (write_inventory inv db) inv.event_id inv = record {
            keyed = counted.keyed;
            reserved = counted.reserved;
            confirmed = counted.confirmed;
            fits = counted.fits;
          } in
          rw (← key, ← this) there
      | inr other ↦
          let before : Counted db k row =
            valid.counted k row (ground (arith, S.get-put db.inventories inv.event_id k inv)) in
          record {
            keyed = before.keyed;
            reserved = before.reserved;
            confirmed = before.confirmed;
            fits = before.fits;
          }
    ];
    keyed = valid.keyed;
    positive = valid.positive;
    unheld = λ status k h. valid.unheld status k (still_none inv db k h);
    home = λ k r h. stored_row inv db r.event_id (valid.home k r h);
  }

  -- The two writes keep the invariant, if the counters written are those of the rows written and
  -- no other event has gained or lost seats.
  module _ (inv : EventInventory) (r : Reservation) (db : Db) (valid : IsValid db) where
    abbrev moved : Db
    moved = write_reservation r (write_inventory inv db)

    home_moved :
        r.event_id ≡ inv.event_id
        → (k : ℕ) (row : Reservation) → S.get moved.reservations k ≡ some row
        → (found : EventInventory) × (S.get moved.inventories row.event_id ≡ some found)
    home_moved same k row h = elim (Bool-cases (r.id == k)) [
      | inl new ↦
          let this : r ≡ row = ground (arith, S.get-put db.reservations r.id k r) in
          (inv, ground (arith, S.get-put db.inventories inv.event_id row.event_id inv))
      | inr old ↦
          stored_row inv db row.event_id
            (valid.home k row (ground (arith, S.get-put db.reservations r.id k r)))
    ]

    moved-IsValid :
        Counted moved inv.event_id inv
        → ((status : ReservationStatus) (k : ℕ)
            → (inv.event_id == k) ≡ false
            → seats status k moved ≡ seats status k db)
        → pos 0 <ℤ r.quantity
        → r.event_id ≡ inv.event_id
        → IsValid moved
    moved-IsValid counted others positive same_event = record {
      counted = λ k row h. elim (Bool-cases (inv.event_id == k)) [
        | inl same ↦
            let key : inv.event_id ≡ k = (==_iff inv.event_id k).0 same in
            let this : inv ≡ row = ground (arith, S.get-put db.inventories inv.event_id k inv) in
            rw (← key, ← this) counted
        | inr other ↦
            let before : Counted db k row =
              valid.counted k row (ground (arith, S.get-put db.inventories inv.event_id k inv)) in
            record {
              keyed = before.keyed;
              reserved = before.reserved ∙ sym (others pending k other);
              confirmed = before.confirmed ∙ sym (others confirmed k other);
              fits = before.fits;
            }
      ];
      keyed = λ k row h. ground (arith, S.get-put db.reservations r.id k r, valid.keyed k row);
      positive =
          λ k row h. ground (arith, S.get-put db.reservations r.id k r, valid.positive k row);
      home = home_moved same_event;
      unheld = λ status k h.
          others status k (unwritten inv db k h) ∙ valid.unheld status k (still_none inv db k h);
    }

  -- A new row that holds its seats for the event that is written.
  module _ (inv : EventInventory) (r : Reservation) (db : Db) (valid : IsValid db) where
    pub reserve-IsValid :
        (old : EventInventory)
        → S.get db.inventories inv.event_id ≡ some old
        → S.get db.reservations r.id ≡ none
        → r.event_id ≡ inv.event_id
        → r.status ≡ pending
        → pos 0 <ℤ r.quantity
        → inv.reserved_count ≡ old.reserved_count +ℤ r.quantity
        → inv.confirmed_count ≡ old.confirmed_count
        → inv.reserved_count +ℤ inv.confirmed_count ≤ℤ inv.total_capacity
        → IsValid (write_reservation r (write_inventory inv db))
    reserve-IsValid old known fresh same_event is_pending positive more same fits =
        let before : Counted db inv.event_id old = valid.counted inv.event_id old known in
        let db' : Db = write_inventory inv db in
        moved-IsValid inv r db valid
          (record {
            keyed = refl;
            reserved =
                grind (int_laws, before.reserved, seats-insert pending inv.event_id r db' fresh);
            confirmed =
                grind (int_laws, before.confirmed, seats-insert confirmed inv.event_id r db' fresh);
            fits = fits;
          })
          (λ status k other. grind (int_laws, seats-insert status k r db' fresh)) positive
          same_event

    elsewhere :
        (row : Reservation)
        → row.event_id ≡ inv.event_id
        → (k : ℕ) → (inv.event_id == k) ≡ false
        → (row.event_id == k) ≡ false
    elsewhere row same k other = ground arith

    -- A row that changes its status, while the counters of its event follow it.
    pub settle-IsValid :
        (old : EventInventory) (before : Reservation)
        → S.get db.inventories inv.event_id ≡ some old
        → S.get db.reservations r.id ≡ some before
        → before.event_id ≡ inv.event_id
        → r.event_id ≡ inv.event_id
        → pos 0 <ℤ r.quantity
        → held pending inv.event_id (r.id, before) +ℤ inv.reserved_count
          ≡ held pending inv.event_id (r.id, r) +ℤ old.reserved_count
        → held confirmed inv.event_id (r.id, before) +ℤ inv.confirmed_count
          ≡ held confirmed inv.event_id (r.id, r) +ℤ old.confirmed_count
        → inv.reserved_count +ℤ inv.confirmed_count ≤ℤ inv.total_capacity
        → IsValid (write_reservation r (write_inventory inv db))
    settle-IsValid old before known row same_event same_event' positive moves moves' fits =
        let was : Counted db inv.event_id old = valid.counted inv.event_id old known in
        let db' : Db = write_inventory inv db in
        moved-IsValid inv r db valid
          (record {
            keyed = refl;
            reserved =
                follows _ _ was.reserved moves (seats-update pending inv.event_id before r db' row);
            confirmed =
                follows _ _ was.confirmed moves'
                  (seats-update confirmed inv.event_id before r db' row);
            fits = fits;
          })
          (λ status k other.
            stays _ _ (held-ne status k r.id before (elsewhere before same_event k other))
              (held-ne status k r.id r (elsewhere r same_event' k other))
              (seats-update status k before r db' row))
          positive same_event'
