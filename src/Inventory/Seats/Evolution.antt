-- ===== src/Inventory/Seats/Evolution.antt =====
-- `Evolves` and `IsNext` compose, and a write that moves the version satisfies them.
use eventsphere.Prelude.{none, inr, inl, ◌==◌, Bool-cases, refl, ◌<◌, ◌∙◌, some, arith, ◌≡◌}
use eventsphere.Storage.{Storage}
use eventsphere.Inventory.Models.{Reservation, EventInventory, Db}
use eventsphere.Inventory.Seats.{IsNext, Evolves, IsValid}
use eventsphere.Inventory.Session.{write_reservation}
use eventsphere.Inventory.Seats.Moves.{write_inventory}

module _ ⦃S : Storage⦄ where
  pub Evolves-refl : (db : Db) → Evolves db db
  Evolves-refl db = record { row = λ k inv h. (inv, h, λ _. refl, omega arith) }

  pub Evolves-trans : {a b c : Db} → Evolves a b → Evolves b c → Evolves a c
  Evolves-trans e f = record {
    row = λ k inv h.
        let (inv', h', same, le) = e.row k inv h in
        let (inv'', h'', same', le') = f.row k inv' h' in
        (inv'', h'', λ p. (same' (omega arith)) ∙ (same (omega arith)), omega arith);
  }

  pub IsNext-refl : (db : Db) → IsValid db → IsNext db db
  IsNext-refl db v = record { valid = v; evolves = Evolves-refl db }

  pub IsNext-trans : {a b c : Db} → IsNext a b → IsNext b c → IsNext a c
  IsNext-trans p q = record { valid = q.valid; evolves = Evolves-trans p.evolves q.evolves }

  pub write-Evolves :
      (old new : EventInventory) (db : Db)
      → S.get db.inventories new.event_id ≡ some old
      → old.version < new.version
      → Evolves db (write_inventory new db)
  write-Evolves old new db found newer = record {
    row = λ k inv h. elim (Bool-cases (new.event_id == k)) [
      | inl same ↦
          let this : old ≡ inv = ground arith in
          let older : inv.version < new.version = ground arith in
          (
            new,
            ground (arith, S.get-put db.inventories new.event_id k new),
            λ p. absurd (omega arith),
            omega arith,
          )
      | inr other ↦
          (inv, ground (arith, S.get-put db.inventories new.event_id k new), λ _. refl, omega arith)
    ];
  }

  pub insert-Evolves :
      (new : EventInventory) (db : Db)
      → S.get db.inventories new.event_id ≡ none
      → Evolves db (write_inventory new db)
  insert-Evolves new db absent = record {
    row = λ k inv h. elim (Bool-cases (new.event_id == k)) [
      | inl same ↦ absurd (ground arith)
      | inr other ↦
          (inv, ground (arith, S.get-put db.inventories new.event_id k new), λ _. refl, omega arith)
    ];
  }

  -- Reservations are no part of it.
  pub Evolves-write_reservation :
      {db db' : Db} (r : Reservation) → Evolves db db' → Evolves db (write_reservation r db')
  Evolves-write_reservation r e = record { row = e.row }
