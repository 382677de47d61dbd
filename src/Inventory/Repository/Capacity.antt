-- ===== src/Inventory/Repository/Capacity.antt =====
-- `initialize_inventory` and `adjust_capacity`: what they write, and when the invariant survives.
use eventsphere.Prelude.{
  arith, inr, inl, Bool-cases, false, true, ◌↔◌, sym, none, refl, some, ◌≡◌, Option, ℕ,
}
use eventsphere.Storage.{Storage}
use eventsphere.Prelude.Int.{eq_of_parts, ◌+ℤ◌, int_laws, ◌≤ℤ◌, pos, ℤ}
use eventsphere.Inventory.Session.{flush_inventory, unchanged, session_scope}
use eventsphere.Inventory.Models.{Db, EventInventory}
use eventsphere.Inventory.Repository.{adjust_capacity, initialize_inventory}
use eventsphere.Inventory.Seats.{IsNext, Counted, IsValid}
use eventsphere.Errors.{err, integrity, ok, Result}
use eventsphere.Inventory.Seats.Moves.{write_inventory-IsValid, write_inventory}
use eventsphere.Enums.{confirmed, pending}
use eventsphere.Inventory.Repository.Settle.{flush_inventory_self, bumped}
use eventsphere.Inventory.Seats.Evolution.{insert-Evolves, write-Evolves, Evolves-refl, IsNext-refl}

module _ ⦃S : Storage⦄ where
  abbrev pub new_inventory : ℕ → ℤ → EventInventory
  new_inventory event_id total_capacity = record {
    event_id = event_id;
    total_capacity = total_capacity;
    reserved_count = pos 0;
    confirmed_count = pos 0;
    version = S.first_version;
  }

  abbrev pub Initialized : ℕ → ℤ → Db → Option EventInventory → Result EventInventory × Db → Type 0
  Initialized event_id total_capacity db (some existing) out = out ≡ (ok existing, db)
  Initialized event_id total_capacity db none out = out ≡ (
    ok (new_inventory event_id total_capacity),
    write_inventory (new_inventory event_id total_capacity) db,
  )

  initialize_row :
      (event_id : ℕ) (total_capacity : ℤ) (db : Db) (o : Option EventInventory)
      → S.get db.inventories event_id ≡ o
      → Initialized event_id total_capacity db o
          (session_scope (initialize_inventory (λ d. d) event_id total_capacity) db)
  unfolding session_scope initialize_inventory
  initialize_row event_id total_capacity db none h = rw (h, initialize_inventory) (rw h refl)
  initialize_row event_id total_capacity db (some existing) h = rw (h, initialize_inventory)

  -- An event is initialised once: the first call writes a row with no seats taken, and a call for
  -- an event that has a row returns that row and changes nothing, whatever capacity it brings.
  pub initialize_once :
      (event_id : ℕ) (total_capacity : ℤ) (db : Db)
      → Initialized event_id total_capacity db
          (S.get db.inventories event_id)
          (session_scope (initialize_inventory (λ d. d) event_id total_capacity) db)
  initialize_once event_id total_capacity db = initialize_row event_id total_capacity db _ refl

  -- The first of two calls at once wins: if another transaction commits a row of the event between
  -- the read and the flush, the INSERT is refused, and only what was committed stays.
  initialize_overtaken :
      (meanwhile : Db → Db) (event_id : ℕ) (total_capacity : ℤ) (db : Db) (other : EventInventory)
      → S.get db.inventories event_id ≡ none
      → S.get (meanwhile db).inventories event_id ≡ some other
      → session_scope (initialize_inventory meanwhile event_id total_capacity) db
        ≡ (err integrity, meanwhile db)
  unfolding session_scope initialize_inventory
  initialize_overtaken meanwhile event_id total_capacity db other missing there =
      rw (missing, initialize_inventory) (rw there refl)

  Initialized-IsNext :
      (event_id : ℕ) (total_capacity : ℤ) (db : Db) (o : Option EventInventory)
      (out : Result EventInventory × Db)
      → IsValid db
      → pos 0 ≤ℤ total_capacity
      → S.get db.inventories event_id ≡ o
      → Initialized event_id total_capacity db o out
      → IsNext db out.1
  Initialized-IsNext event_id total_capacity db (some existing) out valid room h e =
      rw e (IsNext-refl db valid)
  Initialized-IsNext event_id total_capacity db none out valid room h e = rw e (record {
    evolves = insert-Evolves (new_inventory event_id total_capacity) db h;
    valid = write_inventory-IsValid (new_inventory event_id total_capacity) db valid (record {
      keyed = refl;
      reserved = sym (valid.unheld pending event_id h);
      confirmed = sym (valid.unheld confirmed event_id h);
      fits = omega int_laws;
    });
  })

  -- `initialize_inventory` with a capacity of zero or more keeps the invariant (no seats are held
  -- of a new event) and touches no other row.
  pub initialize-IsNext :
      (event_id : ℕ) (total_capacity : ℤ) (db : Db)
      → IsValid db
      → pos 0 ≤ℤ total_capacity
      → IsNext db (session_scope (initialize_inventory (λ d. d) event_id total_capacity) db).1
  initialize-IsNext event_id total_capacity db valid room =
      Initialized-IsNext event_id total_capacity db (S.get db.inventories event_id) _ valid room
        refl (initialize_once event_id total_capacity db)

  module _ (event_id : ℕ) (capacity : ℤ) (db : Db) (valid : IsValid db) (inv : EventInventory)
      (found : S.get db.inventories event_id ≡ some inv) where
    abbrev pub resized : EventInventory
    resized = record inv { total_capacity = capacity }

    abbrev pub adjusted : Result EventInventory × Db
    adjusted = session_scope (adjust_capacity (λ d. d) event_id capacity) db

    pub adjust_changed :
        unchanged inv resized ≡ false
        → adjusted ≡ (ok resized, write_inventory (bumped inv resized) db)
    unfolding session_scope adjust_capacity
    adjust_changed changed =
        let key : inv.event_id ≡ event_id = (valid.counted event_id inv found).keyed in
        let found' : S.get db.inventories inv.event_id ≡ some inv = cc in
        rw (found, adjust_capacity) (rw (flush_inventory_self inv resized db refl found' changed))

    pub adjust_same : unchanged inv resized ≡ true → adjusted ≡ (ok resized, db)
    unfolding session_scope adjust_capacity flush_inventory
    adjust_same same = rw (found, adjust_capacity) (rw (same, flush_inventory))

    same_capacity : unchanged inv resized ≡ true → inv.total_capacity ≡ capacity
    same_capacity same = ground (arith, eq_of_parts inv.total_capacity capacity)

    found_by_row : S.get db.inventories inv.event_id ≡ some inv
    found_by_row =
        let key : inv.event_id ≡ event_id = (valid.counted event_id inv found).keyed in cc

    adjusted-fits :
        IsValid (write_inventory (bumped inv resized) db)
        → inv.reserved_count +ℤ inv.confirmed_count ≤ℤ capacity
    adjusted-fits v =
        (v.counted inv.event_id (bumped inv resized) (
          ground
            (arith, S.get-put db.inventories inv.event_id inv.event_id (bumped inv resized)))).fits

    fits-adjusted :
        inv.reserved_count +ℤ inv.confirmed_count ≤ℤ capacity
        → IsValid (write_inventory (bumped inv resized) db)
    fits-adjusted fits =
        let was : Counted db inv.event_id inv = valid.counted inv.event_id inv found_by_row in
        write_inventory-IsValid (bumped inv resized) db valid
          (record { keyed = refl; reserved = was.reserved; confirmed = was.confirmed; fits = fits })

    -- `adjust_capacity` has no guard: on a valid database it keeps the invariant exactly if the
    -- seats that are held of the event fit the new capacity.
    pub adjust-IsValid_iff :
        IsValid adjusted.1 ↔ (inv.reserved_count +ℤ inv.confirmed_count ≤ℤ capacity)
    adjust-IsValid_iff = elim (Bool-cases (unchanged inv resized)) [
      | inl same ↦ rw (adjust_same same) (
        λ _. grind (int_laws, (valid.counted event_id inv found).fits, same_capacity same),
        λ _. valid,
      )
      | inr changed ↦ rw (adjust_changed changed) (adjusted-fits, fits-adjusted)
    ]

    -- With a capacity that fits, the version moves with the row.
    pub adjust-IsNext : inv.reserved_count +ℤ inv.confirmed_count ≤ℤ capacity → IsNext db adjusted.1
    adjust-IsNext fits = record {
      valid = adjust-IsValid_iff.1 fits;
      evolves = elim (Bool-cases (unchanged inv resized)) [
        | inl same ↦ rw (adjust_same same) (Evolves-refl db)
        | inr changed ↦
            rw (adjust_changed changed) (
              write-Evolves inv (bumped inv resized) db found_by_row
                (S.lt-next_version inv.version))
      ];
    }
