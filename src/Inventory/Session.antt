-- ===== src/Inventory/Session.antt =====
-- A database session and `session_scope` of services/inventory/app/core/database.py. A session
-- sees what is committed and what it has flushed itself; a rollback forgets its own writes.
-- Other transactions commit only where the code awaits (`interfere`), and before the first flush
-- of the session: from there on it holds the locks of the rows that it has written.
use eventsphere.Prelude.{Bool, Option, none, some, ◌&&◌, ◌==◌, if◌then◌else◌}
use eventsphere.Prelude.Int.{eqb_ℤ}
use eventsphere.Errors.{Result, ok, err, Action}
use eventsphere.Storage.{Storage}
use eventsphere.Inventory.Models.{EventInventory, Reservation, Db}

module _ ⦃S : Storage⦄ where
  pub record Session : Type 0 where
    pub committed : Db
    pub visible : Db

  abbrev pub begin : Db → Session
  begin db = record { committed = db; visible = db }

  abbrev pub write : Db → Session → Session
  write db s = record s { visible = db }

  abbrev pub rollback : Session → Session
  rollback s = record s { visible = s.committed }

  abbrev pub interfere : (Db → Db) → Session → Session
  interfere f s = record { committed = f s.committed; visible = f s.visible }

  abbrev pub Transaction : Type 0 → Type 0
  Transaction A = Action Session A

  -- One transaction per business operation: COMMIT on success, ROLLBACK on any exception.
  abbrev pub close_scope : {A : Type 0} → Result A × Session → Result A × Db
  close_scope (ok a, s) = (ok a, s.visible)
  close_scope (err e, s) = (err e, s.committed)

  unfoldable pub session_scope : {A : Type 0} → Transaction A → Action Db A
  session_scope body db = close_scope (body (begin db))

  -- The columns of a row of `event_inventory` that the code assigns to, unchanged.
  abbrev pub unchanged : EventInventory → EventInventory → Bool
  unchanged old new =
      eqb_ℤ old.total_capacity new.total_capacity
      && eqb_ℤ old.reserved_count new.reserved_count
      && eqb_ℤ old.confirmed_count new.confirmed_count

  -- The UPDATE that a flush issues for a changed `EventInventory`: it names the version that was
  -- read, and moves it. `none` is a StaleDataError: no row has that id and that version.
  unfoldable pub flush_inventory : EventInventory → EventInventory → Db → Option Db
  flush_inventory old new db =
      if unchanged old new then some db else elim (S.get db.inventories old.event_id) [
        | none ↦ none
        | some row ↦
            if row.version == old.version
            then some (record db {
              inventories =
                  S.put db.inventories old.event_id
                    (record new { version = S.next_version old.version });
            })
            else none
      ]

  abbrev pub write_reservation : Reservation → Db → Db
  write_reservation r db = record db { reservations = S.put db.reservations r.id r }
