-- ===== src/Inventory/Repository/Reserve.antt =====
-- `reserve` against transactions that commit between its read and its flush: the version column
-- makes every round atomic, so seats are never sold twice.
use eventsphere.Prelude.{
  ℕ, zero, suc, ◌≡◌, refl, ap, sym, ◌∙◌, true, false, Option, none, some, arith, inl, inr,
  Bool-cases, Option-cases,
}
use mathlib.Core.Path.{subst⁻¹}
use eventsphere.Prelude.Int.{ℤ, pos, ◌+ℤ◌, ◌<ℤ◌, ltb_ℤ, leb_ℤ, int_laws}
use eventsphere.Errors.{Result, ok, err, value_error}
use eventsphere.Storage.{Storage}
use eventsphere.Inventory.Models.{EventInventory, available, Reservation, Db}
use eventsphere.Inventory.Session.{
  Session, Transaction, begin, close_scope, session_scope, flush_inventory, write_reservation,
}
use eventsphere.Inventory.Seats.{IsNext, IsValid}
use eventsphere.Inventory.Seats.Moves.{reserve-IsValid}
use eventsphere.Inventory.Repository.{
  continue, flush_reserve, Request, Attempt, Round, returned, stale, new_reservation, try_reserve,
  reserve_rounds, reserve,
}
use eventsphere.Inventory.Seats.Evolution.{
  write-Evolves, Evolves-trans, Evolves-write_reservation, IsNext-trans, IsNext-refl,
}
use eventsphere.Enums.{pending}

module _ ⦃S : Storage⦄ where
  -- The other transactions of a round keep the invariant and move the version of what they
  -- change, and `uuid4` draws an id that is not in use.
  pub record IsFair (a : Attempt) : Type 0 where
    pub next : (db : Db) → IsValid db → IsNext db (a.meanwhile db)
    pub fresh : (db : Db) → S.get db.reservations (a.fresh_id db) ≡ none

  -- A flush that succeeds has found the row that was read.
  pub flush_inventory-some :
      (old new : EventInventory) (db db' : Db)
      → flush_inventory old new db ≡ some db'
      → old.reserved_count <ℤ new.reserved_count
      → (row : EventInventory) × (S.get db.inventories old.event_id ≡ some row)
        × (row.version ≡ old.version)
        × (db' ≡ record db {
          inventories =
              S.put db.inventories old.event_id
                (record new { version = S.next_version old.version });
        })
  unfolding flush_inventory
  flush_inventory-some old new db db' h more =
      elim (Option-cases (S.get db.inventories old.event_id)) [
        | inl missing ↦ ground (arith, missing)
        | inr (row, found) ↦ (row, found, ground (arith, found), ground (arith, found))
      ]

  -- The row that a reservation for a request leaves.
  pub record Stores (q : Request) (db : Db) (r : Reservation) : Type 0 where
    pub stored : S.get db.reservations r.id ≡ some r
    pub event_id : r.event_id ≡ q.event_id
    pub order_id : r.order_id ≡ q.order_id
    pub quantity : r.quantity ≡ q.quantity
    pub status : r.status ≡ pending

  abbrev Kept : Request → Db → Round → Type 0
  Kept q db (returned (ok r) s) = IsNext db s.visible × Stores q s.visible r
  Kept q db (returned (err e) s) = IsNext db s.committed
  Kept q db (stale s) = (s ≡ begin s.committed) × IsNext db s.committed

  -- What `reserve` leaves when its scope is closed.
  abbrev pub Scoped : Request → Db → Result Reservation × Db → Type 0
  Scoped q db (ok r, db') = IsNext db db' × Stores q db' r
  Scoped q db (err e, db') = IsNext db db'

  -- What a flush of reserved seats leaves, if it finds the version that was read.
  module _ (q : Request) (a : Attempt) (fair : IsFair a) (db : Db) (valid : IsValid db)
      (positive : pos 0 <ℤ q.quantity) (inv : EventInventory)
      (found : S.get db.inventories q.event_id ≡ some inv)
      (room : ltb_ℤ (available inv) q.quantity ≡ false) where
    abbrev pub reserved : EventInventory
    reserved = record inv { reserved_count = inv.reserved_count +ℤ q.quantity }

    abbrev taken : Reservation
    taken = new_reservation q a (a.fresh_id (a.meanwhile db))

    -- The row that was read is still there.
    pub read_unmoved :
        (db' : Db)
        → flush_inventory inv reserved (a.meanwhile db) ≡ some db'
        → S.get (a.meanwhile db).inventories inv.event_id ≡ some inv
    read_unmoved db' h =
        let (row, there, same, written) =
          flush_inventory-some inv reserved (a.meanwhile db) db' h (omega int_laws) in
        let (now, there', keep, _) = (fair.next db valid).evolves.row q.event_id inv found in
        let key : inv.event_id ≡ q.event_id = (valid.counted q.event_id inv found).keyed in
        let one : now ≡ row = cc in
        let unmoved : now ≡ inv = keep (ap (λ (i : EventInventory). i.version) one ∙ same) in cc

    granted :
        (db' : Db)
        → flush_inventory inv reserved (a.meanwhile db) ≡ some db'
        → IsNext db (write_reservation taken db')
    unfolding available
    granted db' h =
        let (row, there, same, written) =
          flush_inventory-some inv reserved (a.meanwhile db) db' h (omega int_laws) in
        let key : inv.event_id ≡ q.event_id = (valid.counted q.event_id inv found).keyed in
        let found' : S.get (a.meanwhile db).inventories inv.event_id ≡ some inv =
          read_unmoved db' h in
        let after : EventInventory = record reserved { version = S.next_version inv.version } in
        let between : IsNext db (a.meanwhile db) = fair.next db valid in
        rw written (record {
          valid =
              reserve-IsValid after taken (a.meanwhile db) between.valid inv found'
                (fair.fresh (a.meanwhile db)) (sym key) refl positive refl refl (grind int_laws);
          evolves = Evolves-write_reservation taken (
              Evolves-trans between.evolves
                (write-Evolves inv after (a.meanwhile db) found' (S.lt-next_version inv.version)));
        })

    flushed-Kept :
        (o : Option Db)
        → flush_inventory inv reserved (a.meanwhile db) ≡ o
        → Kept q db (flush_reserve taken o (begin (a.meanwhile db)))
    flushed-Kept none h = (refl, fair.next db valid)
    flushed-Kept (some db') h = (
      granted db' h,
      record {
        stored = ground (arith, S.get-put db'.reservations taken.id taken.id taken);
        event_id = refl;
        order_id = refl;
        quantity = refl;
        status = refl;
      },
    )

  try_reserve-Kept :
      (q : Request) (a : Attempt) (db : Db)
      → IsFair a
      → IsValid db
      → pos 0 <ℤ q.quantity
      → Kept q db (try_reserve q a (begin db))
  unfolding try_reserve
  try_reserve-Kept q a db fair valid positive =
      elim (Option-cases (S.get db.inventories q.event_id)) [
        | inl missing ↦ rw (missing, Kept, try_reserve) (IsNext-refl db valid)
        | inr (inv, found) ↦
            rw (found, Kept, try_reserve)
              (elim (Bool-cases (ltb_ℤ (available inv) q.quantity)) [
                | inl short ↦ rw short (IsNext-refl db valid)
                | inr room ↦
                    rw (room, Kept) (flushed-Kept q a fair db valid positive inv found room _ refl)
              ])
      ]

  -- From a later database on, the same holds of the earlier one.
  Scoped-trans :
      (q : Request) {db db' : Db} (out : Result Reservation × Db)
      → IsNext db db'
      → Scoped q db' out
      → Scoped q db out
  Scoped-trans q (ok r, after) p h = (IsNext-trans p h.0, h.1)
  Scoped-trans q (err e, after) p h = IsNext-trans p h

  continue-Scoped :
      (q : Request) (db : Db) (round : Round) (others : Transaction Reservation)
      → Kept q db round
      → ((db' : Db) → IsValid db' → Scoped q db' (close_scope (others (begin db'))))
      → Scoped q db (close_scope (continue round others))
  continue-Scoped q db (returned (ok r) s) others h rest = h
  continue-Scoped q db (returned (err e) s) others h rest = h
  continue-Scoped q db (stale s) others h rest =
      rw h.0 (Scoped-trans q _ h.1 (rest s.committed h.1.valid))

  reserve_rounds-Scoped :
      (q : Request) (attempts : ℕ → Attempt) (n : ℕ) (db : Db)
      → ((i : ℕ) → IsFair (attempts i))
      → IsValid db
      → pos 0 <ℤ q.quantity
      → Scoped q db (close_scope (reserve_rounds q attempts n (begin db)))
  unfolding reserve_rounds
  reserve_rounds-Scoped q attempts zero db fair valid positive = IsNext-refl db valid
  reserve_rounds-Scoped q attempts (suc n) db fair valid positive =
      continue-Scoped q db (try_reserve q (attempts n) (begin db)) (reserve_rounds q attempts n)
        (try_reserve-Kept q (attempts n) db (fair n) valid positive)
        (λ db' valid'. reserve_rounds-Scoped q attempts n db' fair valid' positive)

  pub positive_of_test : (x : ℤ) → leb_ℤ x (pos 0) ≡ false → pos 0 <ℤ x
  positive_of_test x h = ground arith

  pub reserve_refused :
      (q : Request) (attempts : ℕ → Attempt) (n : ℕ) (s : Session)
      → leb_ℤ q.quantity (pos 0) ≡ true
      → reserve q attempts n s ≡ (err value_error, s)
  unfolding reserve
  reserve_refused q attempts n s h = rw h

  pub reserve_accepted :
      (q : Request) (attempts : ℕ → Attempt) (n : ℕ) (s : Session)
      → leb_ℤ q.quantity (pos 0) ≡ false
      → reserve q attempts n s ≡ reserve_rounds q attempts n s
  unfolding reserve
  reserve_accepted q attempts n s h = rw h

  -- Whatever other transactions commit between the reads and the flushes of `reserve`, as long as
  -- each keeps the invariant and moves the version of the rows that it changes: the transaction of
  -- `reserve` keeps the invariant (no event is oversold) and moves versions in the same way, and a
  -- reservation that is returned is stored, pending, for the event, order and quantity asked for.
  pub reserve-Scoped :
      (q : Request) (attempts : ℕ → Attempt) (max_retries : ℕ) (db : Db)
      → ((i : ℕ) → IsFair (attempts i))
      → IsValid db
      → Scoped q db (session_scope (reserve q attempts max_retries) db)
  unfolding session_scope
  reserve-Scoped q attempts n db fair valid = elim (Bool-cases (leb_ℤ q.quantity (pos 0))) [
    | inl bad ↦
        subst⁻¹ (λ x. Scoped q db (close_scope x)) (reserve_refused q attempts n (begin db) bad)
          (IsNext-refl db valid)
    | inr good ↦
        subst⁻¹ (λ x. Scoped q db (close_scope x)) (reserve_accepted q attempts n (begin db) good)
          (reserve_rounds-Scoped q attempts n db fair valid (positive_of_test q.quantity good))
  ]
