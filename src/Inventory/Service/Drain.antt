-- ===== src/Inventory/Service/Drain.antt =====
-- A sweep releases the reservations that it has found: none of its releases raises, and each takes
-- one row out of the next query.
use eventsphere.Prelude.{
  ℕ, zero, suc, ◌≡◌, refl, ◌∙◌, ap, true, false, some, List, [], ◌∷◌, map, ◌==◌, if◌then◌else◌,
  ◌||◌, inl, inr, Bool-cases, arith,
}
use eventsphere.Prelude.Int.{ℤ, pos, ◌+ℤ◌, int_laws}
use eventsphere.Prelude.Lists.{take, select, total}
use eventsphere.Errors.{Result, ok, err}
use eventsphere.Enums.{pending, confirmed, expired, same_status}
use eventsphere.Storage.{Storage, Listed}
use eventsphere.Storage.Listing.{Listed-agree, Listed-select, Listed-take}
use eventsphere.Storage.Totals.{total-update}
use eventsphere.Inventory.Models.{Db, EventInventory, Reservation}
use eventsphere.Inventory.Session.{Session, begin, close_scope, session_scope, write_reservation}
use eventsphere.Inventory.Seats.{IsValid}
use eventsphere.Inventory.Repository.{
  release, release_seats, undisturbed, is_expired_pending, find_expired_pending,
}
use eventsphere.Inventory.Repository.Holds.{ReleasedBy, release_row, SettledBy}
use eventsphere.Inventory.Seats.Moves.{write_inventory}
use mathlib.Core.Path.{subst}
use eventsphere.Inventory.Repository.Settle.{bumped}
use eventsphere.Inventory.Repository.Safety.{release-IsNext}
use eventsphere.Inventory.Service.{sweep_rows, sweep_expired_reservations}
use eventsphere.Inventory.Service.Sweep.{release-frame}

abbrev pub given_up : ℕ × Reservation → Reservation
given_up (_, r) = record r { status = expired }

module _ ⦃S : Storage⦄ where
  -- 1 for a row that a query at this time would find.
  abbrev pub due : ℕ → ℕ × Reservation → ℤ
  due now row = if is_expired_pending now row then pos 1 else pos 0

  -- Every row is one that a query at this time would find.
  abbrev pub AllDue : ℕ → List (ℕ × Reservation) → Type 0
  AllDue now [] = Unit
  AllDue now (row ∷ rest) = (is_expired_pending now row ≡ true) × AllDue now rest

  AllDue-select :
      (now : ℕ) (rows : List (ℕ × Reservation)) → AllDue now (select (is_expired_pending now) rows)
  AllDue-select now [] = tt
  AllDue-select now (row ∷ rest) = elim (Bool-cases (is_expired_pending now row)) [
    | inl keep ↦ rw keep (keep, AllDue-select now rest)
    | inr drop ↦ rw drop (AllDue-select now rest)
  ]

  AllDue-take :
      (now n : ℕ) (rows : List (ℕ × Reservation)) → AllDue now rows → AllDue now (take n rows)
  AllDue-take now zero rows h = tt
  AllDue-take now (suc n) [] h = tt
  AllDue-take now (suc n) (row ∷ rest) (first, others) = (first, AllDue-take now n rest others)

  close_scope-ok :
      (out : Result Reservation × Session) (s : Session) (r : Reservation) (db' : Db)
      → close_scope out ≡ (ok r, db')
      → ◌≡◌ {A = Result Reservation × Session}
          (out.0, record s { visible = out.1.visible })
          (ok r, record s { visible = db' })
  close_scope-ok (ok a, s') s r db' h = cc
  close_scope-ok (err e, s') s r db' h = absurd (cc)

  abbrev pub overdue_sum : ℕ → Db → ℤ
  overdue_sum now db = total (due now) (S.rows db.reservations)

  -- What the release of one row that is due does to the database and to the next queries.
  record OneLess (k : ℕ) (r : Reservation) (db db' : Db) : Type 0 where
    valid : IsValid db'
    row : (j : ℕ) → (j == k) ≡ false → S.get db.reservations j ≡ S.get db'.reservations j
    fewer : (t : ℕ) → due t (k, r) +ℤ overdue_sum t db' ≡ overdue_sum t db

  written-OneLess :
      (r : Reservation) (inv : EventInventory) (db : Db)
      → S.get db.reservations r.id ≡ some r
      → IsValid (write_reservation (given_up (r.id, r)) (write_inventory inv db))
      → OneLess r.id r db (write_reservation (given_up (r.id, r)) (write_inventory inv db))
  written-OneLess r inv db stored valid = record {
    valid = valid;
    row = λ j other. ground (arith, S.get-put db.reservations r.id j (given_up (r.id, r)));
    fewer = λ t.
        grind (int_laws, total-update (due t) db.reservations r.id r (given_up (r.id, r)) stored);
  }

  due-Settled :
      (now k : ℕ) (r : Reservation) (db : Db) (out : Result Reservation × Db)
      → is_expired_pending now (k, r) ≡ true
      → ReleasedBy true db (some r) out
      → SettledBy db r (release_seats (same_status r.status pending) r.quantity) expired out
  due-Settled now k r db out is_due h =
      let holding : (same_status r.status pending || same_status r.status confirmed) ≡ true =
        ground arith in
      rw (holding, ReleasedBy) at h

  release-OneLess :
      (now k : ℕ) (r : Reservation) (db : Db)
      → IsValid db
      → S.get db.reservations k ≡ some r
      → is_expired_pending now (k, r) ≡ true
      → (db' : Db) × (session_scope (release undisturbed true k) db ≡ (ok (given_up (k, r)), db'))
        × OneLess k r db db'
  release-OneLess now k r db valid h is_due =
      let key : r.id ≡ k = valid.keyed k r h in
      let (inv, found, done) =
        due-Settled now k r db _ is_due (release_row true db k (some r) valid h) in
      let after = (release-IsNext true db k valid).valid in
      let db' : Db = write_reservation (given_up (k, r)) (
        write_inventory (bumped inv (release_seats (same_status r.status pending) r.quantity inv))
          db) in
      (
        db',
        done,
        subst (λ j. OneLess j r db db') key
            (written-OneLess r _ db (cc) (subst (λ out. IsValid out.1) done after)),
      )

  release-within :
      (now k : ℕ) (r : Reservation) (s : Session)
      → IsValid s.visible
      → S.get s.visible.reservations k ≡ some r
      → is_expired_pending now (k, r) ≡ true
      → (db' : Db) × (release undisturbed true r.id s
          ≡ (ok (given_up (k, r)), record s { visible = db' }))
        × OneLess k r s.visible db'
  unfolding session_scope
  release-within now k r s valid h is_due =
      let (db', done, less) = release-OneLess now k r s.visible valid h is_due in
      let key : r.id ≡ k = valid.keyed k r h in
      (
        db',
        ap (λ j. release undisturbed true j s) key
            ∙ (release-frame true k s
                ∙ close_scope-ok (release undisturbed true k (begin s.visible)) s _ db' done),
        less,
      )

  -- The sweep of rows that are due, from the middle of its session.
  record Swept (rows : List (ℕ × Reservation)) (s : Session) (db' : Db) : Type 0 where
    returns :
        sweep_rows (map (λ row. row.1) rows) s
        ≡ (ok (map given_up rows), record s { visible = db' })
    valid : IsValid db'
    fewer : (t : ℕ) → total (due t) rows +ℤ overdue_sum t db' ≡ overdue_sum t s.visible

  sweep_rows-Swept :
      (now : ℕ) (rows : List (ℕ × Reservation)) (s : Session)
      → IsValid s.visible
      → AllDue now rows
      → Listed (λ k. S.get s.visible.reservations k) rows
      → (db' : Db) × Swept rows s db'
  unfolding sweep_rows
  sweep_rows-Swept now [] s valid all_due listed =
      (s.visible, record { returns = refl; valid = valid; fewer = λ t. omega int_laws })
  sweep_rows-Swept now ((k, r) ∷ rest) s valid (is_due, others) (here, once, listed) =
      let (db₁, done, less) = release-within now k r s valid here is_due in
      let (db₂, swept_rest) =
        sweep_rows-Swept now rest (record s { visible = db₁ }) less.valid others
          (Listed-agree (λ j. S.get s.visible.reservations j) (λ j. S.get db₁.reservations j) k rest
            less.row once listed) in
      (
        db₂,
        record {
          returns = rw (done, sweep_rows) (rw swept_rest.returns refl);
          valid = swept_rest.valid;
          fewer = λ t. grind (int_laws, less.fewer t, swept_rest.fewer t);
        },
      )

  abbrev pub found : ℕ → Db → List (ℕ × Reservation)
  found now db = take 100 (select (is_expired_pending now) (S.rows db.reservations))

  pub AllDue-found : (now : ℕ) (db : Db) → AllDue now (found now db)
  AllDue-found now db = AllDue-take now 100 _ (AllDue-select now (S.rows db.reservations))

  -- On a valid database a sweep does not raise: it returns the rows that its query has found, each
  -- marked expired, and they are out of every later query.
  pub sweep-found :
      (now : ℕ) (db : Db)
      → IsValid db
      → (db' : Db) × (sweep_expired_reservations now db ≡ (ok (map given_up (found now db)), db'))
        × IsValid db'
        × ((t : ℕ) → total (due t) (found now db) +ℤ overdue_sum t db' ≡ overdue_sum t db)
  unfolding sweep_expired_reservations session_scope find_expired_pending
  sweep-found now db valid =
      let rows : List (ℕ × Reservation) = S.rows db.reservations in
      let (db', done) = sweep_rows-Swept now (found now db) (begin db) valid (AllDue-found now db) (
        Listed-take 100 _ _
          (Listed-select (is_expired_pending now) _ rows (S.rows-Listed db.reservations))) in
      (db', ap close_scope done.returns, done.valid, done.fewer)
