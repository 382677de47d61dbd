-- ===== src/Inventory/Repository/Serial.antt =====
-- `reserve` against other transactions, as a serial order: what it leaves is what one undisturbed
-- round leaves after some of the others.
use eventsphere.Prelude.{
  sym, true, arith, false, ℕ, zero, suc, ◌≡◌, refl, ◌⊎◌, inl, inr, Option, none, some, Bool-cases,
  Option-cases,
}
use mathlib.Core.Path.{subst⁻¹}
use eventsphere.Storage.{Storage}
use eventsphere.Inventory.Session.{
  Transaction, write_reservation, begin, close_scope, session_scope, flush_inventory,
}
use eventsphere.Inventory.Repository.{
  new_reservation, Request, Attempt, Round, returned, stale, try_reserve, reserve_rounds, reserve,
  flush_reserve, continue,
}
use eventsphere.Inventory.Repository.Reserve.{
  positive_of_test, reserve_accepted, read_unmoved, IsFair,
}
use eventsphere.Inventory.Models.{available, EventInventory, Reservation, Db}
use eventsphere.Errors.{capacity_exceeded, ok, not_found, conflict, err, Result}
use eventsphere.Prelude.Int.{ltb_ℤ, ◌+ℤ◌, leb_ℤ, ◌<ℤ◌, pos}
use eventsphere.Inventory.Seats.{IsValid}

module _ ⦃S : Storage⦄ where
  -- The transactions of others that commit in some of the rounds, one after the other.
  pub data Commits (attempts : ℕ → Attempt) (db : Db) : Db → Type 0 where
    no_more : Commits attempts db db
    then_round :
        {db' : Db}
        → Commits attempts db db'
        → (i : ℕ) → Commits attempts db ((attempts i).meanwhile db')

  -- The same round with nobody else about.
  abbrev pub alone : Attempt → Attempt
  alone a = record a { meanwhile = λ db. db }

  -- One round in a transaction of its own.
  abbrev pub one_round : Request → Attempt → Db → Result Reservation × Db
  one_round q a db = session_scope (reserve q (λ _. alone a) 1) db

  abbrev Serial : Request → (ℕ → Attempt) → Db → Result Reservation × Db → Type 0
  Serial q attempts db out =
      (db' : Db) × Commits attempts db db'
      × ((out ≡ (err conflict, db')) ⊎ ((i : ℕ) × (out ≡ one_round q (attempts i) db')))

  -- What a round gives when it starts a session at `db`.
  abbrev Round-as : Request → (ℕ → Attempt) → ℕ → Db → Round → Type 0
  Round-as q attempts i db (returned r s) =
      (db' : Db) × Commits attempts db db' × (close_scope (r, s) ≡ one_round q (attempts i) db')
  Round-as q attempts i db (stale s) = s ≡ begin ((attempts i).meanwhile db)

  Commits-trans :
      {attempts : ℕ → Attempt} {a b c : Db}
      → Commits attempts a b
      → Commits attempts b c
      → Commits attempts a c
  Commits-trans p no_more = p
  Commits-trans p (then_round q i) = then_round (Commits-trans p q) i

  Serial-after :
      (q : Request) (attempts : ℕ → Attempt) (i : ℕ) (db : Db) (out : Result Reservation × Db)
      → Serial q attempts ((attempts i).meanwhile db) out
      → Serial q attempts db out
  Serial-after q attempts i db out (db', commits, h) =
      (db', Commits-trans (then_round no_more i) commits, h)

  abbrev pub with_seats : Request → EventInventory → EventInventory
  with_seats q inv = record inv { reserved_count = inv.reserved_count +ℤ q.quantity }

  -- A round alone, branch by branch.
  module _ (q : Request) (a : Attempt) (db : Db) (accepted : leb_ℤ q.quantity (pos 0) ≡ false) where
    pub one_round-missing :
        S.get db.inventories q.event_id ≡ none → one_round q a db ≡ (err not_found, db)
    unfolding session_scope reserve reserve_rounds try_reserve
    one_round-missing missing = rw (accepted, missing, reserve, try_reserve) refl

    pub one_round-short :
        (inv : EventInventory)
        → S.get db.inventories q.event_id ≡ some inv
        → ltb_ℤ (available inv) q.quantity ≡ true
        → one_round q a db ≡ (err capacity_exceeded, db)
    unfolding session_scope reserve reserve_rounds try_reserve
    one_round-short inv found short = rw (accepted, found, reserve, try_reserve) (rw short refl)

    pub one_round-granted :
        (inv : EventInventory) (db' : Db)
        → S.get db.inventories q.event_id ≡ some inv
        → ltb_ℤ (available inv) q.quantity ≡ false
        → flush_inventory inv (with_seats q inv) db ≡ some db'
        → one_round q a db ≡ (
          ok (new_reservation q a (a.fresh_id db)),
          write_reservation (new_reservation q a (a.fresh_id db)) db',
        )
    unfolding session_scope reserve reserve_rounds try_reserve
    one_round-granted inv db' found room flushed =
        rw (accepted, found, reserve, try_reserve) (rw (room, flushed) refl)

  module _ (q : Request) (attempts : ℕ → Attempt) (fair : (i : ℕ) → IsFair (attempts i))
      (accepted : leb_ℤ q.quantity (pos 0) ≡ false) where
    -- A flush that goes through has found the row that the round read.
    flushed-Round :
        (i : ℕ) (db : Db) (inv : EventInventory) (o : Option Db)
        → IsValid db
        → S.get db.inventories q.event_id ≡ some inv
        → ltb_ℤ (available inv) q.quantity ≡ false
        → flush_inventory inv (with_seats q inv) ((attempts i).meanwhile db) ≡ o
        → Round-as q attempts i db (
            flush_reserve
              (new_reservation q (attempts i) ((attempts i).fresh_id ((attempts i).meanwhile db)))
              o
              (begin ((attempts i).meanwhile db)))
    flushed-Round i db inv none valid found room h = refl
    flushed-Round i db inv (some db') valid found room h =
        let positive = positive_of_test q.quantity accepted in
        let here : S.get ((attempts i).meanwhile db).inventories inv.event_id ≡ some inv =
          read_unmoved q (attempts i) (fair i) db valid positive inv found room db' h in
        let key : inv.event_id ≡ q.event_id = (valid.counted q.event_id inv found).keyed in
        (
          (attempts i).meanwhile db,
          then_round no_more i,
          sym (
              one_round-granted q (attempts i) ((attempts i).meanwhile db) accepted inv db' (cc)
                room h),
        )

    try_reserve-Round :
        (i : ℕ) (db : Db)
        → IsValid db
        → Round-as q attempts i db (try_reserve q (attempts i) (begin db))
    unfolding try_reserve
    try_reserve-Round i db valid = elim (Option-cases (S.get db.inventories q.event_id)) [
      | inl missing ↦
          rw (missing, try_reserve)
            (db, no_more, sym (one_round-missing q (attempts i) db accepted missing))
      | inr (inv, found) ↦ elim (Bool-cases (ltb_ℤ (available inv) q.quantity)) [
        | inl short ↦
            rw (found, try_reserve)
              (rw short
                (db, no_more, sym (one_round-short q (attempts i) db accepted inv found short)))
        | inr room ↦
            rw (found, try_reserve) (rw room (flushed-Round i db inv _ valid found room refl))
      ]
    ]

    continue-Serial :
        (i : ℕ) (db : Db) (round : Round) (others : Transaction Reservation)
        → Round-as q attempts i db round
        → Serial q attempts
            ((attempts i).meanwhile db)
            (close_scope (others (begin ((attempts i).meanwhile db))))
        → Serial q attempts db (close_scope (continue round others))
    continue-Serial i db (returned r s) others (db', commits, h) rest = (db', commits, inr (i, h))
    continue-Serial i db (stale s) others h rest = rw h (Serial-after q attempts i db _ rest)

    rounds-Serial :
        (n : ℕ) (db : Db)
        → IsValid db
        → Serial q attempts db (close_scope (reserve_rounds q attempts n (begin db)))
    unfolding reserve_rounds
    rounds-Serial zero db valid = (db, no_more, inl refl)
    rounds-Serial (suc n) db valid =
        continue-Serial n db (try_reserve q (attempts n) (begin db)) (reserve_rounds q attempts n)
          (try_reserve-Round n db valid)
          (rounds-Serial n ((attempts n).meanwhile db) ((fair n).next db valid).valid)

  -- `reserve` is serializable. Whatever other transactions commit between its reads and its
  -- flushes, as long as each keeps the invariant and moves the version of the rows that it changes:
  -- for a positive quantity and on a valid database, its result and what it leaves are those of one
  -- undisturbed round after some of the other transactions, or it gives up with a ConflictError
  -- after them and has changed nothing itself.
  pub reserve_serializable :
      (q : Request) (attempts : ℕ → Attempt) (max_retries : ℕ) (db : Db)
      → ((i : ℕ) → IsFair (attempts i))
      → IsValid db
      → pos 0 <ℤ q.quantity
      → (db' : Db) × Commits attempts db db'
        × ((session_scope (reserve q attempts max_retries) db ≡ (err conflict, db'))
            ⊎ ((i : ℕ) × (session_scope (reserve q attempts max_retries) db
                  ≡ one_round q (attempts i) db')))
  unfolding session_scope
  reserve_serializable q attempts n db fair valid positive =
      let accepted : leb_ℤ q.quantity (pos 0) ≡ false = ground (arith, positive) in
      subst⁻¹ (λ x. Serial q attempts db (close_scope x))
        (reserve_accepted q attempts n (begin db) accepted)
        (rounds-Serial q attempts fair accepted n db valid)
