-- ===== src/Inventory/Service/Sweep.antt =====
-- The sweep of expired reservations.
use eventsphere.Prelude.{
  refl, [], ◌∷◌, true, List, if◌then◌else◌, ◌||◌, Bool-cases, inr, inl, Option-cases, ◌≡◌, Bool, ℕ,
}
use eventsphere.Storage.{Storage}
use eventsphere.Inventory.Repository.{
  find_expired_pending, release_seats, undisturbed, release, settle,
}
use eventsphere.Inventory.Models.{Db, Reservation, EventInventory}
use eventsphere.Inventory.Session.{
  Transaction, close_scope, session_scope, flush_inventory, begin, Session,
}
use eventsphere.Enums.{released, expired, confirmed, pending, same_status, ReservationStatus}
use eventsphere.Inventory.Service.{swept, add_released, sweep_rows, sweep_expired_reservations}
use eventsphere.Errors.{err, ok, Result}
use eventsphere.Inventory.Seats.{IsValid, IsNext}
use eventsphere.Inventory.Seats.Evolution.{IsNext-refl, IsNext-trans}
use mathlib.Core.Path.{subst⁻¹}
use eventsphere.Inventory.Repository.Safety.{release-IsNext}

module _ ⦃S : Storage⦄ where
  -- In the middle of a session `release` does what it does in a session of its own.
  settle-frame :
      (change : EventInventory → EventInventory) (r : Reservation) (status : ReservationStatus)
      (s : Session)
      → settle undisturbed change r status s ≡ (
        (settle undisturbed change r status (begin s.visible)).0,
        record s { visible = (settle undisturbed change r status (begin s.visible)).1.visible },
      )
  unfolding settle
  settle-frame change r status s = elim (Option-cases (S.get s.visible.inventories r.event_id)) [
    | inl missing ↦ rw (missing, settle)
    | inr (inv, found) ↦
        rw (found, settle)
          (elim (Option-cases (flush_inventory inv (change inv) s.visible)) [
            | inl stale ↦ rw stale
            | inr (db, written) ↦ rw written
          ])
  ]

  pub release-frame :
      (is_expired : Bool) (id : ℕ) (s : Session)
      → release undisturbed is_expired id s ≡ (
        (release undisturbed is_expired id (begin s.visible)).0,
        record s { visible = (release undisturbed is_expired id (begin s.visible)).1.visible },
      )
  unfolding release
  release-frame is_expired id s = elim (Option-cases (S.get s.visible.reservations id)) [
    | inl missing ↦ rw (missing, release)
    | inr (r, found) ↦
        rw (found, release)
          (elim (Bool-cases (same_status r.status pending || same_status r.status confirmed)) [
            | inl holding ↦ rw holding (
                settle-frame (release_seats (same_status r.status pending) r.quantity) r
                  (if is_expired then expired else released) s)
            | inr gone ↦ rw gone
          ])
  ]

  -- What is kept by every release, and goes from one step of the sweep to the next.
  pub record Carried (Rel : Db → Db → Type 0) : Type 0 where
    pub valid : {a b : Db} → Rel a b → IsValid b
    pub here : (db : Db) → IsValid db → Rel db db
    pub then_to : {a b c : Db} → Rel a b → Rel b c → Rel a c
    pub release :
        (id : ℕ) (db : Db) → IsValid db → Rel db (session_scope (release undisturbed true id) db).1

  module _ (Rel : Db → Db → Type 0) (carried : Carried Rel) where
    -- After a call inside the session of the sweep, which began at `db`.
    abbrev Midway : {A : Type 0} → Db → Result A × Session → Type 0
    Midway db (ok a, s) = (s.committed ≡ db) × Rel db s.visible
    Midway db (err e, s) = s.committed ≡ db

    framed-Midway :
        (db : Db) (s : Session) (out : Result Reservation × Session)
        → s.committed ≡ db
        → Rel db s.visible
        → Rel s.visible (close_scope out).1
        → Midway db (out.0, record s { visible = out.1.visible })
    framed-Midway db s (ok r, s') same before h = (same, carried.then_to before h)
    framed-Midway db s (err e, s') same before h = same

    release-Midway :
        (id : ℕ) (db : Db) (s : Session)
        → s.committed ≡ db
        → Rel db s.visible
        → Midway db (release undisturbed true id s)
    release-Midway id db s same before = subst⁻¹ (Midway db) (release-frame true id s) (
        framed-Midway db s (release undisturbed true id (begin s.visible)) same before
          (unfold session_scope in carried.release id s.visible (carried.valid before)))

    add_released-Midway :
        (db : Db) (r : Reservation) (out : Result (List Reservation) × Session)
        → Midway db out
        → Midway db (add_released r out)
    add_released-Midway db r (ok list, s) h = h
    add_released-Midway db r (err e, s) h = h

    swept-Midway :
        (db : Db) (out : Result Reservation × Session) (rest : Transaction (List Reservation))
        → Midway db out
        → ((s : Session) → s.committed ≡ db → Rel db s.visible → Midway db (rest s))
        → Midway db (swept out rest)
    swept-Midway db (ok r, s) rest h k = add_released-Midway db r (rest s) (k s h.0 h.1)
    swept-Midway db (err e, s) rest h k = h

    sweep_rows-Midway :
        (list : List Reservation) (db : Db) (s : Session)
        → s.committed ≡ db
        → Rel db s.visible
        → Midway db (sweep_rows list s)
    unfolding sweep_rows
    sweep_rows-Midway [] db s same before = (same, before)
    sweep_rows-Midway (r ∷ rest) db s same before =
        swept-Midway db (release undisturbed true r.id s) (sweep_rows rest)
          (release-Midway r.id db s same before)
          (λ s' same' before'. sweep_rows-Midway rest db s' same' before')

    close_scope-carried :
        {A : Type 0} (db : Db) (out : Result A × Session)
        → IsValid db
        → Midway db out
        → Rel db (close_scope out).1
    close_scope-carried db (ok a, s) valid h = h.1
    close_scope-carried db (err e, s) valid h = rw h (carried.here db valid)

    -- What every release keeps is kept by a sweep, which is one transaction.
    pub sweep-carried :
        (now : ℕ) (db : Db) → IsValid db → Rel db (sweep_expired_reservations now db).1
    unfolding sweep_expired_reservations session_scope
    sweep-carried now db valid =
        close_scope-carried db (sweep_rows (find_expired_pending now 100 db) (begin db)) valid (
          sweep_rows-Midway (find_expired_pending now 100 db) db (begin db) refl
            (carried.here db valid))

  IsNext-carried : Carried IsNext
  IsNext-carried = record {
    valid = λ p. p.valid;
    here = IsNext-refl;
    then_to = IsNext-trans;
    release = λ id db valid. release-IsNext true db id valid;
  }

  -- A sweep keeps the invariant and moves the version of what it changes; it is one transaction,
  -- so if one of its releases raises then none of them is kept.
  pub sweep-IsNext :
      (now : ℕ) (db : Db) → IsValid db → IsNext db (sweep_expired_reservations now db).1
  sweep-IsNext = sweep-carried IsNext IsNext-carried
