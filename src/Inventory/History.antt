-- ===== src/Inventory/History.antt =====
-- Any history of the inventory service: its operations one after the other, each `reserve_seats`
-- with whatever fair transactions commit between its reads and its flushes.
use eventsphere.Prelude.{none, refl, true, false, Bool, ap, some, ◌≡◌, Option, ℕ}
use eventsphere.Inventory.Service
use eventsphere.Storage.{Storage}
use eventsphere.Redis.{Redis}
use eventsphere.Inventory.Models.{Reservation, EventInventory, Db}
use eventsphere.Inventory.Lock.{acquire, locked, LockRun, with_lock}
use eventsphere.Prelude.Int.{int_laws, ◌+ℤ◌, ◌≤ℤ◌, pos, ℤ}
use eventsphere.Inventory.Repository.{reserve, undisturbed, adjust_capacity, Attempt, Request}
use eventsphere.Inventory.Seats.{Counted, held, seats, IsNext, IsValid}
use eventsphere.Errors.{err, ok, Action, Result}
use eventsphere.Inventory.Repository.Capacity.{adjust-IsNext, initialize-IsNext}
use eventsphere.Inventory.Seats.Evolution.{IsNext-trans, IsNext-refl}
use eventsphere.Redis.Keys.{lock_event, Key}
use eventsphere.Inventory.Repository.Reserve.{IsFair, reserve-Scoped, Scoped}
use eventsphere.Prelude.Lists.{total}
use eventsphere.Enums.{ReservationStatus}
use eventsphere.Inventory.Session.{session_scope}
use eventsphere.Inventory.Repository.Safety.{release-IsNext, confirm-IsNext}
use eventsphere.Inventory.Service.Sweep.{sweep-IsNext}

module _ ⦃S : Storage⦄ ⦃R : Redis⦄ where
  locked-returned :
      {A : Type 0} (l : LockRun) (key : Key) (body : Action Db A) (given : Bool × R.State) (db : Db)
      (a : A) (db' : Db) (s' : R.State)
      → locked l key body given db ≡ (ok a, db', s')
      → body db ≡ (ok a, db')
  locked-returned l key body (false, s) db a db' s' h = absurd (cc)
  locked-returned {A = A} l key body (true, s) db a db' s' h =
      ap (λ (x : Result A × Db × R.State). (x.0, x.1)) h

  -- A locked section that returns has run its body.
  pub with_lock-returned :
      {A : Type 0} (l : LockRun) (key : Key) (body : Action Db A) (db : Db) (s : R.State) (a : A)
      (db' : Db) (s' : R.State)
      → with_lock l key body db s ≡ (ok a, db', s')
      → body db ≡ (ok a, db')
  unfolding with_lock
  with_lock-returned l key body db s a db' s' h =
      locked-returned l key body (acquire l.tries l.retry_attempts key l.token l.ttl_ms s) db a db'
        s' h

  locked_kept :
      {A : Type 0} (P : Db → Type 0) (l : LockRun) (key : Key) (body : Action Db A)
      (given : Bool × R.State) (db : Db)
      → P db
      → P (body db).1
      → P (locked l key body given db).1
  locked_kept P l key body (false, s) db before after = before
  locked_kept P l key body (true, s) db before after = after

  -- The body of a locked section has run once or not at all.
  pub with_lock-kept :
      {A : Type 0} (P : Db → Type 0) (l : LockRun) (key : Key) (body : Action Db A) (db : Db)
      (s : R.State)
      → P db
      → P (body db).1
      → P (with_lock l key body db s).1
  unfolding with_lock
  with_lock-kept P l key body db s before after =
      locked_kept P l key body (acquire l.tries l.retry_attempts key l.token l.ttl_ms s) db before
        after

  -- One completed operation.
  pub data Step (db : Db) : Db → Type 0 where
    initialized :
        (event_id : ℕ) (capacity : ℤ)
        → pos 0 ≤ℤ capacity
        → Step db (Service.initialize_inventory (λ d. d) event_id capacity db).1
    resized :
        (l : LockRun) (event_id : ℕ) (capacity : ℤ) (s : R.State)
        → ((inv : EventInventory)
            → S.get db.inventories event_id ≡ some inv
            → inv.reserved_count +ℤ inv.confirmed_count ≤ℤ capacity)
        → Step db (Service.adjust_capacity l (λ d. d) event_id capacity db s).1
    reserved :
        (l : LockRun) (attempts : ℕ → Attempt) (retry_attempts ttl event_id order_id : ℕ)
        (quantity : ℤ) (s : R.State)
        → ((i : ℕ) → IsFair (attempts i))
        → Step db
            (Service.reserve_seats l attempts retry_attempts ttl event_id order_id quantity db s).1
    confirmed : (id : ℕ) → Step db (Service.confirm_reservation undisturbed id db).1
    released :
        (is_expired : Bool) (id : ℕ)
        → Step db (Service.release_reservation undisturbed is_expired id db).1
    swept : (now : ℕ) → Step db (Service.sweep_expired_reservations now db).1

  pub data Reach (db : Db) : Db → Type 0 where
    here : Reach db db
    next : {db' db'' : Db} → Reach db db' → Step db' db'' → Reach db db''

  adjusted_row :
      (event_id : ℕ) (capacity : ℤ) (db : Db) (valid : IsValid db) (o : Option EventInventory)
      → S.get db.inventories event_id ≡ o
      → ((inv : EventInventory)
          → S.get db.inventories event_id ≡ some inv
          → inv.reserved_count +ℤ inv.confirmed_count ≤ℤ capacity)
      → IsNext db (session_scope (adjust_capacity (λ d. d) event_id capacity) db).1
  adjusted_row event_id capacity db valid none h fits =
      unfold session_scope adjust_capacity in rw (h, adjust_capacity) (IsNext-refl db valid)
  adjusted_row event_id capacity db valid (some inv) h fits =
      adjust-IsNext event_id capacity db valid inv h (fits inv h)

  reserved-IsNext :
      (q : Request) (db : Db) (out : Result Reservation × Db) → Scoped q db out → IsNext db out.1
  reserved-IsNext q db (ok r, db') h = h.0
  reserved-IsNext q db (err e, db') h = h

  -- Every operation of a `Step` keeps the invariant and moves the version of each inventory row
  -- that it changes.
  pub Step-IsNext : {db db' : Db} → Step db db' → IsValid db → IsNext db db'
  unfolding Service.initialize_inventory Service.adjust_capacity Service.reserve_seats
      Service.confirm_reservation Service.release_reservation
  Step-IsNext {db} (initialized event_id capacity room) valid =
      initialize-IsNext event_id capacity db valid room
  Step-IsNext {db} (resized l event_id capacity s fits) valid =
      with_lock-kept (IsNext db) l (lock_event event_id)
        (session_scope (adjust_capacity (λ d. d) event_id capacity)) db s (IsNext-refl db valid)
        (adjusted_row event_id capacity db valid _ refl fits)
  Step-IsNext {db} (reserved l attempts n ttl event_id order_id quantity s fair) valid =
      let q : Request = record {
        event_id = event_id;
        order_id = order_id;
        quantity = quantity;
        reservation_ttl_seconds = ttl;
      } in
      with_lock-kept (IsNext db) l (lock_event event_id) (session_scope (reserve q attempts n)) db s
        (IsNext-refl db valid) (reserved-IsNext q db _ (reserve-Scoped q attempts n db fair valid))
  Step-IsNext {db} (confirmed id) valid = confirm-IsNext db id valid
  Step-IsNext {db} (released is_expired id) valid = release-IsNext is_expired db id valid
  Step-IsNext {db} (swept now) valid = sweep-IsNext now db valid

  pub Reach-IsNext : {db db' : Db} → IsValid db → Reach db db' → IsNext db db'
  Reach-IsNext {db} valid here = IsNext-refl db valid
  Reach-IsNext valid (next r st) =
      let before = Reach-IsNext valid r in IsNext-trans before (Step-IsNext st before.valid)

  abbrev pub empty_db : Db
  empty_db = record { inventories = S.empty; reservations = S.empty }

  pub empty_db-IsValid : IsValid empty_db
  empty_db-IsValid = record {
    counted = λ k inv h. absurd (cc (S.get-empty {V = EventInventory} k));
    keyed = λ k r h. absurd (cc (S.get-empty {V = Reservation} k));
    positive = λ k r h. absurd (cc (S.get-empty {V = Reservation} k));
    unheld = λ status k h. ap (total (held status k)) S.rows-empty;
    home = λ k r h. absurd (cc (S.get-empty {V = Reservation} k));
  }

  -- From an empty schema, after any operations in any order, the seats that the pending and the
  -- confirmed reservations of an event hold are at most its capacity. The conditions are those of
  -- `Step`: no capacity is negative or set below the seats held at that moment, only `reserve` is
  -- met by transactions of others, and these keep the invariant and move the versions of the rows
  -- that they change.
  pub never_oversold :
      {db : Db} (k : ℕ) (inv : EventInventory)
      → Reach empty_db db
      → S.get db.inventories k ≡ some inv
      → seats ReservationStatus.pending k db +ℤ seats ReservationStatus.confirmed k db
        ≤ℤ inv.total_capacity
  never_oversold {db} k inv r h =
      let c : Counted db k inv = (Reach-IsNext empty_db-IsValid r).valid.counted k inv h in
      grind (int_laws, c.reserved, c.confirmed, c.fits)
