-- ===== src/Inventory/Tests.antt =====
-- The theorems on the inventory service at concrete inputs, on the stores of association lists.
use eventsphere.Prelude.{
  ◌&&◌, if◌then◌else◌, ◌↔◌, ◌≤◌, arith, ℕ, suc, zero, true, false, some, none, List, [], ◌∷◌, ◌+◌,
  ◌<◌, ◌≡◌, refl,
}
use eventsphere.Inventory.Service
use eventsphere.Inventory.Repository
use eventsphere.Enums.{ReservationStatus}
use eventsphere.Storage.Assoc.{assoc, lookup}
use eventsphere.Redis.Memory.{memory}
use eventsphere.Inventory.History.{
  Step-IsNext, never_oversold, never_oversold, reserved, initialized, empty_db-IsValid, here, next,
  Reach-IsNext, Reach, empty_db,
}
use eventsphere.Inventory.Repository.Reserve.{reserve-Scoped, Scoped, IsFair}
use eventsphere.Inventory.Repository.{
  undisturbed, Request, get_inventory, try_reserve, reserve_rounds, reserve, Attempt,
}
use eventsphere.Inventory.Workers.{reap_announces, reap, expired_message}
use eventsphere.Inventory.Seats.{IsNext, seats, IsValid}
use eventsphere.Inventory.Models.{available, Reservation, EventInventory, Db}
use eventsphere.Inventory.Lock.{Try, release_script, set_nx, acquire, with_lock, LockRun}
use eventsphere.Prelude.Int.{◌≤ℤ◌, ◌+ℤ◌, int_laws, pos}
use eventsphere.Inventory.Seats.Evolution.{IsNext-refl}
use eventsphere.Inventory.Session.{flush_inventory, session_scope}
use eventsphere.Inventory.Repository.Capacity.{adjust-IsValid_iff, initialize_once, Initialized}
use eventsphere.Inventory.Repository.Holds.{
  confirm-Confirmed, release-Released, Confirmed, Released,
}
use eventsphere.Inventory.Lock.Holder.{
  release_script_own, holds, acquire_holds, acquire_excluded, Taken,
}
use eventsphere.Redis.Keys.{same_key, lock_event}
use eventsphere.Inventory.Repository.Race.{confirm_overtaken, overtaken, TakenTwice}
use eventsphere.Errors.{Result, ok}

-- One more than the sum of the keys: an id that no row has.
abbrev above : List (ℕ × Reservation) → ℕ
above [] = 1
above ((k, v) ∷ rest) = k + above rest

lookup-above : (rows : List (ℕ × Reservation)) (k : ℕ) → above rows ≤ k → lookup k rows ≡ none
lookup-above [] k h = refl
lookup-above ((j, v) ∷ rest) k h =
    let positive = above_positive rest in ground (arith, lookup-above rest k (omega arith))
  where
    above_positive : (rows : List (ℕ × Reservation)) → 0 < above rows
    above_positive [] = omega arith
    above_positive ((k, v) ∷ rest) = let p = above_positive rest in omega arith

abbrev pub quiet : ℕ → Attempt
quiet i = record {
  meanwhile = λ db. db;
  now = 1_000_000;
  fresh_id = λ db. above (assoc.rows db.reservations);
}

pub quiet-IsFair : (i : ℕ) → IsFair (quiet i)
quiet-IsFair i = record {
  next = λ db valid. IsNext-refl db valid;
  fresh = λ db.
      lookup-above (assoc.rows db.reservations) (above (assoc.rows db.reservations)) (omega arith);
}

-- An event with five seats, and a reservation of two of them.
abbrev pub five_seats : Db
five_seats = (Service.initialize_inventory (λ d. d) 1 (pos 5) empty_db).1

abbrev pub lock_run : LockRun
lock_run = record {
  tries = λ i. record { meanwhile = λ s. s; now = 1_000 };
  retry_attempts = 3;
  ttl_ms = 5_000;
  token = 77;
  during = λ s. s;
  release_at = 1_100;
  eval_fails = false;
}

abbrev pub no_keys : memory.State
no_keys = λ k. none

abbrev pub two_reserved : Db
two_reserved = (Service.reserve_seats lock_run quiet 3 900 1 42 (pos 2) five_seats no_keys).1

history : Reach empty_db two_reserved
history =
    next (next here (initialized 1 (pos 5) (omega int_laws)))
      (reserved lock_run quiet 3 900 1 42 (pos 2) no_keys quiet-IsFair)

pub two_reserved-IsValid : IsValid two_reserved
two_reserved-IsValid = (Reach-IsNext empty_db-IsValid history).valid

abbrev inventory_of_two : EventInventory
inventory_of_two = record {
  event_id = 1;
  total_capacity = pos 5;
  reserved_count = pos 2;
  confirmed_count = pos 0;
  version = 2;
}

two_reserved_row : assoc.get two_reserved.inventories 1 ≡ some inventory_of_two
unfolding Service.initialize_inventory Service.reserve_seats with_lock acquire set_nx session_scope
    reserve reserve_rounds try_reserve flush_inventory Repository.initialize_inventory available
    eventsphere.Prelude.Int.◌-ℤ◌ ◌+ℤ◌
two_reserved_row = refl

never_oversold_example :
    seats ReservationStatus.pending 1 two_reserved
      +ℤ seats ReservationStatus.confirmed 1 two_reserved
    ≤ℤ pos 5
never_oversold_example = never_oversold 1 inventory_of_two history two_reserved_row

pub five_seats-IsValid : IsValid five_seats
five_seats-IsValid =
    (Reach-IsNext empty_db-IsValid (next here (initialized 1 (pos 5) (omega int_laws)))).valid

Step-IsNext_example : IsNext five_seats two_reserved
Step-IsNext_example =
    Step-IsNext (reserved lock_run quiet 3 900 1 42 (pos 2) no_keys quiet-IsFair) five_seats-IsValid

abbrev pub two_wanted : Request
two_wanted = record { event_id = 1; order_id = 42; quantity = pos 2; reservation_ttl_seconds = 900 }

reserve-Scoped_example :
    Scoped two_wanted five_seats (session_scope (Repository.reserve two_wanted quiet 3) five_seats)
reserve-Scoped_example =
    reserve-Scoped two_wanted quiet 3 five_seats quiet-IsFair five_seats-IsValid

confirm-Confirmed_example :
    Confirmed two_reserved
      (assoc.get two_reserved.reservations 1)
      (session_scope (Repository.confirm undisturbed 1) two_reserved)
confirm-Confirmed_example = confirm-Confirmed two_reserved 1 two_reserved-IsValid

release-Released_example :
    Released false two_reserved
      (assoc.get two_reserved.reservations 1)
      (session_scope (Repository.release undisturbed false 1) two_reserved)
release-Released_example = release-Released false two_reserved 1 two_reserved-IsValid

initialize_once_example :
    Initialized 1
      (pos 9)
      two_reserved
      (assoc.get two_reserved.inventories 1)
      (session_scope (Repository.initialize_inventory (λ d. d) 1 (pos 9)) two_reserved)
initialize_once_example = initialize_once 1 (pos 9) two_reserved

adjust-IsValid_iff_example :
    IsValid (session_scope (Repository.adjust_capacity (λ db. db) 1 (pos 1)) two_reserved).1
    ↔ (pos 2 +ℤ pos 0 ≤ℤ pos 1)
adjust-IsValid_iff_example =
    adjust-IsValid_iff 1 (pos 1) two_reserved two_reserved-IsValid inventory_of_two two_reserved_row

abbrev pub reservation_of_two : Reservation
reservation_of_two = record {
  id = 1;
  event_id = 1;
  order_id = 42;
  quantity = pos 2;
  status = ReservationStatus.pending;
  expires_at = 901_000_000;
}

pub reservation_row : assoc.get two_reserved.reservations 1 ≡ some reservation_of_two
unfolding Service.initialize_inventory Service.reserve_seats with_lock acquire set_nx session_scope
    reserve reserve_rounds try_reserve flush_inventory Repository.initialize_inventory available
    eventsphere.Prelude.Int.◌-ℤ◌ ◌+ℤ◌
reservation_row = refl

confirm_overtaken_example :
    ((session_scope (Repository.confirm (overtaken 1) 1) two_reserved).0
      ≡ ok (record reservation_of_two { status = ReservationStatus.confirmed }))
    × ((inv inv' : EventInventory) × TakenTwice two_reserved two_reserved-IsValid 1
          reservation_of_two reservation_row refl inv inv')
    × ¬ IsValid (session_scope (Repository.confirm (overtaken 1) 1) two_reserved).1
confirm_overtaken_example =
    confirm_overtaken two_reserved two_reserved-IsValid 1 reservation_of_two reservation_row refl

abbrev held_lock : memory.State
held_lock = memory.set no_keys 1_000 (lock_event 1) 77 5_000

release_script_own_example :
    memory.value (release_script 2_000 (lock_event 1) 78 held_lock) 2_000 (lock_event 1) ≡ (
      if holds (memory.value held_lock 2_000 (lock_event 1)) 78
        && same_key (lock_event 1) (lock_event 1)
      then none
      else memory.value held_lock 2_000 (lock_event 1))
release_script_own_example =
    release_script_own 2_000 2_000 (lock_event 1) (lock_event 1) 78 held_lock

abbrev three_times : ℕ → ℕ
three_times zero = 1_200
three_times (suc zero) = 1_100
three_times (suc (suc _)) = 1_050

still_held : (i : ℕ) → memory.value held_lock (three_times i) (lock_event 1) ≡ some 77
still_held zero = refl
still_held (suc zero) = refl
still_held (suc (suc _)) = refl

acquire_excluded_example :
    acquire
      (λ i. record { meanwhile = λ x. x; now = three_times i })
      3
      (lock_event 1)
      78
      5_000
      held_lock
    ≡ (false, held_lock)
acquire_excluded_example =
    acquire_excluded three_times 3 (lock_event 1) 78 5_000 held_lock (λ _. 77) still_held

abbrev first_try : ℕ → Try
first_try _ = record { meanwhile = λ x. x; now = 1_000 }

given : acquire first_try 3 (lock_event 1) 77 5_000 no_keys ≡ (true, held_lock)
unfolding acquire set_nx
given = refl

acquire_holds_example : (i : ℕ) × (i < 3) × Taken (first_try i) (lock_event 1) 77 held_lock
acquire_holds_example =
    acquire_holds first_try 3 (lock_event 1) 77 5_000 no_keys held_lock (omega arith) given

abbrev much_later : Result (List Reservation) × Db
much_later = Service.sweep_expired_reservations 902_000_000 two_reserved

abbrev expired_reservation : Reservation
expired_reservation = record reservation_of_two { status = ReservationStatus.expired }

swept_one : much_later ≡ (ok (expired_reservation ∷ []), much_later.1)
unfolding Service.sweep_expired_reservations Service.sweep_rows Repository.release Repository.settle
    Repository.find_expired_pending Service.initialize_inventory Service.reserve_seats with_lock
    acquire set_nx session_scope reserve reserve_rounds try_reserve flush_inventory
    Repository.initialize_inventory available eventsphere.Prelude.Int.◌-ℤ◌ ◌+ℤ◌
swept_one = refl

reap_announces_example :
    reap 902_000_000 two_reserved (record { started = true; reachable = true; sent = [] }) ≡ (
      ok tt,
      much_later.1,
      record { started = true; reachable = true; sent = expired_message expired_reservation ∷ [] },
    )
reap_announces_example =
    reap_announces 902_000_000 two_reserved much_later.1 (expired_reservation ∷ []) [] swept_one
