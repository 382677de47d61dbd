-- ===== src/Inventory/Ledger/Tests.antt =====
-- Serializability and the refinement at concrete inputs.
use eventsphere.Prelude.{arith, List, [], ◌*◌, ◌≤◌, ℕ, ◌⊎◌, ◌≡◌}
use eventsphere.Prelude.Int.{◌+ℤ◌}
use eventsphere.Errors.{ok, err, conflict}
use eventsphere.Storage.Assoc.{assoc}
use eventsphere.Kafka.Producer.{ready, Message}
use eventsphere.Redis.Memory.{memory}
use eventsphere.Inventory.Models.{Db}
use eventsphere.Inventory.Repository.{reserve}
use eventsphere.Inventory.Repository.Serial.{reserve_serializable, one_round, Commits}
use eventsphere.Inventory.Workers.{Awake, reap_rounds}
use eventsphere.Inventory.Workers.Drains.{overdue, reaper_drains}
use eventsphere.Inventory.Service
use eventsphere.Inventory.Repository
use eventsphere.Inventory.Lock.{with_lock, acquire, set_nx}
use eventsphere.Inventory.Repository.{reserve_rounds, try_reserve}
use eventsphere.Inventory.Seats.{IsValid}
use eventsphere.Inventory.Models.{available}
use eventsphere.Inventory.Session.{session_scope, flush_inventory}
use eventsphere.Inventory.Tests.{
  quiet, quiet-IsFair, two_wanted, five_seats, five_seats-IsValid, two_reserved,
  two_reserved-IsValid,
}

reserve_serializable_example :
    (db' : Db) × Commits quiet five_seats db'
    × ((session_scope (reserve two_wanted quiet 3) five_seats ≡ (err conflict, db'))
        ⊎ ((i : ℕ) × (session_scope (reserve two_wanted quiet 3) five_seats
              ≡ one_round two_wanted (quiet i) db')))
reserve_serializable_example =
    reserve_serializable two_wanted quiet 3 five_seats quiet-IsFair five_seats-IsValid (omega arith)

abbrev rounds : ℕ → Awake
rounds i = record { now = 902_000_000; asleep = λ db. db }

one_overdue : overdue 902_000_000 two_reserved ≤ 1 * 100
unfolding Service.initialize_inventory Service.reserve_seats with_lock acquire set_nx session_scope
    reserve reserve_rounds try_reserve flush_inventory Repository.initialize_inventory available
    eventsphere.Prelude.Int.◌-ℤ◌ ◌+ℤ◌
one_overdue = omega arith

-- One reservation has run out, and one round of the reaper is enough.
reaper_drains_example :
    (db' : Db) × (sent' : List Message) × (reap_rounds rounds 1 two_reserved (ready [])
      ≡ (ok tt, db', ready sent'))
    × IsValid db'
    × (overdue 902_000_000 db' ≡ 0)
reaper_drains_example =
    reaper_drains rounds 902_000_000 902_000_000 1 two_reserved [] (omega arith)
      (λ i. record {
        valid = λ db valid. valid;
        never_more = λ db t le. omega arith;
        after_start = omega arith;
        before_last = omega arith;
      })
      two_reserved-IsValid one_overdue
