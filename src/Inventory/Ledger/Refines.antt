-- ===== src/Inventory/Ledger/Refines.antt =====
-- The service refines the ledger: each of its operations is a run of the ledger's moves.
use eventsphere.Prelude.{ℕ}
use eventsphere.Inventory.Ledger.{Runs, ledger}
use eventsphere.Inventory.Service
use eventsphere.Enums.{confirmed}
use eventsphere.Storage.{Storage}
use eventsphere.Inventory.Models.{Db}
use eventsphere.Inventory.Seats.{IsValid, IsNext}
use eventsphere.Inventory.Repository.{Attempt}
use eventsphere.Redis.{Redis}
use eventsphere.Inventory.History.{Step, reserved, confirmed}

module _ ⦃S : Storage⦄ where
  pub record Follows (db db' : Db) : Type 0 where
    pub next : IsNext db db'
    pub runs : Runs (ledger db) (ledger db')

  -- The transactions of others are runs of the ledger too.
  abbrev pub Honest : (ℕ → Attempt) → Type 0
  Honest attempts = (i : ℕ) (db : Db) → IsValid db → Follows db ((attempts i).meanwhile db)

module _ ⦃S : Storage⦄ ⦃R : Redis⦄ where
  -- The transactions that others commit inside a step are runs of the ledger.
  abbrev pub HonestStep : {db db' : Db} → Step db db' → Type 0
  HonestStep (reserved l attempts retry_attempts ttl event_id order_id quantity s fair) =
      Honest attempts
  HonestStep _ = Unit {0}
