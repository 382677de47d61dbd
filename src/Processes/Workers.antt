-- ===== src/Processes/Workers.antt =====
-- The entry points of the workers: services/api/app/workers/payment_worker.py,
-- order_status_worker.py, notification_worker.py, and services/inventory/app/workers/
-- event_sync_consumer.py, reservation_reaper.py and main.py. The handlers are those of
-- `Api.Workers` and `Inventory.Workers`; here they are arguments.
use eventsphere.Prelude.{ℕ, Bool, List}
use eventsphere.Errors.{Action, ◌>>=◌}
use eventsphere.Processes.Connections.{
  Outside, Host, try_finally, new_producer, start_producer, stop_producer, new_client, start_client,
  stop_client, new_redis, close_redis, run_consumer,
}

module _ {W : Type 0} (o : Outside) where
  module _ {M : Type 0} (handler : M → Action W (Unit {0})) (offset : ℕ)
      (messages : List (M × Bool)) where
    unfoldable pub run_payment_worker : Action (Host W) (Unit {0})
    run_payment_worker = do
      _ ← new_producer o
      _ ← start_producer o
      try_finally (run_consumer o handler offset messages) (stop_producer o)

    unfoldable pub run_order_status_worker : Action (Host W) (Unit {0})
    run_order_status_worker = do
      _ ← new_client o
      _ ← start_client o
      _ ← new_producer o
      _ ← start_producer o
      try_finally (run_consumer o handler offset messages) (do _ ← stop_producer o; stop_client o)

    unfoldable pub run_notification_worker : Action (Host W) (Unit {0})
    run_notification_worker = run_consumer o handler offset messages

    unfoldable pub run_event_sync_consumer : Action (Host W) (Unit {0})
    run_event_sync_consumer = run_consumer o handler offset messages

  -- `rounds` is what the loop has done when an exception or a cancellation ends it.
  unfoldable pub run_reservation_reaper : Action (Host W) (Unit {0}) → Action (Host W) (Unit {0})
  run_reservation_reaper rounds = do
    _ ← new_producer o
    _ ← start_producer o
    try_finally rounds (stop_producer o)

  -- `main` of the inventory workers: `tasks` is the TaskGroup with the consumer and the reaper.
  unfoldable pub run_inventory_workers : Action (Host W) (Unit {0}) → Action (Host W) (Unit {0})
  run_inventory_workers tasks = do _ ← new_redis o; try_finally tasks (close_redis o)
