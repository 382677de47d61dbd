-- ===== src/Processes/Tests.antt =====
-- The theorem on the processes at a concrete input.
use eventsphere.Prelude.{false, [], ◌∷◌, ◌≡◌, refl}
use eventsphere.Errors.{Error, Result, ok, err}
use eventsphere.Storage.Assoc.{assoc}
use eventsphere.Redis.Memory.{memory}
use eventsphere.Api.Booking.{World}
use eventsphere.Api.Tests.{client, open_world}
use eventsphere.Api.Workers.{handle_status_message}
use eventsphere.Api.Workers.Tests.{paid_message}
use eventsphere.Processes.Calls.{with_channel, with_redis}
use eventsphere.Processes.Closing.{processes_close}
use eventsphere.Processes.Connections.{Outside, Connections, Host, run_consumer, start_producer}
use eventsphere.Processes.Servers.{lifespan}
use eventsphere.Processes.Workers.{
  run_payment_worker, run_order_status_worker, run_notification_worker, run_event_sync_consumer,
  run_reservation_reaper, run_inventory_workers,
}

-- A broker that producers cannot reach.
abbrev no_broker : Outside
no_broker = record {
  producer_starts = err Error.kafka;
  producer_residue = 1;
  producer_stops = ok tt;
  consumer_starts = ok tt;
  consumer_residue = 1;
  messages_end = err Error.kafka;
  consumer_stops = ok tt;
  channel_closes = ok tt;
  redis_closes = ok tt;
  engine_disposes = ok tt;
  server_starts = ok tt;
  server_stops = ok tt;
}

abbrev nothing_open : Connections
nothing_open = record {
  producers = 0;
  consumers = 0;
  channels = 0;
  redis = 0;
  servers = 0;
  pools = 0;
}

abbrev host : Host World
host = record {
  opened = nothing_open;
  producer_set = false;
  client_set = false;
  progress = record { committed = 0; world = open_world };
}

abbrev consume_one : Host World → Host World
consume_one h =
    (run_event_sync_consumer no_broker handle_status_message 0 ((paid_message, false) ∷ []) h).1

-- The consumer of events, and after it the reaper, whose producer does not start.
abbrev both_tasks : Host World → Result (Unit {0}) × Host World
both_tasks h = run_reservation_reaper no_broker (λ h. (ok tt, h)) (consume_one h)

both_tasks-redis : (h : Host World) → (both_tasks h).1.opened.redis ≡ h.opened.redis
unfolding run_reservation_reaper run_event_sync_consumer run_consumer start_producer
both_tasks-redis h = refl

abbrev one_producer : Connections
one_producer = record nothing_open { producers = 1 }

processes_close_example :
    ((run_payment_worker no_broker handle_status_message 0
        ((paid_message, false) ∷ [])
        host).1.opened
      ≡ one_producer)
    × ((run_notification_worker no_broker handle_status_message 0
          ((paid_message, false) ∷ [])
          host).1.opened
        ≡ nothing_open)
    × ((consume_one host).opened ≡ nothing_open)
    × ((run_reservation_reaper no_broker (λ h. (ok tt, h)) host).1.opened ≡ one_producer)
    × ((run_inventory_workers no_broker both_tasks host).1.opened
        ≡ record (both_tasks (record host { opened = with_redis nothing_open })).1.opened {
          redis = 0;
        })
    × ((run_order_status_worker no_broker handle_status_message 0
          ((paid_message, false) ∷ [])
          host).1.opened
        ≡ with_channel one_producer)
    × ((lifespan no_broker (λ h. (ok tt, h)) host).1.opened ≡ with_redis one_producer)
processes_close_example =
    processes_close no_broker
      (record { producer = refl; consumer = refl; channel = refl; redis = refl; engine = refl })
      handle_status_message 0 ((paid_message, false) ∷ []) (λ h. (ok tt, h)) both_tasks
      (λ h. record { opened = refl; producer_set = refl; client_set = refl }) both_tasks-redis host
