-- ===== src/Processes/Connections.antt =====
-- The connections of a process, and the objects that open and close them: KafkaEventProducer
-- (services/shared/kafka/producer.py), InventoryClient (services/api/app/grpc_client/
-- inventory_client.py) and BaseKafkaConsumer (services/shared/kafka/consumer.py). What the calls
-- into aiokafka, grpc, redis-py and SQLAlchemy give is an argument, `Outside`.
use eventsphere.Prelude.{ℕ, ◌+◌, ◌-◌, Bool, true, false, List, if◌then◌else◌}
use eventsphere.Errors.{Result, ok, err, runtime_error, Action, pure, continue, ◌>>=◌}
use eventsphere.Kafka.Consumer.{Progress, run_until}

-- How each call into a library ends.
pub record Outside : Type 0 where
  pub producer_starts : Result (Unit {0})
  -- how many connections a start that fails leaves open
  pub producer_residue : ℕ
  pub producer_stops : Result (Unit {0})
  pub consumer_starts : Result (Unit {0})
  pub consumer_residue : ℕ
  -- how `async for` ends: by an exception, or because the consumer is stopping
  pub messages_end : Result (Unit {0})
  pub consumer_stops : Result (Unit {0})
  pub channel_closes : Result (Unit {0})
  pub redis_closes : Result (Unit {0})
  pub engine_disposes : Result (Unit {0})
  pub server_starts : Result (Unit {0})
  pub server_stops : Result (Unit {0})

-- How many connections of each kind are open; `pools` are the pools of database engines in use.
pub record Connections : Type 0 where
  pub producers : ℕ
  pub consumers : ℕ
  pub channels : ℕ
  pub redis : ℕ
  pub servers : ℕ
  pub pools : ℕ

-- `W` is all else that the process works on, with the offset that its consumer has committed.
pub record Host (W : Type 0) : Type 0 where
  pub opened : Connections
  -- `_producer is not None` of the process's producer
  pub producer_set : Bool
  -- `_channel is not None` and `_stub is not None` of its client
  pub client_set : Bool
  pub progress : Progress W

module _ {S A : Type 0} where
  abbrev pub then_clean : Result A × S → Action S (Unit {0}) → Result A × S
  then_clean (ok a, s) cleanup = continue (cleanup s) (λ _. pure a)
  then_clean (err e, s) cleanup = continue (cleanup s) (λ _ s'. (err e, s'))

  -- `try: body` / `finally: cleanup`: an exception of the cleanup replaces that of the body.
  abbrev pub try_finally : Action S A → Action S (Unit {0}) → Action S A
  try_finally body cleanup s = then_clean (body s) cleanup

module _ {W : Type 0} (o : Outside) where
  -- A call that opens or closes a connection if it succeeds.
  abbrev pub on_success :
      Result (Unit {0}) → (Connections → Connections) → Action (Host W) (Unit {0})
  on_success (ok _) change h = (ok tt, record h { opened = change h.opened })
  on_success (err e) change h = (err e, h)

  -- A call that opens a connection, and that may leave some open if it fails.
  abbrev pub on_start :
      Result (Unit {0}) → (opened failed : Connections → Connections) → Action (Host W) (Unit {0})
  on_start (ok _) opened failed h = (ok tt, record h { opened = opened h.opened })
  on_start (err e) opened failed h = (err e, record h { opened = failed h.opened })

  -- `KafkaEventProducer(…)`
  abbrev pub new_producer : Action (Host W) (Unit {0})
  new_producer h = (ok tt, record h { producer_set = false })

  -- `_producer` is assigned before it is started.
  unfoldable pub start_producer : Action (Host W) (Unit {0})
  start_producer h =
      on_start o.producer_starts (λ c. record c { producers = c.producers + 1 })
        (λ c. record c { producers = c.producers + o.producer_residue })
        (record h { producer_set = true })

  unfoldable pub stop_producer : Action (Host W) (Unit {0})
  stop_producer h =
      if h.producer_set
      then on_success o.producer_stops (λ c. record c { producers = c.producers - 1 }) h
      else (ok tt, h)

  -- `InventoryClient(…)`
  abbrev pub new_client : Action (Host W) (Unit {0})
  new_client h = (ok tt, record h { client_set = false })

  unfoldable pub start_client : Action (Host W) (Unit {0})
  start_client h = (
    ok tt,
    record h { client_set = true; opened = record h.opened { channels = h.opened.channels + 1 } },
  )

  unfoldable pub stop_client : Action (Host W) (Unit {0})
  stop_client h =
      if h.client_set
      then on_success o.channel_closes (λ c. record c { channels = c.channels - 1 }) h
      else (ok tt, h)

  -- The property `stub`
  unfoldable pub stub : Host W → Result (Unit {0})
  stub h = if h.client_set then ok tt else err runtime_error

  -- `Redis.from_url(…)` and `aclose`
  abbrev pub new_redis : Action (Host W) (Unit {0})
  new_redis h = (ok tt, record h { opened = record h.opened { redis = h.opened.redis + 1 } })

  abbrev pub close_redis : Action (Host W) (Unit {0})
  close_redis = on_success o.redis_closes (λ c. record c { redis = c.redis - 1 })

  module _ {M : Type 0} (handler : M → Action W (Unit {0})) where
    -- The messages that arrive, each with whether `_stopping` is set by then, and how they end.
    abbrev pub consume : ℕ → List (M × Bool) → Action (Host W) (Unit {0})
    consume offset messages h =
        (o.messages_end, record h { progress = run_until handler offset messages h.progress })

    unfoldable pub run_consumer : ℕ → List (M × Bool) → Action (Host W) (Unit {0})
    run_consumer offset messages = do
      _ ←
          on_start o.consumer_starts (λ c. record c { consumers = c.consumers + 1 })
            (λ c. record c { consumers = c.consumers + o.consumer_residue })
      try_finally (consume offset messages)
          (on_success o.consumer_stops (λ c. record c { consumers = c.consumers - 1 }))
