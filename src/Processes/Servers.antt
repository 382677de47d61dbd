-- ===== src/Processes/Servers.antt =====
-- The servers: `lifespan` of services/api/app/main.py and `serve` of services/inventory/app/main.py.
use eventsphere.Prelude.{◌+◌, ◌-◌}
use eventsphere.Errors.{Action, ◌>>=◌}
use eventsphere.Processes.Connections.{
  Outside, Host, on_success, try_finally, new_producer, start_producer, stop_producer, new_client,
  start_client, stop_client, new_redis, close_redis,
}

module _ {W : Type 0} (o : Outside) where
  -- The part of `lifespan` before the `yield`
  unfoldable pub start_up : Action (Host W) (Unit {0})
  start_up = do
    _ ← new_redis o
    _ ← new_producer o
    _ ← start_producer o
    _ ← new_client o
    start_client o

  -- `engine.dispose()` returns the pool of the engine, which serving has used.
  unfoldable pub shut_down : Action (Host W) (Unit {0})
  shut_down = do
    _ ← stop_client o
    _ ← stop_producer o
    _ ← close_redis o
    on_success o o.engine_disposes (λ c. record c { pools = 0 })

  -- `serving` is the `yield`.
  unfoldable pub lifespan : Action (Host W) (Unit {0}) → Action (Host W) (Unit {0})
  lifespan serving = do _ ← start_up; try_finally serving shut_down

  -- `waiting` lasts until SIGTERM or SIGINT.
  unfoldable pub serve : Action (Host W) (Unit {0}) → Action (Host W) (Unit {0})
  serve waiting = do
    _ ← new_redis o
    _ ← on_success o o.server_starts (λ c. record c { servers = c.servers + 1 })
    _ ← waiting
    _ ← on_success o o.server_stops (λ c. record c { servers = c.servers - 1 })
    close_redis o
