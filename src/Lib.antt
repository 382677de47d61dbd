-- ===== src/Lib.antt =====
-- EventSphere, a ticket booking system of two services: an HTTP API (services/api) that owns users,
-- events and orders, and an inventory service (services/inventory) that owns the seats of each event
-- and is called by gRPC. Kafka carries what has happened between the API, its workers and the
-- inventory service; Redis holds locks, refresh tokens and the counters of the rate limit.
--
-- How a booking goes: `book_tickets` reserves seats by an RPC, inserts an order that is PENDING, and
-- publishes ORDER_CREATED. The payment worker charges and publishes PAYMENT_PROCESSED; the order
-- status worker then confirms the reservation, or releases it, and moves the order. A reservation
-- that is not settled in time is expired by a sweep of the inventory service.
--
-- The files and the code they stand for:
--   Prelude, Prelude/*: names of the libraries, Booleans, integers, lists.
--   Storage, Storage/*: what the code relies on of a database table, as an interface that every
--     component takes as an instance; Assoc fills it by association lists, for the tests. Listing
--     has what a query keeps of the rows.
--   Redis, Redis/*: the same for Redis, with times to live; Memory fills it.
--   Errors, Enums, Pagination: services/shared/errors.py, enums.py and pagination.py. An action is a
--     function from a state to a result or an error, with the state left in either case.
--   Kafka/Topics, Schemas, Producer, Consumer: the modules of services/shared/kafka.
--   Inventory/Models, Session: services/inventory/app/models.py and core/database.py. A session keeps
--     what is committed and what it sees; `flush_inventory` is the UPDATE guarded by the version
--     column.
--   Inventory/Repository and the files under it: repositories/inventory_repository.py. Where the code
--     awaits, an argument says what other transactions commit there (`Attempt`, `Waits`). Serial
--     compares `reserve` with one undisturbed round of it.
--   Inventory/Ledger and the files under it: what the service promises without its tables, as moves on
--     capacities, seats taken and holds, and how its operations are runs of them.
--   Inventory/Seats and the files under it: the invariant `IsValid` of the two tables, and `IsNext`,
--     which also asks that the version of each inventory row that changes moves up.
--   Inventory/Lock: services/locking.py; Inventory/Service: services/inventory_service.py;
--     Inventory/Servicer: the gRPC handlers; Inventory/History: sequences of operations;
--     Inventory/Workers: the consumer of events and the reaper; Inventory/Service/Drain and
--     Inventory/Workers/Drains: what a sweep and the rounds of the reaper work off.
--   Api/Models, Repositories, Client, Booking, Workers, Tokens, Auth, RateLimit, Events: the models,
--     repositories, grpc_client/inventory_client.py, services/booking_service.py, workers,
--     core/security.py, services/auth_service.py with api/deps.py, core/rate_limit.py, and
--     services/event_service.py of services/api/app; Api/Routes: api/v1.
--   Api/Integrity and the files under it: what the tables of the API keep, over all its operations;
--     Api/Workers/Journey: an order from its booking to its tickets, through the workers.
--   Api/Middleware and the file under it: core/logging.py, the answers of core/rate_limit.py, and the
--     middleware and the handlers of exceptions of `create_app` in main.py.
--   Processes and the files under it: the entry points of the workers (services/api/app/workers and
--     services/inventory/app/workers), `lifespan` of services/api/app/main.py, `serve` of
--     services/inventory/app/main.py, api/v1/health.py, and `start` and `stop` of the producer, the
--     consumer and the inventory client. How a call into a library ends is an argument, `Outside`.
--   Migrations and the files under it: migrations/versions/563d0c19ca00_initial_schema.py, its commands
--     as data. Metadata has the tables that the models declare. Catalog is the interface to
--     PostgreSQL: the commands it accepts, and what they leave.
--   Tests modules apply the theorems at concrete inputs.
--
-- Loops: the retry loops of `reserve` and of the lock run over the number of tries that the settings
-- give, by recursion on it, the rounds of the reaper over a
-- number of rounds, and the loop of a consumer over the messages it reads; no fuel is
-- added. Ids are natural numbers in place of UUIDs; times are natural numbers; seats and prices are
-- integers, which Python does not bound; the errors of PostgreSQL on values that do not fit its
-- 32-bit columns are left out.
--
-- Not modelled: the registration of routes and gRPC services, the set-up of logging, configuration,
-- migrations/env.py, generated stubs, and the bodies of PyJWT, bcrypt, SQLAlchemy, redis-py and aiokafka,
-- which are parameters or the interfaces above. In the API's services a handler runs as one step,
-- but for what is said to be committed before the INSERT of an order or of a user.
pub mod Prelude
pub mod Storage
pub mod Redis
pub mod Errors
pub mod Enums
pub mod Pagination
pub mod Kafka
pub mod Inventory
pub mod Api
pub mod Processes
pub mod Migrations
