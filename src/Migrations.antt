-- ===== src/Migrations.antt =====
-- migrations/versions/563d0c19ca00_initial_schema.py: the commands of the migration. What they do to
-- a database is PostgreSQL's, and stands in `Catalog` as an interface.
pub mod Catalog
pub mod Undo
pub mod Metadata
pub mod Upgrade
pub mod RoundTrip
mod Tests
use eventsphere.Prelude.{ℕ, Bool, true, false, ◌==◌, Option, none, some, String, List, [], ◌∷◌}

pub data Schema : Type 0 where
  api inventory : Schema

abbrev pub same_schema : Schema → Schema → Bool
same_schema api api = true
same_schema inventory inventory = true
same_schema _ _ = false

-- The tables of the migration, and any others of the database.
pub data TableName : Type 0 where
  users event_inventory events reservations orders : TableName
  other_table : ℕ → TableName

pub data IndexName : Type 0 where
  ix_api_users_email ix_api_events_organizer_id ix_api_events_starts_at ix_api_events_title
        ix_inventory_reservations_event_id ix_inventory_reservations_order_id ix_api_orders_event_id
        ix_api_orders_user_id ix_orders_user_idempotency_key :
      IndexName
  other_index : ℕ → IndexName

abbrev pub same_table : TableName → TableName → Bool
same_table users users = true
same_table event_inventory event_inventory = true
same_table events events = true
same_table reservations reservations = true
same_table orders orders = true
same_table (other_table j) (other_table k) = j == k
same_table _ _ = false

abbrev pub same_index : IndexName → IndexName → Bool
same_index ix_api_users_email ix_api_users_email = true
same_index ix_api_events_organizer_id ix_api_events_organizer_id = true
same_index ix_api_events_starts_at ix_api_events_starts_at = true
same_index ix_api_events_title ix_api_events_title = true
same_index ix_inventory_reservations_event_id ix_inventory_reservations_event_id = true
same_index ix_inventory_reservations_order_id ix_inventory_reservations_order_id = true
same_index ix_api_orders_event_id ix_api_orders_event_id = true
same_index ix_api_orders_user_id ix_api_orders_user_id = true
same_index ix_orders_user_idempotency_key ix_orders_user_idempotency_key = true
same_index (other_index j) (other_index k) = j == k
same_index _ _ = false

pub data ColumnType : Type 0 where
  string : ℕ → ColumnType
  -- `sa.Enum` with `native_enum=False`: its name, its length and its values.
  enum : String → ℕ → List String → ColumnType
  text integer boolean uuid timestamp : ColumnType

pub record Column : Type 0 where
  pub name : String
  pub type_ : ColumnType
  pub nullable : Bool
  -- `server_default=sa.text('now()')`
  pub defaults_to_now : Bool

pub record ForeignKey : Type 0 where
  pub column : String
  pub refers_to : TableName
  pub referred_column : String

pub record CheckConstraint : Type 0 where
  pub name : String
  pub condition : String

pub record TableDef : Type 0 where
  pub schema : Schema
  pub columns : List Column
  pub foreign_keys : List ForeignKey
  pub checks : List CheckConstraint
  pub primary_key : String

pub record IndexDef : Type 0 where
  pub on : TableName
  pub columns : List String
  pub unique : Bool
  pub where_ : Option String

-- What `op.execute`, `op.create_table` and the like send. `create_schema` is CREATE SCHEMA IF NOT
-- EXISTS. The schema of an index is that of its table.
pub data Command : Type 0 where
  create_schema : Schema → Command
  create_table : TableName → TableDef → Command
  create_index : IndexName → IndexDef → Command
  drop_index : IndexName → Command
  drop_table : TableName → Command

abbrev column : String → ColumnType → Column
column name type_ = record { name = name; type_ = type_; nullable = false; defaults_to_now = false }

abbrev nullable_column : String → ColumnType → Column
nullable_column name type_ = record (column name type_) { nullable = true }

abbrev now_column : String → Column
now_column name = record (column name timestamp) { defaults_to_now = true }

abbrev pub users_table : TableDef
users_table = record {
  schema = api;
  columns =
      column "email" (string 255)
      ∷ column "hashed_password" (string 255)
      ∷ column "full_name" (string 255)
      ∷ column "role" (enum "user_role" 20 ("attendee" ∷ "organizer" ∷ "admin" ∷ []))
      ∷ column "is_active" boolean
      ∷ column "id" uuid
      ∷ now_column "created_at"
      ∷ now_column "updated_at"
      ∷ [];
  foreign_keys = [];
  checks = [];
  primary_key = "id";
}

abbrev pub event_inventory_table : TableDef
event_inventory_table = record {
  schema = inventory;
  columns =
      column "event_id" uuid
      ∷ column "total_capacity" integer
      ∷ column "reserved_count" integer
      ∷ column "confirmed_count" integer
      ∷ column "version" integer
      ∷ [];
  foreign_keys = [];
  checks = [];
  primary_key = "event_id";
}

abbrev pub events_table : TableDef
events_table = record {
  schema = api;
  columns =
      column "title" (string 255)
      ∷ nullable_column "description" text
      ∷ column "venue" (string 255)
      ∷ column "starts_at" timestamp
      ∷ column "total_seats" integer
      ∷ column "price_cents" integer
      ∷ column "organizer_id" uuid
      ∷ column "id" uuid
      ∷ now_column "created_at"
      ∷ now_column "updated_at"
      ∷ [];
  foreign_keys = record { column = "organizer_id"; refers_to = users; referred_column = "id" } ∷ [];
  checks = [];
  primary_key = "id";
}

abbrev pub reservations_table : TableDef
reservations_table = record {
  schema = inventory;
  columns =
      column "event_id" uuid
      ∷ column "order_id" uuid
      ∷ column "quantity" integer
      ∷ column "status"
          (enum "reservation_status" 20 ("pending" ∷ "confirmed" ∷ "released" ∷ "expired" ∷ []))
      ∷ column "expires_at" timestamp
      ∷ column "id" uuid
      ∷ now_column "created_at"
      ∷ now_column "updated_at"
      ∷ [];
  foreign_keys =
      record { column = "event_id"; refers_to = event_inventory; referred_column = "event_id" }
      ∷ [];
  checks = [];
  primary_key = "id";
}

abbrev pub orders_table : TableDef
orders_table = record {
  schema = api;
  columns =
      column "user_id" uuid
      ∷ column "event_id" uuid
      ∷ column "reservation_id" (string 64)
      ∷ column "quantity" integer
      ∷ column "unit_price_cents" integer
      ∷ column "total_price_cents" integer
      ∷ column "status"
          (enum "order_status" 20 ("pending" ∷ "confirmed" ∷ "cancelled" ∷ "expired" ∷ []))
      ∷ nullable_column "idempotency_key" (string 128)
      ∷ column "id" uuid
      ∷ now_column "created_at"
      ∷ now_column "updated_at"
      ∷ [];
  foreign_keys =
      record { column = "event_id"; refers_to = events; referred_column = "id" }
      ∷ record { column = "user_id"; refers_to = users; referred_column = "id" }
      ∷ [];
  checks = record { name = "ck_orders_quantity_positive"; condition = "quantity > 0" } ∷ [];
  primary_key = "id";
}

abbrev pub index : TableName → List String → Bool → Option String → IndexDef
index on columns unique where_ = record {
  on = on;
  columns = columns;
  unique = unique;
  where_ = where_;
}

unfoldable pub upgrade : List Command
upgrade =
    create_schema api
    ∷ create_schema inventory
    ∷ create_table users users_table
    ∷ create_index ix_api_users_email (index users ("email" ∷ []) true none)
    ∷ create_table event_inventory event_inventory_table
    ∷ create_table events events_table
    ∷ create_index ix_api_events_organizer_id (index events ("organizer_id" ∷ []) false none)
    ∷ create_index ix_api_events_starts_at (index events ("starts_at" ∷ []) false none)
    ∷ create_index ix_api_events_title (index events ("title" ∷ []) false none)
    ∷ create_table reservations reservations_table
    ∷ create_index ix_inventory_reservations_event_id
        (index reservations ("event_id" ∷ []) false none)
    ∷ create_index ix_inventory_reservations_order_id
        (index reservations ("order_id" ∷ []) false none)
    ∷ create_table orders orders_table
    ∷ create_index ix_api_orders_event_id (index orders ("event_id" ∷ []) false none)
    ∷ create_index ix_api_orders_user_id (index orders ("user_id" ∷ []) false none)
    ∷ create_index ix_orders_user_idempotency_key (
        index orders ("user_id" ∷ "idempotency_key" ∷ []) true (some "idempotency_key IS NOT NULL"))
    ∷ []

unfoldable pub downgrade : List Command
downgrade =
    drop_index ix_orders_user_idempotency_key
    ∷ drop_index ix_api_orders_user_id
    ∷ drop_index ix_api_orders_event_id
    ∷ drop_table orders
    ∷ drop_index ix_inventory_reservations_order_id
    ∷ drop_index ix_inventory_reservations_event_id
    ∷ drop_table reservations
    ∷ drop_index ix_api_events_title
    ∷ drop_index ix_api_events_starts_at
    ∷ drop_index ix_api_events_organizer_id
    ∷ drop_table events
    ∷ drop_table event_inventory
    ∷ drop_index ix_api_users_email
    ∷ drop_table users
    ∷ []
