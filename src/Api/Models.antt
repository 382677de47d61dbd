-- ===== src/Api/Models.antt =====
-- services/api/app/models: the tables of the schema `api`. Ids are numbers, as in the inventory
-- service. Times are microseconds. The server's timestamps are left out, but for the order's
-- `created_at`, by which listings are sorted.
use eventsphere.Prelude.{Bool, String, Option, ℕ}
use eventsphere.Storage.{Storage}
use eventsphere.Prelude.Int.{ℤ}
use eventsphere.Enums.{UserRole, OrderStatus}

pub record User : Type 0 where
  pub id : ℕ
  pub email : String
  pub hashed_password : String
  pub full_name : String
  pub role : UserRole
  pub is_active : Bool

pub record Event : Type 0 where
  pub id : ℕ
  pub title : String
  pub description : Option String
  pub venue : String
  pub starts_at : ℕ
  pub total_seats : ℤ
  pub price_cents : ℤ
  pub organizer_id : ℕ

pub record Order : Type 0 where
  pub id : ℕ
  pub user_id : ℕ
  pub event_id : ℕ
  pub reservation_id : ℕ
  pub quantity : ℤ
  pub unit_price_cents : ℤ
  pub total_price_cents : ℤ
  pub status : OrderStatus
  pub idempotency_key : Option String
  pub created_at : ℕ

pub record ApiDb ⦃S : Storage⦄ : Type 0 where
  pub users : S.Table User
  pub events : S.Table Event
  pub orders : S.Table Order
