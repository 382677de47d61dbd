-- ===== src/Inventory/Models.antt =====
-- services/inventory/app/models.py: the two tables that the inventory service owns. Ids are
-- UUIDs, which are only compared, so they are numbers; a time is a count of microseconds, the
-- resolution of Python's datetime. The timestamps of `TimestampMixin` are set by the server and
-- never read, and are left out.
use eventsphere.Prelude.{ℕ}
use eventsphere.Prelude.Int.{ℤ, ◌-ℤ◌}
use eventsphere.Enums.{ReservationStatus}
use eventsphere.Storage.{Storage}

pub record EventInventory : Type 0 where
  pub event_id : ℕ
  pub total_capacity : ℤ
  pub reserved_count : ℤ
  pub confirmed_count : ℤ
  pub version : ℕ

unfoldable pub available : EventInventory → ℤ
available inv = inv.total_capacity -ℤ inv.reserved_count -ℤ inv.confirmed_count

pub record Reservation : Type 0 where
  pub id : ℕ
  pub event_id : ℕ
  pub order_id : ℕ
  pub quantity : ℤ
  pub status : ReservationStatus
  pub expires_at : ℕ

-- The schema `inventory`.
pub record Db ⦃S : Storage⦄ : Type 0 where
  pub inventories : S.Table EventInventory
  pub reservations : S.Table Reservation
