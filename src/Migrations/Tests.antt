-- ===== src/Migrations/Tests.antt =====
-- The migration on an empty database, in which a command is applied to the catalog alone.
use eventsphere.Prelude.{◌≡◌, refl, none, true, false}
use eventsphere.Errors.{ok}
use eventsphere.Migrations.{api, inventory, upgrade, downgrade}
use eventsphere.Migrations.Catalog.{Catalog, Ddl, effect, run_commands}
use eventsphere.Migrations.Undo.{Closed}
use eventsphere.Migrations.RoundTrip.{downgrade-upgrade}
use eventsphere.Migrations.Upgrade.{Fresh, Upgraded}

instance abbrev catalog_only : Ddl
catalog_only = record {
  State = Catalog;
  view = λ v. v;
  apply = λ c v. ok (effect c v);
  apply-accepted = λ c v h. (effect c v, refl, refl);
}

abbrev empty_catalog : Catalog
empty_catalog = record { schemas = λ n. false; tables = λ n. none; indexes = λ i. none }

empty-Closed : Closed empty_catalog
empty-Closed = record { keys = λ m d h. absurd (cc h); on = λ i d h. absurd (cc h) }

empty-Fresh : Fresh empty_catalog
empty-Fresh = record {
  no_users = refl;
  no_event_inventory = refl;
  no_events = refl;
  no_reservations = refl;
  no_orders = refl;
  no_users_email = refl;
  no_events_organizer_id = refl;
  no_events_starts_at = refl;
  no_events_title = refl;
  no_reservations_event_id = refl;
  no_reservations_order_id = refl;
  no_orders_event_id = refl;
  no_orders_user_id = refl;
  no_idempotency_key = refl;
}

downgrade-upgrade_example :
    (s₁ s₂ : Catalog) × (run_commands upgrade empty_catalog ≡ ok s₁)
    × Upgraded s₁
    × (run_commands downgrade s₁ ≡ ok s₂)
    × (s₂.tables ≡ empty_catalog.tables)
    × (s₂.indexes ≡ empty_catalog.indexes)
    × (s₂.schemas api ≡ true)
    × (s₂.schemas inventory ≡ true)
downgrade-upgrade_example = downgrade-upgrade empty_catalog empty-Closed empty-Fresh
