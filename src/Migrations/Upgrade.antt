-- ===== src/Migrations/Upgrade.antt =====
-- The commands of migrations/versions/563d0c19ca00_initial_schema.py on a database that has none of
-- its names: each is accepted, and what they leave together.
use eventsphere.Prelude.{some, true, ◌≡◌, refl, none, List, [], ◌∷◌}
use eventsphere.Migrations.{
  api, inventory, Command, TableName, IndexName, TableDef, ForeignKey, create_schema, upgrade,
  downgrade,
}
use eventsphere.Migrations.Metadata.{
  user_model, event_model, order_model, event_inventory_model, reservation_model, indexed,
  email_index, idempotency_index,
}
use eventsphere.Migrations.Catalog.{Catalog, AllPresent, effect}
use eventsphere.Migrations.Undo.{undo_all, CreatesAll, Closed}

-- None of the names of the migration is in use.
pub record Fresh (v : Catalog) : Type 0 where
  pub no_users : v.tables TableName.users ≡ none
  pub no_event_inventory : v.tables TableName.event_inventory ≡ none
  pub no_events : v.tables TableName.events ≡ none
  pub no_reservations : v.tables TableName.reservations ≡ none
  pub no_orders : v.tables TableName.orders ≡ none
  pub no_users_email : v.indexes IndexName.ix_api_users_email ≡ none
  pub no_events_organizer_id : v.indexes IndexName.ix_api_events_organizer_id ≡ none
  pub no_events_starts_at : v.indexes IndexName.ix_api_events_starts_at ≡ none
  pub no_events_title : v.indexes IndexName.ix_api_events_title ≡ none
  pub no_reservations_event_id : v.indexes IndexName.ix_inventory_reservations_event_id ≡ none
  pub no_reservations_order_id : v.indexes IndexName.ix_inventory_reservations_order_id ≡ none
  pub no_orders_event_id : v.indexes IndexName.ix_api_orders_event_id ≡ none
  pub no_orders_user_id : v.indexes IndexName.ix_api_orders_user_id ≡ none
  pub no_idempotency_key : v.indexes IndexName.ix_orders_user_idempotency_key ≡ none

-- The commands after those that create the schemas.
abbrev pub after_schemas : List Command → List Command
after_schemas (create_schema n ∷ rest) = after_schemas rest
after_schemas cs = cs

abbrev pub with_schemas : Catalog → Catalog
with_schemas v = effect (create_schema inventory) (effect (create_schema api) v)

pub upgrade-CreatesAll :
    (v : Catalog) → Fresh v → CreatesAll (after_schemas upgrade) (with_schemas v)
unfolding upgrade
upgrade-CreatesAll v f = (
  (refl, f.no_users, tt),
  (
    (f.no_users_email, (_, refl)),
    (
      (refl, f.no_event_inventory, tt),
      (
        (refl, f.no_events, ((_, refl), tt)),
        (
          (f.no_events_organizer_id, (_, refl)),
          (
            (f.no_events_starts_at, (_, refl)),
            (
              (f.no_events_title, (_, refl)),
              (
                (refl, f.no_reservations, ((_, refl), tt)),
                (
                  (f.no_reservations_event_id, (_, refl)),
                  (
                    (f.no_reservations_order_id, (_, refl)),
                    (
                      (refl, f.no_orders, ((_, refl), ((_, refl), tt))),
                      (
                        (f.no_orders_event_id, (_, refl)),
                        ((f.no_orders_user_id, (_, refl)), ((f.no_idempotency_key, (_, refl)), tt)),
                      ),
                    ),
                  ),
                ),
              ),
            ),
          ),
        ),
      ),
    ),
  ),
)

pub with_schemas-Closed : (v : Catalog) → Closed v → Closed (with_schemas v)
with_schemas-Closed v closed = record { keys = closed_keys; on = closed.on }
  where
    same_present : (keys : List ForeignKey) → AllPresent v keys → AllPresent (with_schemas v) keys
    same_present [] p = p
    same_present (f ∷ rest) (p, others) = (p, same_present rest others)

    closed_keys :
        (m : TableName) (d : TableDef)
        → v.tables m ≡ some d
        → AllPresent (with_schemas v) d.foreign_keys
    closed_keys m d there = same_present d.foreign_keys (closed.keys m d there)

pub downgrade_undoes : downgrade ≡ undo_all (after_schemas upgrade)
unfolding downgrade upgrade
downgrade_undoes = refl

-- Both schemas, and the tables and indexes as the models declare them, are there.
pub record Upgraded (v : Catalog) : Type 0 where
  pub has_api : v.schemas api ≡ true
  pub has_inventory : v.schemas inventory ≡ true
  pub has_users : v.tables TableName.users ≡ some user_model
  pub has_event_inventory : v.tables TableName.event_inventory ≡ some event_inventory_model
  pub has_events : v.tables TableName.events ≡ some event_model
  pub has_reservations : v.tables TableName.reservations ≡ some reservation_model
  pub has_orders : v.tables TableName.orders ≡ some order_model
  pub has_users_email : v.indexes IndexName.ix_api_users_email ≡ some (email_index)
  pub has_events_organizer_id :
      v.indexes IndexName.ix_api_events_organizer_id
      ≡ some (indexed TableName.events "organizer_id")
  pub has_events_starts_at :
      v.indexes IndexName.ix_api_events_starts_at ≡ some (indexed TableName.events "starts_at")
  pub has_events_title :
      v.indexes IndexName.ix_api_events_title ≡ some (indexed TableName.events "title")
  pub has_reservations_event_id :
      v.indexes IndexName.ix_inventory_reservations_event_id
      ≡ some (indexed TableName.reservations "event_id")
  pub has_reservations_order_id :
      v.indexes IndexName.ix_inventory_reservations_order_id
      ≡ some (indexed TableName.reservations "order_id")
  pub has_orders_event_id :
      v.indexes IndexName.ix_api_orders_event_id ≡ some (indexed TableName.orders "event_id")
  pub has_orders_user_id :
      v.indexes IndexName.ix_api_orders_user_id ≡ some (indexed TableName.orders "user_id")
  pub has_idempotency_key :
      v.indexes IndexName.ix_orders_user_idempotency_key ≡ some (idempotency_index)

abbrev pub effects : List Command → Catalog → Catalog
effects [] v = v
effects (c ∷ rest) v = effects rest (effect c v)

pub effects-Upgraded : (v : Catalog) → Upgraded (effects (after_schemas upgrade) (with_schemas v))
unfolding upgrade
effects-Upgraded v = record {
  has_api = refl;
  has_inventory = refl;
  has_users = refl;
  has_event_inventory = refl;
  has_events = refl;
  has_reservations = refl;
  has_orders = refl;
  has_users_email = refl;
  has_events_organizer_id = refl;
  has_events_starts_at = refl;
  has_events_title = refl;
  has_reservations_event_id = refl;
  has_reservations_order_id = refl;
  has_orders_event_id = refl;
  has_orders_user_id = refl;
  has_idempotency_key = refl;
}
