-- ===== src/Migrations/Metadata.antt =====
-- The tables and indexes that the models declare: services/api/app/models, services/inventory/app/
-- models.py and the mixins of services/shared/db/base.py. The migration is generated from them. Foreign
-- keys stand in the order of their columns' names.
use eventsphere.Prelude.{String, List, [], ◌∷◌, ◌++◌, true, false, none, some, Bool}
use eventsphere.Migrations.{
  Schema, api, inventory, TableName, TableDef, IndexDef, Column, ColumnType, ForeignKey,
  CheckConstraint,
}

-- `mapped_column` with this name and type; `Mapped[… | None]` is nullable.
abbrev mapped : String → ColumnType → Bool → Column
mapped name type_ nullable = record {
  name = name;
  type_ = type_;
  nullable = nullable;
  defaults_to_now = false;
}

-- A column of TimestampMixin
abbrev timestamp_of : String → Column
timestamp_of name = record {
  name = name;
  type_ = ColumnType.timestamp;
  nullable = false;
  defaults_to_now = true;
}

-- UUIDPrimaryKeyMixin and TimestampMixin
abbrev mixin_columns : List Column
mixin_columns =
    mapped "id" ColumnType.uuid false ∷ timestamp_of "created_at" ∷ timestamp_of "updated_at" ∷ []

abbrev references : String → TableName → String → ForeignKey
references column table referred = record {
  column = column;
  refers_to = table;
  referred_column = referred;
}

-- A class with both mixins
abbrev model : Schema → List Column → List ForeignKey → List CheckConstraint → TableDef
model schema own foreign_keys checks = record {
  schema = schema;
  columns = own ++ mixin_columns;
  foreign_keys = foreign_keys;
  checks = checks;
  primary_key = "id";
}

abbrev pub user_model : TableDef
user_model =
    model api
      (mapped "email" (ColumnType.string 255) false
        ∷ mapped "hashed_password" (ColumnType.string 255) false
        ∷ mapped "full_name" (ColumnType.string 255) false
        ∷ mapped "role" (ColumnType.enum "user_role" 20 ("attendee" ∷ "organizer" ∷ "admin" ∷ []))
            false
        ∷ mapped "is_active" ColumnType.boolean false
        ∷ [])
      [] []

abbrev pub event_model : TableDef
event_model =
    model api
      (mapped "title" (ColumnType.string 255) false
        ∷ mapped "description" ColumnType.text true
        ∷ mapped "venue" (ColumnType.string 255) false
        ∷ mapped "starts_at" ColumnType.timestamp false
        ∷ mapped "total_seats" ColumnType.integer false
        ∷ mapped "price_cents" ColumnType.integer false
        ∷ mapped "organizer_id" ColumnType.uuid false
        ∷ [])
      (references "organizer_id" TableName.users "id" ∷ []) []

abbrev pub order_model : TableDef
order_model =
    model api
      (mapped "user_id" ColumnType.uuid false
        ∷ mapped "event_id" ColumnType.uuid false
        ∷ mapped "reservation_id" (ColumnType.string 64) false
        ∷ mapped "quantity" ColumnType.integer false
        ∷ mapped "unit_price_cents" ColumnType.integer false
        ∷ mapped "total_price_cents" ColumnType.integer false
        ∷ mapped "status"
            (ColumnType.enum "order_status" 20
              ("pending" ∷ "confirmed" ∷ "cancelled" ∷ "expired" ∷ []))
            false
        ∷ mapped "idempotency_key" (ColumnType.string 128) true
        ∷ [])
      (references "event_id" TableName.events "id" ∷ references "user_id" TableName.users "id" ∷ [])
      (record { name = "ck_orders_quantity_positive"; condition = "quantity > 0" } ∷ [])

-- The class without mixins
abbrev pub event_inventory_model : TableDef
event_inventory_model = record {
  schema = inventory;
  columns =
      mapped "event_id" ColumnType.uuid false
      ∷ mapped "total_capacity" ColumnType.integer false
      ∷ mapped "reserved_count" ColumnType.integer false
      ∷ mapped "confirmed_count" ColumnType.integer false
      ∷ mapped "version" ColumnType.integer false
      ∷ [];
  foreign_keys = [];
  checks = [];
  primary_key = "event_id";
}

abbrev pub reservation_model : TableDef
reservation_model =
    model inventory
      (mapped "event_id" ColumnType.uuid false
        ∷ mapped "order_id" ColumnType.uuid false
        ∷ mapped "quantity" ColumnType.integer false
        ∷ mapped "status"
            (ColumnType.enum "reservation_status" 20
              ("pending" ∷ "confirmed" ∷ "released" ∷ "expired" ∷ []))
            false
        ∷ mapped "expires_at" ColumnType.timestamp false
        ∷ [])
      (references "event_id" TableName.event_inventory "event_id" ∷ []) []

-- `index=True` on a column
abbrev pub indexed : TableName → String → IndexDef
indexed on column = record { on = on; columns = column ∷ []; unique = false; where_ = none }

-- `unique=True, index=True` on the email of User
abbrev pub email_index : IndexDef
email_index = record { on = TableName.users; columns = "email" ∷ []; unique = true; where_ = none }

-- The Index of Order
abbrev pub idempotency_index : IndexDef
idempotency_index = record {
  on = TableName.orders;
  columns = "user_id" ∷ "idempotency_key" ∷ [];
  unique = true;
  where_ = some "idempotency_key IS NOT NULL";
}
