-- ===== src/Migrations/Catalog.antt =====
-- What the migration relies on of PostgreSQL: cases in which it accepts a command, and what the
-- command then leaves. A catalog is the part of the database that the commands name.
use eventsphere.Prelude.{◌≡◌, ◌≢◌, Option, none, some, List, [], ◌∷◌, if◌then◌else◌, Bool, true}
use eventsphere.Errors.{Result, ok, err}
use eventsphere.Migrations.{
  Command, Schema, same_schema, TableName, IndexName, TableDef, IndexDef, ForeignKey, same_table,
  same_index, create_schema, create_table, create_index, drop_index, drop_table,
}

pub record Catalog : Type 0 where
  pub schemas : Schema → Bool
  pub tables : TableName → Option TableDef
  pub indexes : IndexName → Option IndexDef

-- A table that is there.
abbrev pub Present : Catalog → TableName → Type 0
Present v n = (d : TableDef) × (v.tables n ≡ some d)

-- The tables that the foreign keys name are there.
abbrev pub AllPresent : Catalog → List ForeignKey → Type 0
AllPresent v [] = Unit
AllPresent v (f ∷ rest) = Present v f.refers_to × AllPresent v rest

-- No foreign key names this table.
abbrev pub Unnamed : TableName → List ForeignKey → Type 0
Unnamed n [] = Unit
Unnamed n (f ∷ rest) = (f.refers_to ≢ n) × Unnamed n rest

-- A case in which a command is accepted: the names are new, or there; the
-- schema of a new table, and what a foreign key or an index
-- names is there; nothing that is left depends on what is dropped.
abbrev pub Accepted : Command → Catalog → Type 0
Accepted (create_schema s) v = Unit
Accepted (create_table n d) v =
    (v.schemas d.schema ≡ true) × (v.tables n ≡ none) × AllPresent v d.foreign_keys
Accepted (create_index i d) v = (v.indexes i ≡ none) × Present v d.on
Accepted (drop_index i) v = (d : IndexDef) × (v.indexes i ≡ some d)
Accepted (drop_table n) v =
    Present v n
    × ((m : TableName) (d : TableDef) → v.tables m ≡ some d → Unnamed n d.foreign_keys)
    × ((i : IndexName) (d : IndexDef) → v.indexes i ≡ some d → d.on ≢ n)

-- What a command leaves.
abbrev pub effect : Command → Catalog → Catalog
effect (create_schema s) v = record v {
  schemas = λ r. if same_schema s r then true else v.schemas r;
}
effect (create_table n d) v = record v {
  tables = λ m. if same_table n m then some d else v.tables m;
}
effect (create_index i d) v = record v {
  indexes = λ j. if same_index i j then some d else v.indexes j;
}
effect (drop_index i) v = record v { indexes = λ j. if same_index i j then none else v.indexes j }
effect (drop_table n) v = record v { tables = λ m. if same_table n m then none else v.tables m }

pub record Ddl : Type 1 where
  pub State : Type 0
  pub view : State → Catalog
  pub apply : Command → State → Result State
  pub apply-accepted :
      (c : Command) (s : State)
      → Accepted c (view s)
      → (s' : State) × (apply c s ≡ ok s') × (view s' ≡ effect c (view s))

-- The commands one after the other; an error ends the migration.
module _ ⦃D : Ddl⦄ where
  abbrev pub and_then : Result D.State → (D.State → Result D.State) → Result D.State
  and_then (ok s) rest = rest s
  and_then (err e) rest = err e

  unfoldable pub run_commands : List Command → D.State → Result D.State
  run_commands [] s = ok s
  run_commands (c ∷ rest) s = and_then (D.apply c s) (run_commands rest)
