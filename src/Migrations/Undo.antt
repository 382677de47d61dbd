-- ===== src/Migrations/Undo.antt =====
-- Commands that create, and the commands that take back what they have created, in reverse order.
use mathlib.Core.Path.{subst, fun_ext}
use eventsphere.Prelude.{
  ◌≡◌, refl, sym, ap, ◌∙◌, none, some, List, [], ◌∷◌, ◌++◌, true, ==_refl, Bool-cases, inl, inr,
  arith,
}
use eventsphere.Migrations.{
  Command, TableName, IndexName, TableDef, IndexDef, ForeignKey, same_table, same_index, users,
  event_inventory, events, reservations, orders, ix_api_users_email, ix_api_events_organizer_id,
  ix_api_events_starts_at, ix_api_events_title, ix_inventory_reservations_event_id,
  ix_inventory_reservations_order_id, ix_api_orders_event_id, ix_api_orders_user_id,
  ix_orders_user_idempotency_key, create_schema, create_table, create_index, drop_index, drop_table,
  other_table, other_index,
}
use eventsphere.Migrations.Catalog.{Catalog, Present, AllPresent, Unnamed, Accepted, effect}

same_table_sound : (n m : TableName) → same_table n m ≡ true → n ≡ m
same_table_sound users m h = ground arith
same_table_sound event_inventory m h = ground arith
same_table_sound events m h = ground arith
same_table_sound reservations m h = ground arith
same_table_sound orders m h = ground arith
same_table_sound (other_table j) m h = ground arith

same_index_sound : (i j : IndexName) → same_index i j ≡ true → i ≡ j
same_index_sound ix_api_users_email j h = ground arith
same_index_sound ix_api_events_organizer_id j h = ground arith
same_index_sound ix_api_events_starts_at j h = ground arith
same_index_sound ix_api_events_title j h = ground arith
same_index_sound ix_inventory_reservations_event_id j h = ground arith
same_index_sound ix_inventory_reservations_order_id j h = ground arith
same_index_sound ix_api_orders_event_id j h = ground arith
same_index_sound ix_api_orders_user_id j h = ground arith
same_index_sound ix_orders_user_idempotency_key j h = ground arith
same_index_sound (other_index k) j h = ground arith

same_table_refl : (n : TableName) → same_table n n ≡ true
same_table_refl users = refl
same_table_refl event_inventory = refl
same_table_refl events = refl
same_table_refl reservations = refl
same_table_refl orders = refl
same_table_refl (other_table k) = ==_refl k

pub same_index_refl : (i : IndexName) → same_index i i ≡ true
same_index_refl ix_api_users_email = refl
same_index_refl ix_api_events_organizer_id = refl
same_index_refl ix_api_events_starts_at = refl
same_index_refl ix_api_events_title = refl
same_index_refl ix_inventory_reservations_event_id = refl
same_index_refl ix_inventory_reservations_order_id = refl
same_index_refl ix_api_orders_event_id = refl
same_index_refl ix_api_orders_user_id = refl
same_index_refl ix_orders_user_idempotency_key = refl
same_index_refl (other_index k) = ==_refl k

abbrev pub undo : Command → List Command
undo (create_table n d) = drop_table n ∷ []
undo (create_index i d) = drop_index i ∷ []
undo _ = []

abbrev pub undo_all : List Command → List Command
undo_all [] = []
undo_all (c ∷ rest) = undo_all rest ++ undo c

-- A command that creates a table or an index, and is accepted.
abbrev pub Creates : Command → Catalog → Type 0
Creates (create_schema s) v = ⊥
Creates (drop_index i) v = ⊥
Creates (drop_table n) v = ⊥
Creates c v = Accepted c v

abbrev pub CreatesAll : List Command → Catalog → Type 0
CreatesAll [] v = Unit
CreatesAll (c ∷ rest) v = Creates c v × CreatesAll rest (effect c v)

-- What foreign keys and indexes name is there.
pub record Closed (v : Catalog) : Type 0 where
  pub keys : (m : TableName) (d : TableDef) → v.tables m ≡ some d → AllPresent v d.foreign_keys
  pub on : (i : IndexName) (d : IndexDef) → v.indexes i ≡ some d → Present v d.on

absent_Unnamed :
    (v : Catalog) (n : TableName) (keys : List ForeignKey)
    → v.tables n ≡ none
    → AllPresent v keys
    → Unnamed n keys
absent_Unnamed v n [] h p = tt
absent_Unnamed v n (f ∷ rest) h ((d, there), others) =
    (λ same. absurd (cc (h, there, ap v.tables same)), absent_Unnamed v n rest h others)

module _ (v : Catalog) (closed : Closed v) where
  -- A table that was there is there after a creation.
  still_Present :
      (c : Command) → Creates c v → (x : TableName) → Present v x → Present (effect c v) x
  still_Present (create_schema s) h x p = absurd h
  still_Present (create_index i d) h x p = p
  still_Present (create_table n d) (there_is, new, keys) x (dx, there) =
      elim (Bool-cases (same_table n x)) [
        | inl same ↦ (d, rw same refl)
        | inr other ↦ (dx, rw other there)
      ]
  still_Present (drop_index i) h x p = absurd h
  still_Present (drop_table n) h x p = absurd h

  still_AllPresent :
      (c : Command)
      → Creates c v
      → (keys : List ForeignKey) → AllPresent v keys
      → AllPresent (effect c v) keys
  still_AllPresent c h [] p = tt
  still_AllPresent c h (f ∷ rest) (p, others) =
      (still_Present c h f.refers_to p, still_AllPresent c h rest others)

  table-Closed :
      (n : TableName) (d : TableDef)
      → Creates (create_table n d) v
      → Closed (effect (create_table n d) v)
  table-Closed n d h = record {
    keys = λ m dm there. elim (Bool-cases (same_table n m)) [
      | inl same ↦
          let e : d ≡ dm = cc (rw same at there) in
          still_AllPresent (create_table n d) h dm.foreign_keys
            (subst (λ (x : TableDef). AllPresent v x.foreign_keys) e h.2)
      | inr other ↦
          still_AllPresent (create_table n d) h dm.foreign_keys
            (closed.keys m dm (rw other at there))
    ];
    on = λ i di there. still_Present (create_table n d) h di.on (closed.on i di there);
  }

  index-Closed :
      (i : IndexName) (d : IndexDef)
      → Creates (create_index i d) v
      → Closed (effect (create_index i d) v)
  index-Closed i d h = record {
    keys = closed.keys;
    on = λ j dj there. elim (Bool-cases (same_index i j)) [
      | inl same ↦
          let e : d ≡ dj = cc (rw same at there) in subst (λ (x : IndexDef). Present v x.on) e h.1
      | inr other ↦ closed.on j dj (rw other at there)
    ];
  }

  pub creation-Closed : (c : Command) → Creates c v → Closed (effect c v)
  creation-Closed (create_schema s) h = absurd h
  creation-Closed (create_table n d) h = table-Closed n d h
  creation-Closed (create_index i d) h = index-Closed i d h
  creation-Closed (drop_index i) h = absurd h
  creation-Closed (drop_table n) h = absurd h

  -- What a creation has created may be dropped, and that takes it back.
  pub drop_table-Accepted :
      (n : TableName) (d : TableDef)
      → Creates (create_table n d) v
      → Accepted (drop_table n) (effect (create_table n d) v)
  drop_table-Accepted n d (there_is, new, keys) = (
    (d, rw (same_table_refl n) refl),
    λ m dm there. elim (Bool-cases (same_table n m)) [
      | inl same ↦
          let e : d ≡ dm = cc (rw same at there) in
          subst (λ (x : TableDef). Unnamed n x.foreign_keys) e
            (absent_Unnamed v n d.foreign_keys new keys)
      | inr other ↦ absent_Unnamed v n dm.foreign_keys new (closed.keys m dm (rw other at there))
    ],
    λ i di there same.
        let (dt, present) = closed.on i di there in absurd (cc (new, present, ap v.tables same)),
  )

  pub table_taken_back :
      (n : TableName) (d : TableDef)
      → Creates (create_table n d) v
      → effect (drop_table n) (effect (create_table n d) v) ≡ v
  table_taken_back n d (there_is, new, keys) =
      ap (λ t. record v { tables = t })
        (fun_ext (λ m. elim (Bool-cases (same_table n m)) [
          | inl same ↦ rw same (sym (ap v.tables (sym (same_table_sound n m same)) ∙ new))
          | inr other ↦ rw other refl
        ]))

  pub index_taken_back :
      (i : IndexName) (d : IndexDef)
      → Creates (create_index i d) v
      → effect (drop_index i) (effect (create_index i d) v) ≡ v
  index_taken_back i d (new, there) =
      ap (λ t. record v { indexes = t })
        (fun_ext (λ j. elim (Bool-cases (same_index i j)) [
          | inl same ↦ rw same (sym (ap v.indexes (sym (same_index_sound i j same)) ∙ new))
          | inr other ↦ rw other refl
        ]))
