-- ===== src/Migrations/RoundTrip.antt =====
-- upgrade and then downgrade of migrations/versions/563d0c19ca00_initial_schema.py.
use eventsphere.Prelude.{true, ◌≡◌, refl, sym, ap, ◌∙◌, List, [], ◌∷◌, ◌++◌}
use eventsphere.Errors.{Result, ok, err}
use eventsphere.Migrations.{
  api, inventory, Command, create_schema, create_table, create_index, drop_index, drop_table,
  upgrade, downgrade,
}
use eventsphere.Migrations.Catalog.{Catalog, Ddl, Accepted, effect, and_then, run_commands}
use eventsphere.Migrations.Undo.{
  undo, undo_all, Creates, CreatesAll, Closed, creation-Closed, drop_table-Accepted,
  table_taken_back, index_taken_back, same_index_refl,
}
use mathlib.Core.Path.{subst, fun_ext}
use eventsphere.Migrations.Upgrade.{
  Fresh, Upgraded, after_schemas, with_schemas, effects, upgrade-CreatesAll, with_schemas-Closed,
  downgrade_undoes, effects-Upgraded,
}

module _ ⦃D : Ddl⦄ where
  and_then_assoc :
      (r : Result D.State) (f g : D.State → Result D.State)
      → and_then r (λ s. and_then (f s) g) ≡ and_then (and_then r f) g
  and_then_assoc (ok s) f g = refl
  and_then_assoc (err e) f g = refl

  run_commands-++ :
      (xs ys : List Command) (s : D.State)
      → run_commands (xs ++ ys) s ≡ and_then (run_commands xs s) (run_commands ys)
  unfolding run_commands
  run_commands-++ [] ys s = refl
  run_commands-++ (c ∷ rest) ys s =
      ap (and_then (D.apply c s)) (fun_ext (run_commands-++ rest ys))
      ∙ and_then_assoc (D.apply c s) (run_commands rest) (run_commands ys)

  -- The commands succeed from s, and leave the catalog v.
  abbrev Leaves : List Command → D.State → Catalog → Type 0
  Leaves cs s v = (s' : D.State) × (run_commands cs s ≡ ok s') × (D.view s' ≡ v)

  one_command :
      (c : Command) (s : D.State) (v : Catalog)
      → D.view s ≡ v
      → Accepted c v
      → Leaves (c ∷ []) s (effect c v)
  unfolding run_commands
  one_command c s v h accepted =
      let (s', applied, left) = D.apply-accepted c s (subst (Accepted c) (sym h) accepted) in
      (s', rw applied refl, left ∙ ap (effect c) h)

  undo-Leaves :
      (c : Command) (v : Catalog)
      → Closed v
      → Creates c v
      → (s : D.State) → D.view s ≡ effect c v
      → Leaves (undo c) s v
  unfolding run_commands
  undo-Leaves (create_schema n) v closed h s left = absurd h
  undo-Leaves (create_table n d) v closed h s left =
      subst (Leaves (drop_table n ∷ []) s) (table_taken_back v closed n d h) (
        one_command (drop_table n) s (effect (create_table n d) v) left
          (drop_table-Accepted v closed n d h))
  undo-Leaves (create_index i d) v closed h s left =
      subst (Leaves (drop_index i ∷ []) s) (index_taken_back v closed i d h) (
        one_command (drop_index i) s (effect (create_index i d) v) left
          (d, rw (same_index_refl i) refl))
  undo-Leaves (drop_index i) v closed h s left = absurd h
  undo-Leaves (drop_table n) v closed h s left = absurd h

  Creates-Accepted : (c : Command) (v : Catalog) → Creates c v → Accepted c v
  Creates-Accepted (create_schema n) v h = absurd h
  Creates-Accepted (create_table n d) v h = h
  Creates-Accepted (create_index i d) v h = h
  Creates-Accepted (drop_index i) v h = absurd h
  Creates-Accepted (drop_table n) v h = absurd h

  undo_all-Leaves :
      (cs : List Command) (v : Catalog)
      → Closed v
      → CreatesAll cs v
      → (s : D.State) → D.view s ≡ v
      → (s₁ : D.State) × (run_commands cs s ≡ ok s₁)
        × (D.view s₁ ≡ effects cs v)
        × Leaves (undo_all cs) s₁ v
  unfolding run_commands
  undo_all-Leaves [] v closed h s view = (s, refl, view, (s, refl, view))
  undo_all-Leaves (c ∷ rest) v closed (creates, others) s view =
      let (s', applied, left) =
        D.apply-accepted c s (subst (Accepted c) (sym view) (Creates-Accepted c v creates)) in
      let (s₁, ran, seen, (s₂, undone, back)) =
        undo_all-Leaves rest (effect c v) (creation-Closed v closed c creates) others s'
          (left ∙ ap (effect c) view) in
      let (s₃, last, there) = undo-Leaves c v closed creates s₂ back in
      (
        s₁,
        rw applied ran,
        seen,
        (
          s₃,
          run_commands-++ (undo_all rest) (undo c) s₁
              ∙ ap (λ r. and_then r (run_commands (undo c))) undone
              ∙ last,
          there,
        ),
      )

  schemas_first :
      (s : D.State) (v : Catalog)
      → D.view s ≡ v
      → (s' : D.State) × (run_commands upgrade s ≡ run_commands (after_schemas upgrade) s')
        × (D.view s' ≡ with_schemas v)
  unfolding upgrade run_commands
  schemas_first s v h =
      let (s₁, first, left) = D.apply-accepted (create_schema api) s tt in
      let (s₂, second, left') = D.apply-accepted (create_schema inventory) s₁ tt in
      (
        s₂,
        rw (first, second) refl,
        left' ∙ ap (effect (create_schema inventory)) (left ∙ ap (effect (create_schema api)) h),
      )

  -- On a database whose foreign keys and indexes name tables that are there, and in which none of the
  -- names of the migration is in use, `upgrade` succeeds and leaves both schemas, and the five tables
  -- and nine indexes as the models declare them; `downgrade` succeeds after it, and the tables and
  -- indexes are then again those of before. It keeps the schemas.
  pub downgrade-upgrade :
      (s : D.State)
      → Closed (D.view s)
      → Fresh (D.view s)
      → (s₁ s₂ : D.State) × (run_commands upgrade s ≡ ok s₁)
        × Upgraded (D.view s₁)
        × (run_commands downgrade s₁ ≡ ok s₂)
        × ((D.view s₂).tables ≡ (D.view s).tables)
        × ((D.view s₂).indexes ≡ (D.view s).indexes)
        × ((D.view s₂).schemas api ≡ true)
        × ((D.view s₂).schemas inventory ≡ true)
  downgrade-upgrade s closed fresh =
      let v : Catalog = D.view s in
      let (s', skipped, view) = schemas_first s v refl in
      let (s₁, ran, seen, (s₂, undone, back)) =
        undo_all-Leaves (after_schemas upgrade) (with_schemas v) (with_schemas-Closed v closed)
          (upgrade-CreatesAll v fresh) s' view in
      (
        s₁,
        s₂,
        skipped ∙ ran,
        subst Upgraded (sym seen) (effects-Upgraded v),
        ap (λ cs. run_commands cs s₁) downgrade_undoes ∙ undone,
        ap (λ (x : Catalog). x.tables) back,
        ap (λ (x : Catalog). x.indexes) back,
        ap (λ (x : Catalog). x.schemas api) back,
        ap (λ (x : Catalog). x.schemas inventory) back,
      )
