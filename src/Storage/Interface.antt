-- ===== src/Storage/Interface.antt =====
-- The interface of the stores, with the behaviour that their documentation promises.
use mathlib.Core.List.{Perm}
use eventsphere.Prelude.{ℕ, ◌<◌, ◌≡◌, Option, none, some, List, [], ◌∷◌, ◌==◌, if◌then◌else◌, false}

module _ {V : Type 0} where
  -- No row of the list has this key.
  abbrev pub Absent : ℕ → List (ℕ × V) → Type 0
  Absent k [] = Unit
  Absent k ((j, v) ∷ rest) = ((j == k) ≡ false) × Absent k rest

  -- The list holds rows that are stored, each once.
  abbrev pub Listed : (ℕ → Option V) → List (ℕ × V) → Type 0
  Listed stored [] = Unit
  Listed stored ((k, v) ∷ rest) = (stored k ≡ some v) × Absent k rest × Listed stored rest

pub record Storage : Type 1 where
  pub Table : Type 0 → Type 0
  pub empty : {V : Type 0} → Table V
  -- SELECT by primary key
  pub get : {V : Type 0} → Table V → ℕ → Option V
  -- INSERT of a row, or UPDATE of the row that has this key
  pub put : {V : Type 0} → Table V → ℕ → V → Table V
  pub delete : {V : Type 0} → Table V → ℕ → Table V
  -- SELECT with no WHERE: the rows in some order, with their keys
  pub rows : {V : Type 0} → Table V → List (ℕ × V)
  pub get-empty : {V : Type 0} (k : ℕ) → get (empty {V = V}) k ≡ none
  pub rows-empty : {V : Type 0} → rows (empty {V = V}) ≡ []
  pub get-put :
      {V : Type 0} (t : Table V) (k j : ℕ) (v : V)
      → get (put t k v) j ≡ (if k == j then some v else get t j)
  pub get-delete :
      {V : Type 0} (t : Table V) (k j : ℕ) → get (delete t k) j ≡ (if k == j then none else get t j)
  pub rows-insert :
      {V : Type 0} (t : Table V) (k : ℕ) (v : V)
      → get t k ≡ none
      → Perm (rows (put t k v)) ((k, v) ∷ rows t)
  pub rows-update :
      {V : Type 0} (t : Table V) (k : ℕ) (old v : V)
      → get t k ≡ some old
      → Perm ((k, old) ∷ rows (put t k v)) ((k, v) ∷ rows t)
  pub rows-Listed : {V : Type 0} (t : Table V) → Listed (get t) (rows t)
  -- SQLAlchemy's counter for a `version_id_col`: the value of the first INSERT, and the next one
  pub first_version : ℕ
  pub next_version : ℕ → ℕ
  pub lt-next_version : (v : ℕ) → v < next_version v
