-- ===== src/Api/Repositories.antt =====
-- services/api/app/repositories and services/shared/db/repository.py: the queries on the tables of
-- the schema `api`. A row is found by its primary key through `get`; other WHERE clauses select
-- from the rows of the table.
use eventsphere.Prelude.{
  str_eq, map, ◌&&◌, some, ltb, ◌||◌, none, false, [], ◌==◌, if◌then◌else◌, ◌∷◌, Bool, ◌∷◌, Option,
  String, List, ℕ,
}
use eventsphere.Api.Models.{ApiDb, Order}
use eventsphere.Storage.{Storage}
use eventsphere.Errors.{integrity, multiple_results, err, ok, Result, Action}
use eventsphere.Enums.{OrderStatus}
use eventsphere.Prelude.Lists.{drop, take, length, select}
use eventsphere.Prelude.Int.{pos, leb_ℤ}

-- `scalar_one_or_none`
abbrev pub scalar_one_or_none : {V : Type 0} → List (ℕ × V) → Result (Option V)
scalar_one_or_none [] = ok none
scalar_one_or_none ((k, v) ∷ []) = ok (some v)
scalar_one_or_none (_ ∷ _ ∷ _) = err multiple_results

-- `==` on an optional text against a text, as SQL has it: NULL equals nothing.
abbrev pub same_text : Option String → String → Bool
same_text none t = false
same_text (some s) t = str_eq s t

abbrev pub has_key : ℕ → String → ℕ × Order → Bool
has_key user_id key (_, o) = o.user_id == user_id && same_text o.idempotency_key key

abbrev pub of_user : ℕ → ℕ × Order → Bool
of_user user_id (_, o) = o.user_id == user_id

-- ORDER BY created_at DESC
abbrev pub insert_newest : ℕ × Order → List (ℕ × Order) → List (ℕ × Order)
insert_newest (k, o) [] = (k, o) ∷ []
insert_newest (k, o) ((j, p) ∷ rest) =
    if ltb o.created_at p.created_at
    then (j, p) ∷ insert_newest (k, o) rest
    else (k, o) ∷ (j, p) ∷ rest

abbrev pub newest_first : List (ℕ × Order) → List (ℕ × Order)
newest_first [] = []
newest_first (row ∷ rest) = insert_newest row (newest_first rest)

module _ ⦃S : Storage⦄ where
  unfoldable pub get_for_user : ℕ → ℕ → ApiDb → Option Order
  get_for_user order_id user_id db = elim (S.get db.orders order_id) [
    | none ↦ none
    | some o ↦ if o.user_id == user_id then some o else none
  ]

  unfoldable pub get_by_idempotency_key : ℕ → String → ApiDb → Result (Option Order)
  get_by_idempotency_key user_id key db =
      scalar_one_or_none (select (has_key user_id key) (S.rows db.orders))

  unfoldable pub list_for_user : ℕ → ℕ → ℕ → ApiDb → List Order × ℕ
  list_for_user user_id limit offset db =
      let found = select (of_user user_id) (S.rows db.orders) in
      (map (λ row. row.1) (take limit (drop offset (newest_first found))), length found)

  -- The partial unique index on (user_id, idempotency_key) and the check on the quantity.
  abbrev pub key_in_use : Order → ApiDb → Bool
  key_in_use o db = elim o.idempotency_key [
    | none ↦ false
    | some key ↦ ltb 0 (length (select (has_key o.user_id key) (S.rows db.orders)))
  ]

  -- INSERT of an order and COMMIT
  unfoldable pub add_order : Order → Action ApiDb (Unit {0})
  add_order o db =
      if key_in_use o db || leb_ℤ o.quantity (pos 0)
      then (err integrity, db)
      else (ok tt, record db { orders = S.put db.orders o.id o })

  -- `order.status = …` and COMMIT
  unfoldable pub set_status : Order → OrderStatus → ApiDb → ApiDb
  set_status o status db = record db {
    orders = S.put db.orders o.id (record o { status = status });
  }
