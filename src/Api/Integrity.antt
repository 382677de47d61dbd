-- ===== src/Api/Integrity.antt =====
-- What the tables of the schema `api` keep: rows under their own ids, no email and no pair of a user
-- and an idempotency key twice, positive quantities, and totals that are price times quantity.
pub mod Triples
pub mod Operations
pub mod Events
pub mod History
mod Tests
use eventsphere.Prelude.{
  ℕ, ◌+◌, ◌≤◌, ◌≡◌, refl, sym, ap, ◌∙◌, Bool, true, false, none, some, Option, String, str_eq,
  eq_iff, ltb, ◌==◌, ==_iff, ==_refl, ◌&&◌, ◌||◌, if◌then◌else◌, inl, inr, Bool-cases, arith,
}
use eventsphere.Prelude.Int.{ℤ, pos, ◌*ℤ◌, ◌<ℤ◌, leb_ℤ}
use eventsphere.Prelude.Lists.{length, select}
use eventsphere.Enums.{OrderStatus}
use eventsphere.Errors.{ok, err}
use eventsphere.Storage.{Storage}
use eventsphere.Storage.Single.{length-select-insert, length-select-update}
use eventsphere.Api.Auth.{add_user, has_email, email_in_use}
use eventsphere.Api.Models.{ApiDb, Event, Order, User}
use eventsphere.Api.Repositories.{add_order, has_key, key_in_use, set_status, same_text}

module _ ⦃S : Storage⦄ where
  pub record IsSound (db : ApiDb) : Type 0 where
    pub users : (k : ℕ) (u : User) → S.get db.users k ≡ some u → u.id ≡ k
    pub events : (k : ℕ) (e : Event) → S.get db.events k ≡ some e → e.id ≡ k
    pub orders : (k : ℕ) (o : Order) → S.get db.orders k ≡ some o → o.id ≡ k
    pub positive : (k : ℕ) (o : Order) → S.get db.orders k ≡ some o → pos 0 <ℤ o.quantity
    pub priced :
        (k : ℕ) (o : Order)
        → S.get db.orders k ≡ some o
        → o.total_price_cents ≡ o.unit_price_cents *ℤ o.quantity
    pub one_email : (email : String) → length (select (has_email email) (S.rows db.users)) ≤ 1
    pub one_key :
        (user_id : ℕ) (key : String) → length (select (has_key user_id key) (S.rows db.orders)) ≤ 1

  -- The rows that an inserted one adds to a query.
  at_most_one :
      (b : Bool) (n m : ℕ) → m ≡ (if b then 1 else 0) + n → n ≤ 1 → (b ≡ true → n ≡ 0) → m ≤ 1
  at_most_one true n m e le free = let z = free refl in omega arith
  at_most_one false n m e le free = omega arith

  -- The unique index on the email.
  pub add_user-IsSound :
      (u : User) (db : ApiDb) → S.get db.users u.id ≡ none → IsSound db → IsSound (add_user u db).1
  unfolding add_user
  add_user-IsSound u db fresh sound = elim (Bool-cases (email_in_use u.email db)) [
    | inl used ↦ rw (used, add_user) sound
    | inr free ↦
        let none_there : length (select (has_email u.email) (S.rows db.users)) ≡ 0 =
          ground (arith, free) in
        rw (free, add_user)
          (record {
            users = λ k v h. ground (arith, S.get-put db.users u.id k u, sound.users k v);
            events = sound.events;
            orders = sound.orders;
            positive = sound.positive;
            priced = sound.priced;
            one_email = λ email.
                at_most_one (str_eq u.email email) _ _
                  (length-select-insert (has_email email) db.users u.id u fresh)
                  (sound.one_email email)
                  (λ same.
                    ap (λ e. length (select (has_email e) (S.rows db.users)))
                      (sym ((eq_iff u.email email).0 same))
                    ∙ none_there);
            one_key = sound.one_key;
          })
  ]

  -- The unique index on the user and the key.
  key_free :
      (o : Order) (db : ApiDb) (user_id : ℕ) (key : String) (t : Option String)
      → o.idempotency_key ≡ t
      → key_in_use o db ≡ false
      → (o.user_id == user_id && same_text t key) ≡ true
      → length (select (has_key user_id key) (S.rows db.orders)) ≡ 0
  key_free o db user_id key none e free same = absurd (ground arith)
  key_free o db user_id key (some k) e free same =
      let own : o.user_id ≡ user_id = ground arith in
      let text : k ≡ key = (eq_iff k key).0 (ground arith) in
      let unused : ltb 0 (length (select (has_key o.user_id k) (S.rows db.orders))) ≡ false =
        rw (e, key_in_use) at free in
      rw (← own, ← text) (ground (arith, unused))

  pub add_order-IsSound :
      (o : Order) (db : ApiDb)
      → S.get db.orders o.id ≡ none
      → o.total_price_cents ≡ o.unit_price_cents *ℤ o.quantity
      → IsSound db
      → IsSound (add_order o db).1
  unfolding add_order
  add_order-IsSound o db fresh priced sound =
      elim (Bool-cases (key_in_use o db || leb_ℤ o.quantity (pos 0))) [
        | inl refused ↦ rw (refused, add_order) sound
        | inr accepted ↦
            let free : key_in_use o db ≡ false = ground (arith, accepted) in
            let more : leb_ℤ o.quantity (pos 0) ≡ false = ground (arith, accepted) in
            rw (accepted, add_order)
              (record {
                users = sound.users;
                events = sound.events;
                orders = λ k v h. ground (arith, S.get-put db.orders o.id k o, sound.orders k v);
                positive =
                    λ k v h. ground (arith, S.get-put db.orders o.id k o, sound.positive k v, more);
                priced =
                    λ k v h. ground (arith, S.get-put db.orders o.id k o, sound.priced k v, priced);
                one_email = sound.one_email;
                one_key = λ user_id key.
                    at_most_one (has_key user_id key (o.id, o)) _ _
                      (length-select-insert (has_key user_id key) db.orders o.id o fresh)
                      (sound.one_key user_id key)
                      (key_free o db user_id key o.idempotency_key refl free);
              })
      ]

  pub set_status-IsSound :
      (o : Order) (status : OrderStatus) (k : ℕ) (db : ApiDb)
      → S.get db.orders k ≡ some o
      → IsSound db
      → IsSound (set_status o status db)
  unfolding set_status
  set_status-IsSound o status k db found sound =
      let key : o.id ≡ k = sound.orders k o found in
      let stored : S.get db.orders o.id ≡ some o = cc in
      let o' : Order = record o { status = status } in
      record {
        users = sound.users;
        events = sound.events;
        orders = λ j v h. ground (arith, S.get-put db.orders o.id j o', sound.orders j v);
        positive = λ j v h.
            ground (arith, S.get-put db.orders o.id j o', sound.positive j v, sound.positive k o);
        priced = λ j v h.
            ground (arith, S.get-put db.orders o.id j o', sound.priced j v, sound.priced k o);
        one_email = sound.one_email;
        one_key = λ user_id key.
            let same = length-select-update (has_key user_id key) db.orders o.id o o' stored refl in
            let before = sound.one_key user_id key in omega arith;
      }
