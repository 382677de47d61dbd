-- ===== src/Api/Booking/Idempotency.antt =====
-- The idempotency key of a booking.
use eventsphere.Prelude.{
  sym, str_eq, eq_refl, ==_refl, ◌||◌, none, some, ◌≡◌, refl, ℕ, String, true, false, arith, [],
  ◌∷◌, inl, inr, Bool-cases,
}
use eventsphere.Errors.{err, Result, ok}
use eventsphere.Prelude.Lists.{length, select}
use eventsphere.Storage.{Storage}
use eventsphere.Storage.Single.{only_row}
use eventsphere.Api.Models.{User, ApiDb, Order}
use eventsphere.Api.Repositories.{has_key, key_in_use, get_by_idempotency_key, add_order}
use mathlib.Core.Path.{subst}
use eventsphere.Prelude.Int.{ℤ, pos, leb_ℤ}
use eventsphere.Api.Client.{InventoryClient}
use eventsphere.Api.Booking.{new_order, existing_order, World, BookingRun, book_tickets}
use eventsphere.Api.Booking.Outcome.{book_new-Booked}

module _ ⦃S : Storage⦄ where
  -- The INSERT of an order with a key makes that key name the order.
  add_order-key :
      (o : Order) (key : String) (db db' : ApiDb)
      → o.idempotency_key ≡ some key
      → S.get db.orders o.id ≡ none
      → add_order o db ≡ (ok tt, db')
      → get_by_idempotency_key o.user_id key db' ≡ ok (some o)
  unfolding add_order get_by_idempotency_key
  add_order-key o key db db' keyed fresh h =
      elim (Bool-cases (key_in_use o db || leb_ℤ o.quantity (pos 0))) [
        | inl refused ↦ absurd (cc (rw refused at h))
        | inr accepted ↦
            let written : record db { orders = S.put db.orders o.id o } ≡ db' =
              cc (rw accepted at h) in
            let free : key_in_use o db ≡ false = ground (arith, accepted) in
            let none_there : length (select (has_key o.user_id key) (S.rows db.orders)) ≡ 0 =
              ground (arith, rw (keyed, key_in_use) at free) in
            let picked : has_key o.user_id key (o.id, o) ≡ true =
              rw (keyed, ==_refl o.user_id, eq_refl key) refl in
            let one : select (has_key o.user_id key) (S.rows (S.put db.orders o.id o))
                ≡ (o.id, o) ∷ [] =
              only_row (has_key o.user_id key) db.orders o.id o fresh picked none_there in
            rw (← written) (rw one refl)
      ]

module _ ⦃S : Storage⦄ ⦃C : InventoryClient⦄ where
  replayed :
      (b : BookingRun) (user : User) (event_id : ℕ) (quantity : ℤ) (key : String) (w : World)
      (o : Order)
      → str_eq key "" ≡ false
      → get_by_idempotency_key user.id key w.api ≡ ok (some o)
      → book_tickets b user event_id quantity (some key) w ≡ (ok o, w)
  unfolding book_tickets
  replayed b user event_id quantity key w o filled found =
      rw (filled, found, existing_order, book_tickets) refl

  -- A request that repeats the non-empty key of a booking that went through gets the order of
  -- that booking, whatever event and quantity it names, and changes nothing: no seats, no row,
  -- no message. The id drawn for the first booking must not have been in use.
  pub book_twice :
      (b b' : BookingRun) (user : User) (event_id event_id' : ℕ) (quantity quantity' : ℤ)
      (key : String) (w w' : World) (o : Order)
      → str_eq key "" ≡ false
      → S.get (b.meanwhile w.api).orders b.order_id ≡ none
      → book_tickets b user event_id quantity (some key) w ≡ (ok o, w')
      → book_tickets b' user event_id' quantity' (some key) w' ≡ (ok o, w')
  unfolding book_tickets
  book_twice b b' user event_id event_id' quantity quantity' key w w' o filled fresh h =
      elim (get_by_idempotency_key user.id key w.api)
          as (λ x.
            get_by_idempotency_key user.id key w.api ≡ x
            → ◌≡◌ {A = Result Order × World}
                (book_tickets b' user event_id' quantity' (some key) w') (ok o, w')) [
                  | err e ↦
                      λ found. absurd (cc (rw (filled, found, existing_order, book_tickets) at h))
                  | ok (some before) ↦ λ found.
                      let same : ◌≡◌ {A = Result Order × World} (ok before, w) (ok o, w') =
                        rw (filled, found, existing_order, book_tickets) at h in
                      replayed b' user event_id' quantity' key w' o filled (cc (found, same))
                  | ok none ↦ λ found.
                      let booked =
                        book_new-Booked b user event_id quantity (some key) w w' o
                          (rw (filled, found, existing_order, book_tickets) at h) in
                      replayed b' user event_id' quantity' key w' o filled (
                        subst (λ x. get_by_idempotency_key user.id key w'.api ≡ ok (some x))
                          (sym booked.order)
                          (add_order-key
                            (new_order b user event_id booked.event quantity (some key)
                              booked.reservation)
                            key (b.meanwhile w.api) w'.api refl fresh
                            (subst (λ x. add_order x (b.meanwhile w.api) ≡ (ok tt, w'.api))
                              booked.order booked.inserted)))
                ]
        refl
