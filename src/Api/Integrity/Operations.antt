-- ===== src/Api/Integrity/Operations.antt =====
-- The operations on the tables of the schema `api` keep them sound.
use eventsphere.Prelude.{ℕ, ◌≡◌, refl, none, some, Option, String, true}
use eventsphere.Prelude.Int.{ℤ}
use eventsphere.Errors.{Result, ok, err, Action}
use eventsphere.Api.Booking.Cancel.{own_order}
use eventsphere.Enums.{OrderStatus, UserRole}
use eventsphere.Storage.{Storage}
use eventsphere.Kafka.Producer.{Producer, Message, publish}
use eventsphere.Kafka.Topics.{order_created, order_cancelled}
use eventsphere.Kafka.Schemas.{order_cancelled_payload}
use eventsphere.Api.Client.{InventoryClient}
use eventsphere.Api.Models.{ApiDb, Order, User}
use eventsphere.Api.Tokens.{Bcrypt, hash_password}
use eventsphere.Api.Auth.{register, get_by_email, add_user, refuse_existing}
use eventsphere.Api.Workers.{handle_status_message}
use eventsphere.Api.Workers.Status.{Moves, status_handler-Moves, none_moved, moved}
use eventsphere.Api.Repositories.{add_order, get_for_user, set_status}
use eventsphere.Api.Booking.{
  World, BookingRun, book_new, book_tickets, cancel_order, may_cancel, new_order, existing_order,
  replay_or, on_api, on_inventory, on_kafka, order_created_message,
}
use eventsphere.Api.Integrity.{IsSound, add_user-IsSound, add_order-IsSound, set_status-IsSound}
use eventsphere.Api.Integrity.Triples.{
  After, Triple, then-Triple, or_raise-Triple, query-Triple, stronger-Triple, pure-Triple,
}

module _ ⦃S : Storage⦄ ⦃C : InventoryClient⦄ where
  -- A condition on the tables alone
  abbrev pub OnApi : (ApiDb → Type 0) → World → Type 0
  OnApi P w = P w.api

  -- A call of the inventory service, or of Kafka, leaves the tables.
  on_inventory-Triple :
      {A : Type 0} (P : ApiDb → Type 0) (bad : ApiDb → Type 0) (m : Action C.State A)
      → ((db : ApiDb) → P db → bad db)
      → Triple (OnApi P) (on_inventory m) (λ _. OnApi P) (OnApi bad)
  on_inventory-Triple {A = A} P bad m gives = record { runs = λ w h. called w h (m w.inventory) }
    where
      called :
          (w : World)
          → P w.api
          → (out : Result A × C.State)
          → After (λ _. OnApi P) (OnApi bad) (out.0, record w { inventory = out.1 })
      called w h (ok a, s) = h
      called w h (err e, s) = gives w.api h

  on_kafka-Triple :
      {A : Type 0} (P : ApiDb → Type 0) (bad : ApiDb → Type 0) (m : Action Producer A)
      → ((db : ApiDb) → P db → bad db)
      → Triple (OnApi P) (on_kafka m) (λ _. OnApi P) (OnApi bad)
  on_kafka-Triple {A = A} P bad m gives = record { runs = λ w h. called w h (m w.kafka) }
    where
      called :
          (w : World)
          → P w.api
          → (out : Result A × Producer)
          → After (λ _. OnApi P) (OnApi bad) (out.0, record w { kafka = out.1 })
      called w h (ok a, p) = h
      called w h (err e, p) = gives w.api h

  -- A write to the tables that keeps them sound, whether or not it raises.
  wrote :
      {A : Type 0} (w : World) (out : Result A × ApiDb)
      → IsSound out.1
      → After (λ _. OnApi IsSound) (OnApi IsSound) (out.0, record w { api = out.1 })
  wrote w (ok a, db) h = h
  wrote w (err e, db) h = h

  write-Triple :
      {A : Type 0} (P : ApiDb → Type 0) (m : Action ApiDb A) (prepare : ApiDb → ApiDb)
      → ((db : ApiDb) → P db → IsSound (m (prepare db)).1)
      → Triple
          (OnApi P)
          (λ w. on_api m (record w { api = prepare w.api }))
          (λ _. OnApi IsSound)
          (OnApi IsSound)
  write-Triple P m prepare gives = record {
    runs = λ w h. wrote w (m (prepare w.api)) (gives w.api h);
  }

  module _ (b : BookingRun) (calm : (db : ApiDb) → IsSound db → IsSound (b.meanwhile db)) where
    -- The id that is drawn is not in use when the order is inserted.
    abbrev pub Drawn : ApiDb → Type 0
    Drawn db = IsSound db × (S.get (b.meanwhile db).orders b.order_id ≡ none)

    book_new-Triple :
        (user : User) (event_id : ℕ) (quantity : ℤ) (key : Option String)
        → Triple
            (OnApi Drawn)
            (book_new b user event_id quantity key)
            (λ _. OnApi IsSound)
            (OnApi IsSound)
    unfolding book_new
    book_new-Triple user event_id quantity key =
        then-Triple (OnApi Drawn)
          (λ event w. Drawn w.api × (S.get w.api.events event_id ≡ some event)) _ (OnApi IsSound) _
          _
          (or_raise-Triple (OnApi Drawn) (OnApi IsSound) (λ w. S.get w.api.events event_id) _
            (λ w h. h.0))
          (λ event.
            stronger-Triple (OnApi Drawn) _ _ _ _ (λ w h. h.0)
              (then-Triple (OnApi Drawn) (λ _. OnApi Drawn) _ (OnApi IsSound) _ _
                (on_inventory-Triple Drawn IsSound (C.reserve_seats event_id b.order_id quantity)
                  (λ db h. h.0))
                (λ reservation.
                  then-Triple (OnApi Drawn) (λ _. OnApi IsSound) _ (OnApi IsSound) _ _
                    (write-Triple Drawn
                      (add_order (new_order b user event_id event quantity key reservation))
                      b.meanwhile
                      (λ db h.
                        add_order-IsSound (new_order b user event_id event quantity key reservation)
                          (b.meanwhile db) h.1 refl (calm db h.0)))
                    (λ _.
                      then-Triple (OnApi IsSound) (λ _. OnApi IsSound) _ (OnApi IsSound) _ _
                        (on_kafka-Triple IsSound IsSound
                          (publish order_created b.order_id (
                            order_created_message
                              (new_order b user event_id event quantity key reservation)))
                          (λ db h. h))
                        (λ _.
                          pure-Triple (OnApi IsSound)
                            (new_order b user event_id event quantity key reservation)
                            (OnApi IsSound))))))

    replay-Triple :
        (existing : Option Order) (user : User) (event_id : ℕ) (quantity : ℤ) (key : Option String)
        → Triple
            (OnApi Drawn)
            (replay_or existing (book_new b user event_id quantity key))
            (λ _. OnApi IsSound)
            (OnApi IsSound)
    replay-Triple none user event_id quantity key = book_new-Triple user event_id quantity key
    replay-Triple (some o) user event_id quantity key = record { runs = λ w h. h.0 }

    pub book_tickets-Triple :
        (user : User) (event_id : ℕ) (quantity : ℤ) (key : Option String)
        → Triple
            (OnApi Drawn)
            (book_tickets b user event_id quantity key)
            (λ _. OnApi IsSound)
            (OnApi IsSound)
    unfolding book_tickets
    book_tickets-Triple user event_id quantity key =
        then-Triple (OnApi Drawn) (λ _. OnApi Drawn) _ (OnApi IsSound) _ _
          (query-Triple (OnApi Drawn) (OnApi IsSound) (λ w. existing_order user.id key w.api)
            (λ w h. h.0))
          (λ existing. replay-Triple existing user event_id quantity key)

  -- A table with a row that was looked up.
  abbrev Found : ℕ → Order → ApiDb → Type 0
  Found k o db = IsSound db × (S.get db.orders k ≡ some o)

  owned-Found :
      (order_id user_id : ℕ) (o : Order) (db : ApiDb)
      → IsSound db
      → get_for_user order_id user_id db ≡ some o
      → Found order_id o db
  owned-Found order_id user_id o db sound h = (sound, (own_order order_id user_id db o h).0)

  pub cancel_order-Triple :
      (order_id : ℕ) (user : User)
      → Triple (OnApi IsSound) (cancel_order order_id user) (λ _. OnApi IsSound) (OnApi IsSound)
  unfolding cancel_order
  cancel_order-Triple order_id user =
      then-Triple (OnApi IsSound)
        (λ o w. IsSound w.api × (get_for_user order_id user.id w.api ≡ some o)) _ (OnApi IsSound) _
        _
        (or_raise-Triple (OnApi IsSound) (OnApi IsSound) (λ w. get_for_user order_id user.id w.api)
          _ (λ w h. h))
        (λ o.
          stronger-Triple (OnApi (Found order_id o)) _ _ _ _
            (λ w h. owned-Found order_id user.id o w.api h.0 h.1)
            (then-Triple (OnApi (Found order_id o)) (λ _. OnApi (Found order_id o)) _
              (OnApi IsSound) _ _
              (query-Triple (OnApi (Found order_id o)) (OnApi IsSound) (λ _. may_cancel o user)
                (λ w h. h.0))
              (λ _.
                then-Triple (OnApi (Found order_id o)) (λ _. OnApi (Found order_id o)) _
                  (OnApi IsSound) _ _
                  (on_inventory-Triple (Found order_id o) IsSound
                    (C.release_reservation o.reservation_id) (λ db h. h.0))
                  (λ _.
                    then-Triple (OnApi (Found order_id o)) (λ _. OnApi IsSound) _ (OnApi IsSound) _
                      _
                      (write-Triple (Found order_id o)
                        (λ db. (ok tt, set_status o OrderStatus.cancelled db)) (λ db. db)
                        (λ db h. set_status-IsSound o OrderStatus.cancelled order_id db h.1 h.0))
                      (λ _.
                        then-Triple (OnApi IsSound) (λ _. OnApi IsSound) _ (OnApi IsSound) _ _
                          (on_kafka-Triple IsSound IsSound
                            (publish order_cancelled o.id
                              (order_cancelled_payload o.id o.reservation_id))
                            (λ db h. h))
                          (λ _.
                            pure-Triple (OnApi IsSound)
                              (record o { status = OrderStatus.cancelled }) (OnApi IsSound)))))))

  Moves-IsSound : {db db' : ApiDb} → Moves db db' → IsSound db → IsSound db'
  Moves-IsSound none_moved sound = sound
  Moves-IsSound {db} (moved id o status found was_pending) sound =
      set_status-IsSound o status id db found sound

  pub handle_status_message-IsSound :
      (m : Message) (w : World) → IsSound w.api → IsSound (handle_status_message m w).1.api
  unfolding handle_status_message
  handle_status_message-IsSound m w sound =
      Moves-IsSound (status_handler-Moves m.event_type m.payload w) sound

module _ ⦃S : Storage⦄ ⦃B : Bcrypt⦄ where
  either_way :
      {A : Type 0} (out : Result A × ApiDb) → IsSound out.1 → After (λ _. IsSound) IsSound out
  either_way (ok a, db) h = h
  either_way (err e, db) h = h

  pub After-IsSound :
      {A : Type 0} (out : Result A × ApiDb) → After (λ _. IsSound) IsSound out → IsSound out.1
  After-IsSound (ok a, db) h = h
  After-IsSound (err e, db) h = h

  module _ (id salt : ℕ) (meanwhile : ApiDb → ApiDb) (email password full_name : String)
      (calm : (db : ApiDb) → IsSound db → IsSound (meanwhile db)) where
    abbrev Free : ApiDb → Type 0
    Free db = IsSound db × (S.get (meanwhile db).users id ≡ none)

    abbrev inserted : String → User
    inserted hashed = record {
      id = id;
      email = email;
      hashed_password = hashed;
      full_name = full_name;
      role = UserRole.attendee;
      is_active = true;
    }

    register-Triple :
        Triple Free (register id salt meanwhile email password full_name) (λ _. IsSound) IsSound
    unfolding register
    register-Triple =
        then-Triple Free (λ _. Free) _ IsSound _ _
          (query-Triple Free IsSound (get_by_email email) (λ db h. h.0))
          (λ existing.
            then-Triple Free (λ _. Free) _ IsSound _ _
              (query-Triple Free IsSound (λ _. refuse_existing existing) (λ db h. h.0))
              (λ _.
                then-Triple Free (λ _. Free) _ IsSound _ _
                  (query-Triple Free IsSound (λ _. hash_password salt password) (λ db h. h.0))
                  (λ hashed.
                    then-Triple Free (λ _. IsSound) _ IsSound
                      (λ db. add_user (inserted hashed) (meanwhile db)) _
                      (record {
                        runs = λ db h.
                            either_way (add_user (inserted hashed) (meanwhile db))
                              (add_user-IsSound (inserted hashed) (meanwhile db) h.1 (calm db h.0));
                      })
                      (λ _. pure-Triple IsSound (inserted hashed) IsSound))))

    pub register-IsSound :
        (db : ApiDb)
        → IsSound db
        → S.get (meanwhile db).users id ≡ none
        → IsSound (register id salt meanwhile email password full_name db).1
    register-IsSound db sound free =
        After-IsSound (register id salt meanwhile email password full_name db)
          (register-Triple.runs db (sound, free))
