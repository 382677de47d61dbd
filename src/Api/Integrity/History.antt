-- ===== src/Api/Integrity/History.antt =====
-- Any history of the tables of the schema `api`: the operations on them one after the other.
use eventsphere.Prelude.{ℕ, ◌≤◌, ◌≡◌, refl, none, some, Option, String, List, [], ◌∷◌, arith}
use eventsphere.Prelude.Int.{ℤ}
use eventsphere.Prelude.Lists.{length, select}
use eventsphere.Errors.{Result, ok, err}
use eventsphere.Storage.{Storage}
use eventsphere.Api.Auth.{register, get_by_email, has_email}
use eventsphere.Api.Booking.{World, BookingRun, book_tickets, cancel_order}
use eventsphere.Api.Client.{InventoryClient}
use eventsphere.Api.Events.{EventCreate, EventUpdate, create_event, update_event, delete_event}
use eventsphere.Api.Models.{Event, ApiDb, Order, User}
use eventsphere.Api.Repositories.{get_by_idempotency_key, has_key, scalar_one_or_none}
use eventsphere.Api.Tokens.{Bcrypt}
use eventsphere.Api.Workers.{handle_status_message}
use eventsphere.Api.Integrity.{IsSound}
use eventsphere.Api.Integrity.Events.{
  create_event-IsSound, update_event-Triple, delete_event-Triple,
}
use eventsphere.Api.Integrity.Operations.{
  book_tickets-Triple, cancel_order-Triple, handle_status_message-IsSound, register-IsSound,
}
use eventsphere.Api.Integrity.Triples.{After}
use eventsphere.Kafka.Producer.{Message, Producer}

either : {S A : Type 0} (P : S → Type 0) (out : Result A × S) → After (λ _. P) P out → P out.1
either P (ok a, s) h = h
either P (err e, s) h = h

module _ ⦃S : Storage⦄ ⦃C : InventoryClient⦄ ⦃B : Bcrypt⦄ where
  abbrev world : ApiDb → C.State → Producer → World
  world db s p = record { api = db; inventory = s; kafka = p }

  -- One operation, whether it returns or raises. What other requests commit inside a registration or a
  -- booking keeps the tables sound, and an id that is drawn is new.
  pub data ApiStep (db : ApiDb) : ApiDb → Type 0 where
    registered :
        (id salt : ℕ) (meanwhile : ApiDb → ApiDb) (email password full_name : String)
        → ((d : ApiDb) → IsSound d → IsSound (meanwhile d))
        → S.get (meanwhile db).users id ≡ none
        → ApiStep db (register id salt meanwhile email password full_name db).1
    booked :
        (b : BookingRun) (user : User) (event_id : ℕ) (quantity : ℤ) (key : Option String)
        (s : C.State) (p : Producer)
        → ((d : ApiDb) → IsSound d → IsSound (b.meanwhile d))
        → S.get (b.meanwhile db).orders b.order_id ≡ none
        → ApiStep db (book_tickets b user event_id quantity key (world db s p)).1.api
    cancelled :
        (order_id : ℕ) (user : User) (s : C.State) (p : Producer)
        → ApiStep db (cancel_order order_id user (world db s p)).1.api
    settled :
        (m : Message) (s : C.State) (p : Producer)
        → ApiStep db (handle_status_message m (world db s p)).1.api
    created :
        (id : ℕ) (fields : EventCreate) (organizer : User) (p : Producer)
        → ApiStep db (create_event id fields organizer (record { api = db; kafka = p })).1.api
    updated :
        (event_id : ℕ) (changes : EventUpdate) (user : User) (p : Producer)
        → ApiStep db (update_event event_id changes user (record { api = db; kafka = p })).1.api
    deleted :
        (event_id : ℕ) (user : User) (p : Producer)
        → ApiStep db (delete_event event_id user (record { api = db; kafka = p })).1.api

  pub data ApiReach (db : ApiDb) : ApiDb → Type 0 where
    start : ApiReach db db
    after : {db' db'' : ApiDb} → ApiReach db db' → ApiStep db' db'' → ApiReach db db''

  ApiStep-IsSound : {db db' : ApiDb} → ApiStep db db' → IsSound db → IsSound db'
  ApiStep-IsSound {db} (registered id salt meanwhile email password full_name calm free) sound =
      register-IsSound id salt meanwhile email password full_name calm db sound free
  ApiStep-IsSound {db} (booked b user event_id quantity key s p calm free) sound =
      either (λ (w : World). IsSound w.api)
        (book_tickets b user event_id quantity key (world db s p))
        ((book_tickets-Triple b calm user event_id quantity key).runs (world db s p) (sound, free))
  ApiStep-IsSound {db} (cancelled order_id user s p) sound =
      either (λ (w : World). IsSound w.api) (cancel_order order_id user (world db s p))
        ((cancel_order-Triple order_id user).runs (world db s p) sound)
  ApiStep-IsSound {db} (settled m s p) sound = handle_status_message-IsSound m (world db s p) sound
  ApiStep-IsSound {db} (created id fields organizer p) sound =
      create_event-IsSound id fields organizer (record { api = db; kafka = p }) sound
  ApiStep-IsSound {db} (updated event_id changes user p) sound =
      either _ (update_event event_id changes user (record { api = db; kafka = p }))
        ((update_event-Triple event_id changes user).runs (record { api = db; kafka = p }) sound)
  ApiStep-IsSound {db} (deleted event_id user p) sound =
      either _ (delete_event event_id user (record { api = db; kafka = p }))
        ((delete_event-Triple event_id user).runs (record { api = db; kafka = p }) sound)

  ApiReach-IsSound : {db db' : ApiDb} → ApiReach db db' → IsSound db → IsSound db'
  ApiReach-IsSound start sound = sound
  ApiReach-IsSound (after r st) sound = ApiStep-IsSound st (ApiReach-IsSound r sound)

  abbrev pub empty_api : ApiDb
  empty_api = record { users = S.empty; events = S.empty; orders = S.empty }

  empty_api-IsSound : IsSound empty_api
  empty_api-IsSound = record {
    users = λ k u h. absurd (cc (S.get-empty {V = User} k));
    events = λ k e h. absurd (cc (S.get-empty {V = Event} k));
    orders = λ k o h. absurd (cc (S.get-empty {V = Order} k));
    positive = λ k o h. absurd (cc (S.get-empty {V = Order} k));
    priced = λ k o h. absurd (cc (S.get-empty {V = Order} k));
    one_email = λ email. rw (S.rows-empty {V = User}) (omega arith);
    one_key = λ user_id key. rw (S.rows-empty {V = Order}) (omega arith);
  }

  found_once :
      {V : Type 0} (rows : List (ℕ × V))
      → length rows ≤ 1
      → (o : Option V) × (scalar_one_or_none rows ≡ ok o)
  found_once [] h = (none, refl)
  found_once ((k, v) ∷ []) h = (some v, refl)
  found_once (row ∷ other ∷ rest) h = absurd (omega arith)

  -- From empty tables, after any operations of the API and of its order status worker in any order,
  -- whether they return or raise: users, events and orders stand under their own ids, every order has a positive
  -- quantity and the total of its price times its quantity, no email belongs to two users and no
  -- idempotency key of a user to two orders, so that the look-ups by email and by key return, with one
  -- row or none. The conditions are those of `ApiStep`: what others commit inside a registration or
  -- a booking keeps all that, and the ids that are drawn are new.
  pub history-IsSound :
      {db : ApiDb}
      → ApiReach empty_api db
      → IsSound db
        × ((email : String) → (o : Option User) × (get_by_email email db ≡ ok o))
        × ((user_id : ℕ) (key : String)
            → (o : Option Order) × (get_by_idempotency_key user_id key db ≡ ok o))
  unfolding get_by_email get_by_idempotency_key
  history-IsSound {db} r =
      let sound = ApiReach-IsSound r empty_api-IsSound in
      (
        sound,
        λ email. found_once (select (has_email email) (S.rows db.users)) (sound.one_email email),
        λ user_id key.
            found_once (select (has_key user_id key) (S.rows db.orders))
              (sound.one_key user_id key),
      )
