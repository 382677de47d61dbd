-- ===== src/Api/Integrity/Events.antt =====
-- The operations on events leave users and orders as they are, and the events under their own ids.
use eventsphere.Prelude.{Option, none, some, ℕ, Bool, true, false, if◌then◌else◌, ltb, arith, ◌≡◌}
use eventsphere.Prelude.Lists.{length, select}
use eventsphere.Errors.{Result, ok, err, Action, or_raise, not_found, integrity}
use eventsphere.Storage.{Storage}
use eventsphere.Api.Models.{ApiDb, Event, User}
use eventsphere.Api.Events.{
  EventWorld, EventCreate, EventUpdate, create_event, update_event, delete_event, get_event,
  require_owner_or_admin, updated_event, store_event, publish_if, seats_changed, delete_row,
  of_event,
}
use eventsphere.Api.Integrity.{IsSound}
use eventsphere.Api.Integrity.Triples.{After, Triple, then-Triple, query-Triple, pure-Triple}
use eventsphere.Kafka.Producer.{Producer}

module _ ⦃S : Storage⦄ where
  -- Only the events differ, and they stand under their own ids.
  events-IsSound :
      (db : ApiDb) (t : S.Table Event)
      → ((k : ℕ) (e : Event) → S.get t k ≡ some e → e.id ≡ k)
      → IsSound db
      → IsSound (record db { events = t })
  events-IsSound db t keyed sound = record {
    users = sound.users;
    events = keyed;
    orders = sound.orders;
    positive = sound.positive;
    priced = sound.priced;
    one_email = sound.one_email;
    one_key = sound.one_key;
  }

  put_event-IsSound :
      (e : Event) (db : ApiDb)
      → IsSound db
      → IsSound (record db { events = S.put db.events e.id e })
  put_event-IsSound e db sound =
      events-IsSound db _ (λ k v h. ground (arith, S.get-put db.events e.id k e, sound.events k v))
        sound

  dropped_event-IsSound :
      (id : ℕ) (db : ApiDb) → IsSound db → IsSound (record db { events = S.delete db.events id })
  dropped_event-IsSound id db sound =
      events-IsSound db _ (λ k v h. ground (arith, S.get-delete db.events id k, sound.events k v))
        sound

  abbrev pub Sound : EventWorld → Type 0
  Sound w = IsSound w.api

  pub create_event-IsSound :
      (id : ℕ) (fields : EventCreate) (organizer : User) (w : EventWorld)
      → Sound w
      → Sound (create_event id fields organizer w).1
  unfolding create_event
  create_event-IsSound id fields organizer w sound = put_event-IsSound _ w.api sound

  abbrev publishes : {A : Type 0} → Action Producer A → Action EventWorld A
  publishes m w = let (r, p) = m w.kafka in (r, record w { kafka = p })

  publishes-Triple :
      {A : Type 0} (m : Action Producer A) → Triple Sound (publishes m) (λ _. Sound) Sound
  publishes-Triple {A = A} m = record { runs = λ w h. sent w h (m w.kafka) }
    where
      sent :
          (w : EventWorld)
          → Sound w
          → (out : Result A × Producer)
          → After (λ _. Sound) Sound (out.0, record w { kafka = out.1 })
      sent w h (ok a, p) = h
      sent w h (err e, p) = h

  get_event-Triple : (event_id : ℕ) → Triple Sound (get_event event_id) (λ _. Sound) Sound
  unfolding get_event
  get_event-Triple event_id = record { runs = λ w h. looked w h (S.get w.api.events event_id) }
    where
      looked :
          (w : EventWorld)
          → Sound w
          → (o : Option Event) → After (λ _. Sound) Sound (or_raise o not_found w)
      looked w h none = h
      looked w h (some e) = h

  pub update_event-Triple :
      (event_id : ℕ) (changes : EventUpdate) (current_user : User)
      → Triple Sound (update_event event_id changes current_user) (λ _. Sound) Sound
  unfolding update_event
  update_event-Triple event_id changes current_user =
      then-Triple Sound (λ _. Sound) _ Sound _ _ (get_event-Triple event_id)
        (λ event.
          then-Triple Sound (λ _. Sound) _ Sound _ _
            (query-Triple Sound Sound (λ w. require_owner_or_admin event current_user) (λ w h. h))
            (λ _.
              then-Triple Sound (λ _. Sound) _ Sound _ _
                (query-Triple Sound Sound (λ w. (updated_event changes event tt).0) (λ w h. h))
                (λ changed.
                  then-Triple Sound (λ _. Sound) _ Sound
                    (λ w. (ok tt, record w { api = store_event changed w.api })) _
                    (record { runs = λ w h. put_event-IsSound changed w.api h })
                    (λ _.
                      then-Triple Sound (λ _. Sound) _ Sound _ _
                        (publishes-Triple (publish_if (seats_changed changes event) changed))
                        (λ _. pure-Triple Sound changed Sound)))))

  delete_row-Triple : (event : Event) → Triple Sound (delete_row event) (λ _. Sound) Sound
  delete_row-Triple event = record {
    runs = λ w h. deleted w h (ltb 0 (length (select (of_event event.id) (S.rows w.api.orders))));
  }
    where
      deleted :
          (w : EventWorld)
          → Sound w
          → (b : Bool)
          → After
              (λ _. Sound)
              Sound
              (if b then (err integrity, w) else (
                ok tt,
                record w { api = record w.api { events = S.delete w.api.events event.id } },
              ))
      deleted w h true = h
      deleted w h false = dropped_event-IsSound event.id w.api h

  pub delete_event-Triple :
      (event_id : ℕ) (current_user : User)
      → Triple Sound (delete_event event_id current_user) (λ _. Sound) Sound
  unfolding delete_event
  delete_event-Triple event_id current_user =
      then-Triple Sound (λ _. Sound) _ Sound _ _ (get_event-Triple event_id)
        (λ event.
          then-Triple Sound (λ _. Sound) _ Sound _ _
            (query-Triple Sound Sound (λ w. require_owner_or_admin event current_user) (λ w h. h))
            (λ _. delete_row-Triple event))
