-- ===== src/Api/Events.antt =====
-- services/api/app/services/event_service.py and services/api/app/repositories/event_repository.py.
-- The match of ILIKE is a parameter: it is the database's.
pub mod Owner
use eventsphere.Storage.{Storage}
use eventsphere.Errors.{
  or_raise, ◌>>=◌, Action, Result, ok, err, pure, not_found, authorization, integrity,
}
use eventsphere.Api.Models.{ApiDb, User, Event, Order}
use eventsphere.Enums.{UserRole, same_role}
use eventsphere.Kafka.Producer.{Producer, publish}
use eventsphere.Pagination.{Page, PaginationParams, limit, offset, create}
use eventsphere.Prelude.{
  false, leb, str_eq, [], some, map, none, true, ◌∷◌, ltb, ◌&&◌, ◌∷◌, ◌==◌, not, ℕ, Option, String,
  if◌then◌else◌, Bool, List,
}
use eventsphere.Prelude.Lists.{drop, take, length, select}
use eventsphere.Kafka.Topics.{event_updated, event_created}
use eventsphere.Prelude.Int.{eqb_ℤ, ℤ}
use eventsphere.Kafka.Schemas.{event_created_payload, event_updated_payload}

-- The fields of a request, already checked by its schema.
pub record EventCreate : Type 0 where
  pub title : String
  pub description : Option String
  pub venue : String
  pub starts_at : ℕ
  pub total_seats : ℤ
  pub price_cents : ℤ

-- A field of an EventUpdate: left out, given as null, or given.
pub data Field (A : Type 0) : Type 0 where
  unset null : Field A
  given : A → Field A

pub record EventUpdate : Type 0 where
  pub title : Field String
  pub description : Field String
  pub venue : Field String
  pub starts_at : Field ℕ
  pub total_seats : Field ℤ
  pub price_cents : Field ℤ

pub record EventSearchParams : Type 0 where
  pub q : Option String
  pub venue : Option String
  pub starts_after : Option ℕ
  pub starts_before : Option ℕ

-- `setattr` and COMMIT, on a column that is NOT NULL and on one that may be null.
abbrev pub set_field : {A : Type 0} → Field A → A → Result A
set_field unset old = ok old
set_field null old = err integrity
set_field (given new) old = ok new

abbrev pub set_nullable : {A : Type 0} → Field A → Option A → Option A
set_nullable unset old = old
set_nullable null old = none
set_nullable (given new) old = some new

-- `data.total_seats is not None and data.total_seats != event.total_seats`
abbrev pub seats_changed : EventUpdate → Event → Bool
seats_changed changes event = elim changes.total_seats [
  | given n ↦ not (eqb_ℤ n event.total_seats)
  | _ ↦ false
]

unfoldable pub updated_event : EventUpdate → Event → Action (Unit {0}) Event
updated_event changes event = do
  title ← λ s. (set_field changes.title event.title, s)
  venue ← λ s. (set_field changes.venue event.venue, s)
  starts_at ← λ s. (set_field changes.starts_at event.starts_at, s)
  total_seats ← λ s. (set_field changes.total_seats event.total_seats, s)
  price_cents ← λ s. (set_field changes.price_cents event.price_cents, s)
  pure (record event {
    title = title;
    description = set_nullable changes.description event.description;
    venue = venue;
    starts_at = starts_at;
    total_seats = total_seats;
    price_cents = price_cents;
  })

-- `_require_owner_or_admin`
unfoldable pub require_owner_or_admin : Event → User → Result (Unit {0})
require_owner_or_admin event current_user =
    if not (same_role current_user.role UserRole.admin)
      && not (event.organizer_id == current_user.id)
    then err authorization
    else ok tt

abbrev pub matches_text : (String → String → Bool) → Option String → String → Bool
matches_text ilike none value = true
matches_text ilike (some pattern_text) value =
    if str_eq pattern_text "" then true else ilike pattern_text value

abbrev pub not_before : Option ℕ → ℕ → Bool
not_before none t = true
not_before (some limit) t = leb limit t

abbrev pub not_after : Option ℕ → ℕ → Bool
not_after none t = true
not_after (some limit) t = leb t limit

-- `_apply_filters`
unfoldable pub matches : (String → String → Bool) → EventSearchParams → ℕ × Event → Bool
matches ilike params (_, e) =
    matches_text ilike params.q e.title
    && matches_text ilike params.venue e.venue
    && not_before params.starts_after e.starts_at
    && not_after params.starts_before e.starts_at

-- ORDER BY starts_at ASC
abbrev pub insert_soonest : ℕ × Event → List (ℕ × Event) → List (ℕ × Event)
insert_soonest (k, e) [] = (k, e) ∷ []
insert_soonest (k, e) ((j, f) ∷ rest) =
    let later = insert_soonest (k, e) rest in
    if ltb f.starts_at e.starts_at then (j, f) ∷ later else (k, e) ∷ (j, f) ∷ rest

abbrev pub soonest_first : List (ℕ × Event) → List (ℕ × Event)
soonest_first [] = []
soonest_first (row ∷ rest) = insert_soonest row (soonest_first rest)

module _ ⦃S : Storage⦄ where
  pub record EventWorld : Type 0 where
    pub api : ApiDb
    pub kafka : Producer

  -- `id` is the key that `uuid4` draws.
  unfoldable pub create_event : ℕ → EventCreate → User → Action EventWorld Event
  create_event id fields organizer w =
      let event : Event = record {
        id = id;
        title = fields.title;
        description = fields.description;
        venue = fields.venue;
        starts_at = fields.starts_at;
        total_seats = fields.total_seats;
        price_cents = fields.price_cents;
        organizer_id = organizer.id;
      } in
      let stored = record w.api { events = S.put w.api.events id event } in
      let (out, p) =
        publish event_created id (event_created_payload id event.total_seats) w.kafka in
      (elim out [ ok _ ↦ ok event | err e ↦ err e ], record { api = stored; kafka = p })

  unfoldable pub get_event : ℕ → Action EventWorld Event
  get_event event_id w = or_raise (S.get w.api.events event_id) not_found w

  unfoldable pub search_events :
      (String → String → Bool) → EventSearchParams → PaginationParams → EventWorld → Page Event
  search_events ilike params pagination w =
      let found = select (matches ilike params) (S.rows w.api.events) in
      create
        (map (λ row. row.1)
          (take (limit pagination) (drop (offset pagination) (soonest_first found))))
        (length found) pagination

  abbrev pub publish_if : Bool → Event → Action Producer (Unit {0})
  publish_if false event p = (ok tt, p)
  publish_if true event p =
      publish event_updated event.id (event_updated_payload event.id event.total_seats) p

  abbrev pub store_event : Event → ApiDb → ApiDb
  store_event event db = record db { events = S.put db.events event.id event }

  unfoldable pub update_event : ℕ → EventUpdate → User → Action EventWorld Event
  update_event event_id changes current_user = do
    event ← get_event event_id
    _ ← λ w. (require_owner_or_admin event current_user, w)
    changed ← λ w. ((updated_event changes event tt).0, w)
    _ ← λ w. (ok tt, record w { api = store_event changed w.api })
    _ ← λ w.
        let (r, p) = publish_if (seats_changed changes event) changed w.kafka in
        (r, record w { kafka = p })
    pure changed

  abbrev pub of_event : ℕ → ℕ × Order → Bool
  of_event event_id (_, o) = o.event_id == event_id

  -- DELETE and COMMIT: the foreign key of the orders keeps an event that has any.
  abbrev pub delete_row : Event → Action EventWorld (Unit {0})
  delete_row event w =
      if ltb 0 (length (select (of_event event.id) (S.rows w.api.orders)))
      then (err integrity, w)
      else (ok tt, record w { api = record w.api { events = S.delete w.api.events event.id } })

  unfoldable pub delete_event : ℕ → User → Action EventWorld (Unit {0})
  delete_event event_id current_user = do
    event ← get_event event_id
    _ ← λ w. (require_owner_or_admin event current_user, w)
    delete_row event
