-- ===== src/Api/Routes/Events.antt =====
-- services/api/app/api/v1/events.py.
use eventsphere.Errors.{◌>>=◌, Action, ok, err, authorization}
use eventsphere.Storage.{Storage}
use eventsphere.Api.Events
use eventsphere.Api.Events.{EventWorld, EventUpdate, EventCreate}
use eventsphere.Api.Tokens.{Jwt}
use eventsphere.Api.Auth.{get_current_user, require_roles}
use eventsphere.Enums.{UserRole}
use eventsphere.Prelude.{none, refl, [], Option, ◌∷◌, ◌≡◌, Bool, String, ℕ}
use eventsphere.Api.Models.{User, Event}
use eventsphere.Pagination.{Page, PaginationParams}

module _ ⦃S : Storage⦄ ⦃J : Jwt⦄ where
  -- The dependency `OrganizerUser`
  abbrev pub organizer_user : ℕ → J.Token → Action EventWorld User
  organizer_user now token = do
    user ← λ w. (get_current_user now token w.api, w)
    λ w. (require_roles (UserRole.organizer ∷ UserRole.admin ∷ []) user, w)

  -- The filters on dates are not parameters of the route.
  unfoldable pub search_events_route :
      (String → String → Bool)
      → Option String
      → Option String
      → PaginationParams
      → EventWorld
      → Page Event
  search_events_route ilike q venue pagination =
      Events.search_events ilike
        (record { q = q; venue = venue; starts_after = none; starts_before = none }) pagination

  unfoldable pub get_event_route : ℕ → Action EventWorld Event
  get_event_route event_id = Events.get_event event_id

  unfoldable pub create_event_route : ℕ → ℕ → J.Token → EventCreate → Action EventWorld Event
  create_event_route id now token fields = do
    user ← organizer_user now token
    Events.create_event id fields user

  unfoldable pub update_event_route : ℕ → J.Token → ℕ → EventUpdate → Action EventWorld Event
  update_event_route now token event_id changes = do
    user ← organizer_user now token
    Events.update_event event_id changes user

  unfoldable pub delete_event_route : ℕ → J.Token → ℕ → Action EventWorld (Unit {0})
  delete_event_route now token event_id = do
    user ← organizer_user now token
    Events.delete_event event_id user

  -- An attendee can neither create, update nor delete an event through the routes, whoever is its
  -- organizer: each is refused, nothing is written and nothing is sent.
  pub attendee_refused :
      (id now : ℕ) (token : J.Token) (fields : EventCreate) (event_id : ℕ) (changes : EventUpdate)
      (w : EventWorld) (user : User)
      → get_current_user now token w.api ≡ ok user
      → user.role ≡ UserRole.attendee
      → (create_event_route id now token fields w ≡ (err authorization, w))
        × (update_event_route now token event_id changes w ≡ (err authorization, w))
        × (delete_event_route now token event_id w ≡ (err authorization, w))
  unfolding create_event_route update_event_route delete_event_route
  attendee_refused id now token fields event_id changes w user h role =
      let refused : require_roles (UserRole.organizer ∷ UserRole.admin ∷ []) user
          ≡ err authorization =
        unfold require_roles in rw role refl in
      (
        rw (h, refused, create_event_route) refl,
        rw (h, refused, update_event_route) refl,
        rw (h, refused, delete_event_route) refl,
      )
