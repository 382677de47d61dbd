-- ===== src/Api/Events/Owner.antt =====
-- Who may change an event.
use eventsphere.Prelude.{refl, ◌≢◌, some, ◌≡◌, ℕ, arith}
use eventsphere.Storage.{Storage}
use eventsphere.Api.Events.{
  require_owner_or_admin, EventWorld, EventUpdate, get_event, delete_event, update_event,
}
use eventsphere.Api.Models.{Event, User}
use eventsphere.Enums.{UserRole}
use eventsphere.Errors.{or_raise, authorization, err}

module _ ⦃S : Storage⦄ where
  -- A user who is neither an admin nor the organizer of an event that exists can neither update
  -- nor delete it: both are refused, nothing is written and nothing is sent.
  pub others_refused :
      (event_id : ℕ) (changes : EventUpdate) (user : User) (w : EventWorld) (event : Event)
      → S.get w.api.events event_id ≡ some event
      → user.role ≢ UserRole.admin
      → event.organizer_id ≢ user.id
      → (update_event event_id changes user w ≡ (err authorization, w))
        × (delete_event event_id user w ≡ (err authorization, w))
  unfolding update_event delete_event get_event
  others_refused event_id changes user w event found not_admin not_owner =
      let refused : require_owner_or_admin event user ≡ err authorization =
        unfold require_owner_or_admin in ground arith in
      (
        rw (found, refused, or_raise, update_event) refl,
        rw (found, refused, or_raise, delete_event) refl,
      )
