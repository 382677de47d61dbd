-- ===== src/Api/Middleware/Tests.antt =====
-- The middleware on a request for an event that is not there.
use eventsphere.Prelude.{some, none, [], ◌∷◌, ◌≡◌, refl, ◌⊎◌}
use eventsphere.Errors.{Error, Result, ok, err}
use eventsphere.Redis.Memory.{memory}
use eventsphere.Inventory.Tests.{no_keys}
use eventsphere.Api.RateLimit.{dispatch}
use eventsphere.Api.Middleware.{
  Request, Response, Server, Handler, other_path, application_line, write_log, create_app,
}
use eventsphere.Api.Middleware.Tagged.{LogsTagged, Traced, TurnedAway, create_app-Traced}

-- Writes a line, and raises a NotFoundError.
abbrev missing_event : Handler (Unit {0})
missing_event request w = (err Error.not_found, write_log (application_line "event_missing") w)

missing_event-LogsTagged : LogsTagged missing_event
missing_event-LogsTagged request w = (
  record { context = w.context; message = application_line "event_missing" } ∷ [],
  refl,
  (refl, tt),
)

abbrev get_event : Request
get_event = record {
  path = other_path "/api/v1/events/7";
  method = "GET";
  request_id = some "r1";
  client = 5;
}

abbrev quiet_server : Server (Unit {0})
quiet_server = record { context = none; log = []; redis = no_keys; app = tt }

abbrev answered : Result Response × Server (Unit {0})
answered = create_app 60 (λ h. h) 1_000 "fresh" missing_event get_event quiet_server

answered_404 :
    answered.0
    ≡ ok (record {
      status = 404;
      request_id = some "r1";
      retry_after = none;
      rate_limit = some (60, 59);
    })
unfolding create_app dispatch
answered_404 = refl

create_app-Traced_example :
    (answered.1.context ≡ none)
    × (Traced "fresh" get_event quiet_server answered ⊎ TurnedAway get_event quiet_server answered)
create_app-Traced_example =
    create_app-Traced 60 (λ h. h) 1_000 "fresh" missing_event (λ h tagged. tagged)
      missing_event-LogsTagged get_event quiet_server
