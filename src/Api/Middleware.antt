-- ===== src/Api/Middleware.antt =====
-- services/api/app/core/logging.py, the answers of core/rate_limit.py, and the middleware and the
-- handlers of exceptions that `create_app` of services/api/app/main.py puts around the routes.
pub mod Tagged
mod Tests
use eventsphere.Prelude.{ℕ, Bool, true, false, String, Option, none, some, List, ◌∷◌}
use eventsphere.Errors.{Error, Result, ok, err, Action}
use eventsphere.Redis.{Redis}
use eventsphere.Api.Client.Codes.{handler_status}
use eventsphere.Api.RateLimit.{Verdict, exempt, limited, passed, dispatch}

-- The paths that the rate limiter names, and the others.
pub data UrlPath : Type 0 where
  health health_ready docs openapi redoc : UrlPath
  other_path : String → UrlPath

-- A client with no address is a client of its own.
pub record Request : Type 0 where
  pub path : UrlPath
  pub method : String
  -- The header X-Request-ID
  pub request_id : Option String
  pub client : ℕ

-- Bodies are left out.
pub record Response : Type 0 where
  pub status : ℕ
  pub request_id : Option String
  pub retry_after : Option ℕ
  -- The headers X-RateLimit-Limit and X-RateLimit-Remaining
  pub rate_limit : Option (ℕ × ℕ)

-- What structlog adds to each line.
pub record Bound : Type 0 where
  pub request_id : String
  pub path : UrlPath
  pub method : String

pub data Message : Type 0 where
  rate_limit_exceeded : ℕ → Message
  request_completed : ℕ → Message
  unhandled_exception : Error → Message
  -- A line of the routes, the services and the repositories
  application_line : String → Message

pub record Line : Type 0 where
  pub context : Option Bound
  pub message : Message

abbrev pub is_exempt : UrlPath → Bool
is_exempt (other_path p) = false
is_exempt _ = true

-- The first argument is used where the request has no id: `str(uuid.uuid4())`.
abbrev pub header_or : String → Option String → String
header_or fresh none = fresh
header_or fresh (some given) = given

abbrev pub bound_for : String → Request → Bound
bound_for fresh request = record {
  request_id = header_or fresh request.request_id;
  path = request.path;
  method = request.method;
}

abbrev pub plain_response : ℕ → Response
plain_response status = record {
  status = status;
  request_id = none;
  retry_after = none;
  rate_limit = none;
}

abbrev pub too_many_requests : Response
too_many_requests = record (plain_response 429) { retry_after = some 60 }

abbrev pub answer_error : Error → Option ℕ → Result Response
answer_error e none = err e
answer_error e (some status) = ok (plain_response status)

abbrev pub answer_errors : Result Response → Result Response
answer_errors (ok r) = ok r
answer_errors (err e) = answer_error e (handler_status e)

module _ ⦃R : Redis⦄ (S : Type 0) where
  -- The newest line of the log stands first.
  pub record Server : Type 0 where
    pub context : Option Bound
    pub log : List Line
    pub redis : R.State
    pub app : S

  abbrev pub Handler : Type 0
  Handler = Request → Action Server Response

module _ ⦃R : Redis⦄ {S : Type 0} where
  abbrev pub write_log : Message → Server S → Server S
  write_log message w = record w { log = record { context = w.context; message = message } ∷ w.log }

  -- What the handler binds does not come out: `BaseHTTPMiddleware` runs it in a task of its own.
  abbrev pub call_next : Handler S → Handler S
  call_next inner request w =
      let (r, w') = inner request w in (r, record w' { context = w.context })

  abbrev pub with_handlers : Handler S → Handler S
  with_handlers inner request w = let (r, w') = inner request w in (answer_errors r, w')

  abbrev pub complete : String → Result Response × Server S → Result Response × Server S
  complete id (ok r, w) = (
    ok (record r { request_id = some id }),
    record (write_log (request_completed r.status) w) { context = none },
  )
  complete id (err e, w) = (err e, write_log (unhandled_exception e) w)

  abbrev pub request_context : String → Handler S → Handler S
  request_context fresh inner request w =
      let bound = bound_for fresh request in
      complete bound.request_id (call_next inner request (record w { context = some bound }))

  abbrev pub add_headers : ℕ → ℕ → Result Response × Server S → Result Response × Server S
  add_headers limit remaining (ok r, w) =
      (ok (record r { rate_limit = some (limit, remaining) }), w)
  add_headers limit remaining (err e, w) = (err e, w)

  abbrev pub answer_verdict : Handler S → Request → Verdict → Server S → Result Response × Server S
  answer_verdict inner request exempt w = call_next inner request w
  answer_verdict inner request limited w =
      (ok too_many_requests, write_log (rate_limit_exceeded request.client) w)
  answer_verdict inner request (passed limit remaining) w =
      add_headers limit remaining (call_next inner request w)

  abbrev pub rate_limited : ℕ → ℕ → Handler S → Handler S
  rate_limited limit now inner request w =
      let (verdict, redis) = dispatch limit (is_exempt request.path) request.client now w.redis in
      answer_verdict inner request verdict (record w { redis = redis })

  -- The middleware that is added last runs first; `cors` is Starlette's.
  unfoldable pub create_app : ℕ → (Handler S → Handler S) → ℕ → String → Handler S → Handler S
  create_app limit_per_minute cors now fresh routes =
      rate_limited limit_per_minute now (request_context fresh (cors (with_handlers routes)))
