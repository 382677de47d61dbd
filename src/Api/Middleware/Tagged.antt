-- ===== src/Api/Middleware/Tagged.antt =====
-- The log of a request, through the middleware of services/api/app: what
-- services/api/app/core/logging.py binds is on its lines.
use eventsphere.Prelude.{ℕ, String, Option, some, List, [], ◌∷◌, ◌++◌, ◌≡◌, refl, ◌⊎◌, inl, inr}
use eventsphere.Errors.{Result, ok, err}
use eventsphere.Redis.{Redis}
use eventsphere.Api.RateLimit.{Verdict, exempt, limited, passed, dispatch}
use eventsphere.Api.Middleware.{
  Request, Response, Bound, Line, Message, Server, Handler, bound_for, request_completed,
  unhandled_exception, rate_limit_exceeded, too_many_requests, with_handlers, request_context,
  complete, call_next, add_headers, answer_verdict, create_app, is_exempt,
}

-- The lines stand under this context.
abbrev pub Tagged : Option Bound → List Line → Type 0
Tagged b [] = Unit
Tagged b (l ∷ rest) = (l.context ≡ b) × Tagged b rest

-- An answer has this X-Request-ID; where an exception is passed on there is none.
abbrev pub Carries : String → Result Response → Type 0
Carries id (ok r) = r.request_id ≡ some id
Carries id (err e) = Unit

-- The line that closes a request
abbrev pub closing : Result Response → Message
closing (ok r) = request_completed r.status
closing (err e) = unhandled_exception e

module _ ⦃R : Redis⦄ {S : Type 0} where
  -- A handler that adds lines to the log, and does so under the context in which it is called.
  abbrev pub LogsTagged : Handler S → Type 0
  LogsTagged h =
      (request : Request) (w : Server S)
      → (new : List Line) × ((h request w).1.log ≡ new ++ w.log) × Tagged w.context new

  -- The lines that a request adds, the closing one and those before it, are tagged with its id, path
  -- and method, and its answer, if it has one, has the id.
  abbrev pub Traced : String → Request → Server S → Result Response × Server S → Type 0
  Traced fresh request w (r, w') =
      Carries (bound_for fresh request).request_id r
      × (new : List Line) × (w'.log
          ≡ record { context = some (bound_for fresh request); message = closing r }
            ∷ (new ++ w.log))
      × Tagged (some (bound_for fresh request)) new

  -- A request over the limit: the application does not run.
  abbrev pub TurnedAway : Request → Server S → Result Response × Server S → Type 0
  TurnedAway request w (r, w') =
      (r ≡ ok too_many_requests)
      × (w'.app ≡ w.app)
      × (w'.log
          ≡ record { context = w.context; message = rate_limit_exceeded request.client } ∷ w.log)

  with_handlers-LogsTagged : (h : Handler S) → LogsTagged h → LogsTagged (with_handlers h)
  with_handlers-LogsTagged h tagged request w = tagged request w

  complete-Traced :
      (fresh : String) (request : Request) (w : Server S) (out : Result Response × Server S)
      (new : List Line)
      → out.1.context ≡ some (bound_for fresh request)
      → out.1.log ≡ new ++ w.log
      → Tagged (some (bound_for fresh request)) new
      → Traced fresh request w (complete (bound_for fresh request).request_id out)
  complete-Traced fresh request w (ok r, w') new context log tagged =
      (refl, new, rw (context, log) refl, tagged)
  complete-Traced fresh request w (err e, w') new context log tagged =
      (tt, new, rw (context, log) refl, tagged)

  request_context-Traced :
      (fresh : String) (h : Handler S)
      → LogsTagged h
      → (request : Request) (w : Server S)
      → Traced fresh request w (request_context fresh h request w)
  request_context-Traced fresh h tagged request w =
      let bound = bound_for fresh request in
      let (new, log, lines) = tagged request (record w { context = some bound }) in
      complete-Traced fresh request w (call_next h request (record w { context = some bound })) new
        refl log lines

  add_headers-Traced :
      (limit remaining : ℕ) (fresh : String) (request : Request) (w : Server S)
      (out : Result Response × Server S)
      → Traced fresh request w out
      → Traced fresh request w (add_headers limit remaining out)
  add_headers-Traced limit remaining fresh request w (ok r, w') t = t
  add_headers-Traced limit remaining fresh request w (err e, w') t = t

  add_headers-context :
      (limit remaining : ℕ) (out : Result Response × Server S)
      → (add_headers limit remaining out).1.context ≡ out.1.context
  add_headers-context limit remaining (ok r, w) = refl
  add_headers-context limit remaining (err e, w) = refl

  answer_verdict-Traced :
      (fresh : String) (h : Handler S)
      → LogsTagged h
      → (request : Request) (v : Verdict) (w : Server S)
      → ((answer_verdict (request_context fresh h) request v w).1.context ≡ w.context)
        × (Traced fresh request w (answer_verdict (request_context fresh h) request v w)
            ⊎ TurnedAway request w (answer_verdict (request_context fresh h) request v w))
  answer_verdict-Traced fresh h tagged request exempt w =
      (refl, inl (request_context-Traced fresh h tagged request w))
  answer_verdict-Traced fresh h tagged request limited w = (refl, inr (refl, refl, refl))
  answer_verdict-Traced fresh h tagged request (passed limit remaining) w =
      let out = call_next (request_context fresh h) request w in
      (
        add_headers-context limit remaining out,
        inl (
            add_headers-Traced limit remaining fresh request w out
              (request_context-Traced fresh h tagged request w)),
      )

  -- If the routes add lines to the log under the context in which they are called, and the CORS
  -- middleware keeps it so, then each request leaves the context of the log as it was, and is one of
  -- two: the lines that it adds are tagged with its id, path and method, the last of them closes it
  -- with the status of its answer or with the exception that is passed on, and an answer, if there is
  -- one, carries the id; or it is answered 429 without the application, and its one line, the warning,
  -- is not tagged. Nothing is said of the 500 into which the server turns an exception.
  pub create_app-Traced :
      (limit_per_minute : ℕ) (cors : Handler S → Handler S) (now : ℕ) (fresh : String)
      (routes : Handler S)
      → ((h : Handler S) → LogsTagged h → LogsTagged (cors h))
      → LogsTagged routes
      → (request : Request) (w : Server S)
      → ((create_app limit_per_minute cors now fresh routes request w).1.context ≡ w.context)
        × (Traced fresh request w (create_app limit_per_minute cors now fresh routes request w)
            ⊎ TurnedAway request w (create_app limit_per_minute cors now fresh routes request w))
  unfolding create_app
  create_app-Traced limit_per_minute cors now fresh routes keeps tagged request w =
      let (verdict, redis) =
        dispatch limit_per_minute (is_exempt request.path) request.client now w.redis in
      answer_verdict-Traced fresh (cors (with_handlers routes))
        (keeps (with_handlers routes) (with_handlers-LogsTagged routes tagged)) request verdict
        (record w { redis = redis })
