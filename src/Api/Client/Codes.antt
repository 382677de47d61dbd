-- ===== src/Api/Client/Codes.antt =====
-- How an exception of the inventory service comes out of the API, through gRPC and HTTP.
use eventsphere.Prelude.{arith, ◌⊎◌, refl, ◌↔◌, ◌≡◌, ℕ, Option, some, none}
use eventsphere.Errors.{Error}
use eventsphere.Inventory.Servicer.{reserve_code}
use eventsphere.Api.Client.{domain_error}

-- `_ERROR_STATUS_MAP` of services/api/app/main.py; other exceptions have no handler.
abbrev pub handler_status : Error → Option ℕ
handler_status Error.not_found = some 404
handler_status Error.validation = some 422
handler_status Error.authentication = some 401
handler_status Error.authorization = some 403
handler_status Error.capacity_exceeded = some 409
handler_status Error.conflict = some 409
handler_status _ = none

abbrev or_500 : Option ℕ → ℕ
or_500 none = 500
or_500 (some status) = status

-- An exception that nothing handles is answered with a 500.
abbrev pub http_status : Error → ℕ
http_status e = or_500 (handler_status e)

-- The HTTP status that a failure of `reserve_seats` should have.
abbrev reserve_status : Error → ℕ
reserve_status Error.not_found = 404
reserve_status Error.capacity_exceeded = 409
reserve_status Error.conflict = 409
reserve_status Error.lock_acquisition = 409
reserve_status _ = 500

-- A failed reservation reaches the API's client as a 404 if the event has no inventory, as a 409
-- if seats are short, a race was lost or the lock was not given, and as a 500 otherwise.
pub reserve_http_status :
    (e : Error) → http_status (domain_error (reserve_code e)) ≡ reserve_status e
reserve_http_status Error.not_found = refl
reserve_http_status _ = refl

-- Through the handler's codes and the client's exceptions, the API sees a CapacityExceededError
-- only for an event that is sold out, a NotFoundError only for one that has no inventory, and a
-- ConflictError exactly for a lost race or a lock that was not given.
pub reserve_errors_exact :
    (e : Error)
    → (domain_error (reserve_code e) ≡ Error.capacity_exceeded ↔ e ≡ Error.capacity_exceeded)
      × (domain_error (reserve_code e) ≡ Error.not_found ↔ e ≡ Error.not_found)
      × (domain_error (reserve_code e) ≡ Error.conflict
          ↔ (e ≡ Error.conflict ⊎ e ≡ Error.lock_acquisition))
reserve_errors_exact e = ground arith
