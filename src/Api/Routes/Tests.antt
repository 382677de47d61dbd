-- ===== src/Api/Routes/Tests.antt =====
-- The theorems on the routes at concrete inputs.
use eventsphere.Prelude.{◌≡◌, none, some, false, ◌⊎◌, inl}
use eventsphere.Storage.Assoc.{assoc}
use eventsphere.Errors.{ok, Error, err}
use eventsphere.Api.Auth.Tests.{plain}
use eventsphere.Api.Tests.{client, booked_world, booking_run}
use eventsphere.Api.Tokens.{TokenType, Claims}
use eventsphere.Api.Routes.Orders.{
  cancel_order_route, get_order_route, list_orders_route, OrderCreateRequest, book_tickets_route,
  orders_need_user,
}
use eventsphere.Pagination.{PaginationParams}
use eventsphere.Prelude.Int.{pos}
use eventsphere.Api.Models.{User}

-- Alice's token, until the second 100.
abbrev alices_access : Claims
alices_access = record { sub = 1; token_type = TokenType.access; iat = 1; exp = 100; jti = 5 }

only_expired :
    (e : Error)
    → plain.decode 100_000 alices_access ≡ err e
    → (e ≡ Error.jwt_expired) ⊎ (e ≡ Error.jwt_invalid)
only_expired e h = inl cc

none_decoded :
    (p : Claims) (u : User)
    → plain.decode 100_000 alices_access ≡ ok p
    → p.token_type ≡ TokenType.access
    → assoc.get booked_world.api.users p.sub ≡ some u
    → u.is_active ≡ false
none_decoded p u h is_access found = absurd (cc)

abbrev two_tickets : OrderCreateRequest
two_tickets = record { event_id = 1; quantity = pos 2 }

abbrev first_page : PaginationParams
first_page = record { page = 1; page_size = 20 }

orders_need_user_example :
    (book_tickets_route booking_run 100_000 alices_access two_tickets none booked_world
      ≡ (err Error.authentication, booked_world))
    × (list_orders_route 100_000 alices_access first_page booked_world
        ≡ (err Error.authentication, booked_world))
    × (get_order_route 100_000 alices_access 42 booked_world
        ≡ (err Error.authentication, booked_world))
    × (cancel_order_route 100_000 alices_access 42 booked_world
        ≡ (err Error.authentication, booked_world))
orders_need_user_example =
    orders_need_user booking_run 100_000 alices_access two_tickets none first_page 42 booked_world
      only_expired none_decoded
