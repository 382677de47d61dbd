-- ===== src/Api/Routes/Orders.antt =====
-- services/api/app/api/v1/orders.py and services/api/app/schemas/order.py.
use eventsphere.Errors.{Error, ◌>>=◌, Action, Result, ok, err, pure}
use eventsphere.Storage.{Storage}
use eventsphere.Api.Booking
use eventsphere.Api.Tokens.{Jwt, Claims, TokenType, same_type, decode_token}
use eventsphere.Api.Auth.{get_current_user, active_user}
use eventsphere.Prelude.{
  refl, some, none, ◌⊎◌, inl, inr, true, false, Bool-cases, ◌≡◌, ◌&&◌, map, String, Option, Bool, ℕ,
}
use eventsphere.Api.Models.{ApiDb, User, Order}
use eventsphere.Api.Client.{InventoryClient}
use eventsphere.Api.Booking.{BookingRun, World}
use eventsphere.Prelude.Int.{leb_ℤ, pos, ℤ, ltb_ℤ}
use eventsphere.Pagination.{Page, PaginationParams}
use eventsphere.Enums.{OrderStatus}

-- `quantity: int = Field(gt=0, le=20)`
pub record OrderCreateRequest : Type 0 where
  pub event_id : ℕ
  pub quantity : ℤ

unfoldable pub accepts_order : OrderCreateRequest → Bool
accepts_order data_in = ltb_ℤ (pos 0) data_in.quantity && leb_ℤ data_in.quantity (pos 20)

-- Without `updated_at`, which the server sets.
pub record OrderRead : Type 0 where
  pub id : ℕ
  pub event_id : ℕ
  pub quantity : ℤ
  pub unit_price_cents : ℤ
  pub total_price_cents : ℤ
  pub status : OrderStatus
  pub reservation_id : ℕ
  pub created_at : ℕ

unfoldable pub order_to_read : Order → OrderRead
order_to_read o = record {
  id = o.id;
  event_id = o.event_id;
  quantity = o.quantity;
  unit_price_cents = o.unit_price_cents;
  total_price_cents = o.total_price_cents;
  status = o.status;
  reservation_id = o.reservation_id;
  created_at = o.created_at;
}

access_type : (t : TokenType) → same_type t TokenType.access ≡ true → t ≡ TokenType.access
access_type TokenType.access h = refl
access_type TokenType.refresh h = absurd (cc)

module _ ⦃S : Storage⦄ ⦃C : InventoryClient⦄ ⦃J : Jwt⦄ where
  -- The dependency `CurrentUser`, at a time in milliseconds
  abbrev pub current_user : ℕ → J.Token → Action World User
  current_user now token w = (get_current_user now token w.api, w)

  unfoldable pub book_tickets_route :
      BookingRun → ℕ → J.Token → OrderCreateRequest → Option String → Action World OrderRead
  book_tickets_route b now token request idempotency_key = do
    user ← current_user now token
    order ← Booking.book_tickets b user request.event_id request.quantity idempotency_key
    pure (order_to_read order)

  unfoldable pub list_orders_route : ℕ → J.Token → PaginationParams → Action World (Page OrderRead)
  list_orders_route now token pagination = do
    user ← current_user now token
    λ w.
        let page = Booking.list_orders user pagination w in
        (
          ok (record {
            items = map order_to_read page.items;
            total = page.total;
            page = page.page;
            page_size = page.page_size;
          }),
          w,
        )

  unfoldable pub get_order_route : ℕ → J.Token → ℕ → Action World OrderRead
  get_order_route now token order_id = do
    user ← current_user now token
    order ← Booking.get_order order_id user
    pure (order_to_read order)

  unfoldable pub cancel_order_route : ℕ → J.Token → ℕ → Action World OrderRead
  cancel_order_route now token order_id = do
    user ← current_user now token
    order ← Booking.cancel_order order_id user
    pure (order_to_read order)

  inactive_refused :
      (found : Option User)
      → ((u : User) → found ≡ some u → u.is_active ≡ false)
      → active_user found ≡ err Error.authentication
  inactive_refused none inactive = refl
  inactive_refused (some u) inactive = rw (inactive u refl) refl

  refused_at_decode :
      (now : ℕ) (token : J.Token) (db : ApiDb) (e : Error)
      → J.decode now token ≡ err e
      → (e ≡ Error.jwt_expired) ⊎ (e ≡ Error.jwt_invalid)
      → get_current_user now token db ≡ err Error.authentication
  unfolding get_current_user decode_token
  refused_at_decode now token db e raised (inl expired) =
      rw (raised, expired, get_current_user) refl
  refused_at_decode now token db e raised (inr invalid) =
      rw (raised, invalid, get_current_user) refl

  refused_at_user :
      (now : ℕ) (token : J.Token) (db : ApiDb) (p : Claims) (found : Option User)
      → J.decode now token ≡ ok p
      → S.get db.users p.sub ≡ found
      → (p.token_type ≡ TokenType.access → (u : User) → found ≡ some u → u.is_active ≡ false)
      → get_current_user now token db ≡ err Error.authentication
  unfolding get_current_user decode_token
  refused_at_user now token db p found decoded looked inactive =
      elim (Bool-cases (same_type p.token_type TokenType.access)) [
        | inr other ↦ rw (decoded, get_current_user) (rw other refl)
        | inl is_access ↦
            rw (decoded, get_current_user)
              (rw is_access (
                rw looked (inactive_refused found (inactive (access_type p.token_type is_access)))))
      ]

  not_authenticated :
      (now : ℕ) (token : J.Token) (db : ApiDb) (d : Result Claims)
      → J.decode now token ≡ d
      → ((e : Error) → d ≡ err e → (e ≡ Error.jwt_expired) ⊎ (e ≡ Error.jwt_invalid))
      → ((p : Claims) (u : User)
          → d ≡ ok p
          → p.token_type ≡ TokenType.access
          → S.get db.users p.sub ≡ some u
          → u.is_active ≡ false)
      → get_current_user now token db ≡ err Error.authentication
  not_authenticated now token db (err e) is_d invalid inactive =
      refused_at_decode now token db e is_d (invalid e refl)
  not_authenticated now token db (ok p) is_d invalid inactive =
      refused_at_user now token db p (S.get db.users p.sub) is_d refl
        (λ is_access u. inactive p u refl is_access)

  -- If PyJWT raises nothing but its errors on a token, and the token is no access token of an active
  -- user, whether it is expired, invalid, a refresh token, or its user is gone or not active, then
  -- every route of orders is refused as not authenticated, and nothing is reserved, written or sent.
  pub orders_need_user :
      (b : BookingRun) (now : ℕ) (token : J.Token) (request : OrderCreateRequest)
      (idempotency_key : Option String) (pagination : PaginationParams) (order_id : ℕ) (w : World)
      → ((e : Error)
          → J.decode now token ≡ err e
          → (e ≡ Error.jwt_expired) ⊎ (e ≡ Error.jwt_invalid))
      → ((p : Claims) (u : User)
          → J.decode now token ≡ ok p
          → p.token_type ≡ TokenType.access
          → S.get w.api.users p.sub ≡ some u
          → u.is_active ≡ false)
      → (book_tickets_route b now token request idempotency_key w ≡ (err Error.authentication, w))
        × (list_orders_route now token pagination w ≡ (err Error.authentication, w))
        × (get_order_route now token order_id w ≡ (err Error.authentication, w))
        × (cancel_order_route now token order_id w ≡ (err Error.authentication, w))
  unfolding book_tickets_route list_orders_route get_order_route cancel_order_route
  orders_need_user b now token request idempotency_key pagination order_id w invalid inactive =
      let h = not_authenticated now token w.api (J.decode now token) refl invalid inactive in
      (
        rw (h, book_tickets_route) refl,
        rw (h, list_orders_route) refl,
        rw (h, get_order_route) refl,
        rw (h, cancel_order_route) refl,
      )
