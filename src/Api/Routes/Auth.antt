-- ===== src/Api/Routes/Auth.antt =====
-- services/api/app/api/v1/auth.py.
use eventsphere.Errors.{◌>>=◌, Action, pure}
use eventsphere.Storage.{Storage}
use eventsphere.Redis.{Redis}
use eventsphere.Api.Auth
use eventsphere.Api.Auth.{TokenSettings, AuthRun, TokenResponse, refresh_tokens}
use eventsphere.Api.Tokens.{Jwt, Bcrypt}
use eventsphere.Prelude.{Bool, String, ℕ}
use eventsphere.Api.Models.{ApiDb, User}
use eventsphere.Enums.{UserRole}

pub record UserRead : Type 0 where
  pub id : ℕ
  pub email : String
  pub full_name : String
  pub role : UserRole
  pub is_active : Bool

abbrev pub user_to_read : User → UserRead
user_to_read u = record {
  id = u.id;
  email = u.email;
  full_name = u.full_name;
  role = u.role;
  is_active = u.is_active;
}

module _ ⦃S : Storage⦄ ⦃B : Bcrypt⦄ where
  unfoldable pub register_route :
      ℕ → ℕ → (ApiDb → ApiDb) → String → String → String → Action ApiDb UserRead
  register_route id salt meanwhile email password full_name = do
    user ← Auth.register id salt meanwhile email password full_name
    pure (user_to_read user)

module _ ⦃S : Storage⦄ ⦃B : Bcrypt⦄ ⦃R : Redis⦄ ⦃J : Jwt⦄ (c : TokenSettings) where
  -- The form calls the email `username`.
  abbrev pub login_route : AuthRun → String → String → ApiDb → Action R.State (TokenResponse c)
  login_route a username password db = Auth.login c a username password db

module _ ⦃R : Redis⦄ ⦃J : Jwt⦄ (c : TokenSettings) where
  abbrev pub refresh_route : AuthRun → J.Token → Action R.State (TokenResponse c)
  refresh_route a refresh_token = refresh_tokens c a refresh_token

  abbrev pub logout_route : ℕ → J.Token → Action R.State (Unit {0})
  logout_route now refresh_token = Auth.logout c now refresh_token
