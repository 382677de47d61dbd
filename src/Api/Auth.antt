-- ===== src/Api/Auth.antt =====
-- services/api/app/services/auth_service.py, with the checks of services/api/app/api/deps.py.
pub mod Account
pub mod Rotation
pub mod Tests
use eventsphere.Storage.{Storage}
use eventsphere.Redis.{Redis}
use eventsphere.Redis.Keys.{Key}
use eventsphere.Errors.{
  integrity, ◌>>=◌, Action, Result, ok, err, pure, raise, authentication, authorization, validation,
}
use eventsphere.Api.Models.{ApiDb, User}
use eventsphere.Api.Tokens.{
  Jwt, Bcrypt, Claims, TokenType, decode_token, create_token, hash_password, verify_password,
}
use eventsphere.Api.Repositories.{scalar_one_or_none, same_text}
use eventsphere.Enums.{UserRole, same_role}
use eventsphere.Prelude.{
  [], ◌||◌, true, ◌∷◌, none, str_eq, false, ltb, some, ◌*◌, Bool, Option, if◌then◌else◌, String, ℕ,
  List,
}
use eventsphere.Prelude.Lists.{length, select}

-- `access_token_expire_minutes` and `refresh_token_expire_days`
pub record TokenSettings : Type 0 where
  pub access_token_expire_minutes : ℕ
  pub refresh_token_expire_days : ℕ

-- The clock, in milliseconds, and the ids that `uuid4` draws.
pub record AuthRun : Type 0 where
  pub now : ℕ
  pub access_jti : ℕ
  pub refresh_jti : ℕ

module _ ⦃S : Storage⦄ where
  abbrev pub has_email : String → ℕ × User → Bool
  has_email email (_, u) = str_eq u.email email

  unfoldable pub get_by_email : String → ApiDb → Result (Option User)
  get_by_email email db = scalar_one_or_none (select (has_email email) (S.rows db.users))

  abbrev pub email_in_use : String → ApiDb → Bool
  email_in_use email db = ltb 0 (length (select (has_email email) (S.rows db.users)))

  -- INSERT of a user and COMMIT, under the unique index on the email
  unfoldable pub add_user : User → Action ApiDb (Unit {0})
  add_user u db =
      if email_in_use u.email db
      then (err integrity, db)
      else (ok tt, record db { users = S.put db.users u.id u })

module _ ⦃S : Storage⦄ ⦃B : Bcrypt⦄ where
  abbrev pub refuse_existing : Option User → Result (Unit {0})
  refuse_existing none = ok tt
  refuse_existing (some _) = err validation

  -- A new account is an attendee's, and active. `id` and `salt` are drawn; `meanwhile` is what other
  -- requests commit before the INSERT.
  unfoldable pub register : ℕ → ℕ → (ApiDb → ApiDb) → String → String → String → Action ApiDb User
  register id salt meanwhile email password full_name = do
    existing ← λ db. (get_by_email email db, db)
    _ ← λ db. (refuse_existing existing, db)
    hashed_password ← λ db. (hash_password salt password, db)
    let user : User = record {
      id = id;
      email = email;
      hashed_password = hashed_password;
      full_name = full_name;
      role = UserRole.attendee;
      is_active = true;
    }
    _ ← λ db. add_user user (meanwhile db)
    pure user

module _ ⦃R : Redis⦄ ⦃J : Jwt⦄ (c : TokenSettings) where
  pub record TokenResponse : Type 0 where
    pub access_token : J.Token
    pub refresh_token : J.Token

  abbrev pub ttl_ms : ℕ
  ttl_ms = c.refresh_token_expire_days * 86_400_000

  unfoldable pub issue_tokens : AuthRun → ℕ → Action R.State TokenResponse
  issue_tokens a user_id = do
    let access_token =
        create_token a.now a.access_jti user_id TokenType.access
          (c.access_token_expire_minutes * 60)
    let refresh_token =
        create_token a.now a.refresh_jti user_id TokenType.refresh
          (c.refresh_token_expire_days * 86_400)
    payload ← λ s. (decode_token a.now refresh_token TokenType.refresh, s)
    _ ← λ s. (ok tt, R.set s a.now (Key.refresh payload.jti) user_id ttl_ms)
    pure (record { access_token = access_token; refresh_token = refresh_token })

  -- `stored_user_id is None`
  abbrev pub still_stored : Option ℕ → Result (Unit {0})
  still_stored none = err authentication
  still_stored (some _) = ok tt

  -- `refresh`
  unfoldable pub refresh_tokens : AuthRun → J.Token → Action R.State TokenResponse
  refresh_tokens a refresh_token = do
    payload ← λ s. (decode_token a.now refresh_token TokenType.refresh, s)
    _ ← λ s. (still_stored (R.value s a.now (Key.refresh payload.jti)), s)
    _ ← λ s. (ok tt, R.del s (Key.refresh payload.jti))
    issue_tokens a payload.sub

  -- `except AuthenticationError: return`
  abbrev pub revoke : Result Claims → Action R.State (Unit {0})
  revoke (ok payload) s = (ok tt, R.del s (Key.refresh payload.jti))
  revoke (err authentication) s = (ok tt, s)
  revoke (err e) s = (err e, s)

  unfoldable pub logout : ℕ → J.Token → Action R.State (Unit {0})
  logout now refresh_token = revoke (decode_token now refresh_token TokenType.refresh)

  -- The password is checked first, then the account.
  abbrev pub credentials : ⦃B : Bcrypt⦄ → String → Option User → Result User
  credentials password none = err authentication
  credentials password (some user) = elim (verify_password password user.hashed_password) [
    | err e ↦ err e
    | ok false ↦ err authentication
    | ok true ↦ if user.is_active then ok user else err authentication
  ]

  unfoldable pub login :
      ⦃S : Storage⦄ ⦃B : Bcrypt⦄ → AuthRun → String → String → ApiDb → Action R.State TokenResponse
  login a email password db = do
    found ← λ s. (get_by_email email db, s)
    user ← λ s. (credentials password found, s)
    issue_tokens a user.id

module _ ⦃S : Storage⦄ ⦃J : Jwt⦄ where
  abbrev pub active_user : Option User → Result User
  active_user none = err authentication
  active_user (some user) = if user.is_active then ok user else err authentication

  unfoldable pub get_current_user : ℕ → J.Token → ApiDb → Result User
  get_current_user now token db = elim (decode_token now token TokenType.access) [
    | err e ↦ err e
    | ok payload ↦ active_user (S.get db.users payload.sub)
  ]

abbrev pub has_role : UserRole → List UserRole → Bool
has_role role [] = false
has_role role (r ∷ rs) = same_role role r || has_role role rs

unfoldable pub require_roles : List UserRole → User → Result User
require_roles roles user = if has_role user.role roles then ok user else err authorization
