-- ===== src/Api/Auth/Tests.antt =====
-- The theorems on tokens at concrete inputs.
use eventsphere.Prelude.{
  ap, true, String, str_eq, eq_refl, ltb, if◌then◌else◌, arith, some, ◌*◌, ℕ, ◌≡◌, ◌<◌, ◌≤◌, refl,
}
use eventsphere.Redis.Keys.{Key}
use eventsphere.Errors.{jwt_expired, jwt_invalid, ok, Result, err, Error}
use eventsphere.Inventory.Tests.{no_keys}
use eventsphere.Redis.Memory.{memory}
use eventsphere.Api.Tokens.{
  create_token, TokenType, decode_token, Claims, Jwt, Bcrypt, hash_password,
}
use eventsphere.Api.Auth.Account.{register-login}
use eventsphere.Api.Models.{ApiDb, User}
use eventsphere.Enums.{UserRole}
use eventsphere.Storage.Assoc.{assoc}
use eventsphere.Api.Auth.{
  register, add_user, get_by_email, login, get_current_user, TokenResponse, issue_tokens, logout,
  AuthRun, TokenSettings, refresh_tokens,
}
use eventsphere.Api.Auth.Rotation.{refresh_single_use, refresh_accepted, logout_revokes}

-- Tokens that are their claims, and a check of the time.
abbrev plain_decode : ℕ → Claims → Result Claims
plain_decode now c =
    if ltb now (c.iat * 1000)
    then err jwt_invalid
    else if ltb now (c.exp * 1000)
    then ok c
    else err jwt_expired

pub plain_decode-encode :
    (now : ℕ) (c : Claims) → c.iat * 1000 ≤ now → now < c.exp * 1000 → plain_decode now c ≡ ok c
plain_decode-encode now c issued h = ground arith

instance abbrev pub plain : Jwt
plain = record {
  Token = Claims;
  encode = λ c. c;
  decode = plain_decode;
  decode-encode = plain_decode-encode;
}

abbrev token_settings : TokenSettings
token_settings = record { access_token_expire_minutes = 30; refresh_token_expire_days = 7 }

abbrev first_login : AuthRun
first_login = record { now = 1_000; access_jti = 10; refresh_jti = 11 }

abbrev second_login : AuthRun
second_login = record { now = 2_000; access_jti = 12; refresh_jti = 13 }

abbrev third_login : AuthRun
third_login = record { now = 3_000; access_jti = 14; refresh_jti = 15 }

abbrev alices_token : Claims
alices_token = record { sub = 1; token_type = TokenType.refresh; iat = 1; exp = 604_801; jti = 11 }

lasting : 0 < token_settings.refresh_token_expire_days
lasting = omega arith

token_valid :
    (now : ℕ)
    → 1_000 ≤ now
    → now < 604_801_000
    → decode_token now alices_token TokenType.refresh ≡ ok alices_token
unfolding decode_token
token_valid now issued h = ground arith

abbrev logged_in : memory.State
logged_in = memory.set no_keys 1_000 (Key.refresh 11) 1 604_800_000

token_stored : memory.value logged_in 2_000 (Key.refresh 11) ≡ some 1
token_stored = refl

refresh_single_use_example :
    refresh_tokens token_settings third_login alices_token
      (refresh_tokens token_settings second_login alices_token logged_in).1
    ≡ (
      err Error.authentication,
      (refresh_tokens token_settings second_login alices_token logged_in).1,
    )
refresh_single_use_example =
    refresh_single_use token_settings lasting second_login third_login alices_token alices_token 1
      logged_in (token_valid 2_000 (omega arith) (omega arith))
      (token_valid 3_000 (omega arith) (omega arith)) (omega arith) (omega arith) token_stored
      (refresh_tokens token_settings second_login alices_token logged_in).1 refl

refresh_accepted_example :
    refresh_tokens token_settings second_login
      (create_token 1_000 11 1 TokenType.refresh (7 * 86_400))
      (issue_tokens token_settings first_login 1 no_keys).1
    ≡ (
      ok (record {
        access_token = create_token 2_000 12 1 TokenType.access (30 * 60);
        refresh_token = create_token 2_000 13 1 TokenType.refresh (7 * 86_400);
      }),
      memory.set
          (memory.del (issue_tokens token_settings first_login 1 no_keys).1 (Key.refresh 11))
          2_000
          (Key.refresh 13)
          1
          (7 * 86_400_000),
    )
refresh_accepted_example =
    refresh_accepted token_settings lasting first_login second_login 1 no_keys (omega arith)
      (omega arith)

logout_revokes_example :
    refresh_tokens token_settings third_login alices_token
      (logout token_settings 2_000 alices_token logged_in).1
    ≡ (err Error.authentication, (logout token_settings 2_000 alices_token logged_in).1)
logout_revokes_example =
    logout_revokes token_settings lasting 2_000 third_login alices_token alices_token logged_in
      (token_valid 2_000 (omega arith) (omega arith))
      (token_valid 3_000 (omega arith) (omega arith))

-- A hash that is the password itself.
instance abbrev pub bare : Bcrypt
bare = record { hashpw = λ p salt. ok p; checkpw = λ p h. ok (str_eq p h) }

bare_checks :
    (p : String) (drawn : ℕ) (hashed : String)
    → bare.hashpw p drawn ≡ ok hashed
    → bare.checkpw p hashed ≡ ok true
bare_checks p drawn hashed h = let same : p ≡ hashed = cc in rw (← same) (ap ok (eq_refl p))

abbrev nobody : ApiDb
nobody = record { users = assoc.empty; events = assoc.empty; orders = assoc.empty }

abbrev registered : Result User × ApiDb
registered = register 1 8 (λ db. db) "a@b.example" "secret" "Alice" nobody

abbrev new_user : User
new_user = record {
  id = 1;
  email = "a@b.example";
  hashed_password = "secret";
  full_name = "Alice";
  role = UserRole.attendee;
  is_active = true;
}

registered_ok : registered ≡ (ok new_user, registered.1)
unfolding register add_user get_by_email hash_password
registered_ok = refl

register-login_example :
    (tokens : TokenResponse token_settings) × ((login token_settings first_login "a@b.example"
        "secret" registered.1 no_keys).0
      ≡ ok tokens)
    × (get_current_user 1_000_000 tokens.access_token registered.1 ≡ ok new_user)
    × (new_user.role ≡ UserRole.attendee)
    × (new_user.is_active ≡ true)
register-login_example =
    register-login 1 8 (λ db. db) "a@b.example" "secret" "Alice" token_settings bare_checks lasting
      nobody registered.1 new_user first_login no_keys 1_000_000 refl registered_ok (omega arith)
      (omega arith)
