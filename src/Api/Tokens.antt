-- ===== src/Api/Tokens.antt =====
-- services/api/app/core/security.py. The library that signs tokens and the one that hashes
-- passwords are parameters, with what their documentation promises.
use eventsphere.Prelude.{String, ℕ, Bool, true, false, ◌≡◌, ◌<◌, ◌≤◌, if◌then◌else◌, ◌+◌, ◌*◌, ◌/◌}
use eventsphere.Errors.{Result, ok, err, jwt_expired, jwt_invalid, authentication, value_error}

pub data TokenType : Type 0 where
  access refresh : TokenType

abbrev pub same_type : TokenType → TokenType → Bool
same_type access access = true
same_type refresh refresh = true
same_type _ _ = false

-- The claims of a token. `iat` and `exp` are in seconds.
pub record Claims : Type 0 where
  pub sub : ℕ
  pub token_type : TokenType
  pub iat : ℕ
  pub exp : ℕ
  pub jti : ℕ

-- PyJWT, with the key and the algorithm of the settings. `decode` takes the time, in milliseconds; it
-- checks that a token is not issued in the future and has not expired.
pub record Jwt : Type 1 where
  pub Token : Type 0
  pub encode : Claims → Token
  pub decode : ℕ → Token → Result Claims
  pub decode-encode :
      (now : ℕ) (c : Claims)
      → c.iat * 1000 ≤ now
      → now < c.exp * 1000
      → decode now (encode c) ≡ ok c

-- bcrypt: `hashpw` with the salt drawn, and `checkpw`. Both raise a ValueError on a password that is
-- too long, `checkpw` also on a bad hash.
pub record Bcrypt : Type 0 where
  pub hashpw : String → ℕ → Result String
  pub checkpw : String → String → Result Bool

module _ ⦃B : Bcrypt⦄ where
  unfoldable pub hash_password : ℕ → String → Result String
  hash_password salt password = B.hashpw password salt

  abbrev pub false_on_value_error : Result Bool → Result Bool
  false_on_value_error (ok b) = ok b
  false_on_value_error (err value_error) = ok false
  false_on_value_error (err e) = err e

  unfoldable pub verify_password : String → String → Result Bool
  verify_password password hashed = false_on_value_error (B.checkpw password hashed)

module _ ⦃J : Jwt⦄ where
  -- `_create_token`, with the time in milliseconds and the `uuid4` that is drawn
  unfoldable pub create_token : ℕ → ℕ → ℕ → TokenType → ℕ → J.Token
  create_token now jti subject token_type expires_seconds = J.encode (record {
    sub = subject;
    token_type = token_type;
    iat = now / 1000;
    exp = now / 1000 + expires_seconds;
    jti = jti;
  })

  abbrev pub expect_type : TokenType → Result Claims → Result Claims
  expect_type expected (ok c) = if same_type c.token_type expected then ok c else err authentication
  expect_type expected (err jwt_expired) = err authentication
  expect_type expected (err jwt_invalid) = err authentication
  expect_type expected (err e) = err e

  unfoldable pub decode_token : ℕ → J.Token → TokenType → Result Claims
  decode_token now token expected = expect_type expected (J.decode now token)
