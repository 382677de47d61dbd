-- ===== src/Api/Auth/Account.antt =====
-- A new account can be used: its owner logs in and is known by the access token.
use eventsphere.Prelude.{
  ℕ, ◌+◌, ◌*◌, ◌/◌, ◌<◌, ◌≤◌, ◌≡◌, refl, ap, ◌∙◌, true, ==_refl, String, Option, none, some, [],
  ◌∷◌, inl, inr, Bool-cases, arith, eq_refl,
}
use eventsphere.Prelude.Lists.{length, select}
use eventsphere.Errors.{Result, ok, err}
use eventsphere.Enums.{UserRole}
use eventsphere.Storage.{Storage}
use eventsphere.Storage.Single.{only_row}
use eventsphere.Redis.{Redis}
use eventsphere.Api.Models.{ApiDb, User}
use eventsphere.Api.Tokens.{
  Claims, Jwt, Bcrypt, TokenType, create_token, decode_token, hash_password, verify_password,
}
use eventsphere.Api.Auth.{
  TokenSettings, AuthRun, register, login, get_current_user, add_user, has_email, email_in_use,
  get_by_email, issue_tokens, TokenResponse, credentials,
}
use eventsphere.Api.Auth.Rotation.{issue_tokens-given}

module _ ⦃S : Storage⦄ ⦃B : Bcrypt⦄ (id salt : ℕ) (meanwhile : ApiDb → ApiDb)
    (email password full_name : String) where
  abbrev account : String → User
  account hashed = record {
    id = id;
    email = email;
    hashed_password = hashed;
    full_name = full_name;
    role = UserRole.attendee;
    is_active = true;
  }

  -- A registration that has succeeded has stored the account, and the email was free.
  record Registered (db : ApiDb) (user : User) (db' : ApiDb) : Type 0 where
    hashed : String
    is_hash : hash_password salt password ≡ ok hashed
    is_account : user ≡ account hashed
    stored : db' ≡ record (meanwhile db) { users = S.put (meanwhile db).users id (account hashed) }
    was_free : length (select (has_email email) (S.rows (meanwhile db).users)) ≡ 0

  register-Registered :
      (db db' : ApiDb) (user : User) (found : Result (Option User)) (hash : Result String)
      → get_by_email email db ≡ found
      → hash_password salt password ≡ hash
      → register id salt meanwhile email password full_name db ≡ (ok user, db')
      → Registered db user db'
  unfolding register add_user
  register-Registered db db' user (err e) hash looked made h =
      absurd (cc (rw (looked, register) at h))
  register-Registered db db' user (ok (some u)) hash looked made h =
      absurd (cc (rw (looked, register) at h))
  register-Registered db db' user (ok none) (err e) looked made h =
      absurd (cc (rw (looked, made, register) at h))
  register-Registered db db' user (ok none) (ok hashed) looked made h =
      elim (Bool-cases (email_in_use email (meanwhile db))) [
        | inl used ↦ absurd (cc (rw used at (rw (looked, made, register) at h)))
        | inr free ↦
            let done = rw free at (rw (looked, made, register) at h) in
            record {
              hashed = hashed;
              is_hash = made;
              is_account = cc;
              stored = cc;
              was_free = ground (arith, free);
            }
      ]

  account_found :
      (hashed : String) (t : S.Table User) (db : ApiDb)
      → S.get t id ≡ none
      → length (select (has_email email) (S.rows t)) ≡ 0
      → db.users ≡ S.put t id (account hashed)
      → get_by_email email db ≡ ok (some (account hashed))
  unfolding get_by_email
  account_found hashed t db fresh free stored =
      let row : select (has_email email) (S.rows (S.put t id (account hashed)))
          ≡ (id, account hashed) ∷ [] =
        only_row (has_email email) t id (account hashed) fresh (eq_refl email) free in
      rw (stored, get_by_email) (rw row refl)

  password_accepted :
      (hashed : String)
      → ((p : String) (drawn : ℕ) (h : String) → B.hashpw p drawn ≡ ok h → B.checkpw p h ≡ ok true)
      → hash_password salt password ≡ ok hashed
      → verify_password password hashed ≡ ok true
  unfolding verify_password hash_password
  password_accepted hashed checks made = rw (checks password salt hashed made) refl

  module _ ⦃R : Redis⦄ ⦃J : Jwt⦄ (c : TokenSettings) where
    abbrev access_claims : AuthRun → Claims
    access_claims a = record {
      sub = id;
      token_type = TokenType.access;
      iat = a.now / 1000;
      exp = a.now / 1000 + c.access_token_expire_minutes * 60;
      jti = a.access_jti;
    }

    access_decode :
        (a : AuthRun) (t : ℕ)
        → a.now ≤ t
        → t < (a.now / 1000 + c.access_token_expire_minutes * 60) * 1000
        → decode_token t
            (create_token a.now a.access_jti id TokenType.access
              (c.access_token_expire_minutes * 60))
            TokenType.access
          ≡ ok (access_claims a)
    unfolding decode_token create_token
    access_decode a t later h = rw (J.decode-encode t (access_claims a) (omega arith) h) refl

    known :
        (hashed : String) (a : AuthRun) (t : ℕ) (db : ApiDb)
        → a.now ≤ t
        → t < (a.now / 1000 + c.access_token_expire_minutes * 60) * 1000
        → S.get db.users id ≡ some (account hashed)
        → get_current_user t
            (create_token a.now a.access_jti id TokenType.access
              (c.access_token_expire_minutes * 60))
            db
          ≡ ok (account hashed)
    unfolding get_current_user
    known hashed a t db later h stored =
        rw (access_decode a t later h, get_current_user) (rw stored refl)

    logs_in :
        (hashed : String) (a : AuthRun) (db : ApiDb) (s : R.State)
        → get_by_email email db ≡ ok (some (account hashed))
        → verify_password password hashed ≡ ok true
        → login c a email password db s ≡ issue_tokens c a id s
    unfolding login
    logs_in hashed a db s found accepted =
        let passed : credentials c password (some (account hashed)) ≡ ok (account hashed) =
          rw (accepted, credentials) refl in
        rw (found, passed, login) refl

    -- Registration, login and authentication go together. If bcrypt accepts a password against
    -- the hash that it has returned for it, the id that was drawn was free and refresh tokens last at least a day: after a
    -- registration that has succeeded, whatever other requests committed before its INSERT, a login
    -- with the same email and password succeeds, and from then until the access token runs out a request
    -- that carries it is one of the registered user, an active attendee.
    pub register-login :
        ((p : String) (drawn : ℕ) (hashed : String)
          → B.hashpw p drawn ≡ ok hashed
          → B.checkpw p hashed ≡ ok true)
        → 0 < c.refresh_token_expire_days
        → (db db' : ApiDb) (user : User) (a : AuthRun) (s : R.State) (t : ℕ)
        → S.get (meanwhile db).users id ≡ none
        → register id salt meanwhile email password full_name db ≡ (ok user, db')
        → a.now ≤ t
        → t < (a.now / 1000 + c.access_token_expire_minutes * 60) * 1000
        → (tokens : TokenResponse c) × ((login c a email password db' s).0 ≡ ok tokens)
          × (get_current_user t tokens.access_token db' ≡ ok user)
          × (user.role ≡ UserRole.attendee)
          × (user.is_active ≡ true)
    register-login checks lasting db db' user a s t fresh registered later h =
        let done : Registered db user db' =
          register-Registered db db' user _ _ refl refl registered in
        let users : db'.users ≡ S.put (meanwhile db).users id (account done.hashed) =
          ap (λ (d : ApiDb). d.users) done.stored in
        let found = account_found done.hashed (meanwhile db).users db' fresh done.was_free users in
        let given = issue_tokens-given c lasting a id s in
        let stored : S.get db'.users id ≡ some (account done.hashed) = rw users (
          ground (arith, S.get-put (meanwhile db).users id id (account done.hashed), ==_refl id)) in
        (
          _,
          ap (λ out. out.0)
                (logs_in done.hashed a db' s found
                  (password_accepted done.hashed checks done.is_hash))
              ∙ given,
          rw done.is_account (known done.hashed a t db' later h stored),
          ap (λ (u : User). u.role) done.is_account,
          ap (λ (u : User). u.is_active) done.is_account,
        )
