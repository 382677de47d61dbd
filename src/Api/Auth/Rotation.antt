-- ===== src/Api/Auth/Rotation.antt =====
-- Refresh tokens: each is good for one refresh.
use eventsphere.Prelude.{◌∙◌, refl, ◌*◌, ◌≢◌, ◌≤◌, some, none, ◌+◌, ℕ, ◌≡◌, ◌/◌, ◌<◌, arith}
use eventsphere.Errors.{ok, err, authentication}
use eventsphere.Redis.{Redis}
use eventsphere.Redis.Keys.{Key}
use eventsphere.Api.Tokens.{Jwt, Claims, TokenType, decode_token, create_token}
use eventsphere.Api.Auth.{TokenSettings, AuthRun, issue_tokens, refresh_tokens, logout, ttl_ms}

module _ ⦃R : Redis⦄ ⦃J : Jwt⦄ (c : TokenSettings) (lasting : 0 < c.refresh_token_expire_days) where
  -- The refresh token that is issued with these ids at this time.
  abbrev pub refresh_claims : AuthRun → ℕ → Claims
  refresh_claims a user_id = record {
    sub = user_id;
    token_type = TokenType.refresh;
    iat = a.now / 1000;
    exp = a.now / 1000 + c.refresh_token_expire_days * 86_400;
    jti = a.refresh_jti;
  }

  issued_decode :
      (a : AuthRun) (user_id now : ℕ)
      → a.now ≤ now
      → now < (a.now / 1000 + c.refresh_token_expire_days * 86_400) * 1000
      → decode_token now
          (create_token a.now a.refresh_jti user_id TokenType.refresh
            (c.refresh_token_expire_days * 86_400))
          TokenType.refresh
        ≡ ok (refresh_claims a user_id)
  unfolding decode_token create_token
  issued_decode a user_id now later h =
      rw (J.decode-encode now (refresh_claims a user_id) (omega arith) h) refl

  lasts : (a : AuthRun) → a.now < (a.now / 1000 + c.refresh_token_expire_days * 86_400) * 1000
  lasts a = omega arith

  pub issue_tokens-stored :
      (a : AuthRun) (user_id : ℕ) (s : R.State)
      → (issue_tokens c a user_id s).1
        ≡ R.set s a.now (Key.refresh a.refresh_jti) user_id (ttl_ms c)
  unfolding issue_tokens
  issue_tokens-stored a user_id s =
      rw (issued_decode a user_id a.now (omega arith) (lasts a), issue_tokens) refl

  pub issue_tokens-given :
      (a : AuthRun) (user_id : ℕ) (s : R.State)
      → (issue_tokens c a user_id s).0
        ≡ ok (record {
          access_token =
              create_token a.now a.access_jti user_id TokenType.access
                (c.access_token_expire_minutes * 60);
          refresh_token =
              create_token a.now a.refresh_jti user_id TokenType.refresh
                (c.refresh_token_expire_days * 86_400);
        })
  unfolding issue_tokens
  issue_tokens-given a user_id s =
      rw (issued_decode a user_id a.now (omega arith) (lasts a), issue_tokens) refl

  -- A refresh that is given a valid token whose id is no longer stored
  refresh_refused :
      (a : AuthRun) (token : J.Token) (p : Claims) (s : R.State)
      → decode_token a.now token TokenType.refresh ≡ ok p
      → R.value s a.now (Key.refresh p.jti) ≡ none
      → refresh_tokens c a token s ≡ (err authentication, s)
  unfolding refresh_tokens
  refresh_refused a token p s valid gone = rw (valid, gone, refresh_tokens) refl

  refresh_done :
      (a : AuthRun) (token : J.Token) (p : Claims) (user_id : ℕ) (s : R.State)
      → decode_token a.now token TokenType.refresh ≡ ok p
      → R.value s a.now (Key.refresh p.jti) ≡ some user_id
      → refresh_tokens c a token s ≡ issue_tokens c a p.sub (R.del s (Key.refresh p.jti))
  unfolding refresh_tokens
  refresh_done a token p user_id s valid stored = rw (valid, stored, refresh_tokens) refl

  -- If refresh tokens last at least a day, a valid refresh token that is stored is good for one
  -- attempt: a later attempt with it is refused and stores nothing, provided that the first one
  -- did not draw the token's own id again.
  pub refresh_single_use :
      (a a' : AuthRun) (token : J.Token) (p : Claims) (user_id : ℕ) (s : R.State)
      → decode_token a.now token TokenType.refresh ≡ ok p
      → decode_token a'.now token TokenType.refresh ≡ ok p
      → a.now ≤ a'.now
      → a.refresh_jti ≢ p.jti
      → R.value s a.now (Key.refresh p.jti) ≡ some user_id
      → (s' : R.State) → (refresh_tokens c a token s).1 ≡ s'
      → refresh_tokens c a' token s' ≡ (err authentication, s')
  refresh_single_use a a' token p user_id s valid valid' later fresh stored s' h =
      refresh_refused a' token p s' valid' (
        rw
          (
            ← h,
            refresh_done a token p user_id s valid stored,
            issue_tokens-stored a p.sub (R.del s (Key.refresh p.jti)),
          )
          (ground (
            arith,
            R.value-set (R.del s (Key.refresh p.jti)) a.now a'.now (Key.refresh a.refresh_jti)
                (Key.refresh p.jti) p.sub (ttl_ms c) later,
            R.value-del s a'.now (Key.refresh p.jti) (Key.refresh p.jti),
          )))

  -- If refresh tokens last at least a day, an issued refresh token is accepted until it expires: the
  -- refresh returns an access token and a refresh token of the same user, with new ids and times; the
  -- token that was used is deleted, and the id of the one that is returned is stored.
  pub refresh_accepted :
      (a a' : AuthRun) (user_id : ℕ) (s : R.State)
      → a.now ≤ a'.now
      → a'.now < (a.now / 1000 + c.refresh_token_expire_days * 86_400) * 1000
      → refresh_tokens c a'
          (create_token a.now a.refresh_jti user_id TokenType.refresh
            (c.refresh_token_expire_days * 86_400))
          (issue_tokens c a user_id s).1
        ≡ (
          ok (record {
            access_token =
                create_token a'.now a'.access_jti user_id TokenType.access
                  (c.access_token_expire_minutes * 60);
            refresh_token =
                create_token a'.now a'.refresh_jti user_id TokenType.refresh
                  (c.refresh_token_expire_days * 86_400);
          }),
          R.set
              (R.del (issue_tokens c a user_id s).1 (Key.refresh a.refresh_jti))
              a'.now
              (Key.refresh a'.refresh_jti)
              user_id
              (ttl_ms c),
        )
  refresh_accepted a a' user_id s later before =
      let stored : R.value (issue_tokens c a user_id s).1 a'.now (Key.refresh a.refresh_jti)
          ≡ some user_id =
        rw (issue_tokens-stored a user_id s) (
          ground (
            arith,
            R.value-set s a.now a'.now (Key.refresh a.refresh_jti) (Key.refresh a.refresh_jti)
                user_id (ttl_ms c) later,
          )) in
      let s' : R.State = R.del (issue_tokens c a user_id s).1 (Key.refresh a.refresh_jti) in
      refresh_done a' _ (refresh_claims a user_id) user_id (issue_tokens c a user_id s).1
        (issued_decode a user_id a'.now later before) stored
      ∙ cc (issue_tokens-given a' user_id s', issue_tokens-stored a' user_id s')

  -- If refresh tokens last at least a day, a valid refresh token is refused after a logout with
  -- it, and nothing is stored.
  pub logout_revokes :
      (now : ℕ) (a : AuthRun) (token : J.Token) (p : Claims) (s : R.State)
      → decode_token now token TokenType.refresh ≡ ok p
      → decode_token a.now token TokenType.refresh ≡ ok p
      → refresh_tokens c a token (logout c now token s).1
        ≡ (err authentication, (logout c now token s).1)
  unfolding logout
  logout_revokes now a token p s valid valid' =
      rw (valid, logout)
        (refresh_refused a token p (R.del s (Key.refresh p.jti)) valid'
          (ground (arith, R.value-del s a.now (Key.refresh p.jti) (Key.refresh p.jti))))
