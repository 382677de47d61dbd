-- ===== src/Api/RateLimit.antt =====
-- services/api/app/core/rate_limit.py: the fixed window by client, counted in Redis.
use eventsphere.Prelude.{
  arith, ℕ, zero, suc, Bool, false, ◌==◌, ◌+◌, ◌-◌, ◌/◌, ◌≡◌, ltb, if◌then◌else◌, some, none,
  Option,
}
use eventsphere.Redis.{Redis}
use eventsphere.Redis.Keys.{Key, ratelimit, same_key_self}

-- What the middleware answers: a 429, or the answer of the application with the two headers.
pub data Verdict : Type 0 where
  exempt limited : Verdict
  passed : (limit remaining : ℕ) → Verdict

module _ ⦃R : Redis⦄ where
  -- The number of an INCR's answer
  abbrev pub counted : Option ℕ → ℕ
  counted none = 0
  counted (some n) = n

  abbrev pub window_key : ℕ → ℕ → Key
  window_key identifier now = ratelimit identifier (now / 60_000)

  -- The first request of a window sets the time to live.
  abbrev pub expire_first : ℕ → ℕ → Key → R.State → R.State
  expire_first current now key s = if current == 1 then R.expire s now key 60_000 else s

  -- `dispatch`, up to `call_next`; the time is in milliseconds.
  unfoldable pub dispatch : ℕ → Bool → ℕ → ℕ → R.State → Verdict × R.State
  dispatch limit is_exempt identifier now s =
      if is_exempt
      then (exempt, s)
      else let key = window_key identifier now in
        let counted_up = R.incr s now key in
        let current = counted (R.value counted_up now key) in
        let s' = expire_first current now key counted_up in
        (if ltb limit current then limited else passed limit (limit - current), s')

  -- How many of n requests of one client at one time pass.
  abbrev is_passed : Verdict → ℕ
  is_passed (passed _ _) = 1
  is_passed _ = 0

  unfoldable pub burst : ℕ → ℕ → ℕ → ℕ → R.State → ℕ × R.State
  burst limit identifier now zero s = (0, s)
  burst limit identifier now (suc n) s =
      let (verdict, s') = dispatch limit false identifier now s in
      let (rest, s'') = burst limit identifier now n s' in (is_passed verdict + rest, s'')

  abbrev count : ℕ → ℕ → R.State → ℕ
  count identifier now s = counted (R.value s now (window_key identifier now))

  value-expire_first :
      (current now : ℕ) (key : Key) (s : R.State)
      → R.value (expire_first current now key s) now key ≡ R.value s now key
  value-expire_first current now key s =
      ground (arith, same_key_self key, R.value-expire s now now key key 60_000)

  count-incr :
      (s : R.State) (now : ℕ) (key : Key)
      → counted (R.value (R.incr s now key) now key) ≡ counted (R.value s now key) + 1
  count-incr s now key = ground (arith, same_key_self key, R.value-incr s now key key)

  -- One request is counted, and passes exactly if fewer than the limit were counted before it in
  -- its window.
  pub dispatch_lem :
      (limit identifier now : ℕ) (s : R.State)
      → (is_passed (dispatch limit false identifier now s).0
          ≡ (if ltb (count identifier now s) limit then 1 else 0))
        × (count identifier now (dispatch limit false identifier now s).1
            ≡ count identifier now s + 1)
  unfolding dispatch
  dispatch_lem limit identifier now s =
      let up : counted
            (R.value (R.incr s now (window_key identifier now)) now (window_key identifier now))
          ≡ count identifier now s + 1 =
        count-incr s now (window_key identifier now) in
      (
        rw up (ground arith),
        rw
            (value-expire_first
              (counted (
                R.value (R.incr s now (window_key identifier now)) now (window_key identifier now)))
              now (window_key identifier now) (R.incr s now (window_key identifier now)))
            up,
      )

  -- Of n requests of one client at one moment, as many pass as the window has left: at most the
  -- limit, less those counted before.
  pub burst_lem :
      (limit identifier now n : ℕ) (s : R.State)
      → (burst limit identifier now n s).0
        ≡ (if ltb n (limit - count identifier now s) then n else limit - count identifier now s)
  unfolding burst
  burst_lem limit identifier now zero s = ground arith
  burst_lem limit identifier now (suc n) s =
      let (one, next) = dispatch_lem limit identifier now s in
      let rest = burst_lem limit identifier now n (dispatch limit false identifier now s).1 in
      rw (one, rest, next) (ground arith)
