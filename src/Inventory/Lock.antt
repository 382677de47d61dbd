-- ===== src/Inventory/Lock.antt =====
-- services/inventory/app/services/locking.py: a lock on one event, as a Redis key that expires.
pub mod Holder
use eventsphere.Prelude.{◌==◌, some, none, zero, true, suc, if◌then◌else◌, false, Bool, ℕ}
use eventsphere.Redis.{Redis}
use eventsphere.Redis.Keys.{Key}
use eventsphere.Errors.{lock_acquisition, err, Result, Action}

module _ ⦃R : Redis⦄ where
  -- One SET of the retry loop: its time, and what other clients have done to Redis before it.
  pub record Try : Type 0 where
    pub meanwhile : R.State → R.State
    pub now : ℕ

  -- SET key token NX PX ttl
  unfoldable pub set_nx : ℕ → Key → ℕ → ℕ → R.State → Bool × R.State
  set_nx now key token ttl_ms s = elim (R.value s now key) [
    | none ↦ (true, R.set s now key token ttl_ms)
    | some _ ↦ (false, s)
  ]

  -- `break`, or sleep and go on.
  abbrev pub tried : Bool × R.State → (R.State → Bool × R.State) → Bool × R.State
  tried (true, s) rest = (true, s)
  tried (false, s) rest = rest s

  -- `for _ in range(retry_attempts)`; `tries n` is met with n tries left after it.
  unfoldable pub acquire : (ℕ → Try) → ℕ → Key → ℕ → ℕ → R.State → Bool × R.State
  acquire tries zero key token ttl_ms s = (false, s)
  acquire tries (suc n) key token ttl_ms s =
      tried (set_nx (tries n).now key token ttl_ms ((tries n).meanwhile s))
        (acquire tries n key token ttl_ms)

  -- `_RELEASE_SCRIPT`: DEL only if the key still holds the token.
  unfoldable pub release_script : ℕ → Key → ℕ → R.State → R.State
  release_script now key token s = elim (R.value s now key) [
    | none ↦ s
    | some holder ↦ if holder == token then R.del s key else s
  ]

  -- What one use of `RedisLock.acquire` meets: the tries, what happens to Redis while the body
  -- runs, the time of the release, and whether its `eval` fails.
  pub record LockRun : Type 0 where
    pub tries : ℕ → Try
    pub retry_attempts : ℕ
    pub ttl_ms : ℕ
    pub token : ℕ
    pub during : R.State → R.State
    pub release_at : ℕ
    pub eval_fails : Bool

  abbrev pub unlock : LockRun → Key → R.State → R.State
  unlock l key s = if l.eval_fails then s else release_script l.release_at key l.token s

  abbrev pub locked :
      {A D : Type 0} → LockRun → Key → Action D A → Bool × R.State → D → Result A × D × R.State
  locked l key body (false, s) d = (err lock_acquisition, d, s)
  locked l key body (true, s) d = let (r, d') = body d in (r, d', unlock l key (l.during s))

  -- `async with lock.acquire(key): body`. A release that fails is only logged.
  unfoldable pub with_lock :
      {A D : Type 0} → LockRun → Key → Action D A → D → R.State → Result A × D × R.State
  with_lock l key body d s =
      locked l key body (acquire l.tries l.retry_attempts key l.token l.ttl_ms s) d
