-- ===== src/Redis/Keys.antt =====
-- The keys: `lock:event:{id}` (services/inventory/app/services/inventory_service.py),
-- `refresh:{jti}` (services/api/app/services/auth_service.py) and `ratelimit:{host}:{window}`
-- (services/api/app/core/rate_limit.py).
use eventsphere.Prelude.{ℕ, Bool, true, false, ◌&&◌, ◌==◌, ◌≡◌, arith}

pub data Key : Type 0 where
  lock_event : ℕ → Key
  refresh : ℕ → Key
  ratelimit : ℕ → ℕ → Key

abbrev pub same_key : Key → Key → Bool
same_key (lock_event a) (lock_event b) = a == b
same_key (refresh a) (refresh b) = a == b
same_key (ratelimit a i) (ratelimit b j) = a == b && i == j
same_key _ _ = false

pub same_key_self : (k : Key) → same_key k k ≡ true
same_key_self (lock_event a) = ground arith
same_key_self (refresh a) = ground arith
same_key_self (ratelimit a i) = ground arith
