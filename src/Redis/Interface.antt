-- ===== src/Redis/Interface.antt =====
-- The interface of Redis, with the behaviour that its documentation promises.
use eventsphere.Prelude.{ℕ, ◌+◌, ◌≤◌, ◌≡◌, Option, none, some, ltb, if◌then◌else◌}
use eventsphere.Redis.Keys.{Key, same_key}

-- `value s now k` is what GET k answers at the time `now`.
pub record Redis : Type 1 where
  pub State : Type 0
  pub value : State → ℕ → Key → Option ℕ
  -- SET k v PX ttl
  pub set : State → ℕ → Key → ℕ → ℕ → State
  pub del : State → Key → State
  -- INCR k: a key that is not there counts from 0
  pub incr : State → ℕ → Key → State
  -- EXPIRE k, in milliseconds
  pub expire : State → ℕ → Key → ℕ → State
  pub value-set :
      (s : State) (now t : ℕ) (k j : Key) (v ttl : ℕ)
      → now ≤ t
      → value (set s now k v ttl) t j
        ≡ (if same_key k j then (if ltb t (now + ttl) then some v else none) else value s t j)
  pub value-del :
      (s : State) (t : ℕ) (k j : Key)
      → value (del s k) t j ≡ (if same_key k j then none else value s t j)
  pub value-incr :
      (s : State) (now : ℕ) (k j : Key)
      → value (incr s now k) now j ≡ (
          if same_key k j
          then some (elim (value s now k) [ none ↦ 1 | some n ↦ n + 1 ])
          else value s now j)
  pub value-expire :
      (s : State) (now t : ℕ) (k j : Key) (ttl : ℕ)
      → now ≤ t
      → value (expire s now k ttl) t j ≡ (
          if same_key k j then (if ltb t (now + ttl) then value s now k else none) else value s t j)
