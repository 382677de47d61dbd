-- ===== src/Inventory/Lock/Holder.antt =====
-- Who holds the lock of an event.
use eventsphere.Prelude.{
  arith, inr, inl, Option-cases, refl, ◌&&◌, none, zero, if◌then◌else◌, true, ◌==◌, suc, ◌<◌, ◌≡◌,
  some, false, Bool, Option, ℕ,
}
use eventsphere.Redis.{Redis}
use eventsphere.Inventory.Lock.{set_nx, release_script, Try, acquire}
use eventsphere.Redis.Keys.{same_key_self, same_key, Key}

abbrev pub holds : Option ℕ → ℕ → Bool
holds none token = false
holds (some holder) token = holder == token

module _ ⦃R : Redis⦄ where
  -- The release script takes away the caller's own lock and nothing else: every key reads as
  -- before, but for the lock itself if it still held the caller's token.
  pub release_script_own :
      (now t : ℕ) (key j : Key) (token : ℕ) (s : R.State)
      → R.value (release_script now key token s) t j
        ≡ (if holds (R.value s now key) token && same_key key j then none else R.value s t j)
  unfolding release_script
  release_script_own now t key j token s = elim (Option-cases (R.value s now key)) [
    | inl free ↦ rw (free, release_script)
    | inr (holder, h) ↦ rw (h, release_script) (ground (arith, R.value-del s t key j))
  ]

  -- While another client's token is in the key at the time of every try, and nothing else changes in
  -- Redis between the tries, the lock is not given and Redis is left as it was.
  pub acquire_excluded :
      (times : ℕ → ℕ) (n : ℕ) (key : Key) (token ttl_ms : ℕ) (s : R.State) (other : ℕ → ℕ)
      → ((i : ℕ) → R.value s (times i) key ≡ some (other i))
      → acquire (λ i. record { meanwhile = λ x. x; now = times i }) n key token ttl_ms s
        ≡ (false, s)
  unfolding acquire set_nx
  acquire_excluded times zero key token ttl_ms s other h = refl
  acquire_excluded times (suc n) key token ttl_ms s other h =
      rw (h n, set_nx) (acquire_excluded times n key token ttl_ms s other h)

  -- What a try finds, after what others did before it.
  abbrev pub Taken : Try → Key → ℕ → R.State → Type 0
  Taken a key token s = R.value s a.now key ≡ some token

  -- A client that is given the lock holds it at the time of one of its tries.
  pub acquire_holds :
      (tries : ℕ → Try) (n : ℕ) (key : Key) (token ttl_ms : ℕ) (s s' : R.State)
      → 0 < ttl_ms
      → acquire tries n key token ttl_ms s ≡ (true, s')
      → (i : ℕ) × (i < n) × Taken (tries i) key token s'
  unfolding acquire set_nx
  acquire_holds tries zero key token ttl_ms s s' positive h = absurd (cc)
  acquire_holds tries (suc n) key token ttl_ms s s' positive h =
      elim (Option-cases (R.value ((tries n).meanwhile s) (tries n).now key)) [
        | inl free ↦
            let given : R.set ((tries n).meanwhile s) (tries n).now key token ttl_ms ≡ s' =
              cc (rw (free, acquire, set_nx) at h) in
            (n, omega arith, rw (← given) (set_read n))
        | inr (holder, taken) ↦
            let (i, lt, found) =
              acquire_holds tries n key token ttl_ms _ s' positive
                (rw (taken, acquire, set_nx) at h) in
            (i, omega arith, found)
      ]
    where
      set_read :
          (i : ℕ)
          → Taken (tries i) key token (R.set ((tries i).meanwhile s) (tries i).now key token ttl_ms)
      set_read i = ground (
        arith,
        R.value-set ((tries i).meanwhile s) (tries i).now (tries i).now key key token ttl_ms,
        same_key_self key,
      )
