-- ===== src/Kafka/Consumer.antt =====
-- services/shared/kafka/consumer.py: the loop over the messages of one partition, and the offset
-- that it commits. `commit()` with no argument commits the position behind the last message read.
use eventsphere.Prelude.{arith, refl, [], ◌++◌, ◌+◌, ◌≡◌, ◌∷◌, List, ℕ, Bool, if◌then◌else◌}
use eventsphere.Errors.{err, ok, Result, Action}
use eventsphere.Prelude.Lists.{length}

-- The offset from which a restarted consumer reads on.
pub record Progress (W : Type 0) : Type 0 where
  pub committed : ℕ
  pub world : W

module _ {W : Type 0} {M : Type 0} (handler : M → Action W (Unit {0})) where
  abbrev after_handler : ℕ → ℕ → Result (Unit {0}) × W → Progress W
  after_handler offset committed (ok _, w) = record { committed = offset + 1; world = w }
  after_handler offset committed (err e, w) = record { committed = committed; world = w }

  committed_ok :
      (offset committed : ℕ) (out : Result (Unit {0}) × W)
      → out.0 ≡ ok tt
      → (after_handler offset committed out).committed ≡ offset + 1
  committed_ok offset committed (ok _, w) h = refl
  committed_ok offset committed (err e, w) h = absurd (cc)

  -- `_process`: commit if the handler returns, log and go on if it raises.
  unfoldable pub process : ℕ → M → Progress W → Progress W
  process offset message p = after_handler offset p.committed (handler message p.world)

  -- `run` over the messages from an offset on.
  unfoldable pub run : ℕ → List M → Progress W → Progress W
  run offset [] p = p
  run offset (message ∷ rest) p = run (offset + 1) rest (process offset message p)

  -- `run` with `stop`: the loop ends at the first message that finds `_stopping` set.
  unfoldable pub run_until : ℕ → List (M × Bool) → Progress W → Progress W
  run_until offset [] p = p
  run_until offset ((message, stopping) ∷ rest) p =
      let others = run_until (offset + 1) rest (process offset message p) in
      if stopping then p else others

  -- If the handler returns on the last message of a batch, the committed offset is behind the
  -- whole batch, whatever the handler did on the messages before it: those that raised are not
  -- delivered again.
  pub run_skips_failures :
      (offset : ℕ) (batch : List M) (last : M) (p : Progress W)
      → (handler last (run offset batch p).world).0 ≡ ok tt
      → (run offset (batch ++ last ∷ []) p).committed ≡ offset + length batch + 1
  unfolding run process
  run_skips_failures offset [] last p h =
      omega (arith, committed_ok offset p.committed (handler last p.world) h)
  run_skips_failures offset (m ∷ batch) last p h =
      omega (arith, run_skips_failures (offset + 1) batch last (process offset m p) h)
