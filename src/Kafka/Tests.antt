-- ===== src/Kafka/Tests.antt =====
-- The theorems on topics and consumers at concrete inputs.
use eventsphere.Prelude.{true, refl, [], ◌≡◌, ◌∷◌, ℕ, zero, suc}
use eventsphere.Errors.{Error, Result, ok, err}
use eventsphere.Kafka.Topics
use eventsphere.Kafka.Topics.{
  Worker, EventType, Topic, subscription, dispatches, topic_for_event_type, event_dispatched_once,
}
use eventsphere.Kafka.Consumer.{process, Progress, run, run_skips_failures}

-- A handler that fails on the message 0 and counts the others.
abbrev counting : ℕ → ℕ → Result (Unit {0}) × ℕ
counting zero w = (err Error.kafka, w)
counting (suc _) w = (ok tt, suc w)

abbrev at_start : Progress ℕ
at_start = record { committed = 10; world = 0 }

last_ok : (counting 7 (run counting 10 (3 ∷ 0 ∷ []) at_start).world).0 ≡ ok tt
unfolding run process
last_ok = refl

run_skips_failures_example : (run counting 10 (3 ∷ 0 ∷ 7 ∷ []) at_start).committed ≡ 13
run_skips_failures_example = run_skips_failures counting 10 (3 ∷ 0 ∷ []) 7 at_start last_ok

event_dispatched_once_example :
    (w : Worker) × (subscription w ≡ topic_for_event_type Topics.ticket_issued)
    × (dispatches w Topics.ticket_issued ≡ true)
    × (w ≡ Topics.payment → Topics.ticket_issued ≡ Topics.order_created)
    × ((v : Worker) → subscription v ≡ topic_for_event_type Topics.ticket_issued → v ≡ w)
event_dispatched_once_example = event_dispatched_once Topics.ticket_issued
