-- ===== src/Inventory/Workers.antt =====
-- services/inventory/app/workers: the consumer of the events' lifecycle, and one round of the
-- reaper's loop.
pub mod Drains
use eventsphere.Prelude.{zero, suc, ◌∙◌, sym, ap, ◌++◌, ◌∷◌, [], map, List, ℕ, ◌≡◌, refl, true}
use eventsphere.Errors.{continue, ◌>>=◌, Action, Result, ok, err, pure}
use mathlib.Core.List.{append-nil, append_assoc}
use eventsphere.Storage.{Storage}
use eventsphere.Redis.{Redis}
use eventsphere.Inventory.Service
use eventsphere.Kafka.Topics
use eventsphere.Kafka.Topics.{EventType}
use eventsphere.Kafka.Schemas.{Payload, event_id_of, total_seats_of, reservation_expired_payload}
use eventsphere.Kafka.Producer.{envelope, Message, Producer, publish}
use eventsphere.Inventory.Lock.{LockRun}
use eventsphere.Inventory.Models.{Db, Reservation}
use eventsphere.Prelude.Int.{ℤ}
use eventsphere.Inventory.Service.{sweep_expired_reservations}

module _ ⦃S : Storage⦄ ⦃R : Redis⦄ (l : LockRun) where
  abbrev Stores : Type 0
  Stores = Db × R.State

  abbrev sync_created : ℕ → ℤ → Action Stores (Unit {0})
  sync_created event_id total_seats (db, s) =
      let (r, db') = Service.initialize_inventory (λ d. d) event_id total_seats db in
      (elim r [ ok _ ↦ ok tt | err e ↦ err e ], (db', s))

  abbrev sync_updated : ℕ → ℤ → Action Stores (Unit {0})
  sync_updated event_id total_seats (db, s) =
      let (r, db', s') = Service.adjust_capacity l (λ d. d) event_id total_seats db s in
      (elim r [ ok _ ↦ ok tt | err e ↦ err e ], (db', s'))

  abbrev pub sync_handler : EventType → Payload → Action Stores (Unit {0})
  sync_handler Topics.event_created payload = do
    event_id ← λ w. (event_id_of payload, w)
    total_seats ← λ w. (total_seats_of payload, w)
    sync_created event_id total_seats
  sync_handler Topics.event_updated payload = do
    event_id ← λ w. (event_id_of payload, w)
    total_seats ← λ w. (total_seats_of payload, w)
    sync_updated event_id total_seats
  sync_handler _ payload = pure tt

  -- `_handle_message` of the event sync consumer; other types are logged.
  unfoldable pub handle_event_message : Message → Action Stores (Unit {0})
  handle_event_message m = sync_handler m.event_type m.payload

abbrev pub expired_message : Reservation → Message
expired_message r =
    envelope Topics.reservation_expired r.event_id
      (reservation_expired_payload r.id r.order_id r.event_id)

-- `for reservation in released: await producer.publish(…)`
unfoldable pub announce : List Reservation → Action Producer (Unit {0})
announce [] p = (ok tt, p)
announce (r ∷ rest) p =
    continue
      (publish Topics.reservation_expired r.event_id
        (reservation_expired_payload r.id r.order_id r.event_id) p)
      (λ _. announce rest)

-- One round of the loop: the sweep is committed before the first message is sent.
module _ ⦃S : Storage⦄ where
  abbrev announced_with :
      Result (List Reservation) × Db → Producer → Result (Unit {0}) × Db × Producer
  announced_with (err e, db) p = (err e, db, p)
  announced_with (ok released, db) p = let (r, p') = announce released p in (r, db, p')

  unfoldable pub reap : ℕ → Db → Producer → Result (Unit {0}) × Db × Producer
  reap now db = announced_with (sweep_expired_reservations now db)

  -- What one round of the loop meets: the clock, and the transactions that others commit while the
  -- reaper sleeps after it.
  pub record Awake : Type 0 where
    pub now : ℕ
    pub asleep : Db → Db

  abbrev pub next_round :
      Result (Unit {0}) × Db × Producer
      → (Db → Producer → Result (Unit {0}) × Db × Producer)
      → Result (Unit {0}) × Db × Producer
  next_round (ok u, db, p) others = others db p
  next_round (err e, db, p) others = (err e, db, p)

  -- The first rounds of `while True`; `rounds n` is met with n rounds after it. An exception ends
  -- the loop.
  unfoldable pub reap_rounds : (ℕ → Awake) → ℕ → Db → Producer → Result (Unit {0}) × Db × Producer
  reap_rounds rounds zero db p = (ok tt, db, p)
  reap_rounds rounds (suc n) db p =
      next_round (reap (rounds n).now db p) (λ d. reap_rounds rounds n ((rounds n).asleep d))

announce_ready :
    (released : List Reservation) (sent : List Message)
    → announce released (record { started = true; reachable = true; sent = sent }) ≡ (
      ok tt,
      record { started = true; reachable = true; sent = sent ++ map expired_message released },
    )
unfolding announce publish
announce_ready [] sent =
    ap (λ (x : List Message). (ok tt, record { started = true; reachable = true; sent = x }))
      (sym (append-nil sent))
announce_ready (r ∷ rest) sent =
    announce_ready rest (sent ++ expired_message r ∷ [])
    ∙ ap (λ (x : List Message). (ok tt, record { started = true; reachable = true; sent = x }))
        (append_assoc sent (expired_message r ∷ []) (map expired_message rest))

module _ ⦃S : Storage⦄ where
  -- With a broker that takes messages, a round of the reaper sends one RESERVATION_EXPIRED for each
  -- reservation that its sweep returns, in their order, and keeps the database of the sweep.
  pub reap_announces :
      (now : ℕ) (db db' : Db) (released : List Reservation) (sent : List Message)
      → sweep_expired_reservations now db ≡ (ok released, db')
      → reap now db (record { started = true; reachable = true; sent = sent }) ≡ (
        ok tt,
        db',
        record { started = true; reachable = true; sent = sent ++ map expired_message released },
      )
  unfolding reap
  reap_announces now db db' released sent h = rw (h, reap) (rw (announce_ready released sent) refl)
