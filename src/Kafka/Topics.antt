-- ===== src/Kafka/Topics.antt =====
-- services/shared/kafka/topics.py, with the subscription and the `match event_type` of each
-- consumer (services/api/app/workers, services/inventory/app/workers).
use eventsphere.Prelude.{arith, Bool, true, false, ◌≢◌, ◌⊎◌, ◌≡◌, refl, sym, ◌∙◌, inl, inr}

pub data EventType : Type 0 where
  event_created event_updated order_created payment_processed : EventType
  ticket_issued order_cancelled reservation_expired : EventType

pub data Topic : Type 0 where
  events_lifecycle orders_created orders_status_changed orders_notifications : Topic

unfoldable pub topic_for_event_type : EventType → Topic
topic_for_event_type event_created = events_lifecycle
topic_for_event_type event_updated = events_lifecycle
topic_for_event_type order_created = orders_created
topic_for_event_type payment_processed = orders_status_changed
topic_for_event_type reservation_expired = orders_status_changed
topic_for_event_type ticket_issued = orders_notifications
topic_for_event_type order_cancelled = orders_notifications

-- The consumers: `run_event_sync_consumer`, `run_payment_worker`, `run_order_status_worker` and
-- `run_notification_worker`, each with its one topic.
pub data Worker : Type 0 where
  event_sync payment order_status notification : Worker

-- The `topics` that each passes to BaseKafkaConsumer
abbrev event_sync_topic : Topic
event_sync_topic = events_lifecycle

abbrev payment_topic : Topic
payment_topic = orders_created

abbrev order_status_topic : Topic
order_status_topic = orders_status_changed

abbrev notification_topic : Topic
notification_topic = orders_notifications

unfoldable pub subscription : Worker → Topic
subscription event_sync = event_sync_topic
subscription payment = payment_topic
subscription order_status = order_status_topic
subscription notification = notification_topic

-- Whether each acts on an event type: the cases of its `match`. The payment worker matches on
-- nothing: it charges for whatever it reads.
abbrev event_sync_cases : EventType → Bool
event_sync_cases event_created = true
event_sync_cases event_updated = true
event_sync_cases _ = false

abbrev payment_cases : EventType → Bool
payment_cases _ = true

abbrev order_status_cases : EventType → Bool
order_status_cases payment_processed = true
order_status_cases reservation_expired = true
order_status_cases _ = false

abbrev notification_cases : EventType → Bool
notification_cases ticket_issued = true
notification_cases order_cancelled = true
notification_cases _ = false

unfoldable pub dispatches : Worker → EventType → Bool
dispatches event_sync = event_sync_cases
dispatches payment = payment_cases
dispatches order_status = order_status_cases
dispatches notification = notification_cases

-- Every kind of event has a worker that reads its topic and acts on it.
pub every_event_dispatched :
    (t : EventType)
    → (w : Worker) × (subscription w ≡ topic_for_event_type t) × (dispatches w t ≡ true)
unfolding topic_for_event_type subscription dispatches
every_event_dispatched event_created = (event_sync, refl, refl)
every_event_dispatched event_updated = (event_sync, refl, refl)
every_event_dispatched order_created = (payment, refl, refl)
every_event_dispatched payment_processed = (order_status, refl, refl)
every_event_dispatched ticket_issued = (notification, refl, refl)
every_event_dispatched order_cancelled = (notification, refl, refl)
every_event_dispatched reservation_expired = (order_status, refl, refl)

-- No worker reads an event that it does not act on, and the payment worker, which acts on whatever
-- it reads, reads created orders only.
pub only_dispatched_read :
    (w : Worker) (t : EventType)
    → subscription w ≡ topic_for_event_type t
    → (dispatches w t ≡ true) × ((w ≢ payment) ⊎ (t ≡ order_created))
unfolding topic_for_event_type subscription dispatches
only_dispatched_read event_sync t h = ground arith
only_dispatched_read payment t h = ground arith
only_dispatched_read order_status t h = ground arith
only_dispatched_read notification t h = ground arith

subscription-injective : (v w : Worker) → subscription v ≡ subscription w → v ≡ w
unfolding subscription
subscription-injective event_sync w h = ground arith
subscription-injective payment w h = ground arith
subscription-injective order_status w h = ground arith
subscription-injective notification w h = ground arith

-- Every kind of event is read by exactly one worker, which acts on it, and the payment worker, which
-- acts on whatever it reads, reads created orders only.
pub event_dispatched_once :
    (t : EventType)
    → (w : Worker) × (subscription w ≡ topic_for_event_type t)
      × (dispatches w t ≡ true)
      × (w ≡ payment → t ≡ order_created)
      × ((v : Worker) → subscription v ≡ topic_for_event_type t → v ≡ w)
unfolding topic_for_event_type subscription dispatches
event_dispatched_once t =
    let (w, reads, acts) = every_event_dispatched t in
    (
      w,
      reads,
      acts,
      λ is_payment. elim (only_dispatched_read w t reads).1 [
        | inl ne ↦ absurd (ne is_payment)
        | inr e ↦ e
      ],
      λ v h. subscription-injective v w (h ∙ sym reads),
    )
