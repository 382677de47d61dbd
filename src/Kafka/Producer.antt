-- ===== src/Kafka/Producer.antt =====
-- services/shared/kafka/producer.py, with `EventEnvelope.wrap` of schemas.py. What a producer has
-- sent is a list of messages, in order. The envelope's own id and time are never read by the
-- handlers, and are left out.
use eventsphere.Prelude.{true, [], ◌∷◌, ◌++◌, not, if◌then◌else◌, List, Bool, ℕ}
use eventsphere.Kafka.Topics.{topic_for_event_type, Topic, EventType}
use eventsphere.Kafka.Schemas.{Payload}
use eventsphere.Errors.{ok, kafka, runtime_error, err, Action}

pub record Message : Type 0 where
  pub topic : Topic
  pub key : ℕ
  pub event_type : EventType
  pub payload : Payload

-- `started` says whether `start` has been called; `reachable` whether the broker takes a message.
pub record Producer : Type 0 where
  pub started : Bool
  pub reachable : Bool
  pub sent : List Message

abbrev pub envelope : EventType → ℕ → Payload → Message
envelope event_type key payload = record {
  topic = topic_for_event_type event_type;
  key = key;
  event_type = event_type;
  payload = payload;
}

-- A producer that has started, with a broker that takes messages.
abbrev pub ready : List Message → Producer
ready sent = record { started = true; reachable = true; sent = sent }

unfoldable pub publish : EventType → ℕ → Payload → Action Producer Unit
publish event_type key payload p =
    if not p.started
    then (err runtime_error, p)
    else if not p.reachable
    then (err kafka, p)
    else (ok tt, record p { sent = p.sent ++ envelope event_type key payload ∷ [] })
