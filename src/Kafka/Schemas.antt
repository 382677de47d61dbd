-- ===== src/Kafka/Schemas.antt =====
-- services/shared/kafka/schemas.py: the payloads, and the envelope of a message. On the wire a
-- payload is a JSON object, from which the handlers take fields by name.
use eventsphere.Prelude.{ℕ, Bool}
use eventsphere.Prelude.Int.{ℤ}
use eventsphere.Errors.{Result, ok, err, key_error}

-- The ids are UUIDs; `transaction_ref` is text that nothing reads, and stands as a number.
pub data Payload : Type 0 where
  event_created_payload : (event_id : ℕ) (total_seats : ℤ) → Payload
  event_updated_payload : (event_id : ℕ) (total_seats : ℤ) → Payload
  order_created_payload :
      (order_id event_id user_id : ℕ) (quantity total_price_cents : ℤ) (reservation_id : ℕ)
      → Payload
  payment_processed_payload : (order_id : ℕ) (success : Bool) (transaction_ref : ℕ) → Payload
  ticket_issued_payload : (order_id user_id event_id : ℕ) → Payload
  order_cancelled_payload : (order_id reservation_id : ℕ) → Payload
  reservation_expired_payload : (reservation_id order_id event_id : ℕ) → Payload

-- `payload["order_id"]` and the like; a field that is not there is a KeyError.
unfoldable pub order_id_of : Payload → Result ℕ
order_id_of (order_created_payload o e u q p r) = ok o
order_id_of (payment_processed_payload o s t) = ok o
order_id_of (ticket_issued_payload o u e) = ok o
order_id_of (order_cancelled_payload o r) = ok o
order_id_of (reservation_expired_payload r o e) = ok o
order_id_of _ = err key_error

unfoldable pub success_of : Payload → Result Bool
success_of (payment_processed_payload o s t) = ok s
success_of _ = err key_error

unfoldable pub total_price_cents_of : Payload → Result ℤ
total_price_cents_of (order_created_payload o e u q p r) = ok p
total_price_cents_of _ = err key_error

unfoldable pub event_id_of : Payload → Result ℕ
event_id_of (event_created_payload e n) = ok e
event_id_of (event_updated_payload e n) = ok e
event_id_of (order_created_payload o e u q p r) = ok e
event_id_of (ticket_issued_payload o u e) = ok e
event_id_of (reservation_expired_payload r o e) = ok e
event_id_of _ = err key_error

unfoldable pub total_seats_of : Payload → Result ℤ
total_seats_of (event_created_payload e n) = ok n
total_seats_of (event_updated_payload e n) = ok n
total_seats_of _ = err key_error
