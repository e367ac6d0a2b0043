-- ===== src/EventSchema/EventPublisher.antt =====
-- libraries/event-schema/src/kafka/publisher.ts: the envelope of an event, and its sending.
-- `randomUUID` is a parameter, its n-th value; the broker takes a message or does not at a moment.
use ryd_trip.Prelude.{ℕ, ◌+◌, String, Bool, Option, none, some, List, ◌∷◌, if◌then◌else◌}
use ryd_trip.Exec.{Result, ok, err}
use ryd_trip.EventSchema.{EventEnvelope}

pub record PublishOptions : Type 0 where
  pub correlation_id : Option String
  pub key : Option String

-- A message that was sent; its headers are fields of its envelope.
pub record Message (P : Type 0) : Type 0 where
  pub topic : String
  pub key : Option String
  pub envelope : EventEnvelope P

-- The producer, its last message first.
pub record EventPublisher (P : Type 0) : Type 0 where
  pub sent : List (Message P)
  pub uuids : ℕ
  pub now : ℕ

pub data PublishError : Type 0 where
  broker_unreachable : PublishError

-- `options.correlationId ?? randomUUID()`, with the uuids used so far.
abbrev pub correlation : (ℕ → String) → Option String → ℕ → String × ℕ
correlation random_uuid none n = (random_uuid n, n + 1)
correlation random_uuid (some c) n = (c, n)

module _ {P : Type 0} (producer_name : String) (random_uuid : ℕ → String)
    (broker_up : ℕ → Bool) where
  unfoldable pub publish :
      String
      → String
      → P
      → PublishOptions
      → EventPublisher P
      → Result PublishError (EventEnvelope P) × EventPublisher P
  publish topic event_type payload options w =
      let (correlation_id, used) = correlation random_uuid options.correlation_id (w.uuids + 1) in
      let envelope : EventEnvelope P = record {
        event_id = random_uuid w.uuids;
        event_type = event_type;
        version = 1;
        timestamp = w.now;
        correlation_id = correlation_id;
        producer = producer_name;
        payload = payload;
      } in
      let message : Message P = record { topic = topic; key = options.key; envelope = envelope } in
      if broker_up w.now
      then (ok envelope, record w { sent = message ∷ w.sent; uuids = used })
      else (err broker_unreachable, record w { uuids = used })
