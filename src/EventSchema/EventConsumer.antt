-- ===== src/EventSchema/EventConsumer.antt =====
-- libraries/event-schema/src/kafka/consumer.ts: retries with backoff, and the dead letter topic.
-- `JSON.parse`, with the text of its error, and `Math.random` are parameters: `parse`, and `jitter`, which takes a ceiling to a
-- delay. A handler is a computation on the service's state that may throw. Sending to the broker
-- appends a record to the topic, and creating a topic counts.
pub mod Laws
mod Tests
use ryd_trip.Prelude.{
  ℕ, zero, suc, ◌+◌, ◌-◌, ◌*◌, ◌^◌, min, String, Bool, true, false, Option, none, some, List, [],
  ◌∷◌, ◌==◌, if◌then◌else◌, str_eq, str_append,
}
use ryd_trip.Exec.{Result, ok, err}
use ryd_trip.EventSchema.{EventEnvelope}

pub record RetryOptions : Type 0 where
  pub max_attempts : ℕ
  pub base_delay_ms : ℕ
  pub max_delay_ms : ℕ

abbrev pub default_retry : RetryOptions
default_retry = record { max_attempts = 3; base_delay_ms = 200; max_delay_ms = 5000 }

pub data DlqReason : Type 0 where
  malformed_json handler_failed : DlqReason

pub record DlqRecord (P : Type 0) : Type 0 where
  pub dlq_reason : DlqReason
  pub consumer_group : String
  pub original_topic : String
  pub original_partition : ℕ
  pub original_offset : String
  pub original_key : Option String
  pub attempts : ℕ
  pub error_message : String
  pub failed_at : ℕ
  pub envelope : Option (EventEnvelope P)
  pub raw_value : Option String

-- A message of a topic.
pub record EachMessagePayload : Type 0 where
  pub topic : String
  pub partition : ℕ
  pub offset : String
  pub key : Option String
  pub value : Option String

-- The consumer with the state of the service that it serves; the last records and delays first.
pub record Consumer (S P : Type 0) : Type 0 where
  pub service : S
  pub dead_letters : List (DlqRecord P)
  pub dlq_topic_ensured : Bool
  pub topics_created : ℕ
  pub delays : List ℕ
  pub now : ℕ

-- The ceiling of the delay before the next attempt.
unfoldable pub backoff_cap : RetryOptions → ℕ → ℕ
backoff_cap retry attempt = min retry.max_delay_ms (retry.base_delay_ms * 2 ^ (attempt - 1))

-- A text that is missing or empty is falsy.
abbrev pub text_value : Option String → Option String
text_value none = none
text_value (some s) = if str_eq s "" then none else some s

module _ {S P E : Type 0} (group_id : String) (parse : String → Result String (EventEnvelope P))
    (jitter : ℕ → ℕ) (message : E → String)
    (handler : EventEnvelope P → S → Result E (Unit {0}) × S) (retry : RetryOptions) where
  unfoldable pub ensure_dlq_topic : Consumer S P → Consumer S P
  ensure_dlq_topic c =
      if c.dlq_topic_ensured
      then c
      else record c { dlq_topic_ensured = true; topics_created = c.topics_created + 1 }

  abbrev pub dlq_record :
      EachMessagePayload
      → DlqReason
      → Option (EventEnvelope P)
      → Option String
      → ℕ
      → String
      → ℕ
      → DlqRecord P
  dlq_record payload reason envelope raw attempts error now = record {
    dlq_reason = reason;
    consumer_group = group_id;
    original_topic = payload.topic;
    original_partition = payload.partition;
    original_offset = payload.offset;
    original_key = payload.key;
    attempts = attempts;
    error_message = error;
    failed_at = now;
    envelope = envelope;
    raw_value = raw;
  }

  unfoldable pub park_on_dlq :
      EachMessagePayload
      → DlqReason
      → Option (EventEnvelope P)
      → Option String
      → ℕ
      → String
      → Consumer S P
      → Consumer S P
  park_on_dlq payload reason envelope raw attempts error c =
      let ready = ensure_dlq_topic c in
      record ready {
        dead_letters = dlq_record payload reason envelope raw attempts error c.now ∷ c.dead_letters;
      }

  unfoldable pub sleep : ℕ → Consumer S P → Consumer S P
  sleep attempt c = record c { delays = jitter (backoff_cap retry attempt) ∷ c.delays }

  -- `for (attempt; attempt <= maxAttempts; attempt++)`, with the rounds that are left.
  unfoldable pub attempts_from :
      ℕ → ℕ → EachMessagePayload → EventEnvelope P → Consumer S P → Consumer S P
  attempts_from zero attempt payload envelope c = c
  attempts_from (suc left) attempt payload envelope c = elim (handler envelope c.service).0 [
    | ok u ↦ record c { service = (handler envelope c.service).1 }
    | err e ↦
        let failed : Consumer S P = record c { service = (handler envelope c.service).1 } in
        elim (attempt == retry.max_attempts) [
          | true ↦
              park_on_dlq payload handler_failed (some envelope) none attempt (message e) failed
          | false ↦ attempts_from left (attempt + 1) payload envelope (sleep attempt failed)
        ]
  ]

  unfoldable pub each_message : EachMessagePayload → Consumer S P → Consumer S P
  each_message payload c = elim (text_value payload.value) [
    | none ↦ c
    | some raw ↦ elim (parse raw) [
      | err e ↦
          park_on_dlq payload malformed_json none (some raw) 1
            (str_append "Failed to parse event envelope: " e) c
      | ok envelope ↦ attempts_from retry.max_attempts 1 payload envelope c
    ]
  ]
