-- ===== src/EventSchema/EventConsumer/Tests.antt =====
-- The consumer on concrete messages.
use ryd_trip.Prelude.{ℕ, zero, suc, ◌≡◌, refl, [], ◌∷◌, some, String, arith, false}
use ryd_trip.Exec.{Result, ok, err}
use ryd_trip.EventSchema.{EventEnvelope}
use ryd_trip.EventSchema.EventConsumer.{
  EachMessagePayload, Consumer, default_retry, each_message, attempts_from, sleep, backoff_cap,
}
use ryd_trip.EventSchema.EventConsumer.Laws.{Handled, each_message-Handled}

abbrev envelope : EventEnvelope ℕ
envelope = record {
  event_id = "e1";
  event_type = "ride.requested";
  version = 1;
  timestamp = 5;
  correlation_id = "c1";
  producer = "rider-service";
  payload = 42;
}

abbrev message : EachMessagePayload
message = record {
  topic = "ride.requested";
  partition = 0;
  offset = "17";
  key = some "r1";
  value = some "{...}";
}

abbrev parse : String → Result String (EventEnvelope ℕ)
parse s = ok envelope

abbrev half : ℕ → ℕ
half cap = cap

abbrev text_of : String → String
text_of e = e

-- A handler that throws while the state is below 2, and counts its calls there.
abbrev flaky : EventEnvelope ℕ → ℕ → Result String (Unit {0}) × ℕ
flaky e zero = (err "busy", 1)
flaky e (suc zero) = (err "busy", 2)
flaky e s = (ok tt, s)

abbrev poisoned : EventEnvelope ℕ → ℕ → Result String (Unit {0}) × ℕ
poisoned e s = (err "poison", s)

abbrev idle : Consumer ℕ ℕ
idle = record {
  service = 0;
  dead_letters = [];
  dlq_topic_ensured = false;
  topics_created = 0;
  delays = [];
  now = 9;
}

third_time_lucky :
    each_message "dispatch-service" parse half text_of flaky default_retry message idle
    ≡ record idle { service = 2; delays = 400 ∷ 200 ∷ [] }
unfolding each_message attempts_from sleep backoff_cap
third_time_lucky = refl

each_message-Handled_example :
    Handled "dispatch-service" parse half text_of flaky default_retry message envelope 3 idle
      (each_message "dispatch-service" parse half text_of flaky default_retry message idle)
each_message-Handled_example =
    each_message-Handled "dispatch-service" parse half text_of flaky default_retry message "{...}"
      envelope idle (omega arith) refl refl
