-- ===== src/TripService/RideEventsConsumer/Redelivery.antt =====
-- A second delivery of an event, through the retries of EventConsumer.
use ryd_trip.Prelude.{ℕ, ◌<◌, String, ◌≡◌, some, ◌∷◌}
use ryd_trip.Exec.{Result, ok, err}
use ryd_trip.EventSchema.{EventEnvelope, matched}
use ryd_trip.EventSchema.KafkaTopics
use ryd_trip.EventSchema.EventConsumer.{
  RetryOptions, EachMessagePayload, Consumer, text_value, each_message,
}
use ryd_trip.EventSchema.EventConsumer.Laws.{failure_record, poison_parked}
use ryd_trip.TripService.Repository.{RideRow, Outside, World, conflict}
use ryd_trip.TripService.Repository.Laws.{row_of}
use ryd_trip.TripService.Service.Handlers.{reserved_redelivery_conflicts}
use ryd_trip.TripService.RideEventsConsumer.{
  Payload, ConsumerError, from_service, driver_reserved_payload, handle_event,
}

module _ {N : Type 0} (out : Outside N) where
  reserved_event_conflicts :
      (envelope : EventEnvelope (Payload N)) (id driver : String) (w : World out) (row : RideRow N)
      → envelope.event_type ≡ KafkaTopics.driver_reserved
      → driver_reserved_payload envelope.payload ≡ some (id, driver)
      → row_of out w id ≡ some row
      → row.status ≡ matched
      → handle_event out envelope w ≡ (err (from_service (conflict matched matched)), w)
  unfolding handle_event
  reserved_event_conflicts envelope id driver w row t p h s =
      rw (t, p) (rw (reserved_redelivery_conflicts out id driver envelope.event_id w row h s))

  module _ (parse : String → Result String (EventEnvelope (Payload N))) (jitter : ℕ → ℕ)
      (message : ConsumerError → String) (retry : RetryOptions) where
    -- A second delivery of driver.reserved for a ride that is MATCHED, which is how the first one
    -- leaves it, is not skipped as a duplicate: every attempt throws, and the event is parked on the
    -- dead letter topic of the trip service, whose state stays as it was.
    pub reserved_redelivery_parked :
        (payload : EachMessagePayload) (raw : String) (envelope : EventEnvelope (Payload N))
        (c : Consumer (World out) (Payload N)) (id driver : String) (row : RideRow N)
        → 0 < retry.max_attempts
        → text_value payload.value ≡ some raw
        → parse raw ≡ ok envelope
        → envelope.event_type ≡ KafkaTopics.driver_reserved
        → driver_reserved_payload envelope.payload ≡ some (id, driver)
        → row_of out c.service id ≡ some row
        → row.status ≡ matched
        → let c' =
            each_message "trip-service" parse jitter message (handle_event out) retry payload c in
          (c'.service ≡ c.service)
          × (c'.dead_letters
              ≡ failure_record "trip-service" parse jitter message
                  (handle_event out)
                  retry
                  payload
                  envelope
                  (from_service (conflict matched matched))
                  c
                ∷ c.dead_letters)
    reserved_redelivery_parked payload raw envelope c id driver row pos v p t q h s =
        poison_parked "trip-service" parse jitter message (handle_event out) retry payload raw
          envelope c (from_service (conflict matched matched)) pos v p
          (reserved_event_conflicts envelope id driver c.service row t q h s)
