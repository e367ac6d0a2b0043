-- ===== src/RiderService/Rides.antt =====
-- services/rider-service/src/rides/rides.service.ts: the creation and the cancellation of rides.
-- The table of riders is a parameter; a payload is what the trip service reads of its JSON.
pub mod Contract
pub mod Cancellation
use ryd_trip.Prelude.{ℕ, ◌+◌, String, Bool, Option, none, some}
use ryd_trip.Exec.{Result, ok, err}
use ryd_trip.Tables.Accounts.{AccountTable}
use ryd_trip.EventSchema.{
  GeoPoint, ReasonValue, undefined, falsy, not_text, reason_text, listed, rider_cancelled,
  EventEnvelope,
}
use ryd_trip.EventSchema.KafkaTopics
use ryd_trip.EventSchema.EventPublisher.{EventPublisher, PublishError, publish}
use ryd_trip.TripService.RideEventsConsumer.{EventPayload, Payload}
use ryd_trip.RiderService.Riders.{RiderRow, keys, RiderError, find_by_id}

pub record CreateRideDto (N : Type 0) : Type 0 where
  pub rider_id : String
  pub pickup : GeoPoint N
  pub destination : GeoPoint N

pub data AckStatus : Type 0 where
  requested cancellation_requested : AckStatus

pub record RideAck : Type 0 where
  pub ride_id : String
  pub status : AckStatus

pub data RideError : Type 0 where
  of_rider : RiderError → RideError
  not_published : PublishError → RideError

unfoldable pub requested_payload : {N : Type 0} → String → CreateRideDto N → EventPayload N
requested_payload ride_id dto = record {
  ride_id = some ride_id;
  rider_id = some dto.rider_id;
  driver_id = none;
  pickup = some dto.pickup;
  destination = some dto.destination;
  reason = undefined;
}

unfoldable pub cancelled_payload : {N : Type 0} → String → ReasonValue → EventPayload N
cancelled_payload ride_id reason = record {
  ride_id = some ride_id;
  rider_id = none;
  driver_id = none;
  pickup = none;
  destination = none;
  reason = reason;
}

-- The default of a parameter stands for `undefined` only.
abbrev pub reason_or_default : ReasonValue → ReasonValue
reason_or_default undefined = reason_text (listed rider_cancelled)
reason_or_default falsy = falsy
reason_or_default not_text = not_text
reason_or_default (reason_text r) = reason_text r

-- The answer once the publisher has answered.
abbrev pub acknowledged :
    {P : Type 0}
    → RideAck
    → Result PublishError (EventEnvelope P) × EventPublisher P
    → Result RideError RideAck × EventPublisher P
acknowledged ack (ok envelope, w) = (ok ack, w)
acknowledged ack (err e, w) = (err (not_published e), w)

-- The publisher of this service.
abbrev pub Publisher : Type 0 → Type 0
Publisher N = EventPublisher (Payload N)

module _ {N : Type 0} (random_uuid : ℕ → String) (broker_up : ℕ → Bool) where
  abbrev send :
      String
      → EventPayload N
      → String
      → String
      → Publisher N
      → Result PublishError (EventEnvelope (Payload N)) × Publisher N
  send topic payload correlation_id ride_id w =
      publish "rider-service" random_uuid broker_up topic topic (some payload)
        (record { correlation_id = some correlation_id; key = some ride_id }) w

  unfoldable pub create :
      {R : Type 0} (riders : AccountTable (RiderRow R) keys)
      → riders.State
      → CreateRideDto N
      → String
      → Publisher N
      → Result RideError RideAck × Publisher N
  create riders t dto correlation_id w = elim (find_by_id riders t dto.rider_id) [
    | err e ↦ (err (of_rider e), w)
    | ok rider ↦
        let ride_id = random_uuid w.uuids in
        acknowledged (record { ride_id = ride_id; status = requested })
          (send KafkaTopics.ride_requested (requested_payload ride_id dto) correlation_id ride_id
            (record w { uuids = w.uuids + 1 }))
  ]

  unfoldable pub cancel :
      String → String → ReasonValue → Publisher N → Result RideError RideAck × Publisher N
  cancel ride_id correlation_id reason w =
      acknowledged (record { ride_id = ride_id; status = cancellation_requested })
        (send KafkaTopics.ride_cancelled (cancelled_payload ride_id (reason_or_default reason))
          correlation_id ride_id w)
