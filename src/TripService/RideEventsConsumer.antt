-- ===== src/TripService/RideEventsConsumer.antt =====
-- services/trip-service/src/trips/ride-events.consumer.ts: the handler that the consumer group
-- "trip-service" runs on each event.
-- A payload is JSON: what is modelled of it is, for each field that the code reads, the value if the
-- field is there with the type that is wanted, and any value for `reason`, which is not checked.
-- A `null` payload is `none`.
pub mod Redelivery
use ryd_trip.Prelude.{ℕ, String, Bool, Option, none, some, if◌then◌else◌, str_eq}
use ryd_trip.Exec.{Result, ok, err}
use ryd_trip.EventSchema.{GeoPoint, Ride, ReasonValue, EventEnvelope}
use ryd_trip.EventSchema.KafkaTopics
use ryd_trip.TripService.Repository.{Outside, World, TripError, IdempotentOutcome, CreateRideInput}
use ryd_trip.TripService.Service.{
  handle_ride_requested, handle_ride_cancelled, handle_driver_reserved, handle_driver_rejected,
}

pub record EventPayload (N : Type 0) : Type 0 where
  pub ride_id : Option String
  pub rider_id : Option String
  pub driver_id : Option String
  pub pickup : Option (GeoPoint N)
  pub destination : Option (GeoPoint N)
  pub reason : ReasonValue

abbrev pub Payload : Type 0 → Type 0
Payload N = Option (EventPayload N)

pub data ConsumerError : Type 0 where
  malformed_payload : String → ConsumerError
  from_service : TripError → ConsumerError

abbrev with_reason : Option String → ReasonValue → Option (String × ReasonValue)
with_reason none r = none
with_reason (some id) r = some (id, r)

abbrev both : Option String → Option String → Option (String × String)
both (some a) (some b) = some (a, b)
both _ _ = none

module _ {N : Type 0} where
  abbrev with_pickup :
      String → String → Option (GeoPoint N) → Option (GeoPoint N) → Option (CreateRideInput N)
  with_pickup id rider (some p) (some d) =
      some (record { id = id; rider_id = rider; pickup = p; destination = d })
  with_pickup id rider _ _ = none

  abbrev with_ids :
      Option String
      → Option String
      → Option (GeoPoint N)
      → Option (GeoPoint N)
      → Option (CreateRideInput N)
  with_ids (some id) (some rider) p d = with_pickup id rider p d
  with_ids _ _ p d = none

  -- `isRideRequestedPayload`, with what the handler then reads.
  unfoldable pub ride_requested_payload : Payload N → Option (CreateRideInput N)
  ride_requested_payload none = none
  ride_requested_payload (some p) = with_ids p.ride_id p.rider_id p.pickup p.destination

  -- `isRideCancelledPayload`.
  unfoldable pub ride_cancelled_payload : Payload N → Option (String × ReasonValue)
  ride_cancelled_payload none = none
  ride_cancelled_payload (some p) = with_reason p.ride_id p.reason

  -- `isDriverReservedPayload`.
  unfoldable pub driver_reserved_payload : Payload N → Option (String × String)
  driver_reserved_payload none = none
  driver_reserved_payload (some p) = both p.ride_id p.driver_id

  -- `isDriverRejectedPayload`.
  unfoldable pub driver_rejected_payload : Payload N → Option String
  driver_rejected_payload none = none
  driver_rejected_payload (some p) = p.ride_id

module _ {N : Type 0} (out : Outside N) where
  abbrev pub Handled : Type 0
  Handled = Result ConsumerError (Unit {0}) × World out

  -- What a method throws is rethrown, and what it returns is only logged.
  abbrev pub rethrown : {A : Type 0} → Result TripError A × World out → Handled
  rethrown (ok a, w) = (ok tt, w)
  rethrown (err e, w) = (err (from_service e), w)

  unfoldable pub handle_event : EventEnvelope (Payload N) → World out → Handled
  handle_event envelope w =
      if str_eq envelope.event_type KafkaTopics.ride_requested
      then elim (ride_requested_payload envelope.payload) [
        | none ↦ (err (malformed_payload KafkaTopics.ride_requested), w)
        | some input ↦ rethrown (handle_ride_requested out input envelope.event_id w)
      ]
      else if str_eq envelope.event_type KafkaTopics.ride_cancelled
      then elim (ride_cancelled_payload envelope.payload) [
        | none ↦ (err (malformed_payload KafkaTopics.ride_cancelled), w)
        | some (id, reason) ↦ rethrown (handle_ride_cancelled out id reason envelope.event_id w)
      ]
      else if str_eq envelope.event_type KafkaTopics.driver_reserved
      then elim (driver_reserved_payload envelope.payload) [
        | none ↦ (err (malformed_payload KafkaTopics.driver_reserved), w)
        | some (id, driver) ↦ rethrown (handle_driver_reserved out id driver envelope.event_id w)
      ]
      else if str_eq envelope.event_type KafkaTopics.driver_rejected
      then elim (driver_rejected_payload envelope.payload) [
        | none ↦ (err (malformed_payload KafkaTopics.driver_rejected), w)
        | some id ↦ rethrown (handle_driver_rejected out id envelope.event_id w)
      ]
      else (ok tt, w)
