-- ===== src/RiderService/Rides/Contract.antt =====
-- A request for a ride, against what the trip service does with its event.
use ryd_trip.Prelude.{ℕ, ◌+◌, String, ◌≡◌, Bool, none, some, ◌∷◌}
use ryd_trip.Exec.{Result, ok, err}
use ryd_trip.Tables.Accounts.{AccountTable}
use ryd_trip.EventSchema.{EventEnvelope}
use ryd_trip.EventSchema.KafkaTopics
use ryd_trip.EventSchema.EventPublisher.{EventPublisher, Message, broker_unreachable}
use ryd_trip.TripService.Repository.{Outside, World, CreateRideInput}
use ryd_trip.TripService.Service.{handle_ride_requested}
use ryd_trip.TripService.RideEventsConsumer.{Payload, handle_event, rethrown}
use ryd_trip.RiderService.Rides.{
  CreateRideDto, RideAck, requested, RideError, of_rider, not_published, requested_payload,
}
use ryd_trip.RiderService.Riders.{RiderRow, keys, rider_not_found}

abbrev pub input_of : {N : Type 0} → String → CreateRideDto N → CreateRideInput N
input_of ride_id dto = record {
  id = ride_id;
  rider_id = dto.rider_id;
  pickup = dto.pickup;
  destination = dto.destination;
}

module _ {N : Type 0} where
  -- The trip service takes an envelope for the request to create this ride.
  abbrev pub Requests : EventEnvelope (Payload N) → String → CreateRideDto N → Type 1
  Requests envelope ride_id dto =
      (out : Outside N) (w : World out)
      → handle_event out envelope w
        ≡ rethrown out (handle_ride_requested out (input_of ride_id dto) envelope.event_id w)

module _ {N : Type 0} where
  -- A message that was sent last, for a ride.
  pub record Sent (ride_id topic : String) (w : EventPublisher (Payload N))
      (w' : EventPublisher (Payload N)) (m : Message (Payload N)) : Type 0 where
    pub last : w'.sent ≡ m ∷ w.sent
    pub topic_is : m.topic ≡ topic
    pub type_is : m.envelope.event_type ≡ topic
    pub key_is : m.key ≡ some ride_id

module _ {R N : Type 0} (riders : AccountTable (RiderRow R) keys) (random_uuid : ℕ → String)
    (broker_up : ℕ → Bool) where
  -- The outcomes of the creation of a ride.
  pub data CreateOutcome (t : riders.State) (dto : CreateRideDto N) (w : EventPublisher (Payload N))
      (res : Result RideError RideAck × EventPublisher (Payload N)) : Type 1 where
    unknown_rider :
        riders.find_unique t dto.rider_id ≡ none
        → res ≡ (err (of_rider (rider_not_found dto.rider_id)), w)
        → CreateOutcome t dto w res
    not_sent :
        res.0 ≡ err (not_published broker_unreachable)
        → res.1.sent ≡ w.sent
        → CreateOutcome t dto w res
    accepted :
        (rider : RiderRow R) (ride_id : String) (m : Message (Payload N))
        → riders.find_unique t dto.rider_id ≡ some rider
        → res.0 ≡ ok (record { ride_id = ride_id; status = requested })
        → Sent ride_id KafkaTopics.ride_requested w res.1 m
        → Requests m.envelope ride_id dto
        → CreateOutcome t dto w res

  unfoldable created_message :
      String → CreateRideDto N → String → EventPublisher (Payload N) → Message (Payload N)
  created_message ride_id dto cid w = record {
    topic = KafkaTopics.ride_requested;
    key = some ride_id;
    envelope = record {
      event_id = random_uuid (w.uuids + 1);
      event_type = KafkaTopics.ride_requested;
      version = 1;
      timestamp = w.now;
      correlation_id = cid;
      producer = "rider-service";
      payload = some (requested_payload ride_id dto);
    };
  }
