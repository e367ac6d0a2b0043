-- ===== src/RiderService/Rides/Cancellation.antt =====
-- A request to cancel a ride, against what the trip service does with its event.
use ryd_trip.Prelude.{
  ℕ, ◌+◌, String, ◌≡◌, refl, ap, subst, inl, inr, Bool, true, false, some, ◌∷◌, arith, Bool-cases,
}
use ryd_trip.Exec.{Result, ok, err}
use ryd_trip.EventSchema.{
  ReasonValue, undefined, falsy, not_text, reason_text, listed, rider_cancelled, EventEnvelope,
}
use ryd_trip.EventSchema.KafkaTopics
use ryd_trip.EventSchema.EventPublisher.{EventPublisher, Message, broker_unreachable, publish}
use ryd_trip.TripService.Repository.{Outside, World}
use ryd_trip.TripService.Service.{handle_ride_cancelled}
use ryd_trip.TripService.RideEventsConsumer.{
  Payload, handle_event, rethrown, ride_cancelled_payload,
}
use ryd_trip.RiderService.Rides.{
  RideAck, cancellation_requested, RideError, not_published, cancelled_payload, reason_or_default,
  cancel,
}
use ryd_trip.RiderService.Rides.Contract.{Sent}

module _ {N : Type 0} where
  -- The trip service takes an envelope for the request to cancel this ride, with this reason.
  abbrev pub Cancels : EventEnvelope (Payload N) → String → ReasonValue → Type 1
  Cancels envelope ride_id reason =
      (out : Outside N) (w : World out)
      → handle_event out envelope w
        ≡ rethrown out (handle_ride_cancelled out ride_id reason envelope.event_id w)

  cancelled-Cancels :
      (envelope : EventEnvelope (Payload N)) (ride_id : String) (reason : ReasonValue)
      → envelope.event_type ≡ KafkaTopics.ride_cancelled
      → envelope.payload ≡ some (cancelled_payload ride_id reason)
      → Cancels envelope ride_id reason
  unfolding handle_event ride_cancelled_payload cancelled_payload
  cancelled-Cancels envelope ride_id reason t p out w = rw (t, p) refl

-- The reason that a request means: the rider's own decision, if it names none.
abbrev pub intended : ReasonValue → ReasonValue
intended undefined = reason_text (listed rider_cancelled)
intended falsy = falsy
intended not_text = not_text
intended (reason_text r) = reason_text r

reason_intended : (reason : ReasonValue) → reason_or_default reason ≡ intended reason
reason_intended undefined = refl
reason_intended falsy = refl
reason_intended not_text = refl
reason_intended (reason_text r) = refl

module _ {N : Type 0} (random_uuid : ℕ → String) (broker_up : ℕ → Bool) where
  -- The outcomes of a request to cancel a ride.
  pub data CancelOutcome (ride_id : String) (reason : ReasonValue) (w : EventPublisher (Payload N))
      (res : Result RideError RideAck × EventPublisher (Payload N)) : Type 1 where
    cancel_not_sent :
        res.0 ≡ err (not_published broker_unreachable)
        → res.1.sent ≡ w.sent
        → CancelOutcome ride_id reason w res
    cancel_accepted :
        (m : Message (Payload N))
        → res.0 ≡ ok (record { ride_id = ride_id; status = cancellation_requested })
        → Sent ride_id KafkaTopics.ride_cancelled w res.1 m
        → Cancels m.envelope ride_id reason
        → CancelOutcome ride_id reason w res

  unfoldable cancelled_message :
      String → String → ReasonValue → EventPublisher (Payload N) → Message (Payload N)
  cancelled_message ride_id cid reason w = record {
    topic = KafkaTopics.ride_cancelled;
    key = some ride_id;
    envelope = record {
      event_id = random_uuid w.uuids;
      event_type = KafkaTopics.ride_cancelled;
      version = 1;
      timestamp = w.now;
      correlation_id = cid;
      producer = "rider-service";
      payload = some (cancelled_payload ride_id reason);
    };
  }

  cancel_up :
      (ride_id cid : String) (reason : ReasonValue) (w : EventPublisher (Payload N))
      → broker_up w.now ≡ true
      → cancel random_uuid broker_up ride_id cid reason w ≡ (
        ok (record { ride_id = ride_id; status = cancellation_requested }),
        record w {
          sent = cancelled_message ride_id cid (reason_or_default reason) w ∷ w.sent;
          uuids = w.uuids + 1;
        },
      )
  unfolding cancel publish cancelled_message
  cancel_up ride_id cid reason w up = ground arith

  cancel_down :
      (ride_id cid : String) (reason : ReasonValue) (w : EventPublisher (Payload N))
      → broker_up w.now ≡ false
      → cancel random_uuid broker_up ride_id cid reason w
        ≡ (err (not_published broker_unreachable), record w { uuids = w.uuids + 1 })
  unfolding cancel publish
  cancel_down ride_id cid reason w down = ground arith

  cancelled-Sent :
      (ride_id cid : String) (reason : ReasonValue) (w w' : EventPublisher (Payload N))
      → w'.sent ≡ cancelled_message ride_id cid reason w ∷ w.sent
      → Sent ride_id KafkaTopics.ride_cancelled w w' (cancelled_message ride_id cid reason w)
  unfolding cancelled_message
  cancelled-Sent ride_id cid reason w w' h = record {
    last = h;
    topic_is = refl;
    type_is = refl;
    key_is = refl;
  }

  message-Cancels :
      (ride_id cid : String) (reason : ReasonValue) (w : EventPublisher (Payload N))
      → Cancels (cancelled_message ride_id cid reason w).envelope ride_id reason
  unfolding cancelled_message
  message-Cancels ride_id cid reason w =
      cancelled-Cancels (cancelled_message ride_id cid reason w).envelope ride_id reason refl refl

  defaulted-CancelOutcome :
      (ride_id cid : String) (reason : ReasonValue) (w : EventPublisher (Payload N))
      → CancelOutcome ride_id
          (reason_or_default reason)
          w
          (cancel random_uuid broker_up ride_id cid reason w)
  defaulted-CancelOutcome ride_id cid reason w = elim (Bool-cases (broker_up w.now)) [
    | inr down ↦
        let run = cancel_down ride_id cid reason w down in
        cancel_not_sent (ap (λ r. r.0) run) (ap (λ r. r.1.sent) run)
    | inl up ↦
        let run = cancel_up ride_id cid reason w up in
        let given = reason_or_default reason in
        cancel_accepted (cancelled_message ride_id cid given w) (ap (λ r. r.0) run)
          (cancelled-Sent ride_id cid given w (cancel random_uuid broker_up ride_id cid reason w).1
            (ap (λ r. r.1.sent) run))
          (message-Cancels ride_id cid given w)
  ]

  -- A request to cancel a ride is refused if the broker cannot be reached, and nothing is sent; or it is
  -- acknowledged, and exactly one message was sent, on ride.cancelled with the ride's id as its key,
  -- which the trip service handles as the request to cancel this ride with the reason given, or with
  -- RIDER_CANCELLED if it is `undefined`; a `null` is sent and handled as such.
  pub cancel-CancelOutcome :
      (ride_id cid : String) (reason : ReasonValue) (w : EventPublisher (Payload N))
      → CancelOutcome ride_id
          (intended reason)
          w
          (cancel random_uuid broker_up ride_id cid reason w)
  cancel-CancelOutcome ride_id cid reason w =
      subst (λ r. CancelOutcome ride_id r w (cancel random_uuid broker_up ride_id cid reason w))
        (reason_intended reason) (defaulted-CancelOutcome ride_id cid reason w)
