-- ===== src/TripService/Tests.antt =====
-- Trips on tables in memory.
use ryd_trip.Prelude.{
  ℕ, ◌+◌, ◌-◌, ◌*◌, ◌/◌, ◌≡◌, ◌≤◌, ◌↔◌, subst, refl, [], ◌∷◌, some, none, String, arith, true,
  false, Option, List, String-discrete, StringPair-discrete, length,
}
use ryd_trip.Exec.{Result, ok}
use ryd_trip.EventSchema.{
  EventEnvelope, RideStatus, requested, matching, matched, driver_arrived, in_progress, cancelled,
  available, on_trip, rider_cancelled, undefined, falsy, listed,
}
use ryd_trip.EventSchema.EventConsumer.{EachMessagePayload, Consumer, default_retry, each_message}
use ryd_trip.EventSchema.EventConsumer.Laws.{failure_record}
use ryd_trip.Tables.Memory.{memory_table, find, modify, insert}
use ryd_trip.TripService.RideStateMachine.{can_transition_ride_status, assert_valid_ride_transition}
use ryd_trip.TripService.RideStateMachine.Graph.{
  ◌⟶◌, can_transition_iff, lives_are_short, AllowedFrom, Avoids,
}
use ryd_trip.TripService.Repository.{
  RideRow, Outside, World, run_idempotent, skipped, processed, conflict, CreateRideInput, to_domain,
  find_by_id, get_otp, transition, set_fields, event_type_for_status,
}
use ryd_trip.TripService.Repository.Laws.{row_of}
use ryd_trip.TripService.Service.{
  Numbers, pad_otp, handle_driver_reserved, find_ride, guard_transition, is_other, otp_differs,
  sync_if_assigned, sync_driver_status_best_effort, cancel, accept, complete, start,
  handle_ride_cancelled,
}
use ryd_trip.TripService.Service.Endings.{
  CompleteOutcome, complete-CompleteOutcome, falsy_unrecorded,
}
use ryd_trip.TripService.Service.Start.{StartOutcome, start-StartOutcome, start_needs_code}
use ryd_trip.TripService.Service.Handlers.{Delivery, ride_cancelled, deliver, redelivery_skipped}
use ryd_trip.TripService.Service.Requests.{
  Request, perform, serve, post_accept, post_start, post_cancel, driver_reserved,
}
use ryd_trip.TripService.Service.Requests.Consistency.{
  AllConsistent, IsConsistent, serve-AllConsistent,
}
use ryd_trip.TripService.Service.Requests.Lives.{Later, serve-Later}
use ryd_trip.TripService.RideEventsConsumer.{
  Payload, ConsumerError, from_service, handle_event, driver_reserved_payload,
}
use ryd_trip.TripService.RideEventsConsumer.Redelivery.{reserved_redelivery_parked}

abbrev out : Outside ℕ
out = record {
  rides = memory_table String-discrete;
  processed_events = memory_table StringPair-discrete;
  random_uuid = λ n. "id";
}

-- Numbers on which the examples run.
abbrev numbers : Numbers ℕ
numbers = record {
  of_ℕ = λ n. n;
  add = λ a b. a + b;
  sub = λ a b. a - b;
  mul = λ a b. a * b;
  div = λ a b. a / b;
  sin = λ a. a;
  cos = λ a. a;
  asin = λ a. a;
  sqrt = λ a. a;
  round = λ a. a;
  pi = 3;
}

abbrev row_in : RideStatus → Option String → Option String → RideRow ℕ
row_in status driver otp = record {
  id = "r1";
  rider_id = "u1";
  driver_id = driver;
  pickup_lat = 1;
  pickup_lng = 2;
  destination_lat = 3;
  destination_lng = 4;
  status = status;
  cancellation_reason = none;
  otp = otp;
  fare = none;
  distance_km = none;
  created_at = 1;
  updated_at = 1;
}

abbrev world_of : RideRow ℕ → World out
world_of row = record {
  rides = ("r1", row) ∷ [];
  trip_events = [];
  processed = (("e1", "trip-service"), tt) ∷ [];
  now = 50;
  uuids = 0;
  syncs = [];
}

abbrev waiting : RideRow ℕ
waiting = row_in matching none none

abbrev assigned : RideRow ℕ
assigned = row_in matched (some "d1") none

abbrev arrived : RideRow ℕ
arrived = row_in driver_arrived (some "d1") (some "0427")

abbrev riding : RideRow ℕ
riding = row_in in_progress (some "d1") none

stored_in : (row : RideRow ℕ) → row_of out (world_of row) "r1" ≡ some row
unfolding find String-discrete
stored_in row = refl

can_transition_iff_example :
    (can_transition_ride_status in_progress cancelled ≡ true) ↔ (in_progress ⟶ cancelled)
can_transition_iff_example = can_transition_iff in_progress cancelled

abbrev first_steps : List RideStatus
first_steps = matching ∷ matched ∷ cancelled ∷ []

first_steps-AllowedFrom : AllowedFrom requested first_steps
unfolding can_transition_ride_status
first_steps-AllowedFrom = (refl, (refl, (refl, tt)))

lives_are_short_example : (length first_steps ≤ 6) × Avoids requested first_steps
lives_are_short_example = lives_are_short requested first_steps first_steps-AllowedFrom

complete-CompleteOutcome_example :
    CompleteOutcome out numbers "r1" (world_of riding) (complete out numbers "r1" (world_of riding))
complete-CompleteOutcome_example = complete-CompleteOutcome out numbers "r1" (world_of riding)

start-StartOutcome_example :
    StartOutcome out "r1" "0427"
      (some "d1")
      (world_of arrived)
      (start out "r1" "0427" (some "d1") (world_of arrived))
start-StartOutcome_example = start-StartOutcome out "r1" "0427" (some "d1") (world_of arrived)

abbrev ride_input : CreateRideInput ℕ
ride_input = record {
  id = "r1";
  rider_id = "u1";
  pickup = record { lat = 1; lng = 2 };
  destination = record { lat = 3; lng = 4 };
}

e1_seen :
    (row : RideRow ℕ)
    → out.processed_events.find_unique (world_of row).processed ("e1", "trip-service") ≡ some tt
unfolding find StringPair-discrete String-discrete
e1_seen row = refl

abbrev cancellation : Delivery out
cancellation = ride_cancelled "r1" undefined

abbrev cancelled_row : RideRow ℕ
cancelled_row = record assigned {
  status = cancelled;
  cancellation_reason = some (listed rider_cancelled);
  updated_at = 50;
}

abbrev after_cancellation : World out
after_cancellation = record (world_of assigned) {
  rides = ("r1", cancelled_row) ∷ [];
  processed = (("e2", "trip-service"), tt) ∷ (world_of assigned).processed;
  trip_events =
      record {
        ride_id = "r1";
        event_type = "ride.cancelled";
        event_id = "id";
        timestamp = 50;
        metadata = some (listed rider_cancelled);
      }
      ∷ [];
  uuids = 1;
  syncs = ("d1", available) ∷ [];
}

first_delivery :
    deliver out cancellation "e2" (world_of assigned)
    ≡ (ok (processed (to_domain cancelled_row)), after_cancellation)
unfolding deliver handle_ride_cancelled cancel find_ride find_by_id find String-discrete
    guard_transition assert_valid_ride_transition to_domain run_idempotent insert
    StringPair-discrete transition modify set_fields sync_if_assigned sync_driver_status_best_effort
    event_type_for_status
first_delivery = refl

redelivery_skipped_example :
    deliver out cancellation "e2" after_cancellation ≡ (ok skipped, after_cancellation)
redelivery_skipped_example =
    redelivery_skipped out cancellation "e2" (world_of assigned) after_cancellation
      (processed (to_domain cancelled_row)) first_delivery

assigned_cancellable : can_transition_ride_status assigned.status cancelled ≡ true
unfolding can_transition_ride_status
assigned_cancellable = refl

falsy_unrecorded_example :
    row_of out (cancel out "r1" falsy false (world_of assigned)).1 "r1"
    ≡ some (record assigned { status = cancelled; updated_at = 50 })
falsy_unrecorded_example =
    falsy_unrecorded out "r1" false (world_of assigned) assigned (stored_in assigned)
      assigned_cancellable

abbrev requests : List (Request ℕ)
requests = driver_reserved "r1" "d1" "e2" ∷ post_accept "r1" 427 ∷ post_cancel "r1" undefined ∷ []

waiting-IsConsistent : IsConsistent waiting
waiting-IsConsistent = ground arith

only_ride :
    (id : String) (row : RideRow ℕ) → row_of out (world_of waiting) id ≡ some row → waiting ≡ row
unfolding find
only_ride id row h = ground arith

all_waiting : AllConsistent out numbers (world_of waiting)
all_waiting id row h = subst IsConsistent (only_ride id row h) waiting-IsConsistent

-- The ride after these requests.
abbrev last_row : RideRow ℕ
last_row = record waiting {
  status = cancelled;
  driver_id = some "d1";
  cancellation_reason = some (listed rider_cancelled);
  otp = some "0427";
  updated_at = 50;
}

last_stored : row_of out (serve out numbers requests (world_of waiting)) "r1" ≡ some last_row
unfolding serve perform find cancel find_ride find_by_id accept handle_driver_reserved
    String-discrete guard_transition assert_valid_ride_transition to_domain run_idempotent insert
    StringPair-discrete transition modify set_fields sync_if_assigned sync_driver_status_best_effort
    pad_otp event_type_for_status
last_stored = refl

serve-AllConsistent_example : IsConsistent last_row
serve-AllConsistent_example =
    serve-AllConsistent out numbers requests (world_of waiting) (refl, (tt, (tt, tt)))
      ((λ f. f), ((λ f. f), ((λ f. f), tt))) all_waiting "r1" last_row last_stored

serve-Later_example :
    Later out numbers (serve out numbers requests (world_of waiting)) "r1" matching
serve-Later_example =
    serve-Later out numbers requests (world_of waiting) "r1" waiting (refl, (tt, (tt, tt)))
      (stored_in waiting)

abbrev refused_requests : List (Request ℕ)
refused_requests = post_cancel "r1" undefined ∷ post_start "r1" "0427" (some "d1") ∷ []

still_riding : row_of out (serve out numbers refused_requests (world_of riding)) "r1" ≡ some riding
unfolding serve perform find start find_ride find_by_id cancel String-discrete guard_transition
    assert_valid_ride_transition to_domain
still_riding = refl

abbrev started_row : RideRow ℕ
started_row = record arrived { status = in_progress; otp = none; updated_at = 50 }

abbrev started_world : World out
started_world = record (world_of arrived) {
  rides = ("r1", started_row) ∷ [];
  trip_events =
      record {
        ride_id = "r1";
        event_type = "trip.started";
        event_id = "id";
        timestamp = 50;
        metadata = none;
      }
      ∷ [];
  uuids = 1;
  syncs = ("d1", on_trip) ∷ [];
}

started_run :
    start out "r1" "0427" (some "d1") (world_of arrived)
    ≡ (ok (to_domain started_row), started_world)
unfolding start find_ride find_by_id find String-discrete guard_transition
    assert_valid_ride_transition to_domain is_other otp_differs get_otp transition modify
    sync_if_assigned set_fields sync_driver_status_best_effort event_type_for_status
started_run = refl

start_needs_code_example :
    (row : RideRow ℕ) × (row' : RideRow ℕ) × (row_of out (world_of arrived) "r1" ≡ some row)
    × (row.status ≡ driver_arrived)
    × (row.otp ≡ some "0427")
    × ((c : String) → some "d1" ≡ some c → row.driver_id ≡ some c)
    × (row_of out started_world "r1" ≡ some row')
    × (row'.status ≡ in_progress)
    × (row'.otp ≡ none)
start_needs_code_example =
    start_needs_code out "r1" "0427" (some "d1") (world_of arrived) (to_domain started_row)
      started_world started_run

abbrev envelope : EventEnvelope (Payload ℕ)
envelope = record {
  event_id = "e1";
  event_type = "driver.reserved";
  version = 1;
  timestamp = 5;
  correlation_id = "c1";
  producer = "dispatch-service";
  payload = some (record {
    ride_id = some "r1";
    rider_id = none;
    driver_id = some "d1";
    pickup = none;
    destination = none;
    reason = undefined;
  });
}

abbrev message : EachMessagePayload
message = record {
  topic = "driver.reserved";
  partition = 0;
  offset = "3";
  key = some "r1";
  value = some "{}";
}

abbrev parse : String → Result String (EventEnvelope (Payload ℕ))
parse s = ok envelope

abbrev same_delay : ℕ → ℕ
same_delay cap = cap

abbrev text_of : ConsumerError → String
text_of e = "conflict"

abbrev consumer : Consumer (World out) (Payload ℕ)
consumer = record {
  service = world_of assigned;
  dead_letters = [];
  dlq_topic_ensured = false;
  topics_created = 0;
  delays = [];
  now = 60;
}

reserved_payload : driver_reserved_payload envelope.payload ≡ some ("r1", "d1")
unfolding driver_reserved_payload
reserved_payload = refl

reserved_redelivery_parked_example :
    ((each_message "trip-service" parse same_delay text_of
        (handle_event out)
        default_retry
        message
        consumer).service
      ≡ world_of assigned)
    × ((each_message "trip-service" parse same_delay text_of
          (handle_event out)
          default_retry
          message
          consumer).dead_letters
        ≡ failure_record "trip-service" parse same_delay text_of
            (handle_event out)
            default_retry
            message
            envelope
            (from_service (conflict matched matched))
            consumer
          ∷ [])
reserved_redelivery_parked_example =
    reserved_redelivery_parked out parse same_delay text_of default_retry message "{}" envelope
      consumer "r1" "d1" assigned (omega arith) refl refl refl reserved_payload (stored_in assigned)
      refl
