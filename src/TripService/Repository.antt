-- ===== src/TripService/Repository.antt =====
-- services/trip-service/src/trips/trips.repository.ts, over the tables of prisma/schema.prisma.
-- The tables of rides and of processed events are the database's, and so a parameter; the audit
-- trail is a list, its newest entry first. An event's id is the next value of `randomUUID()`.
pub mod Laws
use ryd_trip.Prelude.{
  ℕ, suc, ◌+◌, String, Bool, true, false, Option, none, some, List, [], ◌∷◌, ◌≡◌, if◌then◌else◌,
  str_eq,
}
use ryd_trip.Exec.{Result, ok, err, Exec, pure, throw, or_throw, ◌>>=◌, ◌>>◌}
use ryd_trip.Tables.{UniqueTable}
use ryd_trip.EventSchema.{
  GeoPoint, Ride, ReasonText, DriverStatus, RideStatus, requested, matching, matched,
  driver_arriving, driver_arrived, in_progress, completed, cancelled,
}

-- A row of `rides`.
pub record RideRow (N : Type 0) : Type 0 where
  pub id : String
  pub rider_id : String
  pub driver_id : Option String
  pub pickup_lat : N
  pub pickup_lng : N
  pub destination_lat : N
  pub destination_lng : N
  pub status : RideStatus
  pub cancellation_reason : Option ReasonText
  pub otp : Option String
  pub fare : Option N
  pub distance_km : Option N
  pub created_at : ℕ
  pub updated_at : ℕ

-- A row of `trip_events`.
pub record TripEvent : Type 0 where
  pub ride_id : String
  pub event_type : String
  pub event_id : String
  pub timestamp : ℕ
  pub metadata : Option ReasonText

-- What the service meets outside its own code.
pub record Outside (N : Type 0) : Type 1 where
  pub rides : UniqueTable String (RideRow N)
  pub processed_events : UniqueTable (String × String) (Unit {0})
  pub random_uuid : ℕ → String

pub record World {N : Type 0} (out : Outside N) : Type 0 where
  pub rides : out.rides.State
  pub trip_events : List TripEvent
  pub processed : out.processed_events.State
  pub now : ℕ
  pub uuids : ℕ
  -- The status updates sent to the Driver Service, the last first.
  pub syncs : List (String × DriverStatus)

pub data TripError : Type 0 where
  ride_not_found : String → TripError
  conflict : RideStatus → RideStatus → TripError
  not_the_assigned_driver not_the_rider incorrect_otp : TripError
  unique_violation record_not_found validation_error : TripError

pub data IdempotentOutcome (A : Type 0) : Type 0 where
  skipped : IdempotentOutcome A
  processed : A → IdempotentOutcome A

pub record CreateRideInput (N : Type 0) : Type 0 where
  pub id : String
  pub rider_id : String
  pub pickup : GeoPoint N
  pub destination : GeoPoint N

unfoldable pub to_domain : {N : Type 0} → RideRow N → Ride N
to_domain row = record {
  id = row.id;
  rider_id = row.rider_id;
  driver_id = row.driver_id;
  pickup = record { lat = row.pickup_lat; lng = row.pickup_lng };
  destination = record { lat = row.destination_lat; lng = row.destination_lng };
  status = row.status;
  cancellation_reason = row.cancellation_reason;
  fare = row.fare;
  distance_km = row.distance_km;
  created_at = row.created_at;
  updated_at = row.updated_at;
}

unfoldable pub event_type_for_status : RideStatus → String
event_type_for_status requested = "ride.requested"
event_type_for_status matching = "ride.matching"
event_type_for_status matched = "ride.matched"
event_type_for_status driver_arriving = "driver.arriving"
event_type_for_status driver_arrived = "driver.arrived"
event_type_for_status in_progress = "trip.started"
event_type_for_status completed = "trip.completed"
event_type_for_status cancelled = "ride.cancelled"

-- A reason that is falsy is not there.
pub record TransitionOptions (N : Type 0) : Type 0 where
  pub cancellation_reason : Option ReasonText
  pub driver_id : Option String
  pub fare : Option N
  pub distance_km : Option N
  pub otp : Option String
  pub clear_otp : Bool

abbrev pub no_options : {N : Type 0} → TransitionOptions N
no_options = record {
  cancellation_reason = none;
  driver_id = none;
  fare = none;
  distance_km = none;
  otp = none;
  clear_otp = false;
}

-- `undefined` keeps the column.
abbrev pub given : {A : Type 0} → Option A → Option A → Option A
given none old = old
given (some a) old = some a

-- A text that is missing or empty is falsy.
abbrev pub truthy : Option String → Option String
truthy none = none
truthy (some s) = if str_eq s "" then none else some s

-- The `data` of the update, over the row as it was.
unfoldable pub set_fields :
    {N : Type 0} → RideStatus → TransitionOptions N → ℕ → RideRow N → RideRow N
set_fields to o now row = record row {
  status = to;
  cancellation_reason = given o.cancellation_reason row.cancellation_reason;
  driver_id = given (truthy o.driver_id) row.driver_id;
  fare = given o.fare row.fare;
  distance_km = given o.distance_km row.distance_km;
  otp = if o.clear_otp then none else given o.otp row.otp;
  updated_at = now;
}

unfoldable pub new_row : {N : Type 0} → CreateRideInput N → ℕ → RideRow N
new_row input now = record {
  id = input.id;
  rider_id = input.rider_id;
  driver_id = none;
  pickup_lat = input.pickup.lat;
  pickup_lng = input.pickup.lng;
  destination_lat = input.destination.lat;
  destination_lng = input.destination.lng;
  status = requested;
  cancellation_reason = none;
  otp = none;
  fare = none;
  distance_km = none;
  created_at = now;
  updated_at = now;
}

module _ {N : Type 0} (out : Outside N) where
  abbrev pub Trips : Type 0 → Type 0
  Trips A = Exec (World out) TripError A

  -- `tripEvent.create`.
  unfoldable pub append_event : String → RideStatus → Option ReasonText → Trips (Unit {0})
  append_event ride_id status metadata w =
      let event : TripEvent = record {
        ride_id = ride_id;
        event_type = event_type_for_status status;
        event_id = out.random_uuid w.uuids;
        timestamp = w.now;
        metadata = metadata;
      } in
      (ok tt, record w { trip_events = event ∷ w.trip_events; uuids = w.uuids + 1 })

  -- A transaction whose work throws writes nothing to the database; requests sent to other services
  -- stay sent.
  abbrev pub roll_back :
      {A : Type 0} → World out → Result TripError A × World out → Result TripError A × World out
  roll_back w (ok a, w') = (ok a, w')
  roll_back w (err e, w') =
      (err e, record w' { rides = w.rides; trip_events = w.trip_events; processed = w.processed })

  unfoldable pub transaction : {A : Type 0} → Trips A → Trips A
  transaction work w = roll_back w (work w)

  -- `tx ? exec(tx) : $transaction(exec)`.
  abbrev pub in_transaction : {A : Type 0} → Bool → Trips A → Trips A
  in_transaction true exec = exec
  in_transaction false exec = transaction exec

  unfoldable pub create_processed : String → String → Trips (Unit {0})
  create_processed event_id consumer w =
      elim (out.processed_events.create w.processed (event_id, consumer) tt) [
        | none ↦ (err unique_violation, w)
        | some p ↦ (ok tt, record w { processed = p })
      ]

  -- The `catch` takes every P2002, also one that `work` throws.
  abbrev pub catch_violation :
      {A : Type 0}
      → Result TripError A × World out
      → Result TripError (IdempotentOutcome A) × World out
  catch_violation (ok a, w) = (ok (processed a), w)
  catch_violation (err unique_violation, w) = (ok skipped, w)
  catch_violation (err e, w) = (err e, w)

  unfoldable pub run_idempotent :
      {A : Type 0} → String → String → Trips A → Trips (IdempotentOutcome A)
  unfolding transaction create_processed
  run_idempotent event_id consumer work w =
      catch_violation (transaction (create_processed event_id consumer >> work) w)

  unfoldable pub insert_ride : RideRow N → Trips (RideRow N)
  insert_ride row w = elim (out.rides.create w.rides row.id row) [
    | none ↦ (err unique_violation, w)
    | some t ↦ (ok row, record w { rides = t })
  ]

  unfoldable pub create : CreateRideInput N → Bool → Trips (Ride N)
  unfolding insert_ride append_event transaction
  create input tx = in_transaction tx λ w.
      (do
        created ← insert_ride (new_row input w.now)
        append_event created.id requested none
        pure (to_domain created))
        w

  unfoldable pub find_by_id : String → World out → Option (Ride N)
  find_by_id id w = elim (out.rides.find_unique w.rides id) [
    | none ↦ none
    | some row ↦ some (to_domain row)
  ]

  unfoldable pub get_otp : String → World out → Option String
  get_otp id w = elim (out.rides.find_unique w.rides id) [ none ↦ none | some row ↦ row.otp ]

  -- `ride.update`, which returns the row as it is afterwards.
  unfoldable pub update_ride : String → (RideRow N → RideRow N) → Trips (RideRow N)
  update_ride id f w = elim (out.rides.update w.rides id f) [
    | none ↦ (err record_not_found, w)
    | some t ↦ or_throw record_not_found (out.rides.find_unique t id) (record w { rides = t })
  ]

  unfoldable pub transition : String → RideStatus → TransitionOptions N → Bool → Trips (Ride N)
  unfolding update_ride append_event transaction
  transition id to o tx = in_transaction tx λ w.
      (do
        updated ← update_ride id (set_fields to o w.now)
        append_event id to o.cancellation_reason
        pure (to_domain updated))
        w
