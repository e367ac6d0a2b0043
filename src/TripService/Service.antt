-- ===== src/TripService/Service.antt =====
-- services/trip-service/src/trips/trips.service.ts: one definition for each method.
-- JavaScript's numbers and `Math` are a parameter. The answer to a driver-status update is caught
-- and logged whatever it is, so only the request is modelled. `randomInt` is an argument.
pub mod Outcomes
pub mod Start
pub mod Endings
pub mod Moves
pub mod Changes
pub mod Births
pub mod Requests
pub mod Handlers
use ryd_trip.Prelude.{
  ℕ, zero, suc, ◌+◌, ◌-◌, ◌*◌, ◌/◌, ◌%◌, ◌<◌, String, Bool, true, false, not, ◌&&◌, Option, none,
  some, List, [], ◌∷◌, ◌≡◌, if◌then◌else◌, str_eq, str_append,
}
use ryd_trip.Exec.{Result, ok, err, Exec, pure, throw, or_throw, ◌>>=◌, ◌>>◌}
use ryd_trip.EventSchema.{
  GeoPoint, Ride, ReasonText, listed, ReasonValue, undefined, falsy, not_text, reason_text,
  rider_cancelled, driver_cancelled, no_drivers_available, DriverStatus, available, on_trip,
  RideStatus, matching, matched, driver_arriving, driver_arrived, in_progress, completed, cancelled,
}
use ryd_trip.TripService.RideStateMachine.{assert_valid_ride_transition}
use ryd_trip.TripService.Repository.{
  Outside, World, TripError, ride_not_found, conflict, not_the_assigned_driver, not_the_rider,
  incorrect_otp, validation_error, IdempotentOutcome, CreateRideInput, TransitionOptions,
  no_options, truthy, Trips, run_idempotent, create, find_by_id, get_otp, transition,
}

abbrev pub consumer_name : String
consumer_name = "trip-service"

-- The arithmetic on JavaScript's numbers that the fare needs.
pub record Numbers (N : Type 0) : Type 0 where
  pub of_ℕ : ℕ → N
  pub add : N → N → N
  pub sub : N → N → N
  pub mul : N → N → N
  pub div : N → N → N
  pub sin : N → N
  pub cos : N → N
  pub asin : N → N
  pub sqrt : N → N
  pub round : N → N
  pub pi : N

module _ {N : Type 0} (n : Numbers N) where
  open n use {of_ℕ, add, sub, mul, div, sin, cos, asin, sqrt, round, pi}

  unfoldable pub to_rad : N → N
  to_rad deg = div (mul deg pi) (of_ℕ 180)

  abbrev pub square : N → N
  square x = mul x x

  unfoldable pub haversine_km : GeoPoint N → GeoPoint N → N
  unfolding to_rad
  haversine_km a b =
      let d_lat = to_rad (sub b.lat a.lat) in
      let d_lng = to_rad (sub b.lng a.lng) in
      let lat1 = to_rad a.lat in
      let lat2 = to_rad b.lat in
      let h =
        add (square (sin (div d_lat (of_ℕ 2))))
          (mul (mul (cos lat1) (cos lat2)) (square (sin (div d_lng (of_ℕ 2))))) in
      mul (mul (of_ℕ 2) (of_ℕ 6371)) (asin (sqrt h))

  -- `Math.round(haversineKm(...) * 100) / 100`.
  unfoldable pub trip_distance : GeoPoint N → GeoPoint N → N
  unfolding haversine_km
  trip_distance a b = div (round (mul (haversine_km a b) (of_ℕ 100))) (of_ℕ 100)

  -- `Math.round(BASE_FARE + PER_KM_RATE * distanceKm)`.
  unfoldable pub trip_fare : N → N
  trip_fare distance = round (add (of_ℕ 40) (mul (of_ℕ 12) distance))

-- `String(n).padStart(4, '0')` for a number of at most four digits.
unfoldable pub digit : ℕ → String
digit zero = "0"
digit (suc zero) = "1"
digit (suc (suc zero)) = "2"
digit (suc (suc (suc zero))) = "3"
digit (suc (suc (suc (suc zero)))) = "4"
digit (suc (suc (suc (suc (suc zero))))) = "5"
digit (suc (suc (suc (suc (suc (suc zero)))))) = "6"
digit (suc (suc (suc (suc (suc (suc (suc zero))))))) = "7"
digit (suc (suc (suc (suc (suc (suc (suc (suc zero)))))))) = "8"
digit _ = "9"

unfoldable pub pad_otp : ℕ → String
unfolding digit
pad_otp k =
    str_append (digit (k / 1000 % 10))
      (str_append (digit (k / 100 % 10)) (str_append (digit (k / 10 % 10)) (digit (k % 10))))

module _ {N : Type 0} (out : Outside N) where
  unfoldable pub find_ride : String → Trips out (Ride N)
  find_ride id w = or_throw (ride_not_found id) (find_by_id out id w) w

  unfoldable pub guard_transition : RideStatus → RideStatus → Trips out (Unit {0})
  guard_transition from to w = elim (assert_valid_ride_transition from to) [
    | ok u ↦ (ok tt, w)
    | err e ↦ (err (conflict e.from e.to), w)
  ]

  -- One PATCH of a driver's status.
  unfoldable pub sync_driver_status_best_effort : String → DriverStatus → Trips out (Unit {0})
  sync_driver_status_best_effort driver_id status w =
      (ok tt, record w { syncs = (driver_id, status) ∷ w.syncs })

  -- `if (ride.driverId) await this.syncDriverStatusBestEffort(...)`.
  unfoldable pub sync_if_assigned : Option String → DriverStatus → Trips out (Unit {0})
  sync_if_assigned driver_id status w = elim (truthy driver_id) [
    | none ↦ (ok tt, w)
    | some d ↦ sync_driver_status_best_effort d status w
  ]

  unfoldable pub transition_to : String → RideStatus → Trips out (Ride N)
  transition_to id to = do
    ride ← find_ride id
    guard_transition ride.status to
    transition out id to no_options false

  -- The default of a parameter stands for `undefined` only.
  abbrev pub or_rider_cancelled : ReasonValue → ReasonValue
  or_rider_cancelled undefined = reason_text (listed rider_cancelled)
  or_rider_cancelled falsy = falsy
  or_rider_cancelled not_text = not_text
  or_rider_cancelled (reason_text r) = reason_text r

  -- `options?.cancellationReason ? ... : {}`.
  abbrev pub recorded : ReasonValue → Option ReasonText
  recorded (reason_text r) = some r
  recorded undefined = none
  recorded falsy = none
  recorded not_text = none

  -- The transition with this reason: the client refuses to write what is no text, before it writes
  -- anything.
  abbrev pub transition_cancelled : String → ReasonValue → Bool → Trips out (Ride N)
  transition_cancelled id not_text tx = throw validation_error
  transition_cancelled id undefined tx = transition out id cancelled no_options tx
  transition_cancelled id falsy tx = transition out id cancelled no_options tx
  transition_cancelled id (reason_text r) tx =
      transition out id cancelled (record no_options { cancellation_reason = some r }) tx

  -- The last argument is whether a transaction is passed on.
  unfoldable pub cancel : String → ReasonValue → Bool → Trips out (Ride N)
  cancel id reason tx = do
    ride ← find_ride id
    guard_transition ride.status cancelled
    gone ← transition_cancelled id (or_rider_cancelled reason) tx
    sync_if_assigned gone.driver_id available
    pure gone

  unfoldable pub handle_ride_requested :
      CreateRideInput N → String → Trips out (IdempotentOutcome (Ride N))
  handle_ride_requested input event_id =
      run_idempotent out event_id consumer_name
        (do ride ← create out input true; transition out ride.id matching no_options true)

  unfoldable pub handle_ride_cancelled :
      String → ReasonValue → String → Trips out (IdempotentOutcome (Ride N))
  handle_ride_cancelled ride_id reason event_id =
      run_idempotent out event_id consumer_name (cancel ride_id reason true)

  unfoldable pub handle_driver_reserved :
      String → String → String → Trips out (IdempotentOutcome (Ride N))
  handle_driver_reserved ride_id driver_id event_id = do
    ride ← find_ride ride_id
    guard_transition ride.status matched
    run_idempotent out event_id consumer_name
        (transition out ride_id matched (record no_options { driver_id = some driver_id }) true)

  unfoldable pub handle_driver_rejected : String → String → Trips out (IdempotentOutcome (Ride N))
  handle_driver_rejected ride_id event_id =
      run_idempotent out event_id consumer_name
        (cancel ride_id (reason_text (listed no_drivers_available)) true)

  -- The last argument is `randomInt(0, 10000)`.
  unfoldable pub accept : String → ℕ → Trips out (Ride N)
  accept id random = do
    ride ← find_ride id
    guard_transition ride.status driver_arriving
    transition out id driver_arriving (record no_options { otp = some (pad_otp random) }) false

  unfoldable pub decline : String → Trips out (Ride N)
  decline id = cancel id (reason_text (listed driver_cancelled)) false

  unfoldable pub mark_driver_arrived : String → Trips out (Ride N)
  mark_driver_arrived id = transition_to id driver_arrived

  -- `caller && owner !== caller`.
  unfoldable pub is_other : Option String → Option String → Bool
  is_other caller owner = elim (truthy caller) [
    | none ↦ false
    | some c ↦ elim owner [ none ↦ true | some o ↦ not (str_eq o c) ]
  ]

  -- `!stored || stored !== otp`.
  unfoldable pub otp_differs : Option String → String → Bool
  otp_differs stored otp = elim (truthy stored) [ none ↦ true | some s ↦ not (str_eq s otp) ]

  abbrev pub throw_if : Bool → TripError → Trips out (Unit {0})
  throw_if true e = throw e
  throw_if false e = pure tt

  unfoldable pub start : String → String → Option String → Trips out (Ride N)
  start id otp caller_driver_id = do
    ride ← find_ride id
    guard_transition ride.status in_progress
    throw_if (is_other caller_driver_id ride.driver_id) not_the_assigned_driver
    stored ← (λ w. (ok (get_otp out id w), w))
    throw_if (otp_differs stored otp) incorrect_otp
    started ← transition out id in_progress (record no_options { clear_otp = true }) false
    sync_if_assigned started.driver_id on_trip
    pure started

  unfoldable pub get_otp_for_rider : String → Option String → Trips out (Option String)
  get_otp_for_rider id caller_rider_id = do
    ride ← find_ride id
    throw_if (is_other caller_rider_id (some ride.rider_id)) not_the_rider
    (λ w. (ok (get_otp out id w), w))

  unfoldable pub complete : Numbers N → String → Trips out (Ride N)
  complete n id = do
    current ← find_ride id
    guard_transition current.status completed
    let distance = trip_distance n current.pickup current.destination
    ride ←
        transition out id completed
          (record no_options { fare = some (trip_fare n distance); distance_km = some distance })
          false
    sync_if_assigned ride.driver_id available
    pure ride
