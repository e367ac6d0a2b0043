-- ===== src/TripService/RideStateMachine.antt =====
-- services/trip-service/src/trips/ride-state-machine.ts: the transition table of a ride.
pub mod Graph
use ryd_trip.Prelude.{Bool, List, [], ◌∷◌, includes, if◌then◌else◌}
use ryd_trip.Exec.{Result, ok, err}
use ryd_trip.EventSchema.{
  RideStatus, RideStatus-discrete, requested, matching, matched, driver_arriving, driver_arrived,
  in_progress, completed, cancelled,
}

unfoldable pub allowed_transitions : RideStatus → List RideStatus
allowed_transitions requested = matching ∷ []
allowed_transitions matching = matched ∷ cancelled ∷ []
allowed_transitions matched = driver_arriving ∷ cancelled ∷ []
allowed_transitions driver_arriving = driver_arrived ∷ cancelled ∷ []
allowed_transitions driver_arrived = in_progress ∷ cancelled ∷ []
allowed_transitions in_progress = completed ∷ []
allowed_transitions completed = []
allowed_transitions cancelled = []

unfoldable pub can_transition_ride_status : RideStatus → RideStatus → Bool
unfolding includes RideStatus-discrete allowed_transitions
can_transition_ride_status from to = includes RideStatus-discrete (allowed_transitions from) to

pub record InvalidRideTransitionError : Type 0 where
  pub from : RideStatus
  pub to : RideStatus

unfoldable pub assert_valid_ride_transition :
    RideStatus → RideStatus → Result InvalidRideTransitionError (Unit {0})
unfolding can_transition_ride_status
assert_valid_ride_transition from to =
    if can_transition_ride_status from to then ok tt else err (record { from = from; to = to })
