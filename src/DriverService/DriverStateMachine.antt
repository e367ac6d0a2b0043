-- ===== src/DriverService/DriverStateMachine.antt =====
-- services/driver-service/src/drivers/driver-state-machine.ts: the transition table of a driver.
pub mod Graph
use ryd_trip.Prelude.{Bool, List, [], ◌∷◌, includes, if◌then◌else◌}
use ryd_trip.Exec.{Result, ok, err}
use ryd_trip.EventSchema.{
  DriverStatus, DriverStatus-discrete, offline, available, reserved, on_trip, suspended,
}

unfoldable pub allowed_transitions : DriverStatus → List DriverStatus
allowed_transitions offline = available ∷ suspended ∷ []
allowed_transitions available = offline ∷ reserved ∷ suspended ∷ []
allowed_transitions reserved = available ∷ on_trip ∷ []
allowed_transitions on_trip = available ∷ []
allowed_transitions suspended = offline ∷ []

unfoldable pub can_transition_driver_status : DriverStatus → DriverStatus → Bool
unfolding includes DriverStatus-discrete allowed_transitions
can_transition_driver_status from to = includes DriverStatus-discrete (allowed_transitions from) to

pub record InvalidDriverTransitionError : Type 0 where
  pub from : DriverStatus
  pub to : DriverStatus

unfoldable pub assert_valid_driver_transition :
    DriverStatus → DriverStatus → Result InvalidDriverTransitionError (Unit {0})
unfolding can_transition_driver_status
assert_valid_driver_transition from to =
    if can_transition_driver_status from to then ok tt else err (record { from = from; to = to })
