-- ===== src/DriverService/DriverStateMachine/Graph.antt =====
-- The diagram of a driver's statuses, and what can be reached in it.
use ryd_trip.Prelude.{◌≡◌, ◌↔◌, refl, true, arith}
use ryd_trip.EventSchema.{DriverStatus, offline, available, reserved, on_trip, suspended}
use ryd_trip.DriverService.DriverStateMachine.{can_transition_driver_status}

infix 40 ◌⟶◌ ◌⟶*◌
pub data ◌⟶◌ : DriverStatus → DriverStatus → Type 0 where
  go_online : offline ⟶ available
  go_offline : available ⟶ offline
  reserve : available ⟶ reserved
  release : reserved ⟶ available
  start_trip : reserved ⟶ on_trip
  end_trip : on_trip ⟶ available
  suspend_offline : offline ⟶ suspended
  suspend_available : available ⟶ suspended
  reinstate : suspended ⟶ offline

pub data ◌⟶*◌ : DriverStatus → DriverStatus → Type 0 where
  here : {s : DriverStatus} → s ⟶* s
  then : {s t u : DriverStatus} → s ⟶ t → t ⟶* u → s ⟶* u

pub ruleset edges = (
  go_online, go_offline, reserve, release, start_trip, end_trip, suspend_offline, suspend_available,
  reinstate,
)

allowed→⟶ : (s t : DriverStatus) → can_transition_driver_status s t ≡ true → s ⟶ t
unfolding can_transition_driver_status
allowed→⟶ s t h = grind (arith, edges)

⟶→allowed : {s t : DriverStatus} → s ⟶ t → can_transition_driver_status s t ≡ true
unfolding can_transition_driver_status
⟶→allowed go_online = refl
⟶→allowed go_offline = refl
⟶→allowed reserve = refl
⟶→allowed release = refl
⟶→allowed start_trip = refl
⟶→allowed end_trip = refl
⟶→allowed suspend_offline = refl
⟶→allowed suspend_available = refl
⟶→allowed reinstate = refl

-- The table allows exactly the edges of the diagram.
pub can_transition_driver_iff :
    (s t : DriverStatus) → (can_transition_driver_status s t ≡ true) ↔ (s ⟶ t)
can_transition_driver_iff s t = (allowed→⟶ s t, ⟶→allowed)

-- A path and one more step.
pub append : {s t u : DriverStatus} → s ⟶* t → t ⟶ u → s ⟶* u
append here e = then e here
append (then d r) e = then d (append r e)
