-- ===== src/RideStore/Laws.antt =====
-- The history of the session.
use ryd_trip.Prelude.{ℕ, String, ◌≡◌, refl, ◌⊎◌, inl, inr, Option, none, some, List, [], ◌∷◌}
use ryd_trip.RideStore.{
  RideStatus, idle, requested, matching, matched, driver_arriving, driver_arrived, in_progress,
  completed, cancelled, with_completed, LocationPoint, DriverInfo, Ride, RideStoreState, initial,
  set_active_ride, update_ride_status, set_otp, assign_driver, update_driver_location,
  cancel_active_ride, reset_ride,
}

-- What the screens may ask of the store, with the time at which they do.
pub data Action (N : Type 0) : Type 0 where
  set_active : Option (Ride N) → Action N
  update_status : RideStatus → ℕ → Action N
  enter_otp : String → Action N
  assign : DriverInfo N → ℕ → Action N
  move_driver : LocationPoint N → Action N
  cancel : ℕ → Action N
  reset : Action N

module _ {N : Type 0} where
  unfoldable pub act : Action N → RideStoreState N → RideStoreState N
  act (set_active ride) s = set_active_ride ride s
  act (update_status status now) s = update_ride_status status now s
  act (enter_otp otp) s = set_otp otp s
  act (assign driver now) s = assign_driver driver now s
  act (move_driver loc) s = update_driver_location loc s
  act (cancel now) s = cancel_active_ride now s
  act reset s = reset_ride s

  unfoldable pub act_all : List (Action N) → RideStoreState N → RideStoreState N
  act_all [] s = s
  act_all (a ∷ as_) s = act_all as_ (act a s)

  abbrev pub AllFinished : List (Ride N) → Type 0
  AllFinished [] = Unit {0}
  AllFinished (ride ∷ rides) =
      ((ride.status ≡ completed) ⊎ (ride.status ≡ cancelled)) × AllFinished rides

  with_completed-AllFinished :
      (status : RideStatus) (ride : Ride N) (history : List (Ride N))
      → ride.status ≡ status
      → AllFinished history
      → AllFinished (with_completed status ride history)
  with_completed-AllFinished completed ride history e h = (inl e, h)
  with_completed-AllFinished idle ride history e h = h
  with_completed-AllFinished requested ride history e h = h
  with_completed-AllFinished matching ride history e h = h
  with_completed-AllFinished matched ride history e h = h
  with_completed-AllFinished driver_arriving ride history e h = h
  with_completed-AllFinished driver_arrived ride history e h = h
  with_completed-AllFinished in_progress ride history e h = h
  with_completed-AllFinished cancelled ride history e h = h

  abbrev state : Option (Ride N) → Option (LocationPoint N) → List (Ride N) → RideStoreState N
  state active loc history = record {
    active_ride = active;
    driver_location = loc;
    history = history;
  }

  act-AllFinished :
      (a : Action N) (active : Option (Ride N)) (loc : Option (LocationPoint N))
      (history : List (Ride N))
      → AllFinished history
      → AllFinished (act a (state active loc history)).history
  unfolding act set_active_ride update_ride_status set_otp assign_driver update_driver_location
      cancel_active_ride reset_ride
  act-AllFinished (set_active ride) active loc history h = h
  act-AllFinished (update_status status now) none loc history h = h
  act-AllFinished (update_status status now) (some ride) loc history h =
      with_completed-AllFinished status (record ride { status = status; updated_at = now }) history
        refl h
  act-AllFinished (enter_otp otp) none loc history h = h
  act-AllFinished (enter_otp otp) (some ride) loc history h = h
  act-AllFinished (assign driver now) none loc history h = h
  act-AllFinished (assign driver now) (some ride) loc history h = h
  act-AllFinished (move_driver l) active loc history h = h
  act-AllFinished (cancel now) none loc history h = h
  act-AllFinished (cancel now) (some ride) loc history h = (inr refl, h)
  act-AllFinished reset active loc history h = h

  act_all_from :
      (as_ : List (Action N)) (s : RideStoreState N)
      → AllFinished s.history
      → AllFinished (act_all as_ s).history
  unfolding act_all
  act_all_from [] s h = h
  act_all_from (a ∷ as_) s h =
      act_all_from as_ (act a s) (act-AllFinished a s.active_ride s.driver_location s.history h)

  -- Whatever the screens do, in any order, the history of the session only ever holds rides that are
  -- completed or cancelled.
  pub history_finished : (as_ : List (Action N)) → AllFinished (act_all as_ initial).history
  history_finished as_ = act_all_from as_ initial tt
