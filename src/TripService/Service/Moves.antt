-- ===== src/TripService/Service/Moves.antt =====
-- What a request may write into a row.
use ryd_trip.Prelude.{ℕ, String, ◌≡◌, refl, true, Option, none, some}
use ryd_trip.EventSchema.{
  ReasonText, listed, ReasonValue, undefined, falsy, not_text, reason_text, rider_cancelled,
  RideStatus, matching, matched, driver_arriving, driver_arrived, in_progress, completed, cancelled,
}
use ryd_trip.TripService.RideStateMachine.{can_transition_ride_status}
use ryd_trip.TripService.Repository.{
  RideRow, Outside, CreateRideInput, TransitionOptions, no_options, truthy, set_fields, new_row,
}
use ryd_trip.TripService.Service.Outcomes.{cancel_options, Writable}

module _ {N : Type 0} where
  -- What a move writes into a row: the fields that go with the new status, and no other. Without a
  -- reason it is cancelled only if `F` holds.
  pub data Moved (F : Type 0) (row row' : RideRow N) : Type 0 where
    to_matched :
        (d : String) (now : ℕ)
        → truthy (some d) ≡ some d
        → row' ≡ record row { status = matched; driver_id = some d; updated_at = now }
        → Moved F row row'
    to_arriving :
        (code : String) (now : ℕ)
        → row' ≡ record row { status = driver_arriving; otp = some code; updated_at = now }
        → Moved F row row'
    to_arrived :
        (now : ℕ)
        → row' ≡ record row { status = driver_arrived; updated_at = now }
        → Moved F row row'
    to_in_progress :
        (now : ℕ)
        → row' ≡ record row { status = in_progress; otp = none; updated_at = now }
        → Moved F row row'
    to_completed :
        (fare distance : N) (now : ℕ)
        → row' ≡ record row {
          status = completed;
          fare = some fare;
          distance_km = some distance;
          updated_at = now;
        }
        → Moved F row row'
    to_cancelled :
        (reason : ReasonText) (now : ℕ)
        → row'
          ≡ record row { status = cancelled; cancellation_reason = some reason; updated_at = now }
        → Moved F row row'
    to_cancelled_without :
        (now : ℕ)
        → F
        → row' ≡ record row { status = cancelled; updated_at = now }
        → Moved F row row'

  -- The row of a ride that was requested and sent to matching.
  abbrev pub matching_row : CreateRideInput N → ℕ → RideRow N
  matching_row input now = record {
    id = input.id;
    rider_id = input.rider_id;
    driver_id = none;
    pickup_lat = input.pickup.lat;
    pickup_lng = input.pickup.lng;
    destination_lat = input.destination.lat;
    destination_lng = input.destination.lng;
    status = matching;
    cancellation_reason = none;
    otp = none;
    fare = none;
    distance_km = none;
    created_at = now;
    updated_at = now;
  }

  -- A row stays; or it is created and sent to matching; or it is moved as the table allows, with
  -- the fields that go with the new status.
  pub data RowChange (F : Type 0) (before after : Option (RideRow N)) : Type 0 where
    same : after ≡ before → RowChange F before after
    born :
        (input : CreateRideInput N) (now : ℕ)
        → before ≡ none
        → after ≡ some (matching_row input now)
        → RowChange F before after
    moved_on :
        (row row' : RideRow N)
        → before ≡ some row
        → can_transition_ride_status row.status row'.status ≡ true
        → Moved F row row'
        → after ≡ some row'
        → RowChange F before after

  pub set_fields_status :
      (to : RideStatus) (o : TransitionOptions N) (now : ℕ) (row : RideRow N)
      → (set_fields to o now row).status ≡ to
  unfolding set_fields
  set_fields_status to o now row = refl

  pub new_row-matching :
      (input : CreateRideInput N) (now : ℕ)
      → set_fields matching no_options now (new_row input now) ≡ matching_row input now
  unfolding set_fields new_row
  new_row-matching input now = refl

-- The cancellations without a reason are those with a reason that is falsy.
abbrev pub WithoutReason : ReasonValue → Type 0
WithoutReason falsy = Unit {0}
WithoutReason _ = ⊥

module _ {N : Type 0} (out : Outside N) where
  -- What `set_fields` writes for each way in which the service moves a row.
  pub matched-Moved :
      (d : String) (now : ℕ) (row : RideRow N)
      → truthy (some d) ≡ some d
      → Moved ⊥ row (set_fields matched (record no_options { driver_id = some d }) now row)
  unfolding set_fields
  matched-Moved d now row t = to_matched d now t (rw t refl)

  pub arriving-Moved :
      (code : String) (now : ℕ) (row : RideRow N)
      → Moved ⊥ row (set_fields driver_arriving (record no_options { otp = some code }) now row)
  unfolding set_fields
  arriving-Moved code now row = to_arriving code now refl

  pub arrived-Moved :
      (now : ℕ) (row : RideRow N) → Moved ⊥ row (set_fields driver_arrived no_options now row)
  unfolding set_fields
  arrived-Moved now row = to_arrived now refl

  pub in_progress-Moved :
      (now : ℕ) (row : RideRow N)
      → Moved ⊥ row (set_fields in_progress (record no_options { clear_otp = true }) now row)
  unfolding set_fields
  in_progress-Moved now row = to_in_progress now refl

  pub completed-Moved :
      (fare distance : N) (now : ℕ) (row : RideRow N)
      → Moved ⊥ row (
          set_fields completed
            (record no_options { fare = some fare; distance_km = some distance })
            now
            row)
  unfolding set_fields
  completed-Moved fare distance now row = to_completed fare distance now refl

  pub cancelled-Moved :
      (reason : ReasonValue) (now : ℕ) (row : RideRow N)
      → Writable out reason
      → Moved
          (WithoutReason reason)
          row
          (set_fields cancelled (cancel_options out reason row) now row)
  unfolding set_fields
  cancelled-Moved undefined now row h = to_cancelled (listed rider_cancelled) now refl
  cancelled-Moved falsy now row h = to_cancelled_without now tt refl
  cancelled-Moved (reason_text r) now row h = to_cancelled r now refl
  cancelled-Moved not_text now row h = absurd h
