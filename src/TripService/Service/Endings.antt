-- ===== src/TripService/Service/Endings.antt =====
-- `complete` and `cancel`: what they leave in the row.
use ryd_trip.Prelude.{
  String, eq_of_some, ◌≡◌, ◌≢◌, ◌∙◌, ap, sym, refl, Bool, true, false, none, some, arith,
}
use ryd_trip.Exec.{Result, ok, err}
use ryd_trip.EventSchema.{Ride, available, in_progress, completed, cancelled, falsy}
use ryd_trip.TripService.RideStateMachine.{can_transition_ride_status}
use ryd_trip.TripService.Repository.{
  RideRow, Outside, World, TripError, ride_not_found, conflict, to_domain, set_fields,
}
use ryd_trip.TripService.Repository.Laws.{row_of, Updated}
use ryd_trip.TripService.Service.{
  Numbers, to_rad, haversine_km, trip_distance, trip_fare, cancel, complete,
}
use ryd_trip.TripService.Service.Outcomes.{
  Outcome, absent, refused, moved, notify, row_of-notify, complete_options, complete-Outcome,
  cancel_options, cancel-Outcome,
}

module _ {N : Type 0} (n : Numbers N) where
  open n use {of_ℕ, add, sub, mul, div, sin, cos, asin, sqrt, round, pi}

  abbrev radians : N → N
  radians degrees = div (mul degrees pi) (of_ℕ 180)

  abbrev half_sine : N → N
  half_sine degrees = sin (div (radians degrees) (of_ℕ 2))

  -- The kilometres along the great circle, by the formula of the haversine.
  abbrev kilometres : RideRow N → N
  kilometres row = mul (mul (of_ℕ 2) (of_ℕ 6371)) (
      asin (
        sqrt (
          add
            (mul (half_sine (sub row.destination_lat row.pickup_lat))
              (half_sine (sub row.destination_lat row.pickup_lat)))
            (mul (mul (cos (radians row.pickup_lat)) (cos (radians row.destination_lat))) (
              mul (half_sine (sub row.destination_lng row.pickup_lng))
                (half_sine (sub row.destination_lng row.pickup_lng)))))))

  -- To two decimals.
  abbrev rounded_kilometres : RideRow N → N
  rounded_kilometres row = div (round (mul (kilometres row) (of_ℕ 100))) (of_ℕ 100)

module _ {N : Type 0} (out : Outside N) (n : Numbers N) where
  open n use {of_ℕ, add, mul, round}

  -- The row of the ride once it is completed.
  abbrev pub completed_row : World out → RideRow N → RideRow N
  completed_row w row = record row {
    status = completed;
    fare = some (round (add (of_ℕ 40) (mul (of_ℕ 12) (rounded_kilometres n row))));
    distance_km = some (rounded_kilometres n row);
    updated_at = w.now;
  }

  -- What `complete` may do.
  pub data CompleteOutcome (id : String) (w : World out)
      (res : Result TripError (Ride N) × World out) : Type 0 where
    no_ride : row_of out w id ≡ none → res ≡ (err (ride_not_found id), w) → CompleteOutcome id w res
    not_riding :
        (row : RideRow N)
        → row_of out w id ≡ some row
        → row.status ≢ in_progress
        → res ≡ (err (conflict row.status completed), w)
        → CompleteOutcome id w res
    finished :
        (row : RideRow N) (w₁ : World out)
        → row_of out w id ≡ some row
        → row.status ≡ in_progress
        → Updated out id completed (complete_options out n row) row w w₁
        → row_of out w₁ id ≡ some (completed_row w row)
        → res ≡ (ok (to_domain (completed_row w row)), notify out (some available) row.driver_id w₁)
        → CompleteOutcome id w res

  written :
      (w : World out) (row : RideRow N)
      → set_fields completed (complete_options out n row) w.now row ≡ completed_row w row
  unfolding set_fields trip_fare trip_distance haversine_km to_rad to_domain
  written w row = refl

  riding :
      (row : RideRow N)
      → can_transition_ride_status row.status completed ≡ true
      → row.status ≡ in_progress
  unfolding can_transition_ride_status
  riding row c = ground arith

  not_riding_yet :
      (row : RideRow N)
      → can_transition_ride_status row.status completed ≡ false
      → row.status ≢ in_progress
  unfolding can_transition_ride_status
  not_riding_yet row c e = ground arith

  explained :
      (id : String) (w : World out) (res : Result TripError (Ride N) × World out)
      → Outcome out id completed (complete_options out n) (some available) w res
      → CompleteOutcome id w res
  unfolding set_fields trip_fare trip_distance haversine_km to_rad to_domain
  explained id w res (absent h r) = no_ride h r
  explained id w res (refused row h c r) = not_riding row h (not_riding_yet row c) r
  explained id w res (moved row w₁ h c u r) =
      finished row w₁ h (riding row c) u (u.after ∙ ap some (written w row)) r

  -- `complete` throws and changes nothing without a ride, and for one that is not IN_PROGRESS; else the
  -- row is COMPLETED with the distance between its two points along the great circle, rounded to two
  -- decimals, and the fare of 40 and 12 for each of these kilometres, rounded; all other rows stay, one
  -- audit row is written, the answer is the ride, and its driver, if there is one, is sent AVAILABLE.
  pub complete-CompleteOutcome :
      (id : String) (w : World out) → CompleteOutcome id w (complete out n id w)
  complete-CompleteOutcome id w = explained id w (complete out n id w) (complete-Outcome out n id w)

module _ {N : Type 0} (out : Outside N) where
  falsy_written :
      (id : String) (w : World out) (row : RideRow N) (res : Result TripError (Ride N) × World out)
      → row_of out w id ≡ some row
      → can_transition_ride_status row.status cancelled ≡ true
      → Outcome out id cancelled (cancel_options out falsy) (some available) w res
      → row_of out res.1 id ≡ some (record row { status = cancelled; updated_at = w.now })
  unfolding set_fields
  falsy_written id w row res h c (absent none_ r) = cc
  falsy_written id w row res h c (refused row' h' c' r) = absurd (ground arith)
  falsy_written id w row res h c (moved row' w₁ h' c' u r) =
      ap (λ x. row_of out x.1 id) r
      ∙ row_of-notify out (some available) row'.driver_id w₁ id
      ∙ u.after
      ∙ ap (λ (r₀ : RideRow N). some (record r₀ { status = cancelled; updated_at = w.now }))
          (eq_of_some (sym h' ∙ h))

  -- A ride that may be cancelled is cancelled by a reason that is falsy but not `undefined`, such as
  -- `null`, and its reason stays what it was: none is recorded, RIDER_CANCELLED neither.
  pub falsy_unrecorded :
      (id : String) (tx : Bool) (w : World out) (row : RideRow N)
      → row_of out w id ≡ some row
      → can_transition_ride_status row.status cancelled ≡ true
      → row_of out (cancel out id falsy tx w).1 id
        ≡ some (record row { status = cancelled; updated_at = w.now })
  falsy_unrecorded id tx w row h c =
      falsy_written id w row (cancel out id falsy tx w) h c (cancel-Outcome out id falsy tx w tt)
