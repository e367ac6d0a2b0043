-- ===== src/TripService/Service/Requests/Rows.antt =====
-- Every request changes every row as the service means to.
use ryd_trip.Prelude.{String, ◌≡◌, ap, ◌∙◌, false, Option, none, some}
use ryd_trip.EventSchema.{
  driver_arriving, driver_arrived, in_progress, completed, available, on_trip, driver_cancelled,
  reason_text, listed,
}
use ryd_trip.TripService.RideStateMachine.{can_transition_ride_status}
use ryd_trip.TripService.Repository.{Outside, World, no_options, truthy}
use ryd_trip.TripService.Repository.Laws.{row_of}
use ryd_trip.TripService.Service.{Numbers, trip_fare, pad_otp, start, decline}
use ryd_trip.TripService.Service.Outcomes.{
  accept_options, complete_options, row_distance, accept-Outcome, mark_driver_arrived-Outcome,
  complete-Outcome, row_of-notify,
}
use ryd_trip.TripService.Service.Start.{
  start-StartOutcome, absent, refused, foreign, wrong_code, started, start_options,
}
use ryd_trip.TripService.Service.Moves.{
  arriving-Moved, arrived-Moved, in_progress-Moved, completed-Moved, WithoutReason, same,
}
use ryd_trip.TripService.Service.Changes.{
  Evolves, Updated-Evolves, Outcome-Evolves, cancel-Evolves, handle_ride_cancelled-Evolves,
  handle_driver_rejected-Evolves, handle_driver_reserved-Evolves,
}
use ryd_trip.TripService.Service.Births.{handle_ride_requested-Evolves}
use ryd_trip.TripService.Service.Requests.{
  Request, perform, post_accept, post_decline, post_driver_arrived, post_complete, post_start,
  post_cancel, ride_requested, ride_cancelled, driver_reserved, driver_rejected,
}

-- A reservation names a driver: its id is not empty.
abbrev pub NamesDriver : {N : Type 0} → Request N → Type 0
NamesDriver (driver_reserved id d e) = truthy (some d) ≡ some d
NamesDriver _ = Unit {0}

-- A cancellation whose reason is falsy, but given.
abbrev pub WithFalsyReason : {N : Type 0} → Request N → Type 0
WithFalsyReason (post_cancel id reason) = WithoutReason reason
WithFalsyReason (ride_cancelled id reason e) = WithoutReason reason
WithFalsyReason _ = ⊥

module _ {N : Type 0} (out : Outside N) (n : Numbers N) where
  start-Evolves :
      (id otp : String) (caller : Option String) (w : World out)
      → Evolves out ⊥ w (start out id otp caller w).1
  unfolding can_transition_ride_status
  start-Evolves id otp caller w j = elim (start-StartOutcome out id otp caller w) [
    | absent h r ↦ same (ap (λ x. row_of out x.1 j) r)
    | refused row h n r ↦ same (ap (λ x. row_of out x.1 j) r)
    | foreign row c h i t n r ↦ same (ap (λ x. row_of out x.1 j) r)
    | wrong_code row h i t n r ↦ same (ap (λ x. row_of out x.1 j) r)
    | started row w₁ h i t code u after r ↦
        rw (ap (λ x. row_of out x.1 j) r ∙ row_of-notify out (some on_trip) row.driver_id w₁ j) (
          Updated-Evolves out ⊥ id in_progress (start_options out row) row w w₁ h
            (ap (λ s. can_transition_ride_status s in_progress) i) (in_progress-Moved out w.now row)
            u j)
  ]

  pub perform-Evolves :
      (r : Request N) (w : World out)
      → NamesDriver r
      → Evolves out (WithFalsyReason r) w (perform out n r w)
  unfolding perform decline
  perform-Evolves (post_accept id random) w d =
      Outcome-Evolves out ⊥ id driver_arriving (accept_options out random) none w _
        (λ row. arriving-Moved out (pad_otp random) w.now row) (accept-Outcome out id random w)
  perform-Evolves (post_decline id) w d =
      cancel-Evolves out id (reason_text (listed driver_cancelled)) false w
  perform-Evolves (post_driver_arrived id) w d =
      Outcome-Evolves out ⊥ id driver_arrived (λ row. no_options) none w _
        (λ row. arrived-Moved out w.now row) (mark_driver_arrived-Outcome out id w)
  perform-Evolves (post_complete id) w d =
      Outcome-Evolves out ⊥ id completed (complete_options out n) (some available) w _
        (λ row.
          completed-Moved out (trip_fare n (row_distance out n row)) (row_distance out n row) w.now
            row)
        (complete-Outcome out n id w)
  perform-Evolves (post_start id otp caller) w d = start-Evolves id otp caller w
  perform-Evolves (post_cancel id reason) w d = cancel-Evolves out id reason false w
  perform-Evolves (ride_requested input e) w d = handle_ride_requested-Evolves out input e w
  perform-Evolves (ride_cancelled id reason e) w d = handle_ride_cancelled-Evolves out id reason e w
  perform-Evolves (driver_reserved id driver e) w d =
      handle_driver_reserved-Evolves out id driver e w d
  perform-Evolves (driver_rejected id e) w d = handle_driver_rejected-Evolves out id e w
