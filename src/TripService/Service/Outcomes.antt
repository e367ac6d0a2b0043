-- ===== src/TripService/Service/Outcomes.antt =====
-- The outcome of each operation that moves one ride, on every branch.
use ryd_trip.Prelude.{
  ℕ, String, ◌≡◌, ap, ◌∙◌, inl, inr, Bool, true, false, Option, none, some, ◌∷◌, arith,
  Option-cases, Bool-cases,
}
use ryd_trip.Exec.{Result, ok, err, pure, ◌>>=◌, ◌>>◌}
use ryd_trip.EventSchema.{
  Ride, ReasonValue, undefined, falsy, not_text, reason_text, listed, driver_cancelled,
  DriverStatus, available, RideStatus, driver_arriving, driver_arrived, completed, cancelled,
}
use ryd_trip.TripService.RideStateMachine.{can_transition_ride_status, assert_valid_ride_transition}
use ryd_trip.TripService.Repository.{
  RideRow, Outside, World, TripError, ride_not_found, conflict, TransitionOptions, no_options,
  truthy, to_domain, set_fields, Trips, find_by_id, transition,
}
use ryd_trip.TripService.Repository.Laws.{row_of, Updated, transition_found}
use ryd_trip.TripService.Service.{
  Numbers, trip_distance, trip_fare, pad_otp, find_ride, guard_transition,
  sync_driver_status_best_effort, sync_if_assigned, transition_to, or_rider_cancelled, recorded,
  cancel, accept, decline, mark_driver_arrived, complete,
}

module _ {N : Type 0} (out : Outside N) where
  -- The world once the driver of a ride, if it has one, was sent a new status.
  abbrev pub notify : Option DriverStatus → Option String → World out → World out
  notify none d w = w
  notify (some s) d w = elim (truthy d) [
    | none ↦ w
    | some x ↦ record w { syncs = (x, s) ∷ w.syncs }
  ]

  pub row_of-notify :
      (s : Option DriverStatus) (d : Option String) (w : World out) (j : String)
      → row_of out (notify s d w) j ≡ row_of out w j
  row_of-notify s d w j = ground arith

  -- What an operation that moves ride `id` to status `to` does: it reports a ride that does not
  -- exist, or a move that the table does not allow, and changes nothing; or it updates the row,
  -- returns it and sends the driver's status.
  pub data Outcome (id : String) (to : RideStatus) (o : RideRow N → TransitionOptions N)
      (sent : Option DriverStatus) (w : World out) (res : Result TripError (Ride N) × World out)
      : Type 0 where
    absent :
        row_of out w id ≡ none → res ≡ (err (ride_not_found id), w) → Outcome id to o sent w res
    refused :
        (row : RideRow N)
        → row_of out w id ≡ some row
        → can_transition_ride_status row.status to ≡ false
        → res ≡ (err (conflict row.status to), w)
        → Outcome id to o sent w res
    moved :
        (row : RideRow N) (w₁ : World out)
        → row_of out w id ≡ some row
        → can_transition_ride_status row.status to ≡ true
        → Updated out id to (o row) row w w₁
        → res ≡ (
          ok (to_domain (set_fields to (o row) w.now row)),
          notify sent (set_fields to (o row) w.now row).driver_id w₁,
        )
        → Outcome id to o sent w res

  sync-notify :
      (d : Option String) (s : DriverStatus) (w : World out)
      → sync_if_assigned out d s w ≡ (ok tt, notify (some s) d w)
  unfolding sync_if_assigned sync_driver_status_best_effort
  sync-notify d s w = ground arith

  pub sync_domain :
      (row : RideRow N) (s : DriverStatus) (w : World out)
      → (sync_if_assigned out (to_domain row).driver_id s >> pure (to_domain row)) w
        ≡ (ok (to_domain row), notify (some s) row.driver_id w)
  unfolding to_domain
  sync_domain row s w = ground (arith, sync-notify row.driver_id s w)

  -- The head that these operations share.
  abbrev pub guarded : {A : Type 0} → String → RideStatus → (Ride N → Trips out A) → Trips out A
  guarded id to k = find_ride out id >>= λ ride. guard_transition out ride.status to >> k ride

  module _ {A : Type 0} (id : String) (to : RideStatus) (k : Ride N → Trips out A)
      (w : World out) where
    pub guarded_absent : row_of out w id ≡ none → guarded id to k w ≡ (err (ride_not_found id), w)
    unfolding find_ride find_by_id
    guarded_absent h = ground arith

    pub guarded_refused :
        (row : RideRow N)
        → row_of out w id ≡ some row
        → can_transition_ride_status row.status to ≡ false
        → guarded id to k w ≡ (err (conflict row.status to), w)
    unfolding find_ride find_by_id guard_transition assert_valid_ride_transition to_domain
    guarded_refused row h c = ground arith

    pub guarded_allowed :
        (row : RideRow N)
        → row_of out w id ≡ some row
        → can_transition_ride_status row.status to ≡ true
        → guarded id to k w ≡ k (to_domain row) w
    unfolding find_ride find_by_id guard_transition assert_valid_ride_transition to_domain
    guarded_allowed row h c = ground arith

  -- A guarded operation has the outcome, if its last part does what it should to the moved row.
  guarded-Outcome :
      (id : String) (to : RideStatus) (o : RideRow N → TransitionOptions N)
      (sent : Option DriverStatus) (tx : Bool) (k : Ride N → Trips out (Ride N)) (w : World out)
      → ((row : RideRow N) (w₁ : World out)
          → transition out id to (o row) tx w
            ≡ (ok (to_domain (set_fields to (o row) w.now row)), w₁)
          → k (to_domain row) w ≡ (
            ok (to_domain (set_fields to (o row) w.now row)),
            notify sent (set_fields to (o row) w.now row).driver_id w₁,
          ))
      → Outcome id to o sent w (guarded id to k w)
  guarded-Outcome id to o sent tx k w last = elim (Option-cases (row_of out w id)) [
    | inl h ↦ absent h (guarded_absent id to k w h)
    | inr (row, h) ↦ elim (Bool-cases (can_transition_ride_status row.status to)) [
      | inr c ↦ refused row h c (guarded_refused id to k w row h c)
      | inl c ↦
          let (w₁, e, u) = transition_found out id to (o row) tx w row h in
          moved row w₁ h c u (guarded_allowed id to k w row h c ∙ last row w₁ e)
    ]
  ]

  transition_to-Outcome :
      (id : String) (to : RideStatus) (w : World out)
      → Outcome id to (λ row. no_options) none w (transition_to out id to w)
  unfolding transition_to
  transition_to-Outcome id to w =
      guarded-Outcome id to (λ row. no_options) none false
        (λ ride. transition out id to no_options false) w (λ row w₁ e. e)

  abbrev pub cancel_options : ReasonValue → RideRow N → TransitionOptions N
  cancel_options reason row = record no_options {
    cancellation_reason = recorded out (or_rider_cancelled out reason);
  }

  -- What is no text cannot be written, and every other reason can.
  abbrev pub Writable : ReasonValue → Type 0
  Writable not_text = ⊥
  Writable _ = Unit {0}

  -- `cancel`, in a transaction passed on or in its own, with a reason that can be written: for a ride
  -- that does not exist, or whose status may not become CANCELLED, it throws and changes nothing; else
  -- the row is CANCELLED with the reason given, with RIDER_CANCELLED for `undefined` and with none for
  -- another value that is falsy, all other rows stay, one audit row is written, and the ride's driver,
  -- if there is one, is sent AVAILABLE.
  pub cancel-Outcome :
      (id : String) (reason : ReasonValue) (tx : Bool) (w : World out)
      → Writable reason
      → Outcome id cancelled (cancel_options reason) (some available) w (cancel out id reason tx w)
  unfolding cancel
  cancel-Outcome id undefined tx w ok_ =
      guarded-Outcome id cancelled (cancel_options undefined) (some available) tx _ w (λ row w₁ e.
        rw e (
          sync_domain (set_fields cancelled (cancel_options undefined row) w.now row) available w₁))
  cancel-Outcome id falsy tx w ok_ =
      guarded-Outcome id cancelled (cancel_options falsy) (some available) tx _ w (λ row w₁ e.
        rw e (sync_domain (set_fields cancelled (cancel_options falsy row) w.now row) available w₁))
  cancel-Outcome id (reason_text r) tx w ok_ =
      guarded-Outcome id cancelled (cancel_options (reason_text r)) (some available) tx _ w
        (λ row w₁ e. rw e (
          sync_domain (set_fields cancelled (cancel_options (reason_text r) row) w.now row)
            available w₁))
  cancel-Outcome id not_text tx w ok_ = absurd ok_

  -- A reason that is no text changes nothing.
  pub cancel_refused :
      (id : String) (tx : Bool) (w : World out) → (cancel out id not_text tx w).1 ≡ w
  unfolding cancel
  cancel_refused id tx w = elim (Option-cases (row_of out w id)) [
    | inl h ↦ ap (λ r. r.1) (guarded_absent id cancelled _ w h)
    | inr (row, h) ↦ elim (Bool-cases (can_transition_ride_status row.status cancelled)) [
      | inr c ↦ ap (λ r. r.1) (guarded_refused id cancelled _ w row h c)
      | inl c ↦ ap (λ r. r.1) (guarded_allowed id cancelled _ w row h c)
    ]
  ]

  pub decline-Outcome :
      (id : String) (w : World out)
      → Outcome id cancelled
          (cancel_options (reason_text (listed driver_cancelled)))
          (some available)
          w
          (decline out id w)
  unfolding decline
  decline-Outcome id w = cancel-Outcome id (reason_text (listed driver_cancelled)) false w tt

  pub mark_driver_arrived-Outcome :
      (id : String) (w : World out)
      → Outcome id driver_arrived (λ row. no_options) none w (mark_driver_arrived out id w)
  unfolding mark_driver_arrived
  mark_driver_arrived-Outcome id w = transition_to-Outcome id driver_arrived w

  abbrev pub accept_options : ℕ → RideRow N → TransitionOptions N
  accept_options random row = record no_options { otp = some (pad_otp random) }

  -- `accept`: for a ride that does not exist, or that is not MATCHED, it throws and changes nothing;
  -- else the row is DRIVER_ARRIVING with the four digits of the random number as its pickup code, all
  -- other rows stay, one audit row is written, and nobody is sent a status.
  pub accept-Outcome :
      (id : String) (random : ℕ) (w : World out)
      → Outcome id driver_arriving (accept_options random) none w (accept out id random w)
  unfolding accept
  accept-Outcome id random w =
      guarded-Outcome id driver_arriving (accept_options random) none false _ w (λ row w₁ e. e)

  abbrev pub row_distance : Numbers N → RideRow N → N
  row_distance n row = trip_distance n (to_domain row).pickup (to_domain row).destination

  abbrev pub complete_options : Numbers N → RideRow N → TransitionOptions N
  complete_options n row = record no_options {
    fare = some (trip_fare n (row_distance n row));
    distance_km = some (row_distance n row);
  }

  -- `complete`: for a ride that does not exist, or that is not IN_PROGRESS, it throws and changes
  -- nothing; else the row is COMPLETED with the rounded distance between its two points and the fare
  -- for it, all other rows stay, one audit row is written, and the driver is sent AVAILABLE.
  pub complete-Outcome :
      (n : Numbers N) (id : String) (w : World out)
      → Outcome id completed (complete_options n) (some available) w (complete out n id w)
  unfolding complete
  complete-Outcome n id w =
      guarded-Outcome id completed (complete_options n) (some available) false _ w (λ row w₁ e.
        rw e (sync_domain (set_fields completed (complete_options n row) w.now row) available w₁))
