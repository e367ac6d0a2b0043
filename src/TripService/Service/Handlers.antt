-- ===== src/TripService/Service/Handlers.antt =====
-- The handlers of events: their effect on the rows, and what a second delivery does.
use ryd_trip.Prelude.{
  String, ◌≡◌, ap, sym, subst, refl, ◌∙◌, inl, inr, true, Option, some, arith, Option-cases,
}
use ryd_trip.Exec.{Result, ok, err}
use ryd_trip.EventSchema.{
  Ride, RideStatus, DriverStatus, ReasonValue, undefined, falsy, not_text, reason_text, listed,
  no_drivers_available, matching, matched, cancelled, available,
}
use ryd_trip.TripService.RideStateMachine.{can_transition_ride_status}
use ryd_trip.TripService.Repository.{
  RideRow, Outside, World, TripError, unique_violation, IdempotentOutcome, Trips, run_idempotent,
  conflict, skipped, CreateRideInput, TransitionOptions, no_options, new_row, set_fields,
}
use ryd_trip.TripService.Repository.Laws.{
  row_of, is_processed, run_idempotent_again, run_idempotent_first, settled, with_ledger,
  transition_found,
}
use ryd_trip.TripService.Service.{
  cancel, consumer_name, handle_ride_requested, handle_ride_cancelled, handle_driver_reserved,
  handle_driver_rejected,
}
use ryd_trip.TripService.Service.Outcomes.{
  Outcome, absent, refused, moved, notify, Writable, cancel_options, cancel-Outcome, cancel_refused,
  guarded_refused,
}
use ryd_trip.TripService.Service.Births.{work, created, work_taken, work_fresh}

module _ {N : Type 0} (out : Outside N) where
  -- What is needed of the work of a handler: it leaves the ledger alone, and where it violates a
  -- constraint it has changed nothing.
  record IsSafe {A : Type 0} (work : Trips out A) : Type 0 where
    pub ledger_kept : (w : World out) → (work w).1.processed ≡ w.processed
    pub violation_clean : (w w₁ : World out) → work w ≡ (err unique_violation, w₁) → w₁ ≡ w

  -- A world in which a delivery of the event is skipped.
  abbrev Skips : {A : Type 0} → String → Trips out A → World out → Type 0
  Skips event_id work w = run_idempotent out event_id consumer_name work w ≡ (ok skipped, w)

  settled-Skips :
      {A : Type 0} (event_id : String) (work : Trips out A) (w : World out)
      (p : out.processed_events.State) (res : Result TripError A × World out)
      (o : IdempotentOutcome A) (w' : World out)
      → out.processed_events.find_unique p (event_id, consumer_name) ≡ some tt
      → run_idempotent out event_id consumer_name work w ≡ settled out w res
      → res.1.processed ≡ p
      → ((w₁ : World out) → res ≡ (err unique_violation, w₁) → w₁ ≡ with_ledger out w p)
      → settled out w res ≡ (ok o, w')
      → Skips event_id work w'
  settled-Skips event_id work w p (ok a, w₁) o w' seen run kept clean s =
      run_idempotent_again out event_id consumer_name work w' (
        ap (λ q. out.processed_events.find_unique q (event_id, consumer_name))
          (ap (λ r. r.1.processed) (sym s) ∙ kept)
        ∙ seen)
  settled-Skips event_id work w p (err unique_violation, w₁) o w' seen run kept clean s =
      let back =
        ap
          (λ (x : World out). record x {
            rides = w.rides;
            trip_events = w.trip_events;
            processed = w.processed;
          })
          (clean w₁ refl) in
      subst (Skips event_id work) (sym (ap (λ r. r.1) (sym s) ∙ back))
        (run ∙ ap (λ (x : World out). (ok skipped, x)) back)
  settled-Skips event_id work w p (err e, w₁) o w' seen run kept clean s = absurd (ground arith)

  delivered_again :
      {A : Type 0} (event_id : String) (work : Trips out A) (w w' : World out)
      (o : IdempotentOutcome A)
      → IsSafe work
      → run_idempotent out event_id consumer_name work w ≡ (ok o, w')
      → Skips event_id work w'
  delivered_again event_id work w w' o safe h =
      elim (Option-cases (is_processed out w event_id consumer_name)) [
        | inr (u, e) ↦
            let again = run_idempotent_again out event_id consumer_name work w e in
            subst (Skips event_id work) (ap (λ r. r.1) (sym again ∙ h)) again
        | inl e ↦
            let (p, c, seen, run) = run_idempotent_first out event_id consumer_name work w e in
            settled-Skips event_id work w p (work (with_ledger out w p)) o w' seen run
              (safe.ledger_kept (with_ledger out w p)) (safe.violation_clean (with_ledger out w p))
              (sym run ∙ h)
      ]

  notify-ledger :
      (s : Option DriverStatus) (d : Option String) (w : World out)
      → (notify out s d w).processed ≡ w.processed
  notify-ledger s d w = ground arith

  Outcome-ledger :
      (id : String) (to : RideStatus) (o : RideRow N → TransitionOptions N)
      (sent : Option DriverStatus) (w : World out) (res : Result TripError (Ride N) × World out)
      → Outcome out id to o sent w res
      → res.1.processed ≡ w.processed
  Outcome-ledger id to o sent w res (absent h r) = ap (λ x. x.1.processed) r
  Outcome-ledger id to o sent w res (refused row h c r) = ap (λ x. x.1.processed) r
  Outcome-ledger id to o sent w res (moved row w₁ h c u r) =
      ap (λ x. x.1.processed) r
      ∙ notify-ledger sent (set_fields to (o row) w.now row).driver_id w₁
      ∙ u.processed

  Outcome-clean :
      (id : String) (to : RideStatus) (o : RideRow N → TransitionOptions N)
      (sent : Option DriverStatus) (w : World out) (res : Result TripError (Ride N) × World out)
      (w₁ : World out)
      → Outcome out id to o sent w res
      → res ≡ (err unique_violation, w₁)
      → w₁ ≡ w
  Outcome-clean id to o sent w res w₁ (absent h r) e = cc
  Outcome-clean id to o sent w res w₁ (refused row h c r) e = cc
  Outcome-clean id to o sent w res w₁ (moved row w₂ h c u r) e = cc

  written-IsSafe :
      (id : String) (reason : ReasonValue)
      → Writable out reason
      → IsSafe (cancel out id reason true)
  written-IsSafe id reason h = record {
    ledger_kept = λ w.
        Outcome-ledger id cancelled (cancel_options out reason) (some available) w _
          (cancel-Outcome out id reason true w h);
    violation_clean = λ w w₁.
        Outcome-clean id cancelled (cancel_options out reason) (some available) w _ w₁
          (cancel-Outcome out id reason true w h);
  }

  cancel-IsSafe : (id : String) (reason : ReasonValue) → IsSafe (cancel out id reason true)
  cancel-IsSafe id undefined = written-IsSafe id undefined tt
  cancel-IsSafe id falsy = written-IsSafe id falsy tt
  cancel-IsSafe id (reason_text r) = written-IsSafe id (reason_text r) tt
  cancel-IsSafe id not_text = record {
    ledger_kept = λ w. ap (λ x. x.processed) (cancel_refused out id true w);
    violation_clean = λ w w₁ r. sym (ap (λ x. x.1) r) ∙ cancel_refused out id true w;
  }

  create-IsSafe : (input : CreateRideInput N) → IsSafe (work out input)
  create-IsSafe input = record {
    ledger_kept = λ w. elim (Option-cases (row_of out w input.id)) [
      | inr (row, h) ↦ ap (λ x. x.1.processed) (work_taken out input w row h)
      | inl h ↦
          let row = new_row input w.now in
          let (t, c) = out.rides.create_fresh w.rides input.id row h in
          let (w', e, u) =
            transition_found out input.id matching no_options true (created out input w t) row
              (out.rides.create_self w.rides t input.id row c) in
          ap (λ x. x.1.processed) (work_fresh out input w t c ∙ e) ∙ u.processed
    ];
    violation_clean = λ w w₁ r. elim (Option-cases (row_of out w input.id)) [
      | inr (row, h) ↦ ap (λ x. x.1) (sym r ∙ work_taken out input w row h)
      | inl h ↦
          let row = new_row input w.now in
          let (t, c) = out.rides.create_fresh w.rides input.id row h in
          let (w', e, u) =
            transition_found out input.id matching no_options true (created out input w t) row
              (out.rides.create_self w.rides t input.id row c) in
          let runs = work_fresh out input w t c ∙ e in cc
    ];
  }

  -- An event whose handler works within the ledger's transaction.
  pub data Delivery : Type 0 where
    ride_requested : CreateRideInput N → Delivery
    ride_cancelled : String → ReasonValue → Delivery
    driver_rejected : String → Delivery

  unfoldable pub deliver : Delivery → String → Trips out (IdempotentOutcome (Ride N))
  deliver (ride_requested input) event_id = handle_ride_requested out input event_id
  deliver (ride_cancelled id reason) event_id = handle_ride_cancelled out id reason event_id
  deliver (driver_rejected id) event_id = handle_driver_rejected out id event_id

  -- Once a delivery of ride.requested, ride.cancelled or driver.rejected was handled without an error,
  -- a second delivery of the same event is skipped: nothing is written and no request is sent.
  pub redelivery_skipped :
      (d : Delivery) (event_id : String) (w w' : World out) (o : IdempotentOutcome (Ride N))
      → deliver d event_id w ≡ (ok o, w')
      → deliver d event_id w' ≡ (ok skipped, w')
  unfolding deliver handle_ride_requested handle_ride_cancelled handle_driver_rejected
  redelivery_skipped (ride_requested input) event_id w w' o h =
      delivered_again event_id (work out input) w w' o (create-IsSafe input) h
  redelivery_skipped (ride_cancelled id reason) event_id w w' o h =
      delivered_again event_id (cancel out id reason true) w w' o (cancel-IsSafe id reason) h
  redelivery_skipped (driver_rejected id) event_id w w' o h =
      let reason = reason_text (listed no_drivers_available) in
      delivered_again event_id (cancel out id reason true) w w' o (cancel-IsSafe id reason) h

  abbrev reserve_options : String → TransitionOptions N
  reserve_options driver_id = record no_options { driver_id = some driver_id }

  -- driver.reserved is guarded before the ledger is asked: for a ride that is MATCHED already, which
  -- is how a first delivery leaves it, a second delivery throws a conflict and is not skipped.
  pub reserved_redelivery_conflicts :
      (id driver_id event_id : String) (w : World out) (row : RideRow N)
      → row_of out w id ≡ some row
      → row.status ≡ matched
      → handle_driver_reserved out id driver_id event_id w ≡ (err (conflict matched matched), w)
  unfolding handle_driver_reserved can_transition_ride_status
  reserved_redelivery_conflicts id driver_id event_id w row h s =
      guarded_refused out id matched _ w row h (rw s) ∙ ap (λ t. (err (conflict t matched), w)) s
