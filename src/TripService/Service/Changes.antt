-- ===== src/TripService/Service/Changes.antt =====
-- The change that one request makes to each row.
use ryd_trip.Prelude.{
  String, ◌≡◌, refl, ap, sym, ◌∙◌, ◌⊎◌, inl, inr, Bool, true, Option, some, arith, Option-cases,
  Bool-cases,
}
use ryd_trip.Exec.{Result, ok, err}
use ryd_trip.EventSchema.{
  Ride, listed, ReasonValue, undefined, falsy, not_text, reason_text, no_drivers_available,
  RideStatus, matched, cancelled, DriverStatus, available,
}
use ryd_trip.TripService.RideStateMachine.{can_transition_ride_status}
use ryd_trip.TripService.Repository.{
  RideRow, Outside, World, TripError, IdempotentOutcome, TransitionOptions, no_options, truthy,
  set_fields, Trips, transition, run_idempotent,
}
use ryd_trip.TripService.Repository.Laws.{
  row_of, Updated, is_processed, settled, with_ledger, transition_found, run_idempotent_again,
  run_idempotent_first,
}
use ryd_trip.TripService.Service.{
  cancel, consumer_name, handle_ride_cancelled, handle_driver_reserved, handle_driver_rejected,
}
use ryd_trip.TripService.Service.Outcomes.{
  Outcome, absent, refused, moved, row_of-notify, guarded_refused, guarded_allowed, guarded_absent,
  cancel-Outcome, cancel_options, Writable, cancel_refused,
}
use ryd_trip.TripService.Service.Moves.{
  Moved, RowChange, same, moved_on, set_fields_status, WithoutReason, matched-Moved,
  cancelled-Moved,
}

module _ {N : Type 0} (out : Outside N) (F : Type 0) where
  abbrev pub Evolves : World out → World out → Type 0
  Evolves w w' = (j : String) → RowChange F (row_of out w j) (row_of out w' j)

  pub Updated-Evolves :
      (id : String) (to : RideStatus) (o : TransitionOptions N) (row : RideRow N) (w w' : World out)
      → row_of out w id ≡ some row
      → can_transition_ride_status row.status to ≡ true
      → Moved F row (set_fields to o w.now row)
      → Updated out id to o row w w'
      → Evolves w w'
  Updated-Evolves id to o row w w' h c f u j = elim (u.frame j) [
    | inl e ↦
        moved_on row (set_fields to o w.now row) (ap (row_of out w) (sym e) ∙ h)
          (ap (can_transition_ride_status row.status) (set_fields_status to o w.now row) ∙ c) f
          (ap (row_of out w') (sym e) ∙ u.after)
    | inr e ↦ same e
  ]

  -- An operation with an outcome changes rows as it should.
  pub Outcome-Evolves :
      (id : String) (to : RideStatus) (o : RideRow N → TransitionOptions N)
      (sent : Option DriverStatus) (w : World out) (res : Result TripError (Ride N) × World out)
      → ((row : RideRow N) → Moved F row (set_fields to (o row) w.now row))
      → Outcome out id to o sent w res
      → Evolves w res.1
  Outcome-Evolves id to o sent w res fits (absent h e) j = same (ap (λ r. row_of out r.1 j) e)
  Outcome-Evolves id to o sent w res fits (refused row h c e) j =
      same (ap (λ r. row_of out r.1 j) e)
  Outcome-Evolves id to o sent w res fits (moved row w₁ h c u e) j =
      let same_row =
        ap (λ r. row_of out r.1 j) e
        ∙ row_of-notify out sent (set_fields to (o row) w.now row).driver_id w₁ j in
      rw same_row (Updated-Evolves id to (o row) row w w₁ h c (fits row) u j)

  settled_rows :
      {A : Type 0} (w : World out) (r : Result TripError A × World out) (j : String)
      → (row_of out (settled out w r).1 j ≡ row_of out w j)
        ⊎ (row_of out (settled out w r).1 j ≡ row_of out r.1 j)
  settled_rows w (ok a, w') j = inr refl
  settled_rows w (err e, w') j = inl (ground arith)

  -- A handler changes rows as its work does, or not at all.
  pub run_idempotent-Evolves :
      {A : Type 0} (event_id consumer : String) (work : Trips out A) (w : World out)
      → ((p : out.processed_events.State)
          → Evolves (with_ledger out w p) (work (with_ledger out w p)).1)
      → Evolves w (run_idempotent out event_id consumer work w).1
  run_idempotent-Evolves event_id consumer work w h j =
      elim (Option-cases (is_processed out w event_id consumer)) [
        | inr (u, e) ↦
            same (ap (λ r. row_of out r.1 j) (run_idempotent_again out event_id consumer work w e))
        | inl e ↦
            let (p, c, s, run) = run_idempotent_first out event_id consumer work w e in
            elim (settled_rows w (work (with_ledger out w p)) j) [
              | inl q ↦ same (ap (λ r. row_of out r.1 j) run ∙ q)
              | inr q ↦ rw (ap (λ r. row_of out r.1 j) run ∙ q) (h p j)
            ]
      ]

module _ {N : Type 0} (out : Outside N) where
  written-Evolves :
      (id : String) (reason : ReasonValue) (tx : Bool) (w : World out)
      → Writable out reason
      → Evolves out (WithoutReason reason) w (cancel out id reason tx w).1
  written-Evolves id reason tx w h =
      Outcome-Evolves out (WithoutReason reason) id cancelled (cancel_options out reason)
        (some available) w _ (λ row. cancelled-Moved out reason w.now row h)
        (cancel-Outcome out id reason tx w h)

  pub cancel-Evolves :
      (id : String) (reason : ReasonValue) (tx : Bool) (w : World out)
      → Evolves out (WithoutReason reason) w (cancel out id reason tx w).1
  cancel-Evolves id not_text tx w j = same (ap (λ x. row_of out x j) (cancel_refused out id tx w))
  cancel-Evolves id undefined tx w j = written-Evolves id undefined tx w tt j
  cancel-Evolves id falsy tx w j = written-Evolves id falsy tx w tt j
  cancel-Evolves id (reason_text r) tx w j = written-Evolves id (reason_text r) tx w tt j

  abbrev reserve_options : String → TransitionOptions N
  reserve_options d = record no_options { driver_id = some d }

  reserve_work-Evolves :
      (id d : String) (w₀ w : World out) (row : RideRow N)
      → row_of out w₀ id ≡ some row
      → can_transition_ride_status row.status matched ≡ true
      → truthy (some d) ≡ some d
      → Evolves out ⊥ w₀ (transition out id matched (reserve_options d) true w₀).1
  reserve_work-Evolves id d w₀ w row h c t =
      let (w', e, u) = transition_found out id matched (reserve_options d) true w₀ row h in
      rw e (
        Updated-Evolves out ⊥ id matched (reserve_options d) row w₀ w' h c
          (matched-Moved out d w₀.now row t) u)

  pub handle_ride_cancelled-Evolves :
      (id : String) (reason : ReasonValue) (event_id : String) (w : World out)
      → Evolves out (WithoutReason reason) w (handle_ride_cancelled out id reason event_id w).1
  unfolding handle_ride_cancelled
  handle_ride_cancelled-Evolves id reason event_id w =
      run_idempotent-Evolves out (WithoutReason reason) event_id consumer_name
        (cancel out id reason true) w (λ p. cancel-Evolves id reason true (with_ledger out w p))

  pub handle_driver_rejected-Evolves :
      (id : String) (event_id : String) (w : World out)
      → Evolves out ⊥ w (handle_driver_rejected out id event_id w).1
  unfolding handle_driver_rejected
  handle_driver_rejected-Evolves id event_id w =
      run_idempotent-Evolves out ⊥ event_id consumer_name
        (cancel out id (reason_text (listed no_drivers_available)) true) w
        (λ p.
          cancel-Evolves id (reason_text (listed no_drivers_available)) true (with_ledger out w p))

  abbrev reserve_rest : String → String → String → Ride N → Trips out (IdempotentOutcome (Ride N))
  reserve_rest id d event_id ride =
      run_idempotent out event_id consumer_name (transition out id matched (reserve_options d) true)

  pub handle_driver_reserved-Evolves :
      (id d : String) (event_id : String) (w : World out)
      → truthy (some d) ≡ some d
      → Evolves out ⊥ w (handle_driver_reserved out id d event_id w).1
  unfolding handle_driver_reserved
  handle_driver_reserved-Evolves id d event_id w t j =
      let k = reserve_rest id d event_id in
      elim (Option-cases (row_of out w id)) [
        | inl h ↦ same (ap (λ r. row_of out r.1 j) (guarded_absent out id matched k w h))
        | inr (row, h) ↦ elim (Bool-cases (can_transition_ride_status row.status matched)) [
          | inr c ↦ same (ap (λ r. row_of out r.1 j) (guarded_refused out id matched k w row h c))
          | inl c ↦ rw (ap (λ r. row_of out r.1 j) (guarded_allowed out id matched k w row h c)) (
              run_idempotent-Evolves out ⊥ event_id consumer_name
                (transition out id matched (reserve_options d) true) w
                (λ p. reserve_work-Evolves id d (with_ledger out w p) w row h c t) j)
        ]
      ]
