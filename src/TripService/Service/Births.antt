-- ===== src/TripService/Service/Births.antt =====
-- What the work of ride.requested does to the rows.
use ryd_trip.Prelude.{
  String, ◌≡◌, ap, sym, ◌∙◌, inl, inr, true, some, ◌∷◌, arith, Option-cases, ◌+◌,
}
use ryd_trip.Exec.{err, ◌>>=◌}
use ryd_trip.EventSchema.{Ride, requested, matching}
use ryd_trip.TripService.Repository.{
  RideRow, Outside, World, unique_violation, CreateRideInput, no_options, to_domain, new_row, Trips,
  transition, create, insert_ride, append_event,
}
use ryd_trip.TripService.Repository.Laws.{row_of, transition_found, audit_row, with_ledger}
use ryd_trip.TripService.Service.{handle_ride_requested, consumer_name}
use ryd_trip.TripService.Service.Moves.{same, born, new_row-matching}
use ryd_trip.TripService.Service.Changes.{Evolves, run_idempotent-Evolves}

module _ {N : Type 0} (out : Outside N) (input : CreateRideInput N) where
  abbrev pub work : Trips out (Ride N)
  work = create out input true >>= λ ride. transition out ride.id matching no_options true

  -- The world once the row and its audit row are there.
  abbrev pub created : World out → out.rides.State → World out
  created w t = record w {
    rides = t;
    trip_events = audit_row out input.id requested no_options w ∷ w.trip_events;
    uuids = w.uuids + 1;
  }

  pub work_taken :
      (w : World out) (row : RideRow N)
      → row_of out w input.id ≡ some row
      → work w ≡ (err unique_violation, w)
  unfolding create insert_ride new_row
  work_taken w row h =
      ground (arith, out.rides.create_taken w.rides input.id (new_row input w.now) row h)

  pub work_fresh :
      (w : World out) (t : out.rides.State)
      → out.rides.create w.rides input.id (new_row input w.now) ≡ some t
      → work w ≡ transition out input.id matching no_options true (created w t)
  unfolding create insert_ride append_event new_row to_domain
  work_fresh w t h = ground arith

  work-Evolves : (w : World out) → Evolves out ⊥ w (work w).1
  work-Evolves w j = elim (Option-cases (row_of out w input.id)) [
    | inr (row, h) ↦ same (ap (λ r. row_of out r.1 j) (work_taken w row h))
    | inl h ↦
        let row = new_row input w.now in
        let (t, c) = out.rides.create_fresh w.rides input.id row h in
        let self = out.rides.create_self w.rides t input.id row c in
        let (w', e, u) =
          transition_found out input.id matching no_options true (created w t) row self in
        let run = ap (λ r. row_of out r.1 j) (work_fresh w t c ∙ e) in
        elim (u.frame j) [
          | inl i ↦
              born input w.now (ap (row_of out w) (sym i) ∙ h) (
                run ∙ ap (row_of out w') (sym i) ∙ u.after ∙ ap some (new_row-matching input w.now))
          | inr q ↦ elim (out.rides.create_frame w.rides t input.id row j c) [
            | inl i ↦ born input w.now (ap (row_of out w) (sym i) ∙ h) (
                run ∙ ap (row_of out w') (sym i) ∙ u.after ∙ ap some (new_row-matching input w.now))
            | inr f ↦ same (run ∙ q ∙ f)
          ]
        ]
  ]

  pub handle_ride_requested-Evolves :
      (event_id : String) (w : World out)
      → Evolves out ⊥ w (handle_ride_requested out input event_id w).1
  unfolding handle_ride_requested
  handle_ride_requested-Evolves event_id w =
      run_idempotent-Evolves out ⊥ event_id consumer_name work w
        (λ p. work-Evolves (with_ledger out w p))
