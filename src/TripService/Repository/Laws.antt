-- ===== src/TripService/Repository/Laws.antt =====
-- What the repository's methods do to the tables.
use ryd_trip.Prelude.{
  String, ◌≡◌, refl, ◌⊎◌, Bool, true, false, Option, none, some, ◌∷◌, arith, ◌+◌,
}
use ryd_trip.Exec.{Result, ok, err}
use ryd_trip.EventSchema.{RideStatus}
use ryd_trip.TripService.Repository.{
  RideRow, TripEvent, Outside, World, TripError, record_not_found, IdempotentOutcome, skipped,
  TransitionOptions, to_domain, set_fields, event_type_for_status, Trips, roll_back, run_idempotent,
  transition, catch_violation,
}

module _ {N : Type 0} (out : Outside N) where
  abbrev pub row_of : World out → String → Option (RideRow N)
  row_of w id = out.rides.find_unique w.rides id

  abbrev pub is_processed : World out → String → String → Option (Unit {0})
  is_processed w event_id consumer =
      out.processed_events.find_unique w.processed (event_id, consumer)

  -- Every ride but one is as it was.
  abbrev pub Frame : String → World out → World out → Type 0
  Frame id w w' = (j : String) → (id ≡ j) ⊎ (row_of w' j ≡ row_of w j)

  -- One row was updated, and one audit row was written for it.
  pub record Updated (id : String) (to : RideStatus) (o : TransitionOptions N) (row : RideRow N)
      (w : World out) (w' : World out) : Type 0 where
    pub after : row_of w' id ≡ some (set_fields to o w.now row)
    pub frame : Frame id w w'
    pub audit :
        w'.trip_events
        ≡ (record {
          ride_id = id;
          event_type = event_type_for_status to;
          event_id = out.random_uuid w.uuids;
          timestamp = w.now;
          metadata = o.cancellation_reason;
        })
          ∷ w.trip_events
    pub processed : w'.processed ≡ w.processed
    pub syncs : w'.syncs ≡ w.syncs
    pub now : w'.now ≡ w.now

  abbrev pub audit_row : String → RideStatus → TransitionOptions N → World out → TripEvent
  audit_row id to o w = record {
    ride_id = id;
    event_type = event_type_for_status to;
    event_id = out.random_uuid w.uuids;
    timestamp = w.now;
    metadata = o.cancellation_reason;
  }

  transition_run :
      (id : String) (to : RideStatus) (o : TransitionOptions N) (tx : Bool) (w : World out)
      (row' : RideRow N) (t : out.rides.State)
      → out.rides.update w.rides id (set_fields to o w.now) ≡ some t
      → out.rides.find_unique t id ≡ some row'
      → transition out id to o tx w ≡ (
        ok (to_domain row'),
        record w {
          rides = t;
          trip_events = audit_row id to o w ∷ w.trip_events;
          uuids = w.uuids + 1;
        },
      )
  unfolding transition
  transition_run id to o true w row' t e f = ground arith
  transition_run id to o false w row' t e f = ground arith

  pub transition_missing :
      (id : String) (to : RideStatus) (o : TransitionOptions N) (tx : Bool) (w : World out)
      → row_of w id ≡ none
      → transition out id to o tx w ≡ (err record_not_found, w)
  unfolding transition
  transition_missing id to o true w h =
      ground (arith, out.rides.update_missing w.rides id (set_fields to o w.now) h)
  transition_missing id to o false w h =
      ground (arith, out.rides.update_missing w.rides id (set_fields to o w.now) h)

  pub transition_found :
      (id : String) (to : RideStatus) (o : TransitionOptions N) (tx : Bool) (w : World out)
      (row : RideRow N)
      → row_of w id ≡ some row
      → (w' : World out) × (transition out id to o tx w
          ≡ (ok (to_domain (set_fields to o w.now row)), w'))
        × Updated id to o row w w'
  transition_found id to o tx w row h =
      let (t, e) = out.rides.update_found w.rides id (set_fields to o w.now) row h in
      let self = out.rides.update_self w.rides t id (set_fields to o w.now) row h e in
      (
        record w {
          rides = t;
          trip_events = audit_row id to o w ∷ w.trip_events;
          uuids = w.uuids + 1;
        },
        transition_run id to o tx w (set_fields to o w.now row) t e self,
        record {
          after = self;
          frame = λ j. out.rides.update_frame w.rides t id (set_fields to o w.now) j e;
          audit = refl;
          processed = refl;
          syncs = refl;
          now = refl;
        },
      )

  -- An event that is in the ledger is skipped, whatever it asks for, and nothing is written.
  pub run_idempotent_again :
      {A : Type 0} (event_id consumer : String) (work : Trips out A) (w : World out)
      → is_processed w event_id consumer ≡ some tt
      → run_idempotent out event_id consumer work w ≡ (ok skipped, w)
  unfolding run_idempotent
  run_idempotent_again event_id consumer work w h =
      ground (arith, out.processed_events.create_taken w.processed (event_id, consumer) tt tt h)

  -- The world in which the work of a first delivery runs.
  abbrev pub with_ledger : World out → out.processed_events.State → World out
  with_ledger w p = record w { processed = p }

  abbrev pub settled :
      {A : Type 0}
      → World out
      → Result TripError A × World out
      → Result TripError (IdempotentOutcome A) × World out
  settled w r = catch_violation out (roll_back out w r)

  -- An event that is not in the ledger is entered there, and its work runs.
  pub run_idempotent_first :
      {A : Type 0} (event_id consumer : String) (work : Trips out A) (w : World out)
      → is_processed w event_id consumer ≡ none
      → (p : out.processed_events.State) × (out.processed_events.create w.processed
            (event_id, consumer)
            tt
          ≡ some p)
        × (out.processed_events.find_unique p (event_id, consumer) ≡ some tt)
        × (run_idempotent out event_id consumer work w ≡ settled w (work (with_ledger w p)))
  unfolding run_idempotent
  run_idempotent_first event_id consumer work w h =
      let (p, e) = out.processed_events.create_fresh w.processed (event_id, consumer) tt h in
      (p, e, out.processed_events.create_self w.processed p (event_id, consumer) tt e, ground arith)
