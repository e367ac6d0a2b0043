-- ===== src/TripService/Service/Requests/Consistency.antt =====
-- What holds of every row, whatever the requests.
use ryd_trip.Prelude.{
  ℕ, String, ◌≡◌, ◌≢◌, subst, eq_of_some, sym, ◌∙◌, Bool, true, false, Option, none, some, List, [],
  ◌∷◌, arith,
}
use ryd_trip.EventSchema.{
  RideStatus, matched, driver_arriving, driver_arrived, in_progress, completed, cancelled,
}
use ryd_trip.Gateway.Pattern.{is_some}
use ryd_trip.TripService.RideStateMachine.{can_transition_ride_status}
use ryd_trip.TripService.Repository.{RideRow, Outside, World, CreateRideInput, truthy}
use ryd_trip.TripService.Repository.Laws.{row_of}
use ryd_trip.TripService.Service.{Numbers}
use ryd_trip.TripService.Service.Moves.{
  Moved, to_matched, to_arriving, to_arrived, to_in_progress, to_completed, to_cancelled,
  to_cancelled_without, RowChange, same, born, moved_on, matching_row,
}
use ryd_trip.TripService.Service.Requests.Rows.{NamesDriver, WithFalsyReason, perform-Evolves}
use ryd_trip.TripService.Service.Requests.{Request, perform, serve}

abbrev needs_driver : RideStatus → Bool
needs_driver matched = true
needs_driver driver_arriving = true
needs_driver driver_arrived = true
needs_driver in_progress = true
needs_driver completed = true
needs_driver _ = false

abbrev awaits_pickup : RideStatus → Bool
awaits_pickup driver_arriving = true
awaits_pickup driver_arrived = true
awaits_pickup _ = false

module _ {N : Type 0} where
  pub record IsConsistent (row : RideRow N) : Type 0 where
    pub driver : needs_driver row.status ≡ true → is_some (truthy row.driver_id) ≡ true
    pub code_held : awaits_pickup row.status ≡ true → is_some row.otp ≡ true
    pub code_gone : awaits_pickup row.status ≡ false → row.status ≢ cancelled → row.otp ≡ none
    pub reason : row.status ≡ cancelled → is_some row.cancellation_reason ≡ true
    pub no_reason : row.status ≢ cancelled → row.cancellation_reason ≡ none
    pub fare : row.status ≡ completed → (is_some row.fare ≡ true) × (is_some row.distance_km ≡ true)
    pub no_fare : row.status ≢ completed → (row.fare ≡ none) × (row.distance_km ≡ none)

  new_row-IsConsistent :
      (input : CreateRideInput N) (now : ℕ) → IsConsistent (matching_row input now)
  new_row-IsConsistent input now = ground arith

  move-IsConsistent :
      {F : Type 0} (row row' : RideRow N)
      → ¬ F
      → IsConsistent row
      → can_transition_ride_status row.status row'.status ≡ true
      → Moved F row row'
      → IsConsistent row'
  unfolding can_transition_ride_status
  move-IsConsistent row row' nf v c (to_matched d now t e) = ground arith
  move-IsConsistent row row' nf v c (to_arriving code now e) = ground arith
  move-IsConsistent row row' nf v c (to_arrived now e) = ground arith
  move-IsConsistent row row' nf v c (to_in_progress now e) = ground arith
  move-IsConsistent row row' nf v c (to_completed fare distance now e) = ground arith
  move-IsConsistent row row' nf v c (to_cancelled reason now e) = ground arith
  move-IsConsistent row row' nf v c (to_cancelled_without now f e) = absurd (nf f)

abbrev pub AllNameDrivers : {N : Type 0} → List (Request N) → Type 0
AllNameDrivers [] = Unit {0}
AllNameDrivers (r ∷ rs) = NamesDriver r × AllNameDrivers rs

-- Each cancellation among the requests has a reason, or leaves it `undefined`.
abbrev pub NoneFalsy : {N : Type 0} → List (Request N) → Type 0
NoneFalsy [] = Unit {0}
NoneFalsy (r ∷ rs) = (¬ WithFalsyReason r) × NoneFalsy rs

module _ {N : Type 0} (out : Outside N) (n : Numbers N) where
  abbrev pub AllConsistent : World out → Type 0
  AllConsistent w = (id : String) (row : RideRow N) → row_of out w id ≡ some row → IsConsistent row

  change-IsConsistent :
      {F : Type 0} (before after : Option (RideRow N))
      → ¬ F
      → RowChange F before after
      → ((row : RideRow N) → before ≡ some row → IsConsistent row)
      → (row : RideRow N) → after ≡ some row
      → IsConsistent row
  change-IsConsistent before after nf (same e) v row h = v row (sym e ∙ h)
  change-IsConsistent before after nf (born input now b a) v row h =
      subst IsConsistent (eq_of_some (sym a ∙ h)) (new_row-IsConsistent input now)
  change-IsConsistent before after nf (moved_on old new b c m a) v row h =
      subst IsConsistent (eq_of_some (sym a ∙ h)) (move-IsConsistent old new nf (v old b) c m)

  -- Over any series of requests that starts where every ride is consistent, every ride stays so: one
  -- that is matched and not cancelled has a driver, a pickup code is stored exactly while the driver is
  -- on the way or has arrived (a cancelled ride may keep one), a reason exactly if it is cancelled, and
  -- a fare and a distance exactly if it is completed. Each reservation among the requests names a
  -- driver, and no cancellation has a reason that is falsy and not `undefined`, such as `null`.
  pub serve-AllConsistent :
      (rs : List (Request N)) (w : World out)
      → AllNameDrivers rs
      → NoneFalsy rs
      → AllConsistent w
      → AllConsistent (serve out n rs w)
  unfolding serve
  serve-AllConsistent [] w d f v = v
  serve-AllConsistent (r ∷ rs) w d f v = serve-AllConsistent rs (perform out n r w) d.1 f.1 (λ id.
      change-IsConsistent (row_of out w id) (row_of out (perform out n r w) id) f.0
        (perform-Evolves out n r w d.0 id) (v id))
