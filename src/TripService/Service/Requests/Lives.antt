-- ===== src/TripService/Service/Requests/Lives.antt =====
-- The life of a ride over a series of requests.
use ryd_trip.Prelude.{String, ◌⊎◌, ◌≡◌, sym, ◌∙◌, subst, eq_of_some, some, List, [], ◌∷◌}
use ryd_trip.EventSchema.{RideStatus, in_progress, completed}
use ryd_trip.TripService.RideStateMachine.Graph.{
  ◌⟶◌, ◌⟶*◌, here, then, can_transition_iff, in_progress_completes,
}
use ryd_trip.TripService.Repository.{RideRow, Outside, World}
use ryd_trip.TripService.Repository.Laws.{row_of}
use ryd_trip.TripService.Service.{Numbers}
use ryd_trip.TripService.Service.Moves.{RowChange, same, born, moved_on}
use ryd_trip.TripService.Service.Requests.{Request, perform, serve}
use ryd_trip.TripService.Service.Requests.Rows.{perform-Evolves}
use ryd_trip.TripService.Service.Requests.Consistency.{AllNameDrivers}

⟶*-append : {s t u : RideStatus} → s ⟶* t → t ⟶* u → s ⟶* u
⟶*-append here q = q
⟶*-append (then e p) q = then e (⟶*-append p q)

module _ {N : Type 0} (out : Outside N) (n : Numbers N) where
  -- Where a ride that exists is later on.
  pub record Later (w : World out) (id : String) (s : RideStatus) : Type 0 where
    pub row : RideRow N
    pub stored : row_of out w id ≡ some row
    pub path : s ⟶* row.status

  change-Later :
      {F : Type 0} (id : String) (w w' : World out) (row : RideRow N)
      → row_of out w id ≡ some row
      → RowChange F (row_of out w id) (row_of out w' id)
      → Later w' id row.status
  change-Later id w w' row h (same e) = record { row = row; stored = e ∙ h; path = here }
  change-Later id w w' row h (born input now b a) = cc
  change-Later id w w' row h (moved_on old new b c m a) = record {
    row = new;
    stored = a;
    path =
        then
          (subst (λ (r : RideRow N). r.status ⟶ new.status) (eq_of_some (sym b ∙ h))
            ((can_transition_iff old.status new.status).0 c))
          here;
  }

  -- Over any series of requests a ride is never lost, and its status follows a path of the diagram.
  -- Each reservation among the requests names a driver.
  pub serve-Later :
      (rs : List (Request N)) (w : World out) (id : String) (row : RideRow N)
      → AllNameDrivers rs
      → row_of out w id ≡ some row
      → Later (serve out n rs w) id row.status
  unfolding serve
  serve-Later [] w id row d h = record { row = row; stored = h; path = here }
  serve-Later (r ∷ rs) w id row d h =
      let first = change-Later id w (perform out n r w) row h (perform-Evolves out n r w d.0 id) in
      let rest = serve-Later rs (perform out n r w) id first.row d.1 first.stored in
      record { row = rest.row; stored = rest.stored; path = ⟶*-append first.path rest.path }

  -- A ride that is in progress is never cancelled later, whatever the requests: it stays in
  -- progress or is completed. Each reservation among the requests names a driver.
  serve_in_progress :
      (rs : List (Request N)) (w : World out) (id : String) (row row' : RideRow N)
      → AllNameDrivers rs
      → row_of out w id ≡ some row
      → row.status ≡ in_progress
      → row_of out (serve out n rs w) id ≡ some row'
      → (row'.status ≡ in_progress) ⊎ (row'.status ≡ completed)
  serve_in_progress rs w id row row' d h s h' =
      let l = serve-Later rs w id row d h in
      subst (λ (r : RideRow N). (r.status ≡ in_progress) ⊎ (r.status ≡ completed))
        (eq_of_some (sym l.stored ∙ h')) (in_progress_completes l.path s)
