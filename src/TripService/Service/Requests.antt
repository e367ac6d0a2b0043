-- ===== src/TripService/Service/Requests.antt =====
-- Every way in which a ride is changed, as one type of requests: the HTTP endpoints of
-- trips.controller.ts and the events of ride-events.consumer.ts.
pub mod Rows
pub mod Consistency
pub mod Lives
use ryd_trip.Prelude.{ℕ, String, false, Option, List, [], ◌∷◌}
use ryd_trip.Exec.{Result, ok, err}
use ryd_trip.EventSchema.{ReasonValue}
use ryd_trip.TripService.Repository.{Outside, World, TripError, CreateRideInput}
use ryd_trip.TripService.Service.{
  Numbers, cancel, accept, decline, mark_driver_arrived, start, complete, handle_ride_requested,
  handle_ride_cancelled, handle_driver_reserved, handle_driver_rejected,
}

pub data Request (N : Type 0) : Type 0 where
  post_accept : String → ℕ → Request N
  post_decline post_driver_arrived post_complete : String → Request N
  post_start : String → String → Option String → Request N
  post_cancel : String → ReasonValue → Request N
  -- The last argument is the event's id.
  ride_requested : CreateRideInput N → String → Request N
  ride_cancelled : String → ReasonValue → String → Request N
  driver_reserved : String → String → String → Request N
  driver_rejected : String → String → Request N

module _ {N : Type 0} (out : Outside N) (n : Numbers N) where
  -- The world after a request, whatever its answer.
  unfoldable pub perform : Request N → World out → World out
  perform (post_accept id random) w = (accept out id random w).1
  perform (post_decline id) w = (decline out id w).1
  perform (post_driver_arrived id) w = (mark_driver_arrived out id w).1
  perform (post_complete id) w = (complete out n id w).1
  perform (post_start id otp caller) w = (start out id otp caller w).1
  perform (post_cancel id reason) w = (cancel out id reason false w).1
  perform (ride_requested input e) w = (handle_ride_requested out input e w).1
  perform (ride_cancelled id reason e) w = (handle_ride_cancelled out id reason e w).1
  perform (driver_reserved id d e) w = (handle_driver_reserved out id d e w).1
  perform (driver_rejected id e) w = (handle_driver_rejected out id e w).1

  unfoldable pub serve : List (Request N) → World out → World out
  serve [] w = w
  serve (r ∷ rs) w = serve rs (perform r w)
