-- ===== src/TripService/History/Tests.antt =====
-- The list queries on tables in memory.
use ryd_trip.Prelude.{ℕ, String, some, none, [], ◌∷◌, String-discrete, StringPair-discrete}
use ryd_trip.EventSchema.{RideStatus, matched, completed}
use ryd_trip.Tables.Memory.{memory_table}
use ryd_trip.Tables.Listing.{Listing}
use ryd_trip.Tables.Listing.Memory.{memory_listing}
use ryd_trip.TripService.Repository.{RideRow, Outside, World}
use ryd_trip.TripService.History.{number, find_active_for_driver, find_history_for_rider}
use ryd_trip.TripService.History.Laws.{
  Active, Answer, find_active_for_driver-Active, find_history_for_rider-Answer,
}

abbrev out : Outside ℕ
out = record {
  rides = memory_table String-discrete;
  processed_events = memory_table StringPair-discrete;
  random_uuid = λ n. "id";
}

abbrev lists : Listing out.rides
lists = memory_listing String-discrete

abbrev row : String → RideStatus → ℕ → RideRow ℕ
row id status created_at = record {
  id = id;
  rider_id = "u1";
  driver_id = some "d1";
  pickup_lat = 1;
  pickup_lng = 2;
  destination_lat = 3;
  destination_lng = 4;
  status = status;
  cancellation_reason = none;
  otp = none;
  fare = none;
  distance_km = none;
  created_at = created_at;
  updated_at = created_at;
}

abbrev world : World out
world = record {
  rides = ("r1", row "r1" completed 3) ∷ ("r2", row "r2" matched 8) ∷ [];
  trip_events = [];
  processed = [];
  now = 9;
  uuids = 0;
  syncs = [];
}

find_active_for_driver-Active_example :
    Active out lists "d1" world (find_active_for_driver out lists "d1" world)
find_active_for_driver-Active_example = find_active_for_driver-Active out lists "d1" world

find_history_for_rider-Answer_example :
    Answer out lists "u1"
      (some (number 1))
      world
      (find_history_for_rider out lists "u1" (some (number 1)) world)
find_history_for_rider-Answer_example =
    find_history_for_rider-Answer out lists "u1" (some (number 1)) world
