-- ===== src/LocationService/Tests.antt =====
-- A location update on a Redis in memory.
use ryd_trip.Prelude.{ℕ, String, Bool, false, [], ◌∷◌, arith, refl, inl}
use ryd_trip.RedisClient.Memory.{memory_redis}
use ryd_trip.RedisClient.Online.{DriverLocation}
use ryd_trip.RedisClient.Positions.{NearbyDriver, Lists}
use ryd_trip.LocationService.{World, update_location, search_nearby}
use ryd_trip.LocationService.Laws.{updated_driver_found}

abbrev uuid : ℕ → String
uuid n = "e1"

abbrev never : ℕ → Bool
never n = false

abbrev world : World ℕ memory_redis
world = record {
  keys = [];
  added = [];
  evicted = [];
  publisher = record { sent = []; uuids = 0; now = 5 };
}

abbrev here : DriverLocation ℕ
here = record { driver_id = "d1"; lat = 17; lng = 78 }

abbrev ranked : NearbyDriver ℕ
ranked = record { driver_id = "d1"; lat = 17; lng = 78; distance_km = 1 }

updated_driver_found_example :
    Lists memory_redis
      (search_nearby memory_redis
        (ranked ∷ [])
        30004
        (update_location memory_redis uuid never 30 here "c1" world).1).0
      ranked
updated_driver_found_example =
    updated_driver_found memory_redis uuid never 30 here "c1" world 30004 (ranked ∷ []) ranked
      (omega arith) (omega arith) (inl refl) refl
