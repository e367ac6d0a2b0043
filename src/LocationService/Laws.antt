-- ===== src/LocationService/Laws.antt =====
-- A driver that has sent its location is online.
use ryd_trip.Prelude.{ℕ, ◌+◌, ◌*◌, ◌≤◌, ◌<◌, String, Bool, true, List, ◌≡◌}
use ryd_trip.RedisClient.{Redis, has_heartbeat}
use ryd_trip.RedisClient.Online.{DriverLocation, upsert_location_live}
use ryd_trip.RedisClient.Positions.{NearbyDriver, Lists, find_nearby_live}
use ryd_trip.LocationService.{World, update_location, search_nearby}

module _ {N : Type 0} (redis : Redis) (random_uuid : ℕ → String) (broker_up : ℕ → Bool)
    (ttl : ℕ) where
  heartbeat_after :
      (d : DriverLocation N) (cid : String) (w : World N redis) (u : ℕ)
      → w.publisher.now ≤ u
      → u < w.publisher.now + 1000 * ttl
      → has_heartbeat redis d.driver_id u
          (update_location redis random_uuid broker_up ttl d cid w).1.keys
        ≡ true
  unfolding update_location
  heartbeat_after d cid w u lo hi =
      upsert_location_live redis d ttl w.publisher.now u w.keys w.added lo hi

  -- Once a driver has sent its location, and whether or not the event could be published, a search
  -- nearby finds the driver wherever the index lists it, until the heartbeat's time to live is over.
  pub updated_driver_found :
      (d : DriverLocation N) (cid : String) (w : World N redis) (u : ℕ)
      (raw : List (NearbyDriver N)) (x : NearbyDriver N)
      → w.publisher.now ≤ u
      → u < w.publisher.now + 1000 * ttl
      → Lists redis raw x
      → x.driver_id ≡ d.driver_id
      → Lists redis
          (search_nearby redis raw u (update_location redis random_uuid broker_up ttl d cid w).1).0
          x
  unfolding search_nearby
  updated_driver_found d cid w u raw x lo hi listed same =
      let w' = (update_location redis random_uuid broker_up ttl d cid w).1 in
      (find_nearby_live redis raw u w'.keys x).1 (listed, rw same (heartbeat_after d cid w u lo hi))
