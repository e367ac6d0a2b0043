-- ===== src/RedisClient/Tests.antt =====
-- Reservations, the ledger and the search on a Redis in memory.
use ryd_trip.Prelude.{ℕ, ◌≡◌, refl, [], ◌∷◌, String, arith, true, List}
use ryd_trip.RedisClient.{try_reserve, mark_processed, was_processed, has_heartbeat}
use ryd_trip.RedisClient.Memory.{memory_redis, Keys, get, put_new, put}
use ryd_trip.RedisClient.Reservations.{Attempt, AllLost, outcomes, reservation_exclusive}
use ryd_trip.RedisClient.Positions.{NearbyDriver, find_nearby}

won_when_free : (try_reserve memory_redis "d1" "r1" 30 5 []).0 ≡ true
unfolding try_reserve get put_new
won_when_free = refl

abbrev rivals : List Attempt
rivals =
    record { driver_id = "d1"; ride_id = "r2"; ttl = 30; at = 6 }
    ∷ record { driver_id = "d2"; ride_id = "r3"; ttl = 30; at = 7 }
    ∷ record { driver_id = "d1"; ride_id = "r3"; ttl = 30; at = 30004 }
    ∷ []

reservation_exclusive_example :
    AllLost "d1" (outcomes memory_redis rivals (try_reserve memory_redis "d1" "r1" 30 5 []).1)
reservation_exclusive_example =
    reservation_exclusive memory_redis "d1" "r1" 30 5 [] rivals won_when_free
      (omega arith, omega arith, (omega arith, omega arith, (omega arith, omega arith, tt)))

abbrev at_rank : String → ℕ → NearbyDriver ℕ
at_rank id km = record { driver_id = id; lat = 17; lng = 78; distance_km = km }

abbrev heartbeats : Keys
heartbeats = ("driver:d2:state", "AVAILABLE", 500) ∷ []

abbrev found : List (NearbyDriver ℕ)
found = at_rank "d1" 1 ∷ at_rank "d2" 2 ∷ []

only_live : (find_nearby memory_redis found 100 heartbeats).live ≡ at_rank "d2" 2 ∷ []
unfolding find_nearby has_heartbeat get
only_live = refl

duplicate_seen :
    was_processed memory_redis "dispatch-service" "e1" 99
      (mark_processed memory_redis "dispatch-service" "e1" 7 [])
    ≡ true
unfolding was_processed mark_processed get put
duplicate_seen = refl
