-- ===== src/DispatchService/Tests.antt =====
-- The dispatch of a ride on a Redis in memory.
use ryd_trip.Prelude.{ℕ, ◌+◌, ◌≡◌, refl, [], ◌∷◌, some, none, String, true}
use ryd_trip.Exec.{ok}
use ryd_trip.TripService.RideEventsConsumer.{Payload}
use ryd_trip.EventSchema.{undefined, EventEnvelope, GeoPoint}
use ryd_trip.CircuitBreaker.{new, execute, settle, admit, get_state}
use ryd_trip.RedisClient.{was_processed, has_heartbeat, try_reserve}
use ryd_trip.RedisClient.Memory.{memory_redis, Keys, get, put_new, put}
use ryd_trip.RedisClient.Positions.{NearbyDriver, find_nearby}
use ryd_trip.DispatchService.{
  publish_outcome, ride_requested_payload, Outside, default_settings, World, driver_reserved,
  find_candidates, handle_ride_requested, with_redis_breaker, try_candidates, reserve, match_with,
  sync_driver_status_best_effort, consumer_name,
}
use ryd_trip.DispatchService.Reserving.{Outcome}
use ryd_trip.DispatchService.Matching.{handle_ride_requested-Outcome}

abbrev at_rank : String → ℕ → NearbyDriver ℕ
at_rank id km = record { driver_id = id; lat = 17; lng = 78; distance_km = km }

abbrev out : Outside ℕ
out = record {
  redis = memory_redis;
  clock = λ n. 100 + n;
  redis_up = λ now. true;
  broker_up = λ now. true;
  geosearch = λ p radius limit evicted now. at_rank "d1" 1 ∷ at_rank "d2" 2 ∷ [];
  patch = λ id status now. ok tt;
}

abbrev keys : Keys
keys =
    ("driver:d1:state", "AVAILABLE", 60000)
    ∷ ("driver:d2:state", "AVAILABLE", 60000)
    ∷ ("driver:d1:reservation", "r0", 30000)
    ∷ ("processed:dispatch-service:e0", "1", 90000)
    ∷ []

abbrev world : World out
world = record {
  store = record { keys = keys; evicted = [] };
  redis_breaker = new none none;
  driver_service_breaker = new none none;
  readings = 0;
  syncs = [];
  published = [];
  rides_processed = [];
}

abbrev pickup : GeoPoint ℕ
pickup = record { lat = 17; lng = 78 }

-- The nearest driver is taken, so the second one is reserved.
second_driver :
    (handle_ride_requested out default_settings "r1" pickup "c1" world).1.published
    ≡ driver_reserved "r1" "d2" "c1" ∷ []
unfolding handle_ride_requested with_redis_breaker execute settle admit get_state new
    find_candidates find_nearby has_heartbeat get try_candidates reserve try_reserve put_new put
    match_with sync_driver_status_best_effort publish_outcome
second_driver = refl

handle_ride_requested-Outcome_example :
    Outcome out default_settings
      (find_candidates out default_settings pickup 101 world.store).0
      "r1"
      "c1"
      world
      (handle_ride_requested out default_settings "r1" pickup "c1" world)
handle_ride_requested-Outcome_example =
    handle_ride_requested-Outcome out default_settings "r1" pickup "c1" world

seen_before : was_processed memory_redis consumer_name "e0" 100 keys ≡ true
unfolding was_processed get
seen_before = refl

abbrev envelope : EventEnvelope (Payload ℕ)
envelope = record {
  event_id = "e0";
  event_type = "ride.requested";
  version = 1;
  timestamp = 5;
  correlation_id = "c1";
  producer = "rider-service";
  payload = some (record {
    ride_id = some "r1";
    rider_id = some "u1";
    driver_id = none;
    pickup = some pickup;
    destination = some pickup;
    reason = undefined;
  });
}

is_request : ride_requested_payload out default_settings envelope.payload ≡ some ("r1", pickup)
unfolding ride_requested_payload
is_request = refl
