-- ===== src/LocationService.antt =====
-- services/location-service/src/locations/locations.service.ts.
-- The Redis server is a parameter, and so is whether the broker takes a message at a moment.
pub mod Laws
mod Tests
use ryd_trip.Prelude.{ℕ, String, Bool, some, none, Option, List, [], ◌∷◌, ◌++◌}
use ryd_trip.Exec.{Result, ok, err}
use ryd_trip.EventSchema.{EventEnvelope, GeoPoint}
use ryd_trip.EventSchema.KafkaTopics
use ryd_trip.EventSchema.EventPublisher.{EventPublisher, PublishError, publish}
use ryd_trip.RedisClient.{Redis}
use ryd_trip.RedisClient.Online.{DriverLocation, upsert_location, find_any_online, Online}
use ryd_trip.RedisClient.Positions.{NearbyDriver, find_nearby}

abbrev pub default_heartbeat_ttl_seconds : ℕ
default_heartbeat_ttl_seconds = 30

-- What Redis holds, and the publisher of driver.location.updated.
pub record World (N : Type 0) (redis : Redis) : Type 0 where
  pub keys : redis.State
  pub added : List (DriverLocation N)
  pub evicted : List String
  pub publisher : EventPublisher (DriverLocation N)

abbrev pub answered :
    {N : Type 0}
    → Result PublishError (EventEnvelope (DriverLocation N))
    → Result PublishError (Unit {0})
answered (ok e) = ok tt
answered (err e) = err e

module _ {N : Type 0} (redis : Redis) (random_uuid : ℕ → String) (broker_up : ℕ → Bool)
    (heartbeat_ttl_seconds : ℕ) where
  unfoldable pub update_location :
      DriverLocation N → String → World N redis → Result PublishError (Unit {0}) × World N redis
  update_location d correlation_id w =
      let (keys, added) =
        upsert_location redis d heartbeat_ttl_seconds w.publisher.now (w.keys, w.added) in
      let (r, publisher) =
        publish "location-service" random_uuid broker_up KafkaTopics.driver_location_updated
          KafkaTopics.driver_location_updated d
          (record { correlation_id = some correlation_id; key = some d.driver_id }) w.publisher in
      (answered r, record w { keys = keys; added = added; publisher = publisher })

-- The searches also evict the ids whose heartbeat is over; what the index answers is an argument.
module _ {N : Type 0} (redis : Redis) where
  unfoldable pub search_nearby :
      List (NearbyDriver N) → ℕ → World N redis → List (NearbyDriver N) × World N redis
  search_nearby raw now w =
      let found = find_nearby redis raw now w.keys in
      (found.live, record w { evicted = found.stale_driver_ids ++ w.evicted })

  unfoldable pub search_any_online :
      List (String × Option (N × N)) → ℕ → World N redis → List (DriverLocation N) × World N redis
  search_any_online raw now w =
      let found = find_any_online redis raw now w.keys in
      (found.live, record w { evicted = found.stale_driver_ids ++ w.evicted })
