-- ===== src/DispatchService.antt =====
-- services/dispatch-service/src/dispatch/dispatch.service.ts and ride-requested.consumer.ts.
-- Redis, the clock, the search for candidates and the answers of the Driver Service are parameters.
-- A Redis command may fail, and so may the publishing of an event.
pub mod Reserving
pub mod Matching
mod Tests
use ryd_trip.Prelude.{
  ℕ, zero, suc, ◌+◌, String, Bool, true, false, Option, none, some, List, [], ◌∷◌, ◌++◌,
  if◌then◌else◌,
}
use ryd_trip.Exec.{Result, ok, err, continue}
use ryd_trip.EventSchema.{
  EventEnvelope, GeoPoint, CancellationReason, no_drivers_available, DriverStatus, reserved,
}
use ryd_trip.CircuitBreaker.{CircuitBreaker, Failure, thrown, execute}
use ryd_trip.RedisClient.{Redis, try_reserve, was_processed, mark_processed}
use ryd_trip.TripService.RideEventsConsumer.{Payload}
use ryd_trip.RedisClient.Positions.{NearbyDriver, find_nearby}

pub data RedisError : Type 0 where
  redis_down : RedisError

-- What a dispatch throws: what its breaker throws, a command outside of it that fails, an event that
-- could not be published, or a payload that is not a request.
pub data DispatchError : Type 0 where
  from_breaker : Failure RedisError → DispatchError
  redis_unanswered not_published malformed_payload : DispatchError

pub data DriverServiceError : Type 0 where
  not_ok unreachable : DriverServiceError

pub record Outside (N : Type 0) : Type 1 where
  pub redis : Redis
  -- The n-th reading of the clock.
  pub clock : ℕ → ℕ
  -- Whether Redis answers at a moment.
  pub redis_up : ℕ → Bool
  -- Whether the broker takes a message at a moment.
  pub broker_up : ℕ → Bool
  -- GEOSEARCH around a point, with a radius and a limit, once some ids were removed.
  pub geosearch : GeoPoint N → ℕ → ℕ → List String → ℕ → List (NearbyDriver N)
  -- The answer of the Driver Service to a status update at a moment.
  pub patch : String → DriverStatus → ℕ → Result DriverServiceError (Unit {0})

pub record Settings : Type 0 where
  pub search_radius_km : ℕ
  pub candidate_limit : ℕ
  pub reservation_ttl_seconds : ℕ

abbrev pub default_settings : Settings
default_settings = record {
  search_radius_km = 5;
  candidate_limit = 5;
  reservation_ttl_seconds = 30;
}

pub data Published : Type 0 where
  driver_reserved : String → String → String → Published
  driver_rejected : String → CancellationReason → String → Published

pub data RideOutcome : Type 0 where
  matched no_driver_available : RideOutcome

-- What Redis holds: its keys, and the ids removed from the index of positions.
pub record Store {N : Type 0} (out : Outside N) : Type 0 where
  pub keys : out.redis.State
  pub evicted : List String

pub record World {N : Type 0} (out : Outside N) : Type 0 where
  pub store : Store out
  pub redis_breaker : CircuitBreaker
  pub driver_service_breaker : CircuitBreaker
  pub readings : ℕ
  pub syncs : List (String × DriverStatus)
  pub published : List Published
  pub rides_processed : List RideOutcome

abbrev with_pickup :
    {N : Type 0} → Option String → Option (GeoPoint N) → Option (String × GeoPoint N)
with_pickup (some id) (some p) = some (id, p)
with_pickup _ _ = none

abbrev pub consumer_name : String
consumer_name = "dispatch-service"

module _ {N : Type 0} (out : Outside N) (settings : Settings) where
  -- A command at a moment, which Redis may not answer.
  abbrev pub Command : Type 0 → Type 0
  Command A = ℕ → Store out → A × Store out

  abbrev answered : {A : Type 0} → A × Store out → Result RedisError A × Store out
  answered (a, s) = (ok a, s)

  abbrev run_command : {A : Type 0} → Command A → ℕ → Store out → Result RedisError A × Store out
  run_command c now s = if out.redis_up now then answered (c now s) else (err redis_down, s)

  -- `this.redisBreaker.execute(...)`: the clock is read before, during and after the command.
  unfoldable pub with_redis_breaker :
      {A : Type 0} → Command A → World out → Result (Failure RedisError) A × World out
  with_redis_breaker c w =
      let (r, breaker, store) =
        execute w.redis_breaker (out.clock w.readings) (out.clock (w.readings + 2))
          (run_command c (out.clock (w.readings + 1))) w.store in
      (r, record w { redis_breaker = breaker; store = store; readings = w.readings + 3 })

  unfoldable pub find_candidates : GeoPoint N → Command (List (NearbyDriver N))
  find_candidates pickup now s =
      let raw =
        out.geosearch pickup settings.search_radius_km settings.candidate_limit s.evicted now in
      let found = find_nearby out.redis raw now s.keys in
      (found.live, record s { evicted = found.stale_driver_ids ++ s.evicted })

  unfoldable pub reserve : String → String → Command Bool
  reserve driver_id ride_id now s =
      let (won, keys) =
        try_reserve out.redis driver_id ride_id settings.reservation_ttl_seconds now s.keys in
      (won, record s { keys = keys })

  -- The PATCH goes through its breaker; whatever it throws is caught.
  unfoldable pub sync_driver_status_best_effort : String → World out → World out
  sync_driver_status_best_effort driver_id w =
      let (r, breaker, syncs) =
        execute w.driver_service_breaker (out.clock w.readings) (out.clock (w.readings + 2))
          (λ s.
            (out.patch driver_id reserved (out.clock (w.readings + 1)), (driver_id, reserved) ∷ s))
          w.syncs in
      record w { driver_service_breaker = breaker; syncs = syncs; readings = w.readings + 3 }

  abbrev pub Dispatched : Type 0
  Dispatched = Result DispatchError (Unit {0}) × World out

  -- The publishing of an event, and the counter that is increased after it.
  unfoldable pub publish_outcome : Published → RideOutcome → World out → Dispatched
  publish_outcome event outcome w =
      let read : World out = record w { readings = w.readings + 1 } in
      if out.broker_up (out.clock w.readings)
      then (
        ok tt,
        record read {
          published = event ∷ w.published;
          rides_processed = outcome ∷ w.rides_processed;
        },
      )
      else (err not_published, read)

  unfoldable pub match_with : String → String → String → World out → Dispatched
  match_with driver_id ride_id correlation_id w =
      publish_outcome (driver_reserved ride_id driver_id correlation_id) matched
        (sync_driver_status_best_effort driver_id w)

  unfoldable pub reject : String → String → World out → Dispatched
  reject ride_id correlation_id w =
      publish_outcome (driver_rejected ride_id no_drivers_available correlation_id)
        no_driver_available w

  -- The loop over the candidates, and what follows it.
  unfoldable pub try_candidates : List (NearbyDriver N) → String → String → World out → Dispatched
  try_candidates [] ride_id correlation_id w = reject ride_id correlation_id w
  try_candidates (c ∷ candidates) ride_id correlation_id w =
      let after = (with_redis_breaker (reserve c.driver_id ride_id) w).1 in
      elim (with_redis_breaker (reserve c.driver_id ride_id) w).0 [
        | err e ↦ (err (from_breaker e), after)
        | ok true ↦ match_with c.driver_id ride_id correlation_id after
        | ok false ↦ try_candidates candidates ride_id correlation_id after
      ]

  -- What follows the search.
  abbrev pub searched :
      Result (Failure RedisError) (List (NearbyDriver N)) → String → String → World out → Dispatched
  searched (err e) ride_id correlation_id w = (err (from_breaker e), w)
  searched (ok candidates) ride_id correlation_id w =
      try_candidates candidates ride_id correlation_id w

  unfoldable pub handle_ride_requested : String → GeoPoint N → String → World out → Dispatched
  handle_ride_requested ride_id pickup correlation_id w =
      let (r, w') = with_redis_breaker (find_candidates pickup) w in
      searched r ride_id correlation_id w'

  -- `markProcessed`, outside the breaker.
  unfoldable pub mark : String → World out → Dispatched
  mark event_id w =
      let now = out.clock w.readings in
      let read : World out = record w { readings = w.readings + 1 } in
      if out.redis_up now
      then (
        ok tt,
        record read {
          store = record w.store {
            keys = mark_processed out.redis consumer_name event_id now w.store.keys;
          };
        },
      )
      else (err redis_unanswered, read)

  -- `isRideRequestedPayload`, with what the handler then reads.
  unfoldable pub ride_requested_payload : Payload N → Option (String × GeoPoint N)
  ride_requested_payload none = none
  ride_requested_payload (some p) = with_pickup p.ride_id p.pickup

  -- `wasProcessed` is outside the breaker.
  unfoldable pub dispatch_once : String → String → GeoPoint N → String → World out → Dispatched
  dispatch_once event_id ride_id pickup correlation_id w =
      let now = out.clock w.readings in
      let read : World out = record w { readings = w.readings + 1 } in
      if out.redis_up now
      then if was_processed out.redis consumer_name event_id now w.store.keys
        then (ok tt, read)
        else (let (r, w') = handle_ride_requested ride_id pickup correlation_id read in
            continue r (λ u. mark event_id) w')
      else (err redis_unanswered, read)

  -- The consumer's handler.
  unfoldable pub handle_event : EventEnvelope (Payload N) → World out → Dispatched
  handle_event envelope w = elim (ride_requested_payload envelope.payload) [
    | none ↦ (err malformed_payload, w)
    | some (ride_id, pickup) ↦
        dispatch_once envelope.event_id ride_id pickup envelope.correlation_id w
  ]
