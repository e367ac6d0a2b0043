-- ===== src/RedisClient/Online.antt =====
-- libraries/redis-client/src/driver-geo-index.ts: `upsertLocation` and `findAnyOnline`. What ZRANGE and
-- GEOPOS answer is an argument. The hash of a driver's state is a key with a time to live, whose text
-- stands for its fields; GEOADD is the list of the positions that were added.
use ryd_trip.Prelude.{
  ℕ, ◌+◌, ◌*◌, ◌≤◌, ◌<◌, String, Bool, true, false, Option, none, some, List, [], ◌∷◌, ◌≡◌, refl,
  arith,
}
use ryd_trip.RedisClient.{Redis, state_key, has_heartbeat}

pub record DriverLocation (N : Type 0) : Type 0 where
  pub driver_id : String
  pub lat : N
  pub lng : N

pub record Online (N : Type 0) : Type 0 where
  pub live : List (DriverLocation N)
  pub stale_driver_ids : List String

-- Two cases of one member: it has no position, or it has one.
abbrev sort_member : {N : Type 0} → String → Option (N × N) → Bool → Online N → Online N
sort_member id (some (lng, lat)) true rest = record rest {
  live = (record { driver_id = id; lat = lat; lng = lng }) ∷ rest.live;
}
sort_member id (some p) false rest = record rest { stale_driver_ids = id ∷ rest.stale_driver_ids }
sort_member id none b rest = record rest { stale_driver_ids = id ∷ rest.stale_driver_ids }

module _ {N : Type 0} (redis : Redis) where
  -- Each member comes with its position, a longitude and a latitude, if it has one.
  unfoldable pub find_any_online : List (String × Option (N × N)) → ℕ → redis.State → Online N
  find_any_online [] now t = record { live = []; stale_driver_ids = [] }
  find_any_online ((id, position) ∷ raw) now t =
      sort_member id position (has_heartbeat redis id now t) (find_any_online raw now t)

  -- The heartbeat, and the position that is added to the index.
  unfoldable pub upsert_location :
      DriverLocation N
      → ℕ
      → ℕ
      → redis.State × List (DriverLocation N)
      → redis.State × List (DriverLocation N)
  upsert_location d heartbeat_ttl_seconds now (t, added) = (
    redis.set_ex t now (state_key d.driver_id) "lat lng updatedAt" heartbeat_ttl_seconds,
    d ∷ added,
  )

  -- Every driver of a list has a heartbeat.
  abbrev pub AllLive : List (DriverLocation N) → ℕ → redis.State → Type 0
  AllLive [] now t = Unit {0}
  AllLive (d ∷ ds) now t = (has_heartbeat redis d.driver_id now t ≡ true) × AllLive ds now t

  sort_member-AllLive :
      (id : String) (p : Option (N × N)) (b : Bool) (rest : Online N) (now : ℕ) (t : redis.State)
      → has_heartbeat redis id now t ≡ b
      → AllLive rest.live now t
      → AllLive (sort_member id p b rest).live now t
  sort_member-AllLive id (some (lng, lat)) true rest now t e h = (e, h)
  sort_member-AllLive id (some p) false rest now t e h = h
  sort_member-AllLive id none b rest now t e h = h

  -- Every driver that is returned as online has a heartbeat at that moment.
  pub find_any_online-AllLive :
      (raw : List (String × Option (N × N))) (now : ℕ) (t : redis.State)
      → AllLive (find_any_online raw now t).live now t
  unfolding find_any_online
  find_any_online-AllLive [] now t = tt
  find_any_online-AllLive ((id, p) ∷ raw) now t =
      sort_member-AllLive id p (has_heartbeat redis id now t) (find_any_online raw now t) now t refl
        (find_any_online-AllLive raw now t)

  -- After an update of its location a driver is not stale until the heartbeat's time to live is over.
  pub upsert_location_live :
      (d : DriverLocation N) (ttl now u : ℕ) (t : redis.State) (added : List (DriverLocation N))
      → now ≤ u
      → u < now + 1000 * ttl
      → has_heartbeat redis d.driver_id u (upsert_location d ttl now (t, added)).0 ≡ true
  unfolding upsert_location has_heartbeat
  upsert_location_live d ttl now u t added lo hi =
      ground
        (arith, redis.set_ex_holds t now (state_key d.driver_id) "lat lng updatedAt" ttl u lo hi)
