-- ===== src/RedisClient.antt =====
-- libraries/redis-client/src: driver reservations, the ledger of processed events, and the index of
-- drivers' positions, over an interface for what the code relies on of a Redis server.
pub mod Memory
pub mod Reservations
pub mod Positions
pub mod Online
mod Tests
use ryd_trip.Prelude.{
  ℕ, ◌+◌, ◌*◌, ◌≤◌, ◌<◌, String, Bool, true, false, ◌≡◌, ◌⊎◌, Option, none, some, List, [], ◌∷◌,
  str_append,
}

-- Keys with a time to live. Times are milliseconds, and a command runs at one moment; `get` at a
-- moment does not see a key that has expired by then.
pub record Redis : Type 1 where
  pub State : Type 0
  pub get : State → ℕ → String → Option String
  -- SET key value EX ttl NX: `none` is the null reply.
  pub set_nx : State → ℕ → String → String → ℕ → Option State
  -- SET key value EX ttl.
  pub set_ex : State → ℕ → String → String → ℕ → State
  pub del : State → String → State
  pub set_nx_free :
      (t : State) (now : ℕ) (k v : String) (ttl : ℕ)
      → get t now k ≡ none
      → (t' : State) × (set_nx t now k v ttl ≡ some t')
  pub set_nx_taken :
      (t : State) (now : ℕ) (k v w : String) (ttl : ℕ)
      → get t now k ≡ some w
      → set_nx t now k v ttl ≡ none
  pub set_nx_holds :
      (t t' : State) (now : ℕ) (k v : String) (ttl u : ℕ)
      → set_nx t now k v ttl ≡ some t'
      → now ≤ u
      → u < now + 1000 * ttl
      → get t' u k ≡ some v
  pub set_nx_frame :
      (t t' : State) (now : ℕ) (k v : String) (ttl : ℕ) (j : String) (u : ℕ)
      → set_nx t now k v ttl ≡ some t'
      → (k ≡ j) ⊎ (get t' u j ≡ get t u j)
  pub set_ex_holds :
      (t : State) (now : ℕ) (k v : String) (ttl u : ℕ)
      → now ≤ u
      → u < now + 1000 * ttl
      → get (set_ex t now k v ttl) u k ≡ some v
  pub del_gone : (t : State) (k : String) (u : ℕ) → get (del t k) u k ≡ none

-- driver-reservation-store.ts
abbrev pub reservation_key : String → String
reservation_key driver_id = str_append "driver:" (str_append driver_id ":reservation")

-- idempotency-store.ts
abbrev pub processed_key : String → String → String
processed_key consumer event_id =
    str_append "processed:" (str_append consumer (str_append ":" event_id))

-- driver-geo-index.ts
abbrev pub state_key : String → String
state_key driver_id = str_append "driver:" (str_append driver_id ":state")

abbrev pub ledger_ttl : ℕ
ledger_ttl = 24 * 60 * 60

module _ (redis : Redis) where
  abbrev reply : redis.State → Option redis.State → Bool × redis.State
  reply t none = (false, t)
  reply t (some t') = (true, t')

  unfoldable pub try_reserve : String → String → ℕ → ℕ → redis.State → Bool × redis.State
  try_reserve driver_id ride_id ttl now t =
      reply t (redis.set_nx t now (reservation_key driver_id) ride_id ttl)

  unfoldable pub get_reservation : String → ℕ → redis.State → Option String
  get_reservation driver_id now t = redis.get t now (reservation_key driver_id)

  unfoldable pub release : String → redis.State → redis.State
  release driver_id t = redis.del t (reservation_key driver_id)

  abbrev is_there : Option String → Bool
  is_there none = false
  is_there (some v) = true

  unfoldable pub was_processed : String → String → ℕ → redis.State → Bool
  was_processed consumer event_id now t =
      is_there (redis.get t now (processed_key consumer event_id))

  unfoldable pub mark_processed : String → String → ℕ → redis.State → redis.State
  mark_processed consumer event_id now t =
      redis.set_ex t now (processed_key consumer event_id) "1" ledger_ttl

  -- EXISTS of a heartbeat.
  unfoldable pub has_heartbeat : String → ℕ → redis.State → Bool
  has_heartbeat driver_id now t = is_there (redis.get t now (state_key driver_id))
