-- ===== src/RedisClient/Reservations.antt =====
-- A reservation is exclusive for as long as it lasts.
use ryd_trip.Prelude.{
  ℕ, ◌+◌, ◌*◌, ◌≤◌, ◌<◌, String, Bool, true, false, ◌≡◌, inl, inr, none, some, List, [], ◌∷◌, arith,
  Option-cases,
}
use ryd_trip.RedisClient.{Redis, reservation_key, try_reserve, get_reservation, release}

-- A call of `tryReserve` by some dispatcher, with the moment at which it runs.
pub record Attempt : Type 0 where
  pub driver_id : String
  pub ride_id : String
  pub ttl : ℕ
  pub at : ℕ

-- Moments that do not decrease and lie before an end.
abbrev pub RunsUntil : ℕ → ℕ → List Attempt → Type 0
RunsUntil start end [] = Unit {0}
RunsUntil start end (a ∷ as_) = (start ≤ a.at) × (a.at < end) × RunsUntil a.at end as_

-- No attempt on the driver is won.
abbrev pub AllLost : String → List (Attempt × Bool) → Type 0
AllLost driver [] = Unit {0}
AllLost driver ((a, won) ∷ rest) = (a.driver_id ≡ driver → won ≡ false) × AllLost driver rest

module _ (redis : Redis) where
  -- What each attempt of a series returns, the commands running one after the other.
  pub outcomes : List Attempt → redis.State → List (Attempt × Bool)
  outcomes [] t = []
  outcomes (a ∷ as_) t =
      (a, (try_reserve redis a.driver_id a.ride_id a.ttl a.at t).0)
      ∷ outcomes as_ (try_reserve redis a.driver_id a.ride_id a.ttl a.at t).1

  -- The driver is held by some ride from a moment until an end.
  abbrev Held : String → ℕ → ℕ → redis.State → Type 0
  Held driver start end t =
      (u : ℕ)
      → start ≤ u
      → u < end
      → (ride : String) × (get_reservation redis driver u t ≡ some ride)

  attempt_lost :
      (driver : String) (a : Attempt) (end : ℕ) (t : redis.State)
      → Held driver a.at end t
      → a.at < end
      → a.driver_id ≡ driver
      → (try_reserve redis a.driver_id a.ride_id a.ttl a.at t).0 ≡ false
  unfolding try_reserve get_reservation
  attempt_lost driver a end t h b e =
      let (ride, g) = h a.at (omega arith) b in
      let there : redis.get t a.at (reservation_key a.driver_id) ≡ some ride = rw e g in
      ground
        (arith, redis.set_nx_taken t a.at (reservation_key a.driver_id) a.ride_id ride a.ttl there)

  attempt_Held :
      (driver : String) (a : Attempt) (end : ℕ) (t : redis.State)
      → Held driver a.at end t
      → a.at < end
      → Held driver a.at end (try_reserve redis a.driver_id a.ride_id a.ttl a.at t).1
  unfolding try_reserve get_reservation
  attempt_Held driver a end t h b u lo hi =
      let key = reservation_key a.driver_id in
      let (ride, g) = h u lo hi in
      elim (Option-cases (redis.set_nx t a.at key a.ride_id a.ttl)) [
        | inl n ↦ (ride, ground arith)
        | inr (t', s) ↦
            elim (redis.set_nx_frame t t' a.at key a.ride_id a.ttl (reservation_key driver) u s) [
              | inl e ↦
                  let (ride', g') = h a.at (omega arith) b in
                  let there : redis.get t a.at key ≡ some ride' = rw e g' in
                  absurd (cc (redis.set_nx_taken t a.at key a.ride_id ride' a.ttl there))
              | inr f ↦ (ride, ground arith)
            ]
      ]

  outcomes-AllLost :
      (driver : String) (as_ : List Attempt) (start end : ℕ) (t : redis.State)
      → Held driver start end t
      → RunsUntil start end as_
      → AllLost driver (outcomes as_ t)
  unfolding outcomes
  outcomes-AllLost driver [] start end t h r = tt
  outcomes-AllLost driver (a ∷ as_) start end t h r =
      let now_on : Held driver a.at end t = λ u lo hi. h u (omega (arith, r.0)) hi in
      (
        attempt_lost driver a end t now_on r.1,
        outcomes-AllLost driver as_ a.at end
            (try_reserve redis a.driver_id a.ride_id a.ttl a.at t).1
            (attempt_Held driver a end t now_on r.1) r.2,
      )

  pub won_Held :
      (driver ride : String) (ttl now : ℕ) (t : redis.State)
      → (try_reserve redis driver ride ttl now t).0 ≡ true
      → (u : ℕ) → now ≤ u
      → u < now + 1000 * ttl
      → get_reservation redis driver u (try_reserve redis driver ride ttl now t).1 ≡ some ride
  unfolding try_reserve get_reservation
  won_Held driver ride ttl now t won u lo hi =
      elim (Option-cases (redis.set_nx t now (reservation_key driver) ride ttl)) [
        | inl n ↦ absurd (ground arith)
        | inr (t', s) ↦
            ground (arith, redis.set_nx_holds t t' now (reservation_key driver) ride ttl u s lo hi)
      ]

  -- However many dispatchers compete: once a reservation of a driver is won, no attempt on that
  -- driver is won until its time to live is over, whatever other attempts run in between, in any
  -- order.
  pub reservation_exclusive :
      (driver ride : String) (ttl now : ℕ) (t : redis.State) (as_ : List Attempt)
      → (try_reserve redis driver ride ttl now t).0 ≡ true
      → RunsUntil now (now + 1000 * ttl) as_
      → AllLost driver (outcomes as_ (try_reserve redis driver ride ttl now t).1)
  reservation_exclusive driver ride ttl now t as_ won r =
      outcomes-AllLost driver as_ now (now + 1000 * ttl) (try_reserve redis driver ride ttl now t).1
        (λ u lo hi. (ride, won_Held driver ride ttl now t won u lo hi)) r

  -- A reservation that is won is seen by everybody until its time to live is over, and not after it
  -- is released.
  pub reservation_seen :
      (driver ride : String) (ttl now u : ℕ) (t : redis.State)
      → (try_reserve redis driver ride ttl now t).0 ≡ true
      → now ≤ u
      → u < now + 1000 * ttl
      → (get_reservation redis driver u (try_reserve redis driver ride ttl now t).1 ≡ some ride)
        × (get_reservation redis driver u
              (release redis driver (try_reserve redis driver ride ttl now t).1)
            ≡ none)
  unfolding get_reservation release
  reservation_seen driver ride ttl now u t won lo hi =
      (won_Held driver ride ttl now t won u lo hi, redis.del_gone _ (reservation_key driver) u)
