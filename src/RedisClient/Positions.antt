-- ===== src/RedisClient/Positions.antt =====
-- libraries/redis-client/src/driver-geo-index.ts: `findNearby`. What GEOSEARCH answers, nearest
-- first and with the numbers read, is an argument; ZREM is the list of the ids that are removed.
use ryd_trip.Prelude.{
  ℕ, String, true, false, List, [], ◌∷◌, if◌then◌else◌, ◌≡◌, ◌⊎◌, inl, inr, ◌↔◌, subst, arith,
  Bool-cases,
}
use ryd_trip.RedisClient.{Redis, has_heartbeat}

pub record NearbyDriver (N : Type 0) : Type 0 where
  pub driver_id : String
  pub lat : N
  pub lng : N
  pub distance_km : N

pub record Sorted (N : Type 0) : Type 0 where
  pub live : List (NearbyDriver N)
  pub stale_driver_ids : List String

module _ {N : Type 0} (redis : Redis) where
  -- The candidates whose heartbeat is there, in order, and the ids of the others.
  unfoldable pub find_nearby : List (NearbyDriver N) → ℕ → redis.State → Sorted N
  find_nearby [] now t = record { live = []; stale_driver_ids = [] }
  find_nearby (d ∷ raw) now t =
      let rest = find_nearby raw now t in
      if has_heartbeat redis d.driver_id now t
      then record rest { live = d ∷ rest.live }
      else record rest { stale_driver_ids = d.driver_id ∷ rest.stale_driver_ids }

  -- A driver stands in a list of positions; an id in a list of ids.
  abbrev pub Lists : List (NearbyDriver N) → NearbyDriver N → Type 0
  Lists [] d = ⊥
  Lists (x ∷ xs) d = (x ≡ d) ⊎ Lists xs d

  -- A driver is returned exactly if the search found it and its heartbeat is there.
  pub find_nearby_live :
      (raw : List (NearbyDriver N)) (now : ℕ) (t : redis.State) (d : NearbyDriver N)
      → Lists (find_nearby raw now t).live d
        ↔ (Lists raw d × (has_heartbeat redis d.driver_id now t ≡ true))
  unfolding find_nearby
  find_nearby_live [] now t d = (λ h. absurd h, λ h. absurd h.0)
  find_nearby_live (x ∷ raw) now t d =
      let ih = find_nearby_live raw now t d in
      elim (Bool-cases (has_heartbeat redis x.driver_id now t)) [
        | inl e ↦ rw e (
          λ h. elim h [
            | inl p ↦ (
              inl p,
              subst (λ (y : NearbyDriver N). has_heartbeat redis y.driver_id now t ≡ true) p e,
            )
            | inr m ↦ (inr (ih.0 m).0, (ih.0 m).1)
          ],
          λ h. elim h.0 [ inl p ↦ inl p | inr m ↦ inr (ih.1 (m, h.1)) ],
        )
        | inr e ↦ rw e (
          λ h. (inr (ih.0 h).0, (ih.0 h).1),
          λ h. elim h.0 [
            | inl p ↦
                let b =
                  subst (λ (y : NearbyDriver N). has_heartbeat redis y.driver_id now t ≡ false) p
                    e in
                absurd (ground (arith, b, h.1))
            | inr m ↦ ih.1 (m, h.1)
          ],
        )
      ]
