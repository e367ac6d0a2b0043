-- ===== src/DispatchService/Reserving.antt =====
-- What a dispatch of one ride may do, and that each of its steps does.
use ryd_trip.Prelude.{
  Bool-cases, ℕ, ◌+◌, ◌*◌, ◌≤◌, ◌<◌, String, ◌≡◌, refl, ◌∙◌, ap, ◌⊎◌, inl, inr, true, false, some,
  List, [], ◌∷◌, arith,
}
use ryd_trip.Exec.{ok, err}
use ryd_trip.EventSchema.{no_drivers_available}
use ryd_trip.CircuitBreaker.{execute, settle}
use ryd_trip.RedisClient.{get_reservation}
use ryd_trip.RedisClient.Positions.{NearbyDriver}
use ryd_trip.RedisClient.Reservations.{won_Held}
use ryd_trip.DispatchService.{
  Outside, Settings, World, Published, driver_reserved, driver_rejected, RideOutcome, matched,
  no_driver_available, DispatchError, not_published, Command, with_redis_breaker, reserve,
  sync_driver_status_best_effort, publish_outcome, match_with, reject, Dispatched,
}

module _ {N : Type 0} (out : Outside N) (settings : Settings) where
  abbrev pub OneOf : String → List (NearbyDriver N) → Type 0
  OneOf d [] = ⊥
  OneOf d (c ∷ cs) = (c.driver_id ≡ d) ⊎ OneOf d cs

  -- The ride holds the driver, from the moment of its reservation for the time to live.
  pub record Holds (d ride_id : String) (w : World out) : Type 0 where
    pub at : ℕ
    pub held :
        (u : ℕ)
        → at ≤ u
        → u < at + 1000 * settings.reservation_ttl_seconds
        → get_reservation out.redis d u w.store.keys ≡ some ride_id

  -- A dispatch throws and publishes nothing; or publishes that one driver is reserved, which the
  -- ride then holds; or publishes that there is none.
  pub data Outcome (cs : List (NearbyDriver N)) (ride_id corr : String) (w : World out)
      (res : Dispatched out settings) : Type 0 where
    threw :
        (e : DispatchError)
        → res.0 ≡ err e
        → res.1.published ≡ w.published
        → Outcome cs ride_id corr w res
    matched_with :
        (d : String)
        → OneOf d cs
        → res.0 ≡ ok tt
        → res.1.published ≡ driver_reserved ride_id d corr ∷ w.published
        → Holds d ride_id res.1
        → Outcome cs ride_id corr w res
    none_left :
        res.0 ≡ ok tt
        → res.1.published ≡ driver_rejected ride_id no_drivers_available corr ∷ w.published
        → Outcome cs ride_id corr w res

  pub breaker_publishes_nothing :
      {A : Type 0} (c : Command out settings A) (w : World out)
      → (with_redis_breaker out settings c w).1.published ≡ w.published
  unfolding with_redis_breaker
  breaker_publishes_nothing c w = refl

  -- A call through the breaker that returns ran its command, at the second reading of the clock.
  pub breaker_ran :
      {A : Type 0} (c : Command out settings A) (w : World out) (a : A)
      → (with_redis_breaker out settings c w).0 ≡ ok a
      → ((c (out.clock (w.readings + 1)) w.store).0 ≡ a)
        × ((with_redis_breaker out settings c w).1.store
            ≡ (c (out.clock (w.readings + 1)) w.store).1)
  unfolding with_redis_breaker execute settle
  breaker_ran c w a h = ground arith

  pub reserve-Holds :
      (d ride_id : String) (w : World out)
      → (with_redis_breaker out settings (reserve out settings d ride_id) w).0 ≡ ok true
      → Holds d ride_id (with_redis_breaker out settings (reserve out settings d ride_id) w).1
  unfolding reserve
  reserve-Holds d ride_id w h =
      let now = out.clock (w.readings + 1) in
      let ttl = settings.reservation_ttl_seconds in
      let (won, kept) = breaker_ran (reserve out settings d ride_id) w true h in
      record {
        at = now;
        held = λ u lo hi.
            ap (λ s. get_reservation out.redis d u s.keys) kept
            ∙ won_Held out.redis d ride_id ttl now w.store.keys won u lo hi;
      }

  pub with_candidate :
      (c : NearbyDriver N) (cs : List (NearbyDriver N))
      → (ride_id corr : String) (w : World out) (res : Dispatched out settings)
      → Outcome cs ride_id corr w res
      → Outcome (c ∷ cs) ride_id corr w res
  with_candidate c cs ride_id corr w res (threw e h p) = threw e h p
  with_candidate c cs ride_id corr w res (matched_with d one h p held) =
      matched_with d (inr one) h p held
  with_candidate c cs ride_id corr w res (none_left h p) = none_left h p

  pub from_same :
      (cs : List (NearbyDriver N)) (ride_id corr : String) (w w' : World out)
      (res : Dispatched out settings)
      → w'.published ≡ w.published
      → Outcome cs ride_id corr w' res
      → Outcome cs ride_id corr w res
  from_same cs ride_id corr w w' res same (threw e h p) = threw e h (p ∙ same)
  from_same cs ride_id corr w w' res same (matched_with d one h p held) =
      matched_with d one h (p ∙ ap (λ l. driver_reserved ride_id d corr ∷ l) same) held
  from_same cs ride_id corr w w' res same (none_left h p) =
      none_left h (p ∙ ap (λ l. driver_rejected ride_id no_drivers_available corr ∷ l) same)

  publish_up :
      (event : Published) (outcome : RideOutcome) (w : World out)
      → out.broker_up (out.clock w.readings) ≡ true
      → let res = publish_outcome out settings event outcome w in
        (res.0 ≡ ok tt) × (res.1.published ≡ event ∷ w.published) × (res.1.store ≡ w.store)
  unfolding publish_outcome
  publish_up event outcome w up = (ground arith, ground arith, ground arith)

  publish_down :
      (event : Published) (outcome : RideOutcome) (w : World out)
      → out.broker_up (out.clock w.readings) ≡ false
      → let res = publish_outcome out settings event outcome w in
        (res.0 ≡ err not_published) × (res.1.published ≡ w.published)
  unfolding publish_outcome
  publish_down event outcome w down = (ground arith, ground arith)

  sync_keeps :
      (d : String) (w : World out)
      → ((sync_driver_status_best_effort out settings d w).published ≡ w.published)
        × ((sync_driver_status_best_effort out settings d w).store ≡ w.store)
  unfolding sync_driver_status_best_effort
  sync_keeps d w = (refl, refl)

  Holds-same :
      (d ride_id : String) (w w' : World out)
      → w'.store ≡ w.store
      → Holds d ride_id w
      → Holds d ride_id w'
  Holds-same d ride_id w w' same h = record {
    at = h.at;
    held = λ u lo hi. ap (λ s. get_reservation out.redis d u s.keys) same ∙ h.held u lo hi;
  }

  pub match_with-Outcome :
      (c : NearbyDriver N) (cs : List (NearbyDriver N)) (ride_id corr : String) (w : World out)
      → Holds c.driver_id ride_id w
      → Outcome (c ∷ cs) ride_id corr w (match_with out settings c.driver_id ride_id corr w)
  unfolding match_with
  match_with-Outcome c cs ride_id corr w holds =
      let d = c.driver_id in
      let synced = sync_driver_status_best_effort out settings d w in
      let (same_events, same_store) = sync_keeps d w in
      let event = driver_reserved ride_id d corr in
      elim (Bool-cases (out.broker_up (out.clock synced.readings))) [
        | inl up ↦
            let (returned, published, store) = publish_up event matched synced up in
            matched_with d (inl refl) returned (published ∙ ap (λ l. event ∷ l) same_events) (
              Holds-same d ride_id w (publish_outcome out settings event matched synced).1
                (store ∙ same_store) holds)
        | inr down ↦
            let (thrown_, published) = publish_down event matched synced down in
            threw not_published thrown_ (published ∙ same_events)
      ]

  pub reject-Outcome :
      (ride_id corr : String) (w : World out)
      → Outcome [] ride_id corr w (reject out settings ride_id corr w)
  unfolding reject
  reject-Outcome ride_id corr w =
      let event = driver_rejected ride_id no_drivers_available corr in
      elim (Bool-cases (out.broker_up (out.clock w.readings))) [
        | inl up ↦
            let (returned, published, store) = publish_up event no_driver_available w up in
            none_left returned published
        | inr down ↦
            let (thrown_, published) = publish_down event no_driver_available w down in
            threw not_published thrown_ published
      ]
