-- ===== src/DispatchService/Matching.antt =====
-- What the dispatch of one ride does.
use ryd_trip.Prelude.{
  ◌+◌, String, ◌≡◌, refl, ◌∙◌, sym, subst, Bool, true, false, some, List, [], ◌∷◌, arith,
}
use ryd_trip.Exec.{Result, ok, err}
use ryd_trip.EventSchema.{EventEnvelope, GeoPoint}
use ryd_trip.CircuitBreaker.{Failure}
use ryd_trip.RedisClient.{was_processed}
use ryd_trip.RedisClient.Positions.{NearbyDriver}
use ryd_trip.DispatchService.{
  Outside, Settings, World, RedisError, from_breaker, with_redis_breaker, find_candidates, reserve,
  match_with, Dispatched, try_candidates, searched, handle_ride_requested, ride_requested_payload,
  dispatch_once, handle_event, consumer_name,
}
use ryd_trip.TripService.RideEventsConsumer.{Payload}
use ryd_trip.DispatchService.Reserving.{
  Outcome, threw, Holds, breaker_publishes_nothing, breaker_ran, reserve-Holds, with_candidate,
  from_same, match_with-Outcome, reject-Outcome,
}

module _ {N : Type 0} (out : Outside N) (settings : Settings) where
  -- What follows the answer to one reservation.
  unfoldable after_answer :
      Result (Failure RedisError) Bool
      → World out
      → Dispatched out settings
      → String
      → String
      → String
      → Dispatched out settings
  after_answer (err e) w rest d ride_id corr = (err (from_breaker e), w)
  after_answer (ok true) w rest d ride_id corr = match_with out settings d ride_id corr w
  after_answer (ok false) w rest d ride_id corr = rest

  after_answer-Outcome :
      (r : Result (Failure RedisError) Bool) (c : NearbyDriver N) (cs : List (NearbyDriver N))
      (ride_id corr : String) (w w' : World out) (rest : Dispatched out settings)
      → w'.published ≡ w.published
      → (r ≡ ok true → Holds out settings c.driver_id ride_id w')
      → Outcome out settings cs ride_id corr w' rest
      → Outcome out settings
          (c ∷ cs)
          ride_id
          corr
          w
          (after_answer r w' rest c.driver_id ride_id corr)
  unfolding after_answer
  after_answer-Outcome (err e) c cs ride_id corr w w' rest same holds ih =
      threw (from_breaker e) refl same
  after_answer-Outcome (ok true) c cs ride_id corr w w' rest same holds ih =
      from_same out settings (c ∷ cs) ride_id corr w w'
        (match_with out settings c.driver_id ride_id corr w') same
        (match_with-Outcome out settings c cs ride_id corr w' (holds refl))
  after_answer-Outcome (ok false) c cs ride_id corr w w' rest same holds ih =
      from_same out settings (c ∷ cs) ride_id corr w w' rest same
        (with_candidate out settings c cs ride_id corr w' rest ih)

  try_candidates_cons :
      (c : NearbyDriver N) (cs : List (NearbyDriver N)) (ride_id corr : String) (w : World out)
      → let call = with_redis_breaker out settings (reserve out settings c.driver_id ride_id) w in
        try_candidates out settings (c ∷ cs) ride_id corr w
        ≡ after_answer call.0 call.1
            (try_candidates out settings cs ride_id corr call.1)
            c.driver_id
            ride_id
            corr
  unfolding try_candidates after_answer
  try_candidates_cons c cs ride_id corr w = ground arith

  try_candidates-Outcome :
      (cs : List (NearbyDriver N)) (ride_id corr : String) (w : World out)
      → Outcome out settings cs ride_id corr w (try_candidates out settings cs ride_id corr w)
  unfolding try_candidates
  try_candidates-Outcome [] ride_id corr w = reject-Outcome out settings ride_id corr w
  try_candidates-Outcome (c ∷ cs) ride_id corr w =
      let call = with_redis_breaker out settings (reserve out settings c.driver_id ride_id) w in
      let same =
        breaker_publishes_nothing out settings (reserve out settings c.driver_id ride_id) w in
      subst (Outcome out settings (c ∷ cs) ride_id corr w)
        (sym (try_candidates_cons c cs ride_id corr w))
        (after_answer-Outcome call.0 c cs ride_id corr w call.1
          (try_candidates out settings cs ride_id corr call.1) same
          (reserve-Holds out settings c.driver_id ride_id w)
          (try_candidates-Outcome cs ride_id corr call.1))

  after_search-Outcome :
      (r : Result (Failure RedisError) (List (NearbyDriver N))) (cs : List (NearbyDriver N))
      (ride_id corr : String) (w w' : World out)
      → w'.published ≡ w.published
      → ((a : List (NearbyDriver N)) → r ≡ ok a → cs ≡ a)
      → Outcome out settings cs ride_id corr w (searched out settings r ride_id corr w')
  after_search-Outcome (err e) cs ride_id corr w w' same listed = threw (from_breaker e) refl same
  after_search-Outcome (ok a) cs ride_id corr w w' same listed =
      subst
        (λ l. Outcome out settings l ride_id corr w (try_candidates out settings a ride_id corr w'))
        (sym (listed a refl))
        (from_same out settings a ride_id corr w w' (try_candidates out settings a ride_id corr w')
          same (try_candidates-Outcome a ride_id corr w'))

  -- The dispatch of a ride either throws and publishes nothing, or returns and publishes exactly one
  -- event: driver.reserved for one of the live drivers that the search listed, and then reading that
  -- driver's reservation gives this ride for the whole time to live; or driver.rejected with
  -- NO_DRIVERS_AVAILABLE.
  pub handle_ride_requested-Outcome :
      (ride_id : String) (pickup : GeoPoint N) (corr : String) (w : World out)
      → Outcome out settings
          (find_candidates out settings pickup (out.clock (w.readings + 1)) w.store).0
          ride_id
          corr
          w
          (handle_ride_requested out settings ride_id pickup corr w)
  unfolding handle_ride_requested
  handle_ride_requested-Outcome ride_id pickup corr w =
      let c = find_candidates out settings pickup in
      let call = with_redis_breaker out settings c w in
      after_search-Outcome call.0 (c (out.clock (w.readings + 1)) w.store).0 ride_id corr w call.1
        (breaker_publishes_nothing out settings c w) (λ a h. (breaker_ran out settings c w a h).0)

  seen_skipped :
      (event_id ride_id : String) (pickup : GeoPoint N) (corr : String) (w : World out)
      → out.redis_up (out.clock w.readings) ≡ true
      → was_processed out.redis consumer_name event_id (out.clock w.readings) w.store.keys ≡ true
      → dispatch_once out settings event_id ride_id pickup corr w
        ≡ (ok tt, record w { readings = w.readings + 1 })
  unfolding dispatch_once
  seen_skipped event_id ride_id pickup corr w up seen = ground arith

  request_dispatched :
      (envelope : EventEnvelope (Payload N)) (ride_id : String) (pickup : GeoPoint N)
      (w : World out)
      → ride_requested_payload out settings envelope.payload ≡ some (ride_id, pickup)
      → handle_event out settings envelope w
        ≡ dispatch_once out settings envelope.event_id ride_id pickup envelope.correlation_id w
  unfolding handle_event
  request_dispatched envelope ride_id pickup w p = ground arith

  -- A request for a ride whose event is marked as processed when Redis answers is skipped: the handler
  -- returns, and the store, the published events and the status updates are what they were.
  pub redelivery_dispatches_nothing :
      (envelope : EventEnvelope (Payload N)) (ride_id : String) (pickup : GeoPoint N)
      (w : World out)
      → ride_requested_payload out settings envelope.payload ≡ some (ride_id, pickup)
      → out.redis_up (out.clock w.readings) ≡ true
      → was_processed out.redis consumer_name envelope.event_id (out.clock w.readings) w.store.keys
        ≡ true
      → handle_event out settings envelope w ≡ (ok tt, record w { readings = w.readings + 1 })
  redelivery_dispatches_nothing envelope ride_id pickup w p up seen =
      request_dispatched envelope ride_id pickup w p
      ∙ seen_skipped envelope.event_id ride_id pickup envelope.correlation_id w up seen
