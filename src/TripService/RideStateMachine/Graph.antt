-- ===== src/TripService/RideStateMachine/Graph.antt =====
-- The diagram of a ride's life, and what can be reached in it.
use ryd_trip.Prelude.{
  ℕ, ◌+◌, ◌≤◌, ◌<◌, ◌≡◌, ◌≢◌, ◌↔◌, ◌⊎◌, inl, inr, refl, ap, true, arith, List, [], ◌∷◌, length,
}
use ryd_trip.EventSchema.{
  RideStatus, requested, matching, matched, driver_arriving, driver_arrived, in_progress, completed,
  cancelled,
}
use ryd_trip.TripService.RideStateMachine.{can_transition_ride_status}

-- A ride can be cancelled once it is matching and until it starts.
pub data IsCancellable : RideStatus → Type 0 where
  while_matching : IsCancellable matching
  while_matched : IsCancellable matched
  while_arriving : IsCancellable driver_arriving
  while_arrived : IsCancellable driver_arrived

infix 40 ◌⟶◌ ◌⟶*◌
pub data ◌⟶◌ : RideStatus → RideStatus → Type 0 where
  dispatch : requested ⟶ matching
  match_driver : matching ⟶ matched
  accept : matched ⟶ driver_arriving
  arrive : driver_arriving ⟶ driver_arrived
  start : driver_arrived ⟶ in_progress
  complete : in_progress ⟶ completed
  cancel : {s : RideStatus} → IsCancellable s → s ⟶ cancelled

pub data ◌⟶*◌ : RideStatus → RideStatus → Type 0 where
  here : {s : RideStatus} → s ⟶* s
  then : {s t u : RideStatus} → s ⟶ t → t ⟶* u → s ⟶* u

pub ruleset cancellables = (while_matching, while_matched, while_arriving, while_arrived)

pub ruleset edges = (dispatch, match_driver, accept, arrive, start, complete, cancel, cancellables)

allowed→⟶ : (s t : RideStatus) → can_transition_ride_status s t ≡ true → s ⟶ t
unfolding can_transition_ride_status
allowed→⟶ s t h = grind (arith, edges)

cancellable_allowed :
    {s : RideStatus} → IsCancellable s → can_transition_ride_status s cancelled ≡ true
unfolding can_transition_ride_status
cancellable_allowed while_matching = refl
cancellable_allowed while_matched = refl
cancellable_allowed while_arriving = refl
cancellable_allowed while_arrived = refl

⟶→allowed : {s t : RideStatus} → s ⟶ t → can_transition_ride_status s t ≡ true
unfolding can_transition_ride_status
⟶→allowed dispatch = refl
⟶→allowed match_driver = refl
⟶→allowed accept = refl
⟶→allowed arrive = refl
⟶→allowed start = refl
⟶→allowed complete = refl
⟶→allowed (cancel c) = cancellable_allowed c

-- The table allows exactly the edges of the diagram.
pub can_transition_iff : (s t : RideStatus) → (can_transition_ride_status s t ≡ true) ↔ (s ⟶ t)
can_transition_iff s t = (allowed→⟶ s t, ⟶→allowed)

-- How far a ride is in its life.
pub stage : RideStatus → ℕ
stage requested = 0
stage matching = 1
stage matched = 2
stage driver_arriving = 3
stage driver_arrived = 4
stage in_progress = 5
stage completed = 6
stage cancelled = 6

stage-IsCancellable : {s : RideStatus} → IsCancellable s → stage s < 6
unfolding stage
stage-IsCancellable while_matching = omega arith
stage-IsCancellable while_matched = omega arith
stage-IsCancellable while_arriving = omega arith
stage-IsCancellable while_arrived = omega arith

stage-⟶ : {s t : RideStatus} → s ⟶ t → stage s < stage t
unfolding stage
stage-⟶ dispatch = omega arith
stage-⟶ match_driver = omega arith
stage-⟶ accept = omega arith
stage-⟶ arrive = omega arith
stage-⟶ start = omega arith
stage-⟶ complete = omega arith
stage-⟶ (cancel c) = omega (arith, stage-IsCancellable c)

stage_le : (s : RideStatus) → stage s ≤ 6
unfolding stage
stage_le s = ground arith

-- The table allows a ride in this status to go through these, one after the other.
abbrev pub AllowedFrom : RideStatus → List RideStatus → Type 0
AllowedFrom s [] = Unit {0}
AllowedFrom s (t ∷ ts) = (can_transition_ride_status s t ≡ true) × AllowedFrom t ts

abbrev pub Avoids : RideStatus → List RideStatus → Type 0
Avoids s [] = Unit {0}
Avoids s (t ∷ ts) = (t ≢ s) × Avoids s ts

stage-length : (s : RideStatus) (ts : List RideStatus) → AllowedFrom s ts → stage s + length ts ≤ 6
stage-length s [] h = omega (arith, stage_le s)
stage-length s (t ∷ ts) (a, h) = omega (arith, stage-⟶ (allowed→⟶ s t a), stage-length t ts h)

later-Avoids :
    (u s : RideStatus) (ts : List RideStatus) → stage u ≤ stage s → AllowedFrom s ts → Avoids u ts
later-Avoids u s [] l h = tt
later-Avoids u s (t ∷ ts) l (a, h) =
    let up = stage-⟶ (allowed→⟶ s t a) in
    ((λ e. omega (arith, l, up, ap stage e)), later-Avoids u t ts (omega (arith, l, up)) h)

-- A ride goes through at most six transitions that the table allows, one after the other, and never
-- comes back to the status that it starts from.
pub lives_are_short :
    (s : RideStatus) (ts : List RideStatus) → AllowedFrom s ts → (length ts ≤ 6) × Avoids s ts
lives_are_short s ts h = (omega (arith, stage-length s ts h), later-Avoids s s ts (omega arith) h)

after_completed : {s t : RideStatus} → s ⟶ t → s ≡ completed → ⊥
after_completed dispatch e = cc
after_completed match_driver e = cc
after_completed accept e = cc
after_completed arrive e = cc
after_completed start e = cc
after_completed complete e = cc
after_completed (cancel while_matching) e = cc
after_completed (cancel while_matched) e = cc
after_completed (cancel while_arriving) e = cc
after_completed (cancel while_arrived) e = cc

after_in_progress : {s t : RideStatus} → s ⟶ t → s ≡ in_progress → t ≡ completed
after_in_progress dispatch e = cc
after_in_progress match_driver e = cc
after_in_progress accept e = cc
after_in_progress arrive e = cc
after_in_progress start e = cc
after_in_progress complete e = refl
after_in_progress (cancel while_matching) e = cc
after_in_progress (cancel while_matched) e = cc
after_in_progress (cancel while_arriving) e = cc
after_in_progress (cancel while_arrived) e = cc

completed_absorbs : {s t : RideStatus} → s ⟶* t → s ≡ completed → t ≡ completed
completed_absorbs here e = e
completed_absorbs (then d r) e = absurd (after_completed d e)

-- Once a ride is in progress it can only be completed: no path leads to `cancelled`.
pub in_progress_completes :
    {s t : RideStatus} → s ⟶* t → s ≡ in_progress → (t ≡ in_progress) ⊎ (t ≡ completed)
in_progress_completes here e = inl e
in_progress_completes (then d r) e = inr (completed_absorbs r (after_in_progress d e))
