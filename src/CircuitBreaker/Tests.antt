-- ===== src/CircuitBreaker/Tests.antt =====
-- The breaker on concrete calls.
use ryd_trip.Prelude.{ℕ, ◌+◌, ◌≡◌, refl, some, String, arith}
use ryd_trip.Exec.{Result, ok, err}
use ryd_trip.CircuitBreaker.{
  CircuitBreaker, closed, opened, half_open, get_state, admit, on_failure,
}
use ryd_trip.CircuitBreaker.Laws.{IsSound}
use ryd_trip.CircuitBreaker.Calls.{
  Load, Reach, here, next, begin, fail, Reach-IsSound, half_open_admits_again,
}

abbrev tripped : CircuitBreaker
tripped = record {
  state = opened;
  consecutive_failures = 5;
  opened_at = 100;
  failure_threshold = 5;
  reset_timeout_ms = 10000;
}

abbrev succeeds : ℕ → Result String ℕ × ℕ
succeeds s = (ok s, s + 1)

abbrev throws : ℕ → Result String ℕ × ℕ
throws s = (err "timeout", s + 1)

refused_early : get_state tripped 10099 ≡ opened
unfolding get_state
refused_early = refl

probed_at_timeout : get_state tripped 10100 ≡ half_open
unfolding get_state
probed_at_timeout = refl

abbrev two : CircuitBreaker
two = record {
  state = closed;
  consecutive_failures = 0;
  opened_at = 0;
  failure_threshold = 2;
  reset_timeout_ms = 50;
}

abbrev with_failures : ℕ → CircuitBreaker
with_failures k = record two { consecutive_failures = k }

abbrev load : CircuitBreaker → ℕ → Load
load b k = record { breaker = b; in_flight = k }

-- Two calls in flight together, of which one has failed.
two_calls : Reach (load two 0) (load (with_failures 1) 1)
unfolding admit get_state on_failure
two_calls =
    next {m = load two 2}
      (next {m = load two 1} (next {m = load two 0} here (begin 10 two refl refl))
        (begin 11 two refl refl))
      (fail 1 20 refl refl)

two-IsSound : IsSound two
two-IsSound = record { threshold_pos = omega arith; closed_below = λ e. omega arith }

Reach-IsSound_example : IsSound (with_failures 1)
Reach-IsSound_example = Reach-IsSound two_calls two-IsSound

half_open_admits_again_example :
    (b' : CircuitBreaker) × (admit tripped 10100 ≡ some b') × (admit b' 10105 ≡ some b')
half_open_admits_again_example = half_open_admits_again tripped 10100 10105 probed_at_timeout
