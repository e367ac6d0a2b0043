-- ===== src/CircuitBreaker/Calls.antt =====
-- Calls of one breaker that are in flight together, and runs of failures.
use ryd_trip.Prelude.{ℕ, ◌+◌, ◌<◌, ◌≡◌, List, [], ◌∷◌, none, some, arith, length}
use ryd_trip.CircuitBreaker.{
  closed, opened, half_open, CircuitBreaker, get_state, admit, on_success, on_failure,
}
use ryd_trip.CircuitBreaker.Laws.{IsSound, admit-IsSound, on_success-IsSound, on_failure-IsSound}

-- A breaker with the number of wrapped functions that are awaited.
pub record Load : Type 0 where
  pub breaker : CircuitBreaker
  pub in_flight : ℕ

-- What the event loop may do next: begin a call, refuse one, or settle one of those in flight.
pub data Step (l : Load) (l' : Load) : Type 0 where
  begin :
      (now : ℕ) (b : CircuitBreaker)
      → admit l.breaker now ≡ some b
      → l' ≡ record { breaker = b; in_flight = l.in_flight + 1 }
      → Step l l'
  refuse : (now : ℕ) → admit l.breaker now ≡ none → l' ≡ l → Step l l'
  succeed :
      (n : ℕ)
      → l.in_flight ≡ n + 1
      → l' ≡ record { breaker = on_success l.breaker; in_flight = n }
      → Step l l'
  fail :
      (n now : ℕ)
      → l.in_flight ≡ n + 1
      → l' ≡ record { breaker = on_failure l.breaker now; in_flight = n }
      → Step l l'

pub data Reach (l : Load) : Load → Type 0 where
  here : Reach l l
  next : {m n : Load} → Reach l m → Step m n → Reach l n

Step-IsSound : (l l' : Load) → Step l l' → IsSound l.breaker → IsSound l'.breaker
Step-IsSound l l' (begin now b a e) h = ground (arith, admit-IsSound l.breaker b now h a)
Step-IsSound l l' (refuse now a e) h = ground arith
Step-IsSound l l' (succeed n p e) h = ground (arith, on_success-IsSound l.breaker h)
Step-IsSound l l' (fail n now p e) h = ground (arith, on_failure-IsSound l.breaker now h)

-- However calls interleave, a breaker that starts sound stays sound: its threshold is positive,
-- and while it is CLOSED it has counted fewer failures than the threshold.
pub Reach-IsSound : {l l' : Load} → Reach l l' → IsSound l.breaker → IsSound l'.breaker
Reach-IsSound here h = h
Reach-IsSound (next {m} {n} r s) h = Step-IsSound m n s (Reach-IsSound r h)

-- In HALF_OPEN a second call is admitted while the first is still in flight, at any later time.
pub half_open_admits_again :
    (b : CircuitBreaker) (now later : ℕ)
    → get_state b now ≡ half_open
    → (b' : CircuitBreaker) × (admit b now ≡ some b') × (admit b' later ≡ some b')
unfolding admit
half_open_admits_again b now later h = (record b { state = half_open }, ground arith, ground arith)

-- A run of failures, each reported at a time of the list.
pub fail_all : List ℕ → CircuitBreaker → CircuitBreaker
fail_all [] b = b
fail_all (t ∷ ts) b = fail_all ts (on_failure b t)

on_failure_below :
    (b : CircuitBreaker) (t : ℕ)
    → b.state ≡ closed
    → b.consecutive_failures + 1 < b.failure_threshold
    → on_failure b t ≡ record b { consecutive_failures = b.consecutive_failures + 1 }
unfolding on_failure
on_failure_below b t c h = ground arith

fail_all_below :
    (ts : List ℕ) (b : CircuitBreaker)
    → b.state ≡ closed
    → b.consecutive_failures + length ts < b.failure_threshold
    → fail_all ts b ≡ record b { consecutive_failures = b.consecutive_failures + length ts }
unfolding fail_all
fail_all_below [] b c h = ground arith
fail_all_below (t ∷ ts) b c h = rw (on_failure_below b t c (omega arith)) (
    ground
      (arith, fail_all_below ts (record b { consecutive_failures = b.consecutive_failures + 1 })))

-- A closed breaker with no failure counted trips at the failure that reaches its threshold and at
-- none before: after fewer it is CLOSED and has counted them all, and the one that reaches the
-- threshold opens it at its own time.
pub trips_at_threshold :
    (ts : List ℕ) (t : ℕ) (b : CircuitBreaker)
    → b.state ≡ closed
    → b.consecutive_failures ≡ 0
    → length ts < b.failure_threshold
    → ((fail_all ts b).state ≡ closed)
      × ((fail_all ts b).consecutive_failures ≡ length ts)
      × (length ts + 1 ≡ b.failure_threshold
          → ((on_failure (fail_all ts b) t).state ≡ opened)
            × ((on_failure (fail_all ts b) t).opened_at ≡ t))
unfolding on_failure
trips_at_threshold ts t b c z h =
    rw (fail_all_below ts b c (omega arith)) (c, omega arith, λ e. ground arith)
