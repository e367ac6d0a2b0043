-- ===== src/CircuitBreaker/Laws.antt =====
-- What one operation of the breaker keeps and does.
use ryd_trip.Prelude.{ℕ, ◌+◌, ◌<◌, ◌≡◌, some, arith}
use ryd_trip.Exec.{Result, ok, err}
use ryd_trip.CircuitBreaker.{
  closed, opened, half_open, CircuitBreaker, get_state, admit, on_success, on_failure, execute,
  circuit_open, thrown,
}

-- Between two operations a closed breaker has not reached its threshold.
pub record IsSound (b : CircuitBreaker) : Type 0 where
  pub threshold_pos : 0 < b.failure_threshold
  pub closed_below : b.state ≡ closed → b.consecutive_failures < b.failure_threshold

pub admit-IsSound :
    (b b' : CircuitBreaker) (now : ℕ) → IsSound b → admit b now ≡ some b' → IsSound b'
unfolding admit
admit-IsSound b b' now h e = ground arith

pub on_success-IsSound : (b : CircuitBreaker) → IsSound b → IsSound (on_success b)
unfolding on_success
on_success-IsSound b h = ground arith

pub on_failure-IsSound : (b : CircuitBreaker) (now : ℕ) → IsSound b → IsSound (on_failure b now)
unfolding on_failure
on_failure-IsSound b now h = ground arith

module _ {S E A : Type 0} where
  -- While OPEN and before the reset timeout, a call throws `CircuitOpenError`, the wrapped function
  -- does not run, and the breaker stays as it was.
  pub execute_opened :
      (b : CircuitBreaker) (started finished : ℕ) (fn : S → Result E A × S) (s : S)
      → b.state ≡ opened
      → started < b.opened_at + b.reset_timeout_ms
      → execute b started finished fn s ≡ (err circuit_open, b, s)
  unfolding execute
  execute_opened b started finished fn s o early = ground arith

  -- From HALF_OPEN one call that succeeds closes the breaker with no failure counted, and one that
  -- throws re-opens it, whatever the threshold, and restarts the timer at the time of the failure.
  pub execute_half_open :
      (b : CircuitBreaker) (started finished : ℕ) (fn : S → Result E A × S) (s : S)
      → get_state b started ≡ half_open
      → ((a : A)
          → (fn s).0 ≡ ok a
          → ((execute b started finished fn s).0 ≡ ok a)
            × ((execute b started finished fn s).1.state ≡ closed)
            × ((execute b started finished fn s).1.consecutive_failures ≡ 0))
        × ((e : E)
            → (fn s).0 ≡ err e
            → ((execute b started finished fn s).0 ≡ err (thrown e))
              × ((execute b started finished fn s).1.state ≡ opened)
              × ((execute b started finished fn s).1.opened_at ≡ finished))
  unfolding execute
  execute_half_open b started finished fn s h = (λ a p. ground arith, λ e p. ground arith)
