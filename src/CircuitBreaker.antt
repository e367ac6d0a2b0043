-- ===== src/CircuitBreaker.antt =====
-- libraries/circuit-breaker/src/circuit-breaker.ts: the CLOSED/OPEN/HALF_OPEN breaker.
-- `execute` awaits the wrapped function between `admit` and the report of its outcome, so these are
-- operations of their own: calls that are in flight together interleave them.
pub mod Laws
pub mod Calls
mod Tests
use ryd_trip.Prelude.{ℕ, ◌+◌, Bool, true, false, ◌&&◌, ◌||◌, Option, none, some, leb, if◌then◌else◌}
use ryd_trip.Exec.{Result, ok, err}

-- `opened` is OPEN.
pub data CircuitState : Type 0 where
  closed opened half_open : CircuitState

pub record CircuitBreaker : Type 0 where
  pub state : CircuitState
  pub consecutive_failures : ℕ
  pub opened_at : ℕ
  pub failure_threshold : ℕ
  pub reset_timeout_ms : ℕ

-- An option that is left out takes its default.
abbrev pub or_default : Option ℕ → ℕ → ℕ
or_default none d = d
or_default (some n) d = n

unfoldable pub new : Option ℕ → Option ℕ → CircuitBreaker
new failure_threshold reset_timeout_ms = record {
  state = closed;
  consecutive_failures = 0;
  opened_at = 0;
  failure_threshold = or_default failure_threshold 5;
  reset_timeout_ms = or_default reset_timeout_ms 10000;
}

abbrev pub is_opened : CircuitState → Bool
is_opened opened = true
is_opened _ = false

abbrev pub is_half_open : CircuitState → Bool
is_half_open half_open = true
is_half_open _ = false

-- `Date.now() - openedAt >= resetTimeoutMs` over the integers.
unfoldable pub get_state : CircuitBreaker → ℕ → CircuitState
get_state b now =
    if is_opened b.state && leb (b.opened_at + b.reset_timeout_ms) now then half_open else b.state

-- The head of `execute`: `none` is a thrown `CircuitOpenError`.
unfoldable pub admit : CircuitBreaker → ℕ → Option CircuitBreaker
unfolding get_state
admit b now = elim (get_state b now) [
  | opened ↦ none
  | half_open ↦ some (record b { state = half_open })
  | closed ↦ some b
]

unfoldable pub on_success : CircuitBreaker → CircuitBreaker
on_success b = record b { consecutive_failures = 0; state = closed }

unfoldable pub on_failure : CircuitBreaker → ℕ → CircuitBreaker
on_failure b now =
    let failures = b.consecutive_failures + 1 in
    if is_half_open b.state || leb b.failure_threshold failures
    then record b { consecutive_failures = failures; state = opened; opened_at = now }
    else record b { consecutive_failures = failures }

-- What a caller of `execute` may catch.
pub data Failure (E : Type 0) : Type 0 where
  circuit_open : Failure E
  thrown : E → Failure E

module _ {S E A : Type 0} where
  -- The tail of `execute`, once the wrapped function has settled at time `finished`.
  unfoldable pub settle :
      CircuitBreaker → ℕ → Result E A × S → Result (Failure E) A × CircuitBreaker × S
  unfolding on_success on_failure
  settle b finished (ok a, s) = (ok a, on_success b, s)
  settle b finished (err e, s) = (err (thrown e), on_failure b finished, s)

  -- One call with nothing else in flight, called at `started` and settled at `finished`.
  unfoldable pub execute :
      CircuitBreaker → ℕ → ℕ → (S → Result E A × S) → S → Result (Failure E) A × CircuitBreaker × S
  unfolding admit settle
  execute b started finished fn s = elim (admit b started) [
    | none ↦ (err circuit_open, b, s)
    | some b' ↦ settle b' finished (fn s)
  ]
