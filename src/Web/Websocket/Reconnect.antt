-- ===== src/Web/Websocket/Reconnect.antt =====
-- apps/web/src/websocket/reconnect.ts with its default configuration. The delay before the jitter is a
-- whole number; the jitter, a product of fractions with a random number, is a parameter.
use ryd_trip.Prelude.{ℕ, suc, ◌-◌, ◌*◌, ◌^◌, min}

pub record ReconnectStrategy : Type 0 where
  pub attempts : ℕ

unfoldable pub initial_delay_ms : ℕ
initial_delay_ms = 1000

unfoldable pub max_delay_ms : ℕ
max_delay_ms = 15000

unfoldable pub factor : ℕ
factor = 2

unfoldable pub raw_delay : ℕ → ℕ
unfolding initial_delay_ms max_delay_ms factor
raw_delay attempts = min (initial_delay_ms * factor ^ (attempts - 1)) max_delay_ms

-- The first argument turns a delay into `Math.max(0, Math.floor(rawDelay + jitter))`.
unfoldable pub get_next_delay : (ℕ → ℕ) → ReconnectStrategy → ℕ × ReconnectStrategy
unfolding raw_delay
get_next_delay jittered s =
    let attempts = suc s.attempts in (jittered (raw_delay attempts), record { attempts = attempts })

unfoldable pub reset : ReconnectStrategy → ReconnectStrategy
reset s = record { attempts = 0 }

unfoldable pub get_attempt_count : ReconnectStrategy → ℕ
get_attempt_count s = s.attempts
