-- ===== src/Gateway/RateLimit/Windows.antt =====
-- How many requests of one key pass in one window.
use ryd_trip.Prelude.{
  ℕ, ◌+◌, ◌-◌, ◌*◌, ◌≤◌, ◌<◌, min, ◌≡◌, Bool, true, Option, none, some, List, [], ◌∷◌, arith,
  length,
}
use ryd_trip.Exec.{Result, ok, err}
use ryd_trip.Gateway.RateLimit.{RateLimitPolicy, Entry, TooManyRequests, hit}

abbrev pub admitted : Result TooManyRequests Bool → ℕ
admitted (ok b) = 1
admitted (err e) = 0

-- The number of requests that pass, among requests of one key at the times of the list.
pub count_admitted : RateLimitPolicy → List ℕ → Option Entry → ℕ
count_admitted p [] e = 0
count_admitted p (t ∷ ts) e = admitted (hit p t e).0 + count_admitted p ts (hit p t e).1

-- Every time of the list lies before a moment.
abbrev pub AllBefore : ℕ → List ℕ → Type 0
AllBefore r [] = Unit {0}
AllBefore r (t ∷ ts) = (t < r) × AllBefore r ts

-- Before the window of an entry ends, requests pass until the limit is reached, and no further.
pub open_window_exact :
    (p : RateLimitPolicy) (ts : List ℕ) (c r : ℕ)
    → c ≤ p.limit
    → AllBefore r ts
    → count_admitted p ts (some (record { count = c; reset_at = r }))
      ≡ min (length ts) (p.limit - c)
unfolding count_admitted hit
open_window_exact p [] c r h b = omega arith
open_window_exact p (t ∷ ts) c r h b =
    ground (arith, open_window_exact p ts c r h b.1, open_window_exact p ts (c + 1) r)

-- There is no entry, or its window is over.
abbrev pub IsStale : ℕ → Option Entry → Type 0
IsStale t none = Unit {0}
IsStale t (some e) = e.reset_at ≤ t

-- Of the requests of one key from one that opens a window to the window's end, exactly the first
-- `limit` pass.
pub window_exact :
    (p : RateLimitPolicy) (t : ℕ) (ts : List ℕ) (o : Option Entry)
    → IsStale t o
    → 0 < p.limit
    → AllBefore (t + p.window_ms) ts
    → count_admitted p (t ∷ ts) o ≡ min (length ts + 1) p.limit
unfolding count_admitted hit
window_exact p t ts none s h b =
    omega (arith, open_window_exact p ts 1 (t + p.window_ms) (omega arith) b)
window_exact p t ts (some e) s h b =
    ground (arith, open_window_exact p ts 1 (t + p.window_ms) (omega arith) b)

-- A request that is refused passes once the seconds of its Retry-After header have gone by, and the
-- header asks for less than a second more than is needed.
retry_after_suffices :
    (p : RateLimitPolicy) (now later : ℕ) (e : Entry) (x : TooManyRequests)
    → (hit p now (some e)).0 ≡ err x
    → now + 1000 * x.retry_after_seconds ≤ later
    → ((hit p later (some e)).0 ≡ ok true)
      × (now + 1000 * x.retry_after_seconds < e.reset_at + 1000)
unfolding hit
retry_after_suffices p now later e x h l = ground arith
