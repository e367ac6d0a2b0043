-- ===== src/Gateway/RateLimit/Laws.antt =====
-- What one request does to the table of hits, and the sweep of stale entries.
use ryd_trip.Prelude.{
  ℕ, ◌≤◌, ◌≡◌, ◌≢◌, refl, ap, ◌∙◌, sym, Bool, Option, none, some, List, [], ◌∷◌, arith, leb,
  if◌then◌else◌,
}
use ryd_trip.Exec.{Result}
use ryd_trip.Gateway.Pattern.{Text}
use ryd_trip.Gateway.Pattern.Laws.{text_eq→≡}
use ryd_trip.Gateway.RateLimit.{
  Hits, Entry, sweep, Request, RateLimitPolicy, key_of, hit, find_rate_limit_policy, can_activate,
  TooManyRequests,
}

-- A request changes no entry but the one of its own key.
pub can_activate_frame :
    (hits : Hits) (req : Request) (now : ℕ) (j : Text)
    → key_of (find_rate_limit_policy req.method req.path) req.ip ≢ j
    → (can_activate hits req now).1 j ≡ hits j
unfolding can_activate
can_activate_frame hits req now j ne =
    ground (arith, text_eq→≡ (key_of (find_rate_limit_policy req.method req.path) req.ip) j)

-- What of an entry is still in force.
abbrev pub live : ℕ → Option Entry → Option Entry
live now none = none
live now (some e) = if leb e.reset_at now then none else some e

live-live : (t u : ℕ) (o : Option Entry) → t ≤ u → live u (live t o) ≡ live u o
live-live t u o h = ground arith

hit-live : (p : RateLimitPolicy) (now : ℕ) (o : Option Entry) → hit p now (live now o) ≡ hit p now o
unfolding hit
hit-live p now o = ground arith

-- Two tables that agree on what is in force.
abbrev Agree : ℕ → Hits → Hits → Type 0
Agree t h h' = (k : Text) → live t (h k) ≡ live t (h' k)

Agree-later : (t u : ℕ) (h h' : Hits) → t ≤ u → Agree t h h' → Agree u h h'
Agree-later t u h h' le a k = ground (arith, a k, live-live t u (h k) le, live-live t u (h' k) le)

Agree-sweep : (t : ℕ) (h : Hits) → Agree t (sweep t h) h
unfolding sweep
Agree-sweep t h k = ground arith

-- The answers to a series of requests, each with the time of its arrival.
pub answers : Hits → List (ℕ × Request) → List (Result TooManyRequests Bool)
answers hits [] = []
answers hits ((now, req) ∷ rest) =
    (can_activate hits req now).0 ∷ answers (can_activate hits req now).1 rest

-- The times do not decrease.
abbrev pub InOrder : ℕ → List (ℕ × Request) → Type 0
InOrder t [] = Unit {0}
InOrder t ((now, req) ∷ rest) = (t ≤ now) × InOrder now rest

hit_live_eq :
    (p : RateLimitPolicy) (now : ℕ) (o o' : Option Entry)
    → live now o ≡ live now o'
    → hit p now o ≡ hit p now o'
hit_live_eq p now o o' a = sym (hit-live p now o) ∙ ap (hit p now) a ∙ hit-live p now o'

can_activate-Agree :
    (h h' : Hits) (req : Request) (now : ℕ)
    → Agree now h h'
    → ((can_activate h req now).0 ≡ (can_activate h' req now).0)
      × Agree now (can_activate h req now).1 (can_activate h' req now).1
can_activate-Agree h h' req now a =
    let p = find_rate_limit_policy req.method req.path in
    let k = key_of p req.ip in
    let same = hit_live_eq p now (h k) (h' k) (a k) in
    (unfold can_activate in ground arith, λ j. unfold can_activate in ground (arith, a j))

answers-Agree :
    (t : ℕ) (h h' : Hits) (reqs : List (ℕ × Request))
    → InOrder t reqs
    → Agree t h h'
    → answers h reqs ≡ answers h' reqs
unfolding answers
answers-Agree t h h' [] o a = refl
answers-Agree t h h' ((now, req) ∷ rest) o a =
    let step = can_activate-Agree h h' req now (Agree-later t now h h' o.0 a) in
    cc (
      step.0,
      answers-Agree now (can_activate h req now).1 (can_activate h' req now).1 rest o.1 step.1,
    )

-- Deleting the entries whose window is over never changes an answer: requests that come at the time
-- of the sweep or later, in order, are answered as if there had been none.
pub sweep_invisible :
    (t : ℕ) (hits : Hits) (reqs : List (ℕ × Request))
    → InOrder t reqs
    → answers (sweep t hits) reqs ≡ answers hits reqs
sweep_invisible t hits reqs o = answers-Agree t (sweep t hits) hits reqs o (Agree-sweep t hits)
