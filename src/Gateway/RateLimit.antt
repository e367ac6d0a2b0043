-- ===== src/Gateway/RateLimit.antt =====
-- services/api-gateway/src/rate-limit/rate-limit.guard.ts: the fixed-window counters.
-- The `Map` of hits is a function of its keys; nothing in the code depends on its order.
pub mod Laws
pub mod Windows
pub mod Coverage
use ryd_trip.Prelude.{
  ℕ, ◌+◌, ◌-◌, ◌/◌, String, Bool, true, false, ◌&&◌, Option, none, some, List, [], ◌∷◌, ◌++◌, leb,
  str_eq, if◌then◌else◌,
}
use ryd_trip.Exec.{Result, ok, err}
use ryd_trip.Gateway.Pattern.{
  Text, codes, text_eq, strip_prefix, starts_with, Pattern, Piece, lit, segment, match_pattern,
  test,
}

pub record RateLimitPolicy : Type 0 where
  pub method : String
  pub pattern_ : Pattern
  pub limit : ℕ
  pub window_ms : ℕ
  pub label : String

abbrev policy : String → Pattern → ℕ → String → RateLimitPolicy
policy method pattern_ limit label = record {
  method = method;
  pattern_ = pattern_;
  limit = limit;
  window_ms = 60000;
  label = label;
}

abbrev exact : String → Pattern
exact s = lit (codes s) ∷ []

unfoldable pub rate_limit_policies : List RateLimitPolicy
rate_limit_policies =
    policy "POST" (exact "/riders") 10 "auth"
    ∷ policy "POST" (exact "/riders/login") 10 "auth"
    ∷ policy "POST" (exact "/drivers") 10 "auth"
    ∷ policy "POST" (exact "/drivers/login") 10 "auth"
    ∷ policy "GET" (exact "/drivers/nearby") 20 "public-read"
    ∷ policy "GET" (exact "/drivers/any-online") 20 "public-read"
    ∷ policy "GET" (lit (codes "/drivers/") ∷ segment ∷ lit (codes "/vehicle") ∷ []) 20
        "public-read"
    ∷ []

-- Its pattern is `/.*/`, which is never tested.
abbrev pub default_policy : RateLimitPolicy
default_policy = record {
  method = "*";
  pattern_ = [];
  limit = 100;
  window_ms = 60000;
  label = "default";
}

unfoldable pub first_policy : String → Text → List RateLimitPolicy → RateLimitPolicy
first_policy method path [] = default_policy
first_policy method path (p ∷ ps) =
    let rest = first_policy method path ps in
    if str_eq p.method method && test p.pattern_ path then p else rest

unfoldable pub find_rate_limit_policy : String → Text → RateLimitPolicy
unfolding first_policy rate_limit_policies
find_rate_limit_policy method path = first_policy method path rate_limit_policies

pub record Entry : Type 0 where
  pub count : ℕ
  pub reset_at : ℕ

abbrev pub Hits : Type 0
Hits = Text → Option Entry

unfoldable pub set : Hits → Text → Entry → Hits
unfolding text_eq
set hits k e j = if text_eq k j then some e else hits j

-- The timer of the constructor: entries whose window is over are deleted.
unfoldable pub sweep : ℕ → Hits → Hits
sweep now hits k = elim (hits k) [
  | none ↦ none
  | some e ↦ if leb e.reset_at now then none else some e
]

pub record Request : Type 0 where
  pub method : String
  pub path : Text
  pub ip : Option Text

abbrev pub ip_or_unknown : Option Text → Text
ip_or_unknown none = codes "unknown"
ip_or_unknown (some a) = a

-- `${policy.label}:${ip}`.
unfoldable pub key_of : RateLimitPolicy → Option Text → Text
key_of p ip = codes p.label ++ (codes ":" ++ ip_or_unknown ip)

-- The 429 response, with its `Retry-After` header.
pub record TooManyRequests : Type 0 where
  pub retry_after_seconds : ℕ

-- `Math.ceil((resetAt - now) / 1000)`; it is reached only with `now < resetAt`.
abbrev pub retry_after : ℕ → ℕ → ℕ
retry_after reset_at now = (reset_at - now + 999) / 1000

-- One hit on a key's entry: the answer, and the entry that is stored.
unfoldable pub hit : RateLimitPolicy → ℕ → Option Entry → Result TooManyRequests Bool × Option Entry
hit p now none = (ok true, some (record { count = 1; reset_at = now + p.window_ms }))
hit p now (some e) =
    if leb e.reset_at now
    then (ok true, some (record { count = 1; reset_at = now + p.window_ms }))
    else if leb p.limit e.count
    then (err (record { retry_after_seconds = retry_after e.reset_at now }), some e)
    else (ok true, some (record e { count = e.count + 1 }))

abbrev store_entry : Hits → Text → Option Entry → Hits
store_entry hits k none = hits
store_entry hits k (some e) = set hits k e

unfoldable pub can_activate : Hits → Request → ℕ → Result TooManyRequests Bool × Hits
unfolding find_rate_limit_policy key_of hit set
can_activate hits req now =
    let p = find_rate_limit_policy req.method req.path in
    let k = key_of p req.ip in
    let (answer, e) = hit p now (hits k) in
    if starts_with (codes "/health") req.path
    then (ok true, hits)
    else (answer, store_entry hits k e)
