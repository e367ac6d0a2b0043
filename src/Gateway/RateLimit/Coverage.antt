-- ===== src/Gateway/RateLimit/Coverage.antt =====
-- The routes that need no token, against the limits of rate-limit.guard.ts.
use ryd_trip.Prelude.{◌≤◌, String, ◌≡◌, refl, true, [], ◌∷◌, arith}
use ryd_trip.Gateway.Pattern.{Text, codes, text_eq, strip_prefix, lit, match_pattern, test}
use ryd_trip.Gateway.RateLimit.{find_rate_limit_policy}
use ryd_trip.Gateway.JwtAuthGuard.{is_public_route}

test-lit : (t p : Text) → test (lit t ∷ []) p ≡ text_eq t p
unfolding match_pattern text_eq strip_prefix
test-lit [] [] = refl
test-lit [] (y ∷ ys) = refl
test-lit (x ∷ xs) [] = refl
test-lit (x ∷ xs) (y ∷ ys) = ground (arith, test-lit xs ys)

-- Every route that passes the guard without a token has one of the two tight limits, 10 or 20
-- requests a window, and never the default of 100.
pub public_routes_tight :
    (method : String) (path : Text)
    → is_public_route method path ≡ true
    → (find_rate_limit_policy method path).limit ≤ 20
unfolding is_public_route find_rate_limit_policy
public_routes_tight method path h = ground (
  arith,
  test-lit (codes "/riders") path,
  test-lit (codes "/riders/login") path,
  test-lit (codes "/drivers") path,
  test-lit (codes "/drivers/login") path,
  test-lit (codes "/drivers/nearby") path,
  test-lit (codes "/drivers/any-online") path,
)
