-- ===== src/Gateway/Tests.antt =====
-- The gateway's tables on concrete requests.
use ryd_trip.Prelude.{
  ℕ, ◌+◌, ◌++◌, ◌≡◌, inr, refl, [], ◌∷◌, some, none, arith, min, length, Option, List,
  if◌then◌else◌,
}
use ryd_trip.Exec.{ok}
use ryd_trip.Gateway.Pattern.{Text, codes, text_eq, strip_prefix, run}
use ryd_trip.Gateway.Pattern.Laws.{IsSegment}
use ryd_trip.Gateway.Routes.{ProxyRoute, Env, get_proxy_routes, match_route}
use ryd_trip.Gateway.RateLimit.{
  RateLimitPolicy, Hits, Entry, find_rate_limit_policy, first_policy, rate_limit_policies, hit,
  key_of, sweep,
}
use ryd_trip.Gateway.RateLimit as RateLimit
use ryd_trip.Gateway.RateLimit.Laws.{answers, sweep_invisible}
use ryd_trip.Gateway.RateLimit.Windows.{count_admitted, window_exact}
use ryd_trip.Gateway.JwtAuthGuard.{
  AuthenticatedUser, authenticate, authorize, driver, Request, can_activate, find_policy,
  bearer_token, is_public_route, Found,
}
use ryd_trip.Gateway.ProxyController.{
  Incoming, Forwarded, Upstream, handle, proxied, answered, json, proxy, after_limit, after_guard,
  proxied_to,
}
use ryd_trip.Gateway.ProxyController.Laws.{Identified, handle-Identified, Outcome, proxy-Outcome}
use ryd_trip.Gateway.JwtAuthGuard.Laws.{MayCall, passed_user}
use ryd_trip.Gateway.JwtAuthGuard.Resources.{
  status_path, rider_slash_path, request, status_update_iff, rider_slash_passes,
}

abbrev env : Env
env = record {
  location_service_url = none;
  rider_service_url = none;
  driver_service_url = none;
  trip_service_url = some "http://trips:3003";
}

abbrev routes : List ProxyRoute
routes = get_proxy_routes env

abbrev trips_route : ProxyRoute
trips_route = record { prefix = codes "/trips"; target = "http://trips:3003"; route_pattern = none }

abbrev riders_route : ProxyRoute
riders_route = record {
  prefix = codes "/riders";
  target = "http://localhost:3001";
  route_pattern = none;
}

abbrev drivers_route : ProxyRoute
drivers_route = record {
  prefix = codes "/drivers";
  target = "http://localhost:3002";
  route_pattern = none;
}

trips_matched : match_route (codes "/trips/r1/accept") routes ≡ some trips_route
unfolding match_route get_proxy_routes
trips_matched = refl

d1-IsSegment : IsSegment (codes "d1")
d1-IsSegment = (ground arith, (ground arith, tt))

abbrev three : RateLimitPolicy
three = record { method = "GET"; pattern_ = []; limit = 3; window_ms = 1000; label = "three" }

window_exact_example :
    count_admitted three (10 ∷ 20 ∷ 30 ∷ 40 ∷ 50 ∷ []) none
    ≡ min (length {A = ℕ} (20 ∷ 30 ∷ 40 ∷ 50 ∷ []) + 1) 3
window_exact_example =
    window_exact three 10 (20 ∷ 30 ∷ 40 ∷ 50 ∷ []) none tt (omega arith)
      (omega arith, (omega arith, (omega arith, (omega arith, tt))))

abbrev full : Entry
full = record { count = 3; reset_at = 1500 }

abbrev empty_hits : Hits
empty_hits k = none

abbrev login : RateLimit.Request
login = record { method = "POST"; path = codes "/riders/login"; ip = some (codes "10.0.0.1") }

abbrev stale_hits : Hits
stale_hits k = some (record { count = 10; reset_at = 50 })

sweep_invisible_example :
    answers (sweep 60 stale_hits) ((61, login) ∷ (62, login) ∷ [])
    ≡ answers stale_hits ((61, login) ∷ (62, login) ∷ [])
sweep_invisible_example =
    sweep_invisible 60 stale_hits ((61, login) ∷ (62, login) ∷ []) (omega arith, (omega arith, tt))

abbrev asha : AuthenticatedUser
asha = record { sub = codes "d1"; role = driver; phone = codes "+91" }

abbrev verify_asha : Text → Option AuthenticatedUser
verify_asha token = if text_eq token (codes "t1") then some asha else none

abbrev patch_status : Request
patch_status = request "PATCH" (status_path (codes "d1")) (codes "Bearer t1")

bears_t1 : bearer_token (some (codes "Bearer t1")) ≡ some (codes "t1")
unfolding bearer_token
bears_t1 = refl

verified_t1 : verify_asha (codes "t1") ≡ some asha
unfolding text_eq
verified_t1 = refl

status_matched : match_route (status_path (codes "d1")) routes ≡ some drivers_route
unfolding match_route get_proxy_routes run
status_matched = refl

patch_passes : can_activate verify_asha routes patch_status ≡ ok (some asha)
patch_passes =
    (status_update_iff verify_asha routes (codes "d1") (codes "Bearer t1") (codes "t1") asha
        drivers_route d1-IsSegment bears_t1 verified_t1 status_matched).1
      (inr (refl, refl))

passed_user_example :
    ((token : Text) × (bearer_token (some (codes "Bearer t1")) ≡ some token)
      × (verify_asha token ≡ some asha))
    × ((f : Found) → find_policy "PATCH" (status_path (codes "d1")) ≡ some f → MayCall f asha)
passed_user_example = passed_user verify_asha routes patch_status asha patch_passes

rider_slash_matched : match_route (rider_slash_path (codes "r7")) routes ≡ some riders_route
unfolding match_route get_proxy_routes
rider_slash_matched = refl

rider_slash_passes_example :
    can_activate verify_asha routes
      (request "GET" (rider_slash_path (codes "r7")) (codes "Bearer t1"))
    ≡ ok (some asha)
rider_slash_passes_example =
    rider_slash_passes verify_asha routes (codes "r7") (codes "Bearer t1") (codes "t1") asha
      riders_route (ground arith, (ground arith, tt)) bears_t1 verified_t1 rider_slash_matched

abbrev start_trip : Incoming ℕ
start_trip = record {
  method = "PATCH";
  path = status_path (codes "d1");
  original_url = status_path (codes "d1");
  ip = none;
  authorization = some (codes "Bearer t1");
  x_correlation_id = none;
  body = some 7;
}

abbrev up : Forwarded ℕ → Option (Upstream ℕ)
up f = some (record {
  status = 200;
  content_type = some (codes "application/json; charset=utf-8");
  json = f.body;
  text = "7";
})

abbrev moved_on : Forwarded ℕ
moved_on = record {
  url = codes "http://localhost:3002" ++ status_path (codes "d1");
  method = "PATCH";
  x_correlation_id = "c1";
  user = some (codes "d1", driver);
  body = some 7;
}

handled :
    (handle routes up 0 verify_asha empty_hits "c1" start_trip 5).0
    ≡ proxied (some moved_on, answered 200 "c1" (json 7))
unfolding handle after_limit RateLimit.can_activate strip_prefix after_guard can_activate
    match_route get_proxy_routes run is_public_route authenticate bearer_token authorize find_policy
    proxied_to
handled = refl

handle-Identified_example : Identified routes up 0 verify_asha start_trip moved_on
handle-Identified_example =
    handle-Identified routes up 0 verify_asha empty_hits "c1" start_trip 5 moved_on
      (answered 200 "c1" (json 7)) handled

proxy-Outcome_example :
    Outcome routes up 0 "c1" (some asha) start_trip (proxy routes up 0 "c1" (some asha) start_trip)
proxy-Outcome_example = proxy-Outcome routes up 0 "c1" (some asha) start_trip
