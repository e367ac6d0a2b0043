-- ===== src/Web/Endpoints/Tests.antt =====
-- Calls of the web application with concrete tokens at the gateway's guard.
use ryd_trip.Prelude.{◌≡◌, refl, Option, some, none, arith}
use ryd_trip.Gateway.Pattern.{Text, codes}
use ryd_trip.Gateway.Pattern.Laws.{IsSegment}
use ryd_trip.Gateway.Routes.{get_proxy_routes, Env}
use ryd_trip.Gateway.JwtAuthGuard.{rider, driver, AuthenticatedUser, bearer_token}
use ryd_trip.Web.Endpoints.{accept_trip, driver_endpoint, cancel_ride, rider_endpoint}
use ryd_trip.Web.Endpoints.Passes.{user, Passes, driver_calls_pass, rider_calls_pass}

abbrev env : Env
env = record {
  location_service_url = none;
  rider_service_url = none;
  driver_service_url = none;
  trip_service_url = none;
}

abbrev asha : AuthenticatedUser
asha = user (codes "d1") driver (codes "+91")

abbrev ravi : AuthenticatedUser
ravi = user (codes "u1") rider (codes "+92")

abbrev verify_asha : Text → Option AuthenticatedUser
verify_asha token = some asha

abbrev verify_ravi : Text → Option AuthenticatedUser
verify_ravi token = some ravi

bears : bearer_token (some (codes "Bearer t1")) ≡ some (codes "t1")
unfolding bearer_token
bears = refl

d1-IsSegment : IsSegment (codes "d1")
d1-IsSegment = (ground arith, (ground arith, tt))

u1-IsSegment : IsSegment (codes "u1")
u1-IsSegment = (ground arith, (ground arith, tt))

r1-IsSegment : IsSegment (codes "r1")
r1-IsSegment = (ground arith, (ground arith, tt))

driver_calls_pass_example :
    Passes verify_asha
      (get_proxy_routes env)
      (driver_endpoint (codes "d1") (accept_trip (codes "r1")))
      (codes "Bearer t1")
      asha
driver_calls_pass_example =
    driver_calls_pass verify_asha (get_proxy_routes env) (codes "d1") (codes "+91")
      (codes "Bearer t1") (codes "t1") d1-IsSegment bears refl (accept_trip (codes "r1"))
      r1-IsSegment

rider_calls_pass_example :
    Passes verify_ravi
      (get_proxy_routes env)
      (rider_endpoint (codes "u1") (cancel_ride (codes "r1")))
      (codes "Bearer t1")
      ravi
rider_calls_pass_example =
    rider_calls_pass verify_ravi (get_proxy_routes env) (codes "u1") (codes "+92")
      (codes "Bearer t1") (codes "t1") u1-IsSegment bears refl (cancel_ride (codes "r1"))
      r1-IsSegment
