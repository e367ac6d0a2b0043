-- ===== src/Gateway/Routes.antt =====
-- services/api-gateway/src/proxy/routes.ts: the table of services, and the choice of one.
pub mod Laws
use ryd_trip.Prelude.{
  Bool, true, false, ◌||◌, Option, none, some, List, [], ◌∷◌, ◌++◌, String, if◌then◌else◌,
}
use ryd_trip.Gateway.Pattern.{
  Text, codes, text_eq, strip_prefix, starts_with, Pattern, Piece, lit, segment, match_pattern,
  test,
}

pub record ProxyRoute : Type 0 where
  pub prefix : Text
  pub target : String
  pub route_pattern : Option Pattern

-- The variables of the process's environment that name a service.
pub record Env : Type 0 where
  pub location_service_url : Option String
  pub rider_service_url : Option String
  pub driver_service_url : Option String
  pub trip_service_url : Option String

abbrev pub or_url : Option String → String → String
or_url none d = d
or_url (some u) d = u

abbrev pub driver_location_pattern : Pattern
driver_location_pattern = lit (codes "/drivers/") ∷ segment ∷ lit (codes "/location") ∷ []

abbrev plain : String → String → ProxyRoute
plain prefix target = record { prefix = codes prefix; target = target; route_pattern = none }

abbrev pub location_target : Env → String
location_target env = or_url env.location_service_url "http://localhost:3004"

abbrev pub rider_target : Env → String
rider_target env = or_url env.rider_service_url "http://localhost:3001"

abbrev pub driver_target : Env → String
driver_target env = or_url env.driver_service_url "http://localhost:3002"

abbrev pub trip_target : Env → String
trip_target env = or_url env.trip_service_url "http://localhost:3003"

unfoldable pub get_proxy_routes : Env → List ProxyRoute
get_proxy_routes env =
    record {
      prefix = codes "/drivers/*/location";
      target = location_target env;
      route_pattern = some driver_location_pattern;
    }
    ∷ plain "/drivers/nearby" (location_target env)
    ∷ plain "/drivers/any-online" (location_target env)
    ∷ plain "/riders" (rider_target env)
    ∷ plain "/rides" (rider_target env)
    ∷ plain "/drivers" (driver_target env)
    ∷ plain "/trips" (trip_target env)
    ∷ []

-- `route.pattern?.test(path)`.
unfoldable pub pattern_hits : Text → ProxyRoute → Bool
unfolding match_pattern
pattern_hits path r = elim r.route_pattern [ none ↦ false | some p ↦ test p path ]

unfoldable pub prefix_hits : Text → ProxyRoute → Bool
unfolding text_eq strip_prefix
prefix_hits path r = text_eq path r.prefix || starts_with (r.prefix ++ codes "/") path

-- `routes.find`.
unfoldable pub find : (ProxyRoute → Bool) → List ProxyRoute → Option ProxyRoute
find test [] = none
find test (r ∷ rs) = let rest = find test rs in if test r then some r else rest

unfoldable pub match_route : Text → List ProxyRoute → Option ProxyRoute
unfolding find pattern_hits prefix_hits
match_route path routes = elim (find (pattern_hits path) routes) [
  | some r ↦ some r
  | none ↦ find (prefix_hits path) routes
]
