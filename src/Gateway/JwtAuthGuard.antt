-- ===== src/Gateway/JwtAuthGuard.antt =====
-- services/api-gateway/src/auth/jwt-auth.guard.ts: authentication, roles and ownership.
-- The verification of a token is the JWT library's, and so a parameter.
pub mod Laws
pub mod Resources
use ryd_trip.Prelude.{
  ℕ, zero, suc, String, Bool, true, false, not, ◌&&◌, ◌||◌, Option, none, some, List, [], ◌∷◌,
  str_eq, if◌then◌else◌, includes,
}
use ryd_trip.Exec.{Result, ok, err}
use ryd_trip.Gateway.Pattern.{
  Text, codes, text_eq, strip_prefix, starts_with, Pattern, Piece, lit, segment, captured, one_of,
  match_pattern, test,
}
use ryd_trip.Gateway.Routes.{ProxyRoute, match_route}

pub data Role : Type 0 where
  rider driver operator : Role

unfoldable pub Role-discrete : Discrete Role
Role-discrete = hlevel

pub record AuthenticatedUser : Type 0 where
  pub sub : Text
  pub role : Role
  pub phone : Text

pub record PublicRoute : Type 0 where
  pub method : String
  pub route_path : Text

unfoldable pub public_routes : List PublicRoute
public_routes =
    record { method = "POST"; route_path = codes "/riders" }
    ∷ record { method = "POST"; route_path = codes "/riders/login" }
    ∷ record { method = "POST"; route_path = codes "/drivers" }
    ∷ record { method = "POST"; route_path = codes "/drivers/login" }
    ∷ record { method = "GET"; route_path = codes "/drivers/nearby" }
    ∷ record { method = "GET"; route_path = codes "/drivers/any-online" }
    ∷ []

pub record PublicPattern : Type 0 where
  pub method : String
  pub pattern_ : Pattern

unfoldable pub public_patterns : List PublicPattern
public_patterns =
    record {
      method = "GET";
      pattern_ = lit (codes "/drivers/") ∷ segment ∷ lit (codes "/vehicle") ∷ [];
    }
    ∷ []

unfoldable pub some_route : String → Text → List PublicRoute → Bool
some_route method path [] = false
some_route method path (r ∷ rs) =
    (str_eq r.method method && text_eq r.route_path path) || some_route method path rs

unfoldable pub some_pattern : String → Text → List PublicPattern → Bool
some_pattern method path [] = false
some_pattern method path (r ∷ rs) =
    (str_eq r.method method && test r.pattern_ path) || some_pattern method path rs

unfoldable pub is_public_route : String → Text → Bool
unfolding some_route some_pattern public_routes public_patterns
is_public_route method path =
    if some_route method path public_routes then true else some_pattern method path public_patterns

pub record RolePolicy : Type 0 where
  pub method : String
  pub pattern_ : Pattern
  pub roles : List Role
  pub own_id_group : Option ℕ

abbrev pub own : String → Pattern → List Role → RolePolicy
own method pattern_ roles = record {
  method = method;
  pattern_ = pattern_;
  roles = roles;
  own_id_group = some 1;
}

abbrev pub by_role : String → Pattern → List Role → RolePolicy
by_role method pattern_ roles = record {
  method = method;
  pattern_ = pattern_;
  roles = roles;
  own_id_group = none;
}

abbrev driver_actions : List Text
driver_actions =
    codes "accept"
    ∷ codes "decline"
    ∷ codes "driver-arrived"
    ∷ codes "start"
    ∷ codes "complete"
    ∷ []

unfoldable pub role_policies : List RolePolicy
role_policies =
    own "GET" (lit (codes "/riders/") ∷ captured ∷ []) (rider ∷ operator ∷ [])
    ∷ own "PATCH" (lit (codes "/riders/") ∷ captured ∷ []) (rider ∷ operator ∷ [])
    ∷ by_role "GET" (lit (codes "/riders/") ∷ captured ∷ lit (codes "/contact") ∷ [])
        (driver ∷ operator ∷ [])
    ∷ by_role "POST" (lit (codes "/rides") ∷ []) (rider ∷ operator ∷ [])
    ∷ by_role "POST" (lit (codes "/rides/") ∷ segment ∷ lit (codes "/cancel") ∷ [])
        (rider ∷ operator ∷ [])
    ∷ own "GET" (lit (codes "/drivers/") ∷ captured ∷ []) (driver ∷ operator ∷ [])
    ∷ by_role "GET" (lit (codes "/drivers/") ∷ captured ∷ lit (codes "/contact") ∷ [])
        (rider ∷ operator ∷ [])
    ∷ own "PATCH" (lit (codes "/drivers/") ∷ captured ∷ lit (codes "/status") ∷ [])
        (driver ∷ operator ∷ [])
    ∷ own "PATCH" (lit (codes "/drivers/") ∷ captured ∷ []) (driver ∷ operator ∷ [])
    ∷ own "POST" (lit (codes "/drivers/") ∷ captured ∷ lit (codes "/location") ∷ [])
        (driver ∷ operator ∷ [])
    ∷ own "GET" (lit (codes "/trips/driver/") ∷ captured ∷ lit (codes "/active") ∷ [])
        (driver ∷ operator ∷ [])
    ∷ own "GET" (lit (codes "/trips/rider/") ∷ captured ∷ lit (codes "/history") ∷ [])
        (rider ∷ operator ∷ [])
    ∷ own "GET" (lit (codes "/trips/driver/") ∷ captured ∷ lit (codes "/history") ∷ [])
        (driver ∷ operator ∷ [])
    ∷ by_role "GET" (lit (codes "/trips/") ∷ segment ∷ []) (rider ∷ driver ∷ operator ∷ [])
    ∷ by_role "GET" (lit (codes "/trips/") ∷ segment ∷ lit (codes "/otp") ∷ [])
        (rider ∷ operator ∷ [])
    ∷ by_role "POST"
        (lit (codes "/trips/") ∷ segment ∷ lit (codes "/") ∷ one_of driver_actions ∷ [])
        (driver ∷ operator ∷ [])
    ∷ by_role "POST" (lit (codes "/trips/") ∷ segment ∷ lit (codes "/cancel") ∷ [])
        (rider ∷ driver ∷ operator ∷ [])
    ∷ []

-- A policy with the groups that its pattern captured.
pub record Found : Type 0 where
  pub policy : RolePolicy
  pub groups : List Text

abbrev found_with : RolePolicy → Option (List Text) → Option Found → Option Found
found_with p none rest = rest
found_with p (some groups) rest = some (record { policy = p; groups = groups })

unfoldable pub first_found : String → Text → List RolePolicy → Option Found
unfolding match_pattern
first_found method path [] = none
first_found method path (p ∷ ps) =
    let rest = first_found method path ps in
    if str_eq p.method method then found_with p (match_pattern p.pattern_ path) rest else rest

unfoldable pub find_policy : String → Text → Option Found
unfolding first_found role_policies
find_policy method path = first_found method path role_policies

pub data GuardError : Type 0 where
  missing_bearer_token invalid_or_expired_token : GuardError
  role_not_permitted : Role → GuardError
  not_own_resource : Role → GuardError

-- The `Authorization` header, if any, with the request's method and path.
pub record Request : Type 0 where
  pub method : String
  pub path : Text
  pub authorization : Option Text

-- `match[group]`: the groups are counted from 1.
unfoldable pub group : List Text → ℕ → Option Text
group ts zero = none
group [] (suc n) = none
group (t ∷ ts) (suc zero) = some t
group (t ∷ ts) (suc (suc n)) = group ts (suc n)

abbrev text_is : Option Text → Text → Bool
text_is none s = false
text_is (some t) s = text_eq t s

abbrev is_operator : Role → Bool
is_operator operator = true
is_operator _ = false

unfoldable pub owns : Found → AuthenticatedUser → Bool
unfolding group text_eq
owns f u = elim f.policy.own_id_group [
  | none ↦ true
  | some n ↦ is_operator u.role || text_is (group f.groups n) u.sub
]

unfoldable pub authorize :
    Option Found → AuthenticatedUser → Result GuardError (Option AuthenticatedUser)
unfolding includes Role-discrete owns
authorize none u = ok (some u)
authorize (some f) u =
    if not (includes Role-discrete f.policy.roles u.role)
    then err (role_not_permitted u.role)
    else if not (owns f u)
    then err (not_own_resource u.role)
    else ok (some u)

abbrev non_empty_token : Option Text → Option Text
non_empty_token none = none
non_empty_token (some []) = none
non_empty_token (some (c ∷ t)) = some (c ∷ t)

unfoldable pub bearer_token : Option Text → Option Text
unfolding strip_prefix
bearer_token none = none
bearer_token (some header) = non_empty_token (strip_prefix (codes "Bearer ") header)

module _ (verify : Text → Option AuthenticatedUser) (routes : List ProxyRoute) where
  unfoldable pub authenticate : Request → Result GuardError (Option AuthenticatedUser)
  authenticate req = elim (bearer_token req.authorization) [
    | none ↦ err missing_bearer_token
    | some token ↦ elim (verify token) [
      | none ↦ err invalid_or_expired_token
      | some u ↦ authorize (find_policy req.method req.path) u
    ]
  ]

  -- `ok` is `return true`, with the `req.user` that the guard leaves behind.
  unfoldable pub can_activate : Request → Result GuardError (Option AuthenticatedUser)
  can_activate req =
      if starts_with (codes "/health") req.path
      then ok none
      else elim (match_route req.path routes) [
        | none ↦ ok none
        | some r ↦ if is_public_route req.method req.path then ok none else authenticate req
      ]
