-- ===== src/Gateway/ProxyController.antt =====
-- services/api-gateway/src/proxy/proxy.controller.ts, and the chain of app.module.ts: the limit of the
-- rate, then authentication, then the proxy. `fetch`, the JSON of a body and the drawn correlation id
-- are parameters.
pub mod Laws
use ryd_trip.Prelude.{
  ℕ, String, Bool, true, false, not, ◌||◌, Option, none, some, List, [], ◌∷◌, ◌++◌, str_eq,
  if◌then◌else◌,
}
use ryd_trip.Exec.{Result, ok, err}
use ryd_trip.Gateway.Pattern.{Text, codes, starts_with}
use ryd_trip.Gateway.Routes.{ProxyRoute, match_route}
use ryd_trip.Gateway.RateLimit.{Hits, TooManyRequests}
use ryd_trip.Gateway.RateLimit as RateLimit
use ryd_trip.Gateway.JwtAuthGuard.{Role, AuthenticatedUser, GuardError}
use ryd_trip.Gateway.JwtAuthGuard as Guard

-- What the gateway reads of a request. `B` is the type of parsed bodies.
pub record Incoming (B : Type 0) : Type 0 where
  pub method : String
  pub path : Text
  pub original_url : Text
  pub ip : Option Text
  pub authorization : Option Text
  pub x_correlation_id : Option String
  pub body : Option B

-- The request to the service: `user` stands for the headers x-user-id and x-user-role.
pub record Forwarded (B : Type 0) : Type 0 where
  pub url : Text
  pub method : String
  pub x_correlation_id : String
  pub user : Option (Text × Role)
  pub body : Option B

-- The answer of a service; `json` is `none` where its text does not parse.
pub record Upstream (J : Type 0) : Type 0 where
  pub status : ℕ
  pub content_type : Option Text
  pub json : Option J
  pub text : String

pub data Body (J : Type 0) : Type 0 where
  json : J → Body J
  text : String → Body J

pub data Response (J : Type 0) : Type 0 where
  -- 404
  no_route : Text → Response J
  -- 502
  unreachable : Text → Response J
  -- The status, the header x-correlation-id and the body.
  answered : ℕ → String → Body J → Response J

-- `haystack.includes(needle)`.
unfoldable pub contains : Text → Text → Bool
contains needle [] = starts_with needle []
contains needle (c ∷ rest) = starts_with needle (c ∷ rest) || contains needle rest

abbrev pub or_text : Option Text → Text
or_text none = []
or_text (some t) = t

-- `none` is a JSON body that does not parse, which throws.
unfoldable pub read_body : {J : Type 0} → Upstream J → Option (Body J)
unfolding contains
read_body up =
    if contains (codes "application/json") (or_text up.content_type)
    then elim up.json [ none ↦ none | some j ↦ some (json j) ]
    else some (text up.text)

abbrev pub or_drawn : Option String → String → String
or_drawn none drawn = drawn
or_drawn (some c) drawn = c

abbrev pub or_empty {ℓ} : {B : Type ℓ} → Option B → B → B
or_empty none empty = empty
or_empty (some b) empty = b

abbrev pub identity : Option AuthenticatedUser → Option (Text × Role)
identity none = none
identity (some u) = some (u.sub, u.role)

unfoldable pub has_body : String → Bool
has_body method = not (str_eq "GET" method || str_eq "HEAD" method)

-- What comes of the exchange with the service.
unfoldable pub concluded : {J : Type 0} → Text → String → Option (Upstream J) → Response J
unfolding read_body
concluded prefix cid none = unreachable prefix
concluded prefix cid (some up) = elim (read_body up) [
  | none ↦ unreachable prefix
  | some b ↦ answered up.status cid b
]

-- What the two guards read of a request.
abbrev pub guard_request : {B : Type 0} → Incoming B → Guard.Request
guard_request req = record {
  method = req.method;
  path = req.path;
  authorization = req.authorization;
}

abbrev pub limit_request : {B : Type 0} → Incoming B → RateLimit.Request
limit_request req = record { method = req.method; path = req.path; ip = req.ip }

module _ {B J : Type 0} (routes : List ProxyRoute) (fetch : Forwarded B → Option (Upstream J))
    (empty : B) where
  unfoldable pub forwarded :
      ProxyRoute → String → Option AuthenticatedUser → Incoming B → Forwarded B
  unfolding has_body
  forwarded route cid user req = record {
    url = codes route.target ++ req.original_url;
    method = req.method;
    x_correlation_id = cid;
    user = identity user;
    body = if has_body req.method then some (or_empty req.body empty) else none;
  }

  unfoldable pub proxied_to :
      String
      → Option AuthenticatedUser
      → Incoming B
      → Option ProxyRoute
      → Option (Forwarded B) × Response J
  unfolding forwarded concluded
  proxied_to drawn user req none = (none, no_route req.path)
  proxied_to drawn user req (some route) =
      let cid = or_drawn req.x_correlation_id drawn in
      let f = forwarded route cid user req in (some f, concluded route.prefix cid (fetch f))

  -- The request that is sent, if any, and the response.
  unfoldable pub proxy :
      String → Option AuthenticatedUser → Incoming B → Option (Forwarded B) × Response J
  proxy drawn user req = proxied_to drawn user req (match_route req.path routes)

  pub data Answer : Type 0 where
    too_many : TooManyRequests → Answer
    denied : GuardError → Answer
    proxied : Option (Forwarded B) × Response J → Answer

  module _ (verify : Text → Option AuthenticatedUser) where
    unfoldable pub after_guard :
        String → Incoming B → Result GuardError (Option AuthenticatedUser) → Answer
    unfolding proxy
    after_guard drawn req (err e) = denied e
    after_guard drawn req (ok user) = proxied (proxy drawn user req)

    unfoldable pub after_limit : String → Incoming B → Result TooManyRequests Bool → Answer
    after_limit drawn req (err e) = too_many e
    after_limit drawn req (ok passed) =
        after_guard drawn req (Guard.can_activate verify routes (guard_request req))

    -- Both guards and the proxy, at a moment.
    unfoldable pub handle : Hits → String → Incoming B → ℕ → Answer × Hits
    handle hits drawn req now =
        let (limit, hits') = RateLimit.can_activate hits (limit_request req) now in
        (after_limit drawn req limit, hits')
