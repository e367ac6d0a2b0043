-- ===== src/Gateway/ProxyController/Laws.antt =====
-- What reaches the services, and what the client is answered.
use ryd_trip.Prelude.{
  ℕ, String, ◌≡◌, ◌⊎◌, inl, inr, refl, ap, sym, subst, Bool, true, Option, none, some, List, arith,
  Option-cases, Bool-cases, false, ◌++◌, str_eq,
}
use ryd_trip.Exec.{Result, ok, err}
use ryd_trip.Gateway.Pattern.{Text, codes, starts_with}
use ryd_trip.Gateway.Routes.{ProxyRoute, match_route}
use ryd_trip.Gateway.RateLimit.{Hits, TooManyRequests}
use ryd_trip.Gateway.RateLimit as RateLimit
use ryd_trip.Gateway.JwtAuthGuard.{
  Role, AuthenticatedUser, GuardError, Found, bearer_token, is_public_route, find_policy,
}
use ryd_trip.Gateway.JwtAuthGuard as Guard
use ryd_trip.Gateway.JwtAuthGuard.Laws.{MayCall, anonymous_iff, passed_user}
use ryd_trip.Gateway.ProxyController.{
  Incoming, Forwarded, Upstream, Body, json, text, has_body, contains, or_text, Response, no_route,
  unreachable, answered, read_body, or_drawn, identity, proxied_to, concluded, forwarded, proxy,
  proxied, guard_request, limit_request, after_guard, after_limit, handle,
}

module _ {B J : Type 0} (routes : List ProxyRoute) (fetch : Forwarded B → Option (Upstream J))
    (empty : B) where
  sent : ProxyRoute → String → Option AuthenticatedUser → Incoming B → Forwarded B
  sent route drawn user req =
      forwarded routes fetch empty route (or_drawn req.x_correlation_id drawn) user req

  proxied_to_inv :
      (drawn : String) (user : Option AuthenticatedUser) (req : Incoming B) (o : Option ProxyRoute)
      (f : Forwarded B) (r : Response J)
      → proxied_to routes fetch empty drawn user req o ≡ (some f, r)
      → (route : ProxyRoute) × (o ≡ some route) × (f.user ≡ identity user)
  unfolding proxied_to forwarded
  proxied_to_inv drawn user req none f r h = absurd (ground arith)
  proxied_to_inv drawn user req (some route) f r h = (route, refl, ground arith)

  after_guard_inv :
      (verify : Text → Option AuthenticatedUser) (drawn : String) (req : Incoming B)
      (g : Result GuardError (Option AuthenticatedUser)) (f : Forwarded B) (r : Response J)
      → after_guard routes fetch empty verify drawn req g ≡ proxied (some f, r)
      → (user : Option AuthenticatedUser) × (g ≡ ok user)
        × (proxied_to routes fetch empty drawn user req (match_route req.path routes) ≡ (some f, r))
  unfolding after_guard proxy
  after_guard_inv verify drawn req (err e) f r h = absurd (ground arith)
  after_guard_inv verify drawn req (ok user) f r h = (user, refl, ground arith)

  after_limit_inv :
      (verify : Text → Option AuthenticatedUser) (drawn : String) (req : Incoming B)
      (l : Result TooManyRequests Bool) (f : Forwarded B) (r : Response J)
      → after_limit routes fetch empty verify drawn req l ≡ proxied (some f, r)
      → after_guard routes fetch empty verify drawn req
          (Guard.can_activate verify routes (guard_request req))
        ≡ proxied (some f, r)
  unfolding after_limit
  after_limit_inv verify drawn req (err e) f r h = absurd (ground arith)
  after_limit_inv verify drawn req (ok passed) f r h = h

  handle_inv :
      (verify : Text → Option AuthenticatedUser) (hits : Hits) (drawn : String) (req : Incoming B)
      (now : ℕ) (f : Forwarded B) (r : Response J)
      → (handle routes fetch empty verify hits drawn req now).0 ≡ proxied (some f, r)
      → (user : Option AuthenticatedUser) × (Guard.can_activate verify routes (guard_request req)
          ≡ ok user)
        × (proxied_to routes fetch empty drawn user req (match_route req.path routes) ≡ (some f, r))
  unfolding handle
  handle_inv verify hits drawn req now f r h =
      after_guard_inv verify drawn req (Guard.can_activate verify routes (guard_request req)) f r (
        after_limit_inv verify drawn req (RateLimit.can_activate hits (limit_request req) now).0 f r
          h)

  -- Whose request a service is told that it serves.
  pub data Identified (verify : Text → Option AuthenticatedUser) (req : Incoming B)
      (f : Forwarded B) : Type 0 where
    anonymous :
        f.user ≡ none
        → (starts_with (codes "/health") req.path ≡ true)
          ⊎ (is_public_route req.method req.path ≡ true)
        → Identified verify req f
    verified :
        (token : Text) (u : AuthenticatedUser)
        → bearer_token req.authorization ≡ some token
        → verify token ≡ some u
        → ((g : Found) → find_policy req.method req.path ≡ some g → MayCall g u)
        → f.user ≡ some (u.sub, u.role)
        → Identified verify req f

  identified :
      (verify : Text → Option AuthenticatedUser) (req : Incoming B) (f : Forwarded B)
      (route : ProxyRoute) (user : Option AuthenticatedUser)
      → Guard.can_activate verify routes (guard_request req) ≡ ok user
      → match_route req.path routes ≡ some route
      → f.user ≡ identity user
      → Identified verify req f
  identified verify req f route none passed m is =
      elim ((anonymous_iff verify routes (guard_request req)).0 passed) [
        | inl health ↦ anonymous is (inl health)
        | inr (inl unrouted) ↦ absurd (ground arith)
        | inr (inr open_) ↦ anonymous is (inr open_)
      ]
  identified verify req f route (some u) passed m is =
      let ((token, bears, verifies), may) =
        passed_user verify routes (guard_request req) u passed in
      verified token u bears verifies may is

  -- A request that the gateway sends on to a service names a user only from a bearer token that
  -- verifies, the user that the guard let through; without a user it is sent on only for a health
  -- check or a public route. No header of the client decides it.
  pub handle-Identified :
      (verify : Text → Option AuthenticatedUser) (hits : Hits) (drawn : String) (req : Incoming B)
      (now : ℕ) (f : Forwarded B) (r : Response J)
      → (handle routes fetch empty verify hits drawn req now).0 ≡ proxied (some f, r)
      → Identified verify req f
  handle-Identified verify hits drawn req now f r h =
      let (user, passed, goes) = handle_inv verify hits drawn req now f r h in
      let (route, m, is) = proxied_to_inv drawn user req (match_route req.path routes) f r goes in
      identified verify req f route user passed m is

  -- The request that goes to the service of a route: the client's method and url at the route's
  -- target, the client's correlation id or else the one that was drawn, the user of the guard, and,
  -- but for GET and HEAD, the client's body or else the empty one.
  pub record SentTo (route : ProxyRoute) (drawn : String) (user : Option AuthenticatedUser)
      (req : Incoming B) (f : Forwarded B) : Type 0 where
    pub url : f.url ≡ codes route.target ++ req.original_url
    pub method : f.method ≡ req.method
    pub client_id : (c : String) → req.x_correlation_id ≡ some c → f.x_correlation_id ≡ c
    pub drawn_id : req.x_correlation_id ≡ none → f.x_correlation_id ≡ drawn
    pub anonymous : user ≡ none → f.user ≡ none
    pub named : (u : AuthenticatedUser) → user ≡ some u → f.user ≡ some (u.sub, u.role)
    pub no_body :
        (str_eq "GET" req.method ≡ true) ⊎ (str_eq "HEAD" req.method ≡ true) → f.body ≡ none
    pub client_body :
        (b : B)
        → str_eq "GET" req.method ≡ false
        → str_eq "HEAD" req.method ≡ false
        → req.body ≡ some b
        → f.body ≡ some b
    pub empty_body :
        str_eq "GET" req.method ≡ false
        → str_eq "HEAD" req.method ≡ false
        → req.body ≡ none
        → f.body ≡ some empty

  sent-SentTo :
      (route : ProxyRoute) (drawn : String) (user : Option AuthenticatedUser) (req : Incoming B)
      → SentTo route drawn user req (sent route drawn user req)
  unfolding sent forwarded has_body
  sent-SentTo route drawn user req = record {
    url = refl;
    method = refl;
    client_id = λ c h. ground arith;
    drawn_id = λ h. ground arith;
    anonymous = λ h. ground arith;
    named = λ u h. ground arith;
    no_body = λ h. ground arith;
    client_body = λ b g h e. ground arith;
    empty_body = λ g h e. ground arith;
  }

  -- The body that is passed on: the JSON, where the service says that it is JSON, or else the text.
  pub data Relayed (up : Upstream J) (b : Body J) : Type 0 where
    as_json :
        (j : J)
        → contains (codes "application/json") (or_text up.content_type) ≡ true
        → up.json ≡ some j
        → b ≡ json j
        → Relayed up b
    as_text :
        contains (codes "application/json") (or_text up.content_type) ≡ false
        → b ≡ text up.text
        → Relayed up b

  -- What a client is answered once the guards have let it pass.
  pub data Outcome (drawn : String) (user : Option AuthenticatedUser) (req : Incoming B)
      (res : Option (Forwarded B) × Response J) : Type 0 where
    nowhere :
        match_route req.path routes ≡ none
        → res ≡ (none, no_route req.path)
        → Outcome drawn user req res
    failed :
        (route : ProxyRoute) (f : Forwarded B)
        → match_route req.path routes ≡ some route
        → SentTo route drawn user req f
        → (fetch f ≡ none)
          ⊎ ((up : Upstream J) × (fetch f ≡ some up)
              × (contains (codes "application/json") (or_text up.content_type) ≡ true)
              × (up.json ≡ none))
        → res ≡ (some f, unreachable route.prefix)
        → Outcome drawn user req res
    relayed :
        (route : ProxyRoute) (f : Forwarded B) (up : Upstream J) (b : Body J)
        → match_route req.path routes ≡ some route
        → SentTo route drawn user req f
        → fetch f ≡ some up
        → Relayed up b
        → res ≡ (some f, answered up.status f.x_correlation_id b)
        → Outcome drawn user req res

  garbled-none :
      (up : Upstream J)
      → read_body up ≡ none
      → (contains (codes "application/json") (or_text up.content_type) ≡ true) × (up.json ≡ none)
  unfolding read_body
  garbled-none up h =
      elim (Bool-cases (contains (codes "application/json") (or_text up.content_type))) [
        | inl is ↦ elim (Option-cases up.json) [
          | inl gone ↦ (is, gone)
          | inr (j, there) ↦ absurd (ground arith)
        ]
        | inr not_ ↦ absurd (ground arith)
      ]

  read-Relayed : (up : Upstream J) (b : Body J) → read_body up ≡ some b → Relayed up b
  unfolding read_body
  read-Relayed up b h =
      elim (Bool-cases (contains (codes "application/json") (or_text up.content_type))) [
        | inl is ↦ elim (Option-cases up.json) [
          | inl gone ↦ absurd (ground arith)
          | inr (j, there) ↦ as_json j is there (ground arith)
        ]
        | inr not_ ↦ as_text not_ (ground arith)
      ]

  relay :
      (drawn : String) (user : Option AuthenticatedUser) (req : Incoming B) (route : ProxyRoute)
      → match_route req.path routes ≡ some route
      → Outcome drawn user req (
        some (sent route drawn user req),
        concluded route.prefix
            (or_drawn req.x_correlation_id drawn)
            (fetch (sent route drawn user req)),
      )
  unfolding sent forwarded concluded
  relay drawn user req route m =
      let f = sent route drawn user req in
      let goes = sent-SentTo route drawn user req in
      elim (Option-cases (fetch f)) [
        | inl down ↦ failed route f m goes (inl down) (ground arith)
        | inr (up, came) ↦ elim (Option-cases (read_body up)) [
          | inl garbled ↦
              failed route f m goes
                (let (is, gone) = garbled-none up garbled in inr (up, came, is, gone))
                (ground arith)
          | inr (b, reads) ↦
              relayed route f up b m goes came (read-Relayed up b reads) (ground arith)
        ]
      ]

  -- The proxy answers 404 and sends nothing where no route is configured; else it sends the client's
  -- request to the route's service, as `SentTo` says. It answers 502 where the service cannot be
  -- reached or its JSON does not parse, or else the service's status and body, under the correlation
  -- id that it sent, which is the client's where there is one.
  pub proxy-Outcome :
      (drawn : String) (user : Option AuthenticatedUser) (req : Incoming B)
      → Outcome drawn user req (proxy routes fetch empty drawn user req)
  unfolding proxy proxied_to sent
  proxy-Outcome drawn user req = elim (Option-cases (match_route req.path routes)) [
    | inl m ↦ nowhere m (ap (proxied_to routes fetch empty drawn user req) m)
    | inr (route, m) ↦
        subst (Outcome drawn user req) (sym (ap (proxied_to routes fetch empty drawn user req) m))
          (relay drawn user req route m)
  ]
