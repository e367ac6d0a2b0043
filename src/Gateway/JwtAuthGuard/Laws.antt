-- ===== src/Gateway/JwtAuthGuard/Laws.antt =====
-- Who passes the guard.
use ryd_trip.Prelude.{
  ℕ, ◌≡◌, ◌≢◌, ◌↔◌, ◌⊎◌, inl, inr, true, Option, none, some, List, arith, includes, Option-cases,
  ap, ◌∙◌,
}
use ryd_trip.Exec.{ok}
use ryd_trip.Gateway.Pattern.{Text, codes, starts_with}
use ryd_trip.Gateway.Pattern.Laws.{text_eq→≡}
use ryd_trip.Gateway.Routes.{ProxyRoute, match_route}
use ryd_trip.Gateway.JwtAuthGuard.{
  Role-discrete, operator, AuthenticatedUser, Found, Request, is_public_route, find_policy,
  authorize, owns, group, bearer_token, authenticate, can_activate,
}

owner_group :
    (f : Found) (u : AuthenticatedUser) (n : ℕ)
    → owns f u ≡ true
    → f.policy.own_id_group ≡ some n
    → u.role ≢ operator
    → group f.groups n ≡ some u.sub
unfolding owns
owner_group f u n h e ne = elim (Option-cases (group f.groups n)) [
  | inl g ↦ absurd (ground arith)
  | inr (t, g) ↦ ground (arith, text_eq→≡ t u.sub)
]

authorize_inv :
    (f : Found) (u w : AuthenticatedUser)
    → authorize (some f) u ≡ ok (some w)
    → (u ≡ w) × (includes Role-discrete f.policy.roles u.role ≡ true) × (owns f u ≡ true)
unfolding authorize
authorize_inv f u w h = ground arith

-- What the guard asks of a user on a route with a policy.
pub record MayCall (f : Found) (u : AuthenticatedUser) : Type 0 where
  pub permitted : includes Role-discrete f.policy.roles u.role ≡ true
  pub owner :
      (n : ℕ) → f.policy.own_id_group ≡ some n → u.role ≢ operator → group f.groups n ≡ some u.sub

authorize-MayCall :
    (o : Option Found) (f : Found) (u w : AuthenticatedUser)
    → authorize o u ≡ ok (some w)
    → o ≡ some f
    → MayCall f w
authorize-MayCall o f u w h e =
    let inv = authorize_inv f u w (rw e at h) in
    rw (← inv.0) (record { permitted = inv.1; owner = λ n g ne. owner_group f u n inv.2 g ne })

authorize_user : (o : Option Found) (u w : AuthenticatedUser) → authorize o u ≡ ok (some w) → u ≡ w
unfolding authorize
authorize_user o u w h = ground arith

authorize-ne-none : (o : Option Found) (u : AuthenticatedUser) → authorize o u ≢ ok none
unfolding authorize
authorize-ne-none o u h = ground arith

module _ (verify : Text → Option AuthenticatedUser) (routes : List ProxyRoute) where
  authenticate-ne-none : (req : Request) → authenticate verify routes req ≢ ok none
  unfolding authenticate
  authenticate-ne-none req h = elim (Option-cases (bearer_token req.authorization)) [
    | inl e ↦ ground arith
    | inr (token, e) ↦ elim (Option-cases (verify token)) [
      | inl v ↦ ground arith
      | inr (w, v) ↦ authorize-ne-none (find_policy req.method req.path) w (ground arith)
    ]
  ]

  abbrev NeedsNoUser : Request → Type 0
  NeedsNoUser req =
      (starts_with (codes "/health") req.path ≡ true)
      ⊎ ((match_route req.path routes ≡ none) ⊎ (is_public_route req.method req.path ≡ true))

  -- A request passes without a user exactly where none is needed: on health checks, on paths with
  -- no configured route, and on public routes.
  pub anonymous_iff : (req : Request) → (can_activate verify routes req ≡ ok none) ↔ NeedsNoUser req
  unfolding can_activate
  anonymous_iff req = (λ h. ground (arith, authenticate-ne-none req), λ h. ground arith)

  passed_authenticate :
      (req : Request) (u : AuthenticatedUser)
      → can_activate verify routes req ≡ ok (some u)
      → (token : Text) × (w : AuthenticatedUser) × (bearer_token req.authorization ≡ some token)
        × (verify token ≡ some w)
        × (authorize (find_policy req.method req.path) w ≡ ok (some u))
  unfolding can_activate authenticate
  passed_authenticate req u h = elim (Option-cases (bearer_token req.authorization)) [
    | inl e ↦ absurd (ground arith)
    | inr (token, e) ↦ elim (Option-cases (verify token)) [
      | inl v ↦ absurd (ground arith)
      | inr (w, v) ↦ (token, w, e, v, ground arith)
    ]
  ]

  -- A user that the guard lets through comes from a bearer token of the request that verifies; and
  -- where the route has a policy, the user's role is listed there, and, if the policy names the
  -- group of the owner's id and the user is no operator, that id in the path is the user's own.
  pub passed_user :
      (req : Request) (u : AuthenticatedUser)
      → can_activate verify routes req ≡ ok (some u)
      → ((token : Text) × (bearer_token req.authorization ≡ some token) × (verify token ≡ some u))
        × ((f : Found) → find_policy req.method req.path ≡ some f → MayCall f u)
  passed_user req u h =
      let (token, w, e, v, a) = passed_authenticate req u h in
      let o = find_policy req.method req.path in
      ((token, e, v ∙ ap some (authorize_user o w u a)), λ f g. authorize-MayCall o f w u a g)
