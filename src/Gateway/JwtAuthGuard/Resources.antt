-- ===== src/Gateway/JwtAuthGuard/Resources.antt =====
-- The guard on the routes of one resource, whatever its id.
use ryd_trip.Prelude.{
  String, ◌≡◌, ◌↔◌, ◌⊎◌, refl, ap, ◌∙◌, false, Option, none, some, List, [], ◌∷◌, ◌++◌, arith,
}
use ryd_trip.Exec.{ok}
use ryd_trip.Gateway.Pattern.{
  Text, codes, strip_prefix, text_eq, match_pattern, starts_with, lit, captured,
}
use ryd_trip.Gateway.Pattern.Laws.{IsSegment, run-segment_slash, text_eq→≡, text_eq_refl}
use ryd_trip.Gateway.Routes.{ProxyRoute, match_route}
use ryd_trip.Gateway.JwtAuthGuard.{
  driver, operator, AuthenticatedUser, Found, Request, is_public_route, find_policy, own,
  bearer_token, authorize, authenticate, can_activate,
}

abbrev pub status_path : Text → Text
status_path id = codes "/drivers/" ++ (id ++ codes "/status")

abbrev pub rider_slash_path : Text → Text
rider_slash_path id = codes "/riders/" ++ (id ++ codes "/")

abbrev status_policy : Text → Found
status_policy id = record {
  policy =
      own "PATCH" (lit (codes "/drivers/") ∷ captured ∷ lit (codes "/status") ∷ [])
        (driver ∷ operator ∷ []);
  groups = id ∷ [];
}

status_found :
    (id : Text) → IsSegment id → find_policy "PATCH" (status_path id) ≡ some (status_policy id)
unfolding find_policy
status_found (x ∷ xs) h = rw (run-segment_slash (x ∷ xs) (codes "status") h)
status_found [] h = absurd h

rider_slash_unlisted : (id : Text) → IsSegment id → find_policy "GET" (rider_slash_path id) ≡ none
unfolding find_policy
rider_slash_unlisted (x ∷ xs) h = rw (run-segment_slash (x ∷ xs) [] h)
rider_slash_unlisted [] h = absurd h

-- Operators, and the driver of that id.
abbrev pub OwnsDriver : Text → AuthenticatedUser → Type 0
OwnsDriver id u = (u.role ≡ operator) ⊎ ((u.role ≡ driver) × (id ≡ u.sub))

authorize_status :
    (id : Text) (u : AuthenticatedUser)
    → (authorize (some (status_policy id)) u ≡ ok (some u)) ↔ OwnsDriver id u
unfolding authorize
authorize_status id u =
    (λ h. ground (arith, text_eq→≡ id u.sub), λ o. ground (arith, text_eq_refl id))

status_not_public : (id : Text) → is_public_route "PATCH" (status_path id) ≡ false
unfolding is_public_route text_eq match_pattern
status_not_public id = refl

rider_slash_not_public : (id : Text) → is_public_route "GET" (rider_slash_path id) ≡ false
unfolding is_public_route text_eq match_pattern
rider_slash_not_public id = refl

abbrev pub request : String → Text → Text → Request
request method path header = record { method = method; path = path; authorization = some header }

module _ (verify : Text → Option AuthenticatedUser) (routes : List ProxyRoute) where
  -- The answer to a request with a token that verifies, on a configured path that is not public.
  with_token :
      (req : Request) {r : ProxyRoute} {token : Text} {u : AuthenticatedUser}
      → starts_with (codes "/health") req.path ≡ false
      → match_route req.path routes ≡ some r
      → is_public_route req.method req.path ≡ false
      → bearer_token req.authorization ≡ some token
      → verify token ≡ some u
      → can_activate verify routes req ≡ authorize (find_policy req.method req.path) u
  unfolding can_activate authenticate
  with_token req h m p b v = ground arith

  module _ (id : Text) (header token : Text) (u : AuthenticatedUser) (r : ProxyRoute)
      (is_id : IsSegment id) (bears : bearer_token (some header) ≡ some token)
      (verified : verify token ≡ some u) where
    -- With a valid token, a status update of a driver passes exactly for an operator and for the
    -- driver of that id.
    pub status_update_iff :
        match_route (status_path id) routes ≡ some r
        → (can_activate verify routes (request "PATCH" (status_path id) header) ≡ ok (some u))
          ↔ OwnsDriver id u
    unfolding strip_prefix
    status_update_iff m =
        rw
          (
            with_token (request "PATCH" (status_path id) header) refl m (status_not_public id) bears
                verified,
            status_found id is_id,
          )
          (authorize_status id u)

    -- A path with a slash at its end fits no policy: with a valid token of any role, anybody's
    -- GET /riders/:id/ passes.
    pub rider_slash_passes :
        match_route (rider_slash_path id) routes ≡ some r
        → can_activate verify routes (request "GET" (rider_slash_path id) header) ≡ ok (some u)
    unfolding strip_prefix authorize
    rider_slash_passes m =
        with_token (request "GET" (rider_slash_path id) header) refl m (rider_slash_not_public id)
          bears verified
        ∙ ap (λ o. authorize o u) (rider_slash_unlisted id is_id)
