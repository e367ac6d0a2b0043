-- ===== src/Gateway/Routes/Laws.antt =====
-- Which service a path is sent to.
use ryd_trip.Prelude.{
  ◌≡◌, String, ◌∙◌, Option-cases, ◌⊎◌, inl, inr, Bool, true, Option, none, some, List, [], ◌∷◌,
  ◌++◌, arith, Bool-cases,
}
use mathlib.Core.List.{append_assoc}
use ryd_trip.Gateway.Pattern.{Text, codes, text_eq, strip_prefix}
use ryd_trip.Gateway.Pattern.Laws.{IsSegment, run-segment_slash, text_eq→≡, strip_prefix_sound}
use ryd_trip.Gateway.Routes.{
  ProxyRoute, Env, get_proxy_routes, pattern_hits, prefix_hits, find, match_route, location_target,
}

find_hits :
    (hits : ProxyRoute → Bool) (routes : List ProxyRoute) (r : ProxyRoute)
    → find hits routes ≡ some r
    → hits r ≡ true
unfolding find
find_hits hits [] r h = cc
find_hits hits (x ∷ xs) r h = ground (arith, find_hits hits xs r)

abbrev IsNested : Text → ProxyRoute → Type 0
IsNested path r = (rest : Text) × (path ≡ r.prefix ++ (codes "/" ++ rest))

prefix_hits_sound :
    (path : Text) (r : ProxyRoute) → prefix_hits path r ≡ true → (path ≡ r.prefix) ⊎ IsNested path r
unfolding prefix_hits
prefix_hits_sound path r h = elim (Bool-cases (text_eq path r.prefix)) [
  | inl e ↦ inl (text_eq→≡ path r.prefix e)
  | inr e ↦ elim (Option-cases (strip_prefix (r.prefix ++ codes "/") path)) [
    | inl n ↦ absurd (ground arith)
    | inr (rest, q) ↦ inr (
      rest,
      strip_prefix_sound (r.prefix ++ codes "/") path rest q
          ∙ append_assoc r.prefix (codes "/") rest,
    )
  ]
]

-- A route that is chosen is in order: its pattern matches the path, or the path is its prefix, or
-- the path continues the prefix after a `/`.
pub match_route_sound :
    (path : Text) (routes : List ProxyRoute) (r : ProxyRoute)
    → match_route path routes ≡ some r
    → (pattern_hits path r ≡ true) ⊎ ((path ≡ r.prefix) ⊎ IsNested path r)
unfolding match_route
match_route_sound path routes r h = elim (Option-cases (find (pattern_hits path) routes)) [
  | inl n ↦ inr (prefix_hits_sound path r (find_hits (prefix_hits path) routes r (ground arith)))
  | inr (r', e) ↦ inl (find_hits (pattern_hits path) routes r (ground arith))
]

-- The target of the chosen route, if there is one.
abbrev pub target_of : Option ProxyRoute → Option String
target_of none = none
target_of (some r) = some r.target

-- A location update of any driver goes to the Location Service.
pub location_path :
    (id : Text) (env : Env)
    → IsSegment id
    → target_of
        (match_route (codes "/drivers/" ++ (id ++ codes "/location")) (get_proxy_routes env))
      ≡ some (location_target env)
unfolding match_route get_proxy_routes
location_path (x ∷ xs) env h = ground (arith, run-segment_slash (x ∷ xs) (codes "location") h)
location_path [] env h = absurd h
