-- ===== src/Web/Endpoints/Passes.antt =====
-- The application's calls at the gateway's guard.
use ryd_trip.Prelude.{
  String, ◌≡◌, ◌⊎◌, refl, inl, inr, Option, none, some, List, [], ◌∷◌, arith, Bool-cases,
  Option-cases,
}
use ryd_trip.Exec.{ok}
use ryd_trip.Gateway.Pattern.{Text, codes, starts_with}
use ryd_trip.Gateway.Pattern.Laws.{IsSegment, run-segment_slash, run-segment_end, text_eq_refl}
use ryd_trip.Gateway.Routes.{ProxyRoute, match_route}
use ryd_trip.Gateway.JwtAuthGuard.{
  Role, rider, driver, AuthenticatedUser, Request, is_public_route, find_policy, owns, bearer_token,
  authorize, authenticate, can_activate,
}
use ryd_trip.Web.Endpoints.{
  Endpoint, DriverCall, update_driver_location, get_driver, get_driver_profile,
  update_driver_profile, update_driver_status, get_active_trip_for_driver,
  get_ride_history_for_driver, get_rider_contact, accept_trip, decline_trip, mark_driver_arrived,
  start_trip, complete_trip, driver_endpoint, RiderCall, get_rider_profile, update_rider_profile,
  get_ride_history_for_rider, create_ride, get_driver_contact, cancel_ride, rider_endpoint,
}

-- The ids of a call can stand in a path.
abbrev pub DriverIds : DriverCall → Type 0
DriverIds (get_rider_contact id) = IsSegment id
DriverIds (accept_trip id) = IsSegment id
DriverIds (decline_trip id) = IsSegment id
DriverIds (mark_driver_arrived id) = IsSegment id
DriverIds (start_trip id) = IsSegment id
DriverIds (complete_trip id) = IsSegment id
DriverIds _ = Unit {0}

abbrev pub RiderIds : RiderCall → Type 0
RiderIds (get_driver_contact id) = IsSegment id
RiderIds (cancel_ride id) = IsSegment id
RiderIds _ = Unit {0}

-- The guard lets the user do it.
abbrev Grants : String → Text → AuthenticatedUser → Type 0
Grants method path u = authorize (find_policy method path) u ≡ ok (some u)

abbrev pub user : Text → Role → Text → AuthenticatedUser
user id role phone = record { sub = id; role = role; phone = phone }

driver_granted :
    (id phone : Text)
    → IsSegment id
    → (c : DriverCall) → DriverIds c
    → Grants (driver_endpoint id c).method (driver_endpoint id c).path (user id driver phone)
unfolding driver_endpoint find_policy authorize owns
driver_granted [] phone h c ids = absurd h
driver_granted (x ∷ xs) phone h update_driver_location ids =
    rw (run-segment_slash (x ∷ xs) (codes "location") h) (rw (text_eq_refl (x ∷ xs)) refl)
driver_granted (x ∷ xs) phone h update_driver_status ids =
    rw (run-segment_slash (x ∷ xs) (codes "status") h) (rw (text_eq_refl (x ∷ xs)) refl)
driver_granted (x ∷ xs) phone h get_active_trip_for_driver ids =
    rw (run-segment_slash (x ∷ xs) (codes "active") h) (rw (text_eq_refl (x ∷ xs)) refl)
driver_granted (x ∷ xs) phone h get_ride_history_for_driver ids =
    rw (run-segment_slash (x ∷ xs) (codes "history") h) (rw (text_eq_refl (x ∷ xs)) refl)
driver_granted (x ∷ xs) phone h get_driver ids =
    rw (run-segment_end (x ∷ xs) h) (rw (text_eq_refl (x ∷ xs)) refl)
driver_granted (x ∷ xs) phone h get_driver_profile ids =
    rw (run-segment_end (x ∷ xs) h) (rw (text_eq_refl (x ∷ xs)) refl)
driver_granted (x ∷ xs) phone h update_driver_profile ids =
    rw (run-segment_end (x ∷ xs) h) (rw (text_eq_refl (x ∷ xs)) refl)
driver_granted (x ∷ xs) phone h (get_rider_contact []) ids = absurd ids
driver_granted (x ∷ xs) phone h (get_rider_contact (y ∷ ys)) ids =
    rw (run-segment_slash (y ∷ ys) (codes "contact") ids) refl
driver_granted (x ∷ xs) phone h (accept_trip []) ids = absurd ids
driver_granted (x ∷ xs) phone h (accept_trip (y ∷ ys)) ids =
    rw (run-segment_slash (y ∷ ys) (codes "accept") ids) refl
driver_granted (x ∷ xs) phone h (decline_trip []) ids = absurd ids
driver_granted (x ∷ xs) phone h (decline_trip (y ∷ ys)) ids =
    rw (run-segment_slash (y ∷ ys) (codes "decline") ids) refl
driver_granted (x ∷ xs) phone h (mark_driver_arrived []) ids = absurd ids
driver_granted (x ∷ xs) phone h (mark_driver_arrived (y ∷ ys)) ids =
    rw (run-segment_slash (y ∷ ys) (codes "driver-arrived") ids) refl
driver_granted (x ∷ xs) phone h (start_trip []) ids = absurd ids
driver_granted (x ∷ xs) phone h (start_trip (y ∷ ys)) ids =
    rw (run-segment_slash (y ∷ ys) (codes "start") ids) refl
driver_granted (x ∷ xs) phone h (complete_trip []) ids = absurd ids
driver_granted (x ∷ xs) phone h (complete_trip (y ∷ ys)) ids =
    rw (run-segment_slash (y ∷ ys) (codes "complete") ids) refl

rider_granted :
    (id phone : Text)
    → IsSegment id
    → (c : RiderCall) → RiderIds c
    → Grants (rider_endpoint id c).method (rider_endpoint id c).path (user id rider phone)
unfolding rider_endpoint find_policy authorize owns
rider_granted [] phone h c ids = absurd h
rider_granted (x ∷ xs) phone h get_rider_profile ids =
    rw (run-segment_end (x ∷ xs) h) (rw (text_eq_refl (x ∷ xs)) refl)
rider_granted (x ∷ xs) phone h update_rider_profile ids =
    rw (run-segment_end (x ∷ xs) h) (rw (text_eq_refl (x ∷ xs)) refl)
rider_granted (x ∷ xs) phone h get_ride_history_for_rider ids =
    rw (run-segment_slash (x ∷ xs) (codes "history") h) (rw (text_eq_refl (x ∷ xs)) refl)
rider_granted (x ∷ xs) phone h create_ride ids = refl
rider_granted (x ∷ xs) phone h (get_driver_contact []) ids = absurd ids
rider_granted (x ∷ xs) phone h (get_driver_contact (y ∷ ys)) ids =
    rw (run-segment_slash (y ∷ ys) (codes "contact") ids) refl
rider_granted (x ∷ xs) phone h (cancel_ride []) ids = absurd ids
rider_granted (x ∷ xs) phone h (cancel_ride (y ∷ ys)) ids =
    rw (run-segment_slash (y ∷ ys) (codes "cancel") ids) refl

abbrev pub request : Endpoint → Text → Request
request e header = record { method = e.method; path = e.path; authorization = some header }

module _ (verify : Text → Option AuthenticatedUser) (routes : List ProxyRoute) where
  -- The guard lets the call go on, as the user or as a call that asks for none.
  abbrev pub Passes : Endpoint → Text → AuthenticatedUser → Type 0
  Passes e header u =
      (can_activate verify routes (request e header) ≡ ok none)
      ⊎ (can_activate verify routes (request e header) ≡ ok (some u))

  granted-Passes :
      (e : Endpoint) (header : Text) {token : Text} {u : AuthenticatedUser}
      → bearer_token (some header) ≡ some token
      → verify token ≡ some u
      → Grants e.method e.path u
      → Passes e header u
  unfolding can_activate authenticate
  granted-Passes e header b v g = elim (Bool-cases (starts_with (codes "/health") e.path)) [
    | inl h ↦ inl (ground arith)
    | inr h ↦ elim (Option-cases (match_route e.path routes)) [
      | inl m ↦ inl (ground arith)
      | inr (r, m) ↦ elim (Bool-cases (is_public_route e.method e.path)) [
        | inl p ↦ inl (ground arith)
        | inr p ↦ inr (ground arith)
      ]
    ]
  ]

  -- With a header whose token verifies to a driver, each listed call of that driver's screens passes
  -- the gateway's guard, whatever the proxy's routes are, if its ids have no slash and are not empty.
  pub driver_calls_pass :
      (id phone header token : Text)
      → IsSegment id
      → bearer_token (some header) ≡ some token
      → verify token ≡ some (user id driver phone)
      → (c : DriverCall) → DriverIds c
      → Passes (driver_endpoint id c) header (user id driver phone)
  driver_calls_pass id phone header token h b v c ids =
      granted-Passes (driver_endpoint id c) header b v (driver_granted id phone h c ids)

  -- With a header whose token verifies to a rider, each listed call of that rider's screens passes
  -- the gateway's guard, whatever the proxy's routes are, if its ids have no slash and are not empty.
  pub rider_calls_pass :
      (id phone header token : Text)
      → IsSegment id
      → bearer_token (some header) ≡ some token
      → verify token ≡ some (user id rider phone)
      → (c : RiderCall) → RiderIds c
      → Passes (rider_endpoint id c) header (user id rider phone)
  rider_calls_pass id phone header token h b v c ids =
      granted-Passes (rider_endpoint id c) header b v (rider_granted id phone h c ids)
