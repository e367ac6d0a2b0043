-- ===== src/RideStore/Tests.antt =====
-- The store on concrete actions.
use ryd_trip.Prelude.{ℕ, ◌≡◌, refl, none, some, List, [], ◌∷◌}
use ryd_trip.RideStore.{
  Ride, LocationPoint, initial, economy, cash, matched, cancelled, set_active_ride,
  cancel_active_ride,
}
use ryd_trip.RideStore.Laws.{Action, set_active, cancel, act, act_all}

abbrev corner : LocationPoint ℕ
corner = record { latitude = 17; longitude = 78; address = "Corner"; name = none }

abbrev ride : Ride ℕ
ride = record {
  id = "r1";
  rider_id = "u1";
  rider_name = "Ravi";
  rider_phone = "+91";
  driver = none;
  vehicle_type = economy;
  pickup = corner;
  destination = corner;
  fare = 52;
  status = matched;
  distance_km = 1;
  duration_mins = 4;
  eta_minutes = 2;
  payment_method = cash;
  created_at = 1;
  updated_at = 1;
  otp = none;
}

abbrev taps : List (Action ℕ)
taps = set_active (some ride) ∷ cancel 5 ∷ cancel 6 ∷ []

abbrev gone_at : ℕ → Ride ℕ
gone_at now = record ride { status = cancelled; updated_at = now }

-- A second cancellation stands in the history once more.
twice : (act_all taps initial).history ≡ gone_at 6 ∷ gone_at 5 ∷ []
unfolding act_all act set_active_ride cancel_active_ride
twice = refl
