-- ===== src/Web/DriverStore/Tests.antt =====
-- A shift of a driver on concrete answers of the gateway.
use ryd_trip.Prelude.{ℕ, ◌+◌, ◌-◌, ◌*◌, ◌/◌, String, max, true, false, some, none, List, [], ◌∷◌}
use ryd_trip.Exec.{ok}
use ryd_trip.EventSchema as Backend
use ryd_trip.Web.Pricing.{Numbers}
use ryd_trip.Web.DriverStore.{User, Api, initial}
use ryd_trip.Web.DriverStore.Laws.{InStep}
use ryd_trip.Web.DriverStore.Actions.{
  Action, toggle, poll, accept, arrive, start, complete, act_all, screen-InStep,
}

abbrev numbers : Numbers ℕ
numbers = record {
  of_ℕ = λ n. n;
  add = λ a b. a + b;
  sub = λ a b. a - b;
  mul = λ a b. a * b;
  div = λ a b. a / b;
  max = max;
  sin = λ a. a;
  cos = λ a. a;
  sqrt = λ a. a;
  atan2 = λ a b. a;
  round = λ a. a;
  pi = 3;
  falsy = λ a. false;
  to_fixed_4 = λ a. "17.4420";
}

abbrev assigned_trip : Backend.Ride ℕ
assigned_trip = record {
  id = "r1";
  rider_id = "u1";
  driver_id = some "d1";
  pickup = record { lat = 1; lng = 2 };
  destination = record { lat = 3; lng = 4 };
  status = Backend.matched;
  cancellation_reason = none;
  fare = none;
  distance_km = none;
  created_at = 1;
  updated_at = 2;
}

abbrev willing : Api String ℕ
willing = record {
  get_driver = λ id. some Backend.available;
  update_driver_status = λ id status. true;
  get_active_trip_for_driver = λ id. some (some assigned_trip);
  accept_trip = λ id. true;
  decline_trip = λ id. true;
  mark_driver_arrived = λ id. true;
  start_trip = λ id otp. ok tt;
  complete_trip = λ id. true;
  get_rider_contact = λ id. none;
  reverse_geocode = λ lat lng. some "MG Road";
}

abbrev asha : User
asha = record { id = "d1"; name = "Asha Rao"; phone = "+91"; vehicle_type = some "SEDAN" }

abbrev shift : List (Action String ℕ)
shift =
    toggle willing (some asha)
    ∷ poll willing (some asha) "d1" 5
    ∷ accept willing
    ∷ arrive willing
    ∷ start willing "4821"
    ∷ complete willing (some asha)
    ∷ []

screen-InStep_example : InStep numbers (act_all numbers shift (initial numbers))
screen-InStep_example = screen-InStep numbers shift
