-- ===== src/Web/Pricing.antt =====
-- apps/web/src/api/rides.ts: vehicle types, distances and fares. JavaScript's numbers and `Math` are a
-- parameter.
use ryd_trip.Prelude.{ℕ, String, Bool, Option, none, some, str_eq, if◌then◌else◌}
use ryd_trip.RideStore.{VehicleType, economy, premium, auto, moto, xl, LocationPoint}

pub record Numbers (N : Type 0) : Type 0 where
  pub of_ℕ : ℕ → N
  pub add : N → N → N
  pub sub : N → N → N
  pub mul : N → N → N
  pub div : N → N → N
  pub max : N → N → N
  pub sin : N → N
  pub cos : N → N
  pub sqrt : N → N
  pub atan2 : N → N → N
  pub round : N → N
  pub pi : N
  -- 0 and NaN.
  pub falsy : N → Bool
  pub to_fixed_4 : N → String

pub record VehicleMetadata : Type 0 where
  pub name : String
  pub capacity : ℕ
  pub fare : ℕ
  pub image : String
  pub tagline : String

unfoldable pub vehicle_metadata : VehicleType → VehicleMetadata
vehicle_metadata economy = record {
  name = "RydTrip Go";
  capacity = 4;
  fare = 240;
  image =
      "https://images.unsplash.com/photo-1549317661-bd32c8ce0db2?w=150&auto=format&fit=crop&q=80";
  tagline = "Affordable, compact rides";
}
vehicle_metadata premium = record {
  name = "RydTrip Premier";
  capacity = 4;
  fare = 390;
  image =
      "https://images.unsplash.com/photo-1555215695-3004980ad54e?w=150&auto=format&fit=crop&q=80";
  tagline = "Comfortable sedans with top-rated drivers";
}
vehicle_metadata auto = record {
  name = "RydTrip Auto";
  capacity = 3;
  fare = 140;
  image =
      "https://images.unsplash.com/photo-1596484552834-6a58f850e0a1?w=150&auto=format&fit=crop&q=80";
  tagline = "No haggling, auto at your doorstep";
}
vehicle_metadata moto = record {
  name = "RydTrip Moto";
  capacity = 1;
  fare = 80;
  image =
      "https://images.unsplash.com/photo-1558981806-ec527fa84c39?w=150&auto=format&fit=crop&q=80";
  tagline = "Quick bike rides, beat the traffic";
}
vehicle_metadata xl = record {
  name = "RydTrip XL";
  capacity = 6;
  fare = 550;
  image =
      "https://images.unsplash.com/photo-1533473359331-0135ef1b58bf?w=150&auto=format&fit=crop&q=80";
  tagline = "Spacious SUVs for group travel";
}

unfoldable pub driver_vehicle_type_map : String → Option VehicleType
driver_vehicle_type_map t =
    if str_eq t "HATCHBACK"
    then some economy
    else if str_eq t "SEDAN"
    then some premium
    else if str_eq t "SUV"
    then some xl
    else if str_eq t "AUTO"
    then some auto
    else if str_eq t "BIKE"
    then some moto
    else none

abbrev pub or_economy : Option VehicleType → VehicleType
or_economy none = economy
or_economy (some t) = t

abbrev or_no_text : Option String → String
or_no_text none = ""
or_no_text (some t) = t

unfoldable pub map_driver_vehicle_type : Option String → VehicleType
unfolding driver_vehicle_type_map
map_driver_vehicle_type raw = or_economy (driver_vehicle_type_map (or_no_text raw))

module _ {N : Type 0} (n : Numbers N) where
  open n use {of_ℕ, add, sub, mul, div, max, sin, cos, sqrt, atan2, round, pi, falsy}

  -- 4.2 is the double that 42 / 10 rounds to.
  unfoldable pub calculate_distance_km : LocationPoint N → LocationPoint N → N
  calculate_distance_km p1 p2 =
      let d_lat = div (mul (sub p2.latitude p1.latitude) pi) (of_ℕ 180) in
      let d_lon = div (mul (sub p2.longitude p1.longitude) pi) (of_ℕ 180) in
      let a = add (mul (sin (div d_lat (of_ℕ 2))) (sin (div d_lat (of_ℕ 2)))) (
        mul
          (mul
            (mul (cos (div (mul p1.latitude pi) (of_ℕ 180)))
              (cos (div (mul p2.latitude pi) (of_ℕ 180))))
            (sin (div d_lon (of_ℕ 2))))
          (sin (div d_lon (of_ℕ 2)))) in
      let c = mul (of_ℕ 2) (atan2 (sqrt a) (sqrt (sub (of_ℕ 1) a))) in
      let km = div (round (mul (mul (of_ℕ 6371) c) (of_ℕ 10))) (of_ℕ 10) in
      if falsy km then div (of_ℕ 42) (of_ℕ 10) else km

  unfoldable pub estimate_fare : VehicleType → N → N
  unfolding vehicle_metadata
  estimate_fare vehicle_type distance_km =
      round (add (of_ℕ ((vehicle_metadata vehicle_type).fare)) (mul distance_km (of_ℕ 15)))

  -- `Math.round(distanceKm * 2.5)`.
  unfoldable pub duration_mins : N → N
  duration_mins distance_km = round (mul distance_km (div (of_ℕ 5) (of_ℕ 2)))
