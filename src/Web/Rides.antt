-- ===== src/Web/Rides.antt =====
-- apps/web/src/api/rides.ts: the requests, with the events that apps/web/src/websocket/client.ts sends
-- for them. Each answer of the gateway is a parameter.
use ryd_trip.Prelude.{ℕ, String, Option, none, some, List, [], ◌∷◌}
use ryd_trip.Exec.{Result, ok, err}
use ryd_trip.EventSchema.{GeoPoint}
use ryd_trip.RideStore.{
  RideStatus, requested, cancelled, VehicleType, PaymentMethod, LocationPoint, DriverInfo, Ride,
}
use ryd_trip.Web.Pricing.{
  Numbers, VehicleMetadata, vehicle_metadata, driver_vehicle_type_map, or_economy,
  calculate_distance_km, estimate_fare, duration_mins,
}

-- What is sent over the socket, by its event type. `driver_request_received` shows the ride's points,
-- fare, distance, vehicle type and rider, and for how many seconds.
pub data Event (N : Type 0) : Type 0 where
  ride_status_changed : String → RideStatus → Option (Ride N) → Event N
  driver_assigned : String → Option (DriverInfo N) → Event N
  driver_location_updated : String → LocationPoint N → Event N
  driver_request_received : Ride N → ℕ → Event N
  trip_completed : String → N → Event N

pub record NearbyDriver (N : Type 0) : Type 0 where
  pub driver_id : String
  pub lat : N
  pub lng : N
  pub distance_km : N

pub record VehicleOption (N : Type 0) : Type 0 where
  pub vehicle_type : VehicleType
  pub eta : N
  pub metadata : VehicleMetadata

pub record NearbyVehicleEstimate (N : Type 0) : Type 0 where
  pub option : VehicleOption N
  pub driver_id : String
  pub driver_distance_km : N

pub record CreateRideRequest (N : Type 0) : Type 0 where
  pub rider_id : String
  pub rider_name : String
  pub rider_phone : String
  pub pickup : LocationPoint N
  pub destination : LocationPoint N
  pub vehicle_type : VehicleType
  pub payment_method : PaymentMethod
  pub eta_minutes : N

-- The body of POST /rides.
pub record RideBody (N : Type 0) : Type 0 where
  pub rider_id : String
  pub pickup : GeoPoint N
  pub destination : GeoPoint N

-- The gateway's answers to these calls; `E` is what `apiFetch` throws.
pub record RidesApi (E N : Type 0) : Type 0 where
  -- GET /drivers/nearby with this centre and radius, and a limit of 1
  pub nearby : LocationPoint N → ℕ → Result E (List (NearbyDriver N))
  -- GET /drivers/any-online?limit=1
  pub any_online : Result E (List (NearbyDriver N))
  pub vehicle_of : String → Result E String
  pub post_ride : RideBody N → Result E String
  pub post_cancel : String → Result E (Unit {0})

abbrev pub first_of {ℓ} : {A : Type ℓ} → List A → Option A
first_of [] = none
first_of (x ∷ xs) = some x

module _ {E N : Type 0} (n : Numbers N) (api : RidesApi E N) where
  open n use {of_ℕ, mul, div, max, round}

  -- `Math.max(1, Math.round((distanceKm / 25) * 60))`.
  abbrev eta_of : N → N
  eta_of km = max (of_ℕ 1) (round (mul (div km (of_ℕ 25)) (of_ℕ 60)))

  unfoldable pub estimated :
      NearbyDriver N → Result E String → Result E (Option (NearbyVehicleEstimate N))
  unfolding driver_vehicle_type_map vehicle_metadata
  estimated d (err e) = err e
  estimated d (ok t) =
      let vehicle_type = or_economy (driver_vehicle_type_map t) in
      ok (
        some (record {
          option = record {
            vehicle_type = vehicle_type;
            eta = eta_of d.distance_km;
            metadata = vehicle_metadata vehicle_type;
          };
          driver_id = d.driver_id;
          driver_distance_km = d.distance_km;
        }))

  unfoldable pub wider :
      Result E (List (NearbyDriver N)) → Result E (Option (NearbyVehicleEstimate N))
  unfolding estimated
  wider (err e) = err e
  wider (ok []) = ok none
  wider (ok (d ∷ ds)) = estimated d (api.vehicle_of d.driver_id)

  unfoldable pub searched :
      LocationPoint N
      → Result E (List (NearbyDriver N))
      → Result E (Option (NearbyVehicleEstimate N))
  unfolding estimated wider
  searched pickup (err e) = err e
  searched pickup (ok []) = wider (api.nearby pickup 50)
  searched pickup (ok (d ∷ ds)) = estimated d (api.vehicle_of d.driver_id)

  unfoldable pub find_nearby_vehicle : LocationPoint N → Result E (Option (NearbyVehicleEstimate N))
  unfolding searched
  find_nearby_vehicle pickup = searched pickup (api.nearby pickup 10)

  unfoldable pub find_any_online_driver : Result E (Option (NearbyDriver N))
  find_any_online_driver = elim api.any_online [ err e ↦ err e | ok ds ↦ ok (first_of ds) ]

  unfoldable pub ride_of : CreateRideRequest N → String → ℕ → Ride N
  unfolding calculate_distance_km estimate_fare duration_mins
  ride_of req ride_id now =
      let distance_km = calculate_distance_km n req.pickup req.destination in
      record {
        id = ride_id;
        rider_id = req.rider_id;
        rider_name = req.rider_name;
        rider_phone = req.rider_phone;
        driver = none;
        vehicle_type = req.vehicle_type;
        pickup = req.pickup;
        destination = req.destination;
        fare = estimate_fare n req.vehicle_type distance_km;
        status = requested;
        distance_km = distance_km;
        duration_mins = duration_mins n distance_km;
        eta_minutes = req.eta_minutes;
        payment_method = req.payment_method;
        created_at = now;
        updated_at = now;
        otp = none;
      }

  abbrev pub body_of : CreateRideRequest N → RideBody N
  body_of req = record {
    rider_id = req.rider_id;
    pickup = record { lat = req.pickup.latitude; lng = req.pickup.longitude };
    destination = record { lat = req.destination.latitude; lng = req.destination.longitude };
  }

  -- The ride, with the events sent so far, the last first.
  unfoldable pub create_ride :
      CreateRideRequest N → ℕ → List (Event N) → Result E (Ride N) × List (Event N)
  create_ride req now sent = elim (api.post_ride (body_of req)) [
    | err e ↦ (err e, sent)
    | ok ride_id ↦
        let ride = ride_of req ride_id now in
        (
          ok ride,
          driver_request_received ride 15
              ∷ ride_status_changed ride.id requested (some ride)
              ∷ sent,
        )
  ]

  unfoldable pub cancel_ride : String → List (Event N) → Result E (Unit {0}) × List (Event N)
  cancel_ride ride_id sent = elim (api.post_cancel ride_id) [
    | err e ↦ (err e, sent)
    | ok u ↦ (ok u, ride_status_changed ride_id cancelled none ∷ sent)
  ]
