-- ===== src/Web/DriverStore/Trips.antt =====
-- apps/web/src/stores/useDriverStore.ts: how the trip on the screen is found and goes on.
use ryd_trip.Prelude.{ℕ, suc, String, Option, none, some, str_eq, if◌then◌else◌}
use ryd_trip.Exec.{Result, ok, err}
use ryd_trip.EventSchema as Backend
use ryd_trip.RideStore.{
  RideStatus, matched, driver_arriving, driver_arrived, in_progress, completed, cancelled,
  mock_payment, LocationPoint, Ride,
}
use ryd_trip.Web.Pricing.{
  Numbers, map_driver_vehicle_type, calculate_distance_km, estimate_fare, duration_mins,
}
use ryd_trip.Web.Rides.{ride_status_changed, driver_assigned, trip_completed}
use ryd_trip.Web.DriverStore.{
  busy, User, RiderContact, Api, DriverStore, same_status, backend_to_ui_ride_status, send,
  describe_coords, sync_status_from_backend,
}

module _ {E N : Type 0} (api : Api E N) where
  -- No trip is assigned: one that is shown is over, so the real status is read again.
  unfoldable pub dropped : String → Option (Ride N) → DriverStore N → DriverStore N
  unfolding sync_status_from_backend
  dropped driver_id none s = s
  dropped driver_id (some shown) s =
      sync_status_from_backend api driver_id (record s { active_trip = none })

  abbrev or_rider : Option RiderContact → RiderContact
  or_rider none = record { name = "Rider"; phone = "" }
  or_rider (some c) = c

  abbrev readdressed : Option String → LocationPoint N → LocationPoint N
  readdressed none point = point
  readdressed (some address) point = record point { address = address }

  -- A point of a trip with the address of the geocoder, or else its coordinates.
  unfoldable pub described : Numbers N → Backend.GeoPoint N → LocationPoint N
  unfolding describe_coords
  described n point =
      readdressed (api.reverse_geocode point.lat point.lng) (describe_coords n point.lat point.lng)

  unfoldable pub hydrated :
      Numbers N → User → Backend.Ride N → RideStatus → LocationPoint N → ℕ → Ride N
  unfolding described describe_coords
  hydrated n user trip status location now =
      let contact = or_rider (api.get_rider_contact trip.rider_id) in
      let vehicle_type = map_driver_vehicle_type user.vehicle_type in
      let distance_km =
        calculate_distance_km n (describe_coords n trip.pickup.lat trip.pickup.lng)
          (describe_coords n trip.destination.lat trip.destination.lng) in
      record {
        id = trip.id;
        rider_id = trip.rider_id;
        rider_name = contact.name;
        rider_phone = contact.phone;
        driver = some (record {
          id = user.id;
          name = user.name;
          rating = none;
          total_trips = none;
          vehicle_model = "Vehicle details not yet tracked";
          vehicle_color = none;
          license_plate = none;
          phone = user.phone;
          current_location = location;
        });
        vehicle_type = vehicle_type;
        pickup = described n trip.pickup;
        destination = described n trip.destination;
        fare = estimate_fare n vehicle_type distance_km;
        status = status;
        distance_km = distance_km;
        duration_mins = duration_mins n distance_km;
        eta_minutes = n.of_ℕ 4;
        payment_method = mock_payment;
        created_at = now;
        updated_at = now;
        otp = none;
      }

  -- A trip that was not shown before.
  unfoldable pub discovered :
      Numbers N → Option User → Backend.Ride N → RideStatus → ℕ → DriverStore N → DriverStore N
  unfolding hydrated
  discovered n none trip status now s = s
  discovered n (some user) trip status now s =
      let fresh = hydrated n user trip status s.current_location now in
      send (ride_status_changed trip.id status (some fresh)) (
        send (driver_assigned trip.id fresh.driver)
          (record s { active_trip = some fresh; status = busy }))

  abbrev with_status : RideStatus → Ride N → Ride N
  with_status status ride = record ride { status = status }

  -- The same trip, whose status may have moved.
  unfoldable pub moved : Ride N → RideStatus → DriverStore N → DriverStore N
  unfolding same_status
  moved shown status s =
      if same_status shown.status status
      then s
      else send (ride_status_changed shown.id status (some (with_status status shown)))
          (record s { active_trip = some (with_status status shown) })

  unfoldable pub polled :
      Numbers N
      → Option User
      → Backend.Ride N
      → RideStatus
      → ℕ
      → Option (Ride N)
      → DriverStore N
      → DriverStore N
  unfolding discovered moved
  polled n user trip status now none s = discovered n user trip status now s
  polled n user trip status now (some shown) s =
      if str_eq shown.id trip.id then moved shown status s else discovered n user trip status now s

  unfoldable pub assigned :
      Numbers N
      → Option User
      → Backend.Ride N
      → Option RideStatus
      → ℕ
      → DriverStore N
      → DriverStore N
  unfolding polled
  assigned n user trip none now s = s
  assigned n user trip (some status) now s = polled n user trip status now s.active_trip s

  unfoldable pub poll_answered :
      Numbers N
      → Option User
      → String
      → ℕ
      → Option (Option (Backend.Ride N))
      → DriverStore N
      → DriverStore N
  unfolding dropped assigned
  poll_answered n user driver_id now none s = s
  poll_answered n user driver_id now (some none) s = dropped driver_id s.active_trip s
  poll_answered n user driver_id now (some (some trip)) s =
      assigned n user trip (backend_to_ui_ride_status trip.status) now s

  unfoldable pub poll_active_trip :
      Numbers N → Option User → String → ℕ → DriverStore N → DriverStore N
  unfolding poll_answered
  poll_active_trip n user driver_id now s =
      poll_answered n user driver_id now (api.get_active_trip_for_driver driver_id) s

  -- A trip goes on: it is shown with its new status, which is sent.
  unfoldable pub advanced : RideStatus → Ride N → DriverStore N → DriverStore N
  advanced status trip s =
      send (ride_status_changed trip.id status (some (with_status status trip)))
        (record s { active_trip = some (with_status status trip) })

  unfoldable pub accepted : Ride N → DriverStore N → DriverStore N
  accepted trip s =
      let updated = with_status driver_arriving trip in
      send (ride_status_changed trip.id driver_arriving (some updated))
        (send (driver_assigned trip.id updated.driver) (record s { active_trip = some updated }))

  unfoldable pub accept_shown : Option (Ride N) → DriverStore N → DriverStore N
  unfolding same_status accepted
  accept_shown none s = s
  accept_shown (some trip) s =
      if same_status trip.status matched
      then (if api.accept_trip trip.id then accepted trip s else s)
      else s

  unfoldable pub accept_trip : DriverStore N → DriverStore N
  unfolding accept_shown
  accept_trip s = accept_shown s.active_trip s

  unfoldable pub declined : User → Ride N → DriverStore N → DriverStore N
  unfolding sync_status_from_backend
  declined user trip s =
      send (ride_status_changed trip.id cancelled none)
        (sync_status_from_backend api user.id (record s { active_trip = none }))

  unfoldable pub decline_shown : Option User → Option (Ride N) → DriverStore N → DriverStore N
  unfolding same_status declined
  decline_shown user none s = s
  decline_shown none (some trip) s = s
  decline_shown (some user) (some trip) s =
      if same_status trip.status matched
      then (if api.decline_trip trip.id then declined user trip s else s)
      else s

  unfoldable pub decline_trip : Option User → DriverStore N → DriverStore N
  unfolding decline_shown
  decline_trip user s = decline_shown user s.active_trip s

  unfoldable pub arrive_shown : Option (Ride N) → DriverStore N → DriverStore N
  unfolding advanced
  arrive_shown none s = s
  arrive_shown (some trip) s =
      if api.mark_driver_arrived trip.id then advanced driver_arrived trip s else s

  unfoldable pub arrive_at_pickup : DriverStore N → DriverStore N
  unfolding arrive_shown
  arrive_at_pickup s = arrive_shown s.active_trip s

  unfoldable pub start_settled :
      Ride N → Result E (Unit {0}) → DriverStore N → Result E (Unit {0}) × DriverStore N
  unfolding advanced
  start_settled trip (err e) s = (err e, s)
  start_settled trip (ok u) s = (ok tt, advanced in_progress trip s)

  unfoldable pub start_shown :
      String → Option (Ride N) → DriverStore N → Result E (Unit {0}) × DriverStore N
  unfolding start_settled
  start_shown otp none s = (ok tt, s)
  start_shown otp (some trip) s = start_settled trip (api.start_trip trip.id otp) s

  -- It throws what the gateway answered, so that the screen can show it.
  unfoldable pub start_trip : String → DriverStore N → Result E (Unit {0}) × DriverStore N
  unfolding start_shown
  start_trip otp s = start_shown otp s.active_trip s

  unfoldable pub finished : Numbers N → User → Ride N → DriverStore N → DriverStore N
  unfolding sync_status_from_backend
  finished n user trip s = send (ride_status_changed trip.id completed none) (
      send (trip_completed trip.id trip.fare) (
        sync_status_from_backend api user.id (record s {
          active_trip = none;
          todays_trips_count = suc s.todays_trips_count;
          todays_earnings = n.add s.todays_earnings trip.fare;
        })))

  unfoldable pub complete_shown :
      Numbers N → Option User → Option (Ride N) → DriverStore N → DriverStore N
  unfolding finished
  complete_shown n user none s = s
  complete_shown n none (some trip) s = s
  complete_shown n (some user) (some trip) s =
      if api.complete_trip trip.id then finished n user trip s else s

  unfoldable pub complete_trip : Numbers N → Option User → DriverStore N → DriverStore N
  unfolding complete_shown
  complete_trip n user s = complete_shown n user s.active_trip s
