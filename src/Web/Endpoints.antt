-- ===== src/Web/Endpoints.antt =====
-- apps/web/src/api/drivers.ts, riders.ts, trips.ts and rides.ts: the method and the path of each call,
-- without its query. GET /trips/:id and GET /trips/:id/otp are left out.
pub mod Passes
mod Tests
use ryd_trip.Prelude.{String, List, [], ◌∷◌, ◌++◌}
use ryd_trip.Gateway.Pattern.{Text, codes}

pub record Endpoint : Type 0 where
  pub method : String
  pub path : Text

abbrev pub driver_path : Text → Text → Text
driver_path id rest = codes "/drivers/" ++ (id ++ rest)

abbrev pub rider_path : Text → Text → Text
rider_path id rest = codes "/riders/" ++ (id ++ rest)

abbrev pub trip_path : Text → Text → Text
trip_path id rest = codes "/trips/" ++ (id ++ rest)

abbrev pub update_driver_location_endpoint : Text → Endpoint
update_driver_location_endpoint id = record {
  method = "POST";
  path = driver_path id (codes "/location");
}

abbrev pub get_driver_endpoint : Text → Endpoint
get_driver_endpoint id = record { method = "GET"; path = codes "/drivers/" ++ id }

abbrev pub get_driver_profile_endpoint : Text → Endpoint
get_driver_profile_endpoint id = record { method = "GET"; path = codes "/drivers/" ++ id }

abbrev pub update_driver_profile_endpoint : Text → Endpoint
update_driver_profile_endpoint id = record { method = "PATCH"; path = codes "/drivers/" ++ id }

abbrev pub update_driver_status_endpoint : Text → Endpoint
update_driver_status_endpoint id = record {
  method = "PATCH";
  path = driver_path id (codes "/status");
}

abbrev pub get_active_trip_for_driver_endpoint : Text → Endpoint
get_active_trip_for_driver_endpoint id = record {
  method = "GET";
  path = codes "/trips/driver/" ++ (id ++ codes "/active");
}

abbrev pub get_ride_history_for_driver_endpoint : Text → Endpoint
get_ride_history_for_driver_endpoint id = record {
  method = "GET";
  path = codes "/trips/driver/" ++ (id ++ codes "/history");
}

abbrev pub get_rider_contact_endpoint : Text → Endpoint
get_rider_contact_endpoint rider_id = record {
  method = "GET";
  path = rider_path rider_id (codes "/contact");
}

abbrev pub accept_trip_endpoint : Text → Endpoint
accept_trip_endpoint trip_id = record {
  method = "POST";
  path = trip_path trip_id (codes "/accept");
}

abbrev pub decline_trip_endpoint : Text → Endpoint
decline_trip_endpoint trip_id = record {
  method = "POST";
  path = trip_path trip_id (codes "/decline");
}

abbrev pub mark_driver_arrived_endpoint : Text → Endpoint
mark_driver_arrived_endpoint trip_id = record {
  method = "POST";
  path = trip_path trip_id (codes "/driver-arrived");
}

abbrev pub start_trip_endpoint : Text → Endpoint
start_trip_endpoint trip_id = record { method = "POST"; path = trip_path trip_id (codes "/start") }

abbrev pub complete_trip_endpoint : Text → Endpoint
complete_trip_endpoint trip_id = record {
  method = "POST";
  path = trip_path trip_id (codes "/complete");
}

abbrev pub get_rider_profile_endpoint : Text → Endpoint
get_rider_profile_endpoint id = record { method = "GET"; path = codes "/riders/" ++ id }

abbrev pub update_rider_profile_endpoint : Text → Endpoint
update_rider_profile_endpoint id = record { method = "PATCH"; path = codes "/riders/" ++ id }

abbrev pub get_ride_history_for_rider_endpoint : Text → Endpoint
get_ride_history_for_rider_endpoint id = record {
  method = "GET";
  path = codes "/trips/rider/" ++ (id ++ codes "/history");
}

abbrev pub create_ride_endpoint : Endpoint
create_ride_endpoint = record { method = "POST"; path = codes "/rides" }

abbrev pub get_driver_contact_endpoint : Text → Endpoint
get_driver_contact_endpoint driver_id = record {
  method = "GET";
  path = driver_path driver_id (codes "/contact");
}

abbrev pub cancel_ride_endpoint : Text → Endpoint
cancel_ride_endpoint ride_id = record {
  method = "POST";
  path = codes "/rides/" ++ (ride_id ++ codes "/cancel");
}

-- The calls of a driver's screens, with the ids that are not the driver's own.
pub data DriverCall : Type 0 where
  update_driver_location get_driver get_driver_profile update_driver_profile update_driver_status :
      DriverCall
  get_active_trip_for_driver get_ride_history_for_driver : DriverCall
  get_rider_contact : Text → DriverCall
  accept_trip decline_trip mark_driver_arrived start_trip complete_trip : Text → DriverCall

unfoldable pub driver_endpoint : Text → DriverCall → Endpoint
driver_endpoint id update_driver_location = update_driver_location_endpoint id
driver_endpoint id get_driver = get_driver_endpoint id
driver_endpoint id get_driver_profile = get_driver_profile_endpoint id
driver_endpoint id update_driver_profile = update_driver_profile_endpoint id
driver_endpoint id update_driver_status = update_driver_status_endpoint id
driver_endpoint id get_active_trip_for_driver = get_active_trip_for_driver_endpoint id
driver_endpoint id get_ride_history_for_driver = get_ride_history_for_driver_endpoint id
driver_endpoint id (get_rider_contact rider_id) = get_rider_contact_endpoint rider_id
driver_endpoint id (accept_trip trip_id) = accept_trip_endpoint trip_id
driver_endpoint id (decline_trip trip_id) = decline_trip_endpoint trip_id
driver_endpoint id (mark_driver_arrived trip_id) = mark_driver_arrived_endpoint trip_id
driver_endpoint id (start_trip trip_id) = start_trip_endpoint trip_id
driver_endpoint id (complete_trip trip_id) = complete_trip_endpoint trip_id

-- The calls of a rider's screens.
pub data RiderCall : Type 0 where
  get_rider_profile update_rider_profile get_ride_history_for_rider create_ride : RiderCall
  get_driver_contact cancel_ride : Text → RiderCall

unfoldable pub rider_endpoint : Text → RiderCall → Endpoint
rider_endpoint id get_rider_profile = get_rider_profile_endpoint id
rider_endpoint id update_rider_profile = update_rider_profile_endpoint id
rider_endpoint id get_ride_history_for_rider = get_ride_history_for_rider_endpoint id
rider_endpoint id create_ride = create_ride_endpoint
rider_endpoint id (get_driver_contact driver_id) = get_driver_contact_endpoint driver_id
rider_endpoint id (cancel_ride ride_id) = cancel_ride_endpoint ride_id
