-- ===== src/Web/DriverStore.antt =====
-- apps/web/src/stores/useDriverStore.ts: the driver's status, the trip on the screen and the day's
-- account. Each answer of the gateway and of the geocoder is a parameter (`Api`), the signed-in user
-- and the time are arguments, and an action runs to its end before the next one starts.
pub mod Trips
pub mod Laws
pub mod Polls
pub mod Actions
mod Tests
use ryd_trip.Prelude.{
  ℕ, suc, String, Bool, true, false, Option, none, some, List, [], ◌∷◌, str_eq, str_append,
  if◌then◌else◌,
}
use ryd_trip.Exec.{Result, ok, err}
use ryd_trip.EventSchema as Backend
use ryd_trip.RideStore.{
  RideStatus, requested, matching, matched, driver_arriving, driver_arrived, in_progress, completed,
  cancelled, mock_payment, LocationPoint, DriverInfo, Ride,
}
use ryd_trip.Web.Pricing.{
  Numbers, map_driver_vehicle_type, calculate_distance_km, estimate_fare, duration_mins,
}
use ryd_trip.Web.Rides.{
  Event, ride_status_changed, driver_assigned, driver_location_updated, trip_completed,
}

pub data DriverStatus : Type 0 where
  offline online busy : DriverStatus

unfoldable pub backend_to_ui_status : Backend.DriverStatus → DriverStatus
backend_to_ui_status Backend.offline = offline
backend_to_ui_status Backend.suspended = offline
backend_to_ui_status Backend.available = online
backend_to_ui_status Backend.reserved = busy
backend_to_ui_status Backend.on_trip = busy

unfoldable pub backend_to_ui_ride_status : Backend.RideStatus → Option RideStatus
backend_to_ui_ride_status Backend.matched = some matched
backend_to_ui_ride_status Backend.driver_arriving = some driver_arriving
backend_to_ui_ride_status Backend.driver_arrived = some driver_arrived
backend_to_ui_ride_status Backend.in_progress = some in_progress
backend_to_ui_ride_status _ = none

unfoldable pub RideStatus-discrete : Discrete RideStatus
RideStatus-discrete = hlevel

-- `===` on statuses.
unfoldable pub same_status : RideStatus → RideStatus → Bool
unfolding RideStatus-discrete
same_status a b = elim (RideStatus-discrete a b) [ yes _ ↦ true | no _ ↦ false ]

-- What the store reads of the user in useAuthStore.ts.
pub record User : Type 0 where
  pub id : String
  pub name : String
  pub phone : String
  pub vehicle_type : Option String

pub record RiderContact : Type 0 where
  pub name : String
  pub phone : String

-- The answers of the gateway at one moment; `none` and `false` stand for a rejected call.
pub record Api (E N : Type 0) : Type 0 where
  pub get_driver : String → Option Backend.DriverStatus
  pub update_driver_status : String → Backend.DriverStatus → Bool
  pub get_active_trip_for_driver : String → Option (Option (Backend.Ride N))
  pub accept_trip : String → Bool
  pub decline_trip : String → Bool
  pub mark_driver_arrived : String → Bool
  pub start_trip : String → String → Result E (Unit {0})
  pub complete_trip : String → Bool
  pub get_rider_contact : String → Option RiderContact
  pub reverse_geocode : N → N → Option String

pub record DriverStore (N : Type 0) : Type 0 where
  pub status : DriverStatus
  pub current_location : LocationPoint N
  pub active_trip : Option (Ride N)
  pub todays_trips_count : ℕ
  pub todays_earnings : N
  -- The events sent over the socket and the positions sent to the gateway, the last first.
  pub events : List (Event N)
  pub pings : List (String × (N × N))

abbrev pub is_online : DriverStatus → Bool
is_online online = true
is_online _ = false

module _ {N : Type 0} where
  abbrev pub send : Event N → DriverStore N → DriverStore N
  send e s = record s { events = e ∷ s.events }

  unfoldable pub initial : Numbers N → DriverStore N
  initial n = record {
    status = offline;
    current_location = record {
      latitude = n.div (n.of_ℕ 17442) (n.of_ℕ 1000);
      longitude = n.div (n.of_ℕ 78385) (n.of_ℕ 1000);
      address = "Madhapur Main Road, Hyderabad";
      name = some "Madhapur";
    };
    active_trip = none;
    todays_trips_count = 0;
    todays_earnings = n.of_ℕ 0;
    events = [];
    pings = [];
  }

  unfoldable pub describe_coords : Numbers N → N → N → LocationPoint N
  describe_coords n latitude longitude = record {
    latitude = latitude;
    longitude = longitude;
    address = str_append (n.to_fixed_4 latitude) (str_append ", " (n.to_fixed_4 longitude));
    name = none;
  }

  unfoldable pub set_status : DriverStatus → DriverStore N → DriverStore N
  set_status status s = record s { status = status }

  unfoldable pub announce_location :
      LocationPoint N → Option User → Bool → DriverStore N → DriverStore N
  announce_location loc (some u) true s = record s {
    events = driver_location_updated u.id loc ∷ s.events;
    pings = (u.id, (loc.latitude, loc.longitude)) ∷ s.pings;
  }
  announce_location loc _ _ s = s

  unfoldable pub set_current_location :
      Option User → LocationPoint N → DriverStore N → DriverStore N
  unfolding announce_location
  set_current_location user loc s =
      announce_location loc user (is_online s.status) (record s { current_location = loc })

  unfoldable pub synced : Option Backend.DriverStatus → DriverStore N → DriverStore N
  unfolding backend_to_ui_status
  synced none s = s
  synced (some status) s = record s { status = backend_to_ui_status status }

  module _ {E : Type 0} (api : Api E N) where
    unfoldable pub sync_status_from_backend : String → DriverStore N → DriverStore N
    unfolding synced
    sync_status_from_backend driver_id s = synced (api.get_driver driver_id) s

    abbrev pub switched :
        String → Backend.DriverStatus → DriverStatus → DriverStore N → DriverStore N
    switched id backend next s =
        if api.update_driver_status id backend then record s { status = next } else s

    unfoldable pub toggled : DriverStatus → Option User → DriverStore N → DriverStore N
    toggled busy user s = s
    toggled status none s = s
    toggled online (some u) s = switched u.id Backend.offline offline s
    toggled offline (some u) s = switched u.id Backend.available online s

    unfoldable pub toggle_online : Option User → DriverStore N → DriverStore N
    unfolding toggled
    toggle_online user s = toggled s.status user s
