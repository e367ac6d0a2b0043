-- ===== src/RideStore.antt =====
-- apps/web/src/stores/useRideStore.ts, with the types of apps/web/src/types/index.ts that it uses: the
-- ride that a rider's screen shows, and the history of the session. `N` stands for JavaScript's
-- numbers; the time is an argument of the actions that read it.
pub mod Laws
mod Tests
use ryd_trip.Prelude.{ℕ, String, Option, none, some, List, [], ◌∷◌}

pub data RideStatus : Type 0 where
  idle requested matching matched driver_arriving driver_arrived in_progress completed cancelled :
      RideStatus

pub data VehicleType : Type 0 where
  economy premium auto moto xl : VehicleType

pub data PaymentMethod : Type 0 where
  cash mock_payment : PaymentMethod

module _ (N : Type 0) where
  pub record LocationPoint : Type 0 where
    pub latitude : N
    pub longitude : N
    pub address : String
    pub name : Option String

  pub record DriverInfo : Type 0 where
    pub id : String
    pub name : String
    pub rating : Option N
    pub total_trips : Option N
    pub vehicle_model : String
    pub vehicle_color : Option String
    pub license_plate : Option String
    pub phone : String
    pub current_location : LocationPoint

  pub record Ride : Type 0 where
    pub id : String
    pub rider_id : String
    pub rider_name : String
    pub rider_phone : String
    pub driver : Option DriverInfo
    pub vehicle_type : VehicleType
    pub pickup : LocationPoint
    pub destination : LocationPoint
    pub fare : N
    pub status : RideStatus
    pub distance_km : N
    pub duration_mins : N
    pub eta_minutes : N
    pub payment_method : PaymentMethod
    pub created_at : ℕ
    pub updated_at : ℕ
    pub otp : Option String

  pub record RideStoreState : Type 0 where
    pub active_ride : Option Ride
    pub driver_location : Option LocationPoint
    pub history : List Ride

-- `ride?.driver?.currentLocation || null`.
abbrev location_of_driver : {N : Type 0} → Option (DriverInfo N) → Option (LocationPoint N)
location_of_driver none = none
location_of_driver (some d) = some d.current_location

abbrev pub location_of : {N : Type 0} → Option (Ride N) → Option (LocationPoint N)
location_of none = none
location_of (some ride) = location_of_driver ride.driver

-- A ride that is completed is put in front of the history.
abbrev pub with_completed : {N : Type 0} → RideStatus → Ride N → List (Ride N) → List (Ride N)
with_completed completed ride history = ride ∷ history
with_completed _ ride history = history

module _ {N : Type 0} where
  abbrev pub initial : RideStoreState N
  initial = record { active_ride = none; driver_location = none; history = [] }

  unfoldable pub set_active_ride : Option (Ride N) → RideStoreState N → RideStoreState N
  set_active_ride ride s = record s { active_ride = ride; driver_location = location_of ride }

  unfoldable pub update_ride_status : RideStatus → ℕ → RideStoreState N → RideStoreState N
  update_ride_status status now s = elim s.active_ride [
    | none ↦ s
    | some current ↦
        let updated : Ride N = record current { status = status; updated_at = now } in
        record s { active_ride = some updated; history = with_completed status updated s.history }
  ]

  unfoldable pub set_otp : String → RideStoreState N → RideStoreState N
  set_otp otp s = elim s.active_ride [
    | none ↦ s
    | some current ↦
        let updated : Ride N = record current { otp = some otp } in
        record s { active_ride = some updated }
  ]

  unfoldable pub assign_driver : DriverInfo N → ℕ → RideStoreState N → RideStoreState N
  assign_driver driver now s = elim s.active_ride [
    | none ↦ s
    | some current ↦
        let updated : Ride N = record current {
          driver = some driver;
          status = matched;
          updated_at = now;
        } in
        record s { active_ride = some updated; driver_location = some driver.current_location }
  ]

  unfoldable pub update_driver_location : LocationPoint N → RideStoreState N → RideStoreState N
  update_driver_location loc s = record s { driver_location = some loc }

  unfoldable pub cancel_active_ride : ℕ → RideStoreState N → RideStoreState N
  cancel_active_ride now s = elim s.active_ride [
    | none ↦ s
    | some current ↦
        let gone : Ride N = record current { status = cancelled; updated_at = now } in
        record s { active_ride = some gone; history = gone ∷ s.history }
  ]

  unfoldable pub reset_ride : RideStoreState N → RideStoreState N
  reset_ride s = record s { active_ride = none; driver_location = none }
