-- ===== src/Web/BookingStore.antt =====
-- apps/web/src/stores/useBookingStore.ts: what a rider has chosen before the request. `N` stands for
-- JavaScript's numbers.
use ryd_trip.Prelude.{String, ◌≡◌, refl, Option, none}
use ryd_trip.RideStore.{VehicleType, economy, PaymentMethod, mock_payment, LocationPoint}
use ryd_trip.Web.Rides.{NearbyVehicleEstimate}

pub data ActiveTab : Type 0 where
  ride drive reserve rentals eats : ActiveTab

pub record BookingState (N : Type 0) : Type 0 where
  pub active_tab : ActiveTab
  pub pickup : Option (LocationPoint N)
  pub destination : Option (LocationPoint N)
  pub selected_vehicle : VehicleType
  pub schedule_time : Option String
  pub payment_method : PaymentMethod
  pub nearby_vehicle : Option (NearbyVehicleEstimate N)

module _ {N : Type 0} where
  unfoldable initial : BookingState N
  initial = record {
    active_tab = ride;
    pickup = none;
    destination = none;
    selected_vehicle = economy;
    schedule_time = none;
    payment_method = mock_payment;
    nearby_vehicle = none;
  }

  unfoldable set_active_tab : ActiveTab → BookingState N → BookingState N
  set_active_tab tab s = record s { active_tab = tab }

  unfoldable set_pickup : Option (LocationPoint N) → BookingState N → BookingState N
  set_pickup loc s = record s { pickup = loc }

  unfoldable set_destination : Option (LocationPoint N) → BookingState N → BookingState N
  set_destination loc s = record s { destination = loc }

  unfoldable set_selected_vehicle : VehicleType → BookingState N → BookingState N
  set_selected_vehicle vehicle s = record s { selected_vehicle = vehicle }

  unfoldable set_payment_method : PaymentMethod → BookingState N → BookingState N
  set_payment_method method s = record s { payment_method = method }

  unfoldable set_schedule_time : Option String → BookingState N → BookingState N
  set_schedule_time time s = record s { schedule_time = time }

  unfoldable set_nearby_vehicle : Option (NearbyVehicleEstimate N) → BookingState N → BookingState N
  set_nearby_vehicle estimate s = record s { nearby_vehicle = estimate }

  unfoldable swap_pickup_destination : BookingState N → BookingState N
  swap_pickup_destination s = record s { pickup = s.destination; destination = s.pickup }

  unfoldable reset : BookingState N → BookingState N
  reset s = record s {
    pickup = none;
    destination = none;
    selected_vehicle = economy;
    schedule_time = none;
    nearby_vehicle = none;
  }

  -- The tab and the method of payment are all that a reset keeps of a booking.
  reset_keeps :
      (s : BookingState N)
      → reset s ≡ set_active_tab s.active_tab (set_payment_method s.payment_method initial)
  unfolding reset set_active_tab set_payment_method initial
  reset_keeps s = refl

  -- To swap twice changes nothing.
  swapped_twice : (s : BookingState N) → swap_pickup_destination (swap_pickup_destination s) ≡ s
  unfolding swap_pickup_destination
  swapped_twice s = refl

  -- To choose a place and then swap is to swap and then choose the place at the other end.
  chosen_then_swapped :
      (loc : Option (LocationPoint N)) (s : BookingState N)
      → swap_pickup_destination (set_pickup loc s) ≡ set_destination loc (swap_pickup_destination s)
  unfolding swap_pickup_destination set_pickup set_destination
  chosen_then_swapped loc s = refl
