-- ===== src/Web/DriverStore/Polls.antt =====
-- What the polls of a driver's screen do to the trip on it and to the day's account.
use ryd_trip.Prelude.{ℕ, String, Option, none, some, str_eq}
use ryd_trip.EventSchema as Backend
use ryd_trip.RideStore.{RideStatus, Ride}
use ryd_trip.Web.Pricing.{Numbers}
use ryd_trip.Web.DriverStore.{User, Api, DriverStore, same_status, backend_to_ui_ride_status}
use ryd_trip.Web.DriverStore.Trips.{
  dropped, assigned, polled, discovered, moved, poll_answered, advanced, hydrated,
}
use ryd_trip.Web.DriverStore.Laws.{InStep, if-InStep, advanced-InStep, sync-InStep, sent_last}

module _ {N : Type 0} (n : Numbers N) {E : Type 0} (api : Api E N) where
  moved-InStep :
      (shown : Ride N) (status : RideStatus) (s : DriverStore N)
      → InStep n s
      → InStep n (moved api shown status s)
  unfolding moved advanced
  moved-InStep shown status s h =
      if-InStep n (same_status shown.status status) s (advanced api status shown s) h
        (advanced-InStep n api status shown s h)

  discovered-InStep :
      (user : Option User) (trip : Backend.Ride N) (status : RideStatus) (now : ℕ)
      (s : DriverStore N)
      → InStep n s
      → InStep n (discovered api n user trip status now s)
  unfolding discovered hydrated
  discovered-InStep none trip status now s h = h
  discovered-InStep (some user) trip status now s h = record {
    accounts = h.accounts;
    shown =
        sent_last trip.id status (some (hydrated api n user trip status s.current_location now))
          s.events;
  }

  polled-InStep :
      (user : Option User) (trip : Backend.Ride N) (status : RideStatus) (now : ℕ)
      (shown : Option (Ride N)) (s : DriverStore N)
      → InStep n s
      → InStep n (polled api n user trip status now shown s)
  unfolding polled
  polled-InStep user trip status now none s h = discovered-InStep user trip status now s h
  polled-InStep user trip status now (some shown) s h =
      if-InStep n (str_eq shown.id trip.id) (moved api shown status s)
        (discovered api n user trip status now s) (moved-InStep shown status s h)
        (discovered-InStep user trip status now s h)

  assigned-InStep :
      (user : Option User) (trip : Backend.Ride N) (status : Option RideStatus) (now : ℕ)
      (s : DriverStore N)
      → InStep n s
      → InStep n (assigned api n user trip status now s)
  unfolding assigned
  assigned-InStep user trip none now s h = h
  assigned-InStep user trip (some status) now s h =
      polled-InStep user trip status now s.active_trip s h

  cleared-InStep : (s : DriverStore N) → InStep n s → InStep n (record s { active_trip = none })
  cleared-InStep s h = record { accounts = h.accounts; shown = tt }

  dropped-InStep :
      (id : String) (shown : Option (Ride N)) (s : DriverStore N)
      → InStep n s
      → InStep n (dropped api id shown s)
  unfolding dropped
  dropped-InStep id none s h = h
  dropped-InStep id (some shown) s h =
      sync-InStep n api id (record s { active_trip = none }) (cleared-InStep s h)

  pub poll-InStep :
      (user : Option User) (id : String) (now : ℕ) (o : Option (Option (Backend.Ride N)))
      (s : DriverStore N)
      → InStep n s
      → InStep n (poll_answered api n user id now o s)
  unfolding poll_answered
  poll-InStep user id now none s h = h
  poll-InStep user id now (some none) s h = dropped-InStep id s.active_trip s h
  poll-InStep user id now (some (some trip)) s h =
      assigned-InStep user trip (backend_to_ui_ride_status trip.status) now s h
