-- ===== src/Web/DriverStore/Laws.antt =====
-- The trip on the screen and the day's account against what was sent, action by action.
use ryd_trip.Prelude.{
  suc, String, ◌≡◌, ap, sym, refl, subst, Bool, true, false, Option, none, some, List, [], ◌∷◌,
  arith, str_eq, eq_refl, if◌then◌else◌, length,
}
use ryd_trip.Exec.{Result, ok, err}
use ryd_trip.EventSchema as Backend
use ryd_trip.RideStore.{
  RideStatus, matched, driver_arriving, driver_arrived, in_progress, completed, cancelled,
  LocationPoint, Ride,
}
use ryd_trip.Web.Pricing.{Numbers}
use ryd_trip.Web.Rides.{
  Event, ride_status_changed, driver_assigned, driver_location_updated, driver_request_received,
  trip_completed,
}
use ryd_trip.Web.DriverStore.{
  DriverStatus, offline, online, busy, User, Api, DriverStore, set_status, announce_location, send,
  backend_to_ui_status, sync_status_from_backend, synced, toggled, same_status,
}
use ryd_trip.Web.DriverStore.Trips.{
  accept_shown, accepted, decline_shown, declined, arrive_shown, advanced, start_shown,
  complete_shown, finished, start_settled,
}

module _ {N : Type 0} where
  -- The fares of the trips whose completion was sent, the last first.
  abbrev pub fares_sent : List (Event N) → List N
  fares_sent [] = []
  fares_sent (trip_completed id fare ∷ es) = fare ∷ fares_sent es
  fares_sent (ride_status_changed id status ride ∷ es) = fares_sent es
  fares_sent (driver_assigned id driver ∷ es) = fares_sent es
  fares_sent (driver_location_updated id loc ∷ es) = fares_sent es
  fares_sent (driver_request_received ride seconds ∷ es) = fares_sent es

  -- The last status that was sent for a ride.
  abbrev pub last_status : String → List (Event N) → Option RideStatus
  last_status id [] = none
  last_status id (ride_status_changed ride_id status ride ∷ es) =
      let rest = last_status id es in if str_eq ride_id id then some status else rest
  last_status id (trip_completed ride_id fare ∷ es) = last_status id es
  last_status id (driver_assigned ride_id driver ∷ es) = last_status id es
  last_status id (driver_location_updated driver_id loc ∷ es) = last_status id es
  last_status id (driver_request_received ride seconds ∷ es) = last_status id es

  abbrev pub Shown : Option (Ride N) → List (Event N) → Type 0
  Shown none es = Unit {0}
  Shown (some trip) es = last_status trip.id es ≡ some trip.status

pub sent_last :
    {N : Type 0} (id : String) (status : RideStatus) (ride : Option (Ride N)) (es : List (Event N))
    → last_status id (ride_status_changed id status ride ∷ es) ≡ some status
sent_last id status ride es = ground (arith, eq_refl id)

past_location :
    {N : Type 0} (shown : Option (Ride N)) (id : String) (loc : LocationPoint N)
    (es : List (Event N))
    → Shown shown es
    → Shown shown (driver_location_updated id loc ∷ es)
past_location none id loc es h = h
past_location (some trip) id loc es h = h

synced_as :
    {N : Type 0} (o : Option Backend.DriverStatus) (s : DriverStore N)
    → (status : DriverStatus) × (synced o s ≡ record s { status = status })
unfolding synced backend_to_ui_status
synced_as none s = (s.status, refl)
synced_as (some status) s = (backend_to_ui_status status, refl)

module _ {N : Type 0} (n : Numbers N) where
  -- The sum as the store adds it up, from the first fare to the last.
  abbrev pub total : List N → N
  total [] = n.of_ℕ 0
  total (fare ∷ fares) = n.add (total fares) fare

  -- The count and the earnings are those of the completions that were sent.
  abbrev pub Accounts : DriverStore N → Type 0
  Accounts s =
      (s.todays_trips_count ≡ length (fares_sent s.events))
      × (s.todays_earnings ≡ total (fares_sent s.events))

  -- What holds of the store between two actions: its accounts, and that the trip on the screen has
  -- the last status that was sent for it.
  pub record InStep (s : DriverStore N) : Type 0 where
    pub accounts : Accounts s
    pub shown : Shown s.active_trip s.events

  pub if-InStep :
      (b : Bool) (s t : DriverStore N) → InStep s → InStep t → InStep (if b then s else t)
  if-InStep true s t hs ht = hs
  if-InStep false s t hs ht = ht

  synced-InStep :
      (o : Option Backend.DriverStatus) (s : DriverStore N) → InStep s → InStep (synced o s)
  unfolding synced
  synced-InStep none s h = h
  synced-InStep (some status) s h = record { accounts = h.accounts; shown = h.shown }

  module _ {E : Type 0} (api : Api E N) where
    pub sync-InStep :
        (id : String) (s : DriverStore N) → InStep s → InStep (sync_status_from_backend api id s)
    unfolding sync_status_from_backend
    sync-InStep id s h = synced-InStep (api.get_driver id) s h

    pub toggled-InStep :
        (status : DriverStatus) (user : Option User) (s : DriverStore N)
        → InStep s
        → InStep (toggled api status user s)
    unfolding toggled set_status
    toggled-InStep busy user s h = h
    toggled-InStep online none s h = h
    toggled-InStep offline none s h = h
    toggled-InStep online (some u) s h =
        if-InStep (api.update_driver_status u.id Backend.offline) (set_status offline s) s
          (record { accounts = h.accounts; shown = h.shown }) h
    toggled-InStep offline (some u) s h =
        if-InStep (api.update_driver_status u.id Backend.available) (set_status online s) s
          (record { accounts = h.accounts; shown = h.shown }) h

    pub advanced-InStep :
        (status : RideStatus) (trip : Ride N) (s : DriverStore N)
        → InStep s
        → InStep (advanced api status trip s)
    unfolding advanced
    advanced-InStep status trip s h = record {
      accounts = h.accounts;
      shown = sent_last trip.id status (some (record trip { status = status })) s.events;
    }

    pub accept-InStep :
        (shown : Option (Ride N)) (s : DriverStore N) → InStep s → InStep (accept_shown api shown s)
    unfolding accept_shown accepted
    accept-InStep none s h = h
    accept-InStep (some trip) s h =
        if-InStep (same_status trip.status matched)
          (if api.accept_trip trip.id then accepted api trip s else s) s
          (if-InStep (api.accept_trip trip.id) (accepted api trip s) s
            (record {
              accounts = h.accounts;
              shown =
                  sent_last trip.id driver_arriving
                    (some (record trip { status = driver_arriving })) s.events;
            })
            h)
          h

    declined-InStep :
        (user : User) (trip : Ride N) (s : DriverStore N)
        → InStep s
        → InStep (declined api user trip s)
    unfolding declined sync_status_from_backend
    declined-InStep user trip s h =
        let (status, e) = synced_as (api.get_driver user.id) (record s { active_trip = none }) in
        subst (λ t. InStep (send (ride_status_changed trip.id cancelled none) t)) (sym e)
          (record { accounts = h.accounts; shown = tt })

    pub decline-InStep :
        (user : Option User) (shown : Option (Ride N)) (s : DriverStore N)
        → InStep s
        → InStep (decline_shown api user shown s)
    unfolding decline_shown
    decline-InStep user none s h = h
    decline-InStep none (some trip) s h = h
    decline-InStep (some user) (some trip) s h =
        if-InStep (same_status trip.status matched)
          (if api.decline_trip trip.id then declined api user trip s else s) s
          (if-InStep (api.decline_trip trip.id) (declined api user trip s) s
            (declined-InStep user trip s h) h)
          h

    pub arrive-InStep :
        (shown : Option (Ride N)) (s : DriverStore N) → InStep s → InStep (arrive_shown api shown s)
    unfolding arrive_shown
    arrive-InStep none s h = h
    arrive-InStep (some trip) s h =
        if-InStep (api.mark_driver_arrived trip.id) (advanced api driver_arrived trip s) s
          (advanced-InStep driver_arrived trip s h) h

    settled-InStep :
        (trip : Ride N) (r : Result E (Unit {0})) (s : DriverStore N)
        → InStep s
        → InStep (start_settled api trip r s).1
    unfolding start_settled
    settled-InStep trip (err e) s h = h
    settled-InStep trip (ok u) s h = advanced-InStep in_progress trip s h

    pub start-InStep :
        (otp : String) (shown : Option (Ride N)) (s : DriverStore N)
        → InStep s
        → InStep (start_shown api otp shown s).1
    unfolding start_shown
    start-InStep otp none s h = h
    start-InStep otp (some trip) s h = settled-InStep trip (api.start_trip trip.id otp) s h

    finished-InStep :
        (user : User) (trip : Ride N) (s : DriverStore N)
        → InStep s
        → InStep (finished api n user trip s)
    unfolding finished sync_status_from_backend
    finished-InStep user trip s h =
        let (status, e) = synced_as (api.get_driver user.id) (record s {
          active_trip = none;
          todays_trips_count = suc s.todays_trips_count;
          todays_earnings = n.add s.todays_earnings trip.fare;
        }) in
        subst
          (λ t. InStep (
            send (ride_status_changed trip.id completed none)
              (send (trip_completed trip.id trip.fare) t)))
          (sym e)
          (record {
            accounts = (ap suc h.accounts.0, ap (λ sum. n.add sum trip.fare) h.accounts.1);
            shown = tt;
          })

    pub complete-InStep :
        (user : Option User) (shown : Option (Ride N)) (s : DriverStore N)
        → InStep s
        → InStep (complete_shown api n user shown s)
    unfolding complete_shown
    complete-InStep user none s h = h
    complete-InStep none (some trip) s h = h
    complete-InStep (some user) (some trip) s h =
        if-InStep (api.complete_trip trip.id) (finished api n user trip s) s
          (finished-InStep user trip s h) h

  pub located-InStep :
      (loc : LocationPoint N) (user : Option User) (b : Bool) (s : DriverStore N)
      → InStep s
      → InStep (announce_location loc user b s)
  unfolding announce_location
  located-InStep loc none b s h = h
  located-InStep loc (some u) false s h = h
  located-InStep loc (some u) true s h = record {
    accounts = h.accounts;
    shown = past_location s.active_trip u.id loc s.events h.shown;
  }
