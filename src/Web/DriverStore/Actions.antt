-- ===== src/Web/DriverStore/Actions.antt =====
-- The actions of the screens as one type, and what holds however they follow each other.
use ryd_trip.Prelude.{ℕ, String, refl, Option, List, [], ◌∷◌}
use ryd_trip.RideStore.{LocationPoint}
use ryd_trip.Web.Pricing.{Numbers}
use ryd_trip.Web.DriverStore.{
  DriverStatus, User, Api, DriverStore, set_status, set_current_location, initial, is_online,
  sync_status_from_backend, toggle_online,
}
use ryd_trip.Web.DriverStore.Trips.{
  poll_active_trip, accept_trip, decline_trip, arrive_at_pickup, start_trip, complete_trip,
}
use ryd_trip.Web.DriverStore.Laws.{
  InStep, sync-InStep, toggled-InStep, located-InStep, accept-InStep, decline-InStep, arrive-InStep,
  start-InStep, complete-InStep,
}
use ryd_trip.Web.DriverStore.Polls.{poll-InStep}

-- An action, with the answers of the gateway while it runs.
pub data Action (E N : Type 0) : Type 0 where
  set : DriverStatus → Action E N
  sync : Api E N → String → Action E N
  toggle : Api E N → Option User → Action E N
  locate : Option User → LocationPoint N → Action E N
  poll : Api E N → Option User → String → ℕ → Action E N
  accept : Api E N → Action E N
  decline : Api E N → Option User → Action E N
  arrive : Api E N → Action E N
  start : Api E N → String → Action E N
  complete : Api E N → Option User → Action E N

module _ {E N : Type 0} (n : Numbers N) where
  unfoldable pub act : Action E N → DriverStore N → DriverStore N
  act (set status) s = set_status status s
  act (sync api id) s = sync_status_from_backend api id s
  act (toggle api user) s = toggle_online api user s
  act (locate user loc) s = set_current_location user loc s
  act (poll api user id now) s = poll_active_trip api n user id now s
  act (accept api) s = accept_trip api s
  act (decline api user) s = decline_trip api user s
  act (arrive api) s = arrive_at_pickup api s
  act (start api otp) s = (start_trip api otp s).1
  act (complete api user) s = complete_trip api n user s

  unfoldable pub act_all : List (Action E N) → DriverStore N → DriverStore N
  act_all [] s = s
  act_all (a ∷ as_) s = act_all as_ (act a s)

  act-InStep : (a : Action E N) (s : DriverStore N) → InStep n s → InStep n (act a s)
  unfolding act toggle_online set_status set_current_location poll_active_trip accept_trip
      decline_trip arrive_at_pickup start_trip complete_trip
  act-InStep (set status) s h = record { accounts = h.accounts; shown = h.shown }
  act-InStep (sync api id) s h = sync-InStep n api id s h
  act-InStep (toggle api user) s h = toggled-InStep n api s.status user s h
  act-InStep (locate user loc) s h =
      located-InStep n loc user (is_online s.status) (record s { current_location = loc })
        (record { accounts = h.accounts; shown = h.shown })
  act-InStep (poll api user id now) s h =
      poll-InStep n api user id now (api.get_active_trip_for_driver id) s h
  act-InStep (accept api) s h = accept-InStep n api s.active_trip s h
  act-InStep (decline api user) s h = decline-InStep n api user s.active_trip s h
  act-InStep (arrive api) s h = arrive-InStep n api s.active_trip s h
  act-InStep (start api otp) s h = start-InStep n api otp s.active_trip s h
  act-InStep (complete api user) s h = complete-InStep n api user s.active_trip s h

  act_all-InStep :
      (as_ : List (Action E N)) (s : DriverStore N) → InStep n s → InStep n (act_all as_ s)
  unfolding act_all
  act_all-InStep [] s h = h
  act_all-InStep (a ∷ as_) s h = act_all-InStep as_ (act a s) (act-InStep a s h)

  -- Whatever a driver does and whatever the gateway answers, action by action from the start: the
  -- day's count and earnings are the number and the sum of the fares of the completions that were
  -- sent, and the trip on the screen has the last status that was sent for it.
  pub screen-InStep : (as_ : List (Action E N)) → InStep n (act_all as_ (initial n))
  unfolding initial
  screen-InStep as_ =
      act_all-InStep as_ (initial n) (record { accounts = (refl, refl); shown = tt })
