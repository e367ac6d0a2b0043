-- ===== src/TripService/History.antt =====
-- The list queries of services/trip-service/src/trips: trips.repository.ts, trips.service.ts and
-- trips.controller.ts. `parseInt` is a parameter.
pub mod Laws
mod Tests
use ryd_trip.Prelude.{
  ℕ, String, Bool, true, false, not, ◌&&◌, ◌||◌, Option, none, some, List, [], ◌∷◌, min, max, map,
  str_eq, includes,
}
use ryd_trip.Exec.{Result, ok, err}
use ryd_trip.EventSchema.{RideStatus, RideStatus-discrete, completed, cancelled, Ride}
use ryd_trip.Tables.Listing.{Listing}
use ryd_trip.TripService.Repository.{RideRow, Outside, World, to_domain}

-- What `parseInt` makes of a text.
pub data Parsed : Type 0 where
  number : ℕ → Parsed
  negative not_a_number : Parsed

pub data HistoryError : Type 0 where
  -- Prisma refuses a `take` that is not a number.
  invalid_take : HistoryError

abbrev pub default_history_limit : ℕ
default_history_limit = 20

abbrev pub max_history_limit : ℕ
max_history_limit = 50

-- A limit that is missing or empty is falsy.
unfoldable pub requested_limit : (String → Parsed) → Option String → Option Parsed
requested_limit parse_int none = none
requested_limit parse_int (some s) = elim (str_eq s "") [ true ↦ none | false ↦ some (parse_int s) ]

-- `Math.min(Math.max(limit, 1), MAX_HISTORY_LIMIT)`, where `none` is NaN.
unfoldable pub clamped : Option Parsed → Option ℕ
clamped none = some (min (max default_history_limit 1) max_history_limit)
clamped (some (number n)) = some (min (max n 1) max_history_limit)
clamped (some negative) = some 1
clamped (some not_a_number) = none

abbrev pub is_driver : String → Option String → Bool
is_driver id none = false
is_driver id (some d) = str_eq d id

module _ {N : Type 0} where
  -- The conditions of the three queries.
  unfoldable pub is_active_of : String → RideRow N → Bool
  unfolding includes RideStatus-discrete
  is_active_of driver_id row =
      is_driver driver_id row.driver_id
      && not (includes RideStatus-discrete (completed ∷ cancelled ∷ []) row.status)

  unfoldable pub is_of_rider : String → RideRow N → Bool
  is_of_rider rider_id row = str_eq row.rider_id rider_id

  unfoldable pub is_of_driver : String → RideRow N → Bool
  is_of_driver driver_id row = is_driver driver_id row.driver_id

  abbrev pub age : RideRow N → ℕ
  age row = row.created_at

  module _ (out : Outside N) (lists : Listing out.rides) where
    abbrev domain_of : Option (RideRow N) → Option (Ride N)
    domain_of none = none
    domain_of (some row) = some (to_domain row)

    unfoldable pub find_active_by_driver : String → World out → Option (Ride N)
    find_active_by_driver driver_id w =
        domain_of (lists.find_first w.rides (is_active_of driver_id) age)

    unfoldable pub find_by_rider : String → ℕ → World out → List (Ride N)
    find_by_rider rider_id limit w =
        map to_domain (lists.find_many w.rides (is_of_rider rider_id) age limit)

    unfoldable pub find_by_driver : String → ℕ → World out → List (Ride N)
    find_by_driver driver_id limit w =
        map to_domain (lists.find_many w.rides (is_of_driver driver_id) age limit)

    unfoldable pub find_active_for_driver : String → World out → Option (Ride N)
    find_active_for_driver = find_active_by_driver

    abbrev limited : (ℕ → List (Ride N)) → Option ℕ → Result HistoryError (List (Ride N))
    limited find none = err invalid_take
    limited find (some n) = ok (find n)

    unfoldable pub find_history_for_rider :
        String → Option Parsed → World out → Result HistoryError (List (Ride N))
    unfolding clamped
    find_history_for_rider rider_id limit w =
        limited (λ n. find_by_rider rider_id n w) (clamped limit)

    unfoldable pub find_history_for_driver :
        String → Option Parsed → World out → Result HistoryError (List (Ride N))
    unfolding clamped
    find_history_for_driver driver_id limit w =
        limited (λ n. find_by_driver driver_id n w) (clamped limit)
