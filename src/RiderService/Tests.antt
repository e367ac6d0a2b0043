-- ===== src/RiderService/Tests.antt =====
-- The rider service on a table in memory.
use ryd_trip.Prelude.{
  ℕ, List, ◌≡◌, refl, ap, ◌∙◌, eq_iff, arith, String, Bool, true, [], ◌∷◌, String-discrete,
}
use ryd_trip.EventSchema.{undefined, reason_text, listed, rider_cancelled}
use ryd_trip.EventSchema.EventPublisher.{EventPublisher}
use ryd_trip.Tables.Accounts.{AccountTable, left_out, given}
use ryd_trip.Tables.Accounts.Memory.{memory_accounts, find_one, insert}
use ryd_trip.Exec.{ok}
use ryd_trip.TripService.RideEventsConsumer.{Payload}
use ryd_trip.RiderService.Riders as Riders
use ryd_trip.RiderService.Riders.{
  RiderRow, keys, CreateRiderDto, UpdateRiderDto, Drawn, to_domain, login, update_profile,
  insert_row, new_row,
}
use ryd_trip.RiderService.Riders.Changes.{ProfileOutcome, update_profile-ProfileOutcome}
use ryd_trip.RiderService.Riders.Accounts.{NoCross, authenticated, register_login}
use ryd_trip.Credentials.Plain.{plain}
use ryd_trip.RiderService.Rides.{CreateRideDto, create, cancel}
use ryd_trip.RiderService.Rides.Cancellation.{CancelOutcome, cancel-CancelOutcome}

abbrev riders : AccountTable (RiderRow ℕ) keys
riders = memory_accounts keys

abbrev uuid : ℕ → String
uuid n = "r1"

abbrev always : ℕ → Bool
always n = true

abbrev ravi : RiderRow ℕ
ravi = record {
  id = "u1";
  name = "Ravi";
  phone = "+91";
  email = "ravi@example.com";
  password_hash = "h";
  rating = 5;
  created_at = 1;
  updated_at = 1;
}

abbrev table : List (RiderRow ℕ)
table = ravi ∷ []

abbrev to_airport : CreateRideDto ℕ
to_airport = record {
  rider_id = "u1";
  pickup = record { lat = 1; lng = 2 };
  destination = record { lat = 3; lng = 4 };
}

abbrev idle : EventPublisher (Payload ℕ)
idle = record { sent = []; uuids = 0; now = 8 }

cancel-CancelOutcome_example :
    CancelOutcome uuid always "r1"
      (reason_text (listed rider_cancelled))
      idle
      (cancel uuid always "r1" "c1" undefined idle)
cancel-CancelOutcome_example = cancel-CancelOutcome uuid always "r1" "c1" undefined idle

abbrev priya : CreateRiderDto
priya = record { name = "Priya"; phone = "+92"; email = "priya@example.com"; password = "secret" }

abbrev drawn : Drawn ℕ
drawn = record { id = "u2"; rating = 5; salt = 0; now = 9 }

abbrev priya_row : RiderRow ℕ
priya_row = record {
  id = "u2";
  name = "Priya";
  phone = "+92";
  email = "priya@example.com";
  password_hash = "secret";
  rating = 5;
  created_at = 9;
  updated_at = 9;
}

priya_registered :
    Riders.create riders plain table priya drawn ≡ (ok (to_domain priya_row), priya_row ∷ table)
unfolding Riders.create insert_row insert String-discrete keys new_row
priya_registered = refl

no_cross : NoCross riders plain table priya
no_cross j w at =
    let (k, is) = find_one keys ravi w j at in
    (
      λ e. ground (arith, (eq_iff ravi.email "+92").1 (ap (λ r. r.email) is ∙ e)),
      λ e. ground (arith, (eq_iff ravi.phone priya.email).1 (ap (λ r. r.phone) is ∙ e)),
    )

abbrev new_phone : UpdateRiderDto
new_phone = record { name = left_out; phone = given "+93"; email = left_out }

update_profile-ProfileOutcome_example :
    ProfileOutcome riders table "u1" new_phone 10 (update_profile riders table "u1" new_phone 10)
update_profile-ProfileOutcome_example = update_profile-ProfileOutcome riders table "u1" new_phone 10

register_login_example :
    (login riders plain (priya_row ∷ table) (record { identifier = "+92"; password = "secret" })
      ≡ authenticated riders plain (to_domain priya_row))
    × (login riders plain
          (priya_row ∷ table)
          (record { identifier = "priya@example.com"; password = "secret" })
        ≡ authenticated riders plain (to_domain priya_row))
register_login_example =
    register_login riders plain table (priya_row ∷ table) priya drawn (to_domain priya_row) no_cross
      priya_registered
