-- ===== src/DriverService/Tests.antt =====
-- The drivers' service on a table in memory.
use ryd_trip.Prelude.{
  ℕ, ◌≡◌, ◌↔◌, ◌∙◌, refl, ap, eq_iff, arith, [], ◌∷◌, some, none, List, String-discrete,
}
use ryd_trip.EventSchema.{offline, available, reserved, on_trip}
use ryd_trip.Tables.Accounts.{AccountTable}
use ryd_trip.Tables.Accounts.Memory.{memory_accounts, find_one, insert}
use ryd_trip.DriverService.Drivers.{
  DriverRow, keys, CreateDriverDto, LoginDriverDto, Drawn, AuthResult, to_domain, claims_of, create,
  login, insert_row, new_row,
}
use ryd_trip.DriverService.Drivers.Accounts.{NoCross, authenticated, register_login}
use ryd_trip.DriverService.Drivers.Sessions.{bearing, session_moves_own_driver}
use ryd_trip.Credentials.{user_of}
use ryd_trip.Credentials.Plain.{plain, plain_sign, plain_verify}
use ryd_trip.Gateway.Pattern.{codes}
use ryd_trip.Gateway.Routes.{ProxyRoute, match_route}
use ryd_trip.Gateway.JwtAuthGuard.{can_activate}
use ryd_trip.Gateway.JwtAuthGuard.Resources.{request, status_path}
use ryd_trip.Exec.{ok}
use ryd_trip.DriverService.Drivers.Outcomes.{Request}

abbrev drivers : AccountTable (DriverRow ℕ) keys
drivers = memory_accounts keys

abbrev asha : DriverRow ℕ
asha = record {
  id = "d1";
  name = "Asha Rao";
  phone = "+919812345670";
  email = "asha@example.com";
  password_hash = "h";
  vehicle_type = "SEDAN";
  city = "Hyderabad";
  license_number = "DL-04";
  vehicle_registration_number = "TS09EA1234";
  insurance_policy_number = "POL-88";
  permit_number = none;
  status = offline;
  rating = 5;
  created_at = 1;
  updated_at = 1;
}

abbrev table : List (DriverRow ℕ)
table = asha ∷ []

abbrev shift : List (Request drivers)
shift = ("d1", available, 7) ∷ ("d1", on_trip, 8) ∷ ("d1", reserved, 9) ∷ []

abbrev arjun : CreateDriverDto
arjun = record {
  name = "Arjun Mehta";
  phone = "+92";
  email = "arjun@example.com";
  password = "secret";
  vehicle_type = "SUV";
  city = "Bengaluru";
  license_number = "DL-05";
  vehicle_registration_number = "KA01AB1234";
  insurance_policy_number = "POL-89";
  permit_number = some "PMT-1";
}

abbrev drawn : Drawn ℕ
drawn = record { id = "d2"; rating = 5; salt = 0; now = 9 }

abbrev arjun_row : DriverRow ℕ
arjun_row = record {
  id = "d2";
  name = "Arjun Mehta";
  phone = "+92";
  email = "arjun@example.com";
  password_hash = "secret";
  vehicle_type = "SUV";
  city = "Bengaluru";
  license_number = "DL-05";
  vehicle_registration_number = "KA01AB1234";
  insurance_policy_number = "POL-89";
  permit_number = some "PMT-1";
  status = offline;
  rating = 5;
  created_at = 9;
  updated_at = 9;
}

arjun_registered :
    create drivers plain table arjun drawn ≡ (ok (to_domain arjun_row), arjun_row ∷ table)
unfolding create insert_row insert String-discrete keys new_row
arjun_registered = refl

no_cross : NoCross drivers plain table arjun
no_cross j w at =
    let (k, is) = find_one keys asha w j at in
    (
      λ e. ground (arith, (eq_iff asha.email "+92").1 (ap (λ r. r.email) is ∙ e)),
      λ e. ground (arith, (eq_iff asha.phone arjun.email).1 (ap (λ r. r.phone) is ∙ e)),
    )

abbrev by_phone : LoginDriverDto
by_phone = record { identifier = "+92"; password = "secret" }

abbrev by_email : LoginDriverDto
by_email = record { identifier = "arjun@example.com"; password = "secret" }

arjun_logs_in :
    (login drivers plain (arjun_row ∷ table) by_phone
      ≡ authenticated drivers plain (to_domain arjun_row))
    × (login drivers plain (arjun_row ∷ table) by_email
        ≡ authenticated drivers plain (to_domain arjun_row))
arjun_logs_in =
    register_login drivers plain table (arjun_row ∷ table) arjun drawn (to_domain arjun_row)
      no_cross arjun_registered

abbrev session : AuthResult ℕ
session = record {
  access_token = plain_sign (claims_of (to_domain arjun_row));
  account = to_domain arjun_row;
}

abbrev routes : List ProxyRoute
routes =
    record { prefix = codes "/drivers"; target = "http://drivers:3002"; route_pattern = none } ∷ []

drivers_matched :
    match_route (status_path (codes "d2")) routes
    ≡ some
        (record { prefix = codes "/drivers"; target = "http://drivers:3002"; route_pattern = none })
unfolding match_route
drivers_matched = refl

session_moves_own_driver_example :
    (can_activate plain_verify routes
        (request "PATCH" (status_path (codes "d2")) (bearing session.access_token))
      ≡ ok (some (user_of (claims_of session.account))))
    ↔ (codes "d2" ≡ codes session.account.id)
session_moves_own_driver_example =
    session_moves_own_driver drivers plain routes (arjun_row ∷ table) by_phone session (codes "d2")
      (record { prefix = codes "/drivers"; target = "http://drivers:3002"; route_pattern = none })
      arjun_logs_in.0 (ground arith, (ground arith, tt)) drivers_matched
