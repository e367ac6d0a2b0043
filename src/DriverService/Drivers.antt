-- ===== src/DriverService/Drivers.antt =====
-- services/driver-service/src/drivers/drivers.service.ts and drivers.repository.ts.
-- The table of drivers, the clock of `updatedAt`, bcrypt and the JWT library are parameters. `R` is the
-- type of the ratings, which are JavaScript's numbers.
pub mod Outcomes
pub mod Accounts
pub mod Changes
pub mod Sessions
use ryd_trip.Prelude.{ℕ, suc, String, Option, none, some, str_eq, if◌then◌else◌, Bool, ◌||◌}
use ryd_trip.Exec.{Result, ok, err}
use ryd_trip.EventSchema.{DriverStatus, offline}
use ryd_trip.Tables.Accounts.{
  Keys, AccountTable, Update, updated, missing, duplicate, identifies, Field, is_null, kept,
}
use ryd_trip.Gateway.Pattern.{Text}
use ryd_trip.Gateway.JwtAuthGuard
use ryd_trip.Credentials.{Claims, Credentials}
use ryd_trip.DriverService.DriverStateMachine.{
  InvalidDriverTransitionError, assert_valid_driver_transition,
}

-- A row of the table `drivers`; a `Driver` is the row without its password's hash.
pub record DriverRow (R : Type 0) : Type 0 where
  pub id : String
  pub name : String
  pub phone : String
  pub email : String
  pub password_hash : String
  pub vehicle_type : String
  pub city : String
  pub license_number : String
  pub vehicle_registration_number : String
  pub insurance_policy_number : String
  pub permit_number : Option String
  pub status : DriverStatus
  pub rating : R
  pub created_at : ℕ
  pub updated_at : ℕ

pub record Driver (R : Type 0) : Type 0 where
  pub id : String
  pub name : String
  pub phone : String
  pub email : String
  pub vehicle_type : String
  pub city : String
  pub license_number : String
  pub vehicle_registration_number : String
  pub insurance_policy_number : String
  pub permit_number : Option String
  pub status : DriverStatus
  pub rating : R
  pub created_at : ℕ
  pub updated_at : ℕ

pub record Contact : Type 0 where
  pub name : String
  pub phone : String
  pub vehicle_type : String

pub data DriverError : Type 0 where
  -- NotFoundException
  driver_not_found : String → DriverError
  -- ConflictException
  invalid_transition : InvalidDriverTransitionError → DriverError
  -- P2002 in a change of status, which rethrows it
  constraint_violated : DriverError
  -- The client refuses to write `null` into a column that does not take it.
  null_field : DriverError
  -- P2025
  no_row : DriverError
  -- ConflictException
  already_registered : DriverError
  -- UnauthorizedException
  invalid_credentials : DriverError

unfoldable pub to_domain : {R : Type 0} → DriverRow R → Driver R
to_domain row = record {
  id = row.id;
  name = row.name;
  phone = row.phone;
  email = row.email;
  vehicle_type = row.vehicle_type;
  city = row.city;
  license_number = row.license_number;
  vehicle_registration_number = row.vehicle_registration_number;
  insurance_policy_number = row.insurance_policy_number;
  permit_number = row.permit_number;
  status = row.status;
  rating = row.rating;
  created_at = row.created_at;
  updated_at = row.updated_at;
}

unfoldable pub keys : {R : Type 0} → DriverRow R → Keys
keys row = record { id = row.id; phone = row.phone; email = row.email }

unfoldable pub password_salt_rounds : ℕ
password_salt_rounds = 10

pub record CreateDriverDto : Type 0 where
  pub name : String
  pub phone : String
  pub email : String
  pub password : String
  pub vehicle_type : String
  pub city : String
  pub license_number : String
  pub vehicle_registration_number : String
  pub insurance_policy_number : String
  pub permit_number : Option String

pub record LoginDriverDto : Type 0 where
  pub identifier : String
  pub password : String

pub record UpdateDriverDto : Type 0 where
  pub name : Field
  pub phone : Field
  pub email : Field
  pub city : Field

-- What a creation draws: the row's id, the default rating, the salt and the moment.
pub record Drawn (R : Type 0) : Type 0 where
  pub id : String
  pub rating : R
  pub salt : ℕ
  pub now : ℕ

pub record AuthResult (R : Type 0) : Type 0 where
  pub access_token : Text
  pub account : Driver R

unfoldable pub new_row : {R : Type 0} → CreateDriverDto → String → Drawn R → DriverRow R
new_row dto password_hash drawn = record {
  id = drawn.id;
  name = dto.name;
  phone = dto.phone;
  email = dto.email;
  password_hash = password_hash;
  vehicle_type = dto.vehicle_type;
  city = dto.city;
  license_number = dto.license_number;
  vehicle_registration_number = dto.vehicle_registration_number;
  insurance_policy_number = dto.insurance_policy_number;
  permit_number = dto.permit_number;
  status = offline;
  rating = drawn.rating;
  created_at = drawn.now;
  updated_at = drawn.now;
}

-- No column of these takes `null`.
unfoldable pub has_null : UpdateDriverDto → Bool
has_null dto = is_null dto.name || (is_null dto.phone || (is_null dto.email || is_null dto.city))

unfoldable pub with_profile : {R : Type 0} → UpdateDriverDto → ℕ → DriverRow R → DriverRow R
with_profile dto now row = record row {
  name = kept dto.name row.name;
  phone = kept dto.phone row.phone;
  email = kept dto.email row.email;
  city = kept dto.city row.city;
  updated_at = now;
}

unfoldable pub claims_of : {R : Type 0} → Driver R → Claims
claims_of account = record {
  sub = account.id;
  role = JwtAuthGuard.driver;
  phone = account.phone;
  email = account.email;
}

module _ {R : Type 0} (drivers : AccountTable (DriverRow R) keys) where
  abbrev pub Table : Type 0
  Table = drivers.State

  unfoldable pub find_by_id : Table → String → Result DriverError (Driver R)
  find_by_id t id = elim (drivers.find_unique t id) [
    | none ↦ err (driver_not_found id)
    | some row ↦ ok (to_domain row)
  ]

  -- An empty vehicle type counts as missing: it is falsy.
  unfoldable pub find_vehicle_type : Table → String → Result DriverError String
  find_vehicle_type t id = elim (drivers.find_unique t id) [
    | none ↦ err (driver_not_found id)
    | some row ↦
        if str_eq row.vehicle_type "" then err (driver_not_found id) else ok row.vehicle_type
  ]

  unfoldable pub find_contact : Table → String → Result DriverError Contact
  find_contact t id = elim (find_by_id t id) [
    | err e ↦ err e
    | ok d ↦ ok (record { name = d.name; phone = d.phone; vehicle_type = d.vehicle_type })
  ]

  -- The write of a status, and of the moment of the write.
  unfoldable pub with_status : DriverStatus → ℕ → DriverRow R → DriverRow R
  with_status status now row = record row { status = status; updated_at = now }

  abbrev pub Answer : Type 0
  Answer = Result DriverError (Driver R) × Table

  -- The repository's `updateStatus` at a moment: the answer is the row as it then is.
  unfoldable pub write_status : String → DriverStatus → ℕ → Table → Answer
  write_status id status now t = elim (drivers.update t id (with_status status now)) [
    | missing ↦ (err no_row, t)
    | duplicate ↦ (err constraint_violated, t)
    | updated t' ↦ elim (drivers.find_unique t' id) [
      | none ↦ (err no_row, t')
      | some row ↦ (ok (to_domain row), t')
    ]
  ]

  unfoldable pub update_status : String → DriverStatus → ℕ → Table → Answer
  update_status id target now t = elim (find_by_id t id) [
    | err e ↦ (err e, t)
    | ok driver ↦ elim (assert_valid_driver_transition driver.status target) [
      | err e ↦ (err (invalid_transition e), t)
      | ok u ↦ write_status id target now t
    ]
  ]

  unfoldable pub find_row_by_identifier : Table → String → Option (DriverRow R)
  find_row_by_identifier t identifier =
      drivers.find_first t (λ row. identifies identifier (keys row))

  -- The repository's `create`, and the violated constraint as the service answers it.
  unfoldable pub insert_row : Table → DriverRow R → Answer
  insert_row t row = elim (drivers.create t row) [
    | none ↦ (err already_registered, t)
    | some t' ↦ (ok (to_domain row), t')
  ]

  -- The repository's `update`: the answer is the row as it then is.
  unfoldable pub write_profile : Table → String → UpdateDriverDto → ℕ → Answer
  write_profile t id dto now = elim (drivers.update t id (with_profile dto now)) [
    | missing ↦ (err no_row, t)
    | duplicate ↦ (err already_registered, t)
    | updated t' ↦ elim (drivers.find_unique t' id) [
      | none ↦ (err no_row, t')
      | some row ↦ (ok (to_domain row), t')
    ]
  ]

  unfoldable pub update_profile : Table → String → UpdateDriverDto → ℕ → Answer
  update_profile t id dto now = elim (find_by_id t id) [
    | err e ↦ (err e, t)
    | ok account ↦ if has_null dto then (err null_field, t) else write_profile t id dto now
  ]

  module _ (lib : Credentials) where
    unfoldable pub create : Table → CreateDriverDto → Drawn R → Answer
    create t dto drawn =
        insert_row t (new_row dto (lib.hash dto.password password_salt_rounds drawn.salt) drawn)

    -- What `login` makes of the row that it found.
    unfoldable pub logged_in : Option (DriverRow R) → String → Result DriverError (AuthResult R)
    logged_in none password = err invalid_credentials
    logged_in (some row) password =
        if lib.compare password row.password_hash
        then ok (record {
          access_token = lib.sign (claims_of (to_domain row));
          account = to_domain row;
        })
        else err invalid_credentials

    unfoldable pub login : Table → LoginDriverDto → Result DriverError (AuthResult R)
    unfolding find_row_by_identifier logged_in
    login t dto = logged_in (find_row_by_identifier t dto.identifier) dto.password
