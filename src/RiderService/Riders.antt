-- ===== src/RiderService/Riders.antt =====
-- services/rider-service/src/riders/riders.service.ts and riders.repository.ts: the accounts of the
-- riders. The table, bcrypt and the JWT library are parameters.
pub mod Accounts
pub mod Changes
use ryd_trip.Prelude.{ℕ, String, Option, none, some, if◌then◌else◌, Bool, ◌||◌}
use ryd_trip.Exec.{Result, ok, err}
use ryd_trip.Tables.Accounts.{
  Keys, AccountTable, Update, updated, missing, duplicate, identifies, Field, is_null, kept,
}
use ryd_trip.Gateway.Pattern.{Text}
use ryd_trip.Gateway.JwtAuthGuard
use ryd_trip.Credentials.{Claims, Credentials}

-- A row of the table `riders`; a `Rider` is the row without its password's hash.
pub record RiderRow (R : Type 0) : Type 0 where
  pub id : String
  pub name : String
  pub phone : String
  pub email : String
  pub password_hash : String
  pub rating : R
  pub created_at : ℕ
  pub updated_at : ℕ

pub record Rider (R : Type 0) : Type 0 where
  pub id : String
  pub name : String
  pub phone : String
  pub email : String
  pub rating : R
  pub created_at : ℕ
  pub updated_at : ℕ

unfoldable pub to_domain : {R : Type 0} → RiderRow R → Rider R
to_domain row = record {
  id = row.id;
  name = row.name;
  phone = row.phone;
  email = row.email;
  rating = row.rating;
  created_at = row.created_at;
  updated_at = row.updated_at;
}

pub record Contact : Type 0 where
  pub name : String
  pub phone : String

unfoldable pub keys : {R : Type 0} → RiderRow R → Keys
keys row = record { id = row.id; phone = row.phone; email = row.email }

unfoldable pub password_salt_rounds : ℕ
password_salt_rounds = 10

pub record CreateRiderDto : Type 0 where
  pub name : String
  pub phone : String
  pub email : String
  pub password : String

pub record LoginRiderDto : Type 0 where
  pub identifier : String
  pub password : String

pub record UpdateRiderDto : Type 0 where
  pub name : Field
  pub phone : Field
  pub email : Field

-- What a creation draws: the row's id, the default rating, the salt and the moment.
pub record Drawn (R : Type 0) : Type 0 where
  pub id : String
  pub rating : R
  pub salt : ℕ
  pub now : ℕ

pub record AuthResult (R : Type 0) : Type 0 where
  pub access_token : Text
  pub account : Rider R

pub data RiderError : Type 0 where
  -- NotFoundException
  rider_not_found : String → RiderError
  -- ConflictException
  already_registered : RiderError
  -- UnauthorizedException
  invalid_credentials : RiderError
  -- The client refuses to write `null` into a column that does not take it.
  null_field : RiderError
  -- P2025
  no_row : RiderError

unfoldable pub new_row : {R : Type 0} → CreateRiderDto → String → Drawn R → RiderRow R
new_row dto password_hash drawn = record {
  id = drawn.id;
  name = dto.name;
  phone = dto.phone;
  email = dto.email;
  password_hash = password_hash;
  rating = drawn.rating;
  created_at = drawn.now;
  updated_at = drawn.now;
}

-- No column of these takes `null`.
unfoldable pub has_null : UpdateRiderDto → Bool
has_null dto = is_null dto.name || (is_null dto.phone || is_null dto.email)

unfoldable pub with_profile : {R : Type 0} → UpdateRiderDto → ℕ → RiderRow R → RiderRow R
with_profile dto now row = record row {
  name = kept dto.name row.name;
  phone = kept dto.phone row.phone;
  email = kept dto.email row.email;
  updated_at = now;
}

unfoldable pub claims_of : {R : Type 0} → Rider R → Claims
claims_of account = record {
  sub = account.id;
  role = JwtAuthGuard.rider;
  phone = account.phone;
  email = account.email;
}

module _ {R : Type 0} (riders : AccountTable (RiderRow R) keys) where
  unfoldable pub find_by_id : riders.State → String → Result RiderError (Rider R)
  find_by_id t id = elim (riders.find_unique t id) [
    | none ↦ err (rider_not_found id)
    | some row ↦ ok (to_domain row)
  ]

  unfoldable pub find_contact : riders.State → String → Result RiderError Contact
  find_contact t id = elim (find_by_id t id) [
    | err e ↦ err e
    | ok account ↦ ok (record { name = account.name; phone = account.phone })
  ]

  unfoldable pub find_row_by_identifier : riders.State → String → Option (RiderRow R)
  find_row_by_identifier t identifier =
      riders.find_first t (λ row. identifies identifier (keys row))

  abbrev pub Answer : Type 0
  Answer = Result RiderError (Rider R) × riders.State

  -- The repository's `create`, and the violated constraint as the service answers it.
  unfoldable pub insert_row : riders.State → RiderRow R → Answer
  insert_row t row = elim (riders.create t row) [
    | none ↦ (err already_registered, t)
    | some t' ↦ (ok (to_domain row), t')
  ]

  -- The repository's `update`: the answer is the row as it then is.
  unfoldable pub write_profile : riders.State → String → UpdateRiderDto → ℕ → Answer
  write_profile t id dto now = elim (riders.update t id (with_profile dto now)) [
    | missing ↦ (err no_row, t)
    | duplicate ↦ (err already_registered, t)
    | updated t' ↦ elim (riders.find_unique t' id) [
      | none ↦ (err no_row, t')
      | some row ↦ (ok (to_domain row), t')
    ]
  ]

  unfoldable pub update_profile : riders.State → String → UpdateRiderDto → ℕ → Answer
  update_profile t id dto now = elim (find_by_id t id) [
    | err e ↦ (err e, t)
    | ok account ↦ if has_null dto then (err null_field, t) else write_profile t id dto now
  ]

  module _ (lib : Credentials) where
    unfoldable pub create : riders.State → CreateRiderDto → Drawn R → Answer
    create t dto drawn =
        insert_row t (new_row dto (lib.hash dto.password password_salt_rounds drawn.salt) drawn)

    -- What `login` makes of the row that it found.
    unfoldable pub logged_in : Option (RiderRow R) → String → Result RiderError (AuthResult R)
    logged_in none password = err invalid_credentials
    logged_in (some row) password =
        if lib.compare password row.password_hash
        then ok (record {
          access_token = lib.sign (claims_of (to_domain row));
          account = to_domain row;
        })
        else err invalid_credentials

    unfoldable pub login : riders.State → LoginRiderDto → Result RiderError (AuthResult R)
    unfolding find_row_by_identifier logged_in
    login t dto = logged_in (find_row_by_identifier t dto.identifier) dto.password
