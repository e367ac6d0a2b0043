-- ===== src/Credentials.antt =====
-- What the services rely on of bcryptjs and of the JWT library: parameters of the models, and not
-- modelled. The two services sign with the secret that the gateway verifies with.
pub mod Plain
use ryd_trip.Prelude.{ℕ, String, ◌≡◌, ◌≢◌, Bool, true, Option, some, []}
use ryd_trip.Gateway.Pattern.{Text, codes}
use ryd_trip.Gateway.JwtAuthGuard.{Role, AuthenticatedUser}

-- What `login` signs.
pub record Claims : Type 0 where
  pub sub : String
  pub role : Role
  pub phone : String
  pub email : String

abbrev pub user_of : Claims → AuthenticatedUser
user_of c = record { sub = codes c.sub; role = c.role; phone = codes c.phone }

pub record Credentials : Type 0 where
  -- The password, the number of salt rounds, and what is drawn for the salt.
  pub hash : String → ℕ → ℕ → String
  pub compare : String → String → Bool
  pub compare_hash :
      (password : String) (rounds salt : ℕ) → compare password (hash password rounds salt) ≡ true
  pub sign : Claims → Text
  -- Verification before the token expires.
  pub verify : Text → Option AuthenticatedUser
  pub verify_sign : (c : Claims) → verify (sign c) ≡ some (user_of c)
  pub sign_not_empty : (c : Claims) → sign c ≢ []
