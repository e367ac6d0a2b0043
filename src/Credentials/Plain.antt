-- ===== src/Credentials/Plain.antt =====
-- Credentials without any secrecy: the interface can be met, and the examples run on them. A password
-- is its own hash; a token spells out its claims.
use ryd_trip.Prelude.{
  ℕ, zero, suc, ◌≡◌, ◌≢◌, refl, ap, Option, none, some, [], ◌∷◌, ◌++◌, arith, str_eq, eq_iff,
  length, take,
}
use ryd_trip.Gateway.Pattern.{Text, codes}
use ryd_trip.Gateway.JwtAuthGuard as Guard
use ryd_trip.Gateway.JwtAuthGuard.{Role, AuthenticatedUser}
use ryd_trip.Credentials.{Claims, Credentials, user_of}

role_code : Role → ℕ
role_code Guard.rider = 0
role_code Guard.driver = 1
role_code Guard.operator = 2

role_of : ℕ → Role
role_of zero = Guard.rider
role_of (suc zero) = Guard.driver
role_of (suc (suc n)) = Guard.operator

drop : ℕ → Text → Text
drop zero xs = xs
drop (suc n) [] = []
drop (suc n) (x ∷ xs) = drop n xs

take-length : (xs ys : Text) → take (length xs) (xs ++ ys) ≡ xs
take-length [] ys = refl
take-length (x ∷ xs) ys = ap (λ zs. x ∷ zs) (take-length xs ys)

drop-length : (xs ys : Text) → drop (length xs) (xs ++ ys) ≡ ys
unfolding drop
drop-length [] ys = refl
drop-length (x ∷ xs) ys = drop-length xs ys

pub plain_sign : Claims → Text
unfolding role_code
plain_sign c = role_code c.role ∷ length (codes c.sub) ∷ (codes c.sub ++ codes c.phone)

pub plain_verify : Text → Option AuthenticatedUser
unfolding role_of drop
plain_verify [] = none
plain_verify (x ∷ []) = none
plain_verify (r ∷ n ∷ rest) =
    some (record { sub = take n rest; role = role_of r; phone = drop n rest })

role_of-role_code : (r : Role) → role_of (role_code r) ≡ r
unfolding role_of role_code
role_of-role_code Guard.rider = refl
role_of-role_code Guard.driver = refl
role_of-role_code Guard.operator = refl

pub plain_verify_sign : (c : Claims) → plain_verify (plain_sign c) ≡ some (user_of c)
unfolding plain_verify plain_sign
plain_verify_sign c =
    rw
      (
        take-length (codes c.sub) (codes c.phone),
        drop-length (codes c.sub) (codes c.phone),
        role_of-role_code c.role,
      )
      refl

pub plain_sign_not_empty : (c : Claims) → plain_sign c ≢ []
unfolding plain_sign
plain_sign_not_empty c e = ground arith

abbrev pub plain : Credentials
plain = record {
  hash = λ password rounds salt. password;
  compare = str_eq;
  compare_hash = λ password rounds salt. (eq_iff password password).1 refl;
  sign = plain_sign;
  verify = plain_verify;
  verify_sign = plain_verify_sign;
  sign_not_empty = plain_sign_not_empty;
}
