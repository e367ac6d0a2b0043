-- ===== src/Web/AuthStore.antt =====
-- apps/web/src/stores/useAuthStore.ts: who is signed in, and what of it the browser keeps. The answers
-- of the gateway to the calls and the storage of the browser are parameters.
pub mod Laws
pub mod Tokens
mod Tests
use ryd_trip.Prelude.{◌≡◌, String, Bool, true, false, Option, none, some}
use ryd_trip.Exec.{Result, ok, err}
use ryd_trip.Gateway.Pattern.{Text}
use ryd_trip.Tables.Accounts.{or_keep}
use ryd_trip.Web.ApiClient.{WebError, other_error, message_of}

pub data Role : Type 0 where
  rider driver : Role

-- `R` is the type of ratings.
pub record User (R : Type 0) : Type 0 where
  pub id : String
  pub name : String
  pub phone : String
  pub email : String
  pub role : Role
  pub vehicle_type : Option String
  pub rating : Option R
  pub avatar : Option String

pub record BackendProfile (R : Type 0) : Type 0 where
  pub id : String
  pub name : String
  pub phone : String
  pub email : String
  pub vehicle_type : Option String
  pub rating : Option R

pub record AuthResponse (R : Type 0) : Type 0 where
  pub access_token : Text
  pub rider : Option (BackendProfile R)
  pub driver : Option (BackendProfile R)

pub record RegisterInput : Type 0 where
  pub name : String
  pub phone : String
  pub email : String
  pub password : String
  pub vehicle_type : Option String
  pub city : Option String
  pub license_number : Option String
  pub vehicle_registration_number : Option String
  pub insurance_policy_number : Option String
  pub permit_number : Option String

-- `Partial<User>`: the fields that are there.
pub record UserPatch (R : Type 0) : Type 0 where
  pub id : Option String
  pub name : Option String
  pub phone : Option String
  pub email : Option String
  pub role : Option Role
  pub vehicle_type : Option String
  pub rating : Option R
  pub avatar : Option String

pub record AuthState (R : Type 0) : Type 0 where
  pub user : Option (User R)
  pub access_token : Option Text
  pub is_authenticated : Bool
  pub is_loading : Bool
  pub error : Option String

-- POST /riders/login or /drivers/login, and POST /riders or /drivers.
pub record AuthApi (R : Type 0) : Type 0 where
  pub post_login : Role → String → String → Result WebError (AuthResponse R)
  pub post_register : Role → RegisterInput → Result WebError (Unit {0})

abbrev default_rider_avatar : String
default_rider_avatar =
    "https://images.unsplash.com/photo-1534528741775-53994a69daeb?w=150&auto=format&fit=crop&q=80"

abbrev default_driver_avatar : String
default_driver_avatar =
    "https://images.unsplash.com/photo-1507003211169-0a1dd7228f2d?w=150&auto=format&fit=crop&q=80"

abbrev avatar_of : Role → String
avatar_of rider = default_rider_avatar
avatar_of driver = default_driver_avatar

abbrev pub profile_of : {R : Type 0} → Role → AuthResponse R → Option (BackendProfile R)
profile_of rider res = res.rider
profile_of driver res = res.driver

-- A method that may throw, with the state that it leaves.
abbrev pub Outcome : Type 0 → Type 0
Outcome R = Result WebError (Unit {0}) × AuthState R

-- What `persist` keeps.
pub record Persisted (R : Type 0) : Type 0 where
  pub user : Option (User R)
  pub access_token : Option Text
  pub is_authenticated : Bool

abbrev or_optional {ℓ} : {A : Type ℓ} → Option A → Option A → Option A
or_optional none old = old
or_optional (some a) old = some a

module _ {R : Type 0} where
  unfoldable pub initial : AuthState R
  initial = record {
    user = none;
    access_token = none;
    is_authenticated = false;
    is_loading = false;
    error = none;
  }

  abbrev begun : AuthState R → AuthState R
  begun s = record s { is_loading = true; error = none }

  abbrev failed : WebError → AuthState R → AuthState R
  failed e s = record s { is_loading = false; error = some (message_of e) }

  unfoldable pub user_of : Role → BackendProfile R → User R
  user_of role profile = record {
    id = profile.id;
    name = profile.name;
    phone = profile.phone;
    email = profile.email;
    role = role;
    vehicle_type = profile.vehicle_type;
    rating = profile.rating;
    avatar = some (avatar_of role);
  }

  unfoldable pub signed_in : Role → Text → Option (BackendProfile R) → AuthState R → Outcome R
  unfolding user_of
  signed_in role token none s =
      let e = other_error "Login succeeded but the response was missing a profile" in
      (err e, failed e s)
  signed_in role token (some profile) s = (
    ok tt,
    record s {
      user = some (user_of role profile);
      access_token = some token;
      is_authenticated = true;
      is_loading = false;
      error = none;
    },
  )

  unfoldable pub login_answered : Role → Result WebError (AuthResponse R) → AuthState R → Outcome R
  unfolding signed_in
  login_answered role (err e) s = (err e, failed e s)
  login_answered role (ok res) s = signed_in role res.access_token (profile_of role res) s

  module _ (api : AuthApi R) where
    unfoldable pub login : Role → String → String → AuthState R → Outcome R
    unfolding login_answered
    login role identifier password s =
        login_answered role (api.post_login role identifier password) (begun s)

    -- What the `catch` of `register` does with the outcome of its body.
    abbrev pub recaught : Outcome R → Outcome R
    recaught (ok u, s) = (ok u, s)
    recaught (err e, s) = (err e, failed e s)

    unfoldable pub register_answered :
        Role → RegisterInput → Result WebError (Unit {0}) → AuthState R → Outcome R
    unfolding login
    register_answered role input (err e) s = recaught (err e, s)
    register_answered role input (ok u) s = recaught (login role input.email input.password s)

    unfoldable pub register : Role → RegisterInput → AuthState R → Outcome R
    unfolding register_answered
    register role input s = register_answered role input (api.post_register role input) (begun s)

  unfoldable pub logout : AuthState R → AuthState R
  logout s = record s { user = none; access_token = none; is_authenticated = false; error = none }

  unfoldable pub clear_error : AuthState R → AuthState R
  clear_error s = record s { error = none }

  abbrev patched : UserPatch R → Option (User R) → Option (User R)
  patched patch none = none
  patched patch (some u) = some (record u {
    id = or_keep patch.id u.id;
    name = or_keep patch.name u.name;
    phone = or_keep patch.phone u.phone;
    email = or_keep patch.email u.email;
    role = or_keep patch.role u.role;
    vehicle_type = or_optional patch.vehicle_type u.vehicle_type;
    rating = or_optional patch.rating u.rating;
    avatar = or_optional patch.avatar u.avatar;
  })

  unfoldable pub update_user : UserPatch R → AuthState R → AuthState R
  update_user patch s = record s { user = patched patch s.user }

  unfoldable pub partialize : AuthState R → Persisted R
  partialize s = record {
    user = s.user;
    access_token = s.access_token;
    is_authenticated = s.is_authenticated;
  }

-- The `persist` middleware of zustand: the store of a page that is loaded again holds what was kept.
pub record Persist (R : Type 0) : Type 0 where
  pub restore : Persisted R → AuthState R
  pub partialize-restore : (p : Persisted R) → partialize (restore p) ≡ p
