-- ===== src/Web/AuthStore/Tests.antt =====
-- A session on concrete answers of the gateway.
use ryd_trip.Prelude.{ℕ, String, ◌≡◌, refl, false, some, none, List, [], ◌∷◌, arith, Option}
use ryd_trip.Exec.{ok, err}
use ryd_trip.Gateway.Pattern.{codes}
use ryd_trip.Gateway.JwtAuthGuard.{bearer_token}
use ryd_trip.Web.ApiClient.{api_error, request}
use ryd_trip.Web.AuthStore.{
  rider, BackendProfile, AuthResponse, AuthState, AuthApi, initial, login, login_answered,
  signed_in, partialize, Persist, Persisted, UserPatch,
}
use ryd_trip.Web.AuthStore.Laws.{
  Action, sign_in, sign_out, reload, patch, act_all, IsWhole, session-IsWhole,
}
use ryd_trip.Web.AuthStore.Tokens.{gateway_reads_token}

abbrev ravi : BackendProfile ℕ
ravi = record {
  id = "u1";
  name = "Ravi";
  phone = "+91";
  email = "ravi@example.com";
  vehicle_type = none;
  rating = some 5;
}

abbrev welcome : AuthResponse ℕ
welcome = record { access_token = codes "t1"; rider = some ravi; driver = none }

abbrev api : AuthApi ℕ
api = record {
  post_login = λ role identifier password. ok welcome;
  post_register = λ role input. err (api_error 409 "A rider with this email is already registered");
}

restored : Persisted ℕ → AuthState ℕ
restored p = record {
  user = p.user;
  access_token = p.access_token;
  is_authenticated = p.is_authenticated;
  is_loading = false;
  error = none;
}

partialize-restored : (p : Persisted ℕ) → partialize (restored p) ≡ p
unfolding partialize restored
partialize-restored p = refl

abbrev storage : Persist ℕ
storage = record { restore = restored; partialize-restore = partialize-restored }

abbrev new_name : UserPatch ℕ
new_name = record {
  id = none;
  name = some "Ravi K";
  phone = none;
  email = none;
  role = none;
  vehicle_type = none;
  rating = none;
  avatar = none;
}

abbrev visit : List (Action ℕ)
visit = sign_in api rider "+91" "secret" ∷ patch new_name ∷ reload ∷ sign_out ∷ []

session-IsWhole_example : IsWhole (act_all storage visit initial)
session-IsWhole_example = session-IsWhole storage visit

abbrev signed : AuthState ℕ
signed = (login api rider "+91" "secret" initial).1

signed_in_well : login api rider "+91" "secret" initial ≡ (ok tt, signed)
unfolding login login_answered signed_in
signed_in_well = refl

abbrev no_message : ℕ → Option String
no_message j = none

gateway_reads_token_example :
    bearer_token (
      (request no_message "http://localhost:3000" "c1"
        (storage.restore (partialize signed)).access_token
        "/trips/r1"
        (record { method = "GET"; body = none })).authorization)
    ≡ some (codes "t1")
gateway_reads_token_example =
    gateway_reads_token no_message "http://localhost:3000" storage api rider "+91" "secret" initial
      signed welcome "c1" "/trips/r1" (record { method = "GET"; body = none }) signed_in_well refl
      (λ e. ground arith)
