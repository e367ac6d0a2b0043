-- ===== src/Web/RequireAuth/Tests.antt =====
-- Gates on a concrete session.
use ryd_trip.Prelude.{ℕ, ◌≡◌, ◌↔◌, refl, false, some, none, List, [], ◌∷◌}
use ryd_trip.Exec.{ok, err}
use ryd_trip.Gateway.Pattern.{codes}
use ryd_trip.Web.ApiClient.{api_error}
use ryd_trip.Web.AuthStore.{
  rider, driver, BackendProfile, AuthState, AuthApi, initial, login, partialize, Persist, Persisted,
}
use ryd_trip.Web.AuthStore.Laws.{act, Action, sign_in, reload, act_all}
use ryd_trip.Web.RequireAuth.{children, wrong_role, require_auth}
use ryd_trip.Web.RequireAuth.Laws.{SignedInAs, gate_opens_iff}

abbrev ravi : BackendProfile ℕ
ravi = record {
  id = "u1";
  name = "Ravi";
  phone = "+91";
  email = "ravi@example.com";
  vehicle_type = none;
  rating = some 5;
}

abbrev api : AuthApi ℕ
api = record {
  post_login = λ role identifier password.
      ok (record { access_token = codes "t1"; rider = some ravi; driver = none });
  post_register = λ role input. err (api_error 409 "A rider with this email is already registered");
}

restored : Persisted ℕ → AuthState ℕ
restored p = record {
  user = p.user;
  access_token = p.access_token;
  is_authenticated = p.is_authenticated;
  is_loading = false;
  error = none;
}

partialize-restored : (p : Persisted ℕ) → partialize (restored p) ≡ p
unfolding partialize restored
partialize-restored p = refl

abbrev storage : Persist ℕ
storage = record { restore = restored; partialize-restore = partialize-restored }

abbrev visit : List (Action ℕ)
visit = sign_in api rider "+91" "secret" ∷ reload ∷ []

abbrev session : AuthState ℕ
session = act_all storage visit initial

gate_opens_iff_example :
    (require_auth (some rider) session ≡ children)
    ↔ SignedInAs rider session.user session.access_token
gate_opens_iff_example = gate_opens_iff storage visit rider

rider_at_driver_gate : require_auth (some driver) session ≡ wrong_role rider driver
unfolding require_auth act_all login restored act partialize
rider_at_driver_gate = refl
