-- ===== src/DriverService/Drivers/Sessions.antt =====
-- A driver's token at the gateway.
use ryd_trip.Prelude.{◌≡◌, ◌≢◌, ◌↔◌, inr, refl, some, List, [], ◌∷◌, ◌++◌, arith}
use ryd_trip.Exec.{ok}
use ryd_trip.Tables.Accounts.{AccountTable}
use ryd_trip.Credentials.{Credentials, user_of}
use ryd_trip.Gateway.Pattern.{Text, codes, strip_prefix}
use ryd_trip.Gateway.Pattern.Laws.{IsSegment}
use ryd_trip.Gateway.Routes.{ProxyRoute, match_route}
use ryd_trip.Gateway.JwtAuthGuard.{bearer_token, can_activate}
use ryd_trip.Gateway.JwtAuthGuard.Resources.{OwnsDriver, request, status_path, status_update_iff}
use ryd_trip.DriverService.Drivers.{
  DriverRow, Driver, keys, LoginDriverDto, AuthResult, claims_of, to_domain, login,
}
use ryd_trip.DriverService.Drivers.Accounts.{login-Known}

abbrev pub bearing : Text → Text
bearing token = codes "Bearer " ++ token

bears : (token : Text) → token ≢ [] → bearer_token (some (bearing token)) ≡ some token
unfolding bearer_token strip_prefix
bears [] ne = absurd (ne refl)
bears (c ∷ token) ne = refl

owns_own :
    {R : Type 0} (account : Driver R) (id : Text)
    → OwnsDriver id (user_of (claims_of account)) ↔ (id ≡ codes account.id)
unfolding claims_of
owns_own account id = (λ o. ground arith, λ e. inr (refl, e))

module _ {R : Type 0} (drivers : AccountTable (DriverRow R) keys) (lib : Credentials)
    (routes : List ProxyRoute) where
  signed_moves_own_driver :
      (account : Driver R) (id : Text) (r : ProxyRoute)
      → IsSegment id
      → match_route (status_path id) routes ≡ some r
      → (can_activate lib.verify routes
            (request "PATCH" (status_path id) (bearing (lib.sign (claims_of account))))
          ≡ ok (some (user_of (claims_of account))))
        ↔ (id ≡ codes account.id)
  signed_moves_own_driver account id r is_id matched =
      let claims = claims_of account in
      let token = lib.sign claims in
      let passes =
        status_update_iff lib.verify routes id (bearing token) token (user_of claims) r is_id
          (bears token (lib.sign_not_empty claims)) (lib.verify_sign claims) matched in
      let owns = owns_own account id in (λ h. owns.0 (passes.0 h), λ e. passes.1 (owns.1 e))

  -- The token that a driver's login answers with lets a status update pass the gateway exactly for
  -- the driver that logged in: the id of the path has to be the id of the account.
  pub session_moves_own_driver :
      (t : drivers.State) (dto : LoginDriverDto) (a : AuthResult R) (id : Text) (r : ProxyRoute)
      → login drivers lib t dto ≡ ok a
      → IsSegment id
      → match_route (status_path id) routes ≡ some r
      → (can_activate lib.verify routes (request "PATCH" (status_path id) (bearing a.access_token))
          ≡ ok (some (user_of (claims_of a.account))))
        ↔ (id ≡ codes a.account.id)
  session_moves_own_driver t dto a id r h is_id matched =
      let known = login-Known drivers lib t dto a h in
      rw known.answered (signed_moves_own_driver (to_domain known.row) id r is_id matched)
