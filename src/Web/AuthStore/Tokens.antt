-- ===== src/Web/AuthStore/Tokens.antt =====
-- The token of a session, from the answer to a login to the gateway's guard.
use ryd_trip.Prelude.{
  String, ◌≡◌, ◌≢◌, ◌∙◌, ap, sym, refl, true, Option, none, some, [], ◌∷◌, arith,
}
use ryd_trip.Exec.{Result, ok, err}
use ryd_trip.Gateway.Pattern.{Text, strip_prefix}
use ryd_trip.Gateway.JwtAuthGuard.{bearer_token}
use ryd_trip.Web.ApiClient.{WebError, FetchOptions, authorization, request}
use ryd_trip.Web.AuthStore.{
  Role, BackendProfile, AuthResponse, AuthState, AuthApi, Persisted, signed_in, login_answered,
  profile_of, login, partialize, Persist,
}

header_read : (token : Text) → token ≢ [] → bearer_token (authorization (some token)) ≡ some token
unfolding bearer_token strip_prefix authorization
header_read [] ne = absurd (ne refl)
header_read (c ∷ token) ne = refl

module _ {R : Type 0} where
  signed_in_token :
      (role : Role) (token : Text) (p : Option (BackendProfile R)) (s s' : AuthState R)
      → signed_in role token p s ≡ (ok tt, s')
      → s'.access_token ≡ some token
  unfolding signed_in
  signed_in_token role token none s s' h = absurd (ground arith)
  signed_in_token role token (some p) s s' h = ap (λ o. o.1.access_token) (sym h)

  answered_token :
      (role : Role) (r : Result WebError (AuthResponse R)) (s s' : AuthState R)
      → login_answered role r s ≡ (ok tt, s')
      → (res : AuthResponse R) × (r ≡ ok res) × (s'.access_token ≡ some res.access_token)
  unfolding login_answered
  answered_token role (err e) s s' h = absurd (ground arith)
  answered_token role (ok res) s s' h =
      (res, refl, signed_in_token role res.access_token (profile_of role res) s s' h)

  module _ {J : Type 0} (message_field : J → Option String) (base_url : String)
      (storage : Persist R) where
    -- After a login that succeeded, and after a reload of the page too, the gateway's guard reads from
    -- the header of every request of the application the token that the login was answered with.
    pub gateway_reads_token :
        (api : AuthApi R) (role : Role) (identifier password : String) (s s' : AuthState R)
        (res : AuthResponse R) (cid endpoint : String) (options : FetchOptions J)
        → login api role identifier password s ≡ (ok tt, s')
        → api.post_login role identifier password ≡ ok res
        → res.access_token ≢ []
        → bearer_token (
            (request message_field base_url cid
              (storage.restore (partialize s')).access_token
              endpoint
              options).authorization)
          ≡ some res.access_token
    unfolding login request partialize
    gateway_reads_token api role identifier password s s' res cid endpoint options h answer ne =
        let (res', is, token) =
          answered_token role (api.post_login role identifier password)
            (record s { is_loading = true; error = none }) s' h in
        ap (λ t. bearer_token (authorization t))
          (ap (λ (p : Persisted R). p.access_token) (storage.partialize-restore (partialize s'))
            ∙ token
            ∙ ap some (ground (arith, is, answer)))
        ∙ header_read res.access_token ne
