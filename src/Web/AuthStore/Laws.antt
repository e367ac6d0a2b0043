-- ===== src/Web/AuthStore/Laws.antt =====
-- A session is whole, and what a page that is loaded again finds of it.
use ryd_trip.Prelude.{String, sym, subst, Bool, true, false, Option, none, some, List, [], ◌∷◌}
use ryd_trip.Exec.{Result, ok, err}
use ryd_trip.Gateway.Pattern.{Text}
use ryd_trip.Web.ApiClient.{WebError}
use ryd_trip.Web.AuthStore.{
  Role, User, BackendProfile, AuthResponse, RegisterInput, UserPatch, AuthState, AuthApi, Outcome,
  Persisted, initial, signed_in, login_answered, profile_of, login, register_answered, register,
  recaught, logout, clear_error, update_user, partialize, Persist,
}

-- What the pages do with the store, a reload of the page included.
pub data Action (R : Type 0) : Type 0 where
  sign_in : AuthApi R → Role → String → String → Action R
  sign_up : AuthApi R → Role → RegisterInput → Action R
  sign_out dismiss reload : Action R
  patch : UserPatch R → Action R

module _ {R : Type 0} where
  -- A user and a token are both there exactly while one is signed in.
  abbrev pub WholeOf : Bool → Option (User R) → Option Text → Type 0
  WholeOf true (some u) (some token) = Unit {0}
  WholeOf false none none = Unit {0}
  WholeOf _ _ _ = ⊥

  abbrev pub IsWhole : AuthState R → Type 0
  IsWhole s = WholeOf s.is_authenticated s.user s.access_token

  signed_in-IsWhole :
      (role : Role) (token : Text) (p : Option (BackendProfile R)) (s : AuthState R)
      → IsWhole s
      → IsWhole (signed_in role token p s).1
  unfolding signed_in
  signed_in-IsWhole role token none s h = h
  signed_in-IsWhole role token (some p) s h = tt

  answered-IsWhole :
      (role : Role) (r : Result WebError (AuthResponse R)) (s : AuthState R)
      → IsWhole s
      → IsWhole (login_answered role r s).1
  unfolding login_answered
  answered-IsWhole role (err e) s h = h
  answered-IsWhole role (ok res) s h =
      signed_in-IsWhole role res.access_token (profile_of role res) s h

  recaught-IsWhole : (api : AuthApi R) (o : Outcome R) → IsWhole o.1 → IsWhole (recaught api o).1
  recaught-IsWhole api (ok u, s) h = h
  recaught-IsWhole api (err e, s) h = h

  login-IsWhole :
      (api : AuthApi R) (role : Role) (identifier password : String) (s : AuthState R)
      → IsWhole s
      → IsWhole (login api role identifier password s).1
  unfolding login
  login-IsWhole api role identifier password s h =
      answered-IsWhole role (api.post_login role identifier password)
        (record s { is_loading = true; error = none }) h

  registered-IsWhole :
      (api : AuthApi R) (role : Role) (input : RegisterInput) (r : Result WebError (Unit {0}))
      (s : AuthState R)
      → IsWhole s
      → IsWhole (register_answered api role input r s).1
  unfolding register_answered
  registered-IsWhole api role input (err e) s h = h
  registered-IsWhole api role input (ok u) s h =
      recaught-IsWhole api (login api role input.email input.password s)
        (login-IsWhole api role input.email input.password s h)

  patched-IsWhole :
      (p : UserPatch R) (b : Bool) (user : Option (User R)) (token : Option Text) (loading : Bool)
      (error : Option String)
      → WholeOf b user token
      → IsWhole (
          update_user p (record {
            user = user;
            access_token = token;
            is_authenticated = b;
            is_loading = loading;
            error = error;
          }))
  unfolding update_user
  patched-IsWhole p true (some u) (some token) loading error h = tt
  patched-IsWhole p false none none loading error h = tt
  patched-IsWhole p true none token loading error h = absurd h
  patched-IsWhole p true (some u) none loading error h = absurd h
  patched-IsWhole p false (some u) token loading error h = absurd h
  patched-IsWhole p false none (some t) loading error h = absurd h

  kept-IsWhole :
      (storage : Persist R) (s : AuthState R) → IsWhole s → IsWhole (storage.restore (partialize s))
  unfolding partialize
  kept-IsWhole storage s h =
      subst (λ (p : Persisted R). WholeOf p.is_authenticated p.user p.access_token)
        (sym (storage.partialize-restore (partialize s))) h

module _ {R : Type 0} (storage : Persist R) where
  unfoldable pub act : Action R → AuthState R → AuthState R
  act (sign_in api role identifier password) s = (login api role identifier password s).1
  act (sign_up api role input) s = (register api role input s).1
  act sign_out s = logout s
  act dismiss s = clear_error s
  act reload s = storage.restore (partialize s)
  act (patch p) s = update_user p s

  unfoldable pub act_all : List (Action R) → AuthState R → AuthState R
  act_all [] s = s
  act_all (a ∷ as_) s = act_all as_ (act a s)

  act-IsWhole : (a : Action R) (s : AuthState R) → IsWhole s → IsWhole (act a s)
  unfolding act register logout clear_error
  act-IsWhole (sign_in api role identifier password) s h =
      login-IsWhole api role identifier password s h
  act-IsWhole (sign_up api role input) s h =
      registered-IsWhole api role input (api.post_register role input)
        (record s { is_loading = true; error = none }) h
  act-IsWhole sign_out s h = tt
  act-IsWhole dismiss s h = h
  act-IsWhole reload s h = kept-IsWhole storage s h
  act-IsWhole (patch p) s h =
      patched-IsWhole p s.is_authenticated s.user s.access_token s.is_loading s.error h

  act_all-IsWhole : (as_ : List (Action R)) (s : AuthState R) → IsWhole s → IsWhole (act_all as_ s)
  unfolding act_all
  act_all-IsWhole [] s h = h
  act_all-IsWhole (a ∷ as_) s h = act_all-IsWhole as_ (act a s) (act-IsWhole a s h)

  -- Whatever the pages do and whatever the gateway answers, reloads of the page included, a user and
  -- a token are both there exactly while the store says that one is signed in.
  pub session-IsWhole : (as_ : List (Action R)) → IsWhole (act_all as_ initial)
  unfolding initial
  session-IsWhole as_ = act_all-IsWhole as_ initial tt
