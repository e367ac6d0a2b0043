-- ===== src/Web/RequireAuth/Laws.antt =====
-- Whom a gate lets in.
use ryd_trip.Prelude.{
  ◌≡◌, ◌↔◌, inl, inr, refl, Bool, true, false, Option, none, some, List, arith, Bool-cases,
}
use ryd_trip.Gateway.Pattern.{Text}
use ryd_trip.Web.AuthStore.{Role, rider, driver, User, AuthState, initial, logout, Persist}
use ryd_trip.Web.AuthStore.Laws.{Action, WholeOf, act_all, session-IsWhole}
use ryd_trip.Web.RequireAuth.{
  login_page, wrong_role, children, same_role, gate, require_auth, log_out,
}

same_role_iff : (a b : Role) → (same_role a b ≡ true) ↔ (a ≡ b)
unfolding same_role
same_role_iff rider rider = (λ h. refl, λ e. refl)
same_role_iff driver driver = (λ h. refl, λ e. refl)
same_role_iff rider driver = (λ h. absurd (ground arith), λ e. absurd (ground arith))
same_role_iff driver rider = (λ h. absurd (ground arith), λ e. absurd (ground arith))

module _ {R : Type 0} where
  -- A user with a token and that role is signed in.
  abbrev pub SignedInAs : Role → Option (User R) → Option Text → Type 0
  SignedInAs r user token =
      (u : User R) × (t : Text) × (user ≡ some u) × (token ≡ some t) × (u.role ≡ r)

  gate_iff :
      (r : Role) (b : Bool) (user : Option (User R)) (token : Option Text)
      → WholeOf b user token
      → (gate (some r) b user ≡ children) ↔ SignedInAs r user token
  unfolding gate
  gate_iff r true (some u) (some t) h =
      let same = same_role_iff u.role r in
      (λ e. (u, t, refl, refl, same.0 (ground arith)), λ w. ground arith)
  gate_iff r false none none h = (λ e. absurd (ground arith), λ w. absurd (ground arith))
  gate_iff r true none token h = absurd h
  gate_iff r true (some u) none h = absurd h
  gate_iff r false (some u) token h = absurd h
  gate_iff r false none (some t) h = absurd h

  -- The two ways out of the screen of the wrong role: after the log out the gate asks for a login,
  -- and the gate of the current role is open.
  exits :
      (role : Option Role) (current required : Role) (b : Bool) (user : Option (User R))
      → gate role b user ≡ wrong_role current required
      → gate (some current) b user ≡ children
  unfolding gate same_role
  exits role current required false user e = absurd (ground arith)
  exits role current required true none e = absurd (ground arith)
  exits none current required true (some u) e = absurd (ground arith)
  exits (some r) current required true (some u) e = elim (Bool-cases (same_role u.role r)) [
    | inl h ↦ absurd (ground arith)
    | inr h ↦ ground (arith, same_role_iff u.role current)
  ]

  wrong_role_exits :
      (role : Option Role) (current required : Role) (s : AuthState R)
      → require_auth role s ≡ wrong_role current required
      → (require_auth role (log_out s).0 ≡ login_page role)
        × (require_auth (some current) s ≡ children)
  unfolding require_auth log_out logout gate
  wrong_role_exits role current required s e =
      (refl, exits role current required s.is_authenticated s.user e)

  -- Whatever the pages did before, the gate of a role shows its page exactly if a user with that role
  -- and a token is signed in.
  pub gate_opens_iff :
      (storage : Persist R) (as_ : List (Action R)) (r : Role)
      → (require_auth (some r) (act_all storage as_ initial) ≡ children)
        ↔ SignedInAs r (act_all storage as_ initial).user (act_all storage as_ initial).access_token
  unfolding require_auth
  gate_opens_iff storage as_ r =
      let s = act_all storage as_ initial in
      gate_iff r s.is_authenticated s.user s.access_token (session-IsWhole storage as_)
