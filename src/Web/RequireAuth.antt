-- ===== src/Web/RequireAuth.antt =====
-- apps/web/src/components/auth/RequireAuth.tsx: which screen a visitor of a gated page sees, and where
-- the screen of the wrong role leads. The markup is left out.
pub mod Laws
mod Tests
use ryd_trip.Prelude.{String, Bool, true, false, not, Option, none, some, if◌then◌else◌}
use ryd_trip.Web.AuthStore.{Role, rider, driver, User, AuthState, logout}

-- What is rendered: the login page with its required role, the screen of the wrong role with the
-- current and the required one, or the page itself.
pub data Screen : Type 0 where
  login_page : Option Role → Screen
  wrong_role : Role → Role → Screen
  children : Screen

unfoldable pub same_role : Role → Role → Bool
same_role rider rider = true
same_role driver driver = true
same_role _ _ = false

unfoldable pub role_label : Role → String
role_label driver = "Driver"
role_label rider = "Rider"

-- The button that goes to one's own dashboard.
unfoldable pub dashboard : Role → String
dashboard driver = "/driver"
dashboard rider = "/rider"

module _ {R : Type 0} where
  unfoldable pub gate : Option Role → Bool → Option (User R) → Screen
  unfolding same_role
  gate role false user = login_page role
  gate role true none = login_page role
  gate none true (some u) = children
  gate (some r) true (some u) = if not (same_role u.role r) then wrong_role u.role r else children

  unfoldable pub require_auth : Option Role → AuthState R → Screen
  unfolding gate
  require_auth role s = gate role s.is_authenticated s.user

  -- The button that logs out, with the page that it goes to.
  unfoldable pub log_out : AuthState R → AuthState R × String
  unfolding logout
  log_out s = (logout s, "/login")
