-- ===== src/Prelude/Strings.antt =====
-- Strings: their concatenation, and whether two are equal.
use Prim.Native.String.{String}
use mathlib.Core.Path.{◌≡◌, refl}
use mathlib.Core.Bool.{Bool, true, false}
use native.Mathlib.Omega.{arith}
use text.Mathlib.Text.{◌==◌ as str_eq}
use text.Mathlib.TextEquality.{eq_iff}

abbrev pub str_append : String → String → String
str_append String.[] t = t
str_append (String.◌∷◌ c s) t = String.◌∷◌ c (str_append s t)

unfoldable decide_str : (s t : String) (b : Bool) → str_eq s t ≡ b → Dec (s ≡ t)
decide_str s t true e = yes ((eq_iff s t).0 e)
decide_str s t false e = no (λ p. ground (arith, (eq_iff s t).1 p))

unfoldable pub String-discrete : Discrete String
unfolding decide_str
String-discrete s t = decide_str s t (str_eq s t) refl

unfoldable pub StringPair-discrete : Discrete (String × String)
unfolding String-discrete
StringPair-discrete = hlevel (String-discrete)
