-- ===== src/Web/Websocket/Events.antt =====
-- apps/web/src/websocket/events.ts. A listener is known by a number, as a function is by its identity;
-- the events' types are strings, with "*" for every type.
pub mod Laws
use ryd_trip.Prelude.{
  ℕ, String, ◌≡◌, ◌≢◌, ◌∙◌, refl, ap, subst, Bool, true, false, Option, none, some, List, [], ◌∷◌,
  ◌++◌, arith, str_eq, eq_refl, eq_iff, ◌==◌, if◌then◌else◌, Bool-cases, Option-cases, inl, inr,
}

-- A `Map` from types to `Set`s, in the order of insertion.
abbrev pub Listeners : Type 0
Listeners = List (String × List ℕ)

unfoldable pub add : ℕ → List ℕ → List ℕ
add l [] = l ∷ []
add l (m ∷ ms) = let rest = add l ms in if m == l then m ∷ ms else m ∷ rest

unfoldable pub delete : ℕ → List ℕ → List ℕ
delete l [] = []
delete l (m ∷ ms) = let rest = delete l ms in if m == l then ms else m ∷ rest

unfoldable pub subscribe : String → ℕ → Listeners → Listeners
unfolding add
subscribe type_ l [] = (type_, l ∷ []) ∷ []
subscribe type_ l ((t, ls) ∷ rest) =
    let others = subscribe type_ l rest in
    if str_eq t type_ then (t, add l ls) ∷ rest else (t, ls) ∷ others

-- A set that is empty goes out of the map.
abbrev pub keep : String → List ℕ → Listeners → Listeners
keep t [] rest = rest
keep t (l ∷ ls) rest = (t, l ∷ ls) ∷ rest

-- What the function that `subscribe` returned does.
unfoldable pub unsubscribe : String → ℕ → Listeners → Listeners
unfolding delete
unsubscribe type_ l [] = []
unsubscribe type_ l ((t, ls) ∷ rest) =
    let others = unsubscribe type_ l rest in
    if str_eq t type_ then keep t (delete l ls) rest else (t, ls) ∷ others

unfoldable pub listeners_of : String → Listeners → List ℕ
listeners_of type_ [] = []
listeners_of type_ ((t, ls) ∷ rest) =
    let others = listeners_of type_ rest in if str_eq t type_ then ls else others

-- The listeners that an event of the type calls, in order.
unfoldable pub dispatch : String → Listeners → List ℕ
unfolding listeners_of
dispatch type_ m = listeners_of type_ m ++ listeners_of "*" m

unfoldable pub clear : Listeners → Listeners
clear m = []
