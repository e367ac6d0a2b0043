-- ===== src/Web/Websocket/Events/Laws.antt =====
-- Subscriptions and their ends.
use ryd_trip.Prelude.{
  ℕ, String, ◌≡◌, ◌≢◌, ◌∙◌, refl, ap, subst, Bool, true, false, List, [], ◌∷◌, arith, str_eq,
  eq_refl, Bool-cases, inl, inr, if◌then◌else◌,
}
use ryd_trip.Web.Websocket.Events.{
  Listeners, add, delete, subscribe, unsubscribe, keep, listeners_of, clear,
}

abbrev Filled : Listeners → Type 0
Filled [] = Unit {0}
Filled ((t, ls) ∷ rest) = (ls ≢ []) × Filled rest

abbrev pub Absent : ℕ → List ℕ → Type 0
Absent l [] = Unit {0}
Absent l (m ∷ ms) = (m ≢ l) × Absent l ms

delete-add : (l : ℕ) (ls : List ℕ) → Absent l ls → delete l (add l ls) ≡ ls
unfolding add delete
delete-add l [] h = ground arith
delete-add l (m ∷ ms) (ne, h) = ground (arith, delete-add l ms h)

keep_filled :
    (t : String) (ls : List ℕ) (rest : Listeners) → ls ≢ [] → keep t ls rest ≡ (t, ls) ∷ rest
keep_filled t [] rest ne = absurd (ne refl)
keep_filled t (l ∷ ls) rest ne = refl

module _ (type_ : String) (l : ℕ) (t : String) (ls : List ℕ) (rest : Listeners) where
  subscribe_here : str_eq t type_ ≡ true → subscribe type_ l ((t, ls) ∷ rest) ≡ (t, add l ls) ∷ rest
  unfolding subscribe
  subscribe_here e = rw e refl

  subscribe_there :
      str_eq t type_ ≡ false → subscribe type_ l ((t, ls) ∷ rest) ≡ (t, ls) ∷ subscribe type_ l rest
  unfolding subscribe
  subscribe_there e = rw e refl

  unsubscribe_here :
      str_eq t type_ ≡ true → unsubscribe type_ l ((t, ls) ∷ rest) ≡ keep t (delete l ls) rest
  unfolding unsubscribe
  unsubscribe_here e = rw e refl

  unsubscribe_there :
      str_eq t type_ ≡ false
      → unsubscribe type_ l ((t, ls) ∷ rest) ≡ (t, ls) ∷ unsubscribe type_ l rest
  unfolding unsubscribe
  unsubscribe_there e = rw e refl

  listeners_here : str_eq t type_ ≡ true → listeners_of type_ ((t, ls) ∷ rest) ≡ ls
  unfolding listeners_of
  listeners_here e = rw e refl

  listeners_there :
      str_eq t type_ ≡ false → listeners_of type_ ((t, ls) ∷ rest) ≡ listeners_of type_ rest
  unfolding listeners_of
  listeners_there e = rw e refl

unsubscribe-subscribe :
    (type_ : String) (l : ℕ) (m : Listeners)
    → Filled m
    → Absent l (listeners_of type_ m)
    → unsubscribe type_ l (subscribe type_ l m) ≡ m
unfolding subscribe delete
unsubscribe-subscribe type_ l [] f h =
    unsubscribe_here type_ l type_ (l ∷ []) [] (eq_refl type_) ∙ ground arith
unsubscribe-subscribe type_ l ((t, ls) ∷ rest) (ne, f) h = elim (Bool-cases (str_eq t type_)) [
  | inl same ↦
      ap (unsubscribe type_ l) (subscribe_here type_ l t ls rest same)
      ∙ unsubscribe_here type_ l t (add l ls) rest same
      ∙ ap (λ ks. keep t ks rest)
          (delete-add l ls (subst (Absent l) (listeners_here type_ l t ls rest same) h))
      ∙ keep_filled t ls rest ne
  | inr other ↦
      ap (unsubscribe type_ l) (subscribe_there type_ l t ls rest other)
      ∙ unsubscribe_there type_ l t ls (subscribe type_ l rest) other
      ∙ ap (λ m. (t, ls) ∷ m)
          (unsubscribe-subscribe type_ l rest f
            (subst (Absent l) (listeners_there type_ l t ls rest other) h))
]

if-Filled : (b : Bool) (m n : Listeners) → Filled m → Filled n → Filled (if b then m else n)
if-Filled true m n hm hn = hm
if-Filled false m n hm hn = hn

keep-Filled : (t : String) (ls : List ℕ) (rest : Listeners) → Filled rest → Filled (keep t ls rest)
keep-Filled t [] rest f = f
keep-Filled t (l ∷ ls) rest f = ((λ e. ground arith), f)

add-ne-empty : (l : ℕ) (ls : List ℕ) → add l ls ≢ []
unfolding add
add-ne-empty l [] e = ground arith
add-ne-empty l (m ∷ ms) e = ground arith

subscribe-Filled :
    (type_ : String) (l : ℕ) (m : Listeners) → Filled m → Filled (subscribe type_ l m)
unfolding subscribe
subscribe-Filled type_ l [] f = ((λ e. ground arith), tt)
subscribe-Filled type_ l ((t, ls) ∷ rest) (ne, f) =
    if-Filled (str_eq t type_) ((t, add l ls) ∷ rest) ((t, ls) ∷ subscribe type_ l rest)
      (add-ne-empty l ls, f) (ne, subscribe-Filled type_ l rest f)

unsubscribe-Filled :
    (type_ : String) (l : ℕ) (m : Listeners) → Filled m → Filled (unsubscribe type_ l m)
unfolding unsubscribe
unsubscribe-Filled type_ l [] f = tt
unsubscribe-Filled type_ l ((t, ls) ∷ rest) (ne, f) =
    if-Filled (str_eq t type_) (keep t (delete l ls) rest) ((t, ls) ∷ unsubscribe type_ l rest)
      (keep-Filled t (delete l ls) rest f) (ne, unsubscribe-Filled type_ l rest f)

-- What the pages do with a dispatcher.
pub data Subscription : Type 0 where
  begin end : String → ℕ → Subscription
  forget : Subscription

unfoldable pub after : List Subscription → Listeners → Listeners
after [] m = m
after (begin type_ l ∷ ss) m = after ss (subscribe type_ l m)
after (end type_ l ∷ ss) m = after ss (unsubscribe type_ l m)
after (forget ∷ ss) m = after ss (clear m)

after-Filled : (ss : List Subscription) (m : Listeners) → Filled m → Filled (after ss m)
unfolding after clear
after-Filled [] m f = f
after-Filled (begin type_ l ∷ ss) m f =
    after-Filled ss (subscribe type_ l m) (subscribe-Filled type_ l m f)
after-Filled (end type_ l ∷ ss) m f =
    after-Filled ss (unsubscribe type_ l m) (unsubscribe-Filled type_ l m f)
after-Filled (forget ∷ ss) m f = after-Filled ss [] tt

-- However a dispatcher has been used, to subscribe a listener that is not subscribed to this type and
-- to end that subscription leaves the dispatcher as it was.
subscription_undone :
    (ss : List Subscription) (type_ : String) (l : ℕ)
    → Absent l (listeners_of type_ (after ss []))
    → unsubscribe type_ l (subscribe type_ l (after ss [])) ≡ after ss []
subscription_undone ss type_ l absent =
    unsubscribe-subscribe type_ l (after ss []) (after-Filled ss [] tt) absent
