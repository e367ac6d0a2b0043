-- ===== src/Web/ToastStore/Laws.antt =====
-- No toast stays: each has a timer that is still to come.
use ryd_trip.Prelude.{
  ℕ, ◌+◌, ◌<◌, ◌≤◌, String, ◌≡◌, ◌≢◌, ◌⊎◌, inl, inr, refl, List, [], ◌∷◌, ◌++◌, arith, str_eq,
  eq_refl, leb, Bool-cases, subst,
}
use ryd_trip.Web.ToastStore.{
  ToastType, Toast, Timer, ToastState, without, show_toast, dismiss_toast, fire, waiting, tick,
}

abbrev pub AllToasts : (Toast → Type 0) → List Toast → Type 0
AllToasts P [] = Unit {0}
AllToasts P (t ∷ ts) = P t × AllToasts P ts

-- A timer is set for the toast.
abbrev pub HasTimer : List Timer → Toast → Type 0
HasTimer [] t = ⊥
HasTimer (x ∷ xs) t = (x.toast_id ≡ t.id) ⊎ HasTimer xs t

-- A timer is set for the toast that is due after `now`.
abbrev pub TimedAfter : ℕ → List Timer → Toast → Type 0
TimedAfter now [] t = ⊥
TimedAfter now (x ∷ xs) t = ((x.toast_id ≡ t.id) × (now < x.due)) ⊎ TimedAfter now xs t

all_map :
    {P Q : Toast → Type 0}
    → ((t : Toast) → P t → Q t)
    → (ts : List Toast) → AllToasts P ts
    → AllToasts Q ts
all_map f [] h = tt
all_map f (t ∷ ts) (p, h) = (f t p, all_map f ts h)

all_without :
    {P Q : Toast → Type 0} (id : String)
    → ((t : Toast) → id ≢ t.id → P t → Q t)
    → (ts : List Toast) → AllToasts P ts
    → AllToasts Q (without id ts)
unfolding without
all_without id f [] h = tt
all_without {Q = Q} id f (t ∷ ts) (p, h) =
    let rest : AllToasts Q (without id ts) = all_without id f ts h in
    elim (Bool-cases (str_eq t.id id)) [
      | inl e ↦ rw e rest
      | inr e ↦ rw e (f t (λ same. absurd (ground (arith, eq_refl id))) p, rest)
    ]

-- The timers that fire take with them the toasts whose timers they are.
fired :
    (Q : Toast → Type 0) (now : ℕ) (xs : List Timer) (ts : List Toast)
    → AllToasts (λ t. HasTimer xs t ⊎ Q t) ts
    → AllToasts (λ t. TimedAfter now (waiting now xs) t ⊎ Q t) (fire now xs ts)
unfolding fire waiting
fired Q now [] ts h = h
fired Q now (x ∷ xs) ts h =
    let rest : AllToasts (λ t. TimedAfter now (waiting now xs) t ⊎ ((x.toast_id ≡ t.id) ⊎ Q t))
        (fire now xs ts) =
      fired (λ t. (x.toast_id ≡ t.id) ⊎ Q t) now xs ts (all_map (λ t p. ground arith) ts h) in
    elim (Bool-cases (leb x.due now)) [
      | inl e ↦ rw e (all_without x.toast_id (λ t ne p. ground arith) (fire now xs ts) rest)
      | inr e ↦ rw e (all_map (λ t p. ground arith) (fire now xs ts) rest)
    ]

-- What the pages and the clock do with the store.
pub data Event : Type 0 where
  shown : ℕ → String → String → ToastType → Event
  dismissed : String → Event
  ticked : ℕ → Event

unfoldable pub act : Event → ToastState → ToastState
unfolding show_toast dismiss_toast tick
act (shown now id message type_) s = show_toast now id message type_ s
act (dismissed id) s = dismiss_toast id s
act (ticked now) s = tick now s

unfoldable pub act_all : List Event → ToastState → ToastState
unfolding act
act_all [] s = s
act_all (e ∷ es) s = act_all es (act e s)

unfoldable pub initial : ToastState
initial = record { toasts = []; timers = [] }

-- Nothing was shown after `now`.
abbrev pub ShownBy : ℕ → List Event → Type 0
ShownBy now [] = Unit {0}
ShownBy now (shown at id message type_ ∷ es) = (at ≤ now) × ShownBy now es
ShownBy now (e ∷ es) = ShownBy now es

abbrev DueBy : ℕ → List Timer → Type 0
DueBy limit [] = Unit {0}
DueBy limit (x ∷ xs) = (x.due ≤ limit) × DueBy limit xs

-- Every toast has a timer, and every timer is due by `limit`.
abbrev IsTimed : ℕ → ToastState → Type 0
IsTimed limit s = AllToasts (HasTimer s.timers) s.toasts × DueBy limit s.timers

all_append :
    (P : Toast → Type 0) (ts : List Toast) (t : Toast)
    → AllToasts P ts
    → P t
    → AllToasts P (ts ++ t ∷ [])
all_append P [] t h p = (p, tt)
all_append P (u ∷ us) t (q, h) p = (q, all_append P us t h p)

waiting-DueBy : (limit now : ℕ) (xs : List Timer) → DueBy limit xs → DueBy limit (waiting now xs)
unfolding waiting
waiting-DueBy limit now [] h = tt
waiting-DueBy limit now (x ∷ xs) (d, h) = ground (arith, waiting-DueBy limit now xs h)

timed_has : (now : ℕ) (xs : List Timer) (t : Toast) → TimedAfter now xs t → HasTimer xs t
timed_has now [] t h = h
timed_has now (x ∷ xs) t (inl (e, l)) = inl e
timed_has now (x ∷ xs) t (inr h) = inr (timed_has now xs t h)

-- After the timers that are due have fired, every toast has one that is not.
ticked_after :
    (limit now : ℕ) (s : ToastState)
    → IsTimed limit s
    → AllToasts (TimedAfter now (waiting now s.timers)) (fire now s.timers s.toasts)
ticked_after limit now s (h, d) =
    all_map (λ t p. ground arith) (fire now s.timers s.toasts)
      (fired (λ t. ⊥) now s.timers s.toasts (all_map (λ t p. inl p) s.toasts h))

show-IsTimed :
    (limit now : ℕ) (id message : String) (type_ : ToastType) (s : ToastState)
    → now + 4000 ≤ limit
    → IsTimed limit s
    → IsTimed limit (show_toast now id message type_ s)
unfolding show_toast
show-IsTimed limit now id message type_ s l (h, d) = (
  all_append _ s.toasts (record { id = id; type_ = type_; message = message })
      (all_map (λ t p. inr p) s.toasts h) (inl refl),
  (l, d),
)

act_all-IsTimed :
    (now : ℕ) (es : List Event) (s : ToastState)
    → ShownBy now es
    → IsTimed (now + 4000) s
    → IsTimed (now + 4000) (act_all es s)
unfolding act_all dismiss_toast tick
act_all-IsTimed now [] s b h = h
act_all-IsTimed now (shown at id message type_ ∷ es) s (l, b) h =
    act_all-IsTimed now es (show_toast at id message type_ s) b
      (show-IsTimed (now + 4000) at id message type_ s (omega arith) h)
act_all-IsTimed now (dismissed id ∷ es) s b (h, d) =
    act_all-IsTimed now es (dismiss_toast id s) b (all_without id (λ t ne p. p) s.toasts h, d)
act_all-IsTimed now (ticked at ∷ es) s b (h, d) = act_all-IsTimed now es (tick at s) b (
  all_map (timed_has at (waiting at s.timers)) (fire at s.timers s.toasts)
      (ticked_after (now + 4000) at s (h, d)),
  waiting-DueBy (now + 4000) at s.timers d,
)

none_waits : (limit : ℕ) (xs : List Timer) → DueBy limit xs → waiting limit xs ≡ []
unfolding waiting
none_waits limit [] h = refl
none_waits limit (x ∷ xs) (d, h) = ground (arith, none_waits limit xs h)

all_absurd : (ts : List Toast) → AllToasts (λ t. ⊥) ts → ts ≡ []
all_absurd [] h = refl
all_absurd (t ∷ ts) (p, h) = absurd p

-- Whatever is shown and dismissed, and whatever timers fire in between, four seconds after the last
-- toast was shown none is left on the screen and no timer waits.
pub all_gone :
    (now : ℕ) (es : List Event)
    → ShownBy now es
    → tick (now + 4000) (act_all es initial) ≡ record { toasts = []; timers = [] }
unfolding tick initial
all_gone now es b =
    let s = act_all es initial in
    let limit = now + 4000 in
    let timed = act_all-IsTimed now es initial b (tt, tt) in
    let waits = none_waits limit s.timers timed.1 in
    let left = fire limit s.timers s.toasts in
    rw
      (
        all_absurd left (
            subst (λ (ys : List Timer). AllToasts (TimedAfter limit ys) left) waits
              (ticked_after limit limit s timed)),
        waits,
      )
      refl
