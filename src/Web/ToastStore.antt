-- ===== src/Web/ToastStore.antt =====
-- apps/web/src/stores/useToastStore.ts: the messages on the screen and the timers that take them away.
-- The reading of the clock and the id of a new toast are arguments.
pub mod Laws
mod Tests
use ryd_trip.Prelude.{
  ℕ, ◌+◌, String, Bool, true, false, not, List, [], ◌∷◌, ◌++◌, str_eq, leb, if◌then◌else◌,
}

pub data ToastType : Type 0 where
  success error info : ToastType

pub record Toast : Type 0 where
  pub id : String
  pub type_ : ToastType
  pub message : String

-- A call of `setTimeout`: when it is due, and the toast that it dismisses.
pub record Timer : Type 0 where
  pub due : ℕ
  pub toast_id : String

pub record ToastState : Type 0 where
  pub toasts : List Toast
  pub timers : List Timer

abbrev pub auto_dismiss_ms : ℕ
auto_dismiss_ms = 4000

-- `filter((t) => t.id !== id)`.
unfoldable pub without : String → List Toast → List Toast
without id [] = []
without id (t ∷ ts) = let rest = without id ts in if str_eq t.id id then rest else t ∷ rest

unfoldable pub show_toast : ℕ → String → String → ToastType → ToastState → ToastState
show_toast now id message type_ s = record {
  toasts = s.toasts ++ record { id = id; type_ = type_; message = message } ∷ [];
  timers = record { due = now + auto_dismiss_ms; toast_id = id } ∷ s.timers;
}

unfoldable pub dismiss_toast : String → ToastState → ToastState
unfolding without
dismiss_toast id s = record s { toasts = without id s.toasts }

-- What the timers that are due leave on the screen, and the timers that are not.
unfoldable pub fire : ℕ → List Timer → List Toast → List Toast
unfolding without
fire now [] ts = ts
fire now (x ∷ xs) ts =
    let rest = fire now xs ts in if leb x.due now then without x.toast_id rest else rest

unfoldable pub waiting : ℕ → List Timer → List Timer
waiting now [] = []
waiting now (x ∷ xs) = let rest = waiting now xs in if leb x.due now then rest else x ∷ rest

unfoldable pub tick : ℕ → ToastState → ToastState
unfolding fire waiting
tick now s = record { toasts = fire now s.timers s.toasts; timers = waiting now s.timers }
