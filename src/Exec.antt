-- ===== src/Exec.antt =====
-- Asynchronous methods that mutate a state and may throw. What was written before a throw stays
-- written, so the state comes back beside the error too.
use ryd_trip.Prelude.{Option, none, some}

pub data Result {ℓ κ} (E : Type ℓ) (A : Type κ) : Type (ℓ ⊔ κ) where
  ok : A → Result E A
  err : E → Result E A

abbrev pub Exec : Type 0 → Type 0 → Type 0 → Type 0
Exec S E A = S → Result E A × S

module _ {S E A : Type 0} where
  abbrev pub pure : A → Exec S E A
  pure a s = (ok a, s)

  abbrev pub throw : E → Exec S E A
  throw e s = (err e, s)

  -- A value that may be missing, with what is thrown in its place.
  abbrev pub or_throw : E → Option A → Exec S E A
  or_throw e none s = (err e, s)
  or_throw e (some a) s = (ok a, s)

module _ {S E A B : Type 0} where
  abbrev pub continue : Result E A → (A → Exec S E B) → Exec S E B
  continue (ok a) f s = f a s
  continue (err e) f s = (err e, s)

  infixl 10 ◌>>=◌ ◌>>◌
  abbrev pub ◌>>=◌ : Exec S E A → (A → Exec S E B) → Exec S E B
  ◌>>=◌ m f s = let (r, s') = m s in continue r f s'

  abbrev pub ◌>>◌ : Exec S E A → Exec S E B → Exec S E B
  m >> n = m >>= λ _. n
