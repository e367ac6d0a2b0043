-- ===== src/Tables/Listing.antt =====
-- What the services rely on of `findMany` and `findFirst` with an order, on a table with a unique key.
pub mod Sorting
pub mod Memory
use ryd_trip.Prelude.{ℕ, ◌≤◌, ◌≡◌, ◌≢◌, ◌⊎◌, Bool, true, Option, none, some, List, [], ◌∷◌, length}
use ryd_trip.Tables.{UniqueTable}

abbrev pub In : {V : Type 0} → V → List V → Type 0
In v [] = ⊥
In v (x ∷ xs) = (v ≡ x) ⊎ In v xs

-- By descending key.
abbrev pub Descending : {V : Type 0} → (V → ℕ) → List V → Type 0
Descending key [] = Unit {0}
Descending key (x ∷ xs) = ((y : _) → In y xs → key y ≤ key x) × Descending key xs

pub record Listing {K V : Type 0} (table : UniqueTable K V) : Type 1 where
  -- `findMany`: where, orderBy the key descending, take.
  pub find_many : table.State → (V → Bool) → (V → ℕ) → ℕ → List V
  -- `findFirst`: where, orderBy the key descending.
  pub find_first : table.State → (V → Bool) → (V → ℕ) → Option V
  pub many_sound :
      (t : table.State) (p : V → Bool) (key : V → ℕ) (n : ℕ) (v : V)
      → In v (find_many t p key n)
      → (p v ≡ true) × (k : K) × (table.find_unique t k ≡ some v)
  pub many_bounded :
      (t : table.State) (p : V → Bool) (key : V → ℕ) (n : ℕ) → length (find_many t p key n) ≤ n
  pub many_ordered :
      (t : table.State) (p : V → Bool) (key : V → ℕ) (n : ℕ) → Descending key (find_many t p key n)
  -- A row that is left out is older than as many others as were asked for.
  pub many_complete :
      (t : table.State) (p : V → Bool) (key : V → ℕ) (n : ℕ) (k : K) (v : V)
      → table.find_unique t k ≡ some v
      → p v ≡ true
      → In v (find_many t p key n)
        ⊎ ((length (find_many t p key n) ≡ n)
            × ((w : V) → In w (find_many t p key n) → key v ≤ key w))
  pub first_sound :
      (t : table.State) (p : V → Bool) (key : V → ℕ) (v : V)
      → find_first t p key ≡ some v
      → (p v ≡ true) × (k : K) × (table.find_unique t k ≡ some v)
  pub first_newest :
      (t : table.State) (p : V → Bool) (key : V → ℕ) (k : K) (w : V)
      → table.find_unique t k ≡ some w
      → p w ≡ true
      → (v : V) × (find_first t p key ≡ some v) × (key w ≤ key v)
