-- ===== src/Tables.antt =====
-- What the services rely on of a PostgreSQL table behind the Prisma client, keyed by a unique
-- column or pair of columns: an interface, which the models take as a parameter.
pub mod Memory
pub mod Accounts
pub mod Listing
use ryd_trip.Prelude.{◌≡◌, ◌⊎◌, Option, none, some}

pub record UniqueTable (K V : Type 0) : Type 1 where
  pub State : Type 0
  pub find_unique : State → K → Option V
  -- `none` is a violated unique constraint, P2002.
  pub create : State → K → V → Option State
  -- `none` is a record to update that does not exist, P2025.
  pub update : State → K → (V → V) → Option State
  pub create_fresh :
      (t : State) (k : K) (v : V) → find_unique t k ≡ none → (t' : State) × (create t k v ≡ some t')
  pub create_taken : (t : State) (k : K) (v w : V) → find_unique t k ≡ some w → create t k v ≡ none
  pub create_self :
      (t t' : State) (k : K) (v : V) → create t k v ≡ some t' → find_unique t' k ≡ some v
  pub create_frame :
      (t t' : State) (k : K) (v : V) (j : K)
      → create t k v ≡ some t'
      → (k ≡ j) ⊎ (find_unique t' j ≡ find_unique t j)
  pub update_found :
      (t : State) (k : K) (f : V → V) (w : V)
      → find_unique t k ≡ some w
      → (t' : State) × (update t k f ≡ some t')
  pub update_missing :
      (t : State) (k : K) (f : V → V) → find_unique t k ≡ none → update t k f ≡ none
  pub update_self :
      (t t' : State) (k : K) (f : V → V) (w : V)
      → find_unique t k ≡ some w
      → update t k f ≡ some t'
      → find_unique t' k ≡ some (f w)
  pub update_frame :
      (t t' : State) (k : K) (f : V → V) (j : K)
      → update t k f ≡ some t'
      → (k ≡ j) ⊎ (find_unique t' j ≡ find_unique t j)
