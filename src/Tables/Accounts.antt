-- ===== src/Tables/Accounts.antt =====
-- What the services rely on of the tables of accounts, `riders` and `drivers`, behind the Prisma
-- client: rows keyed by `id`, with unique constraints on `phone` and on `email`.
pub mod Memory
pub mod Laws
use ryd_trip.Prelude.{
  ◌≡◌, ◌≢◌, ◌⊎◌, String, Bool, true, false, not, ◌&&◌, ◌||◌, Option, none, some, str_eq,
}

pub record Keys : Type 0 where
  pub id : String
  pub phone : String
  pub email : String

-- What stops the creation of a row.
abbrev pub clashes : Keys → Keys → Bool
clashes new other =
    str_eq other.id new.id || (str_eq other.phone new.phone || str_eq other.email new.email)

-- What stops an update: another row with the phone or the email that the update writes anew.
abbrev pub obstructs : Keys → Keys → Keys → Bool
obstructs old new other =
    not (str_eq other.id old.id)
    && ((str_eq other.phone new.phone && not (str_eq old.phone new.phone))
        || (str_eq other.email new.email && not (str_eq old.email new.email)))

-- `OR: [{ phone: identifier }, { email: identifier }]`.
abbrev pub identifies : String → Keys → Bool
identifies identifier k = str_eq k.phone identifier || str_eq k.email identifier

-- A field of the body of an update: left out, `null`, or a text.
pub data Field : Type 0 where
  left_out null : Field
  given : String → Field

abbrev pub is_null : Field → Bool
is_null null = true
is_null left_out = false
is_null (given s) = false

-- What a field that is not `null` leaves in its column.
abbrev pub kept : Field → String → String
kept left_out old = old
kept null old = old
kept (given s) old = s

-- A field of an update: `undefined` leaves the column as it is.
abbrev pub or_keep {ℓ} : {A : Type ℓ} → Option A → A → A
or_keep none a = a
or_keep (some b) a = b

pub data Update (S : Type 0) : Type 0 where
  updated : S → Update S
  -- P2025
  missing : Update S
  -- P2002
  duplicate : Update S

pub record AccountTable (V : Type 0) (keys : V → Keys) : Type 1 where
  pub State : Type 0
  pub find_unique : State → String → Option V
  pub find_first : State → (V → Bool) → Option V
  -- `none` is a violated unique constraint, P2002.
  pub create : State → V → Option State
  pub update : State → String → (V → V) → Update State
  pub find_unique_id : (t : State) (k : String) (v : V) → find_unique t k ≡ some v → (keys v).id ≡ k
  pub find_first_sound :
      (t : State) (p : V → Bool) (v : V)
      → find_first t p ≡ some v
      → (p v ≡ true) × (find_unique t (keys v).id ≡ some v)
  pub find_first_complete :
      (t : State) (p : V → Bool) (k : String) (v : V)
      → find_unique t k ≡ some v
      → p v ≡ true
      → find_first t p ≢ none
  pub create_fresh :
      (t : State) (v : V)
      → find_first t (λ w. clashes (keys v) (keys w)) ≡ none
      → (t' : State) × (create t v ≡ some t')
  pub create_taken :
      (t : State) (v w : V)
      → find_first t (λ o. clashes (keys v) (keys o)) ≡ some w
      → create t v ≡ none
  pub create_self :
      (t t' : State) (v : V) → create t v ≡ some t' → find_unique t' (keys v).id ≡ some v
  pub create_frame :
      (t t' : State) (v : V) (j : String)
      → create t v ≡ some t'
      → ((keys v).id ≡ j) ⊎ (find_unique t' j ≡ find_unique t j)
  pub update_missing :
      (t : State) (k : String) (f : V → V) → find_unique t k ≡ none → update t k f ≡ missing
  pub update_free :
      (t : State) (k : String) (f : V → V) (w : V)
      → find_unique t k ≡ some w
      → find_first t (λ o. obstructs (keys w) (keys (f w)) (keys o)) ≡ none
      → (t' : State) × (update t k f ≡ updated t')
  pub update_duplicate :
      (t : State) (k : String) (f : V → V) (v w : V)
      → find_unique t k ≡ some w
      → find_first t (λ o. obstructs (keys w) (keys (f w)) (keys o)) ≡ some v
      → update t k f ≡ duplicate
  -- The two laws that follow are for updates that leave the ids alone.
  pub update_self :
      (t t' : State) (k : String) (f : V → V) (w : V)
      → ((v : V) → (keys (f v)).id ≡ (keys v).id)
      → find_unique t k ≡ some w
      → update t k f ≡ updated t'
      → find_unique t' k ≡ some (f w)
  pub update_frame :
      (t t' : State) (k : String) (f : V → V) (j : String)
      → ((v : V) → (keys (f v)).id ≡ (keys v).id)
      → update t k f ≡ updated t'
      → (k ≡ j) ⊎ (find_unique t' j ≡ find_unique t j)
