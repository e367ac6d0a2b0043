-- ===== src/Tables/Memory.antt =====
-- A table in memory: the interface can be met, and the examples run on it.
use ryd_trip.Prelude.{◌≡◌, refl, ◌⊎◌, inl, inr, Option, none, some, List, [], ◌∷◌, arith}
use ryd_trip.Tables.{UniqueTable}

abbrev pub Rows : Type 0 → Type 0 → Type 0
Rows K V = List (K × V)

module _ {K V : Type 0} (d : Discrete K) where
  unfoldable pub find : Rows K V → K → Option V
  find [] k = none
  find ((j, v) ∷ rows) k = elim (d j k) [ yes _ ↦ some v | no _ ↦ find rows k ]

  unfoldable pub insert : Rows K V → K → V → Option (Rows K V)
  unfolding find
  insert rows k v = elim (find rows k) [ none ↦ some ((k, v) ∷ rows) | some w ↦ none ]

  unfoldable pub replace : Rows K V → K → (V → V) → Rows K V
  replace [] k f = []
  replace ((j, v) ∷ rows) k f = elim (d j k) [
    | yes _ ↦ (j, f v) ∷ rows
    | no _ ↦ (j, v) ∷ replace rows k f
  ]

  unfoldable pub modify : Rows K V → K → (V → V) → Option (Rows K V)
  unfolding find replace
  modify rows k f = elim (find rows k) [ none ↦ none | some w ↦ some (replace rows k f) ]

  pub find-replace_self :
      (rows : Rows K V) (k : K) (f : V → V) (w : V)
      → find rows k ≡ some w
      → find (replace rows k f) k ≡ some (f w)
  unfolding find replace
  find-replace_self [] k f w h = cc
  find-replace_self ((j, v) ∷ rows) k f w h = ground (arith, find-replace_self rows k f w)

  pub find-replace_frame :
      (rows : Rows K V) (k : K) (f : V → V) (j : K)
      → (k ≡ j) ⊎ (find (replace rows k f) j ≡ find rows j)
  unfolding find replace
  find-replace_frame [] k f j = inr refl
  find-replace_frame ((i, v) ∷ rows) k f j = ground (arith, find-replace_frame rows k f j)

  pub insert_frame :
      (t t' : Rows K V) (k : K) (v : V) (j : K)
      → insert t k v ≡ some t'
      → (k ≡ j) ⊎ (find t' j ≡ find t j)
  unfolding insert
  insert_frame t t' k v j h = elim (d k j) [ yes e ↦ inl e | no ne ↦ inr (ground arith) ]

  pub insert_self : (t t' : Rows K V) (k : K) (v : V) → insert t k v ≡ some t' → find t' k ≡ some v
  unfolding insert
  insert_self t t' k v h = ground arith

  pub insert_taken : (t : Rows K V) (k : K) (v w : V) → find t k ≡ some w → insert t k v ≡ none
  unfolding insert
  insert_taken t k v w h = ground arith

  pub insert_fresh :
      (t : Rows K V) (k : K) (v : V) → find t k ≡ none → (t' : Rows K V) × (insert t k v ≡ some t')
  unfolding insert
  insert_fresh t k v h = ((k, v) ∷ t, ground arith)

  pub modify_found :
      (t : Rows K V) (k : K) (f : V → V) (w : V)
      → find t k ≡ some w
      → (t' : Rows K V) × (modify t k f ≡ some t')
  unfolding modify
  modify_found t k f w h = (replace t k f, ground arith)

  pub modify_missing : (t : Rows K V) (k : K) (f : V → V) → find t k ≡ none → modify t k f ≡ none
  unfolding modify
  modify_missing t k f h = ground arith

  pub modify_self :
      (t t' : Rows K V) (k : K) (f : V → V) (w : V)
      → find t k ≡ some w
      → modify t k f ≡ some t'
      → find t' k ≡ some (f w)
  unfolding modify
  modify_self t t' k f w h e = ground (arith, find-replace_self t k f w h)

  pub modify_frame :
      (t t' : Rows K V) (k : K) (f : V → V) (j : K)
      → modify t k f ≡ some t'
      → (k ≡ j) ⊎ (find t' j ≡ find t j)
  unfolding modify
  modify_frame t t' k f j e = ground (arith, find-replace_frame t k f j)

  abbrev pub memory_table : UniqueTable K V
  memory_table = record {
    State = Rows K V;
    find_unique = find;
    create = insert;
    update = modify;
    create_fresh = insert_fresh;
    create_taken = insert_taken;
    create_self = insert_self;
    create_frame = insert_frame;
    update_found = modify_found;
    update_missing = modify_missing;
    update_self = modify_self;
    update_frame = modify_frame;
  }
