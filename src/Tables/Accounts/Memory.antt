-- ===== src/Tables/Accounts/Memory.antt =====
-- A table of accounts in memory: the interface can be met, and the examples run on it.
use ryd_trip.Prelude.{
  ◌≡◌, ◌≢◌, ◌⊎◌, inl, inr, refl, String, Bool, true, Option, none, some, List, [], ◌∷◌, arith,
  String-discrete, if◌then◌else◌, Option-cases,
}
use ryd_trip.Tables.Accounts.{
  AccountTable, Keys, clashes, obstructs, Update, updated, missing, duplicate,
}

module _ {V : Type 0} (keys : V → Keys) where
  unfoldable pub find : List V → String → Option V
  find [] k = none
  find (v ∷ rows) k = elim (String-discrete (keys v).id k) [ yes _ ↦ some v | no _ ↦ find rows k ]

  -- The first of these ids under which the table has a row with the property.
  abbrev chosen : (V → Bool) → Option V → Option V → Option V
  chosen p none rest = rest
  chosen p (some w) rest = if p w then some w else rest

  unfoldable pub search_rows : List V → List V → (V → Bool) → Option V
  unfolding find
  search_rows all [] p = none
  search_rows all (v ∷ rows) p = chosen p (find all (keys v).id) (search_rows all rows p)

  unfoldable pub first : List V → (V → Bool) → Option V
  unfolding search_rows
  first rows p = search_rows rows rows p

  unfoldable pub insert : List V → V → Option (List V)
  unfolding first
  insert rows v = elim (first rows (λ w. clashes (keys v) (keys w))) [
    | none ↦ some (v ∷ rows)
    | some w ↦ none
  ]

  unfoldable pub replace : List V → String → (V → V) → List V
  replace [] k f = []
  replace (v ∷ rows) k f = elim (String-discrete (keys v).id k) [
    | yes _ ↦ f v ∷ rows
    | no _ ↦ v ∷ replace rows k f
  ]

  abbrev unobstructed : Option V → List V → Update (List V)
  unobstructed none rows = updated rows
  unobstructed (some o) rows = duplicate

  abbrev present : Option V → (V → Update (List V)) → Update (List V)
  present none k = missing
  present (some w) k = k w

  unfoldable pub modify : List V → String → (V → V) → Update (List V)
  unfolding first replace
  modify rows k f = present (find rows k) (λ w.
      unobstructed (first rows (λ o. obstructs (keys w) (keys (f w)) (keys o))) (replace rows k f))

  pub find_id : (rows : List V) (k : String) (v : V) → find rows k ≡ some v → (keys v).id ≡ k
  unfolding find
  find_id [] k v h = ground arith
  find_id (w ∷ rows) k v h = elim (String-discrete (keys w).id k) [
    | yes e ↦ ground arith
    | no ne ↦ find_id rows k v (ground arith)
  ]

  pub search_sound :
      (all rows : List V) (p : V → Bool) (v : V)
      → search_rows all rows p ≡ some v
      → (p v ≡ true) × (find all (keys v).id ≡ some v)
  unfolding search_rows
  search_sound all [] p v h = ground arith
  search_sound all (w ∷ rows) p v h = elim (Option-cases (find all (keys w).id)) [
    | inl gone ↦ search_sound all rows p v (ground arith)
    | inr (o, found) ↦ ground (arith, find_id all (keys w).id o found, search_sound all rows p v)
  ]

  pub search_complete :
      (all rows : List V) (p : V → Bool) (k : String) (v w : V)
      → find all k ≡ some v
      → p v ≡ true
      → find rows k ≡ some w
      → search_rows all rows p ≢ none
  unfolding search_rows find
  search_complete all [] p k v w found holds here_ h = ground arith
  search_complete all (o ∷ rows) p k v w found holds here_ h =
      elim (String-discrete (keys o).id k) [
        | yes e ↦ ground arith
        | no ne ↦
            search_complete all rows p k v w found holds (ground arith)
              (elim (Option-cases (find all (keys o).id)) [
                | inl gone ↦ ground arith
                | inr (q, is) ↦ ground arith
              ])
      ]

  find-replace_self :
      (rows : List V) (k : String) (f : V → V) (w : V)
      → ((v : V) → (keys (f v)).id ≡ (keys v).id)
      → find rows k ≡ some w
      → find (replace rows k f) k ≡ some (f w)
  unfolding find replace
  find-replace_self [] k f w kept h = ground arith
  find-replace_self (v ∷ rows) k f w kept h = elim (String-discrete (keys v).id k) [
    | yes e ↦ ground (arith, kept v)
    | no ne ↦ ground (arith, find-replace_self rows k f w kept)
  ]

  find-replace_frame :
      (rows : List V) (k : String) (f : V → V) (j : String)
      → ((v : V) → (keys (f v)).id ≡ (keys v).id)
      → (k ≡ j) ⊎ (find (replace rows k f) j ≡ find rows j)
  unfolding find replace
  find-replace_frame [] k f j kept = inr refl
  find-replace_frame (v ∷ rows) k f j kept =
      ground (arith, kept v, find-replace_frame rows k f j kept)

  pub insert_fresh :
      (t : List V) (v : V)
      → first t (λ w. clashes (keys v) (keys w)) ≡ none
      → (t' : List V) × (insert t v ≡ some t')
  unfolding insert
  insert_fresh t v h = (v ∷ t, ground arith)

  pub insert_taken :
      (t : List V) (v w : V) → first t (λ o. clashes (keys v) (keys o)) ≡ some w → insert t v ≡ none
  unfolding insert
  insert_taken t v w h = ground arith

  pub insert_self : (t t' : List V) (v : V) → insert t v ≡ some t' → find t' (keys v).id ≡ some v
  unfolding insert find
  insert_self t t' v h = ground arith

  pub insert_frame :
      (t t' : List V) (v : V) (j : String)
      → insert t v ≡ some t'
      → ((keys v).id ≡ j) ⊎ (find t' j ≡ find t j)
  unfolding insert find
  insert_frame t t' v j h = elim (String-discrete (keys v).id j) [
    | yes e ↦ inl e
    | no ne ↦ inr (ground arith)
  ]

  pub modify_missing :
      (t : List V) (k : String) (f : V → V) → find t k ≡ none → modify t k f ≡ missing
  unfolding modify
  modify_missing t k f h = ground arith

  pub modify_free :
      (t : List V) (k : String) (f : V → V) (w : V)
      → find t k ≡ some w
      → first t (λ o. obstructs (keys w) (keys (f w)) (keys o)) ≡ none
      → (t' : List V) × (modify t k f ≡ updated t')
  unfolding modify
  modify_free t k f w h e = (replace t k f, rw (h, e) refl)

  pub modify_duplicate :
      (t : List V) (k : String) (f : V → V) (v w : V)
      → find t k ≡ some w
      → first t (λ o. obstructs (keys w) (keys (f w)) (keys o)) ≡ some v
      → modify t k f ≡ duplicate
  unfolding modify
  modify_duplicate t k f v w h e = rw (h, e) refl

  replaced :
      (t t' : List V) (k : String) (f : V → V) → modify t k f ≡ updated t' → replace t k f ≡ t'
  unfolding modify
  replaced t t' k f h = elim (Option-cases (find t k)) [
    | inl gone ↦ ground arith
    | inr (w, found) ↦
        elim (Option-cases (first t (λ o. obstructs (keys w) (keys (f w)) (keys o)))) [
          | inl free ↦ ground arith
          | inr (o, is) ↦ ground arith
        ]
  ]

  pub modify_self :
      (t t' : List V) (k : String) (f : V → V) (w : V)
      → ((v : V) → (keys (f v)).id ≡ (keys v).id)
      → find t k ≡ some w
      → modify t k f ≡ updated t'
      → find t' k ≡ some (f w)
  modify_self t t' k f w kept h e = rw (← replaced t t' k f e) (find-replace_self t k f w kept h)

  pub modify_frame :
      (t t' : List V) (k : String) (f : V → V) (j : String)
      → ((v : V) → (keys (f v)).id ≡ (keys v).id)
      → modify t k f ≡ updated t'
      → (k ≡ j) ⊎ (find t' j ≡ find t j)
  modify_frame t t' k f j kept e = rw (← replaced t t' k f e) (find-replace_frame t k f j kept)

  pub first_sound :
      (t : List V) (p : V → Bool) (v : V)
      → first t p ≡ some v
      → (p v ≡ true) × (find t (keys v).id ≡ some v)
  unfolding first
  first_sound t p v h = search_sound t t p v h

  pub first_complete :
      (t : List V) (p : V → Bool) (k : String) (v : V)
      → find t k ≡ some v
      → p v ≡ true
      → first t p ≢ none
  unfolding first
  first_complete t p k v found holds = search_complete t t p k v v found holds found

  -- A table of one row.
  pub find_one : (v w : V) (j : String) → find (v ∷ []) j ≡ some w → ((keys v).id ≡ j) × (v ≡ w)
  unfolding find
  find_one v w j h = elim (String-discrete (keys v).id j) [
    | yes e ↦ (e, ground arith)
    | no ne ↦ absurd (ground arith)
  ]

  abbrev pub memory_accounts : AccountTable V keys
  memory_accounts = record {
    State = List V;
    find_unique = find;
    find_first = first;
    create = insert;
    update = modify;
    find_unique_id = find_id;
    find_first_sound = first_sound;
    find_first_complete = first_complete;
    create_fresh = insert_fresh;
    create_taken = insert_taken;
    create_self = insert_self;
    create_frame = insert_frame;
    update_missing = modify_missing;
    update_free = modify_free;
    update_duplicate = modify_duplicate;
    update_self = modify_self;
    update_frame = modify_frame;
  }
