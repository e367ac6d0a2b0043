-- ===== src/Tables/Accounts/Laws.antt =====
-- Unique phones and emails, whatever is created and updated.
use ryd_trip.Prelude.{
  ◌≡◌, ◌≢◌, ◌⊎◌, ◌∙◌, sym, ap, inl, inr, refl, String, Bool, true, false, none, some, arith, eq_iff,
  eq_of_some, String-discrete, Option-cases,
}
use ryd_trip.Tables.Accounts.{
  Field, left_out, null, given, is_null, kept, AccountTable, Keys, clashes, obstructs, identifies,
  updated,
}

-- The column holds what the field asks for: what it held, or the text that is given.
abbrev pub FieldIs : Field → String → String → Type 0
FieldIs left_out old new = new ≡ old
FieldIs null old new = ⊥
FieldIs (given s) old new = new ≡ s

pub kept-FieldIs : (f : Field) (old : String) → is_null f ≡ false → FieldIs f old (kept f old)
kept-FieldIs left_out old h = refl
kept-FieldIs (given s) old h = refl
kept-FieldIs null old h = absurd (ground arith)

abbrev pub Shares : Keys → Keys → Type 0
Shares a b = (a.phone ≡ b.phone) ⊎ (a.email ≡ b.email)

clashes_of : (a b : Keys) → Shares a b → clashes b a ≡ true
clashes_of a b (inl e) = ground (arith, (eq_iff a.phone b.phone).1 e)
clashes_of a b (inr e) = ground (arith, (eq_iff a.email b.email).1 e)

obstructs_of :
    (old new other : Keys)
    → other.id ≢ old.id
    → Shares other new
    → (Shares other old) ⊎ (obstructs old new other ≡ true)
obstructs_of old new other ne (inl e) =
    ground (arith, eq_iff other.id old.id, eq_iff other.phone new.phone, eq_iff old.phone new.phone)
obstructs_of old new other ne (inr e) =
    ground (arith, eq_iff other.id old.id, eq_iff other.email new.email, eq_iff old.email new.email)

not_obstructed : (old new other : Keys) → new ≡ old → obstructs old new other ≢ true
not_obstructed old new other same h = ground (
  arith,
  eq_iff old.phone new.phone,
  eq_iff old.email new.email,
  ap (λ k. k.phone) same,
  ap (λ k. k.email) same,
)

pub not_identified : (i : String) (k : Keys) → k.phone ≢ i → k.email ≢ i → identifies i k ≡ false
not_identified i k p e = ground (arith, eq_iff k.phone i, eq_iff k.email i)

pub identifies_phone : (k : Keys) → identifies k.phone k ≡ true
identifies_phone k = ground (arith, (eq_iff k.phone k.phone).1 refl)

pub identifies_email : (k : Keys) → identifies k.email k ≡ true
identifies_email k = ground (arith, (eq_iff k.email k.email).1 refl)

module _ {V : Type 0} {keys : V → Keys} (accounts : AccountTable V keys) where
  -- No two rows share a phone or an email.
  abbrev pub Distinct : accounts.State → Type 0
  Distinct t =
      (j k : String) (v w : V)
      → accounts.find_unique t j ≡ some v
      → accounts.find_unique t k ≡ some w
      → Shares (keys v) (keys w)
      → j ≡ k

  pub create_no_clash :
      (t t' : accounts.State) (v w : V) (k : String)
      → accounts.create t v ≡ some t'
      → accounts.find_unique t k ≡ some w
      → ¬ (Shares (keys w) (keys v))
  create_no_clash t t' v w k made found s =
      elim (Option-cases (accounts.find_first t (λ o. clashes (keys v) (keys o)))) [
        | inl free ↦
            accounts.find_first_complete t (λ o. clashes (keys v) (keys o)) k w found
              (clashes_of (keys w) (keys v) s) free
        | inr (o, is) ↦ ground (arith, accounts.create_taken t v o is)
      ]

  create_other :
      (t t' : accounts.State) (v u : V) (k : String)
      → accounts.create t v ≡ some t'
      → accounts.find_unique t' k ≡ some u
      → (((keys v).id ≡ k) × (v ≡ u)) ⊎ (accounts.find_unique t k ≡ some u)
  create_other t t' v u k made found = elim (accounts.create_frame t t' v k made) [
    | inl e ↦ inl (
      e,
      eq_of_some
          (sym (accounts.create_self t t' v made) ∙ (ap (accounts.find_unique t') e ∙ found)),
    )
    | inr same ↦ inr (sym same ∙ found)
  ]

  swapped : (a b : Keys) → Shares a b → Shares b a
  swapped a b (inl e) = inl (sym e)
  swapped a b (inr e) = inr (sym e)

  -- A creation that succeeds keeps phones and emails unique.
  pub create-Distinct :
      (t t' : accounts.State) (v : V) → Distinct t → accounts.create t v ≡ some t' → Distinct t'
  create-Distinct t t' v unique made j k u w at_j at_k s =
      elim (create_other t t' v u j made at_j) [
        | inl (vj, vu) ↦ elim (create_other t t' v w k made at_k) [
          | inl (vk, vw) ↦ sym vj ∙ vk
          | inr old ↦
              absurd (create_no_clash t t' v w k made old (swapped (keys v) (keys w) (rw vu s)))
        ]
        | inr old_j ↦ elim (create_other t t' v w k made at_k) [
          | inl (vk, vw) ↦ absurd (create_no_clash t t' v u j made old_j (rw vw s))
          | inr old_k ↦ unique j k u w old_j old_k s
        ]
      ]

  -- The row that an update finds.
  update_found :
      (t t' : accounts.State) (k : String) (f : V → V)
      → accounts.update t k f ≡ updated t'
      → (w : V) × (accounts.find_unique t k ≡ some w)
        × (accounts.find_first t (λ o. obstructs (keys w) (keys (f w)) (keys o)) ≡ none)
  update_found t t' k f up = elim (Option-cases (accounts.find_unique t k)) [
    | inl gone ↦ absurd (ground (arith, accounts.update_missing t k f gone))
    | inr (w, found) ↦
        elim (Option-cases
          (accounts.find_first t (λ o. obstructs (keys w) (keys (f w)) (keys o)))) [
            | inl free ↦ (w, found, free)
            | inr (o, is) ↦ absurd (ground (arith, accounts.update_duplicate t k f o w found is))
          ]
  ]

  update_no_share :
      (t t' : accounts.State) (k : String) (f : V → V) (w o : V) (j : String)
      → Distinct t
      → accounts.find_unique t k ≡ some w
      → accounts.find_first t (λ o. obstructs (keys w) (keys (f w)) (keys o)) ≡ none
      → accounts.find_unique t j ≡ some o
      → j ≢ k
      → ¬ (Shares (keys o) (keys (f w)))
  update_no_share t t' k f w o j unique found free other ne s =
      elim (obstructs_of (keys w) (keys (f w)) (keys o)
        (λ e.
          ne
            (sym (accounts.find_unique_id t j o other) ∙ (e ∙ accounts.find_unique_id t k w found)))
        s) [
          | inl shared ↦ ne (unique j k o w other found shared)
          | inr blocks ↦
              accounts.find_first_complete t (λ o. obstructs (keys w) (keys (f w)) (keys o)) j o
                other blocks free
        ]

  update_other :
      (t t' : accounts.State) (k : String) (f : V → V) (w u : V) (j : String)
      → ((v : V) → (keys (f v)).id ≡ (keys v).id)
      → accounts.find_unique t k ≡ some w
      → accounts.update t k f ≡ updated t'
      → accounts.find_unique t' j ≡ some u
      → ((k ≡ j) × (f w ≡ u)) ⊎ ((j ≢ k) × (accounts.find_unique t j ≡ some u))
  update_other t t' k f w u j kept found up at_j = elim (String-discrete k j) [
    | yes e ↦ inl (
      e,
      eq_of_some (
          sym (accounts.update_self t t' k f w kept found up)
          ∙ (ap (accounts.find_unique t') e ∙ at_j)),
    )
    | no ne ↦ elim (accounts.update_frame t t' k f j kept up) [
      | inl e ↦ absurd (ne e)
      | inr same ↦ inr ((λ e. ne (sym e)), sym same ∙ at_j)
    ]
  ]

  -- An update that succeeds keeps phones and emails unique.
  pub update-Distinct :
      (t t' : accounts.State) (k : String) (f : V → V)
      → ((v : V) → (keys (f v)).id ≡ (keys v).id)
      → Distinct t
      → accounts.update t k f ≡ updated t'
      → Distinct t'
  update-Distinct t t' k f kept unique up i j u v at_i at_j s =
      let (w, found, free) = update_found t t' k f up in
      elim (update_other t t' k f w u i kept found up at_i) [
        | inl (ki, fu) ↦ elim (update_other t t' k f w v j kept found up at_j) [
          | inl (kj, fv) ↦ sym ki ∙ kj
          | inr (ne, old) ↦ absurd (
              update_no_share t t' k f w v j unique found free old ne
                (swapped (keys (f w)) (keys v) (rw fu s)))
        ]
        | inr (ne, old_i) ↦ elim (update_other t t' k f w v j kept found up at_j) [
          | inl (kj, fv) ↦
              absurd (update_no_share t t' k f w u i unique found free old_i ne (rw fv s))
          | inr (ne', old_j) ↦ unique i j u v old_i old_j s
        ]
      ]

  -- An update that writes neither a new phone nor a new email is never refused.
  pub update_same_keys :
      (t : accounts.State) (k : String) (f : V → V) (w : V)
      → accounts.find_unique t k ≡ some w
      → keys (f w) ≡ keys w
      → (t' : accounts.State) × (accounts.update t k f ≡ updated t')
  update_same_keys t k f w found same =
      accounts.update_free t k f w found
        (elim (Option-cases
          (accounts.find_first t (λ o. obstructs (keys w) (keys (f w)) (keys o)))) [
            | inl free ↦ free
            | inr (o, is) ↦ absurd (
                not_obstructed (keys w) (keys (f w)) (keys o) same
                  (accounts.find_first_sound t (λ o. obstructs (keys w) (keys (f w)) (keys o)) o
                    is).0)
          ])

  -- The one row with a property is the one that a search for it finds.
  pub find_first_only :
      (t : accounts.State) (p : V → Bool) (k : String) (v : V)
      → accounts.find_unique t k ≡ some v
      → p v ≡ true
      → ((j : String) (w : V) → accounts.find_unique t j ≡ some w → p w ≡ true → j ≡ k)
      → accounts.find_first t p ≡ some v
  find_first_only t p k v found holds only = elim (Option-cases (accounts.find_first t p)) [
    | inl gone ↦ absurd (accounts.find_first_complete t p k v found holds gone)
    | inr (w, is) ↦
        let (q, at) = accounts.find_first_sound t p w is in
        is ∙ (sym at ∙ (ap (accounts.find_unique t) (only (keys w).id w at q) ∙ found))
  ]

  -- A row created with a phone or an email that no other row has for either is the one row that it
  -- identifies.
  pub created_identified :
      (t t' : accounts.State) (v : V) (i : String)
      → accounts.create t v ≡ some t'
      → identifies i (keys v) ≡ true
      → ((j : String) (w : V) → accounts.find_unique t j ≡ some w → identifies i (keys w) ≡ false)
      → accounts.find_first t' (λ w. identifies i (keys w)) ≡ some v
  created_identified t t' v i made mine others =
      find_first_only t' (λ w. identifies i (keys w)) (keys v).id v
        (accounts.create_self t t' v made) mine
        (λ j w at holds. elim (create_other t t' v w j made at) [
          | inl (e, same) ↦ sym e
          | inr old ↦ absurd (ground (arith, others j w old))
        ])
