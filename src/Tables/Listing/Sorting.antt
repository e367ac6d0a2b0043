-- ===== src/Tables/Listing/Sorting.antt =====
-- Sorting by insertion, and what its first elements are.
use ryd_trip.Prelude.{
  ℕ, zero, suc, ◌≤◌, ◌≡◌, ◌⊎◌, inl, inr, refl, ap, sym, subst, false, List, [], ◌∷◌, arith, length,
  take, leb, leb→le, if◌then◌else◌, Bool-cases,
}
use ryd_trip.Tables.Listing.{In, Descending}

module _ {V : Type 0} (key : V → ℕ) where
  -- Before the first element with a smaller key.
  unfoldable pub insert_by : V → List V → List V
  insert_by v [] = v ∷ []
  insert_by v (x ∷ xs) =
      let rest = insert_by v xs in if leb (key x) (key v) then v ∷ x ∷ xs else x ∷ rest

  unfoldable pub sort_by : List V → List V
  unfolding insert_by
  sort_by [] = []
  sort_by (x ∷ xs) = insert_by x (sort_by xs)

  in_insert : (v : V) (l : List V) → In v (insert_by v l)
  unfolding insert_by
  in_insert v [] = inl refl
  in_insert v (x ∷ xs) = elim (Bool-cases (leb (key x) (key v))) [
    | inl e ↦ rw e (inl refl)
    | inr e ↦ rw e (inr (in_insert v xs))
  ]

  insert_keeps : (y v : V) (l : List V) → In y l → In y (insert_by v l)
  unfolding insert_by
  insert_keeps y v [] h = absurd h
  insert_keeps y v (x ∷ xs) h = elim (Bool-cases (leb (key x) (key v))) [
    | inl e ↦ rw e (inr h)
    | inr e ↦ rw e (elim h [ inl s ↦ inl s | inr r ↦ inr (insert_keeps y v xs r) ])
  ]

  insert_from : (y v : V) (l : List V) → In y (insert_by v l) → (y ≡ v) ⊎ In y l
  unfolding insert_by
  insert_from y v [] h = h
  insert_from y v (x ∷ xs) h = elim (Bool-cases (leb (key x) (key v))) [
    | inl e ↦ rw e at h
    | inr e ↦ elim (rw e at h) [
      | inl s ↦ inr (inl s)
      | inr r ↦ elim (insert_from y v xs r) [ inl s ↦ inl s | inr q ↦ inr (inr q) ]
    ]
  ]

  larger : (x v : V) → leb (key x) (key v) ≡ false → key v ≤ key x
  larger x v e = ground arith

  pub insert-Descending : (v : V) (l : List V) → Descending key l → Descending key (insert_by v l)
  unfolding insert_by
  insert-Descending v [] h = ((λ y i. absurd i), tt)
  insert-Descending v (x ∷ xs) (below, h) = elim (Bool-cases (leb (key x) (key v))) [
    | inl e ↦ rw e (
      (λ y i. elim i [
        | inl s ↦ subst (λ z. key z ≤ key v) (sym s) (leb→le (key x) (key v) e)
        | inr r ↦ omega (arith, below y r, leb→le (key x) (key v) e)
      ]),
      (below, h),
    )
    | inr e ↦ rw e (
      (λ y i. elim (insert_from y v xs i) [
        | inl s ↦ subst (λ z. key z ≤ key x) (sym s) (larger x v e)
        | inr r ↦ below y r
      ]),
      insert-Descending v xs h,
    )
  ]

  pub sort-Descending : (l : List V) → Descending key (sort_by l)
  unfolding sort_by
  sort-Descending [] = tt
  sort-Descending (x ∷ xs) = insert-Descending x (sort_by xs) (sort-Descending xs)

  pub sort_keeps : (y : V) (l : List V) → In y l → In y (sort_by l)
  unfolding sort_by
  sort_keeps y [] h = h
  sort_keeps y (x ∷ xs) (inl s) =
      subst (λ z. In z (insert_by x (sort_by xs))) (sym s) (in_insert x (sort_by xs))
  sort_keeps y (x ∷ xs) (inr r) = insert_keeps y x (sort_by xs) (sort_keeps y xs r)

  pub sort_from : (y : V) (l : List V) → In y (sort_by l) → In y l
  unfolding sort_by
  sort_from y [] h = h
  sort_from y (x ∷ xs) h = elim (insert_from y x (sort_by xs) h) [
    | inl s ↦ inl s
    | inr r ↦ inr (sort_from y xs r)
  ]

  pub take_from : (y : V) (n : ℕ) (l : List V) → In y (take n l) → In y l
  take_from y zero l h = absurd h
  take_from y (suc n) [] h = absurd h
  take_from y (suc n) (x ∷ xs) (inl s) = inl s
  take_from y (suc n) (x ∷ xs) (inr r) = inr (take_from y n xs r)

  pub take-Descending : (n : ℕ) (l : List V) → Descending key l → Descending key (take n l)
  take-Descending zero l h = tt
  take-Descending (suc n) [] h = tt
  take-Descending (suc n) (x ∷ xs) (below, h) =
      ((λ y i. below y (take_from y n xs i)), take-Descending n xs h)

  pub take_complete :
      (v : V) (n : ℕ) (l : List V)
      → Descending key l
      → In v l
      → In v (take n l) ⊎ ((length (take n l) ≡ n) × ((w : V) → In w (take n l) → key v ≤ key w))
  take_complete v zero l h i = inr (refl, λ w j. absurd j)
  take_complete v (suc n) [] h i = absurd i
  take_complete v (suc n) (x ∷ xs) (below, h) (inl s) = inl (inl s)
  take_complete v (suc n) (x ∷ xs) (below, h) (inr r) = elim (take_complete v n xs h r) [
    | inl q ↦ inl (inr q)
    | inr (full, older) ↦ inr (
      ap suc full,
      λ w j. elim j [ inl s ↦ subst (λ z. key v ≤ key z) (sym s) (below v r) | inr q ↦ older w q ],
    )
  ]
