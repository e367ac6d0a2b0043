-- ===== src/Tables/Listing/Memory.antt =====
-- Ordered searches of a table in memory: the interface can be met, and the examples run on it.
use ryd_trip.Prelude.{
  ℕ, ◌≤◌, ◌≡◌, ◌⊎◌, inl, inr, refl, ap, sym, subst, ◌∙◌, Bool, true, Option, none, some, List, [],
  ◌∷◌, arith, length, take, length-take_le, if◌then◌else◌, Bool-cases,
}
use ryd_trip.Tables.Memory.{Rows, find, memory_table}
use ryd_trip.Tables.Listing.{In, Descending, Listing}
use ryd_trip.Tables.Listing.Sorting.{
  sort_by, sort-Descending, sort_keeps, sort_from, take_from, take-Descending, take_complete,
}

module _ {K V : Type 0} (d : Discrete K) where
  abbrev kept : (V → Bool) → Option V → List V → List V
  kept p none rest = rest
  kept p (some v) rest = if p v then v ∷ rest else rest

  -- The rows with a property, by the keys of the table.
  unfoldable matching : Rows K V → Rows K V → (V → Bool) → List V
  unfolding find
  matching all [] p = []
  matching all ((k, w) ∷ rows) p = kept p (find d all k) (matching all rows p)

  unfoldable pub search_many : Rows K V → (V → Bool) → (V → ℕ) → ℕ → List V
  unfolding matching sort_by
  search_many t p key n = take n (sort_by key (matching t t p))

  abbrev head : List V → Option V
  head [] = none
  head (v ∷ vs) = some v

  unfoldable pub search_first : Rows K V → (V → Bool) → (V → ℕ) → Option V
  unfolding matching sort_by
  search_first t p key = head (sort_by key (matching t t p))

  kept_sound :
      (p : V → Bool) (o : Option V) (rest : List V) (v : V)
      → In v (kept p o rest)
      → ((o ≡ some v) × (p v ≡ true)) ⊎ In v rest
  kept_sound p none rest v h = inr h
  kept_sound p (some w) rest v h = elim (Bool-cases (p w)) [
    | inl e ↦ elim (rw e at h) [ inl s ↦ inl (ap some (sym s), ap p s ∙ e) | inr r ↦ inr r ]
    | inr e ↦ inr (rw e at h)
  ]

  kept_keeps :
      (p : V → Bool) (o : Option V) (rest : List V) (v : V) → In v rest → In v (kept p o rest)
  kept_keeps p none rest v h = h
  kept_keeps p (some w) rest v h = elim (Bool-cases (p w)) [ inl e ↦ rw e (inr h) | inr e ↦ rw e h ]

  kept_takes :
      (p : V → Bool) (o : Option V) (rest : List V) (v : V)
      → o ≡ some v
      → p v ≡ true
      → In v (kept p o rest)
  kept_takes p o rest v e h = subst (λ o. In v (kept p o rest)) (sym e) (rw h (inl refl))

  matching_sound :
      (all rows : Rows K V) (p : V → Bool) (v : V)
      → In v (matching all rows p)
      → (p v ≡ true) × (k : K) × (find d all k ≡ some v)
  unfolding matching
  matching_sound all [] p v h = absurd h
  matching_sound all ((k, w) ∷ rows) p v h =
      elim (kept_sound p (find d all k) (matching all rows p) v h) [
        | inl (found, holds) ↦ (holds, k, found)
        | inr r ↦ matching_sound all rows p v r
      ]

  matching_complete :
      (all rows : Rows K V) (p : V → Bool) (k : K) (v w : V)
      → find d all k ≡ some v
      → p v ≡ true
      → find d rows k ≡ some w
      → In v (matching all rows p)
  unfolding matching
  matching_complete all [] p k v w found holds at = absurd (unfold find in ground arith)
  matching_complete all ((j, u) ∷ rows) p k v w found holds at = elim (d j k) [
    | yes e ↦ kept_takes p (find d all j) (matching all rows p) v (ap (find d all) e ∙ found) holds
    | no ne ↦
        kept_keeps p (find d all j) (matching all rows p) v
          (matching_complete all rows p k v w found holds (unfold find in ground arith))
  ]

  pub many_sound :
      (t : Rows K V) (p : V → Bool) (key : V → ℕ) (n : ℕ) (v : V)
      → In v (search_many t p key n)
      → (p v ≡ true) × (k : K) × (find d t k ≡ some v)
  unfolding search_many
  many_sound t p key n v h =
      matching_sound t t p v
        (sort_from key v (matching t t p) (take_from key v n (sort_by key (matching t t p)) h))

  pub many_bounded :
      (t : Rows K V) (p : V → Bool) (key : V → ℕ) (n : ℕ) → length (search_many t p key n) ≤ n
  unfolding search_many
  many_bounded t p key n = length-take_le n (sort_by key (matching t t p))

  pub many_ordered :
      (t : Rows K V) (p : V → Bool) (key : V → ℕ) (n : ℕ) → Descending key (search_many t p key n)
  unfolding search_many
  many_ordered t p key n =
      take-Descending key n (sort_by key (matching t t p)) (sort-Descending key (matching t t p))

  pub many_complete :
      (t : Rows K V) (p : V → Bool) (key : V → ℕ) (n : ℕ) (k : K) (v : V)
      → find d t k ≡ some v
      → p v ≡ true
      → In v (search_many t p key n)
        ⊎ ((length (search_many t p key n) ≡ n)
            × ((w : V) → In w (search_many t p key n) → key v ≤ key w))
  unfolding search_many
  many_complete t p key n k v found holds =
      take_complete key v n (sort_by key (matching t t p)) (sort-Descending key (matching t t p))
        (sort_keeps key v (matching t t p) (matching_complete t t p k v v found holds found))

  head_in : (v : V) (l : List V) → head l ≡ some v → In v l
  head_in v [] h = absurd (ground arith)
  head_in v (x ∷ xs) h = inl (ground arith)

  head_newest :
      (key : V → ℕ) (w : V) (l : List V)
      → Descending key l
      → In w l
      → (v : V) × (head l ≡ some v) × (key w ≤ key v)
  head_newest key w [] h i = absurd i
  head_newest key w (x ∷ xs) (below, h) (inl s) =
      (x, refl, subst (λ z. key z ≤ key x) (sym s) (omega arith))
  head_newest key w (x ∷ xs) (below, h) (inr r) = (x, refl, below w r)

  pub first_sound :
      (t : Rows K V) (p : V → Bool) (key : V → ℕ) (v : V)
      → search_first t p key ≡ some v
      → (p v ≡ true) × (k : K) × (find d t k ≡ some v)
  unfolding search_first
  first_sound t p key v h =
      matching_sound t t p v
        (sort_from key v (matching t t p) (head_in v (sort_by key (matching t t p)) h))

  pub first_newest :
      (t : Rows K V) (p : V → Bool) (key : V → ℕ) (k : K) (w : V)
      → find d t k ≡ some w
      → p w ≡ true
      → (v : V) × (search_first t p key ≡ some v) × (key w ≤ key v)
  unfolding search_first
  first_newest t p key k w found holds =
      head_newest key w (sort_by key (matching t t p)) (sort-Descending key (matching t t p))
        (sort_keeps key w (matching t t p) (matching_complete t t p k w w found holds found))

  abbrev pub memory_listing : Listing (memory_table {K = K} {V = V} d)
  memory_listing = record {
    find_many = search_many;
    find_first = search_first;
    many_sound = many_sound;
    many_bounded = many_bounded;
    many_ordered = many_ordered;
    many_complete = many_complete;
    first_sound = first_sound;
    first_newest = first_newest;
  }
