-- ===== src/TripService/History/Laws.antt =====
-- What the list queries answer.
use ryd_trip.Prelude.{
  ℕ, suc, ◌≤◌, ◌≡◌, ◌≢◌, ◌⊎◌, ◌∙◌, inl, inr, refl, ap, sym, subst, String, true, Option, none, some,
  List, [], ◌∷◌, arith, length, map, min, max, eq_iff, includes, Option-cases, eq_of_some,
}
use ryd_trip.Exec.{Result, ok, err}
use ryd_trip.EventSchema.{RideStatus-discrete, completed, cancelled, Ride}
use ryd_trip.Tables.Listing.{Listing, In, Descending}
use ryd_trip.TripService.Repository.{RideRow, Outside, World, to_domain}
use ryd_trip.TripService.Repository.Laws.{row_of}
use ryd_trip.TripService.History.{
  Parsed, number, negative, not_a_number, HistoryError, invalid_take, clamped, is_driver,
  is_active_of, is_of_rider, age, find_active_by_driver, find_active_for_driver, find_by_rider,
  find_history_for_rider,
}

in_map :
    {A B : Type 0} (f : A → B) (b : B) (l : List A)
    → In b (map f l)
    → (a : A) × (In a l) × (b ≡ f a)
in_map f b [] h = absurd h
in_map f b (x ∷ xs) (inl s) = (x, inl refl, s)
in_map f b (x ∷ xs) (inr r) = let (a, i, e) = in_map f b xs r in (a, inr i, e)

map_in : {A B : Type 0} (f : A → B) (a : A) (l : List A) → In a l → In (f a) (map f l)
map_in f a [] h = h
map_in f a (x ∷ xs) (inl s) = inl (ap f s)
map_in f a (x ∷ xs) (inr r) = inr (map_in f a xs r)

length-map : {A B : Type 0} (f : A → B) (l : List A) → length (map f l) ≡ length l
length-map f [] = refl
length-map f (x ∷ xs) = ap suc (length-map f xs)

map-Descending :
    {A B : Type 0} (f : A → B) (old : A → ℕ) (new : B → ℕ) (l : List A)
    → ((a : A) → new (f a) ≡ old a)
    → Descending old l
    → Descending new (map f l)
map-Descending f old new [] same h = tt
map-Descending f old new (x ∷ xs) same (below, h) = (
  (λ y i.
      let (a, j, e) = in_map f y xs i in
      subst (λ z. new z ≤ new (f x)) (sym e) (omega (arith, below a j, same a, same x))),
  map-Descending f old new xs same h,
)

driver_is : (d : String) (o : Option String) → is_driver d o ≡ true → o ≡ some d
driver_is d none h = ground arith
driver_is d (some c) h = ap some ((eq_iff c d).0 h)

is_driver_of : (d : String) (o : Option String) → o ≡ some d → is_driver d o ≡ true
is_driver_of d none h = ground arith
is_driver_of d (some c) h = (eq_iff c d).1 (eq_of_some h)

module _ {N : Type 0} where
  -- A ride that is assigned to this driver and is not over.
  pub record ActiveFor (driver_id : String) (row : RideRow N) : Type 0 where
    pub assigned : row.driver_id ≡ some driver_id
    pub not_completed : row.status ≢ completed
    pub not_cancelled : row.status ≢ cancelled

  active_of : (d : String) (row : RideRow N) → is_active_of d row ≡ true → ActiveFor d row
  unfolding is_active_of includes RideStatus-discrete
  active_of d row h = record {
    assigned = driver_is d row.driver_id (ground arith);
    not_completed = λ e. ground arith;
    not_cancelled = λ e. ground arith;
  }

  of_active : (d : String) (row : RideRow N) → ActiveFor d row → is_active_of d row ≡ true
  unfolding is_active_of includes RideStatus-discrete
  of_active d row a = ground (arith, is_driver_of d row.driver_id a.assigned)

module _ {N : Type 0} (out : Outside N) (lists : Listing out.rides) where
  abbrev Newest : String → World out → RideRow N → Type 0
  Newest d w row =
      (j : String) (other : RideRow N)
      → row_of out w j ≡ some other
      → ActiveFor d other
      → other.created_at ≤ row.created_at

  -- The ride that a driver's screen is told of.
  pub data Active (d : String) (w : World out) (res : Option (Ride N)) : Type 0 where
    idle :
        res ≡ none
        → ((j : String) (other : RideRow N) → row_of out w j ≡ some other → ¬ (ActiveFor d other))
        → Active d w res
    assigned :
        (k : String) (row : RideRow N)
        → row_of out w k ≡ some row
        → ActiveFor d row
        → Newest d w row
        → res ≡ some (to_domain row)
        → Active d w res

  active_first :
      (d : String) (w : World out) (row : RideRow N)
      → lists.find_first w.rides (is_active_of d) age ≡ some row
      → Newest d w row
  active_first d w row is j other found active =
      let (v, first, older) =
        lists.first_newest w.rides (is_active_of d) age j other found (of_active d other active) in
      subst (λ z. other.created_at ≤ z.created_at) (eq_of_some (sym first ∙ is)) older

  -- A driver is told of a ride that is assigned to it and is not over, the newest of them; or of
  -- none, and then there is none.
  pub find_active_for_driver-Active :
      (d : String) (w : World out) → Active d w (find_active_for_driver out lists d w)
  unfolding find_active_for_driver find_active_by_driver
  find_active_for_driver-Active d w =
      elim (Option-cases (lists.find_first w.rides (is_active_of d) age)) [
        | inl gone ↦ idle (ground arith) (λ j other found active.
            let (v, first, older) =
              lists.first_newest w.rides (is_active_of d) age j other found
                (of_active d other active) in
            ground arith)
        | inr (row, is) ↦
            let (holds, k, found) = lists.first_sound w.rides (is_active_of d) age row is in
            assigned k row found (active_of d row holds) (active_first d w row is) (ground arith)
      ]

  -- A list of a rider's rides, of which at most `limit` were asked for.
  pub record HistoryOf (rider_id : String) (limit : ℕ) (w : World out) (rides : List (Ride N))
      : Type 0 where
    pub bounded : length rides ≤ limit
    pub ordered : Descending (λ (r : Ride N). r.created_at) rides
    pub own :
        (r : Ride N)
        → In r rides
        → (k : String) × (row : RideRow N) × (row_of out w k ≡ some row)
          × (row.rider_id ≡ rider_id)
          × (r ≡ to_domain row)
    pub complete :
        (k : String) (row : RideRow N)
        → row_of out w k ≡ some row
        → row.rider_id ≡ rider_id
        → In (to_domain row) rides
          ⊎ ((length rides ≡ limit) × ((r : Ride N) → In r rides → row.created_at ≤ r.created_at))

  find_by_rider-HistoryOf :
      (rider_id : String) (limit : ℕ) (w : World out)
      → HistoryOf rider_id limit w (find_by_rider out lists rider_id limit w)
  unfolding find_by_rider is_of_rider to_domain
  find_by_rider-HistoryOf rider_id limit w =
      let rows = lists.find_many w.rides (is_of_rider rider_id) age limit in
      record {
        bounded = omega (
          arith,
          length-map to_domain rows,
          lists.many_bounded w.rides (is_of_rider rider_id) age limit,
        );
        ordered =
            map-Descending to_domain age (λ (r : Ride N). r.created_at) rows (λ row. refl)
              (lists.many_ordered w.rides (is_of_rider rider_id) age limit);
        own = λ r i.
            let (row, j, e) = in_map to_domain r rows i in
            let (holds, k, found) =
              lists.many_sound w.rides (is_of_rider rider_id) age limit row j in
            (k, row, found, (eq_iff row.rider_id rider_id).0 holds, e);
        complete = λ k row found mine.
            elim (lists.many_complete w.rides (is_of_rider rider_id) age limit k row found
              ((eq_iff row.rider_id rider_id).1 mine)) [
                | inl i ↦ inl (map_in to_domain row rows i)
                | inr (full, older) ↦ inr (
                  length-map to_domain rows ∙ full,
                  λ r i.
                      let (other, j, e) = in_map to_domain r rows i in
                      subst (λ z. row.created_at ≤ z.created_at) (sym e) (older other j),
                )
              ];
      }

  -- How many rides are asked for: the number that is given, but at least 1 and at most 50; 1 for a
  -- negative number, and 20 where there is none.
  abbrev pub AsAsked : Option Parsed → ℕ → Type 0
  AsAsked none n = n ≡ 20
  AsAsked (some negative) n = n ≡ 1
  AsAsked (some not_a_number) n = ⊥
  AsAsked (some (number k)) n = (k ≤ 1 → n ≡ 1) × (1 ≤ k → k ≤ 50 → n ≡ k) × (50 ≤ k → n ≡ 50)

  clamped_cases :
      (limit : Option Parsed)
      → (limit ≡ some not_a_number) ⊎ ((n : ℕ) × (clamped limit ≡ some n) × AsAsked limit n)
  unfolding clamped
  clamped_cases none = inr (20, refl, refl)
  clamped_cases (some (number n)) =
      inr (min (max n 1) 50, refl, ((λ l. omega arith), (λ l u. omega arith), (λ l. omega arith)))
  clamped_cases (some negative) = inr (1, refl, refl)
  clamped_cases (some not_a_number) = inl refl

  listed_of :
      (rider_id : String) (limit : Option Parsed) (w : World out) (n : ℕ)
      → clamped limit ≡ some n
      → find_history_for_rider out lists rider_id limit w
        ≡ ok (find_by_rider out lists rider_id n w)
  unfolding find_history_for_rider
  listed_of rider_id limit w n e = rw e refl

  -- What a request for a rider's history is answered.
  pub data Answer (rider_id : String) (limit : Option Parsed) (w : World out)
      (res : Result HistoryError (List (Ride N))) : Type 0 where
    failed : limit ≡ some not_a_number → res ≡ err invalid_take → Answer rider_id limit w res
    listed :
        (n : ℕ) (rides : List (Ride N))
        → AsAsked limit n
        → HistoryOf rider_id n w rides
        → res ≡ ok rides
        → Answer rider_id limit w res

  -- A rider is answered at most as many rides as the limit says, all of them the rider's own and the
  -- newest first; a ride is left out only if as many as the limit says are answered and are at least
  -- as new. The limit is the number that is asked for, but at least 1 and at most 50, and 20 without
  -- one. With a limit that is not a number the request fails.
  pub find_history_for_rider-Answer :
      (rider_id : String) (limit : Option Parsed) (w : World out)
      → Answer rider_id limit w (find_history_for_rider out lists rider_id limit w)
  unfolding find_history_for_rider clamped
  find_history_for_rider-Answer rider_id limit w = elim (clamped_cases limit) [
    | inl nan ↦ failed nan (rw nan refl)
    | inr (n, e, asked) ↦
        listed n (find_by_rider out lists rider_id n w) asked (find_by_rider-HistoryOf rider_id n w)
          (listed_of rider_id limit w n e)
  ]
