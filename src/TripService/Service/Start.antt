-- ===== src/TripService/Service/Start.antt =====
-- `start`: the pickup code and the assigned driver.
use ryd_trip.Prelude.{
  String, ◌≡◌, ◌≢◌, str_eq, eq_of_some, refl, ap, sym, ◌∙◌, ◌⊎◌, inl, inr, true, false, Option,
  none, some, arith, Option-cases, Bool-cases, eq_iff,
}
use ryd_trip.Exec.{Result, ok, err, pure, ◌>>=◌, ◌>>◌}
use ryd_trip.EventSchema.{Ride, on_trip, driver_arrived, in_progress}
use ryd_trip.TripService.RideStateMachine.{can_transition_ride_status}
use ryd_trip.TripService.Repository.{
  RideRow, Outside, World, TripError, ride_not_found, conflict, not_the_assigned_driver,
  incorrect_otp, TransitionOptions, no_options, truthy, to_domain, set_fields, Trips, transition,
  get_otp,
}
use ryd_trip.TripService.Repository.Laws.{row_of, Updated, transition_found}
use ryd_trip.TripService.Service.{sync_if_assigned, is_other, otp_differs, throw_if, start}
use ryd_trip.TripService.Service.Outcomes.{
  notify, guarded, guarded_absent, guarded_refused, guarded_allowed, sync_domain, row_of-notify,
}

module _ {N : Type 0} (out : Outside N) where
  abbrev pub start_options : RideRow N → TransitionOptions N
  start_options row = record no_options { clear_otp = true }

  same_code :
      (stored : Option String) (otp : String)
      → otp_differs out stored otp ≡ false
      → stored ≡ some otp
  unfolding otp_differs
  same_code none otp h = cc
  same_code (some s) otp h = ground (arith, eq_iff s otp)

  same_caller :
      (caller owner : Option String) (c : String)
      → is_other out caller owner ≡ false
      → truthy caller ≡ some c
      → owner ≡ some c
  unfolding is_other
  same_caller caller none c h t = ground arith
  same_caller caller (some o) c h t = ground (arith, eq_iff o c)

  other_code :
      (stored : Option String) (otp : String)
      → otp_differs out stored otp ≡ true
      → (truthy stored ≡ none) ⊎ (stored ≢ some otp)
  unfolding otp_differs
  other_code none otp h = inl refl
  other_code (some s) otp h = elim (Bool-cases (str_eq s "")) [
    | inl e ↦ inl (rw e refl)
    | inr e ↦ inr (λ q. ground (arith, eq_iff s otp, eq_of_some q))
  ]

  other_caller :
      (caller owner : Option String)
      → is_other out caller owner ≡ true
      → (c : String) × (truthy caller ≡ some c) × (owner ≢ some c)
  unfolding is_other
  other_caller caller owner h = elim (Option-cases (truthy caller)) [
    | inl e ↦ absurd (ground arith)
    | inr (c, e) ↦ (c, e, λ q. ground (arith, eq_iff c c))
  ]

  module _ (id otp : String) (caller : Option String) (w : World out) where
    abbrev rest : Ride N → Trips out (Ride N)
    rest ride =
        throw_if out (is_other out caller ride.driver_id) not_the_assigned_driver
        >> ((λ w'. (ok (get_otp out id w'), w')) >>= λ stored.
            throw_if out (otp_differs out stored otp) incorrect_otp
            >> (transition out id in_progress (record no_options { clear_otp = true }) false
                >>= λ started. sync_if_assigned out started.driver_id on_trip >> pure started))

    -- The row lets this caller start the ride with this code.
    pub record Admits (row : RideRow N) : Type 0 where
      pub status : can_transition_ride_status row.status in_progress ≡ true
      pub caller_assigned : is_other out caller row.driver_id ≡ false
      pub code : otp_differs out row.otp otp ≡ false

    rest_admitted :
        (row : RideRow N) (w₁ : World out)
        → row_of out w id ≡ some row
        → Admits row
        → transition out id in_progress (start_options row) false w
          ≡ (ok (to_domain (set_fields in_progress (start_options row) w.now row)), w₁)
        → rest (to_domain row) w ≡ (
          ok (to_domain (set_fields in_progress (start_options row) w.now row)),
          notify out
              (some on_trip)
              (set_fields in_progress (start_options row) w.now row).driver_id
              w₁,
        )
    unfolding to_domain get_otp
    rest_admitted row w₁ h a e = ground (
      arith,
      a,
      e,
      sync_domain out (set_fields in_progress (start_options row) w.now row) on_trip w₁,
    )

    rest_foreign :
        (row : RideRow N)
        → is_other out caller row.driver_id ≡ true
        → rest (to_domain row) w ≡ (err not_the_assigned_driver, w)
    unfolding to_domain
    rest_foreign row y = ground arith

    rest_wrong_code :
        (row : RideRow N)
        → row_of out w id ≡ some row
        → is_other out caller row.driver_id ≡ false
        → otp_differs out row.otp otp ≡ true
        → rest (to_domain row) w ≡ (err incorrect_otp, w)
    unfolding to_domain get_otp
    rest_wrong_code row h n y = ground arith

    -- The row of the ride once it has started.
    abbrev pub started_row : RideRow N → RideRow N
    started_row row = record row { status = in_progress; otp = none; updated_at = w.now }

    -- What `start` may do. It throws and changes nothing, with the error of the first of its checks
    -- that fails: there is no ride, the driver has not arrived, a caller that is named is not the
    -- assigned driver, or the code is not the one that is stored. Or the row is in progress without its
    -- code, and its driver is sent ON_TRIP.
    pub data StartOutcome (res : Result TripError (Ride N) × World out) : Type 0 where
      absent : row_of out w id ≡ none → res ≡ (err (ride_not_found id), w) → StartOutcome res
      refused :
          (row : RideRow N)
          → row_of out w id ≡ some row
          → row.status ≢ driver_arrived
          → res ≡ (err (conflict row.status in_progress), w)
          → StartOutcome res
      foreign :
          (row : RideRow N) (c : String)
          → row_of out w id ≡ some row
          → row.status ≡ driver_arrived
          → truthy caller ≡ some c
          → row.driver_id ≢ some c
          → res ≡ (err not_the_assigned_driver, w)
          → StartOutcome res
      wrong_code :
          (row : RideRow N)
          → row_of out w id ≡ some row
          → row.status ≡ driver_arrived
          → ((c : String) → truthy caller ≡ some c → row.driver_id ≡ some c)
          → (truthy row.otp ≡ none) ⊎ (row.otp ≢ some otp)
          → res ≡ (err incorrect_otp, w)
          → StartOutcome res
      started :
          (row : RideRow N) (w₁ : World out)
          → row_of out w id ≡ some row
          → row.status ≡ driver_arrived
          → ((c : String) → truthy caller ≡ some c → row.driver_id ≡ some c)
          → row.otp ≡ some otp
          → Updated out id in_progress (start_options row) row w w₁
          → row_of out w₁ id ≡ some (started_row row)
          → res ≡ (ok (to_domain (started_row row)), notify out (some on_trip) row.driver_id w₁)
          → StartOutcome res

    arrived :
        (row : RideRow N)
        → can_transition_ride_status row.status in_progress ≡ true
        → row.status ≡ driver_arrived
    unfolding can_transition_ride_status
    arrived row c = ground arith

    not_arrived :
        (row : RideRow N)
        → can_transition_ride_status row.status in_progress ≡ false
        → row.status ≢ driver_arrived
    unfolding can_transition_ride_status
    not_arrived row c e = ground arith

    start_coded :
        (row : RideRow N)
        → row_of out w id ≡ some row
        → can_transition_ride_status row.status in_progress ≡ true
        → is_other out caller row.driver_id ≡ false
        → StartOutcome (guarded out id in_progress rest w)
    unfolding set_fields
    start_coded row h c n =
        let g = guarded_allowed out id in_progress rest w row h c in
        let assigned =
          λ (d : String) (t : truthy caller ≡ some d). same_caller caller row.driver_id d n t in
        elim (Bool-cases (otp_differs out row.otp otp)) [
          | inl y ↦
              wrong_code row h (arrived row c) assigned (other_code row.otp otp y)
                (g ∙ rest_wrong_code row h n y)
          | inr s ↦
              let a : Admits row = record { status = c; caller_assigned = n; code = s } in
              let (w₁, e, u) =
                transition_found out id in_progress (start_options row) false w row h in
              started row w₁ h (arrived row c) assigned (same_code row.otp otp s) u u.after
                (g ∙ rest_admitted row w₁ h a e)
        ]

    start_allowed :
        (row : RideRow N)
        → row_of out w id ≡ some row
        → can_transition_ride_status row.status in_progress ≡ true
        → StartOutcome (guarded out id in_progress rest w)
    start_allowed row h c = elim (Bool-cases (is_other out caller row.driver_id)) [
      | inl y ↦
          let (d, named, differs) = other_caller caller row.driver_id y in
          foreign row d h (arrived row c) named differs
            (guarded_allowed out id in_progress rest w row h c ∙ rest_foreign row y)
      | inr n ↦ start_coded row h c n
    ]

    -- `start` throws and changes nothing, with the error of the first of its checks that fails: "not
    -- found" without a ride, a conflict unless the driver has arrived, "forbidden" if a caller is named
    -- who is not the assigned driver, and "incorrect OTP" if the code is not the one that is stored.
    -- Else the row becomes IN_PROGRESS without its code, all other rows stay, one audit row is written,
    -- the answer is the ride, and its driver is sent ON_TRIP.
    pub start-StartOutcome : StartOutcome (start out id otp caller w)
    unfolding start
    start-StartOutcome = elim (Option-cases (row_of out w id)) [
      | inl h ↦ absent h (guarded_absent out id in_progress rest w h)
      | inr (row, h) ↦ elim (Bool-cases (can_transition_ride_status row.status in_progress)) [
        | inr c ↦
            refused row h (not_arrived row c) (guarded_refused out id in_progress rest w row h c)
        | inl c ↦ start_allowed row h c
      ]
    ]

    -- When `start` succeeds the driver had arrived, the code given is the one that was stored, a
    -- caller that is named is the assigned driver, and the row afterwards is in progress and holds
    -- no code.
    pub start_needs_code :
        (ride : Ride N) (w' : World out)
        → start out id otp caller w ≡ (ok ride, w')
        → (row : RideRow N) × (row' : RideRow N) × (row_of out w id ≡ some row)
          × (row.status ≡ driver_arrived)
          × (row.otp ≡ some otp)
          × ((c : String) → truthy caller ≡ some c → row.driver_id ≡ some c)
          × (row_of out w' id ≡ some row')
          × (row'.status ≡ in_progress)
          × (row'.otp ≡ none)
    start_needs_code ride w' s = elim (start-StartOutcome) [
      | absent h r ↦ cc
      | refused row h n r ↦ cc
      | foreign row c h i t n r ↦ cc
      | wrong_code row h i t n r ↦ cc
      | started row w₁ h i t code u after r ↦ (
        row,
        started_row row,
        h,
        i,
        code,
        t,
        ap (λ p. row_of out p.1 id) (sym s ∙ r)
            ∙ row_of-notify out (some on_trip) row.driver_id w₁ id
            ∙ after,
        refl,
        refl,
      )
    ]
