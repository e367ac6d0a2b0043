-- ===== src/RiderService/Riders/Changes.antt =====
-- What registrations and updates of profiles do to the table.
use ryd_trip.Prelude.{
  ℕ, String, ◌≡◌, ◌≢◌, ◌⊎◌, ◌∙◌, ap, sym, inl, inr, refl, subst, true, none, some, List, [], ◌∷◌,
  arith, Option-cases, Bool-cases, false,
}
use ryd_trip.Exec.{ok, err}
use ryd_trip.Tables.Accounts.{AccountTable, updated, duplicate, obstructs}
use ryd_trip.Tables.Accounts.Laws.{
  FieldIs, kept-FieldIs, Distinct, create-Distinct, update-Distinct,
}
use ryd_trip.Credentials.{Credentials}
use ryd_trip.RiderService.Riders.{
  RiderRow, keys, CreateRiderDto, UpdateRiderDto, Drawn, rider_not_found, already_registered,
  password_salt_rounds, new_row, to_domain, has_null, null_field, with_profile, find_by_id,
  insert_row, write_profile, update_profile, create, Answer,
}

with_profile_id :
    {R : Type 0} (dto : UpdateRiderDto) (now : ℕ) (row : RiderRow R)
    → (keys (with_profile dto now row)).id ≡ (keys row).id
unfolding keys with_profile
with_profile_id dto now row = refl

-- The row has the fields that were given, and keeps all others.
pub record IsEdited {R : Type 0} (dto : UpdateRiderDto) (now : ℕ) (row row' : RiderRow R)
    : Type 0 where
  pub same_id : row'.id ≡ row.id
  pub new_name : FieldIs dto.name row.name row'.name
  pub new_phone : FieldIs dto.phone row.phone row'.phone
  pub new_email : FieldIs dto.email row.email row'.email
  pub same_password_hash : row'.password_hash ≡ row.password_hash
  pub same_rating : row'.rating ≡ row.rating
  pub same_created_at : row'.created_at ≡ row.created_at
  pub at : row'.updated_at ≡ now

with_profile-IsEdited :
    {R : Type 0} (dto : UpdateRiderDto) (now : ℕ) (row : RiderRow R)
    → has_null dto ≡ false
    → IsEdited dto now row (with_profile dto now row)
unfolding with_profile has_null
with_profile-IsEdited dto now row h = record {
  same_id = refl;
  new_name = kept-FieldIs dto.name row.name (ground arith);
  new_phone = kept-FieldIs dto.phone row.phone (ground arith);
  new_email = kept-FieldIs dto.email row.email (ground arith);
  same_password_hash = refl;
  same_rating = refl;
  same_created_at = refl;
  at = refl;
}

module _ {R : Type 0} (riders : AccountTable (RiderRow R) keys) where
  -- The outcomes of an update of a profile.
  pub data ProfileOutcome (t : riders.State) (id : String) (dto : UpdateRiderDto) (now : ℕ)
      (res : Answer riders) : Type 0 where
    absent :
        riders.find_unique t id ≡ none
        → res ≡ (err (rider_not_found id), t)
        → ProfileOutcome t id dto now res
    conflict :
        (row row' other : RiderRow R)
        → riders.find_unique t id ≡ some row
        → riders.find_unique t other.id ≡ some other
        → obstructs (keys row) (keys row') (keys other) ≡ true
        → IsEdited dto now row row'
        → res ≡ (err already_registered, t)
        → ProfileOutcome t id dto now res
    null_refused :
        (row : RiderRow R)
        → riders.find_unique t id ≡ some row
        → has_null dto ≡ true
        → res ≡ (err null_field, t)
        → ProfileOutcome t id dto now res
    changed :
        (row row' : RiderRow R) (t' : riders.State)
        → riders.find_unique t id ≡ some row
        → riders.update t id (with_profile dto now) ≡ updated t'
        → riders.find_unique t' id ≡ some row'
        → IsEdited dto now row row'
        → ((j : String) → j ≢ id → riders.find_unique t' j ≡ riders.find_unique t j)
        → res ≡ (ok (to_domain row'), t')
        → ProfileOutcome t id dto now res

  update_profile_absent :
      (t : riders.State) (id : String) (dto : UpdateRiderDto) (now : ℕ)
      → riders.find_unique t id ≡ none
      → update_profile riders t id dto now ≡ (err (rider_not_found id), t)
  unfolding update_profile find_by_id
  update_profile_absent t id dto now gone = ground arith

  update_profile_present :
      (t : riders.State) (id : String) (dto : UpdateRiderDto) (now : ℕ) (row : RiderRow R)
      → riders.find_unique t id ≡ some row
      → has_null dto ≡ false
      → update_profile riders t id dto now ≡ write_profile riders t id dto now
  unfolding update_profile find_by_id
  update_profile_present t id dto now row found whole = ground arith

  update_profile_null :
      (t : riders.State) (id : String) (dto : UpdateRiderDto) (now : ℕ) (row : RiderRow R)
      → riders.find_unique t id ≡ some row
      → has_null dto ≡ true
      → update_profile riders t id dto now ≡ (err null_field, t)
  unfolding update_profile find_by_id
  update_profile_null t id dto now row found holed = ground arith

  write_profile_duplicate :
      (t : riders.State) (id : String) (dto : UpdateRiderDto) (now : ℕ)
      → riders.update t id (with_profile dto now) ≡ duplicate
      → write_profile riders t id dto now ≡ (err already_registered, t)
  unfolding write_profile
  write_profile_duplicate t id dto now h = ground arith

  write_profile_updated :
      (t t' : riders.State) (id : String) (dto : UpdateRiderDto) (now : ℕ) (row : RiderRow R)
      → riders.update t id (with_profile dto now) ≡ updated t'
      → riders.find_unique t' id ≡ some row
      → write_profile riders t id dto now ≡ (ok (to_domain row), t')
  unfolding write_profile
  write_profile_updated t t' id dto now row h found = ground arith

  other_rows :
      (t t' : riders.State) (id : String) (dto : UpdateRiderDto) (now : ℕ) (j : String)
      → riders.update t id (with_profile dto now) ≡ updated t'
      → j ≢ id
      → riders.find_unique t' j ≡ riders.find_unique t j
  other_rows t t' id dto now j up ne =
      elim (riders.update_frame t t' id (with_profile dto now) j (with_profile_id dto now) up) [
        | inl e ↦ absurd (ne (sym e))
        | inr same ↦ same
      ]

  update_profile_whole :
      (t : riders.State) (id : String) (dto : UpdateRiderDto) (now : ℕ) (row : RiderRow R)
      → riders.find_unique t id ≡ some row
      → has_null dto ≡ false
      → ProfileOutcome t id dto now (update_profile riders t id dto now)
  unfolding keys
  update_profile_whole t id dto now row found whole =
      let row' = with_profile dto now row in
      let edited = with_profile-IsEdited dto now row whole in
      let runs = update_profile_present t id dto now row found whole in
      let blocks = λ (o : RiderRow R). obstructs (keys row) (keys row') (keys o) in
      elim (Option-cases (riders.find_first t blocks)) [
        | inr (other, is) ↦
            let (stops, stored) = riders.find_first_sound t blocks other is in
            conflict row row' other found stored stops edited (
              runs
              ∙ write_profile_duplicate t id dto now
                  (riders.update_duplicate t id (with_profile dto now) other row found is))
        | inl free ↦
            let (t', up) = riders.update_free t id (with_profile dto now) row found free in
            let at =
              riders.update_self t t' id (with_profile dto now) row (with_profile_id dto now) found
                up in
            changed row row' t' found up at edited (λ j ne. other_rows t t' id dto now j up ne)
              (runs ∙ write_profile_updated t t' id dto now row' up at)
      ]

  -- An update of a profile answers "not found"; or it fails because a field is `null`; or it answers a
  -- conflict with a stored account that has the phone or the email which the update writes anew; and
  -- then it changes nothing. Or the account has the fields that were given and keeps the others, the
  -- answer is that account, and every other account is as it was.
  pub update_profile-ProfileOutcome :
      (t : riders.State) (id : String) (dto : UpdateRiderDto) (now : ℕ)
      → ProfileOutcome t id dto now (update_profile riders t id dto now)
  update_profile-ProfileOutcome t id dto now = elim (Option-cases (riders.find_unique t id)) [
    | inl gone ↦ absent gone (update_profile_absent t id dto now gone)
    | inr (row, found) ↦ elim (Bool-cases (has_null dto)) [
      | inl holed ↦ null_refused row found holed (update_profile_null t id dto now row found holed)
      | inr whole ↦ update_profile_whole t id dto now row found whole
    ]
  ]

  insert_row_cases :
      (t : riders.State) (row : RiderRow R)
      → (insert_row riders t row ≡ (err already_registered, t))
        ⊎ ((t' : riders.State) × (riders.create t row ≡ some t')
            × (insert_row riders t row ≡ (ok (to_domain row), t')))
  unfolding insert_row
  insert_row_cases t row = elim (Option-cases (riders.create t row)) [
    | inl refused ↦ inl (ground arith)
    | inr (t', made) ↦ inr (t', made, ground arith)
  ]

  insert_row-Distinct :
      (t : riders.State) (row : RiderRow R)
      → Distinct riders t
      → Distinct riders (insert_row riders t row).1
  insert_row-Distinct t row unique = elim (insert_row_cases t row) [
    | inl e ↦ subst (Distinct riders) (sym (ap (λ r. r.1) e)) unique
    | inr (t', made, e) ↦
        subst (Distinct riders) (sym (ap (λ r. r.1) e))
          (create-Distinct riders t t' row unique made)
  ]

  profile-Distinct :
      (t : riders.State) (id : String) (dto : UpdateRiderDto) (now : ℕ) (res : Answer riders)
      → Distinct riders t
      → ProfileOutcome t id dto now res
      → Distinct riders res.1
  profile-Distinct t id dto now res unique (absent gone e) =
      subst (Distinct riders) (sym (ap (λ r. r.1) e)) unique
  profile-Distinct t id dto now res unique (null_refused row found holed e) =
      subst (Distinct riders) (sym (ap (λ r. r.1) e)) unique
  profile-Distinct t id dto now res unique (conflict row row' other found stored stops edited e) =
      subst (Distinct riders) (sym (ap (λ r. r.1) e)) unique
  profile-Distinct t id dto now res unique (changed row row' t' found up at edited frame e) =
      subst (Distinct riders) (sym (ap (λ r. r.1) e))
        (update-Distinct riders t t' id (with_profile dto now) (with_profile_id dto now) unique up)

-- What the endpoints ask of the table.
pub data Request (R : Type 0) : Type 0 where
  register : CreateRiderDto → Drawn R → Request R
  edit : String → UpdateRiderDto → ℕ → Request R

module _ {R : Type 0} (riders : AccountTable (RiderRow R) keys) (lib : Credentials) where
  unfoldable pub perform : Request R → riders.State → riders.State
  perform (register dto drawn) t = (create riders lib t dto drawn).1
  perform (edit id dto now) t = (update_profile riders t id dto now).1

  unfoldable pub serve : List (Request R) → riders.State → riders.State
  unfolding perform
  serve [] t = t
  serve (r ∷ rs) t = serve rs (perform r t)

  perform-Distinct :
      (r : Request R) (t : riders.State) → Distinct riders t → Distinct riders (perform r t)
  unfolding perform create
  perform-Distinct (register dto drawn) t unique =
      insert_row-Distinct riders t
        (new_row dto (lib.hash dto.password password_salt_rounds drawn.salt) drawn) unique
  perform-Distinct (edit id dto now) t unique =
      profile-Distinct riders t id dto now (update_profile riders t id dto now) unique
        (update_profile-ProfileOutcome riders t id dto now)

  -- Over any series of registrations and updates of profiles, answered well or not, no two riders
  -- share a phone or an email, if none did before.
  pub serve-Distinct :
      (rs : List (Request R)) (t : riders.State) → Distinct riders t → Distinct riders (serve rs t)
  unfolding serve
  serve-Distinct [] t unique = unique
  serve-Distinct (r ∷ rs) t unique = serve-Distinct rs (perform r t) (perform-Distinct r t unique)
