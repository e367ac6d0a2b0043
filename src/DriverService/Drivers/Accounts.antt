-- ===== src/DriverService/Drivers/Accounts.antt =====
-- Registration, login and profiles of the drivers.
use ryd_trip.Prelude.{
  String, ◌≡◌, ◌≢◌, ◌∙◌, ap, inl, inr, subst, true, false, some, arith, Option-cases,
}
use ryd_trip.Exec.{Result, ok}
use ryd_trip.Tables.Accounts.{AccountTable, identifies}
use ryd_trip.Tables.Accounts.Laws.{
  not_identified, identifies_phone, identifies_email, create_no_clash, created_identified,
}
use ryd_trip.Credentials.{Credentials}
use ryd_trip.DriverService.Drivers.{
  DriverRow, Driver, keys, CreateDriverDto, LoginDriverDto, Drawn, AuthResult, DriverError,
  password_salt_rounds, new_row, to_domain, claims_of, find_row_by_identifier, insert_row, create,
  logged_in, login,
}

module _ {R : Type 0} (drivers : AccountTable (DriverRow R) keys) (lib : Credentials) where
  abbrev registered_row : CreateDriverDto → Drawn R → DriverRow R
  registered_row dto drawn =
      new_row dto (lib.hash dto.password password_salt_rounds drawn.salt) drawn

  insert_row_inv :
      (t t' : drivers.State) (row : DriverRow R) (r : Driver R)
      → insert_row drivers t row ≡ (ok r, t')
      → (drivers.create t row ≡ some t') × (to_domain row ≡ r)
  unfolding insert_row
  insert_row_inv t t' row r h = elim (Option-cases (drivers.create t row)) [
    | inl no_row_ ↦ absurd (ground arith)
    | inr (t'', made) ↦ (ground arith, ground arith)
  ]

  logged_in_matching :
      (row : DriverRow R) (password : String)
      → lib.compare password row.password_hash ≡ true
      → logged_in drivers lib (some row) password
        ≡ ok (record {
          access_token = lib.sign (claims_of (to_domain row));
          account = to_domain row;
        })
  unfolding logged_in
  logged_in_matching row password same = ground arith

  -- No account has this phone as its email, or this email as its phone.
  abbrev pub NoCross : drivers.State → CreateDriverDto → Type 0
  NoCross t dto =
      (j : String) (w : DriverRow R)
      → drivers.find_unique t j ≡ some w
      → (w.email ≢ dto.phone) × (w.phone ≢ dto.email)

  abbrev pub authenticated : Driver R → Result DriverError (AuthResult R)
  authenticated r = ok (record { access_token = lib.sign (claims_of r); account = r })

  module _ (t t' : drivers.State) (dto : CreateDriverDto) (drawn : Drawn R)
      (no_cross : NoCross t dto)
      (made : drivers.create t (registered_row dto drawn) ≡ some t') where
    others_phone :
        (j : String) (w : DriverRow R)
        → drivers.find_unique t j ≡ some w
        → identifies dto.phone (keys w) ≡ false
    unfolding keys new_row
    others_phone j w at =
        not_identified dto.phone (keys w)
          (λ e. create_no_clash drivers t t' (registered_row dto drawn) w j made at (inl e))
          (no_cross j w at).0

    others_email :
        (j : String) (w : DriverRow R)
        → drivers.find_unique t j ≡ some w
        → identifies dto.email (keys w) ≡ false
    unfolding keys new_row
    others_email j w at =
        not_identified dto.email (keys w) (no_cross j w at).1
          (λ e. create_no_clash drivers t t' (registered_row dto drawn) w j made at (inr e))

    found_by_both :
        (find_row_by_identifier drivers t' dto.phone ≡ some (registered_row dto drawn))
        × (find_row_by_identifier drivers t' dto.email ≡ some (registered_row dto drawn))
    unfolding find_row_by_identifier keys new_row
    found_by_both = (
      created_identified drivers t t' (registered_row dto drawn) dto.phone made
          (identifies_phone (keys (registered_row dto drawn))) others_phone,
      created_identified drivers t t' (registered_row dto drawn) dto.email made
          (identifies_email (keys (registered_row dto drawn))) others_email,
    )

  login_found :
      (t : drivers.State) (i password : String) (row : DriverRow R)
      → find_row_by_identifier drivers t i ≡ some row
      → lib.compare password row.password_hash ≡ true
      → login drivers lib t (record { identifier = i; password = password })
        ≡ authenticated (to_domain row)
  unfolding login
  login_found t i password row found same = rw found (logged_in_matching row password same)

  -- After a registration that was answered with a driver, the phone and the email each log in with
  -- the password: the answer is that driver and a token for it, provided that no account had this
  -- phone as its email or this email as its phone.
  pub register_login :
      (t t' : drivers.State) (dto : CreateDriverDto) (drawn : Drawn R) (r : Driver R)
      → NoCross t dto
      → create drivers lib t dto drawn ≡ (ok r, t')
      → (login drivers lib t' (record { identifier = dto.phone; password = dto.password })
          ≡ authenticated r)
        × (login drivers lib t' (record { identifier = dto.email; password = dto.password })
            ≡ authenticated r)
  unfolding create new_row
  register_login t t' dto drawn r no_cross h =
      let row = registered_row dto drawn in
      let (made, same) = insert_row_inv t t' row r h in
      let (by_phone, by_email) = found_by_both t t' dto drawn no_cross made in
      let matches = lib.compare_hash dto.password password_salt_rounds drawn.salt in
      (
        login_found t' dto.phone dto.password row by_phone matches ∙ ap authenticated same,
        login_found t' dto.email dto.password row by_email matches ∙ ap authenticated same,
      )

  -- What a login shows of the row that it answers for.
  pub record Known (t : drivers.State) (dto : LoginDriverDto) (a : AuthResult R) : Type 0 where
    pub row : DriverRow R
    pub stored : drivers.find_unique t row.id ≡ some row
    pub named : identifies dto.identifier (keys row) ≡ true
    pub password_matches : lib.compare dto.password row.password_hash ≡ true
    pub answered :
        a ≡ record { access_token = lib.sign (claims_of (to_domain row)); account = to_domain row }

  logged_in_inv :
      (row : DriverRow R) (password : String) (a : AuthResult R)
      → logged_in drivers lib (some row) password ≡ ok a
      → (lib.compare password row.password_hash ≡ true)
        × (a ≡ record {
          access_token = lib.sign (claims_of (to_domain row));
          account = to_domain row;
        })
  unfolding logged_in
  logged_in_inv row password a h = ground arith

  -- A login that succeeds answers for a stored account with the identifier as its phone or its
  -- email, with a hash that matches the password, and with a token of that account's claims.
  pub login-Known :
      (t : drivers.State) (dto : LoginDriverDto) (a : AuthResult R)
      → login drivers lib t dto ≡ ok a
      → Known t dto a
  unfolding login find_row_by_identifier keys
  login-Known t dto a h = elim (Option-cases (find_row_by_identifier drivers t dto.identifier)) [
    | inl gone ↦ absurd (ground arith)
    | inr (row, found) ↦
        let (named, stored) =
          drivers.find_first_sound t (λ row. identifies dto.identifier (keys row)) row found in
        let (matches, answered) =
          logged_in_inv row dto.password a
            (subst (λ o. logged_in drivers lib o dto.password ≡ ok a) found h) in
        record {
          row = row;
          stored = stored;
          named = named;
          password_matches = matches;
          answered = answered;
        }
  ]
