-- ===== src/DriverService/Drivers/Outcomes.antt =====
-- What a change of a driver's status does, and what a sequence of them can do.
use ryd_trip.Prelude.{
  ℕ, String, ◌≡◌, ◌∙◌, refl, ap, inl, inr, true, false, none, some, List, [], ◌∷◌, arith,
  Option-cases, Bool-cases,
}
use ryd_trip.Exec.{ok, err}
use ryd_trip.EventSchema.{DriverStatus}
use ryd_trip.Tables.Accounts.{AccountTable, updated}
use ryd_trip.Tables.Accounts.Laws.{update_same_keys}
use ryd_trip.DriverService.DriverStateMachine.{
  can_transition_driver_status, assert_valid_driver_transition,
}
use ryd_trip.DriverService.DriverStateMachine.Graph.{◌⟶◌, ◌⟶*◌, can_transition_driver_iff}
use ryd_trip.DriverService.Drivers.{
  DriverRow, driver_not_found, invalid_transition, to_domain, find_by_id, with_status, write_status,
  update_status, keys, Answer,
}

module _ {R : Type 0} (drivers : AccountTable (DriverRow R) keys) where
  -- The outcomes of a change of status.
  pub data Outcome (id : String) (target : DriverStatus) (now : ℕ) (t : drivers.State)
      (res : Answer drivers) : Type 0 where
    absent :
        drivers.find_unique t id ≡ none
        → res ≡ (err (driver_not_found id), t)
        → Outcome id target now t res
    refused :
        (row : DriverRow R)
        → drivers.find_unique t id ≡ some row
        → can_transition_driver_status row.status target ≡ false
        → res ≡ (err (invalid_transition (record { from = row.status; to = target })), t)
        → Outcome id target now t res
    moved :
        (row : DriverRow R) (t' : drivers.State)
        → drivers.find_unique t id ≡ some row
        → row.status ⟶ target
        → drivers.update t id (with_status drivers target now) ≡ updated t'
        → res ≡ (ok (to_domain (with_status drivers target now row)), t')
        → Outcome id target now t res

  with_status_keys :
      (target : DriverStatus) (now : ℕ) (row : DriverRow R)
      → keys (with_status drivers target now row) ≡ keys row
  unfolding keys with_status
  with_status_keys target now row = refl

  pub with_status_id :
      (target : DriverStatus) (now : ℕ) (row : DriverRow R)
      → (keys (with_status drivers target now row)).id ≡ (keys row).id
  with_status_id target now row = ap (λ k. k.id) (with_status_keys target now row)

  write_status_found :
      (id : String) (target : DriverStatus) (now : ℕ) (t t' : drivers.State) (row : DriverRow R)
      → drivers.find_unique t id ≡ some row
      → drivers.update t id (with_status drivers target now) ≡ updated t'
      → write_status drivers id target now t
        ≡ (ok (to_domain (with_status drivers target now row)), t')
  unfolding write_status
  write_status_found id target now t t' row found up = ground (
    arith,
    drivers.update_self t t' id (with_status drivers target now) row (with_status_id target now)
        found up,
  )

  update_status_allowed :
      (id : String) (target : DriverStatus) (now : ℕ) (t : drivers.State) (row : DriverRow R)
      → drivers.find_unique t id ≡ some row
      → can_transition_driver_status row.status target ≡ true
      → update_status drivers id target now t ≡ write_status drivers id target now t
  unfolding update_status find_by_id assert_valid_driver_transition to_domain
  update_status_allowed id target now t row found allowed = ground arith

  update_status_refused :
      (id : String) (target : DriverStatus) (now : ℕ) (t : drivers.State) (row : DriverRow R)
      → drivers.find_unique t id ≡ some row
      → can_transition_driver_status row.status target ≡ false
      → update_status drivers id target now t
        ≡ (err (invalid_transition (record { from = row.status; to = target })), t)
  unfolding update_status find_by_id assert_valid_driver_transition to_domain
  update_status_refused id target now t row found forbidden = ground arith

  update_status_absent :
      (id : String) (target : DriverStatus) (now : ℕ) (t : drivers.State)
      → drivers.find_unique t id ≡ none
      → update_status drivers id target now t ≡ (err (driver_not_found id), t)
  unfolding update_status find_by_id
  update_status_absent id target now t gone = ground arith

  -- A change of status answers "not found" and changes nothing; or finds a transition outside the
  -- table, answers a conflict that names it and changes nothing; or follows an edge of the diagram,
  -- and then the table is updated at this driver and the answer is the updated driver.
  pub update_status-Outcome :
      (id : String) (target : DriverStatus) (now : ℕ) (t : drivers.State)
      → Outcome id target now t (update_status drivers id target now t)
  update_status-Outcome id target now t = elim (Option-cases (drivers.find_unique t id)) [
    | inl gone ↦ absent gone (update_status_absent id target now t gone)
    | inr (row, found) ↦ elim (Bool-cases (can_transition_driver_status row.status target)) [
      | inl allowed ↦
          let (t', up) =
            update_same_keys drivers t id (with_status drivers target now) row found
              (with_status_keys target now row) in
          moved row t' found ((can_transition_driver_iff row.status target).0 allowed) up (
            update_status_allowed id target now t row found allowed
            ∙ write_status_found id target now t t' row found up)
      | inr forbidden ↦
          refused row found forbidden (update_status_refused id target now t row found forbidden)
    ]
  ]

  -- A driver that was there still is, with a status reached along the diagram; all else in the row,
  -- but for the moment of its last write, is as it was.
  pub data Walked (id : String) (row : DriverRow R) (t : drivers.State) : Type 0 where
    walked :
        (status : DriverStatus) (at : ℕ)
        → drivers.find_unique t id ≡ some (with_status drivers status at row)
        → row.status ⟶* status
        → Walked id row t

  -- A request to change a status, with the moment of the write.
  abbrev pub Request : Type 0
  Request = String × DriverStatus × ℕ

  pub serve : List Request → drivers.State → drivers.State
  serve [] t = t
  serve ((id, target, now) ∷ rs) t = serve rs (update_status drivers id target now t).1
