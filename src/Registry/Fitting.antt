-- ===== src/Registry/Fitting.antt =====
-- `Fit`, `Unfit` and `transact` of internal/services/registry.go: one operation, three records.
-- `now` is the one reading of the clock, `new_id` the id that the driver gives the assignment.
pub mod Runs
pub mod Invariant
pub mod Preservation
pub mod Removal
pub mod Writes
pub mod Steps
pub mod Effects
pub mod Tests
use master_data.Shared.{
  refers, ℕ, ◌+◌, Bool, true, false, not, ◌&&◌, Option, none, some, List, [], map, ltb,
  if◌then◌else◌, ◌==◌, nat_eq, text_eq, exists, Text, codes, ok, err,
}
use master_data.Errors.{validation, conflict, duplicate, failure}
use master_data.Models.{
  tracker_gps, active, Vehicle, Tracker, TrackerAssignment, assignment_before_write,
}
use master_data.Mongo.{
  Mongo, Inserted, inserted, Deployment, no_session, unsupported, commits, aborts,
}
use master_data.Mongo
use master_data.Repository
use master_data.Normalise.{imei}
use master_data.Registry.{
  Db, Outcome, Exec, and_then, ◌>>=◌, ◌>>◌, pure, refuse_if, instead, announce, counted,
  find_tracker, find_vehicle,
}

pub record FitInput : Type 0 where
  pub vehicle_id : Text
  pub fitted_at : Option ℕ
  pub install_photo_key : Option Text
  pub installed_by_user_id : Option Text
  pub install_notes : Option Text

abbrev pub minute : ℕ
minute = 60000000000

abbrev pub at_or : ℕ → Option ℕ → ℕ
at_or now none = now
at_or now (some t) = t

abbrev pub is_open : TrackerAssignment → Bool
is_open a = elim a.unfitted_at [ none ↦ true | some t ↦ false ]

-- `{"trackerId": tid, "unfittedAt": nil}`.
abbrev pub open_for : Text → TrackerAssignment → Bool
open_for tid a = refers a.tracker_id tid && is_open a

-- `{"vehicleId": vid, "unfittedAt": nil, "trackerId": {"$in": kindIDs}}`.
abbrev pub open_among : Text → List Text → TrackerAssignment → Bool
open_among vid kind_ids a =
    a.vehicle_id == vid && is_open a && exists (λ k. refers a.tracker_id k) kind_ids

-- `{"$set": {"unfittedAt": at}}`.
abbrev pub close : ℕ → TrackerAssignment → TrackerAssignment
close at a = record a { unfitted_at = some at }

abbrev pub unlink : ℕ → Vehicle → Vehicle
unlink at v = record v { tracker_id = none; updated_at = at }

abbrev pub link : Text → ℕ → Vehicle → Vehicle
link tid at v = record v { tracker_id = some tid; updated_at = at }

module _ (m : Mongo) where
  pub set_assignments : Db → Option (ℕ × List TrackerAssignment) → Outcome ℕ
  set_assignments db none = (err failure, db)
  set_assignments db (some (n, rows)) = (ok n, record db { assignments = rows })

  pub close_where : (TrackerAssignment → Bool) → ℕ → Exec ℕ
  unfolding set_assignments
  close_where p at db = set_assignments db (m.update_many p (close at) db.assignments)

  pub set_vehicles : Db → Option (ℕ × List Vehicle) → Outcome (Unit {0})
  set_vehicles db none = (err failure, db)
  set_vehicles db (some (n, rows)) = (ok tt, record db { vehicles = rows })

  pub unlink_where : (Vehicle → Bool) → ℕ → Exec (Unit {0})
  unfolding set_vehicles
  unlink_where p at db = set_vehicles db (m.update_many p (unlink at) db.vehicles)

  pub link_vehicle : ℕ → Text → ℕ → Exec (Unit {0})
  unfolding set_vehicles
  link_vehicle o tid at db =
      set_vehicles db (m.update_one (λ v. v.id == o) (link tid at) db.vehicles)

  pub add_assignment : TrackerAssignment → Db → Inserted TrackerAssignment → Outcome (Unit {0})
  add_assignment a db (inserted rows) = (ok tt, record db { assignments = rows })
  add_assignment a db Mongo.duplicate = (err failure, db)
  add_assignment a db Mongo.failed = (err failure, db)

  pub insert_assignment : TrackerAssignment → Exec (Unit {0})
  unfolding add_assignment
  insert_assignment a db = add_assignment a db (m.insert_one a db.assignments)

  -- For GPS the vehicle's own field follows.
  pub move_link : Text → Text → ℕ → ℕ → Exec (Unit {0})
  unfolding unlink_where link_vehicle
  move_link kind tid o at =
      if kind == tracker_gps
      then (do
        unlink_where (λ v. refers v.tracker_id tid && not (v.id == o)) at
        link_vehicle o tid at)
      else pure tt

  -- The function `run` of `Fit`.
  pub fit_run : Tracker → Vehicle → List Text → ℕ → TrackerAssignment → Exec (Unit {0})
  unfolding close_where insert_assignment move_link
  fit_run t v kind_ids at assignment = do
    closed ← close_where (open_for (m.hex t.id)) at
    displaced ← close_where (open_among (m.hex v.id) kind_ids) at
    insert_assignment assignment
    move_link t.kind (m.hex t.id) v.id at

  -- An aborted transaction leaves the state as it was.
  pub settle : {A : Type 0} → Db → Outcome A → Outcome A
  settle before (ok a, db) = (ok a, db)
  settle before (err e, db) = (err e, before)

  pub transact : {A : Type 0} → Deployment → Exec A → Exec A
  unfolding settle
  transact no_session run db = run db
  transact unsupported run db = run db
  transact commits run db = settle db (run db)
  transact aborts run db = (err failure, db)

  pub new_assignment : Text → Tracker → Vehicle → FitInput → ℕ → ℕ → ℕ → TrackerAssignment
  new_assignment company_id t v input at now new_id = assignment_before_write (record {
    id = new_id;
    company_id = company_id;
    tracker_id = some (m.hex t.id);
    vehicle_id = m.hex v.id;
    kind = t.kind;
    device_id = t.device_id;
    imei = t.imei;
    fitted_at = at;
    unfitted_at = none;
    install_photo_key = input.install_photo_key;
    installed_by_user_id = input.installed_by_user_id;
    install_notes = input.install_notes;
    created_at = now;
  })

  -- `sameKind`: the ids of the live devices of a kind.
  abbrev pub same_kind : Text → Tracker → Bool
  same_kind kind t = t.kind == kind && not t.deleted

  pub kind_ids : Text → Exec (List Text)
  kind_ids kind db =
      and_then (counted (m.distinct (λ t. t.id) (same_kind kind) db.trackers) db)
        λ ids. pure (map m.hex ids)

  pub announce_fit : Text → Text → Text → TrackerAssignment → Exec TrackerAssignment
  unfolding announce
  announce_fit company_id tracker_id vehicle_id assignment = do
    announce (codes "tracker") company_id tracker_id (codes "fit")
    announce (codes "vehicle") company_id vehicle_id (codes "update")
    pure assignment

  -- `Fit` from the transaction on.
  pub fit_write :
      Deployment
      → ℕ
      → ℕ
      → Text
      → Text
      → FitInput
      → Tracker
      → Vehicle
      → List Text
      → Exec TrackerAssignment
  fit_write tx now new_id company_id tracker_id input t v ids = do
    let at = at_or now input.fitted_at
    let assignment = new_assignment company_id t v input at now new_id
    transact tx (fit_run t v ids at assignment)
    announce_fit company_id tracker_id input.vehicle_id assignment

  -- `Fit` once the vehicle is found.
  pub fit_onto :
      Deployment → ℕ → ℕ → Text → Text → FitInput → Tracker → Vehicle → Exec TrackerAssignment
  fit_onto tx now new_id company_id tracker_id input t v = do
    refuse_if (ltb (now + minute) (at_or now input.fitted_at)) validation
    ids ← kind_ids t.kind
    fit_write tx now new_id company_id tracker_id input t v ids

  -- `Fit` once the device is found.
  pub fit_device : Deployment → ℕ → ℕ → Text → Text → FitInput → Tracker → Exec TrackerAssignment
  fit_device tx now new_id company_id tracker_id input t = do
    refuse_if (not (t.status == active) && not (t.status == [])) validation
    v ← λ db. instead validation (find_vehicle m company_id input.vehicle_id db)
    fit_onto tx now new_id company_id tracker_id input t v

  pub fit : Deployment → ℕ → ℕ → Text → Text → FitInput → Exec TrackerAssignment
  fit tx now new_id company_id tracker_id input = do
    t ← find_tracker m company_id tracker_id
    fit_device tx now new_id company_id tracker_id input t

  -- `MatchedCount == 0` is the device not being fitted.
  pub unfit_run : Tracker → ℕ → Exec (Unit {0})
  unfolding close_where unlink_where
  unfit_run t at = do
    n ← close_where (open_for (m.hex t.id)) at
    refuse_if (n == 0) conflict
    if t.kind == tracker_gps
        then unlink_where (λ v. refers v.tracker_id (m.hex t.id)) at
        else pure tt

  -- The vehicle of an open assignment; an error of this read is ignored.
  pub fitted_vehicle : Option (Option TrackerAssignment) → Text
  fitted_vehicle none = []
  fitted_vehicle (some none) = []
  fitted_vehicle (some (some a)) = a.vehicle_id

  pub announce_vehicle : Text → Text → Exec (Unit {0})
  unfolding announce
  announce_vehicle company_id vehicle_id =
      if vehicle_id == []
      then pure tt
      else announce (codes "vehicle") company_id vehicle_id (codes "update")

  pub announce_unfit : Text → Text → Text → Exec (Unit {0})
  unfolding announce announce_vehicle
  announce_unfit company_id tracker_id vehicle_id = do
    announce (codes "tracker") company_id tracker_id (codes "unfit")
    announce_vehicle company_id vehicle_id

  pub unfit : Deployment → ℕ → Text → Text → Option ℕ → Exec (Unit {0})
  unfit tx now company_id tracker_id unfitted_at = do
    t ← find_tracker m company_id tracker_id
    let at = at_or now unfitted_at
    vehicle_id ← λ db. pure (fitted_vehicle (m.find_one (open_for (m.hex t.id)) db.assignments)) db
    transact tx (unfit_run t at)
    announce_unfit company_id tracker_id vehicle_id
