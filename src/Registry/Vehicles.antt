-- ===== src/Registry/Vehicles.antt =====
-- Vehicles in internal/services/registry.go: creating, updating and retiring, and the pairing with a
-- driver. The view that `GetVehicle` adds to a result (the device and the driver, read again) is
-- left out: an operation returns the vehicle that it reads back. `now` is the clock and `new_id`
-- the new object id.
pub mod Pairing
use master_data.Shared.{
  refers, ℕ, Bool, true, false, not, ◌&&◌, ◌||◌, Option, none, some, List, [], ◌∷◌, map, ltb,
  if◌then◌else◌, ◌==◌, nat_eq, text_eq, Text, codes, trim_space, Result, ok, err,
}
use master_data.Errors.{
  Error, validation, conflict, duplicate, plate_required, driver_name_required, driver_status,
  failure,
}
use master_data.Models.{
  active, Vehicle, Driver, TrackerAssignment, VehicleGroupMember, VehicleGroup,
}
use master_data.Mongo.{Mongo}
use master_data.Mongo
use master_data.Repository
use master_data.Registry.{
  Exec, and_then, ◌>>=◌, ◌>>◌, pure, fail, refuse_if, instead, announce, found, counted,
  find_vehicle, get_driver,
}
use master_data.Registry.Inputs.{VehicleInput, apply_vehicle}
use master_data.Registry.Fitting.{is_open}

-- `validation`: the errors of a model become `ErrValidation`; then `dup`.
abbrev pub refused_write : Error → Error
refused_write driver_name_required = validation
refused_write driver_status = validation
refused_write plate_required = validation
refused_write duplicate = conflict
refused_write e = e

abbrev pub dup : {A : Type 0} → Result Error A → Result Error A
dup (ok a) = ok a
dup (err e) = err (refused_write e)

abbrev pub lift : {A : Type 0} → Result Error A → Exec A
lift r db = (r, db)

-- A write of the store for vehicles.
abbrev pub on_vehicles : {A : Type 0} → Result Error A × List Vehicle → Exec A
on_vehicles (r, rows) db = (r, record db { vehicles = rows })

-- `models.Vehicle{CompanyID: companyID, IsAvailable: true}`; the nil object id is 0.
abbrev pub new_vehicle : Text → Vehicle
new_vehicle company_id = record {
  id = 0;
  created_at = 0;
  updated_at = 0;
  deleted = false;
  company_id = company_id;
  license_plate = [];
  plate_normalised = [];
  chassis_number = none;
  chassis_normalised = none;
  engine_number = none;
  unit_type = [];
  truck_head_id = none;
  truck_body_id = none;
  brand_id = none;
  truck_group_id = none;
  unit_year = none;
  color = none;
  tracker_id = none;
  current_driver_id = none;
  current_driver_user_id = none;
  status = [];
  is_available = true;
  odometer_km = none;
  hourmeter_hours = none;
  fuel_tank_liters = none;
  fuel_ratio_kmpl = none;
  notes = none;
  attributes = none;
}

-- `{"$set": {"currentDriverId": nil, "currentDriverUserId": nil, "updatedAt": now}}`.
abbrev pub unpair : ℕ → Vehicle → Vehicle
unpair now v = record v {
  current_driver_id = none;
  current_driver_user_id = none;
  updated_at = now;
}

abbrev pub paired_elsewhere : Text → Text → ℕ → Vehicle → Bool
paired_elsewhere company_id driver_id except v =
    v.company_id == company_id && refers v.current_driver_id driver_id && not (v.id == except)

module _ (m : Mongo) where
  -- `checkGroup`.
  pub is_group : Text → ℕ → VehicleGroup → Bool
  is_group company_id o g = g.id == o && g.company_id == company_id && not g.deleted

  group_known : Text → Option ℕ → Exec (Unit {0})
  unfolding is_group
  group_known company_id none = fail validation
  group_known company_id (some o) = do
    n ← λ db. counted (m.count_documents (is_group company_id o) db.groups) db
    refuse_if (n == 0) validation

  pub check_group : Text → Option Text → Exec (Unit {0})
  unfolding group_known
  check_group company_id none = pure tt
  check_group company_id (some group_id) =
      if group_id == [] then pure tt else group_known company_id (m.from_hex group_id)

  pub unpaired : List Vehicle → Option (ℕ × List Vehicle) → Exec (List Text)
  unpaired found none db = (err failure, db)
  unpaired found (some (n, rows)) db =
      (ok (map (λ w. m.hex w.id) found), record db { vehicles = rows })

  -- The write of `unpairDriverElsewhere`, where it has found some rows.
  pub unpair_rows : ℕ → (Vehicle → Bool) → List Vehicle → Exec (List Text)
  unfolding unpaired
  unpair_rows now p [] db = (ok [], db)
  unpair_rows now p (v ∷ vs) db = unpaired (v ∷ vs) (m.update_many p (unpair now) db.vehicles) db

  pub unpair_driver_elsewhere : ℕ → Text → Text → ℕ → Exec (List Text)
  unfolding unpair_rows
  unpair_driver_elsewhere now company_id driver_id except db =
      let p = paired_elsewhere company_id driver_id except in
      and_then (counted (m.find p db.vehicles) db) (unpair_rows now p)

  pub announce_others : Text → List Text → Exec (Unit {0})
  unfolding announce
  announce_others company_id [] = pure tt
  announce_others company_id (id ∷ ids) =
      announce (codes "vehicle") company_id id (codes "update") >> announce_others company_id ids

  -- `setDriver` on an active driver.
  pub pair_driver : ℕ → Text → Vehicle → Driver → Exec Vehicle
  pair_driver now company_id v d = if refers v.current_driver_id (m.hex d.id) then pure v else (do
    others ← unpair_driver_elsewhere now company_id (m.hex d.id) v.id
    announce_others company_id others
    pure (record v { current_driver_id = some (m.hex d.id); current_driver_user_id = d.user_id }))

  -- `setDriver`, which returns the vehicle that it changes.
  pub set_driver : ℕ → Text → Vehicle → Option Text → Exec Vehicle
  unfolding pair_driver
  set_driver now company_id v none = pure v
  set_driver now company_id v (some driver_id) =
      if trim_space driver_id == []
      then pure (record v { current_driver_id = none; current_driver_user_id = none })
      else (do
        d ← λ db. instead validation (get_driver m company_id driver_id db)
        refuse_if (not (d.status == active)) validation
        pair_driver now company_id v d)

  pub write_new : ℕ → ℕ → Text → Vehicle → Exec Vehicle
  write_new now new_id company_id v = do
    w ← λ db.
        let (r, rows) =
          Repository.create m Repository.vehicles now (record v { id = new_id }) db.vehicles in
        on_vehicles (dup r, rows) db
    announce (codes "vehicle") company_id (m.hex new_id) (codes "create")
    find_vehicle m company_id (m.hex new_id)

  pub create_vehicle : ℕ → ℕ → Text → VehicleInput → Exec Vehicle
  unfolding write_new
  create_vehicle now new_id company_id input = do
    v ← lift (apply_vehicle input (new_vehicle company_id))
    check_group company_id v.truck_group_id
    w ← set_driver now company_id v input.current_driver_id
    write_new now new_id company_id w

  pub write_back : ℕ → Text → Text → Vehicle → Exec Vehicle
  write_back now company_id id v = do
    w ← λ db.
        let (r, rows) = Repository.update m Repository.vehicles now v.id v db.vehicles in
        on_vehicles (dup r, rows) db
    announce (codes "vehicle") company_id id (codes "update")
    find_vehicle m company_id id

  pub update_vehicle : ℕ → Text → Text → VehicleInput → Exec Vehicle
  unfolding write_back
  update_vehicle now company_id id input = do
    old ← find_vehicle m company_id id
    v ← lift (apply_vehicle input old)
    check_group company_id v.truck_group_id
    w ← set_driver now company_id v input.current_driver_id
    write_back now company_id id w

  -- The memberships of a deleted vehicle; the notice goes out also when this fails.
  drop_members : Text → Text → Exec (Unit {0})
  unfolding announce
  drop_members company_id id db =
      let notice : Exec (Unit {0}) = announce (codes "vehicle") company_id id (codes "delete") in
      elim (m.delete_many
        (λ (b : VehicleGroupMember). b.company_id == company_id && b.vehicle_id == id) db.members) [
          | none ↦ and_then (notice db) (λ _. fail failure)
          | some rows ↦ notice (record db { members = rows })
        ]

  pub delete_vehicle : ℕ → Text → Text → Exec (Unit {0})
  unfolding drop_members
  delete_vehicle now company_id id = do
    v ← find_vehicle m company_id id
    fitted ← λ db.
        counted
          (m.count_documents (λ (a : TrackerAssignment). a.vehicle_id == id && is_open a)
            db.assignments)
          db
    refuse_if (ltb 0 fitted || elim v.tracker_id [ none ↦ false | some t ↦ true ]) conflict
    λ db.
        on_vehicles (Repository.soft_delete m Repository.vehicles now company_id v.id db.vehicles)
          db
    drop_members company_id id
