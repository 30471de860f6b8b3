-- ===== src/Registry/Drivers.antt =====
-- Drivers in internal/services/registry.go: creating, updating and retiring.
use master_data.Shared.{
  refers, ℕ, false, not, ◌&&◌, Option, none, some, List, [], ◌==◌, nat_eq, text_eq, Text, codes,
  Result,
}
use master_data.Errors.{Error, failure}
use master_data.Models.{Vehicle, Driver}
use master_data.Mongo.{Mongo}
use master_data.Repository
use master_data.Registry.{Exec, and_then, ◌>>=◌, ◌>>◌, pure, fail, announce, found, oid, get_driver}
use master_data.Registry.Inputs.{DriverInput, apply_driver}
use master_data.Registry.Vehicles.{dup, lift, unpair}

-- A write of the store for drivers.
abbrev pub on_drivers : {A : Type 0} → Result Error A × List Driver → Exec A
on_drivers (r, rows) db = (r, record db { drivers = rows })

-- `models.Driver{CompanyID: companyID}`.
abbrev pub new_driver : Text → Driver
new_driver company_id = record {
  id = 0;
  created_at = 0;
  updated_at = 0;
  deleted = false;
  company_id = company_id;
  full_name = [];
  name_normalised = [];
  phone = none;
  phone_normalised = none;
  employee_no = none;
  license_no = none;
  license_class = none;
  license_expiry = none;
  status = [];
  user_id = none;
  notes = none;
  attributes = none;
}

module _ (m : Mongo) (parse_date : Text → Option ℕ) where
  pub create_driver : ℕ → ℕ → Text → DriverInput → Exec Driver
  create_driver now new_id company_id input = do
    d ← lift (apply_driver parse_date input (new_driver company_id))
    w ← λ db.
        let (r, rows) =
          Repository.create m Repository.drivers now (record d { id = new_id }) db.drivers in
        on_drivers (dup r, rows) db
    announce (codes "driver") company_id (m.hex new_id) (codes "create")
    pure w

  pub update_driver : ℕ → Text → Text → DriverInput → Exec Driver
  update_driver now company_id id input = do
    old ← get_driver m company_id id
    d ← lift (apply_driver parse_date input old)
    w ← λ db.
        let (r, rows) = Repository.update m Repository.drivers now d.id d db.drivers in
        on_drivers (dup r, rows) db
    announce (codes "driver") company_id id (codes "update")
    pure w

module _ (m : Mongo) where
  -- `GetDriverByID`: no company clause.
  pub get_driver_by_id : Text → Exec Driver
  get_driver_by_id id = do
    o ← oid m id
    λ db. found (m.find_one (λ (d : Driver). d.id == o && not d.deleted) db.drivers) db

  -- The last lines of `DeleteDriver`: the notice goes out also when the release fails.
  release : ℕ → Text → Text → Exec (Unit {0})
  unfolding announce
  release now company_id id db =
      let notice : Exec (Unit {0}) = announce (codes "driver") company_id id (codes "delete") in
      elim (m.update_many
        (λ (v : Vehicle). v.company_id == company_id && refers v.current_driver_id id) (unpair now)
        db.vehicles) [
          | none ↦ and_then (notice db) (λ _. fail failure)
          | some (n, rows) ↦ notice (record db { vehicles = rows })
        ]

  pub delete_driver : ℕ → Text → Text → Exec (Unit {0})
  unfolding release
  delete_driver now company_id id = do
    d ← get_driver m company_id id
    λ db. on_drivers (Repository.soft_delete m Repository.drivers now company_id d.id db.drivers) db
    release now company_id id
