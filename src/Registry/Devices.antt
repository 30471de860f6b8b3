-- ===== src/Registry/Devices.antt =====
-- Devices in internal/services/registry.go: creating, updating and retiring. The view that
-- `GetTracker` adds to a result is left out.
pub mod Deleting
use master_data.Shared.{
  ℕ, Bool, true, false, not, ◌&&◌, ◌||◌, Option, none, some, List, [], ltb, if◌then◌else◌, ◌==◌,
  nat_eq, text_eq, length, Text, codes, trim_space, Result, err,
}
use master_data.Errors.{Error, validation, conflict}
use master_data.Models.{tracker_gps, owner_karlo, owner_customer, TrackerModel, Tracker}
use master_data.Mongo.{Mongo}
use master_data.Mongo
use master_data.Repository
use master_data.Normalise.{imei, iccid}
use master_data.Registry.{Exec, ◌>>=◌, ◌>>◌, pure, fail, refuse_if, announce, counted, find_tracker}
use master_data.Registry.DeviceInputs.{TrackerInput, apply_tracker, normalise_device}
use master_data.Registry.Vehicles.{dup, lift}
use master_data.Registry.Fitting.{open_for}

-- A write of the store for devices.
abbrev pub on_trackers : {A : Type 0} → Result Error A × List Tracker → Exec A
on_trackers (r, rows) db = (r, record db { trackers = rows })

-- The device of `CreateTracker` before the input is applied.
abbrev pub new_tracker : Text → Bool → Tracker
new_tracker company_id staff = record {
  id = 0;
  created_at = 0;
  updated_at = 0;
  deleted = false;
  company_id = if company_id == [] then none else some company_id;
  owner = if staff then owner_karlo else owner_customer;
  owner_name = none;
  kind = [];
  device_id = [];
  imei = [];
  iccid = none;
  sim_provider = none;
  phone_no = none;
  model_id = none;
  status = [];
  attributes = none;
}

unfoldable pub default_kind : Tracker → Tracker
default_kind t = if t.kind == [] then record t { kind = tracker_gps } else t

-- Both guards of `CreateTracker` on the device id.
unfoldable pub bad_device : Tracker → Bool
bad_device t =
    normalise_device t.kind t.device_id == []
    || t.kind == tracker_gps && not (length (imei t.device_id) == 15)

-- What platform staff set of the owning company.
unfoldable pub re_own : Option Text → Tracker → Tracker
re_own none t = t
re_own (some src) t = record t {
  company_id = if trim_space src == [] then none else some (trim_space src);
}

announced_company : Bool → Text → Option Text → Tracker → Text
announced_company true company_id (some src) t = elim t.company_id [
  | none ↦ company_id
  | some c ↦ c
]
announced_company staff company_id src t = company_id

module _ (m : Mongo) where
  fits_model : Text → Option (Option TrackerModel) → Exec (Unit {0})
  fits_model kind none = fail validation
  fits_model kind (some none) = fail validation
  fits_model kind (some (some model)) =
      refuse_if (not (model.kind == []) && not (model.kind == kind)) validation

  -- `checkModel`.
  model_known : Text → Option ℕ → Exec (Unit {0})
  unfolding fits_model
  model_known kind none db = (err validation, db)
  model_known kind (some o) db =
      fits_model kind
        (m.find_one (λ (model : TrackerModel). model.id == o && not model.deleted) db.models) db

  pub check_model : Tracker → Exec (Unit {0})
  unfolding model_known
  check_model t = elim t.model_id [
    | none ↦ pure tt
    | some model_id ↦ model_known t.kind (m.from_hex model_id)
  ]

  pub create_tracker : ℕ → ℕ → Text → Bool → TrackerInput → Exec Tracker
  create_tracker now new_id company_id staff input = do
    applied ← lift (apply_tracker input true (new_tracker company_id staff))
    let t = default_kind applied
    refuse_if (bad_device t) validation
    check_model t
    w ← λ db.
        let (r, rows) =
          Repository.create m Repository.trackers now (record t { id = new_id }) db.trackers in
        on_trackers (dup r, rows) db
    announce (codes "tracker") company_id (m.hex new_id) (codes "create")
    find_tracker m company_id (m.hex new_id)

  write_tracker : ℕ → Text → Text → Text → Tracker → Exec Tracker
  write_tracker now company_id announced id t = do
    w ← λ db.
        let (r, rows) = Repository.update m Repository.trackers now t.id t db.trackers in
        on_trackers (dup r, rows) db
    announce (codes "tracker") announced id (codes "update")
    find_tracker m company_id id

  -- For staff `companyID` is empty before the company of the device takes its place.
  pub update_tracker : ℕ → Text → Text → TrackerInput → Bool → Exec Tracker
  unfolding announced_company write_tracker
  update_tracker now company_id id input staff = do
    old ← find_tracker m company_id id
    applied ← lift (apply_tracker input false old)
    let t = if staff then re_own input.company_id applied else applied
    check_model t
    write_tracker now (if staff then [] else company_id)
        (announced_company staff company_id input.company_id t) id t

  pub delete_tracker : ℕ → Text → Text → Exec (Unit {0})
  unfolding announce
  delete_tracker now company_id id = do
    t ← find_tracker m company_id id
    fitted ← λ db. counted (m.count_documents (open_for id) db.assignments) db
    refuse_if (ltb 0 fitted) conflict
    λ db. on_trackers (Repository.soft_delete m Repository.trackers now [] t.id db.trackers) db
    announce (codes "tracker") company_id id (codes "delete")
