-- ===== src/Registry/Fitting/Tests.antt =====
-- A small fleet in memory: runs of registry.go and the witnesses of its theorems.
use master_data.Shared.{
  ℕ, subst, alter, if◌then◌else◌, ◌==◌, ◌++◌, nat_eq, text_eq, tally, refers, ap,
}
use master_data.Registry.Lookups.{Spells}
use master_data.Registry.{is_tracker}
use master_data.Shared.{
  ◌≤◌, refers, ◌≡◌, refl, ap, ◌≢◌, inl, inr, true, false, none, some, [], ◌∷◌, arith, ◌==◌, nat_eq,
  text_eq, tally, All, Text, codes, text_beq, is_space, trim_space, ok,
}
use master_data.Models.{
  tracker_gps, active, Vehicle, Driver, Tracker, TrackerAssignment, assignment_before_write,
}
use master_data.Mongo.{IsIn, no_session, commits}
use master_data.Normalise.{is_digit, imei}
use master_data.Registry.{Db, announce, oid, find_tracker, find_vehicle}
use master_data.Mongo.Memory.{in_memory}
use master_data.Models.{tracker_before_write}
use master_data.Registry.DeviceInputs.{TrackerInput, apply_tracker, normalise_device}
use master_data.Registry.DeviceInputs.Identity.{Canonical, apply_tracker_identity}
use master_data.Registry.Devices.{delete_tracker}
use master_data.Registry.Devices.Deleting.{delete_tracker-Fitted}
use master_data.Registry.Fitting.{
  FitInput, at_or, fit, unfit, unfit_run, close, fitted_vehicle, announce_unfit, announce_vehicle,
  is_open, open_for, new_assignment, fit_device, fit_onto, kind_ids, fit_write, transact, settle,
  fit_run, close_where, set_assignments, insert_assignment, add_assignment, move_link, unlink_where,
  link_vehicle, set_vehicles, announce_fit,
}
use master_data.Registry.Fitting.Invariant.{Fitted, open_on}
use master_data.Registry.Fitting.Preservation.{fit-Fitted}
use master_data.Registry.Fitting.Removal.{released, unfit_removes}
use master_data.Registry.Fitting.Effects.{fit_agrees, fit_links, OnOwnVehicle}
use master_data.Registry.Fitting.Writes.{OneEach}
use master_data.Registry.Inputs.{VehicleInput}
use master_data.Registry.Vehicles.{new_vehicle, update_vehicle}
use master_data.Registry.Vehicles.Pairing.{OnePerDriver}
use master_data.Registry.Vehicles.Pairing.Updating.{update_vehicle-OnePerDriver}
use master_data.Registry.Vehicles.{create_vehicle}
use master_data.Registry.Vehicles.Pairing.Creating.{create_vehicle-OnePerDriver}
use master_data.Registry.Drivers.{new_driver}
use master_data.Registry.Devices.{new_tracker}

abbrev acme : Text
acme = codes "acme"

abbrev gps : Tracker
gps = record (new_tracker acme false) {
  id = 5;
  kind = tracker_gps;
  device_id = codes "356307042441013";
  imei = codes "356307042441013";
  status = active;
}

abbrev truck : Vehicle
truck = record (new_vehicle acme) {
  id = 7;
  license_plate = codes "B 1";
  plate_normalised = codes "B1";
}

abbrev dedi : Driver
dedi = record (new_driver acme) { id = 3; full_name = codes "Dedi"; status = active }

abbrev fleet : Db
fleet = record {
  drivers = dedi ∷ [];
  vehicles = truck ∷ [];
  trackers = gps ∷ [];
  assignments = [];
  members = [];
  documents = [];
  models = [];
  groups = [];
  notices = [];
}

abbrev order : FitInput
order = record {
  vehicle_id = in_memory.hex 7;
  fitted_at = none;
  install_photo_key = none;
  installed_by_user_id = none;
  install_notes = none;
}

fleet-Fitted : Fitted in_memory fleet
fleet-Fitted = record {
  one_per_tracker = λ tid. omega arith;
  one_per_vehicle = λ vid kind. omega arith;
  backed = λ a i. elim i [ ];
  kinded = λ t i. kind_known t i;
}
  where
    kind_known : (t : Tracker) → IsIn t (gps ∷ []) → t.kind ≢ []
    kind_known t (inl e) q = ground (arith, ap (λ (x : Tracker). x.kind) e)
    kind_known t (inr i) q = elim i [ ]

fit-Fitted_example :
    Fitted in_memory (fit in_memory commits 100 9 acme (in_memory.hex 5) order fleet).1
fit-Fitted_example =
    fit-Fitted in_memory commits 100 9 acme (in_memory.hex 5) order fleet fleet-Fitted

abbrev row : TrackerAssignment
row = record {
  id = 9;
  company_id = acme;
  tracker_id = some (in_memory.hex 5);
  vehicle_id = in_memory.hex 7;
  kind = tracker_gps;
  device_id = codes "356307042441013";
  imei = codes "356307042441013";
  fitted_at = 100;
  unfitted_at = none;
  install_photo_key = none;
  installed_by_user_id = none;
  install_notes = none;
  created_at = 100;
}

abbrev after : Db
after = record fleet {
  vehicles = record truck { tracker_id = some (in_memory.hex 5); updated_at = 100 } ∷ [];
  assignments = row ∷ [];
  notices =
      record { kind = codes "tracker"; company_id = acme; id = in_memory.hex 5; op = codes "fit" }
      ∷ record {
        kind = codes "vehicle";
        company_id = acme;
        id = in_memory.hex 7;
        op = codes "update";
      }
      ∷ [];
}

fit_run_of_fleet : fit in_memory commits 100 9 acme (in_memory.hex 5) order fleet ≡ (ok row, after)
unfolding fit find_tracker fit_device find_vehicle fit_onto kind_ids fit_write transact settle
    fit_run close_where set_assignments insert_assignment add_assignment move_link unlink_where
    link_vehicle set_vehicles new_assignment announce_fit announce oid assignment_before_write
    text_beq trim_space is_space imei is_digit
fit_run_of_fleet = refl

fit_agrees_example :
    IsIn row after.assignments
    × (is_open row ≡ true)
    × (row.fitted_at ≡ at_or 100 none)
    × OnOwnVehicle in_memory acme fleet.vehicles row
    × ((tid : Text) × (row.tracker_id ≡ some tid) × (tally (open_for tid) after.assignments ≡ 1))
    × (tally (open_on row.vehicle_id row.kind) after.assignments ≡ 1)
fit_agrees_example =
    fit_agrees in_memory commits 100 9 acme (in_memory.hex 5) order row fleet after fleet-Fitted
      fit_run_of_fleet

after-Fitted : Fitted in_memory after
after-Fitted =
    subst (Fitted in_memory) (ap (λ r. r.1) fit_run_of_fleet)
      (fit-Fitted in_memory commits 100 9 acme (in_memory.hex 5) order fleet fleet-Fitted)

abbrev removed : Db
removed = record after {
  vehicles = record truck { updated_at = 200 } ∷ [];
  assignments = record row { unfitted_at = some 200 } ∷ [];
  notices =
      after.notices
      ++ record {
        kind = codes "tracker";
        company_id = acme;
        id = in_memory.hex 5;
        op = codes "unfit";
      }
        ∷ record {
          kind = codes "vehicle";
          company_id = acme;
          id = in_memory.hex 7;
          op = codes "update";
        }
        ∷ [];
}

unfit_run_of_fleet :
    unfit in_memory no_session 200 acme (in_memory.hex 5) none after ≡ (ok tt, removed)
unfolding unfit unfit_run find_tracker transact settle close_where set_assignments unlink_where
    set_vehicles fitted_vehicle announce_unfit announce_vehicle announce oid text_beq trim_space
    is_space
unfit_run_of_fleet = refl

unfit_removes_example :
    (t : Tracker) × IsIn t after.trackers
    × ((o : ℕ) × Spells in_memory (in_memory.hex 5) o × (is_tracker in_memory acme o t ≡ true))
    × (tally (open_for (in_memory.hex t.id)) after.assignments ≡ 1)
    × (tally (open_for (in_memory.hex t.id)) removed.assignments ≡ 0)
    × (removed.assignments
        ≡ alter (open_for (in_memory.hex t.id)) (close (at_or 200 none)) after.assignments)
    × (removed.vehicles ≡ (
        if t.kind == tracker_gps
        then released (in_memory.hex t.id) (at_or 200 none) after.vehicles
        else after.vehicles))
    × ((if t.kind == tracker_gps
          then tally (λ v. refers v.tracker_id (in_memory.hex t.id)) removed.vehicles
          else 0)
        ≡ 0)
unfit_removes_example =
    unfit_removes in_memory no_session 200 acme (in_memory.hex 5) none after removed after-Fitted
      unfit_run_of_fleet

fleet-OneEach : OneEach fleet.vehicles
fleet-OneEach o = ground arith

fit_links_example :
    (tid : Text) × (row.tracker_id ≡ some tid)
    × All
        (λ (w : Vehicle). refers w.tracker_id tid ≡ (in_memory.hex w.id == row.vehicle_id))
        after.vehicles
fit_links_example =
    fit_links in_memory commits 100 9 acme (in_memory.hex 5) order row fleet after fleet-Fitted
      fit_run_of_fleet fleet-OneEach refl

fleet-OnePerDriver : OnePerDriver fleet.vehicles
fleet-OnePerDriver = record { one_each = λ o. ground arith; one_driven = λ c h. ground arith }

abbrev pairing : VehicleInput
pairing = record {
  license_plate = none;
  chassis_number = none;
  engine_number = none;
  unit_type = none;
  truck_head_id = none;
  truck_body_id = none;
  brand_id = none;
  truck_group_id = none;
  unit_year = none;
  color = none;
  status = none;
  is_available = none;
  odometer_km = none;
  hourmeter_hours = none;
  fuel_tank_liters = none;
  fuel_ratio_kmpl = none;
  current_driver_id = some (in_memory.hex 3);
  notes = none;
  attributes = none;
}

update_vehicle-OnePerDriver_example :
    OnePerDriver ((update_vehicle in_memory 100 acme (in_memory.hex 7) pairing fleet).1).vehicles
update_vehicle-OnePerDriver_example =
    update_vehicle-OnePerDriver in_memory 100 acme (in_memory.hex 7) pairing fleet
      fleet-OnePerDriver

fleet-ids : tally (λ (t : Tracker). t.id == 5) fleet.trackers ≤ 1
fleet-ids = omega arith

delete_tracker-Fitted_example :
    Fitted in_memory (delete_tracker in_memory 100 acme (in_memory.hex 5) fleet).1
delete_tracker-Fitted_example =
    delete_tracker-Fitted in_memory 100 5 acme fleet fleet-Fitted fleet-ids

abbrev renamed : TrackerInput
renamed = record {
  kind = none;
  device_id = some (codes "356307-042441013");
  imei = none;
  iccid = none;
  sim_provider = none;
  phone_no = none;
  model_id = none;
  company_id = none;
  owner = none;
  owner_name = none;
  status = none;
  attributes = none;
}

abbrev renamed_gps : Tracker
renamed_gps = record gps { device_id = codes "356307-042441013" }

renamed_run : apply_tracker renamed false gps ≡ ok renamed_gps
unfolding apply_tracker trim_space is_space text_beq imei is_digit
renamed_run = refl

gps-Canonical : Canonical gps
unfolding normalise_device imei is_digit text_beq
gps-Canonical = (λ e. ground arith, λ e. ground arith, refl)

apply_tracker_identity_example :
    ((tracker_before_write renamed_gps).kind ≡ gps.kind)
    × ((tracker_before_write renamed_gps).device_id ≡ gps.device_id)
apply_tracker_identity_example =
    apply_tracker_identity renamed gps renamed_gps gps-Canonical renamed_run

abbrev order_of_new : VehicleInput
order_of_new = record pairing { license_plate = some (codes "b 99 x") }

create_vehicle-OnePerDriver_example :
    OnePerDriver ((create_vehicle in_memory 100 11 acme order_of_new fleet).1).vehicles
create_vehicle-OnePerDriver_example =
    create_vehicle-OnePerDriver in_memory 100 11 acme order_of_new fleet fleet-OnePerDriver refl
      refl
