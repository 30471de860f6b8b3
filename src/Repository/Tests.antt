-- ===== src/Repository/Tests.antt =====
-- The store for vehicles in memory: the witnesses of its theorems.
use master_data.Shared.{
  ◌≤◌, ◌≡◌, refl, ◌≢◌, true, false, none, some, [], ◌∷◌, arith, ◌==◌, nat_eq, text_eq, tally, Text,
  codes, text_beq, ok,
}
use master_data.Models.{unit_rigid, active, Vehicle}
use master_data.Mongo.{IsIn}
use master_data.Repository
use master_data.Mongo.Memory.{in_memory}
use master_data.Repository.{find_by_id, soft_delete}
use master_data.Repository.Tenancy.{Visible, Deletable, find_by_id-Visible, soft_delete_hides}

abbrev acme : Text
acme = codes "acme"

abbrev truck : Vehicle
truck = record {
  id = 7;
  created_at = 1;
  updated_at = 1;
  deleted = false;
  company_id = acme;
  license_plate = codes "B 1";
  plate_normalised = codes "B1";
  chassis_number = none;
  chassis_normalised = none;
  engine_number = none;
  unit_type = unit_rigid;
  truck_head_id = none;
  truck_body_id = none;
  brand_id = none;
  truck_group_id = none;
  unit_year = none;
  color = none;
  tracker_id = none;
  current_driver_id = none;
  current_driver_user_id = none;
  status = active;
  is_available = true;
  odometer_km = none;
  hourmeter_hours = none;
  fuel_tank_liters = none;
  fuel_ratio_kmpl = none;
  notes = none;
  attributes = some [];
}

truck_found : find_by_id in_memory Repository.vehicles acme 7 (truck ∷ []) ≡ ok truck
unfolding find_by_id text_beq
truck_found = refl

find_by_id-Visible_example :
    IsIn truck (truck ∷ []) × (truck.id ≡ 7) × Visible Repository.vehicles acme truck
find_by_id-Visible_example =
    find_by_id-Visible in_memory Repository.vehicles acme 7 (truck ∷ []) truck truck_found

vehicles-Deletable : Deletable Repository.vehicles
vehicles-Deletable = record { is_deleted-mark_deleted = λ now v. refl }

abbrev retired : Vehicle
retired = record truck { deleted = true; updated_at = 50 }

truck_deleted :
    soft_delete in_memory Repository.vehicles 50 acme 7 (truck ∷ []) ≡ (ok tt, retired ∷ [])
unfolding soft_delete text_beq
truck_deleted = refl

truck_ids : tally (λ (v : Vehicle). v.id == 7) (truck ∷ []) ≤ 1
truck_ids = omega arith

soft_delete_hides_example :
    find_by_id in_memory Repository.vehicles [] 7 (retired ∷ []) ≢ ok retired
soft_delete_hides_example =
    soft_delete_hides in_memory Repository.vehicles vehicles-Deletable 50 acme [] 7 (truck ∷ [])
      (retired ∷ []) retired truck_ids truck_deleted
