-- ===== src/Registry/Inputs/Patches.antt =====
-- What applying an input leaves alone.
use master_data.Shared.{◌≡◌, sym, ap, Text, Result, ok, err}
use master_data.Errors.{Error}
use master_data.Models.{Vehicle}
use master_data.Registry.Inputs.{VehicleInput, apply_vehicle, apply_unit, choose_unit, set_texts}

-- An update keeps what the pairing is about.
pub record Same (v w : Vehicle) : Type 0 where
  pub same_id : w.id ≡ v.id
  pub same_company : w.company_id ≡ v.company_id
  pub same_driver : w.current_driver_id ≡ v.current_driver_id

apply_unit-Same :
    (input : VehicleInput) (v w : Vehicle) (r : Result Error Text)
    → apply_unit input v r ≡ ok w
    → Same v w
unfolding apply_unit
apply_unit-Same input v w (err e) h = cc
apply_unit-Same input v w (ok ut) h = record {
  same_id = ap (λ r. elim r [ ok x ↦ x.id | err e ↦ v.id ]) (sym h);
  same_company = ap (λ r. elim r [ ok x ↦ x.company_id | err e ↦ v.company_id ]) (sym h);
  same_driver =
      ap (λ r. elim r [ ok x ↦ x.current_driver_id | err e ↦ v.current_driver_id ]) (sym h);
}

pub apply_vehicle-Same :
    (input : VehicleInput) (v w : Vehicle) → apply_vehicle input v ≡ ok w → Same v w
unfolding apply_vehicle set_texts
apply_vehicle-Same input v w h =
    let s =
      apply_unit-Same input (set_texts input v) w (choose_unit v.unit_type input.unit_type) h in
    record { same_id = s.same_id; same_company = s.same_company; same_driver = s.same_driver }
