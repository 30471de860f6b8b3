-- ===== src/Registry/Inputs.antt =====
-- The inputs of internal/services/registry.go and what they set: a field that was not sent is kept,
-- one sent as blanks is cleared. `parse_date` stands for `time.Parse("2006-01-02", v)`. The unit year
-- is only compared with 0.
pub mod Patches
use master_data.Shared.{
  ℕ, Bool, ◌||◌, Option, none, some, List, [], ◌∷◌, if◌then◌else◌, ◌==◌, nat_eq, text_eq, Text,
  to_lower, trim_space, Result, ok, err, insert,
}
use master_data.Errors.{Error, validation}
use master_data.Models.{unit_rigid, unit_head, unit_body, Attributes, Vehicle, Driver}
use master_data.Mongo.{Mongo}
use master_data.Mongo
use master_data.Repository

-- `str`.
unfoldable pub str : Option Text → Option Text → Option Text
str dst none = dst
str dst (some src) = if trim_space src == [] then none else some (trim_space src)

or_keep : {A : Type 0} → A → Option A → A
or_keep dst none = dst
or_keep dst (some src) = src

unfoldable pub lowered : Text → Option Text → Text
lowered dst none = dst
lowered dst (some src) = to_lower (trim_space src)

num : {A : Type 0} → Option A → Option A → Option A
num dst none = dst
num dst (some src) = some src

insert_all : List (Text × Text) → List (Text × Text) → List (Text × Text)
insert_all [] m = m
insert_all ((k, v) ∷ src) m = insert_all src (insert k v m)

-- The last lines of each `apply`.
unfoldable pub merge : Attributes → Attributes → Attributes
unfolding insert_all
merge dst none = dst
merge none (some src) = some (insert_all src [])
merge (some m) (some src) = some (insert_all src m)

-- `date`, and the branch of `DriverInput.apply` that does the same.
unfoldable pub date : (Text → Option ℕ) → Option ℕ → Option Text → Result Error (Option ℕ)
date parse_date dst none = ok dst
date parse_date dst (some src) =
    if trim_space src == []
    then ok none
    else elim (parse_date (trim_space src)) [ none ↦ err validation | some t ↦ ok (some t) ]

pub record DriverInput : Type 0 where
  pub full_name : Option Text
  pub phone : Option Text
  pub employee_no : Option Text
  pub license_no : Option Text
  pub license_class : Option Text
  pub license_expiry : Option Text
  pub status : Option Text
  pub user_id : Option Text
  pub notes : Option Text
  pub attributes : Attributes

apply_expiry : DriverInput → Driver → Result Error (Option ℕ) → Result Error Driver
unfolding merge
apply_expiry input d (err e) = err e
apply_expiry input d (ok t) =
    ok (record d { license_expiry = t; attributes = merge d.attributes input.attributes })

unfoldable pub apply_driver : (Text → Option ℕ) → DriverInput → Driver → Result Error Driver
unfolding str date or_keep lowered apply_expiry
apply_driver parse_date input d =
    let d' : Driver = record d {
      full_name = or_keep d.full_name input.full_name;
      phone = str d.phone input.phone;
      employee_no = str d.employee_no input.employee_no;
      license_no = str d.license_no input.license_no;
      license_class = str d.license_class input.license_class;
      user_id = str d.user_id input.user_id;
      notes = str d.notes input.notes;
      status = lowered d.status input.status;
    } in
    apply_expiry input d' (date parse_date d.license_expiry input.license_expiry)

pub record VehicleInput : Type 0 where
  pub license_plate : Option Text
  pub chassis_number : Option Text
  pub engine_number : Option Text
  pub unit_type : Option Text
  pub truck_head_id : Option Text
  pub truck_body_id : Option Text
  pub brand_id : Option Text
  pub truck_group_id : Option Text
  pub unit_year : Option ℕ
  pub color : Option Text
  pub status : Option Text
  pub is_available : Option Bool
  pub odometer_km : Option Text
  pub hourmeter_hours : Option Text
  pub fuel_tank_liters : Option Text
  pub fuel_ratio_kmpl : Option Text
  pub current_driver_id : Option Text
  pub notes : Option Text
  pub attributes : Attributes

plate_or_keep : Text → Option Text → Text
plate_or_keep dst none = dst
plate_or_keep dst (some src) = trim_space src

pub choose_unit : Text → Option Text → Result Error Text
choose_unit dst none = ok dst
choose_unit dst (some src) =
    let ut = to_lower (trim_space src) in
    if ut == unit_rigid || ut == unit_head || ut == unit_body then ok ut else err validation

choose_year : Option ℕ → Option ℕ → Option ℕ
choose_year dst none = dst
choose_year dst (some y) = if y == 0 then none else some y

pub apply_unit : VehicleInput → Vehicle → Result Error Text → Result Error Vehicle
unfolding choose_year lowered or_keep num merge
apply_unit input v (err e) = err e
apply_unit input v (ok ut) = ok (record v {
  unit_type = ut;
  unit_year = choose_year v.unit_year input.unit_year;
  status = lowered v.status input.status;
  is_available = or_keep v.is_available input.is_available;
  odometer_km = num v.odometer_km input.odometer_km;
  hourmeter_hours = num v.hourmeter_hours input.hourmeter_hours;
  fuel_tank_liters = num v.fuel_tank_liters input.fuel_tank_liters;
  fuel_ratio_kmpl = num v.fuel_ratio_kmpl input.fuel_ratio_kmpl;
  attributes = merge v.attributes input.attributes;
})

-- The fields before the unit type.
pub set_texts : VehicleInput → Vehicle → Vehicle
unfolding plate_or_keep str
set_texts input v = record v {
  license_plate = plate_or_keep v.license_plate input.license_plate;
  chassis_number = str v.chassis_number input.chassis_number;
  engine_number = str v.engine_number input.engine_number;
  truck_head_id = str v.truck_head_id input.truck_head_id;
  truck_body_id = str v.truck_body_id input.truck_body_id;
  brand_id = str v.brand_id input.brand_id;
  truck_group_id = str v.truck_group_id input.truck_group_id;
  color = str v.color input.color;
  notes = str v.notes input.notes;
}

unfoldable pub apply_vehicle : VehicleInput → Vehicle → Result Error Vehicle
unfolding set_texts choose_unit apply_unit
apply_vehicle input v =
    apply_unit input (set_texts input v) (choose_unit v.unit_type input.unit_type)
