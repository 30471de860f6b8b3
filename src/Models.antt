-- ===== src/Models.antt =====
-- internal/models/models.go and errors.go: the documents, with what `BeforeWrite`, `Validate` and
-- `Stamp` do to them. An object id is a number, a time a number of nanoseconds since the zero
-- time, a pointer an `Option`. Values that are only copied (floats, attribute values) are texts.
-- The embedded `Base` stands flat in each record.
use master_data.Shared.{
  ℕ, ◌-◌, ◌%◌, Bool, true, not, ◌&&◌, ◌||◌, Option, none, some, List, [], if◌then◌else◌, ◌==◌,
  nat_eq, text_eq, Text, codes, to_upper, trim_space,
}
use master_data.Errors.{Error, plate_required, driver_name_required, driver_status}
use master_data.Normalise.{imei, iccid, name, optional, plate, serial}

abbrev pub tracker_gps : Text
tracker_gps = codes "gps"

abbrev pub tracker_dashcam : Text
tracker_dashcam = codes "dashcam"

abbrev pub owner_karlo : Text
owner_karlo = codes "karlo"

abbrev pub owner_customer : Text
owner_customer = codes "customer"

abbrev pub owner_vendor : Text
owner_vendor = codes "vendor"

abbrev pub unit_rigid : Text
unit_rigid = codes "rigid"

abbrev pub unit_head : Text
unit_head = codes "head"

abbrev pub unit_body : Text
unit_body = codes "body"

abbrev pub active : Text
active = codes "active"

abbrev pub inactive : Text
inactive = codes "inactive"

-- `map[string]interface{}`; `none` is the nil map.
abbrev pub Attributes : Type 0
Attributes = Option (List (Text × Text))

pub record Vehicle : Type 0 where
  pub id : ℕ
  pub created_at : ℕ
  pub updated_at : ℕ
  pub deleted : Bool
  pub company_id : Text
  pub license_plate : Text
  pub plate_normalised : Text
  pub chassis_number : Option Text
  pub chassis_normalised : Option Text
  pub engine_number : Option Text
  pub unit_type : Text
  pub truck_head_id : Option Text
  pub truck_body_id : Option Text
  pub brand_id : Option Text
  pub truck_group_id : Option Text
  pub unit_year : Option ℕ
  pub color : Option Text
  pub tracker_id : Option Text
  pub current_driver_id : Option Text
  pub current_driver_user_id : Option Text
  pub status : Text
  pub is_available : Bool
  pub odometer_km : Option Text
  pub hourmeter_hours : Option Text
  pub fuel_tank_liters : Option Text
  pub fuel_ratio_kmpl : Option Text
  pub notes : Option Text
  pub attributes : Attributes

pub record Driver : Type 0 where
  pub id : ℕ
  pub created_at : ℕ
  pub updated_at : ℕ
  pub deleted : Bool
  pub company_id : Text
  pub full_name : Text
  pub name_normalised : Text
  pub phone : Option Text
  pub phone_normalised : Option Text
  pub employee_no : Option Text
  pub license_no : Option Text
  pub license_class : Option Text
  pub license_expiry : Option ℕ
  pub status : Text
  pub user_id : Option Text
  pub notes : Option Text
  pub attributes : Attributes

-- The stored document also has the mark that deleting the catalogue entry sets.
pub record TrackerModel : Type 0 where
  pub id : ℕ
  pub deleted : Bool
  pub vendor : Text
  pub model : Text
  pub kind : Text
  pub protocol : Option Text
  pub attributes : Attributes
  pub is_active : Bool
  pub created_at : ℕ
  pub updated_at : ℕ

pub record Tracker : Type 0 where
  pub id : ℕ
  pub created_at : ℕ
  pub updated_at : ℕ
  pub deleted : Bool
  pub company_id : Option Text
  pub owner : Text
  pub owner_name : Option Text
  pub kind : Text
  pub device_id : Text
  pub imei : Text
  pub iccid : Option Text
  pub sim_provider : Option Text
  pub phone_no : Option Text
  pub model_id : Option Text
  pub status : Text
  pub attributes : Attributes

pub record TrackerAssignment : Type 0 where
  pub id : ℕ
  pub company_id : Text
  pub tracker_id : Option Text
  pub vehicle_id : Text
  pub kind : Text
  pub device_id : Text
  pub imei : Text
  pub fitted_at : ℕ
  pub unfitted_at : Option ℕ
  pub install_photo_key : Option Text
  pub installed_by_user_id : Option Text
  pub install_notes : Option Text
  pub created_at : ℕ

pub record VehicleGroupMember : Type 0 where
  pub id : ℕ
  pub company_id : Text
  pub group_id : Text
  pub vehicle_id : Text
  pub added_by_user_id : Option Text
  pub created_at : ℕ

pub record VehicleGroup : Type 0 where
  pub id : ℕ
  pub created_at : ℕ
  pub updated_at : ℕ
  pub deleted : Bool
  pub company_id : Text
  pub name : Text
  pub name_normalised : Text
  pub description : Option Text
  pub pic_user_ids : List Text

-- `models.Document`.
pub record Document : Type 0 where
  pub id : ℕ
  pub created_at : ℕ
  pub updated_at : ℕ
  pub deleted : Bool
  pub company_id : Text
  pub vehicle_id : Text
  pub driver_id : Option Text
  pub doc_type : Text
  pub number : Option Text
  pub issued_on : Option ℕ
  pub expires_on : Option ℕ
  pub file_key : Option Text
  pub is_verified : Bool
  pub verified_by_user_id : Option Text
  pub notes : Option Text

-- `if s == "" { s = default }`.
or_default : Text → Text → Text
or_default s value = if s == [] then value else s

some_map : Attributes → Attributes
some_map none = some []
some_map (some m) = some m

-- The midnight (UTC) that starts a day of 86,400 seconds.
day_of : Option ℕ → Option ℕ
day_of none = none
day_of (some t) = some (t - t % 86400000000000)

unfoldable pub vehicle_before_write : Vehicle → Vehicle
unfolding or_default some_map
vehicle_before_write v = record v {
  plate_normalised = plate v.license_plate;
  chassis_normalised = optional serial v.chassis_number;
  unit_type = or_default v.unit_type unit_rigid;
  status = or_default v.status active;
  attributes = some_map v.attributes;
}

unfoldable pub vehicle_validate : Vehicle → Option Error
vehicle_validate v =
    if v.license_plate == [] || v.plate_normalised == [] then some plate_required else none

-- Trimming comes before the derived fields.
driver_trim : Driver → Driver
driver_trim d = record d { full_name = trim_space d.full_name; phone = optional trim_space d.phone }

unfoldable pub driver_before_write : Driver → Driver
unfolding driver_trim or_default some_map day_of
driver_before_write d =
    let d' = driver_trim d in
    record d' {
      name_normalised = name d'.full_name;
      phone_normalised = optional imei d'.phone;
      employee_no = optional trim_space d.employee_no;
      license_no = optional serial d.license_no;
      license_class = optional trim_space d.license_class;
      license_expiry = day_of d.license_expiry;
      status = or_default d.status active;
      attributes = some_map d.attributes;
    }

unfoldable pub driver_validate : Driver → Option Error
driver_validate d =
    if d.full_name == []
    then some driver_name_required
    else if not (d.status == active) && not (d.status == inactive)
    then some driver_status
    else none

-- The switch of `Tracker.BeforeWrite`, on the kind that it has set.
tracker_identify : Tracker → Tracker
unfolding or_default
tracker_identify t =
    if t.kind == tracker_gps
    then record t {
      device_id = imei (or_default t.device_id t.imei);
      imei = imei (or_default t.device_id t.imei);
    }
    else record t { device_id = trim_space t.device_id; imei = [] }

unfoldable pub tracker_before_write : Tracker → Tracker
unfolding or_default tracker_identify
tracker_before_write t =
    let t' = tracker_identify (record t { kind = or_default t.kind tracker_gps }) in
    record t' {
      iccid = optional iccid t.iccid;
      owner = or_default t.owner owner_karlo;
      status = or_default t.status active;
    }

unfoldable pub tracker_model_before_write : TrackerModel → TrackerModel
unfolding or_default
tracker_model_before_write m = record m {
  vendor = trim_space m.vendor;
  model = trim_space m.model;
  kind = or_default m.kind tracker_gps;
  is_active = true;
}

assignment_identify : TrackerAssignment → TrackerAssignment
unfolding or_default
assignment_identify a =
    if a.kind == tracker_gps
    then record a {
      device_id = imei (or_default a.device_id a.imei);
      imei = imei (or_default a.device_id a.imei);
    }
    else record a { imei = [] }

unfoldable pub assignment_before_write : TrackerAssignment → TrackerAssignment
unfolding or_default assignment_identify
assignment_before_write a = assignment_identify (record a { kind = or_default a.kind tracker_gps })

unfoldable pub document_before_write : Document → Document
document_before_write d = record d {
  doc_type = to_upper (trim_space d.doc_type);
  number = optional trim_space d.number;
}
