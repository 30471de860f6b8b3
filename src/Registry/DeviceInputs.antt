-- ===== src/Registry/DeviceInputs.antt =====
-- The inputs of devices and documents of internal/services/registry.go.
pub mod Identity
use master_data.Shared.{
  ℕ, Bool, not, ◌&&◌, ◌||◌, Option, none, some, [], if◌then◌else◌, ◌==◌, nat_eq, text_eq, Text,
  to_upper, to_lower, trim_space, Result, ok, err,
}
use master_data.Errors.{Error, validation, conflict}
use master_data.Models.{
  tracker_gps, tracker_dashcam, owner_karlo, owner_customer, owner_vendor, Attributes, Tracker,
  Document,
}
use master_data.Normalise.{imei}
use master_data.Registry.Inputs.{str, lowered, merge, date}

pub record TrackerInput : Type 0 where
  pub kind : Option Text
  pub device_id : Option Text
  pub imei : Option Text
  pub iccid : Option Text
  pub sim_provider : Option Text
  pub phone_no : Option Text
  pub model_id : Option Text
  pub company_id : Option Text
  pub owner : Option Text
  pub owner_name : Option Text
  pub status : Option Text
  pub attributes : Attributes

unfoldable pub normalise_device : Text → Text → Text
normalise_device kind v = if kind == tracker_gps || kind == [] then imei v else trim_space v

choose_kind : Bool → Text → Option Text → Result Error Text
choose_kind creating kind none = ok kind
choose_kind creating kind (some src) =
    let k = to_lower (trim_space src) in
    if k == tracker_gps || k == tracker_dashcam
    then (if not creating && not (kind == []) && not (kind == k) then err conflict else ok k)
    else err validation

device_of : TrackerInput → Option Text
device_of input = elim input.device_id [ none ↦ input.imei | some d ↦ some d ]

-- `kind` is the kind that the input has set.
choose_device : Bool → Text → Text → Option Text → Result Error Text
unfolding normalise_device
choose_device creating kind device_id none = ok device_id
choose_device creating kind device_id (some src) =
    let v = trim_space src in
    if not creating && not (device_id == []) && not (normalise_device kind v == device_id)
    then err conflict
    else ok v

choose_owner : Text → Option Text → Result Error Text
choose_owner owner none = ok owner
choose_owner owner (some src) =
    let o = to_lower (trim_space src) in
    if o == owner_karlo || o == owner_customer || o == owner_vendor then ok o else err validation

apply_owner : TrackerInput → Tracker → Result Error Text → Result Error Tracker
unfolding str lowered merge
apply_owner input t (err e) = err e
apply_owner input t (ok owner) = ok (record t {
  iccid = str t.iccid input.iccid;
  sim_provider = str t.sim_provider input.sim_provider;
  phone_no = str t.phone_no input.phone_no;
  model_id = str t.model_id input.model_id;
  owner_name = str t.owner_name input.owner_name;
  owner = owner;
  status = lowered t.status input.status;
  attributes = merge t.attributes input.attributes;
})

apply_device : TrackerInput → Tracker → Result Error Text → Result Error Tracker
unfolding apply_owner choose_owner
apply_device input t (err e) = err e
apply_device input t (ok device_id) =
    apply_owner input (record t { device_id = device_id }) (choose_owner t.owner input.owner)

apply_kind : Bool → TrackerInput → Tracker → Result Error Text → Result Error Tracker
unfolding apply_device choose_device device_of
apply_kind creating input t (err e) = err e
apply_kind creating input t (ok kind) =
    apply_device input (record t { kind = kind })
      (choose_device creating kind t.device_id (device_of input))

unfoldable pub apply_tracker : TrackerInput → Bool → Tracker → Result Error Tracker
unfolding apply_kind choose_kind
apply_tracker input creating t =
    apply_kind creating input t (choose_kind creating t.kind input.kind)

pub record DocumentInput : Type 0 where
  pub vehicle_id : Option Text
  pub driver_id : Option Text
  pub doc_type : Option Text
  pub number : Option Text
  pub issued_on : Option Text
  pub expires_on : Option Text
  pub file_key : Option Text
  pub notes : Option Text

uppered : Text → Option Text → Text
uppered dst none = dst
uppered dst (some src) = to_upper (trim_space src)

expire : Document → Result Error (Option ℕ) → Result Error Document
expire d (err e) = err e
expire d (ok t) = ok (record d { expires_on = t })

issue :
    (Text → Option ℕ) → DocumentInput → Document → Result Error (Option ℕ) → Result Error Document
unfolding expire date
issue parse_date input d (err e) = err e
issue parse_date input d (ok t) =
    expire (record d { issued_on = t }) (date parse_date d.expires_on input.expires_on)

unfoldable pub apply_document : (Text → Option ℕ) → DocumentInput → Document → Result Error Document
unfolding uppered str issue date
apply_document parse_date input d =
    let d' : Document = record d {
      doc_type = uppered d.doc_type input.doc_type;
      number = str d.number input.number;
      file_key = str d.file_key input.file_key;
      notes = str d.notes input.notes;
    } in
    issue parse_date input d' (date parse_date d.issued_on input.issued_on)
