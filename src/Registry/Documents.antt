-- ===== src/Registry/Documents.antt =====
-- Documents of vehicles and drivers in internal/services/registry.go.
use master_data.Shared.{
  ℕ, Bool, true, false, not, ◌&&◌, Option, none, some, List, [], if◌then◌else◌, ◌==◌, nat_eq,
  text_eq, Text, trim_space, Result, ok, err,
}
use master_data.Errors.{Error, validation}
use master_data.Models.{Document}
use master_data.Mongo.{Mongo}
use master_data.Repository
use master_data.Registry.{
  Outcome, Exec, ◌>>=◌, ◌>>◌, pure, refuse_if, found, oid, find_vehicle, get_driver,
}
use master_data.Registry.DeviceInputs.{DocumentInput, apply_document}
use master_data.Registry.Vehicles.{lift}

-- A write of the store for documents.
abbrev pub on_documents : {A : Type 0} → Result Error A × List Document → Exec A
on_documents (r, rows) db = (r, record db { documents = rows })

abbrev pub new_document : Text → Document
new_document company_id = record {
  id = 0;
  created_at = 0;
  updated_at = 0;
  deleted = false;
  company_id = company_id;
  vehicle_id = [];
  driver_id = none;
  doc_type = [];
  number = none;
  issued_on = none;
  expires_on = none;
  file_key = none;
  is_verified = false;
  verified_by_user_id = none;
  notes = none;
}

abbrev pub given : Option Text → Bool
given none = false
given (some id) = not (trim_space id == [])

abbrev pub text_or_empty : Option Text → Text
text_or_empty none = []
text_or_empty (some id) = id

abbrev pub same : Bool → Bool → Bool
same true b = b
same false b = not b

-- Any error of the lookup is a failed validation.
abbrev pub any_error : {A : Type 0} → Outcome A → Outcome A
any_error (ok a, db) = (ok a, db)
any_error (err e, db) = (err validation, db)

module _ (m : Mongo) where
  pub is_document : Text → ℕ → Document → Bool
  is_document company_id o d = d.id == o && d.company_id == company_id && not d.deleted

  pub find_document : Text → Text → Exec Document
  unfolding is_document
  find_document company_id id = do
    o ← oid m id
    λ db. found (m.find_one (is_document company_id o) db.documents) db

  -- The owner of a new document, once it is known to have exactly one.
  own_document : Text → DocumentInput → Exec Document
  own_document company_id input =
      if given input.vehicle_id
      then (do
        v ← λ db. any_error (find_vehicle m company_id (text_or_empty input.vehicle_id) db)
        pure (record (new_document company_id) {
          vehicle_id = trim_space (text_or_empty input.vehicle_id);
        }))
      else (do
        d ← λ db. any_error (get_driver m company_id (text_or_empty input.driver_id) db)
        pure (record (new_document company_id) {
          driver_id = some (trim_space (text_or_empty input.driver_id));
        }))

  module _ (parse_date : Text → Option ℕ) where
    pub create_document : ℕ → ℕ → Text → DocumentInput → Exec Document
    unfolding own_document
    create_document now new_id company_id input = do
      refuse_if (same (given input.vehicle_id) (given input.driver_id)) validation
      owned ← own_document company_id input
      d ← lift (apply_document parse_date input owned)
      refuse_if (d.doc_type == []) validation
      λ db.
          on_documents
            (Repository.create m Repository.documents now (record d { id = new_id }) db.documents)
            db

    pub update_document : ℕ → Text → Text → DocumentInput → Exec Document
    update_document now company_id id input = do
      old ← find_document company_id id
      d ← lift (apply_document parse_date input old)
      λ db. on_documents (Repository.update m Repository.documents now d.id d db.documents) db

  pub delete_document : ℕ → Text → Text → Exec (Unit {0})
  delete_document now company_id id = do
    d ← find_document company_id id
    λ db.
        on_documents
          (Repository.soft_delete m Repository.documents now company_id d.id db.documents) db
