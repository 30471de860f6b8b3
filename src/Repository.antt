-- ===== src/Repository.antt =====
-- internal/repository/repository.go: the one typed store that writes every collection. `Stored`
-- is what the code asks of a model: the interfaces `Document`, `Validated` and `Stamp`, and the
-- fields by which the filters read it.
pub mod Tenancy
pub mod Writes
pub mod Devices
mod Tests
use master_data.Shared.{
  refers, ℕ, Bool, true, false, not, ◌&&◌, ◌||◌, Option, none, some, List, [], if◌then◌else◌, ◌==◌,
  nat_eq, text_eq, Text, Result, ok, err,
}
use master_data.Errors.{Error, not_found, duplicate, failure}
use master_data.Models.{
  Vehicle, vehicle_before_write, vehicle_validate, Driver, driver_before_write, driver_validate,
  Tracker, tracker_before_write, Document, document_before_write,
}
use master_data.Mongo.{Mongo, Inserted, inserted}
use master_data.Mongo

pub record Stored (D : Type 0) : Type 0 where
  pub before_write : D → D
  pub validate : D → Option Error
  -- `Stamp(now, creating)`.
  pub stamp : ℕ → Bool → D → D
  pub id_of : D → ℕ
  pub company_of : D → Option Text
  pub is_deleted : D → Bool
  pub mark_deleted : ℕ → D → D

module _ (m : Mongo) {D : Type 0} (model : Stored D) where
  pub insertion : D → List D → Inserted D → Result Error D × List D
  insertion doc ds (inserted ds') = (ok doc, ds')
  insertion doc ds Mongo.duplicate = (err duplicate, ds)
  insertion doc ds Mongo.failed = (err failure, ds)

  pub refuse_or : Option Error → List D → Result Error D × List D → Result Error D × List D
  refuse_or none ds r = r
  refuse_or (some e) ds r = (err e, ds)

  -- The document comes back as it was written.
  unfoldable pub create : ℕ → D → List D → Result Error D × List D
  unfolding insertion refuse_or
  create now doc ds =
      let doc' = model.before_write doc in
      let stamped = model.stamp now true doc' in
      refuse_or (model.validate doc') ds (insertion stamped ds (m.insert_one stamped ds))

  pub replacement : D → List D → Option (ℕ × List D) → Result Error D × List D
  replacement doc ds none = (err failure, ds)
  replacement doc ds (some (n, ds')) = if n == 0 then (err not_found, ds') else (ok doc, ds')

  unfoldable pub update : ℕ → ℕ → D → List D → Result Error D × List D
  unfolding replacement refuse_or
  update now id doc ds =
      let doc' = model.before_write doc in
      let stamped = model.stamp now false doc' in
      refuse_or (model.validate doc') ds
        (replacement stamped ds (m.replace_one (λ d. model.id_of d == id) stamped ds))

  -- `{"$or": [{"companyId": companyID}, {"companyId": nil}]}`.
  pub owned_or_global : Text → Option Text → Bool
  owned_or_global company_id none = true
  owned_or_global company_id (some owner) = owner == company_id

  pub visible : Text → D → Bool
  unfolding owned_or_global
  visible company_id d =
      not (model.is_deleted d)
      && (company_id == [] || owned_or_global company_id (model.company_of d))

  pub one : Option (Option D) → Result Error D
  one none = err failure
  one (some none) = err not_found
  one (some (some d)) = ok d

  unfoldable pub find_by_id : Text → ℕ → List D → Result Error D
  unfolding visible one
  find_by_id company_id id ds =
      one (m.find_one (λ d. model.id_of d == id && visible company_id d) ds)

  pub deletion : List D → Option (ℕ × List D) → Result Error (Unit {0}) × List D
  deletion ds none = (err failure, ds)
  deletion ds (some (n, ds')) = if n == 0 then (err not_found, ds') else (ok tt, ds')

  unfoldable pub deletable : Text → ℕ → D → Bool
  deletable company_id id d =
      model.id_of d == id && (company_id == [] || refers (model.company_of d) company_id)

  unfoldable pub soft_delete : ℕ → Text → ℕ → List D → Result Error (Unit {0}) × List D
  unfolding deletable deletion
  soft_delete now company_id id ds =
      deletion ds (m.update_one (deletable company_id id) (model.mark_deleted now) ds)

abbrev pub vehicles : Stored Vehicle
vehicles = record {
  before_write = vehicle_before_write;
  validate = vehicle_validate;
  stamp = λ now creating v. record v {
    created_at = if creating then now else v.created_at;
    updated_at = now;
  };
  id_of = λ v. v.id;
  company_of = λ v. some v.company_id;
  is_deleted = λ v. v.deleted;
  mark_deleted = λ now v. record v { deleted = true; updated_at = now };
}

abbrev pub drivers : Stored Driver
drivers = record {
  before_write = driver_before_write;
  validate = driver_validate;
  stamp = λ now creating d. record d {
    created_at = if creating then now else d.created_at;
    updated_at = now;
  };
  id_of = λ d. d.id;
  company_of = λ d. some d.company_id;
  is_deleted = λ d. d.deleted;
  mark_deleted = λ now d. record d { deleted = true; updated_at = now };
}

abbrev pub trackers : Stored Tracker
trackers = record {
  before_write = tracker_before_write;
  validate = λ t. none;
  stamp = λ now creating t. record t {
    created_at = if creating then now else t.created_at;
    updated_at = now;
  };
  id_of = λ t. t.id;
  company_of = λ t. t.company_id;
  is_deleted = λ t. t.deleted;
  mark_deleted = λ now t. record t { deleted = true; updated_at = now };
}

abbrev pub documents : Stored Document
documents = record {
  before_write = document_before_write;
  validate = λ d. none;
  stamp = λ now creating d. record d {
    created_at = if creating then now else d.created_at;
    updated_at = now;
  };
  id_of = λ d. d.id;
  company_of = λ d. some d.company_id;
  is_deleted = λ d. d.deleted;
  mark_deleted = λ now d. record d { deleted = true; updated_at = now };
}
