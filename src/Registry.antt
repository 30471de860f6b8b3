-- ===== src/Registry.antt =====
-- internal/services/registry.go: the writable fleet register. The state is the collections that
-- the service writes and the notices that it has published; an operation maps the state before to
-- its result and the state after. The clock and the new object ids are arguments.
pub mod Lookups
pub mod Outcomes
pub mod Inputs
pub mod DeviceInputs
pub mod Vehicles
pub mod Drivers
pub mod Devices
pub mod Documents
pub mod Fitting
use master_data.Shared.{
  refers, ℕ, Bool, true, false, not, ◌&&◌, ◌||◌, Option, none, some, List, [], ◌∷◌, ◌++◌, ◌==◌,
  nat_eq, text_eq, Text, trim_space, Result, ok, err,
}
use master_data.Errors.{Error, not_found, failure}
use master_data.Models.{
  Vehicle, Driver, TrackerModel, Tracker, TrackerAssignment, VehicleGroupMember, VehicleGroup,
  Document,
}
use master_data.Mongo.{Mongo}
use master_data.Mongo
use master_data.Repository

-- What `announce` publishes on the change channel.
pub record Notice : Type 0 where
  pub kind : Text
  pub company_id : Text
  pub id : Text
  pub op : Text

pub record Db : Type 0 where
  pub drivers : List Driver
  pub vehicles : List Vehicle
  pub trackers : List Tracker
  pub assignments : List TrackerAssignment
  pub members : List VehicleGroupMember
  pub documents : List Document
  pub models : List TrackerModel
  pub groups : List VehicleGroup
  pub notices : List Notice

abbrev pub Outcome : Type 0 → Type 0
Outcome A = Result Error A × Db

abbrev pub Exec : Type 0 → Type 0
Exec A = Db → Outcome A

abbrev pub and_then : {A B : Type 0} → Outcome A → (A → Exec B) → Outcome B
and_then (ok a, db) f = f a db
and_then (err e, db) f = (err e, db)

infixl 5 ◌>>=◌ ◌>>◌
abbrev pub ◌>>=◌ : {A B : Type 0} → Exec A → (A → Exec B) → Exec B
◌>>=◌ f g db = and_then (f db) g

abbrev pub ◌>>◌ : {B : Type 0} → Exec (Unit {0}) → Exec B → Exec B
◌>>◌ f g = f >>= λ _. g

abbrev pub pure : {A : Type 0} → A → Exec A
pure a db = (ok a, db)

abbrev pub fail : {A : Type 0} → Error → Exec A
fail e db = (err e, db)

-- `if test { return error }`.
abbrev pub refuse_if : Bool → Error → Exec (Unit {0})
refuse_if true e db = (err e, db)
refuse_if false e db = (ok tt, db)

-- Another error in place of a missing document.
abbrev pub instead : {A : Type 0} → Error → Outcome A → Outcome A
instead e (err not_found, db) = (err e, db)
instead e r = r

pub announce : Text → Text → Text → Text → Exec (Unit {0})
announce kind company_id id op db = (
  ok tt,
  record db {
    notices = db.notices ++ record { kind = kind; company_id = company_id; id = id; op = op } ∷ [];
  },
)

abbrev pub or_not_found : Option ℕ → Exec ℕ
or_not_found none = fail not_found
or_not_found (some o) = pure o

-- The result of `FindOne`.
abbrev pub found : {D : Type 0} → Option (Option D) → Exec D
found none = fail failure
found (some none) = fail not_found
found (some (some d)) = pure d

abbrev pub counted : {A : Type 0} → Option A → Exec A
counted none = fail failure
counted (some n) = pure n

module _ (m : Mongo) where
  pub oid : Text → Exec ℕ
  oid id = or_not_found (m.from_hex (trim_space id))

  abbrev pub is_tracker : Text → ℕ → Tracker → Bool
  is_tracker company_id o t =
      t.id == o && not t.deleted && (company_id == [] || refers t.company_id company_id)

  pub find_tracker : Text → Text → Exec Tracker
  unfolding oid
  find_tracker company_id id = do
    o ← oid id
    λ db. found (m.find_one (is_tracker company_id o) db.trackers) db

  -- `scoped`.
  abbrev pub is_vehicle : Text → ℕ → Vehicle → Bool
  is_vehicle company_id o v = v.id == o && v.company_id == company_id && not v.deleted

  pub find_vehicle : Text → Text → Exec Vehicle
  unfolding oid
  find_vehicle company_id id = do
    o ← oid id
    λ db. found (m.find_one (is_vehicle company_id o) db.vehicles) db

  abbrev pub is_driver : Text → ℕ → Driver → Bool
  is_driver company_id o d = d.id == o && d.company_id == company_id && not d.deleted

  pub get_driver : Text → Text → Exec Driver
  unfolding oid
  get_driver company_id id = do
    o ← oid id
    λ db. found (m.find_one (is_driver company_id o) db.drivers) db
