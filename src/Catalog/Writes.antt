-- ===== src/Catalog/Writes.antt =====
-- internal/services/catalog.go: `Create`, `Update` and `Delete`. A write that succeeds sweeps the
-- cache and announces a group.
pub mod Outcomes
pub mod Effects
pub mod Frame
use master_data.Shared.{
  refers, ℕ, Bool, true, false, not, ◌&&◌, Option, none, some, List, [], ◌∷◌, ◌++◌, if◌then◌else◌,
  ◌==◌, nat_eq, text_eq, exists, Text, codes, trim_space, Result, ok, err, lookup,
}
use master_data.Errors.{Error, validation, unknown_kind, forbidden}
use master_data.Models.{Vehicle}
use master_data.Mongo.{Mongo}
use master_data.Mongo
use master_data.Repository
use master_data.Registry.{Notice}
use master_data.Catalog.{Catalog, Outcome, set_docs, Sweep, invalidate, scope_for, scope_for_edit}
use master_data.Catalog.Kinds.{KindSpec, catalog_kinds}
use master_data.Catalog.Documents.{Fields, CatalogDoc, string_of}
use master_data.Catalog.Writers.{writable, writer_create, writer_update, writer_delete}

-- A field that is missing, no text or blank.
blank_field : Fields → Text → Bool
blank_field payload field = trim_space (string_of (lookup field payload)) == []

required_of : KindSpec → List Text
required_of spec = elim spec.required_fields [ [] ↦ codes "name" ∷ [] | f ∷ fs ↦ f ∷ fs ]

owner_text : Option Text → Text
owner_text none = []
owner_text (some o) = o

is_group : Text → Bool
is_group kind = kind == codes "vehicleGroup"

is_absent : Option Text → Bool
is_absent none = true
is_absent (some o) = false

-- `catalogKinds[kind]`: the zero value for a kind that is not there.
pub spec_or_zero : Option KindSpec → KindSpec
spec_or_zero (some spec) = spec
spec_or_zero none = record {
  collection = [];
  parent_field = [];
  parent_required = false;
  required_fields = [];
  owned = false;
  shareable = false;
}

abbrev pub group_kind : Text
group_kind = codes "vehicleGroup"

-- What is published of the document that was read back.
publish_group : Text → Text → Option (Option CatalogDoc) → Catalog → Catalog
unfolding owner_text
publish_group id op none s = s
publish_group id op (some none) s = s
publish_group id op (some (some d)) s = record s {
  notices =
      s.notices
      ++ record { kind = codes "truckGroup"; company_id = owner_text d.owner; id = id; op = op }
        ∷ [];
}

module _ (m : Mongo) (decode : Text → Fields → Option Fields) (sweep : Sweep) where
  announce_at : Text → Text → Option ℕ → Catalog → Catalog
  unfolding publish_group
  announce_at id op none s = s
  announce_at id op (some oid) s =
      publish_group id op (m.find_one (λ d. d.id == oid) (s.docs group_kind)) s

  unfoldable pub announce_group : Text → Text → Text → Catalog → Catalog
  unfolding announce_at is_group
  announce_group kind id op s =
      if not (is_group kind) then s else announce_at id op (m.from_hex id) s

  vehicle_notices : List Vehicle → List Notice
  vehicle_notices [] = []
  vehicle_notices (v ∷ vs) =
      record {
        kind = codes "vehicle";
        company_id = v.company_id;
        id = m.hex v.id;
        op = codes "update";
      }
      ∷ vehicle_notices vs

  cleared : List Vehicle → Option (ℕ × List Vehicle) → Catalog → Catalog
  unfolding vehicle_notices
  cleared rows none s = s
  cleared rows (some (n, vs)) s = record s {
    vehicles = vs;
    notices = s.notices ++ vehicle_notices rows;
  }

  clear_rows : ℕ → Text → Option (List Vehicle) → Catalog → Catalog
  unfolding cleared
  clear_rows now group_id none s = s
  clear_rows now group_id (some []) s = s
  clear_rows now group_id (some (v ∷ rows)) s =
      cleared (v ∷ rows)
        (m.update_many (λ (x : Vehicle). refers x.truck_group_id group_id)
          (λ (x : Vehicle). record x { truck_group_id = none; updated_at = now }) s.vehicles)
        s

  unfoldable pub ungroup_vehicles : ℕ → Text → Text → Catalog → Catalog
  unfolding clear_rows is_group
  ungroup_vehicles now kind group_id s =
      if not (is_group kind)
      then s
      else clear_rows now group_id
          (m.find (λ (x : Vehicle). refers x.truck_group_id group_id) s.vehicles) s

  -- After `w.Create` of an owned list.
  after_create : Text → Text → Bool → Catalog → Result Error Text × List CatalogDoc → Outcome Text
  after_create kind company_id staff s (err e, ds) = (err e, set_docs kind ds s)
  after_create kind company_id staff s (ok id, ds) = (
    ok id,
    announce_group kind id (codes "create")
        (invalidate sweep kind company_id staff (set_docs kind ds s)),
  )

  -- Of a list without owners: the writer's answer is the answer, and nothing is swept.
  unowned : Text → Catalog → Result Error Text × List CatalogDoc → Outcome Text
  unowned kind s (r, ds) = (r, set_docs kind ds s)

  owned_by : Text → ℕ → ℕ → Text → Bool → Fields → Bool → Option Text → Catalog → Outcome Text
  unfolding after_create is_absent
  owned_by kind now new_id company_id staff payload shareable owner s =
      if is_absent owner && not shareable
      then (err validation, s)
      else after_create kind company_id staff s
          (writer_create m decode kind now new_id owner payload (s.docs kind))

  create_in : Text → ℕ → ℕ → Text → Bool → Fields → KindSpec → Catalog → Outcome Text
  unfolding owned_by unowned blank_field required_of
  create_in kind now new_id company_id staff payload spec s =
      if exists (blank_field payload) (required_of spec)
      then (err validation, s)
      else if spec.parent_required && blank_field payload spec.parent_field
      then (err validation, s)
      else if not spec.owned
      then (if not staff
          then (err forbidden, s)
          else unowned kind s (writer_create m decode kind now new_id none payload (s.docs kind)))
      else owned_by kind now new_id company_id staff payload spec.shareable
          (scope_for company_id staff (string_of (lookup (codes "companyId") payload))) s

  refused_kind : Option KindSpec → Error
  refused_kind (some spec) = validation
  refused_kind none = unknown_kind

  unfoldable pub create : ℕ → ℕ → Text → Text → Bool → Fields → Catalog → Outcome Text
  unfolding create_in spec_or_zero refused_kind
  create now new_id kind company_id staff payload s =
      if not (writable kind)
      then (err (refused_kind (lookup kind catalog_kinds)), s)
      else create_in kind now new_id company_id staff payload
          (spec_or_zero (lookup kind catalog_kinds)) s

  after_update :
      Text
      → Text
      → Text
      → Bool
      → Catalog
      → Result Error (Unit {0}) × List CatalogDoc
      → Outcome (Unit {0})
  after_update kind id company_id staff s (err e, ds) = (err e, set_docs kind ds s)
  after_update kind id company_id staff s (ok t, ds) = (
    ok t,
    announce_group kind id (codes "update")
        (invalidate sweep kind company_id staff (set_docs kind ds s)),
  )

  unfoldable pub update : ℕ → Text → Text → Text → Bool → Fields → Catalog → Outcome (Unit {0})
  unfolding after_update
  update now kind id company_id staff payload s =
      if not (writable kind)
      then (err validation, s)
      else after_update kind id company_id staff s (
          writer_update m decode kind now id (scope_for_edit company_id staff) payload
            (s.docs kind))

  after_delete :
      ℕ
      → Text
      → Text
      → Text
      → Bool
      → Catalog
      → Result Error (Unit {0}) × List CatalogDoc
      → Outcome (Unit {0})
  after_delete now kind id company_id staff s (err e, ds) = (err e, set_docs kind ds s)
  after_delete now kind id company_id staff s (ok t, ds) = (
    ok t,
    announce_group kind id (codes "delete") (
        ungroup_vehicles now kind id (invalidate sweep kind company_id staff (set_docs kind ds s))),
  )

  unfoldable pub delete : ℕ → Text → Text → Text → Bool → Catalog → Outcome (Unit {0})
  unfolding after_delete
  delete now kind id company_id staff s =
      if not (writable kind)
      then (err validation, s)
      else after_delete now kind id company_id staff s
          (writer_delete m decode id (scope_for_edit company_id staff) (s.docs kind))
