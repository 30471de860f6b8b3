-- ===== src/Catalog.antt =====
-- internal/services/catalog.go, catalog_write.go and helpers.go: the reference lists. A document of
-- a list is a record of what the code itself reads and writes, with the other fields in a map;
-- `other` is a value that it only copies, as JSON. The state holds the documents of each kind, the
-- cache, the vehicles that point at groups and the notices. The BSON decoder, the hash, the printers
-- of numbers and times and the matcher of patterns are parameters. An answer that the cache has kept
-- is as it was written; a read or a write of the cache does not fail, and what a sweep leaves is a parameter.
pub mod Kinds
pub mod Documents
pub mod Writers
pub mod Writes
pub mod Reads
pub mod References
pub mod Scopes
pub mod Coherence
mod Tests
use master_data.Shared.{
  ℕ, Bool, true, false, not, ◌||◌, Option, none, some, List, [], ◌∷◌, ◌++◌, if◌then◌else◌, ◌==◌,
  nat_eq, text_eq, keep, contains, Text, codes, trim_space, Result, lookup,
}
use master_data.Errors.{Error}
use master_data.Models.{active, Vehicle}
use master_data.Mongo.{Mongo}
use master_data.Mongo
use master_data.Repository
use master_data.Normalise.{name}
use master_data.Registry.{Notice}
use master_data.Cache.{key, prefix, pattern}
use master_data.Catalog.Documents.{Value, flag, Fields, CatalogDoc, string_of}

-- `CatalogEntry`.
pub record Entry : Type 0 where
  pub id : Text
  pub kind : Text
  pub company_id : Option Text
  pub code : Text
  pub name : Text
  pub description : Text
  pub active : Bool
  pub attrs : Fields
  pub created_at : Text
  pub updated_at : Text

pub data Cached : Type 0 where
  entry : Entry → Cached
  -- `cachedList`.
  listing : List Entry → ℕ → Cached

pub record Catalog : Type 0 where
  pub docs : Text → List CatalogDoc
  pub vehicles : List Vehicle
  pub cache : List (Text × Cached)
  pub notices : List Notice

abbrev pub Outcome : Type 0 → Type 0
Outcome A = Result Error A × Catalog

abbrev pub set_docs : Text → List CatalogDoc → Catalog → Catalog
set_docs kind ds s = record s { docs = λ k. if k == kind then ds else s.docs k }

abbrev pub staff_scope : Text
staff_scope = codes "staff"

abbrev pub global_scope : Text
global_scope = codes "global"

unfoldable pub catalog_scope : Text → Bool → Text
catalog_scope company_id staff =
    if staff then staff_scope else if company_id == [] then global_scope else company_id

abbrev pub root : List Text
root = codes "masterdata" ∷ codes "catalog" ∷ []

unfoldable pub entry_key : Text → Text → Text → Text
entry_key scope kind id = key (root ++ scope ∷ kind ∷ codes "id" ∷ id ∷ [])

-- What Redis leaves of the cache when it is scanned for a pattern and the keys found are deleted; it
-- may stop half-way.
abbrev pub Sweep : Type 0
Sweep = Text → List (Text × Cached) → List (Text × Cached)

unfoldable pub delete_by_prefix : Sweep → Text → List (Text × Cached) → List (Text × Cached)
unfolding pattern
delete_by_prefix sweep p cache = sweep (pattern p) cache

unfoldable pub invalidate : Sweep → Text → Text → Bool → Catalog → Catalog
unfolding delete_by_prefix
invalidate sweep kind company_id staff s =
    if staff || company_id == []
    then record s { cache = delete_by_prefix sweep (prefix root) s.cache }
    else record s {
      cache =
          delete_by_prefix sweep (prefix (root ++ staff_scope ∷ kind ∷ []))
            (delete_by_prefix sweep (prefix (root ++ company_id ∷ kind ∷ [])) s.cache);
    }

unfoldable pub scope_for : Text → Bool → Text → Option Text
scope_for company_id staff requested =
    if not staff
    then some company_id
    else if trim_space requested == []
    then none
    else some (trim_space requested)

unfoldable pub scope_for_edit : Text → Bool → Option Text
scope_for_edit company_id staff = if staff then none else some company_id

-- `visibility`, as the test that its filter makes of the owner.
unfoldable pub visibility : Text → Bool → Option Text → Bool
visibility company_id true owner = true
visibility company_id false none = true
visibility company_id false (some o) = if company_id == [] then false else o == company_id

promoted : Text → Bool
promoted k =
    contains
      (codes "name"
        ∷ codes "code"
        ∷ codes "description"
        ∷ codes "isActive"
        ∷ codes "nameNormalised"
        ∷ [])
      k

active_of : Option Value → Bool
active_of (some (flag b)) = b
active_of _ = true

named_owner : Option Text → Option Text
named_owner none = none
named_owner (some o) = if o == [] then none else some o

module _ (m : Mongo) (format_time : ℕ → Text) where
  unfoldable pub to_entry : Text → CatalogDoc → Entry
  unfolding promoted active_of named_owner
  to_entry kind d = record {
    id = m.hex d.id;
    kind = kind;
    company_id = named_owner d.owner;
    code = string_of (lookup (codes "code") d.fields);
    name = string_of (lookup (codes "name") d.fields);
    description = string_of (lookup (codes "description") d.fields);
    active = active_of (lookup (codes "isActive") d.fields);
    attrs = keep (λ f. not (promoted f.0)) d.fields;
    created_at = format_time d.created_at;
    updated_at = format_time d.updated_at;
  }
