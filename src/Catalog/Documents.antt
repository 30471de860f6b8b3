-- ===== src/Catalog/Documents.antt =====
-- The documents of the reference lists: the models of internal/models/models.go that carry them,
-- and what their `BeforeWrite` and `Stamp` do.
use master_data.Shared.{
  ℕ, Bool, true, Option, none, some, List, [], if◌then◌else◌, ◌==◌, nat_eq, text_eq, Text, codes,
  to_upper, trim_space, lookup, insert,
}
use master_data.Models.{tracker_gps}
use master_data.Normalise.{name, optional}
use master_data.Normalise.{name, code_key, optional}
use master_data.Repository.{Stored}

pub data Value : Type 0 where
  null : Value
  text : Text → Value
  flag : Bool → Value
  texts : List Text → Value
  other : Text → Value

abbrev pub Fields : Type 0
Fields = List (Text × Value)

-- `owner` is the field `companyId`.
pub record CatalogDoc : Type 0 where
  pub id : ℕ
  pub created_at : ℕ
  pub updated_at : ℕ
  pub deleted : Bool
  pub owner : Option Text
  pub fields : Fields

-- `value.(string)`, and the empty text for any other value.
abbrev pub string_of : Option Value → Text
string_of none = []
string_of (some (text t)) = t
string_of (some null) = []
string_of (some (flag b)) = []
string_of (some (texts ts)) = []
string_of (some (other s)) = []

unfoldable pub pointer_of : Option Value → Option Text
pointer_of none = none
pointer_of (some (text t)) = some t
pointer_of (some null) = none
pointer_of (some (flag b)) = none
pointer_of (some (texts ts)) = none
pointer_of (some (other s)) = none

unfoldable pub from_pointer : Option Text → Value
from_pointer none = null
from_pointer (some t) = text t

normalised_name : Fields → Fields
normalised_name fields =
    insert (codes "nameNormalised") (text (name (string_of (lookup (codes "name") fields)))) fields

when_missing : Text → Value → Option Value → Fields → Fields
when_missing k v none fields = insert k v fields
when_missing k v (some null) fields = insert k v fields
when_missing k v (some w) fields = fields

-- `if x == nil { x = v }`.
default_to : Text → Value → Fields → Fields
unfolding when_missing
default_to k v fields = when_missing k v (lookup k fields) fields

trimmed_field : (Text → Text) → Text → Fields → Fields
trimmed_field f k fields = insert k (text (f (string_of (lookup k fields)))) fields

default_text : Text → Text → Fields → Fields
default_text k v fields =
    if string_of (lookup k fields) == [] then insert k (text v) fields else fields

item_before_write : Fields → Fields
unfolding default_to pointer_of from_pointer
item_before_write fields = default_to (codes "attributes") (other (codes "{}")) (
    insert (codes "codeNormalised")
      (from_pointer (optional code_key (pointer_of (lookup (codes "code") fields)))) fields)

sensor_type_before_write : Fields → Fields
unfolding trimmed_field default_text
sensor_type_before_write fields = insert (codes "isActive") (flag true) (
    default_text (codes "valueKind") (codes "number") (
      trimmed_field trim_space (codes "name")
        (trimmed_field (λ s. to_upper (trim_space s)) (codes "code") fields)))

model_before_write : Fields → Fields
unfolding trimmed_field default_text
model_before_write fields = insert (codes "isActive") (flag true) (
    default_text (codes "kind") tracker_gps
      (trimmed_field trim_space (codes "model") (trimmed_field trim_space (codes "vendor") fields)))

-- `BeforeWrite` of the model of a kind.
unfoldable pub before_write : Text → Fields → Fields
unfolding normalised_name default_to item_before_write sensor_type_before_write model_before_write
before_write kind fields =
    if kind == codes "item"
    then item_before_write fields
    else if kind == codes "sensorType"
    then sensor_type_before_write fields
    else if kind == codes "trackerModel"
    then model_before_write fields
    else if kind == codes "cargoType"
    then default_to (codes "characteristics") (texts []) (normalised_name fields)
    else if kind == codes "truckBody"
    then default_to (codes "cargoTypeIds") (texts []) (normalised_name fields)
    else if kind == codes "vehicleGroup"
    then default_to (codes "picUserIds") (texts []) (normalised_name fields)
    else normalised_name fields

-- A sensor type has no time of its last change.
unfoldable pub stamp : Text → ℕ → Bool → CatalogDoc → CatalogDoc
stamp kind now creating d = record d {
  created_at = if creating then now else d.created_at;
  updated_at = if kind == codes "sensorType" then d.updated_at else now;
}

abbrev pub catalog_model : Text → Stored CatalogDoc
catalog_model kind = record {
  before_write = λ d. record d { fields = before_write kind d.fields };
  validate = λ d. none;
  stamp = stamp kind;
  id_of = λ d. d.id;
  company_of = λ d. d.owner;
  is_deleted = λ d. d.deleted;
  mark_deleted = λ now d. record d { deleted = true; updated_at = now };
}
