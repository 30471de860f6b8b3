-- ===== src/Catalog/Writers.antt =====
-- internal/services/catalog_write.go: the write half of a reference list.
pub mod Cases
use master_data.Shared.{
  ℕ, Bool, true, false, not, ◌&&◌, Option, none, some, List, [], ◌∷◌, if◌then◌else◌, ◌==◌, nat_eq,
  text_eq, keep, contains, Text, codes, Result, ok, err, lookup, insert,
}
use master_data.Errors.{Error, not_found, validation, forbidden, duplicate, failure}
use master_data.Mongo.{Mongo}
use master_data.Mongo
use master_data.Repository
use master_data.Catalog.Documents.{
  Value, Fields, flag, CatalogDoc, catalog_model, pointer_of, from_pointer,
}

reserved : List Text
reserved =
    codes "_id"
    ∷ codes "id"
    ∷ codes "companyId"
    ∷ codes "createdAt"
    ∷ codes "updatedAt"
    ∷ codes "deleted"
    ∷ codes "nameNormalised"
    ∷ codes "plateNormalised"
    ∷ []

-- The fields that a caller may set.
unfoldable pub settable : Fields → Fields
unfolding reserved
settable payload = keep (λ f. not (contains reserved f.0)) payload

-- `for key, value := range payload { merged[key] = value }`.
unfoldable pub merge : Fields → Fields → Fields
merge [] merged = merged
merge ((k, v) ∷ payload) merged = merge payload (insert k v merged)

-- `toMap` of a loaded document, its owner under the key `companyId`.
unfoldable pub to_map : CatalogDoc → Fields
unfolding from_pointer
to_map d = insert (codes "companyId") (from_pointer d.owner) d.fields

-- The owner in the map that an update decodes.
unfoldable pub owner_in : Fields → Option Text
unfolding pointer_of
owner_in fields = pointer_of (lookup (codes "companyId") fields)

set_unless : Option Value → Fields → Fields
set_unless none fields = insert (codes "isActive") (flag true) fields
set_unless (some v) fields = fields

unfoldable pub with_active : Fields → Fields
unfolding set_unless
with_active fields = set_unless (lookup (codes "isActive") fields) fields

-- The writers that `newWriters` makes.
unfoldable pub writers : List Text
writers =
    codes "brand"
    ∷ codes "cargoType"
    ∷ codes "itemCategory"
    ∷ codes "itemSubCategory"
    ∷ codes "item"
    ∷ codes "truckHead"
    ∷ codes "truckBody"
    ∷ codes "truckClass"
    ∷ codes "vehicleGroup"
    ∷ codes "customer"
    ∷ codes "trackerModel"
    ∷ codes "sensorType"
    ∷ []

-- `Writable`.
unfoldable pub writable : Text → Bool
unfolding writers
writable kind = contains writers kind

owner_text : Option Text → Text
owner_text none = []
owner_text (some o) = o

-- `duplicate` becomes an invalid input.
name_taken : {A : Type 0} → Result Error A → Result Error A
name_taken (err duplicate) = err validation
name_taken r = r

abbrev pub done_with : {A B : Type 0} → B → Result Error A → Result Error B
done_with b (ok a) = ok b
done_with b (err e) = err e

unfoldable pub may_change : Option Text → CatalogDoc → Result Error CatalogDoc
unfolding owner_text
may_change none d = ok d
may_change (some company_id) d =
    if owner_text d.owner == []
    then err forbidden
    else if owner_text d.owner == company_id
    then ok d
    else err not_found

found : Option Text → Option (Option CatalogDoc) → Result Error CatalogDoc
unfolding may_change
found scope none = err failure
found scope (some none) = err not_found
found scope (some (some d)) = may_change scope d

module _ (m : Mongo) (decode : Text → Fields → Option Fields) where
  created :
      Text
      → ℕ
      → ℕ
      → Option Text
      → Option Fields
      → List CatalogDoc
      → Result Error Text × List CatalogDoc
  unfolding name_taken
  created kind now new_id owner none ds = (err validation, ds)
  created kind now new_id owner (some fields) ds =
      let doc : CatalogDoc = record {
        id = new_id;
        created_at = 0;
        updated_at = 0;
        deleted = false;
        owner = owner;
        fields = fields;
      } in
      let (r, ds') = Repository.create m (catalog_model kind) now doc ds in
      (done_with (m.hex new_id) (name_taken r), ds')

  -- `owner` is what the service resolved; the payload's own is dropped.
  unfoldable pub writer_create :
      Text → ℕ → ℕ → Option Text → Fields → List CatalogDoc → Result Error Text × List CatalogDoc
  unfolding created settable with_active
  writer_create kind now new_id owner payload ds =
      created kind now new_id owner (decode kind (with_active (settable payload))) ds

  unfoldable pub load : ℕ → Option Text → List CatalogDoc → Result Error CatalogDoc
  unfolding found
  load oid scope ds = found scope (m.find_one (λ d. d.id == oid && not d.deleted) ds)

  -- The new document takes its owner from the map that was decoded.
  changed :
      Text
      → ℕ
      → ℕ
      → CatalogDoc
      → Option Text
      → Option Fields
      → List CatalogDoc
      → Result Error (Unit {0}) × List CatalogDoc
  unfolding name_taken
  changed kind now oid d owner none ds = (err validation, ds)
  changed kind now oid d owner (some fields) ds =
      let (r, ds') =
        Repository.update m (catalog_model kind) now oid
          (record d { id = oid; owner = owner; fields = fields }) ds in
      (done_with tt (name_taken r), ds')

  merged :
      Text
      → ℕ
      → ℕ
      → Fields
      → Result Error CatalogDoc
      → List CatalogDoc
      → Result Error (Unit {0}) × List CatalogDoc
  unfolding changed merge settable to_map owner_in
  merged kind now oid payload (err e) ds = (err e, ds)
  merged kind now oid payload (ok d) ds =
      let fields = merge (settable payload) (to_map d) in
      changed kind now oid d (owner_in fields) (decode kind fields) ds

  update_at :
      Text
      → ℕ
      → Option ℕ
      → Option Text
      → Fields
      → List CatalogDoc
      → Result Error (Unit {0}) × List CatalogDoc
  unfolding merged load
  update_at kind now none scope payload ds = (err not_found, ds)
  update_at kind now (some oid) scope payload ds =
      merged kind now oid payload (load oid scope ds) ds

  unfoldable pub writer_update :
      Text
      → ℕ
      → Text
      → Option Text
      → Fields
      → List CatalogDoc
      → Result Error (Unit {0}) × List CatalogDoc
  unfolding update_at
  writer_update kind now id scope payload ds = update_at kind now (m.from_hex id) scope payload ds

  marked :
      List CatalogDoc → Option (ℕ × List CatalogDoc) → Result Error (Unit {0}) × List CatalogDoc
  marked ds none = (err failure, ds)
  marked ds (some (n, ds')) = if n == 0 then (err not_found, ds') else (ok tt, ds')

  retired :
      ℕ → Result Error CatalogDoc → List CatalogDoc → Result Error (Unit {0}) × List CatalogDoc
  unfolding marked
  retired oid (err e) ds = (err e, ds)
  retired oid (ok d) ds =
      marked ds
        (m.update_one (λ x. x.id == oid) (λ (x : CatalogDoc). record x { deleted = true }) ds)

  delete_at : Option ℕ → Option Text → List CatalogDoc → Result Error (Unit {0}) × List CatalogDoc
  unfolding retired load
  delete_at none scope ds = (err not_found, ds)
  delete_at (some oid) scope ds = retired oid (load oid scope ds) ds

  -- The time of the last change stays.
  unfoldable pub writer_delete :
      Text → Option Text → List CatalogDoc → Result Error (Unit {0}) × List CatalogDoc
  unfolding delete_at
  writer_delete id scope ds = delete_at (m.from_hex id) scope ds
