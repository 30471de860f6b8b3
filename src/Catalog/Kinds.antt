-- ===== src/Catalog/Kinds.antt =====
-- `catalogKinds` of internal/services/catalog.go: every reference list that the service serves.
use master_data.Shared.{Bool, true, false, List, [], ◌∷◌, Text, codes}

pub record KindSpec : Type 0 where
  pub collection : Text
  pub parent_field : Text
  pub parent_required : Bool
  pub required_fields : List Text
  pub owned : Bool
  pub shareable : Bool

-- A list without a parent or fields of its own.
plain : Text → Bool → Bool → KindSpec
plain collection owned shareable = record {
  collection = collection;
  parent_field = [];
  parent_required = false;
  required_fields = [];
  owned = owned;
  shareable = shareable;
}

unfoldable pub catalog_kinds : List (Text × KindSpec)
unfolding plain
catalog_kinds =
    (codes "brand", plain (codes "brands") true true)
    ∷ (codes "cargoType", plain (codes "cargo_types") true true)
    ∷ (codes "itemCategory", plain (codes "item_categories") true true)
    ∷ (
      codes "itemSubCategory",
      record (plain (codes "item_sub_categories") true true) {
        parent_field = codes "categoryId";
        parent_required = true;
      },
    )
    ∷ (
      codes "item",
      record (plain (codes "items") true false) { parent_field = codes "cargoTypeId" },
    )
    ∷ (codes "truckHead", plain (codes "truck_heads") true true)
    ∷ (codes "truckBody", plain (codes "truck_bodies") true true)
    ∷ (codes "truckClass", plain (codes "truck_classes") true true)
    ∷ (codes "vehicleGroup", plain (codes "vehicle_groups") true false)
    ∷ (codes "customer", plain (codes "customers") true false)
    ∷ (
      codes "trackerModel",
      record (plain (codes "tracker_models") false false) {
        required_fields = codes "vendor" ∷ codes "model" ∷ [];
      },
    )
    ∷ (
      codes "sensorType",
      record (plain (codes "sensor_types") false false) {
        required_fields = codes "code" ∷ codes "name" ∷ [];
      },
    )
    ∷ (codes "truckType", plain (codes "truck_types") false false)
    ∷ (codes "itemType", plain (codes "item_types") false false)
    ∷ (codes "itemCharacter", plain (codes "item_characters") false false)
    ∷ (codes "pricingType", plain (codes "pricing_types") false false)
    ∷ (codes "paymentType", plain (codes "payment_types") false false)
    ∷ (codes "currency", plain (codes "currencies") false false)
    ∷ (codes "requirement", plain (codes "requirements") false false)
    ∷ (codes "provinsi", plain (codes "provinces") false false)
    ∷ (
      codes "kota",
      record (plain (codes "cities") false false) { parent_field = codes "provinceId" },
    )
    ∷ (
      codes "district",
      record (plain (codes "districts") false false) { parent_field = codes "cityId" },
    )
    ∷ []
