-- ===== src/Authctx/Gates.antt =====
-- Every gate of a catalogue can be sold.
use master_data.Shared.{
  ◌≡◌, refl, Bool, true, ◌&&◌, ◌||◌, some, List, [], ◌∷◌, arith, ◌==◌, nat_eq, text_eq, Text,
  text_beq, text_beq_iff, lookup, insert,
}
use master_data.Authctx.Tables.{
  PermissionSpec, tms_catalog, fms_catalog, tms_features, shared_features, fms_registry,
}
use master_data.Authctx.{
  product_tms, product_fms, catalog_for, feature_of, feature_for, is_sellable_feature,
  feature_registry, decode_fms_registry,
}

-- Ungated, or gated by something that can be sold.
abbrev alive : Text → PermissionSpec → Bool
alive product s = s.feature == [] || is_sellable_feature product s.feature

all_alive : Text → List (Text × PermissionSpec) → Bool
all_alive product [] = true
all_alive product ((k, s) ∷ c) = alive product s && all_alive product c

all_alive-lookup :
    (product key feature : Text) (c : List (Text × PermissionSpec))
    → all_alive product c ≡ true
    → feature_of (lookup key c) ≡ some feature
    → (feature == [] || is_sellable_feature product feature) ≡ true
unfolding all_alive lookup feature_of
all_alive-lookup product key feature [] w h = cc
all_alive-lookup product key feature ((k, s) ∷ c) w h =
    ground (arith, all_alive-lookup product key feature c)

tms_alive : all_alive product_tms tms_catalog ≡ true
unfolding all_alive tms_catalog is_sellable_feature feature_registry tms_features shared_features
    text_beq lookup insert
tms_alive = refl

fms_alive : all_alive product_fms fms_catalog ≡ true
unfolding all_alive fms_catalog is_sellable_feature feature_registry fms_registry
    decode_fms_registry shared_features text_beq lookup insert
fms_alive = refl

none_alive : (product : Text) → all_alive product [] ≡ true
unfolding all_alive
none_alive product = refl

catalog_for_alive : (product : Text) → all_alive product (catalog_for product) ≡ true
unfolding catalog_for
catalog_for_alive product = ground (
  arith,
  text_beq_iff product product_tms,
  text_beq_iff product product_fms,
  tms_alive,
  fms_alive,
  none_alive product,
)

-- No permission of any product is dead: what gates a known permission is either nothing or a
-- feature that a company can be granted in that product.
pub feature_for_sellable :
    (product key feature : Text)
    → feature_for product key ≡ some feature
    → (feature == [] || is_sellable_feature product feature) ≡ true
unfolding feature_for
feature_for_sellable product key feature =
    all_alive-lookup product key feature (catalog_for product) (catalog_for_alive product)
