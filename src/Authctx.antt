-- ===== src/Authctx.antt =====
-- internal/platform/authctx/product.go, principal.go, claims.go and features.go: who may do what.
-- A Go map is an association list, whose order stands for the order of iteration.
pub mod Tables
pub mod Grants
pub mod Gates
pub mod Middleware
mod Tests
use master_data.Shared.{
  Bool, true, false, not, ◌&&◌, ◌||◌, Option, none, some, List, [], ◌∷◌, ◌++◌, if◌then◌else◌, ◌==◌,
  nat_eq, text_eq, contains, Text, codes, lookup, insert,
}
use Tables.{
  PermissionSpec, Feature, FmsDef, tms_catalog, fms_catalog, tms_features, shared_features,
  fms_registry,
}

abbrev pub product_tms : Text
product_tms = codes "tms"

abbrev pub product_fms : Text
product_fms = codes "fms"

abbrev pub product_shared : Text
product_shared = codes "shared"

pub record ProductAccess : Type 0 where
  pub role : Text
  pub permissions : List Text
  pub features : List Text
  pub grants_all : Bool

pub record Principal : Type 0 where
  pub user_id : Text
  pub company_id : Text
  pub is_platform_staff : Bool
  pub access : List (Text × ProductAccess)
  pub single_device : Bool
  pub token_id : Text

-- `catalogs[product]`; a product with no catalogue has the empty one.
unfoldable pub catalog_for : Text → List (Text × PermissionSpec)
catalog_for product =
    if product == product_tms
    then tms_catalog
    else if product == product_fms
    then fms_catalog
    else []

feature_of : Option PermissionSpec → Option Text
feature_of none = none
feature_of (some spec) = some spec.feature

-- `none` is an unknown permission, `some []` an ungated one.
unfoldable pub feature_for : Text → Text → Option Text
unfolding feature_of
feature_for product key = feature_of (lookup key (catalog_for product))

unfoldable pub is_known_permission : Text → Text → Bool
is_known_permission product key = elim (lookup key (catalog_for product)) [
  | none ↦ false
  | some spec ↦ true
]

-- The loop of `FeaturesFor`; `seen` and `out` hold the same features.
features_loop : List (Text × PermissionSpec) → List Text → List Text
features_loop [] out = out
features_loop ((key, spec) ∷ catalog) out =
    features_loop catalog
      (if spec.feature == [] || contains out spec.feature then out else out ++ spec.feature ∷ [])

unfoldable pub features_for : Text → List Text
unfolding features_loop
features_for product = features_loop (catalog_for product) []

-- `feature == ""` or the company holds it.
gate : List Text → Option Text → Bool
gate features none = false
gate features (some feature) = if feature == [] then true else contains features feature

has_access : Text → Text → Option ProductAccess → Bool
unfolding gate
has_access product key none = false
has_access product key (some access) =
    if not access.grants_all && not (contains access.permissions key)
    then false
    else gate access.features (feature_for product key)

unfoldable pub has_permission : Principal → Text → Text → Bool
unfolding has_access
has_permission p product key =
    if p.is_platform_staff then true else has_access product key (lookup product p.access)

unfoldable pub has_product : Principal → Text → Bool
has_product p product =
    if p.is_platform_staff
    then true
    else elim (lookup product p.access) [ none ↦ false | some access ↦ true ]

-- `p.Access[product].Role`: the zero value for a product that is not there.
unfoldable pub role_in : Principal → Text → Text
role_in p product = elim (lookup product p.access) [ none ↦ [] | some access ↦ access.role ]

features_in : Option ProductAccess → List Text
features_in none = []
features_in (some access) = access.features

unfoldable pub company_has_feature : Principal → Text → Text → Bool
unfolding features_in
company_has_feature p product feature =
    if p.is_platform_staff then true else contains (features_in (lookup product p.access)) feature

-- `HasRole`, with the service's own product.
unfoldable pub has_role : Text → Principal → List Text → Bool
unfolding role_in
has_role service_product p roles =
    if p.is_platform_staff
    then true
    else if role_in p service_product == []
    then false
    else contains roles (role_in p service_product)

-- The loop of `GrantableFrom` over a catalogue.
grantable_loop : List Text → List (Text × PermissionSpec) → List PermissionSpec
grantable_loop held [] = []
grantable_loop held ((key, spec) ∷ catalog) =
    if spec.feature == [] || contains held spec.feature
    then spec ∷ grantable_loop held catalog
    else grantable_loop held catalog

unfoldable pub grantable_from : Text → List Text → List PermissionSpec
unfolding grantable_loop
grantable_from product held = grantable_loop held (catalog_for product)

unfoldable pub grantable_permissions : Principal → Text → List PermissionSpec
grantable_permissions p product =
    if p.is_platform_staff
    then grantable_from product (features_for product)
    else elim (lookup product p.access) [
      | none ↦ []
      | some access ↦ grantable_from product access.features
    ]

-- `decodeFMSRegistry`.
unfoldable pub decode_fms_registry : Bool → List FmsDef → List Feature
decode_fms_registry live_only [] = []
decode_fms_registry live_only (d ∷ defs) =
    if live_only && d.dev
    then decode_fms_registry live_only defs
    else record {
      name = d.key;
      owner = product_fms;
      description = d.label;
      parent = d.parent;
      roadmap = d.dev;
    }
      ∷ decode_fms_registry live_only defs

-- `for _, f := range fs { out[f.Name] = f }`.
add_features : List Feature → List (Text × Feature) → List (Text × Feature)
add_features [] out = out
add_features (f ∷ fs) out = add_features fs (insert f.name f out)

-- `featureRegistry[product]`.
unfoldable pub feature_registry : Text → List (Text × Feature)
unfolding add_features
feature_registry product =
    if product == product_tms
    then add_features shared_features (add_features tms_features [])
    else if product == product_fms
    then add_features shared_features (add_features (decode_fms_registry true fms_registry) [])
    else if product == product_shared
    then add_features shared_features []
    else []

unfoldable pub is_sellable_feature : Text → Text → Bool
is_sellable_feature product name = elim (lookup name (feature_registry product)) [
  | none ↦ false
  | some feature ↦ true
]
