-- ===== src/Authctx/Grants.antt =====
-- What an administrator may grant, against what the holder of a permission may do.
use master_data.Shared.{
  ◌≡◌, refl, ◌⊎◌, inl, inr, Bool, true, false, not, ◌&&◌, ◌||◌, Option, none, some, List, [], ◌∷◌,
  ◌++◌, map, arith, if◌then◌else◌, Bool-cases, ◌==◌, nat_eq, text_eq, exists, All, exists-append,
  contains, Text, text_beq, text_beq_iff, lookup,
}
use master_data.Authctx.Tables.{PermissionSpec, tms_catalog, fms_catalog}
use master_data.Authctx.{
  ProductAccess, Principal, catalog_for, feature_of, feature_for, features_loop, features_for, gate,
  has_access, has_permission, grantable_loop, grantable_from, grantable_permissions,
}

-- Each entry stands under its own key, once.
keyed : List (Text × PermissionSpec) → Bool
keyed [] = true
keyed ((k, s) ∷ c) = s.key == k && not (exists (λ b. b.0 == k) c) && keyed c

catalog_for-keyed : (product : Text) → keyed (catalog_for product) ≡ true
catalog_for-keyed product = unfold catalog_for in ground (arith, tms_keyed, fms_keyed, none_keyed)
  where
    none_keyed : keyed [] ≡ true
    none_keyed = unfold keyed in refl

    tms_keyed : keyed tms_catalog ≡ true
    tms_keyed = unfold keyed tms_catalog text_beq in refl

    fms_keyed : keyed fms_catalog ≡ true
    fms_keyed = unfold keyed fms_catalog text_beq in refl

-- Whether the permission stands in a list of specifications.
abbrev pub offers : Text → List PermissionSpec → Bool
offers key specs = exists (λ s. s.key == key) specs

offers_absent :
    (held : List Text) (key : Text) (c : List (Text × PermissionSpec))
    → keyed c ≡ true
    → exists (λ b. b.0 == key) c ≡ false
    → offers key (grantable_loop held c) ≡ false
unfolding grantable_loop keyed
offers_absent held key [] w h = refl
offers_absent held key ((k, s) ∷ c) w h = ground (
  arith,
  text_beq_iff s.key k,
  text_beq_iff s.key key,
  text_beq_iff k key,
  offers_absent held key c,
)

offers-grantable_loop :
    (held : List Text) (key : Text) (c : List (Text × PermissionSpec))
    → keyed c ≡ true
    → offers key (grantable_loop held c) ≡ gate held (feature_of (lookup key c))
unfolding grantable_loop keyed lookup gate feature_of
offers-grantable_loop held key [] w = refl
offers-grantable_loop held key ((k, s) ∷ c) w = ground (
  arith,
  text_beq_iff s.key k,
  text_beq_iff s.key key,
  text_beq_iff k key,
  offers-grantable_loop held key c,
  offers_absent held key c,
)

offers-grantable_from :
    (product key : Text) (held : List Text)
    → offers key (grantable_from product held) ≡ gate held (feature_for product key)
unfolding grantable_from feature_for
offers-grantable_from product key held =
    offers-grantable_loop held key (catalog_for product) (catalog_for-keyed product)

-- Granted to the person: by the role, or by name.
abbrev pub granted : Text → Option ProductAccess → Bool
granted key none = false
granted key (some access) = access.grants_all || contains access.permissions key

has_access-granted :
    (product key : Text) (o : Option ProductAccess)
    → has_access product key o ≡ (
        granted key o
        && offers key (elim o [ none ↦ [] | some access ↦ grantable_from product access.features ]))
unfolding has_access
has_access-granted product key none = refl
has_access-granted product key (some access) =
    ground (arith, offers-grantable_from product key access.features)

-- For everyone but platform staff, an action is allowed exactly when it is granted to the person
-- and stands in the list that the company's administrator may assign from. So the editor offers
-- no key that is refused later, and no key outside it is ever allowed.
pub has_permission-grantable :
    (p : Principal) (product key : Text)
    → p.is_platform_staff ≡ false
    → has_permission p product key
      ≡ (granted key (lookup product p.access) && offers key (grantable_permissions p product))
unfolding has_permission grantable_permissions
has_permission-grantable p product key h =
    rw (h, has_access-granted product key (lookup product p.access)) refl

contains-append_self : (out : List Text) (f : Text) → contains (out ++ f ∷ []) f ≡ true
contains-append_self out f =
    ground (arith, exists-append (λ x. x == f) out (f ∷ []), text_beq_iff f f)

features_loop_keeps :
    (c : List (Text × PermissionSpec)) (out : List Text) (f : Text)
    → contains out f ≡ true
    → contains (features_loop c out) f ≡ true
unfolding features_loop
features_loop_keeps [] out f h = h
features_loop_keeps ((k, s) ∷ c) out f h =
    features_loop_keeps c _ f (ground (arith, exists-append (λ x. x == f) out (s.feature ∷ [])))

-- Every gate of the catalogue is held.
abbrev Covered : List Text → List (Text × PermissionSpec) → Type 0
Covered held = All (λ b. (b.1.feature == [] || contains held b.1.feature) ≡ true)

features_loop-Covered :
    (c : List (Text × PermissionSpec)) (out : List Text) → Covered (features_loop c out) c
unfolding features_loop
features_loop-Covered [] out = tt
features_loop-Covered ((k, s) ∷ c) out = (
  gate_held (Bool-cases (s.feature == [])) (Bool-cases (contains out s.feature)),
  features_loop-Covered c
      (if s.feature == [] || contains out s.feature then out else out ++ s.feature ∷ []),
)
  where
    next : List Text
    next = if s.feature == [] || contains out s.feature then out else out ++ s.feature ∷ []

    gate_held :
        ((s.feature == []) ≡ true) ⊎ ((s.feature == []) ≡ false)
        → (contains out s.feature ≡ true) ⊎ (contains out s.feature ≡ false)
        → (s.feature == [] || contains (features_loop c next) s.feature) ≡ true
    gate_held (inl e) _ = rw e
    gate_held (inr e) (inl h) = ground (arith, features_loop_keeps c next s.feature)
    gate_held (inr e) (inr h) =
        ground (arith, contains-append_self out s.feature, features_loop_keeps c next s.feature)

grantable_loop-Covered :
    (held : List Text) (c : List (Text × PermissionSpec))
    → Covered held c
    → grantable_loop held c ≡ map (λ b. b.1) c
unfolding grantable_loop
grantable_loop-Covered held [] h = refl
grantable_loop-Covered held ((k, s) ∷ c) (h, hs) = ground (arith, grantable_loop-Covered held c hs)

-- Platform staff may assign the whole catalogue of a product.
pub grantable_permissions_staff :
    (p : Principal) (product : Text)
    → p.is_platform_staff ≡ true
    → grantable_permissions p product ≡ map (λ b. b.1) (catalog_for product)
unfolding grantable_permissions grantable_from features_for
grantable_permissions_staff p product h = rw h (
    grantable_loop-Covered _ (catalog_for product) (features_loop-Covered (catalog_for product) []))
