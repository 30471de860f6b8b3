-- ===== src/Authctx/Tests.antt =====
-- Runs of the permission checks and the witnesses of their theorems.
use master_data.Shared.{
  ◌≡◌, refl, inl, true, false, ◌&&◌, ◌||◌, Option, none, some, [], ◌∷◌, ◌++◌, map, if◌then◌else◌,
  ◌==◌, nat_eq, text_eq, exists, contains, Text, codes, text_beq, lookup,
}
use master_data.Authctx.Tables.{fms_catalog}
use master_data.Authctx.{
  ProductAccess, Principal, product_tms, product_fms, catalog_for, feature_for, has_permission,
  grantable_permissions, is_sellable_feature,
}
use master_data.Revocation.{Event, session, new_list, apply_all, replace}
use master_data.Revocation.History.{ends}
use master_data.Authctx.Middleware.{
  passed, unauthorized, malformed, TokenParser, verify, require_auth, require_module, Metadata,
}
use master_data.Authctx.Middleware.Decisions.{
  require_auth-ends, require_auth-remote, gate_answer, require_module_lem,
}
use master_data.Authctx.Grants.{
  granted, offers, has_permission-grantable, grantable_permissions_staff,
}
use master_data.Authctx.Gates.{feature_for_sellable}

abbrev viewer : ProductAccess
viewer = record {
  role = codes "operator";
  permissions = codes "fuel.view" ∷ codes "camera.view" ∷ [];
  features = codes "live" ∷ [];
  grants_all = false;
}

abbrev person : Principal
person = record {
  user_id = codes "u1";
  company_id = codes "c1";
  is_platform_staff = false;
  access = (product_fms, viewer) ∷ [];
  single_device = false;
  token_id = codes "t1";
}

abbrev karlo : Principal
karlo = record person { is_platform_staff = true }

-- `fuel.view` is gated by `live`.
fuel_allowed : has_permission person product_fms (codes "fuel.view") ≡ true
unfolding has_permission feature_for catalog_for fms_catalog text_beq lookup
fuel_allowed = refl

camera_refused : has_permission person product_fms (codes "camera.view") ≡ false
unfolding has_permission feature_for catalog_for fms_catalog text_beq lookup
camera_refused = refl

has_permission-grantable_example : has_permission person product_fms (codes "fuel.view") ≡ (
    granted (codes "fuel.view") (lookup product_fms person.access)
    && offers (codes "fuel.view") (grantable_permissions person product_fms))
has_permission-grantable_example =
    has_permission-grantable person product_fms (codes "fuel.view") refl

grantable_permissions_staff_example :
    grantable_permissions karlo product_tms ≡ map (λ b. b.1) (catalog_for product_tms)
grantable_permissions_staff_example = grantable_permissions_staff karlo product_tms refl

fuel_gate : feature_for product_fms (codes "fuel.view") ≡ some (codes "live")
unfolding feature_for catalog_for fms_catalog text_beq lookup
fuel_gate = refl

feature_for_sellable_example :
    (codes "live" == [] || is_sellable_feature product_fms (codes "live")) ≡ true
feature_for_sellable_example =
    feature_for_sellable product_fms (codes "fuel.view") (codes "live") fuel_gate

-- The one signed token.
read_token : TokenParser
read_token t = if t == codes "signed" then some (person, some 7) else none

signed : verify read_token (codes "signed") ≡ some (person, 7)
unfolding verify read_token text_beq
signed = refl

abbrev ended_session : Event
ended_session = record { kind = session; id = codes "t1"; at = 9 }

require_auth-ends_example :
    require_auth read_token none
      (some (apply_all (replace new_list []) (ended_session ∷ [])))
      (codes "signed")
    ≡ (if exists (ends (codes "t1") (codes "u1") (codes "c1") 7) ([] ++ ended_session ∷ [])
        then unauthorized
        else passed person)
require_auth-ends_example =
    require_auth-ends read_token none new_list [] (ended_session ∷ []) (codes "signed") person 7
      (λ e. cc) signed refl

remote_person : Text → Option Principal
remote_person t = some karlo

remote_asked : require_auth read_token (some remote_person) none (codes "other") ≡ passed karlo
unfolding require_auth read_token remote_person text_beq
remote_asked = refl

other_unsigned : verify read_token (codes "other") ≡ none
unfolding verify read_token text_beq
other_unsigned = refl

require_auth-remote_example :
    (validate : Text → Option Principal) × (some remote_person ≡ some validate)
    × (validate (codes "other") ≡ some karlo)
require_auth-remote_example =
    require_auth-remote read_token (some remote_person) none (codes "other") karlo person 7
      (inl other_unsigned) remote_asked

require_module_lem_example : require_module product_fms (codes "fuel.view") (some person) ≡ (
    if contains (codes "fuel.view") b'.'
    then gate_answer (λ p. has_permission p product_fms (codes "fuel.view")) (some person)
    else malformed)
require_module_lem_example = require_module_lem product_fms (codes "fuel.view") (some person)

abbrev incoming : Metadata
incoming = record { service_tokens = codes "s1" ∷ []; authorization = codes "Bearer signed" ∷ [] }
