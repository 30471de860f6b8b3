-- ===== src/Sites/Tests.antt =====
-- Runs of site_write.go and the witnesses of its theorems. A coordinate is in whole degrees.
use master_data.Shared.{
  ℕ, ◌+◌, ◌≡◌, refl, true, false, not, none, some, List, [], ◌∷◌, arith, ◌==◌, nat_eq, text_eq,
  keep, All, Text, codes, text_beq, trim_space, ok,
}
use master_data.Shared.{pos, negsuc}
use master_data.Sites.{SitePic, Site, SiteInput, mirrored, with_pics, apply_pics}
use master_data.Sites.Requests.{Float64, units}
use master_data.Mongo.Memory.{in_memory}
use master_data.Sites.People.{OneDefault, Mirrors, apply_pics-OneDefault}
use master_data.Sites.Writes.{update_request, SiteRight}
use master_data.Sites.Collection.{run_site, UniqueSites, run_site-SiteRight, run_site_leaves}

abbrev person : SitePic
person = record { id = []; name = codes " Sari "; phone = codes "081"; is_default = false }

abbrev asked : SiteInput Float64
asked = record {
  name = codes "Depot";
  site_type = [];
  address = [];
  street = [];
  district = [];
  city = codes "Jakarta";
  province = [];
  postcode = [];
  latitude = some (units (negsuc 5));
  longitude = some (units (pos 107));
  geofence_radius = none;
  pic_phone = [];
  pic_name = [];
  pics =
      some
        (person ∷ record person { is_default = true } ∷ record person { is_default = true } ∷ []);
  notes = [];
  customer_company_id = none;
}

abbrev mint : ℕ → Text
mint n = (n + 48) ∷ []

abbrev blank_site : Text → Site Float64
blank_site company_id = record {
  id = 1;
  created_at = 0;
  updated_at = 0;
  deleted = false;
  company_id = company_id;
  site_type = codes "warehouse";
  name = codes "Old";
  name_normalised = codes "old";
  address = none;
  street = none;
  district = none;
  city = none;
  province = none;
  postcode = none;
  location = none;
  geofence_radius = none;
  pics = [];
  pic_name = none;
  pic_phone = none;
  notes = none;
  pic_user_ids = [];
  customer_company_id = none;
  is_active = true;
  attributes = none;
}

abbrev peopled : Site Float64
peopled =
    with_pics
      (record { id = codes "0"; name = codes "Sari"; phone = codes "081"; is_default = false }
        ∷ record { id = codes "1"; name = codes "Sari"; phone = codes "081"; is_default = true }
        ∷ record { id = codes "2"; name = codes "Sari"; phone = codes "081"; is_default = false }
        ∷ [])
      (blank_site (codes "c1"))

applied : apply_pics mint asked (blank_site (codes "c1")) ≡ ok peopled
unfolding apply_pics text_beq trim_space
applied = refl

apply_pics-OneDefault_example :
    OneDefault peopled.pics
    × Mirrors peopled
    × (peopled.company_id ≡ codes "c1")
    × (peopled.location ≡ none)
    × (peopled.geofence_radius ≡ none)
apply_pics-OneDefault_example =
    apply_pics-OneDefault mint asked (blank_site (codes "c1")) peopled applied tt

abbrev two_sites : List (Site Float64)
two_sites = blank_site (codes "c1") ∷ record (blank_site (codes "c2")) { id = 2 } ∷ []

unique_sites : UniqueSites 1 in_memory mint two_sites
unique_sites oid = ground arith

right_sites : All (SiteRight 1) two_sites
unfolding mirrored
right_sites = ((tt, (refl, refl), λ e. cc, tt, tt), ((tt, (refl, refl), λ e. cc, tt, tt), tt))

run_site-SiteRight_example :
    All
      (SiteRight 1)
      (run_site 1 in_memory mint 9 (codes "c1") (update_request (101 ∷ []) asked) two_sites)
run_site-SiteRight_example =
    run_site-SiteRight 1 in_memory mint 9 (codes "c1") (update_request (101 ∷ []) asked) two_sites
      unique_sites right_sites

run_site_leaves_example :
    keep
      (λ (s : Site Float64). not (s.company_id == codes "c1"))
      (run_site 1 in_memory mint 9 (codes "c1") (update_request (101 ∷ []) asked) two_sites)
    ≡ keep (λ (s : Site Float64). not (s.company_id == codes "c1")) two_sites
run_site_leaves_example =
    run_site_leaves 1 in_memory mint 9 (codes "c1") (update_request (101 ∷ []) asked) two_sites
      unique_sites right_sites
