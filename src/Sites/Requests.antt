-- ===== src/Sites/Requests.antt =====
-- internal/services/site_write.go: `CreateSite`, `UpdateSite` and `DeleteSite`.
use master_data.Shared.{
  ℕ, ◌+◌, ◌*◌, Bool, true, false, not, ◌&&◌, Option, none, some, List, [], ltb, if◌then◌else◌, ◌==◌,
  nat_eq, text_eq, Text, trim_space, Result, ok, err,
}
use master_data.Shared.{ℤ, pos, negsuc, attempt}
use master_data.Errors.{Error, not_found, validation, duplicate, failure}
use master_data.Mongo.{Mongo}
use master_data.Repository
use master_data.Sites.{Site, SiteInput, nil_if_blank, set_optional, set_texts, apply_pics, sites}

unfoldable pub is_positive : ℤ → Bool
is_positive (pos n) = ltb 0 n
is_positive (negsuc n) = false

abbrev pub default_radius : ℤ
default_radius = pos 200

unfoldable pub name_taken : {A : Type 0} → Result Error A → Result Error A
name_taken (err duplicate) = err validation
name_taken r = r

unfoldable pub radius_of : Option ℤ → ℤ → Result Error ℤ
unfolding is_positive
radius_of none old = ok old
radius_of (some r) old = if not (is_positive r) then err validation else ok r

unfoldable pub customer_of : Option Text → Option Text
unfolding nil_if_blank
customer_of none = none
customer_of (some c) = nil_if_blank c

-- A `float64` in units, of which `one` make up 1: with `2 ^ 1074` for `one` every finite number of the
-- type is a whole number of units. The infinities are the one below and the one above all numbers.
pub data Float64 : Type 0 where
  nan : Float64
  below_all above_all : Float64
  units : ℤ → Float64

-- `x < -n`.
unfoldable pub below_minus : ℕ → Float64 → ℕ → Bool
below_minus one nan n = false
below_minus one below_all n = true
below_minus one above_all n = false
below_minus one (units (pos k)) n = false
below_minus one (units (negsuc k)) n = ltb (one * n) (k + 1)

-- `x > n`.
unfoldable pub above : ℕ → Float64 → ℕ → Bool
above one nan n = false
above one below_all n = false
above one above_all n = true
above one (units (pos k)) n = ltb (one * n) k
above one (units (negsuc k)) n = false

-- `x == 0`.
unfoldable pub is_zero : Float64 → Bool
is_zero nan = false
is_zero below_all = false
is_zero above_all = false
is_zero (units (pos k)) = k == 0
is_zero (units (negsuc k)) = false

module _ (one : ℕ) where
  unfoldable pub on_earth : Float64 → Float64 → Bool
  unfolding below_minus above is_zero
  on_earth lat lon =
      not (below_minus one lat 90)
      && not (above one lat 90)
      && not (below_minus one lon 180)
      && not (above one lon 180)
      && not (is_zero lat && is_zero lon)

  unfoldable pub geo_point :
      Option Float64 → Option Float64 → Result Error (Option (Float64 × Float64))
  unfolding on_earth
  geo_point none none = ok none
  geo_point none (some lon) = err validation
  geo_point (some lat) none = err validation
  geo_point (some lat) (some lon) =
      if on_earth lat lon then ok (some (lon, lat)) else err validation

  unfoldable pub new_site : ℕ → Text → SiteInput Float64 → Site Float64
  unfolding set_texts set_optional customer_of
  new_site new_id company_id input = set_texts input (record {
    id = new_id;
    created_at = 0;
    updated_at = 0;
    deleted = false;
    company_id = company_id;
    site_type = input.site_type;
    name = trim_space input.name;
    name_normalised = [];
    address = none;
    street = none;
    district = none;
    city = none;
    province = none;
    postcode = none;
    location = none;
    geofence_radius = none;
    pics = [];
    pic_name = none;
    pic_phone = none;
    notes = set_optional input.notes none;
    pic_user_ids = [];
    customer_company_id = customer_of input.customer_company_id;
    is_active = true;
    attributes = none;
  })

  -- The new site, or what is wrong with the request.
  unfoldable pub built : (ℕ → Text) → ℕ → Text → SiteInput Float64 → Result Error (Site Float64)
  unfolding new_site radius_of
  built fresh new_id company_id input =
      if trim_space input.name == []
      then err validation
      else if company_id == []
      then err validation
      else attempt (apply_pics fresh input (new_site new_id company_id input)) (λ site.
        attempt (geo_point input.latitude input.longitude) (λ point.
          attempt (radius_of input.geofence_radius default_radius)
            (λ radius. ok (record site { location = point; geofence_radius = some radius }))))

  unfoldable pub moved :
      SiteInput Float64
      → Option Float64
      → Option Float64
      → Site Float64
      → Result Error (Site Float64)
  moved input none none site = ok site
  moved input lat lon site =
      attempt (geo_point lat lon) (λ point. ok (record site { location = point }))

  unfoldable pub resized : Option ℤ → Site Float64 → Result Error (Site Float64)
  unfolding is_positive
  resized none site = ok site
  resized (some r) site =
      if not (is_positive r) then err validation else ok (record site { geofence_radius = some r })

  unfoldable pub edited_texts : SiteInput Float64 → Site Float64 → Site Float64
  unfolding set_texts
  edited_texts input site = set_texts input (record site {
    name = if trim_space input.name == [] then site.name else trim_space input.name;
    site_type = if input.site_type == [] then site.site_type else input.site_type;
  })

  -- The customer of the site is not among what an update changes.
  unfoldable pub edited :
      (ℕ → Text) → SiteInput Float64 → Site Float64 → Result Error (Site Float64)
  unfolding edited_texts moved resized set_optional
  edited fresh input site = attempt (apply_pics fresh input (edited_texts input site)) (λ s.
      attempt
        (moved input input.latitude input.longitude
          (record s { notes = set_optional input.notes s.notes }))
        (resized input.geofence_radius))

  abbrev pub SiteOutcome : Type 0
  SiteOutcome = Result Error (Site Float64) × List (Site Float64)

  module _ (m : Mongo) where
    unfoldable pub stored_new : ℕ → Result Error (Site Float64) → List (Site Float64) → SiteOutcome
    unfolding name_taken
    stored_new now (err e) ds = (err e, ds)
    stored_new now (ok site) ds =
        let (r, ds') = Repository.create m sites now site ds in (name_taken r, ds')

    unfoldable pub create_site :
        (ℕ → Text) → ℕ → ℕ → Text → SiteInput Float64 → List (Site Float64) → SiteOutcome
    unfolding stored_new
    create_site fresh now new_id company_id input ds =
        stored_new now (built fresh new_id company_id input) ds

    abbrev pub own_site : ℕ → Text → Site Float64 → Bool
    own_site oid company_id s = s.id == oid && s.company_id == company_id && not s.deleted

    unfoldable pub stored_edit :
        ℕ → ℕ → Result Error (Site Float64) → List (Site Float64) → SiteOutcome
    unfolding name_taken
    stored_edit now oid (err e) ds = (err e, ds)
    stored_edit now oid (ok site) ds =
        let (r, ds') = Repository.update m sites now oid site ds in (name_taken r, ds')

    unfoldable pub edit_found :
        (ℕ → Text)
        → ℕ
        → ℕ
        → SiteInput Float64
        → Option (Option (Site Float64))
        → List (Site Float64)
        → SiteOutcome
    unfolding stored_edit
    edit_found fresh now oid input none ds = (err failure, ds)
    edit_found fresh now oid input (some none) ds = (err not_found, ds)
    edit_found fresh now oid input (some (some site)) ds =
        stored_edit now oid (edited fresh input site) ds

    unfoldable pub edit_at :
        (ℕ → Text) → ℕ → Text → SiteInput Float64 → Option ℕ → List (Site Float64) → SiteOutcome
    unfolding edit_found
    edit_at fresh now company_id input none ds = (err not_found, ds)
    edit_at fresh now company_id input (some oid) ds =
        edit_found fresh now oid input (m.find_one (own_site oid company_id) ds) ds

    unfoldable pub update_site :
        (ℕ → Text) → ℕ → Text → Text → SiteInput Float64 → List (Site Float64) → SiteOutcome
    unfolding edit_at
    update_site fresh now company_id id input ds =
        edit_at fresh now company_id input (m.from_hex id) ds

    unfoldable pub site_marked :
        List (Site Float64)
        → Option (ℕ × List (Site Float64))
        → Result Error (Unit {0}) × List (Site Float64)
    site_marked ds none = (err failure, ds)
    site_marked ds (some (n, ds')) = if n == 0 then (err not_found, ds') else (ok tt, ds')

    unfoldable pub delete_site_at :
        ℕ → Text → Option ℕ → List (Site Float64) → Result Error (Unit {0}) × List (Site Float64)
    unfolding site_marked
    delete_site_at now company_id none ds = (err not_found, ds)
    delete_site_at now company_id (some oid) ds = site_marked ds (
        m.update_one (own_site oid company_id)
          (λ (s : Site Float64). record s { deleted = true; updated_at = now }) ds)

    unfoldable pub delete_site :
        ℕ → Text → Text → List (Site Float64) → Result Error (Unit {0}) × List (Site Float64)
    unfolding delete_site_at
    delete_site now company_id id ds = delete_site_at now company_id (m.from_hex id) ds
