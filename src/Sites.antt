-- ===== src/Sites.antt =====
-- internal/services/site_write.go: a company's sites, with the people in charge of each (`Pic`). A
-- coordinate is of any type of numbers with the tests that the code makes.
pub mod People
pub mod Requests
pub mod Writes
pub mod Collection
mod Tests
use master_data.Shared.{
  ℕ, suc, Bool, true, false, not, ◌&&◌, ◌||◌, Option, none, some, List, [], ◌∷◌, ◌++◌,
  if◌then◌else◌, ◌==◌, nat_eq, text_eq, first, exists, Text, codes, trim_space, Result, ok, err,
}
use master_data.Shared.{ℤ, attempt}
use master_data.Errors.{Error, validation}
use master_data.Models.{Attributes}
use master_data.Repository
use master_data.Repository.{Stored}
use master_data.Normalise.{name}

-- `SitePIC`.
pub record SitePic : Type 0 where
  pub id : Text
  pub name : Text
  pub phone : Text
  pub is_default : Bool

pub record Site (F : Type 0) : Type 0 where
  pub id : ℕ
  pub created_at : ℕ
  pub updated_at : ℕ
  pub deleted : Bool
  pub company_id : Text
  pub site_type : Text
  pub name : Text
  pub name_normalised : Text
  pub address : Option Text
  pub street : Option Text
  pub district : Option Text
  pub city : Option Text
  pub province : Option Text
  pub postcode : Option Text
  -- The longitude, then the latitude.
  pub location : Option (F × F)
  pub geofence_radius : Option ℤ
  pub pics : List SitePic
  pub pic_name : Option Text
  pub pic_phone : Option Text
  pub notes : Option Text
  pub pic_user_ids : List Text
  pub customer_company_id : Option Text
  pub is_active : Bool
  pub attributes : Option Attributes

pub record SiteInput (F : Type 0) : Type 0 where
  pub name : Text
  pub site_type : Text
  pub address : Text
  pub street : Text
  pub district : Text
  pub city : Text
  pub province : Text
  pub postcode : Text
  pub latitude : Option F
  pub longitude : Option F
  pub geofence_radius : Option ℤ
  pub pic_phone : Text
  pub pic_name : Text
  pub pics : Option (List SitePic)
  pub notes : Text
  pub customer_company_id : Option Text

unfoldable pub nil_if_blank : Text → Option Text
nil_if_blank v = if trim_space v == [] then none else some (trim_space v)

-- `setOptional`: a blank text leaves the field.
unfoldable pub set_optional : Text → Option Text → Option Text
set_optional value target = if trim_space value == [] then target else some (trim_space value)

or_new : Text → Text → Text
or_new minted id = if id == [] then minted else id

abbrev cons_pic : SitePic → Result Error (List SitePic) → Result Error (List SitePic)
cons_pic p (err e) = err e
cons_pic p (ok ps) = ok (p ∷ ps)

-- The loop over the list that was sent; `fresh n` is the id minted for its n-th person.
given_pics : (ℕ → Text) → ℕ → Bool → List SitePic → Result Error (List SitePic)
unfolding or_new
given_pics fresh n seen [] = ok []
given_pics fresh n seen (p ∷ ps) =
    let skipped = given_pics fresh (suc n) seen ps in
    let kept = given_pics fresh (suc n) (seen || p.is_default) ps in
    if trim_space p.name == [] && trim_space p.phone == []
    then skipped
    else if trim_space p.name == []
    then err validation
    else cons_pic
        (record {
          id = or_new (fresh n) (trim_space p.id);
          name = trim_space p.name;
          phone = trim_space p.phone;
          is_default = p.is_default && not seen;
        })
        kept

abbrev pub is_default_pic : SitePic → Bool
is_default_pic p = p.is_default

first_default : List SitePic → List SitePic
first_default [] = []
first_default (p ∷ ps) = record p { is_default = true } ∷ ps

-- `if len(list) > 0 && !defaultSeen { list[0].IsDefault = true }`.
with_default : List SitePic → List SitePic
unfolding first_default
with_default ps = if exists is_default_pic ps then ps else first_default ps

no_default : List SitePic → List SitePic
no_default [] = []
no_default (p ∷ ps) = record p { is_default = false } ∷ no_default ps

or_keep : Text → Text → Text
or_keep v old = if v == [] then old else v

-- The first default person gets the texts that are not empty.
rename_default : Text → Text → List SitePic → List SitePic
unfolding or_keep
rename_default name phone [] = []
rename_default name phone (p ∷ ps) =
    if p.is_default
    then record p { name = or_keep name p.name; phone = or_keep phone p.phone } ∷ ps
    else p ∷ rename_default name phone ps

-- The old console's two fields, `PICName` and `PICPhone`.
single_pic : Text → Text → Text → List SitePic → List SitePic
unfolding rename_default no_default or_keep
single_pic minted name phone pics =
    if exists is_default_pic pics
    then rename_default name phone pics
    else no_default pics
      ++ record {
        id = minted;
        name = if name == [] then codes "PIC" else name;
        phone = phone;
        is_default = true;
      }
        ∷ []

pub mirrored : (SitePic → Text) → Option SitePic → Option Text
unfolding nil_if_blank
mirrored f none = none
mirrored f (some p) = nil_if_blank (f p)

abbrev pub default_of : List SitePic → Option SitePic
default_of ps = first is_default_pic ps

module _ {F : Type 0} where
  new_pics :
      (ℕ → Text) → SiteInput F → Option (List SitePic) → List SitePic → Result Error (List SitePic)
  unfolding given_pics with_default single_pic
  new_pics fresh input (some given) old =
      attempt (given_pics fresh 0 false given) (λ ps. ok (with_default ps))
  new_pics fresh input none old =
      if trim_space input.pic_name == [] && trim_space input.pic_phone == []
      then ok old
      else ok (single_pic (fresh 0) (trim_space input.pic_name) (trim_space input.pic_phone) old)

  -- The two flat fields repeat the default person.
  unfoldable pub with_pics : List SitePic → Site F → Site F
  unfolding mirrored
  with_pics ps site = record site {
    pics = ps;
    pic_name = mirrored (λ (p : SitePic). p.name) (default_of ps);
    pic_phone = mirrored (λ (p : SitePic). p.phone) (default_of ps);
  }

  unfoldable pub apply_pics : (ℕ → Text) → SiteInput F → Site F → Result Error (Site F)
  unfolding new_pics with_pics
  apply_pics fresh input site =
      attempt (new_pics fresh input input.pics site.pics) (λ ps. ok (with_pics ps site))

  -- What the six lines of `setOptional` do.
  set_texts : SiteInput F → Site F → Site F
  unfolding set_optional
  set_texts input site = record site {
    address = set_optional input.address site.address;
    street = set_optional input.street site.street;
    district = set_optional input.district site.district;
    city = set_optional input.city site.city;
    province = set_optional input.province site.province;
    postcode = set_optional input.postcode site.postcode;
  }

  unfoldable pub site_before_write : Site F → Site F
  site_before_write s = record s {
    name_normalised = name s.name;
    site_type = if s.site_type == [] then codes "warehouse" else s.site_type;
  }

  abbrev pub sites : Stored (Site F)
  sites = record {
    before_write = site_before_write;
    validate = λ s. none;
    stamp = λ now creating s. record s {
      created_at = if creating then now else s.created_at;
      updated_at = now;
    };
    id_of = λ s. s.id;
    company_of = λ s. some s.company_id;
    is_deleted = λ s. s.deleted;
    mark_deleted = λ now s. record s { deleted = true; updated_at = now };
  }
