-- ===== src/Sites/Writes.antt =====
-- Every site that `CreateSite`, `UpdateSite` and `DeleteSite` leave, and the sites that they leave
-- alone.
use master_data.Shared.{
  ℕ, ◌+◌, ◌*◌, ◌≤◌, ◌⊎◌, ◌&&◌, arith, zero, suc, ◌≡◌, refl, sym, subst, ◌∙◌, ◌≢◌, inl, inr, Bool,
  true, false, Option, none, some, List, [], ◌∷◌, Bool-cases, ◌==◌, nat_eq, text_eq, ==_refl, alter,
  All, Text, trim_space, Result, ok,
}
use master_data.Shared.{ℤ, pos, negsuc, attempt}
use master_data.Errors.{Error}
use master_data.Mongo.{IsIn}
use master_data.Sites.{Site, SiteInput, set_optional, apply_pics, set_texts}
use master_data.Sites.Requests.{
  Float64, nan, below_all, above_all, units, below_minus, above, is_zero, is_positive,
  default_radius, radius_of, on_earth, geo_point, new_site, built, moved, resized, edited_texts,
  edited,
}
use master_data.Sites.People.{OneDefault, Mirrors, attempt-ok, apply_pics-OneDefault}

-- A request for one of the three writes.
pub data SiteWrite : Type 0 where
  create_request : ℕ → SiteInput Float64 → SiteWrite
  update_request : Text → SiteInput Float64 → SiteWrite
  delete_request : Text → SiteWrite

pub All-alter :
    {A : Type 0} {P : A → Type 0} (q : A → Bool) (f : A → A) (xs : List A)
    → ((a : A) → P a → P (f a))
    → All P xs
    → All P (alter q f xs)
All-alter q f [] g h = tt
All-alter q f (x ∷ xs) g (p, h) = elim (Bool-cases (q x)) [
  | inl e ↦ rw e (g x p, All-alter q f xs g h)
  | inr e ↦ rw e (p, All-alter q f xs g h)
]

pub All-IsIn : {A : Type 0} (P : A → Type 0) (xs : List A) (a : A) → All P xs → IsIn a xs → P a
All-IsIn P [] a h i = elim i [ ]
All-IsIn P (x ∷ xs) a (p, h) (inl e) = subst P (sym e) p
All-IsIn P (x ∷ xs) a (p, h) (inr i) = All-IsIn P xs a h i

-- Without its sign.
abbrev pub magnitude : ℤ → ℕ
magnitude (pos k) = k
magnitude (negsuc k) = k + 1

-- From `-n` to `n`, or not a number.
abbrev pub Within : ℕ → ℕ → Float64 → Type 0
Within one n nan = Unit
Within one n below_all = ⊥
Within one n above_all = ⊥
Within one n (units v) = magnitude v ≤ one * n

bounds-Within :
    (one n : ℕ) (x : Float64) → below_minus one x n ≡ false → above one x n ≡ false → Within one n x
unfolding below_minus above
bounds-Within one n nan h k = tt
bounds-Within one n below_all h k = cc
bounds-Within one n above_all h k = cc
bounds-Within one n (units (pos v)) h k = ground arith
bounds-Within one n (units (negsuc v)) h k = ground arith

not_origin :
    (lat lon : Float64)
    → (is_zero lat && is_zero lon) ≡ false
    → (lat ≢ units (pos 0)) ⊎ (lon ≢ units (pos 0))
unfolding is_zero
not_origin lat lon h = elim (Bool-cases (is_zero lat)) [
  | inr e ↦ inl (off lat e)
  | inl e ↦ let z = rw e at h in inr (off lon z)
]
  where
    off : (x : Float64) → is_zero x ≡ false → x ≢ units (pos 0)
    off x q r = let y = rw r at q in cc

on_earth-parts :
    (one : ℕ) (lat lon : Float64)
    → on_earth one lat lon ≡ true
    → Within one 90 lat × Within one 180 lon × ((lat ≢ units (pos 0)) ⊎ (lon ≢ units (pos 0)))
unfolding on_earth
on_earth-parts one lat lon h = (
  bounds-Within one 90 lat (ground arith) (ground arith),
  bounds-Within one 180 lon (ground arith) (ground arith),
  not_origin lat lon (ground arith),
)

positive : (r : ℤ) → is_positive r ≡ true → (n : ℕ) × (r ≡ pos (suc n))
unfolding is_positive
positive (pos zero) h = cc
positive (pos (suc n)) h = (n, refl)
positive (negsuc n) h = cc

module _ (one : ℕ) where
  abbrev pub PlaceRight : Option (Float64 × Float64) → Type 0
  PlaceRight none = Unit
  PlaceRight (some (lon, lat)) =
      Within one 90 lat × Within one 180 lon × ((lat ≢ units (pos 0)) ⊎ (lon ≢ units (pos 0)))

  abbrev pub RadiusRight : Option ℤ → Type 0
  RadiusRight none = Unit
  RadiusRight (some r) = (n : ℕ) × (r ≡ pos (suc n))

  -- A site belongs to a company, has one default person or nobody, repeats that person in its flat
  -- fields, if it lies anywhere has a latitude from -90 to 90 and a longitude from -180 to 180 that are not
  -- both 0, and has a radius above 0 if it has one. A coordinate that is not a number passes.
  abbrev pub SiteRight : Site Float64 → Type 0
  SiteRight s =
      OneDefault s.pics
      × Mirrors s
      × (s.company_id ≢ [])
      × PlaceRight s.location
      × RadiusRight s.geofence_radius

  geo_point-PlaceRight :
      (lat lon : Option Float64) (p : Option (Float64 × Float64))
      → geo_point one lat lon ≡ ok p
      → PlaceRight p
  unfolding geo_point
  geo_point-PlaceRight none none p h = let e : none ≡ p = cc in subst PlaceRight e tt
  geo_point-PlaceRight none (some lon) p h = cc
  geo_point-PlaceRight (some lat) none p h = cc
  geo_point-PlaceRight (some lat) (some lon) p h = elim (Bool-cases (on_earth one lat lon)) [
    | inl e ↦
        let z = rw e at h in
        let q : some (lon, lat) ≡ p = cc in subst PlaceRight q (on_earth-parts one lat lon e)
    | inr e ↦ let z = rw e at h in cc
  ]

  radius_of-RadiusRight :
      (r : Option ℤ) (x : ℤ) → radius_of r default_radius ≡ ok x → RadiusRight (some x)
  unfolding radius_of is_positive
  radius_of-RadiusRight none x h =
      let e : default_radius ≡ x = cc in positive x (subst (λ z. is_positive z ≡ true) e refl)
  radius_of-RadiusRight (some r) x h = elim (Bool-cases (is_positive r)) [
    | inl e ↦
        let z = rw e at h in
        let q : r ≡ x = cc in positive x (subst (λ y. is_positive y ≡ true) q e)
    | inr e ↦ let z = rw e at h in cc
  ]

  pub built-SiteRight :
      (fresh : ℕ → Text) (new_id : ℕ) (company_id : Text) (input : SiteInput Float64)
      (s : Site Float64)
      → built one fresh new_id company_id input ≡ ok s
      → SiteRight s × (s.company_id ≡ company_id)
  unfolding built new_site set_texts
  built-SiteRight fresh new_id company_id input s h =
      elim (Bool-cases (trim_space input.name == [])) [
        | inl e ↦ let z = rw e at h in cc
        | inr e ↦
            let z = rw e at h in
            elim (Bool-cases (company_id == [])) [
              | inl g ↦ let y = rw g at z in cc
              | inr g ↦
                  let y = rw g at z in
                  let (a, qa, ka) =
                    attempt-ok (apply_pics fresh input (new_site one new_id company_id input)) _ s
                      y in
                  let (b, qb, kb) =
                    attempt-ok (geo_point one input.latitude input.longitude) _ s ka in
                  let (c, qc, kc) =
                    attempt-ok (radius_of input.geofence_radius default_radius) _ s kb in
                  let people =
                    apply_pics-OneDefault fresh input (new_site one new_id company_id input) a qa
                      tt in
                  let k : record a { location = b; geofence_radius = some c } ≡ s = cc in
                  subst (λ (x : Site Float64). SiteRight x × (x.company_id ≡ company_id)) k
                    (
                      (
                        people.0,
                        people.1,
                        λ n. not-blank company_id g (sym people.2 ∙ n),
                        geo_point-PlaceRight input.latitude input.longitude b qb,
                        radius_of-RadiusRight input.geofence_radius c qc,
                      ),
                      people.2,
                    )
            ]
      ]
    where
      not-blank : (t : Text) → (t == []) ≡ false → t ≡ [] → ⊥
      not-blank t e q = let z = rw (q, ==_refl {K = Text} []) at e in cc

  resized-SiteRight :
      (r : Option ℤ) (s s' : Site Float64)
      → SiteRight s
      → resized one r s ≡ ok s'
      → SiteRight s' × (s'.company_id ≡ s.company_id)
  unfolding resized
  resized-SiteRight none s s' o h =
      let k : s ≡ s' = cc in
      subst (λ (x : Site Float64). SiteRight x × (x.company_id ≡ s.company_id)) k (o, refl)
  resized-SiteRight (some r) s s' o h = elim (Bool-cases (is_positive r)) [
    | inr e ↦ let z = rw e at h in cc
    | inl e ↦
        let z = rw e at h in
        let k : record s { geofence_radius = some r } ≡ s' = cc in
        subst (λ (x : Site Float64). SiteRight x × (x.company_id ≡ s.company_id)) k
          ((o.0, o.1, o.2, o.3, positive r e), refl)
  ]

  moved-SiteRight :
      (input : SiteInput Float64) (lat lon : Option Float64) (s s' : Site Float64)
      → SiteRight s
      → moved one input lat lon s ≡ ok s'
      → SiteRight s' × (s'.company_id ≡ s.company_id)
  unfolding moved
  moved-SiteRight input lat lon s s' o h = by_point lat lon h
    where
      placed :
          (p : Option (Float64 × Float64))
          → PlaceRight p
          → ◌≡◌ {A = Result Error (Site Float64)} (ok (record s { location = p })) (ok s')
          → SiteRight s' × (s'.company_id ≡ s.company_id)
      placed p q k =
          let e : record s { location = p } ≡ s' = cc in
          subst (λ (x : Site Float64). SiteRight x × (x.company_id ≡ s.company_id)) e
            ((o.0, o.1, o.2, q, o.4), refl)

      set :
          (a b : Option Float64)
          → attempt (geo_point one a b) (λ point. ok (record s { location = point })) ≡ ok s'
          → SiteRight s' × (s'.company_id ≡ s.company_id)
      set a b k =
          let (p, q, z) =
            attempt-ok (geo_point one a b) (λ point. ok (record s { location = point })) s' k in
          placed p (geo_point-PlaceRight a b p q) z

      by_point :
          (a b : Option Float64)
          → moved one input a b s ≡ ok s'
          → SiteRight s' × (s'.company_id ≡ s.company_id)
      by_point none none k =
          let e : s ≡ s' = cc in
          subst (λ (x : Site Float64). SiteRight x × (x.company_id ≡ s.company_id)) e (o, refl)
      by_point (some a) b k = set (some a) b k
      by_point none (some b) k = set none (some b) k

  pub edited-SiteRight :
      (fresh : ℕ → Text) (input : SiteInput Float64) (s s' : Site Float64)
      → SiteRight s
      → edited one fresh input s ≡ ok s'
      → SiteRight s' × (s'.company_id ≡ s.company_id)
  unfolding edited edited_texts set_texts
  edited-SiteRight fresh input s s' o h =
      let start = edited_texts one input s in
      let (a, qa, ka) = attempt-ok (apply_pics fresh input start) _ s' h in
      let people = apply_pics-OneDefault fresh input start a qa o.0 in
      let noted : Site Float64 = record a { notes = set_optional input.notes a.notes } in
      let (b, qb, kb) =
        attempt-ok (moved one input input.latitude input.longitude noted)
          (resized one input.geofence_radius) s' ka in
      let right : SiteRight noted = (
        people.0,
        people.1,
        λ n. o.2 (sym people.2 ∙ n),
        subst PlaceRight (sym people.3) o.3,
        subst RadiusRight (sym people.4) o.4,
      ) in
      let (rb, cb) = moved-SiteRight input input.latitude input.longitude noted b right qb in
      let (rc, cc') = resized-SiteRight input.geofence_radius b s' rb kb in
      (rc, cc' ∙ cb ∙ people.2)
