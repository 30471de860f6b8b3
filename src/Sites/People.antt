-- ===== src/Sites/People.antt =====
-- The people in charge of a site after `ApplyPICs`.
use master_data.Shared.{
  ℕ, suc, ◌≤◌, ◌<◌, ◌≡◌, refl, subst, ◌∙◌, inl, inr, Bool, true, false, not, ◌&&◌, ◌||◌, Option,
  none, some, List, [], ◌∷◌, ◌++◌, arith, if◌then◌else◌, Bool-cases, ◌==◌, nat_eq, text_eq, tally,
  exists, Text, trim_space, Result, ok, err,
}
use master_data.Shared.{attempt}
use master_data.Errors.{Error}
use master_data.Sites.{
  SitePic, Site, SiteInput, given_pics, cons_pic, or_new, is_default_pic, first_default,
  with_default, no_default, rename_default, single_pic, new_pics, mirrored, default_of, with_pics,
  apply_pics,
}

-- Exactly one person is the default, or there is nobody.
abbrev pub OneDefault : List SitePic → Type 0
OneDefault [] = Unit
OneDefault (p ∷ ps) = tally is_default_pic (p ∷ ps) ≡ 1

-- The two flat fields are the default person's name and phone, where these are not blank.
abbrev pub Mirrors : {F : Type 0} → Site F → Type 0
Mirrors s =
    (s.pic_name ≡ mirrored (λ (p : SitePic). p.name) (default_of s.pics))
    × (s.pic_phone ≡ mirrored (λ (p : SitePic). p.phone) (default_of s.pics))

given_pics_most :
    (fresh : ℕ → Text) (n : ℕ) (seen : Bool) (given ps : List SitePic)
    → given_pics fresh n seen given ≡ ok ps
    → tally is_default_pic ps ≤ (if seen then 0 else 1)
unfolding given_pics or_new
given_pics_most fresh n seen [] ps h =
    let e : [] ≡ ps = cc in
    subst (λ l. tally is_default_pic l ≤ (if seen then 0 else 1)) e (ground arith)
given_pics_most fresh n seen (p ∷ given) ps h =
    elim (Bool-cases (trim_space p.name == [] && trim_space p.phone == [])) [
      | inl e ↦ let z = rw e at h in given_pics_most fresh (suc n) seen given ps z
      | inr e ↦
          let z = rw e at h in
          elim (Bool-cases (trim_space p.name == [])) [
            | inl g ↦ let y = rw g at z in cc
            | inr g ↦
                let y = rw g at z in
                consed (given_pics fresh (suc n) (seen || p.is_default) given)
                  (λ qs q. given_pics_most fresh (suc n) (seen || p.is_default) given qs q) y
          ]
    ]
  where
    consed :
        (r : Result Error (List SitePic))
        → ((qs : List SitePic)
            → r ≡ ok qs
            → tally is_default_pic qs ≤ (if seen || p.is_default then 0 else 1))
        → cons_pic
            (record {
              id = or_new (fresh n) (trim_space p.id);
              name = trim_space p.name;
              phone = trim_space p.phone;
              is_default = p.is_default && not seen;
            })
            r
          ≡ ok ps
        → tally is_default_pic ps ≤ (if seen then 0 else 1)
    consed (err e) ih q = cc
    consed (ok qs) ih q =
        let e : record {
          id = or_new (fresh n) (trim_space p.id);
          name = trim_space p.name;
          phone = trim_space p.phone;
          is_default = p.is_default && not seen;
        }
              ∷ qs
            ≡ ps =
          cc in
        subst (λ l. tally is_default_pic l ≤ (if seen then 0 else 1)) e (ground (arith, ih qs refl))

none_default : (ps : List SitePic) → exists is_default_pic ps ≡ false → tally is_default_pic ps ≡ 0
none_default [] h = refl
none_default (p ∷ ps) h = ground (arith, none_default ps)

some_default : (ps : List SitePic) → exists is_default_pic ps ≡ true → 0 < tally is_default_pic ps
some_default [] h = cc
some_default (p ∷ ps) h = ground (arith, some_default ps)

one-OneDefault : (ps : List SitePic) → tally is_default_pic ps ≡ 1 → OneDefault ps
one-OneDefault [] h = tt
one-OneDefault (p ∷ ps) h = h

with_default-OneDefault :
    (ps : List SitePic) → tally is_default_pic ps ≤ 1 → OneDefault (with_default ps)
unfolding with_default first_default
with_default-OneDefault ps h = elim (Bool-cases (exists is_default_pic ps)) [
  | inl e ↦ rw e (one-OneDefault ps (omega (arith, h, some_default ps e)))
  | inr e ↦ rw e (made ps (none_default ps e))
]
  where
    made : (qs : List SitePic) → tally is_default_pic qs ≡ 0 → OneDefault (first_default qs)
    made [] k = tt
    made (p ∷ qs) k = ground arith

rename_default-tally :
    (name phone : Text) (ps : List SitePic)
    → tally is_default_pic (rename_default name phone ps) ≡ tally is_default_pic ps
unfolding rename_default
rename_default-tally name phone [] = refl
rename_default-tally name phone (p ∷ ps) = elim (Bool-cases p.is_default) [
  | inl e ↦ rw e refl
  | inr e ↦ rw e (omega (arith, rename_default-tally name phone ps))
]

no_default-tally :
    (ps : List SitePic) (q : SitePic)
    → q.is_default ≡ true
    → tally is_default_pic (no_default ps ++ q ∷ []) ≡ 1
unfolding no_default
no_default-tally [] q h = rw h refl
no_default-tally (p ∷ ps) q h = omega (arith, no_default-tally ps q h)

single_pic-OneDefault :
    (minted name phone : Text) (ps : List SitePic)
    → OneDefault ps
    → OneDefault (single_pic minted name phone ps)
unfolding single_pic
single_pic-OneDefault minted name phone ps h = elim (Bool-cases (exists is_default_pic ps)) [
  | inl e ↦ rw e (
      one-OneDefault (rename_default name phone ps)
        (rename_default-tally name phone ps ∙ is_one ps e h))
  | inr e ↦ rw e (one-OneDefault (no_default ps ++ _ ∷ []) (no_default-tally ps _ refl))
]
  where
    is_one :
        (qs : List SitePic)
        → exists is_default_pic qs ≡ true
        → OneDefault qs
        → tally is_default_pic qs ≡ 1
    is_one [] k o = cc
    is_one (q ∷ qs) k o = o

pub attempt-ok :
    {A B : Type 0} (r : Result Error A) (f : A → Result Error B) (b : B)
    → attempt r f ≡ ok b
    → (a : A) × (r ≡ ok a) × (f a ≡ ok b)
attempt-ok (err e) f b h = cc
attempt-ok (ok a) f b h = (a, refl, h)

module _ {F : Type 0} (fresh : ℕ → Text) (input : SiteInput F) where
  new_pics-OneDefault :
      (given : Option (List SitePic)) (old ps : List SitePic)
      → OneDefault old
      → new_pics fresh input given old ≡ ok ps
      → OneDefault ps
  unfolding new_pics
  new_pics-OneDefault (some given) old ps o h =
      let (qs, e, k) =
        attempt-ok (given_pics fresh 0 false given) (λ l. ok (with_default l)) ps h in
      let q : with_default qs ≡ ps = cc in
      subst OneDefault q (with_default-OneDefault qs (given_pics_most fresh 0 false given qs e))
  new_pics-OneDefault none old ps o h =
      elim (Bool-cases (trim_space input.pic_name == [] && trim_space input.pic_phone == [])) [
        | inl e ↦ let z = rw e at h in let q : old ≡ ps = cc in subst OneDefault q o
        | inr e ↦
            let z = rw e at h in
            let q : single_pic (fresh 0) (trim_space input.pic_name) (trim_space input.pic_phone)
                  old
                ≡ ps =
              cc in
            subst OneDefault q (
              single_pic-OneDefault (fresh 0) (trim_space input.pic_name)
                (trim_space input.pic_phone) old o)
      ]

  -- After `ApplyPICs` exactly one person of the site is the default, or there is nobody, and the two
  -- flat fields repeat that person, whether the request sends the list, the two old fields or
  -- neither: if it was so of the people before. The company, the place and the radius are as before.
  pub apply_pics-OneDefault :
      (site site' : Site F)
      → apply_pics fresh input site ≡ ok site'
      → OneDefault site.pics
      → OneDefault site'.pics
        × Mirrors site'
        × (site'.company_id ≡ site.company_id)
        × (site'.location ≡ site.location)
        × (site'.geofence_radius ≡ site.geofence_radius)
  unfolding apply_pics with_pics
  apply_pics-OneDefault site site' h o =
      let (ps, e, k) =
        attempt-ok (new_pics fresh input input.pics site.pics) (λ l. ok (with_pics l site)) site'
          h in
      let q : with_pics ps site ≡ site' = cc in
      subst
        (λ (s : Site F).
          OneDefault s.pics
          × Mirrors s
          × (s.company_id ≡ site.company_id)
          × (s.location ≡ site.location)
          × (s.geofence_radius ≡ site.geofence_radius))
        q (new_pics-OneDefault input.pics site.pics ps o e, (refl, refl), refl, refl, refl)
