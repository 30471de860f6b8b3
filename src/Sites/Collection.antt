-- ===== src/Sites/Collection.antt =====
-- `CreateSite`, `UpdateSite` and `DeleteSite` over the whole collection.
use master_data.Shared.{
  ℕ, ◌≤◌, ◌≡◌, refl, sym, ap, subst, ◌∙◌, ◌⊎◌, inl, inr, Bool, true, false, not, Option, none, some,
  List, [], ◌∷◌, ◌++◌, append-nil, arith, Bool-cases, ◌==◌, nat_eq, text_eq, ==_refl, ==→eq, keep,
  tally, alter, All, All-append, keep-append, Text, Result, ok, err,
}
use master_data.Errors.{Error}
use master_data.Mongo.{Mongo, IsIn}
use master_data.Repository.Writes.{create-cases, update-cases, written}
use master_data.Sites.{Site, SiteInput, site_before_write, sites}
use master_data.Sites.Requests.{
  Float64, built, edited, create_site, stored_new, own_site, stored_edit, edit_found, edit_at,
  update_site, site_marked, delete_site_at, delete_site,
}
use master_data.Mongo.Counts.{tally-le, tally-same, keep-alter}
use master_data.Sites.Writes.{
  SiteWrite, create_request, update_request, delete_request, SiteRight, built-SiteRight,
  edited-SiteRight, All-alter, All-IsIn,
}

module _ (one : ℕ) (m : Mongo) (fresh : ℕ → Text) where
  -- The sites after a request of the company's, also when it fails.
  unfoldable pub run_site : ℕ → Text → SiteWrite → List (Site Float64) → List (Site Float64)
  run_site now company_id (create_request new_id input) ds =
      (create_site one m fresh now new_id company_id input ds).1
  run_site now company_id (update_request id input) ds =
      (update_site one m fresh now company_id id input ds).1
  run_site now company_id (delete_request id) ds = (delete_site one m now company_id id ds).1

  abbrev pub UniqueSites : List (Site Float64) → Type 0
  UniqueSites ds = (oid : ℕ) → tally (λ (s : Site Float64). s.id == oid) ds ≤ 1

  -- What a request leaves: the sites as they were, a right one added, or one of the company's own
  -- changed into a right one.
  pub record Change (company_id : Text) (ds ds' : List (Site Float64)) : Type 0 where
    pub test : Site Float64 → Bool
    pub change : Site Float64 → Site Float64
    pub only_own : (s : Site Float64) → IsIn s ds → test s ≡ true → s.company_id ≡ company_id
    pub stays_own :
        (s : Site Float64) → IsIn s ds → test s ≡ true → (change s).company_id ≡ company_id
    pub right :
        All (SiteRight one) ds → (s : Site Float64) → SiteRight one s → SiteRight one (change s)
    pub after : ds' ≡ alter test change ds

  abbrev pub Left : Text → List (Site Float64) → List (Site Float64) → Type 0
  Left company_id ds ds' =
      (ds' ≡ ds)
      ⊎ ((s : Site Float64) × (ds' ≡ ds ++ s ∷ []) × (s.company_id ≡ company_id) × SiteRight one s)
      ⊎ Change company_id ds ds'

  written-right :
      (now : ℕ) (b : Bool) (s : Site Float64)
      → SiteRight one s
      → SiteRight one (written m sites now b s)
  unfolding site_before_write
  written-right now b s h = h

  created-Left :
      (now new_id : ℕ) (company_id : Text) (input : SiteInput Float64) (ds : List (Site Float64))
      → Left company_id ds (create_site one m fresh now new_id company_id input ds).1
  unfolding create_site stored_new site_before_write
  created-Left now new_id company_id input ds =
      stored (built one fresh new_id company_id input) refl
    where
      stored :
          (r : Result Error (Site Float64))
          → built one fresh new_id company_id input ≡ r
          → Left company_id ds (stored_new one m now r ds).1
      stored (err e) q = inl refl
      stored (ok s) q =
          let (right, own) = built-SiteRight one fresh new_id company_id input s q in
          elim (create-cases m sites now s ds) [
            | inl (e, k) ↦ inl (ap (λ z. z.1) k)
            | inr (k, v) ↦ inr (
                inl (
                  written m sites now true s,
                  ap (λ z. z.1) k,
                  own,
                  written-right now true s right,
                ))
          ]

  updated-Left :
      (now : ℕ) (company_id id : Text) (input : SiteInput Float64) (ds : List (Site Float64))
      → UniqueSites ds
      → All (SiteRight one) ds
      → Left company_id ds (update_site one m fresh now company_id id input ds).1
  unfolding update_site edit_at edit_found stored_edit site_before_write
  updated-Left now company_id id input ds u a = at (m.from_hex id)
    where
      stored :
          (oid : ℕ) (s : Site Float64)
          → IsIn s ds
          → own_site one m oid company_id s ≡ true
          → (r : Result Error (Site Float64)) → edited one fresh input s ≡ r
          → Left company_id ds (stored_edit one m now oid r ds).1
      stored oid s i o (err e) q = inl refl
      stored oid s i o (ok s') q =
          let (right, own) =
            edited-SiteRight one fresh input s s' (All-IsIn (SiteRight one) ds s a i) q in
          let owned : s.company_id ≡ company_id = ==→eq s.company_id company_id (ground arith) in
          elim (update-cases m sites now oid s' ds) [
            | inl (e, k) ↦ inl (ap (λ z. z.1) k)
            | inr (n, k, v, z) ↦ inr (
                inr (record {
                  test = λ (x : Site Float64). x.id == oid;
                  change = λ (x : Site Float64). written m sites now false s';
                  only_own = λ (x : Site Float64) j h.
                      ap (λ (y : Site Float64). y.company_id)
                        (tally-same (λ (y : Site Float64). y.id == oid) ds x s j i h (ground arith)
                          (u oid))
                      ∙ owned;
                  stays_own = λ (x : Site Float64) j h. own ∙ owned;
                  right = λ h (x : Site Float64) p. written-right now false s' right;
                  after =
                      (m.replace_one_lem (λ (x : Site Float64). x.id == oid)
                        (written m sites now false s') ds k (u oid)).1;
                }))
          ]

      found :
          (oid : ℕ) (r : Option (Option (Site Float64)))
          → m.find_one (own_site one m oid company_id) ds ≡ r
          → Left company_id ds (edit_found one m fresh now oid input r ds).1
      found oid none q = inl refl
      found oid (some none) q = inl refl
      found oid (some (some s)) q =
          let (i, o) = m.find_one-some (own_site one m oid company_id) ds q in
          stored oid s i o (edited one fresh input s) refl

      at : (o : Option ℕ) → Left company_id ds (edit_at one m fresh now company_id input o ds).1
      at none = inl refl
      at (some oid) = found oid (m.find_one (own_site one m oid company_id) ds) refl

  deleted-Left :
      (now : ℕ) (company_id id : Text) (ds : List (Site Float64))
      → UniqueSites ds
      → Left company_id ds (delete_site one m now company_id id ds).1
  unfolding delete_site delete_site_at site_marked
  deleted-Left now company_id id ds u = at (m.from_hex id)
    where
      gone : Site Float64 → Site Float64
      gone s = record s { deleted = true; updated_at = now }

      marked :
          (oid : ℕ) (r : Option (ℕ × List (Site Float64)))
          → m.update_one (own_site one m oid company_id) gone ds ≡ r
          → Left company_id ds (site_marked one m ds r).1
      marked oid none q = inl refl
      marked oid (some (n, ds')) q =
          let few : tally (own_site one m oid company_id) ds ≤ 1 = omega (
            arith,
            tally-le (own_site one m oid company_id) (λ (x : Site Float64). x.id == oid) ds
                (λ (x : Site Float64) h. ground arith),
            u oid,
          ) in
          let c : Change company_id ds ds' = record {
            test = own_site one m oid company_id;
            change = gone;
            only_own = λ (x : Site Float64) j h. ==→eq x.company_id company_id (ground arith);
            stays_own = λ (x : Site Float64) j h. ==→eq x.company_id company_id (ground arith);
            right = λ h (x : Site Float64) p. p;
            after = (m.update_one_lem (own_site one m oid company_id) gone ds q few).1;
          } in
          elim (Bool-cases (n == 0)) [ inl z ↦ rw z (inr (inr c)) | inr z ↦ rw z (inr (inr c)) ]

      at : (o : Option ℕ) → Left company_id ds (delete_site_at one m now company_id o ds).1
      at none = inl refl
      at (some oid) = marked oid (m.update_one (own_site one m oid company_id) gone ds) refl

  run_site-Left :
      (now : ℕ) (company_id : Text) (w : SiteWrite) (ds : List (Site Float64))
      → UniqueSites ds
      → All (SiteRight one) ds
      → Left company_id ds (run_site now company_id w ds)
  unfolding run_site
  run_site-Left now company_id (create_request new_id input) ds u a =
      created-Left now new_id company_id input ds
  run_site-Left now company_id (update_request id input) ds u a =
      updated-Left now company_id id input ds u a
  run_site-Left now company_id (delete_request id) ds u a = deleted-Left now company_id id ds u

  -- Creating, updating and deleting keep every site right, on every branch: it belongs to a company,
  -- exactly one of its people is the default or it has nobody, its flat fields repeat that person, its
  -- place has a latitude from -90 to 90 and a longitude from -180 to 180, not both 0, or is not a
  -- number in one of them, and its radius is above 0. No two sites have the same id.
  pub run_site-SiteRight :
      (now : ℕ) (company_id : Text) (w : SiteWrite) (ds : List (Site Float64))
      → UniqueSites ds
      → All (SiteRight one) ds
      → All (SiteRight one) (run_site now company_id w ds)
  run_site-SiteRight now company_id w ds u a =
      kept (run_site now company_id w ds) (run_site-Left now company_id w ds u a)
    where
      kept : (ds' : List (Site Float64)) → Left company_id ds ds' → All (SiteRight one) ds'
      kept ds' (inl e) = subst (All (SiteRight one)) (sym e) a
      kept ds' (inr (inl (s, e, o, r))) =
          subst (All (SiteRight one)) (sym e) (All-append (SiteRight one) ds (s ∷ []) a (r, tt))
      kept ds' (inr (inr c)) =
          subst (All (SiteRight one)) (sym c.after) (All-alter c.test c.change ds (c.right a) a)

  -- A request leaves the sites of other companies as they were, in the same order, whatever its
  -- branch. No two sites have the same id, and the sites were right before.
  pub run_site_leaves :
      (now : ℕ) (company_id : Text) (w : SiteWrite) (ds : List (Site Float64))
      → UniqueSites ds
      → All (SiteRight one) ds
      → keep (λ (s : Site Float64). not (s.company_id == company_id)) (run_site now company_id w ds)
        ≡ keep (λ (s : Site Float64). not (s.company_id == company_id)) ds
  run_site_leaves now company_id w ds u a =
      kept (run_site now company_id w ds) (run_site-Left now company_id w ds u a)
    where
      other : Site Float64 → Bool
      other s = not (s.company_id == company_id)

      kept : (ds' : List (Site Float64)) → Left company_id ds ds' → keep other ds' ≡ keep other ds
      kept ds' (inl e) = ap (keep other) e
      kept ds' (inr (inl (s, e, o, r))) =
          rw e (
            keep-append other ds (s ∷ []) ∙ rw (o, ==_refl company_id) (append-nil (keep other ds)))
      kept ds' (inr (inr c)) = rw c.after (
          keep-alter other c.test c.change ds (λ (s : Site Float64) i h. (
            rw (c.only_own s i h, ==_refl company_id) refl,
            rw (c.stays_own s i h, ==_refl company_id) refl,
          )))
