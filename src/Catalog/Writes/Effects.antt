-- ===== src/Catalog/Writes/Effects.antt =====
-- What a write of catalog.go does to the documents and to the cache, whichever branch it takes.
use master_data.Shared.{
  ℕ, ◌≡◌, refl, ap, ◌∙◌, ◌⊎◌, inl, inr, Bool, true, false, not, ◌&&◌, Option, none, some, List, [],
  ◌∷◌, ◌++◌, if◌then◌else◌, Bool-cases, nat_eq, text_eq, exists, Text, codes, Result, ok, err,
  lookup,
}
use master_data.Errors.{Error, forbidden}
use master_data.Mongo.{Mongo}
use master_data.Catalog.{Catalog, set_docs, Sweep, invalidate, scope_for, scope_for_edit}
use master_data.Catalog.Kinds.{KindSpec, catalog_kinds}
use master_data.Catalog.Documents.{Fields, CatalogDoc, string_of}
use master_data.Catalog.Writers.{writable, writer_create, writer_update, writer_delete}
use master_data.Catalog.Writers.Cases.{
  UniqueIds, Added, Edit, Edited, writer_create-Added, writer_update-Edited, writer_delete-Edited,
}
use master_data.Catalog.Writes.{
  create, update, delete, ungroup_vehicles, after_create, unowned, owned_by, create_in,
  after_update, after_delete, is_absent, spec_or_zero, blank_field, required_of,
}
use master_data.Catalog.Writes.Outcomes.{
  owned_kind, skips_sweep, IsSwept, Write, create_entry, update_entry, delete_entry, kind_of,
  run_write, OwnAdded, Effect, Quiet, nothing, announce_group-Quiet, ungroup_vehicles-Quiet,
  swept_state,
}

module _ (m : Mongo) (decode : Text → Fields → Option Fields) (sweep : Sweep) where
  -- The three writes, from what the writer did.
  change-Effect :
      (kind company_id : Text) (staff : Bool) (s s' : Catalog)
      (r : Result Error (Unit {0}) × List CatalogDoc)
      → Edited (scope_for_edit company_id staff) (s.docs kind) r
      → ((e : Error) × (r.0 ≡ err e) × Quiet (set_docs kind r.1 s) s')
        ⊎ ((r.0 ≡ ok tt) × Quiet (invalidate sweep kind company_id staff (set_docs kind r.1 s)) s')
      → Effect false sweep kind company_id staff s s'
  change-Effect kind company_id staff s s' r (inl q) (inl (e, z, c)) = record {
    ds = r.1;
    docs = λ k. ap (λ f. f k) c.0;
    cache = inl c.1;
    change = inl q;
  }
  change-Effect kind company_id staff s s' r (inr (t, q)) (inl (e, z, c)) = cc
  change-Effect kind company_id staff s s' r (inl q) (inr (z, c)) =
      let w = swept_state m decode sweep kind company_id staff s s' r.1 c in
      record { ds = r.1; docs = w.0; cache = inr w.1; change = inl q }
  change-Effect kind company_id staff s s' r (inr (t, q)) (inr (z, c)) =
      let w = swept_state m decode sweep kind company_id staff s s' r.1 c in
      record { ds = r.1; docs = w.0; cache = inr w.1; change = inr (inr (q, w.1)) }

  after_update-Effect :
      (kind id company_id : Text) (staff : Bool) (s : Catalog)
      (r : Result Error (Unit {0}) × List CatalogDoc)
      → Edited (scope_for_edit company_id staff) (s.docs kind) r
      → Effect false sweep kind company_id staff s
          (after_update m decode sweep kind id company_id staff s r).1
  unfolding after_update
  after_update-Effect kind id company_id staff s (err e, ds) h =
      change-Effect kind company_id staff s _ (err e, ds) h (inl (e, refl, (refl, refl)))
  after_update-Effect kind id company_id staff s (ok tt, ds) h =
      change-Effect kind company_id staff s _ (ok tt, ds) h
        (inr (
          refl,
          announce_group-Quiet m decode sweep kind id (codes "update")
              (invalidate sweep kind company_id staff (set_docs kind ds s)),
        ))

  after_delete-Effect :
      (now : ℕ) (kind id company_id : Text) (staff : Bool) (s : Catalog)
      (r : Result Error (Unit {0}) × List CatalogDoc)
      → Edited (scope_for_edit company_id staff) (s.docs kind) r
      → Effect false sweep kind company_id staff s
          (after_delete m decode sweep now kind id company_id staff s r).1
  unfolding after_delete
  after_delete-Effect now kind id company_id staff s (err e, ds) h =
      change-Effect kind company_id staff s _ (err e, ds) h (inl (e, refl, (refl, refl)))
  after_delete-Effect now kind id company_id staff s (ok tt, ds) h =
      let swept = invalidate sweep kind company_id staff (set_docs kind ds s) in
      let q = ungroup_vehicles-Quiet m decode sweep now kind id swept in
      let p =
        announce_group-Quiet m decode sweep kind id (codes "delete")
          (ungroup_vehicles m decode sweep now kind id swept) in
      change-Effect kind company_id staff s _ (ok tt, ds) h (inr (refl, (p.0 ∙ q.0, p.1 ∙ q.1)))

  change-Added :
      (skip : Bool) (kind company_id : Text) (staff : Bool) (owner : Option Text) (s s' : Catalog)
      (ds : List CatalogDoc)
      → (staff ≡ false → owner ≡ some company_id)
      → IsSwept sweep kind company_id staff s s' ⊎ (skip ≡ true)
      → (ds ≡ s.docs kind) ⊎ ((d : CatalogDoc) × (ds ≡ s.docs kind ++ d ∷ []) × (d.owner ≡ owner))
      → (ds ≡ s.docs kind)
        ⊎ (OwnAdded company_id staff (s.docs kind) ds
            × (IsSwept sweep kind company_id staff s s' ⊎ (skip ≡ true)))
        ⊎ (Edit (scope_for_edit company_id staff) (s.docs kind) ds
            × IsSwept sweep kind company_id staff s s')
  change-Added skip kind company_id staff owner s s' ds o w (inl q) = inl q
  change-Added skip kind company_id staff owner s s' ds o w (inr (d, q, e)) =
      inr (inl ((d, q, λ h. e ∙ o h), w))

  one_more :
      (owner : Option Text) (ds : List CatalogDoc) (r : Result Error Text × List CatalogDoc)
      → Added owner ds r
      → (r.1 ≡ ds) ⊎ ((d : CatalogDoc) × (r.1 ≡ ds ++ d ∷ []) × (d.owner ≡ owner))
  one_more owner ds r (inl q) = inl q
  one_more owner ds r (inr (d, q, e, z)) = inr (d, q, e)

  none_more :
      (owner : Option Text) (ds ds' : List CatalogDoc) (e : Error)
      → Added owner ds (err e, ds')
      → ds' ≡ ds
  none_more owner ds ds' e (inl q) = q
  none_more owner ds ds' e (inr (d, q, o, (id, z))) = cc

  after_create-Effect :
      (skip : Bool) (kind company_id : Text) (staff : Bool) (owner : Option Text) (s : Catalog)
      (r : Result Error Text × List CatalogDoc)
      → (staff ≡ false → owner ≡ some company_id)
      → Added owner (s.docs kind) r
      → Effect skip sweep kind company_id staff s
          (after_create m decode sweep kind company_id staff s r).1
  unfolding after_create
  after_create-Effect skip kind company_id staff owner s (err e, ds) o h = record {
    ds = ds;
    docs = λ k. refl;
    cache = inl refl;
    change = inl (none_more owner (s.docs kind) ds e h);
  }
  after_create-Effect skip kind company_id staff owner s (ok id, ds) o h =
      let s' = after_create m decode sweep kind company_id staff s (ok id, ds) in
      let w = swept_state m decode sweep kind company_id staff s s'.1 ds (
        announce_group-Quiet m decode sweep kind id (codes "create")
          (invalidate sweep kind company_id staff (set_docs kind ds s))) in
      record {
        ds = ds;
        docs = w.0;
        cache = inr w.1;
        change =
            change-Added skip kind company_id staff owner s s'.1 ds o (inl w.1)
              (one_more owner (s.docs kind) (ok id, ds) h);
      }

  unowned-Effect :
      (skip : Bool) (kind company_id : Text) (s : Catalog) (r : Result Error Text × List CatalogDoc)
      → skip ≡ true
      → Added none (s.docs kind) r
      → Effect skip sweep kind company_id true s (unowned m decode sweep kind s r).1
  unfolding unowned
  unowned-Effect skip kind company_id s (r, ds) k h = record {
    ds = ds;
    docs = λ k. refl;
    cache = inl refl;
    change =
        change-Added skip kind company_id true none s (set_docs kind ds s) ds (λ e. cc) (inr k)
          (one_more none (s.docs kind) (r, ds) h);
  }

  scope_for-own :
      (company_id : Text) (staff : Bool) (requested : Text)
      → staff ≡ false
      → scope_for company_id staff requested ≡ some company_id
  unfolding scope_for
  scope_for-own company_id true requested e = cc
  scope_for-own company_id false requested e = refl

  owned_by-Effect :
      (skip : Bool) (kind : Text) (now new_id : ℕ) (company_id : Text) (staff : Bool)
      (payload : Fields) (shareable : Bool) (owner : Option Text) (s : Catalog)
      → (staff ≡ false → owner ≡ some company_id)
      → Effect skip sweep kind company_id staff s
          (owned_by m decode sweep kind now new_id company_id staff payload shareable owner s).1
  unfolding owned_by
  owned_by-Effect skip kind now new_id company_id staff payload shareable owner s o =
      elim (Bool-cases (is_absent owner && not shareable)) [
        | inl e ↦ rw e (nothing skip sweep kind company_id staff s)
        | inr e ↦ rw e (
            after_create-Effect skip kind company_id staff owner s
              (writer_create m decode kind now new_id owner payload (s.docs kind)) o
              (writer_create-Added m decode kind now new_id owner payload (s.docs kind)))
      ]

  create_in-Effect :
      (skip : Bool) (kind : Text) (now new_id : ℕ) (company_id : Text) (staff : Bool)
      (payload : Fields) (spec : KindSpec) (s : Catalog)
      → skip ≡ not spec.owned
      → Effect skip sweep kind company_id staff s
          (create_in m decode sweep kind now new_id company_id staff payload spec s).1
  unfolding create_in
  create_in-Effect skip kind now new_id company_id staff payload spec s k =
      elim (Bool-cases (exists (blank_field payload) (required_of spec))) [
        | inl e ↦ rw e (nothing skip sweep kind company_id staff s)
        | inr e ↦
            rw e
              (elim (Bool-cases (spec.parent_required && blank_field payload spec.parent_field)) [
                | inl f ↦ rw f (nothing skip sweep kind company_id staff s)
                | inr f ↦ rw f (elim (Bool-cases (not spec.owned)) [
                  | inl g ↦ rw g (karlo (k ∙ g) staff)
                  | inr g ↦ rw g (
                      owned_by-Effect skip kind now new_id company_id staff payload spec.shareable
                        (scope_for company_id staff
                          (string_of (lookup (codes "companyId") payload)))
                        s
                        (scope_for-own company_id staff
                          (string_of (lookup (codes "companyId") payload))))
                ])
              ])
      ]
    where
      karlo :
          skip ≡ true
          → (b : Bool)
          → Effect skip sweep kind company_id b s
              (if not b
                then (err forbidden, s)
                else unowned m decode sweep kind s
                    (writer_create m decode kind now new_id none payload (s.docs kind))).1
      karlo k false = nothing skip sweep kind company_id false s
      karlo k true =
          unowned-Effect skip kind company_id s
            (writer_create m decode kind now new_id none payload (s.docs kind)) k
            (writer_create-Added m decode kind now new_id none payload (s.docs kind))

  create-Effect :
      (now new_id : ℕ) (kind company_id : Text) (staff : Bool) (payload : Fields) (s : Catalog)
      → Effect
          (not (owned_kind kind))
          sweep
          kind
          company_id
          staff
          s
          (create m decode sweep now new_id kind company_id staff payload s).1
  unfolding create
  create-Effect now new_id kind company_id staff payload s =
      elim (Bool-cases (not (writable kind))) [
        | inl e ↦ rw e (nothing (not (owned_kind kind)) sweep kind company_id staff s)
        | inr e ↦ rw e (
            create_in-Effect (not (owned_kind kind)) kind now new_id company_id staff payload
              (spec_or_zero (lookup kind catalog_kinds)) s refl)
      ]

  update-Effect :
      (now : ℕ) (kind id company_id : Text) (staff : Bool) (payload : Fields) (s : Catalog)
      → UniqueIds (s.docs kind)
      → Effect false sweep kind company_id staff s
          (update m decode sweep now kind id company_id staff payload s).1
  unfolding update
  update-Effect now kind id company_id staff payload s u = elim (Bool-cases (not (writable kind))) [
    | inl e ↦ rw e (nothing false sweep kind company_id staff s)
    | inr e ↦ rw e (
        after_update-Effect kind id company_id staff s
          (writer_update m decode kind now id (scope_for_edit company_id staff) payload
            (s.docs kind))
          (writer_update-Edited m decode kind now id (scope_for_edit company_id staff) payload
            (s.docs kind) u))
  ]

  delete-Effect :
      (now : ℕ) (kind id company_id : Text) (staff : Bool) (s : Catalog)
      → UniqueIds (s.docs kind)
      → Effect false sweep kind company_id staff s
          (delete m decode sweep now kind id company_id staff s).1
  unfolding delete
  delete-Effect now kind id company_id staff s u = elim (Bool-cases (not (writable kind))) [
    | inl e ↦ rw e (nothing false sweep kind company_id staff s)
    | inr e ↦ rw e (
        after_delete-Effect now kind id company_id staff s
          (writer_delete m decode id (scope_for_edit company_id staff) (s.docs kind))
          (writer_delete-Edited m decode id (scope_for_edit company_id staff) (s.docs kind) u))
  ]

  pub run_write-Effect :
      (now : ℕ) (company_id : Text) (staff : Bool) (w : Write) (s : Catalog)
      → UniqueIds (s.docs (kind_of w))
      → Effect
          (skips_sweep w)
          sweep
          (kind_of w)
          company_id
          staff
          s
          (run_write m decode sweep now company_id staff w s)
  unfolding run_write
  run_write-Effect now company_id staff (create_entry new_id kind payload) s u =
      create-Effect now new_id kind company_id staff payload s
  run_write-Effect now company_id staff (update_entry kind id payload) s u =
      update-Effect now kind id company_id staff payload s u
  run_write-Effect now company_id staff (delete_entry kind id) s u =
      delete-Effect now kind id company_id staff s u
