-- ===== src/Catalog/Writes/Frame.antt =====
-- What a company's writes leave alone.
use master_data.Mongo.Counts.{keep-alter}
use master_data.Shared.{
  refers, ℕ, ◌≡◌, refl, sym, ap, ◌∙◌, ◌⊎◌, inl, inr, false, not, Option, some, List, [], ◌∷◌, ◌++◌,
  append-nil, Bool-cases, ◌==◌, nat_eq, text_eq, ==_refl, ==→eq, keep, keep-append, Text,
}
use master_data.Mongo.{Mongo}
use master_data.Catalog.{Catalog, Sweep, scope_for_edit}
use master_data.Catalog.Documents.{Fields, CatalogDoc}
use master_data.Catalog.Writers.Cases.{UniqueIds, Edit, may_change-own, edited_doc}
use master_data.Catalog.Writes.Effects.{run_write-Effect}
use master_data.Catalog.Writes.Outcomes.{Write, kind_of, run_write, OwnAdded}

-- The documents of a list that a company does not own, in order.
unfoldable pub others : Text → List CatalogDoc → List CatalogDoc
others company_id ds = keep (λ (d : CatalogDoc). not (refers d.owner company_id)) ds

module _ (company_id : Text) where
  others-added :
      (ds : List CatalogDoc) (d : CatalogDoc)
      → d.owner ≡ some company_id
      → others company_id (ds ++ d ∷ []) ≡ others company_id ds
  unfolding others
  others-added ds d e =
      keep-append (λ (x : CatalogDoc). not (refers x.owner company_id)) ds (d ∷ [])
      ∙ rw (e, ==_refl company_id)
          (append-nil (keep (λ (x : CatalogDoc). not (refers x.owner company_id)) ds))

  others-edited :
      (ds ds' : List CatalogDoc)
      → UniqueIds ds
      → Edit (some company_id) ds ds'
      → others company_id ds' ≡ others company_id ds
  unfolding others
  others-edited ds ds' u e = rw e.after (
      keep-alter (λ (x : CatalogDoc). not (refers x.owner company_id))
        (λ (x : CatalogDoc). x.id == e.oid) e.change ds
        (λ d i h.
          let k = edited_doc (some company_id) ds ds' e d u i h in
          let o = (may_change-own company_id e.old e.old e.allowed).0 in
          (rw (k, o, ==_refl company_id) refl, rw (k, e.same_owner, o, ==_refl company_id) refl)))

  -- A write of a caller who is not platform staff leaves every list as it was, but for the documents
  -- of the caller's own company: whatever the request, the branch it takes and the failures of the
  -- database or of the cache, the documents of other companies and those that Karlo maintains are the same, in the
  -- same order, if no two documents of the list have the same id.
  pub run_write_leaves :
      (m : Mongo) (decode : Text → Fields → Option Fields) (sweep : Sweep) (now : ℕ) (w : Write)
      (s : Catalog) (k : Text)
      → UniqueIds (s.docs (kind_of w))
      → others company_id ((run_write m decode sweep now company_id false w s).docs k)
        ≡ others company_id (s.docs k)
  unfolding scope_for_edit
  run_write_leaves m decode sweep now w s k u =
      let e = run_write-Effect m decode sweep now company_id false w s u in
      rw (e.docs k) (elim (Bool-cases (k == kind_of w)) [
        | inr q ↦ rw q refl
        | inl q ↦ rw q (
            at e.ds e.change ∙ ap (λ z. others company_id (s.docs z)) (sym (==→eq k (kind_of w) q)))
      ])
    where
      at :
          {cached swept : Type 0} (ds : List CatalogDoc)
          → ((ds ≡ s.docs (kind_of w))
              ⊎ (OwnAdded company_id false (s.docs (kind_of w)) ds × swept)
              ⊎ (Edit (scope_for_edit company_id false) (s.docs (kind_of w)) ds × cached))
          → others company_id ds ≡ others company_id (s.docs (kind_of w))
      at ds (inl q) = ap (others company_id) q
      at ds (inr (inl ((d, q, o), z))) = rw q (others-added (s.docs (kind_of w)) d (o refl))
      at ds (inr (inr (e, c))) = others-edited (s.docs (kind_of w)) ds u e
