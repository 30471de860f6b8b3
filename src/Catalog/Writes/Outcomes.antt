-- ===== src/Catalog/Writes/Outcomes.antt =====
-- What a write of catalog.go may do to the documents and to the cache, and what its notices leave
-- alone.
use master_data.Shared.{
  ℕ, ◌≡◌, refl, ap, ◌∙◌, ◌⊎◌, inl, inr, Bool, false, not, ◌||◌, Option, none, some, List, [], ◌∷◌,
  ◌++◌, if◌then◌else◌, Bool-cases, ◌==◌, nat_eq, text_eq, ==→eq, Text, codes, lookup, true,
}
use master_data.Models.{Vehicle}
use master_data.Mongo.{Mongo}
use master_data.Catalog.{Catalog, set_docs, Sweep, invalidate, scope_for_edit}
use master_data.Catalog.Kinds.{catalog_kinds}
use master_data.Catalog.Documents.{Fields, CatalogDoc}
use master_data.Catalog.Writers.Cases.{Edit}
use master_data.Catalog.Writes.{
  create, update, delete, announce_group, announce_at, publish_group, ungroup_vehicles, clear_rows,
  cleared, is_group, spec_or_zero,
}

-- A request for one of the three writes.
pub data Write : Type 0 where
  create_entry : ℕ → Text → Fields → Write
  update_entry : Text → Text → Fields → Write
  delete_entry : Text → Text → Write

abbrev pub kind_of : Write → Text
kind_of (create_entry new_id kind payload) = kind
kind_of (update_entry kind id payload) = kind
kind_of (delete_entry kind id) = kind

-- The state that the write leaves, also when it fails.
unfoldable pub run_write :
    Mongo → (Text → Fields → Option Fields) → Sweep → ℕ → Text → Bool → Write → Catalog → Catalog
run_write m decode sweep now company_id staff (create_entry new_id kind payload) s =
    (create m decode sweep now new_id kind company_id staff payload s).1
run_write m decode sweep now company_id staff (update_entry kind id payload) s =
    (update m decode sweep now kind id company_id staff payload s).1
run_write m decode sweep now company_id staff (delete_entry kind id) s =
    (delete m decode sweep now kind id company_id staff s).1

abbrev pub OwnAdded : Text → Bool → List CatalogDoc → List CatalogDoc → Type 0
OwnAdded company_id staff ds ds' =
    (d : CatalogDoc) × (ds' ≡ ds ++ d ∷ []) × (staff ≡ false → d.owner ≡ some company_id)

-- A list whose documents have owners.
abbrev pub owned_kind : Text → Bool
owned_kind kind = (spec_or_zero (lookup kind catalog_kinds)).owned

-- Whether the write adds to a list without owners, which does not sweep the cache.
abbrev pub skips_sweep : Write → Bool
skips_sweep (create_entry new_id kind payload) = not (owned_kind kind)
skips_sweep (update_entry kind id payload) = false
skips_sweep (delete_entry kind id) = false

abbrev pub IsSwept : Sweep → Text → Text → Bool → Catalog → Catalog → Type 0
IsSwept sweep kind company_id staff s s' =
    s'.cache ≡ (invalidate sweep kind company_id staff s).cache

-- With `skip` a document may be added without a sweep.
pub record Effect (skip : Bool) (sweep : Sweep) (kind company_id : Text) (staff : Bool)
    (s s' : Catalog) : Type 0 where
  pub ds : List CatalogDoc
  pub docs : (k : Text) → s'.docs k ≡ (if k == kind then ds else s.docs k)
  pub cache : (s'.cache ≡ s.cache) ⊎ IsSwept sweep kind company_id staff s s'
  pub change :
      (ds ≡ s.docs kind)
      ⊎ (OwnAdded company_id staff (s.docs kind) ds
          × (IsSwept sweep kind company_id staff s s' ⊎ (skip ≡ true)))
      ⊎ (Edit (scope_for_edit company_id staff) (s.docs kind) ds
          × IsSwept sweep kind company_id staff s s')

-- The documents and the cache stay.
abbrev pub Quiet : Catalog → Catalog → Type 0
Quiet s s' = (s'.docs ≡ s.docs) × (s'.cache ≡ s.cache)

publish_group-Quiet :
    (id op : Text) (r : Option (Option CatalogDoc)) (s : Catalog)
    → Quiet s (publish_group id op r s)
unfolding publish_group
publish_group-Quiet id op none s = (refl, refl)
publish_group-Quiet id op (some none) s = (refl, refl)
publish_group-Quiet id op (some (some d)) s = (refl, refl)

pub set_same :
    (kind k : Text) (s : Catalog) → s.docs k ≡ (if k == kind then s.docs kind else s.docs k)
set_same kind k s = elim (Bool-cases (k == kind)) [
  | inl e ↦ rw e (ap s.docs (==→eq k kind e))
  | inr e ↦ rw e refl
]

pub nothing :
    (skip : Bool) (sweep : Sweep) (kind company_id : Text) (staff : Bool) (s : Catalog)
    → Effect skip sweep kind company_id staff s s
nothing skip sweep kind company_id staff s = record {
  ds = s.docs kind;
  docs = λ k. set_same kind k s;
  cache = inl refl;
  change = inl refl;
}

pub invalidate-docs :
    (sweep : Sweep) (kind company_id : Text) (staff : Bool) (s : Catalog)
    → (invalidate sweep kind company_id staff s).docs ≡ s.docs
unfolding invalidate
invalidate-docs sweep kind company_id staff s = elim (Bool-cases (staff || company_id == [])) [
  | inl e ↦ rw e refl
  | inr e ↦ rw e refl
]

pub invalidate-cache :
    (sweep : Sweep) (kind company_id : Text) (staff : Bool) (s : Catalog) (ds : List CatalogDoc)
    → (invalidate sweep kind company_id staff (set_docs kind ds s)).cache
      ≡ (invalidate sweep kind company_id staff s).cache
unfolding invalidate
invalidate-cache sweep kind company_id staff s ds = elim (Bool-cases (staff || company_id == [])) [
  | inl e ↦ rw e refl
  | inr e ↦ rw e refl
]

module _ (m : Mongo) (decode : Text → Fields → Option Fields) (sweep : Sweep) where
  pub announce_group-Quiet :
      (kind id op : Text) (s : Catalog) → Quiet s (announce_group m decode sweep kind id op s)
  unfolding announce_group announce_at
  announce_group-Quiet kind id op s = elim (Bool-cases (not (is_group kind))) [
    | inl e ↦ rw e (refl, refl)
    | inr e ↦ rw e (at (m.from_hex id))
  ]
    where
      at : (o : Option ℕ) → Quiet s (announce_at m decode sweep id op o s)
      at none = (refl, refl)
      at (some oid) =
          publish_group-Quiet id op (m.find_one (λ d. d.id == oid) (s.docs (codes "vehicleGroup")))
            s

  pub ungroup_vehicles-Quiet :
      (now : ℕ) (kind id : Text) (s : Catalog)
      → Quiet s (ungroup_vehicles m decode sweep now kind id s)
  unfolding ungroup_vehicles clear_rows cleared
  ungroup_vehicles-Quiet now kind id s = elim (Bool-cases (not (is_group kind))) [
    | inl e ↦ rw e (refl, refl)
    | inr e ↦ rw e (rows (m.find _ s.vehicles))
  ]
    where
      write :
          (vs : List Vehicle) (r : Option (ℕ × List Vehicle))
          → Quiet s (cleared m decode sweep vs r s)
      write vs none = (refl, refl)
      write vs (some (n, xs)) = (refl, refl)

      rows : (r : Option (List Vehicle)) → Quiet s (clear_rows m decode sweep now id r s)
      rows none = (refl, refl)
      rows (some []) = (refl, refl)
      rows (some (v ∷ vs)) = write (v ∷ vs) (m.update_many _ _ s.vehicles)

  -- A write that succeeded, with what follows it.
  pub swept_state :
      (kind company_id : Text) (staff : Bool) (s s' : Catalog) (ds : List CatalogDoc)
      → Quiet (invalidate sweep kind company_id staff (set_docs kind ds s)) s'
      → ((k : Text) → s'.docs k ≡ (if k == kind then ds else s.docs k))
        × (s'.cache ≡ (invalidate sweep kind company_id staff s).cache)
  swept_state kind company_id staff s s' ds q = (
    λ k. ap (λ f. f k) (q.0 ∙ invalidate-docs sweep kind company_id staff (set_docs kind ds s)),
    q.1 ∙ invalidate-cache sweep kind company_id staff s ds,
  )
