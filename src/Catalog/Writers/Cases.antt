-- ===== src/Catalog/Writers/Cases.antt =====
-- What the writers of catalog_write.go leave: the documents as they were, a new one at the end, or
-- one of the caller's changed in place.
use master_data.Shared.{
  ℕ, ◌≤◌, ◌≡◌, refl, sym, ap, ◌∙◌, ◌≢◌, ◌⊎◌, inl, inr, Bool, true, false, not, ◌&&◌, Option, none,
  some, List, [], ◌∷◌, ◌++◌, arith, if◌then◌else◌, Bool-cases, ◌==◌, nat_eq, text_eq, ==_refl,
  ==→eq, tally, alter, Text, text_beq, codes, lookup, insert, lookup-insert, contains, Result, ok,
  err,
}
use master_data.Errors.{Error, not_found, forbidden}
use master_data.Mongo.{Mongo, IsIn}
use master_data.Mongo.Counts.{tally-same, tally_pos}
use master_data.Repository.Writes.{create-cases, update-cases, written}
use master_data.Catalog.Documents.{
  stamp, Fields, CatalogDoc, catalog_model, pointer_of, from_pointer,
}
use master_data.Catalog.Writers.{
  writer_create, writer_update, writer_delete, load, settable, merge, with_active, may_change,
  owner_text, found, created, done_with, name_taken, changed, merged, update_at, marked, retired,
  delete_at, reserved, to_map, owner_in,
}

pub has_id : ℕ → CatalogDoc → Bool
has_id oid d = d.id == oid

-- At most one document has an id, as the database's index on `_id` has it.
abbrev pub UniqueIds : List CatalogDoc → Type 0
UniqueIds ds = (oid : ℕ) → tally (λ (d : CatalogDoc). d.id == oid) ds ≤ 1

-- The writer adds a document only when it answers with an id.
abbrev pub Added : Option Text → List CatalogDoc → Result Error Text × List CatalogDoc → Type 0
Added owner ds r =
    (r.1 ≡ ds)
    ⊎ ((d : CatalogDoc) × (r.1 ≡ ds ++ d ∷ []) × (d.owner ≡ owner) × ((id : Text) × (r.0 ≡ ok id)))

-- The one document that a caller of this scope may change.
pub record Edit (scope : Option Text) (ds ds' : List CatalogDoc) : Type 0 where
  pub oid : ℕ
  pub change : CatalogDoc → CatalogDoc
  pub old : CatalogDoc
  pub IsIn_old : IsIn old ds
  pub old_id : old.id ≡ oid
  pub allowed : may_change scope old ≡ ok old
  pub same_owner : (change old).owner ≡ old.owner
  pub after : ds' ≡ alter (λ (d : CatalogDoc). d.id == oid) change ds

abbrev pub Edited :
    Option Text → List CatalogDoc → Result Error (Unit {0}) × List CatalogDoc → Type 0
Edited scope ds r = (r.1 ≡ ds) ⊎ ((r.0 ≡ ok tt) × Edit scope ds r.1)

false-true : false ≡ true → ⊥
false-true h = cc

pub may_change-own :
    (company_id : Text) (d d' : CatalogDoc)
    → may_change (some company_id) d ≡ ok d'
    → (d.owner ≡ some company_id) × (company_id ≢ [])
unfolding may_change owner_text text_beq
may_change-own company_id d d' h = own d.owner h
  where
    own :
        (o : Option Text)
        → (if owner_text o == []
            then err forbidden
            else if owner_text o == company_id
            then ok d
            else err not_found)
          ≡ ok d'
        → (o ≡ some company_id) × (company_id ≢ [])
    own none q = cc
    own (some o) q = elim (Bool-cases (o == [])) [
      | inl z ↦ let y = rw z at q in cc
      | inr z ↦ elim (Bool-cases (o == company_id)) [
        | inl w ↦
            let e = ==→eq o company_id w in
            (ap (λ t. some t) e, λ c. false-true (sym z ∙ rw (e ∙ c) (==_refl {K = Text} [])))
        | inr w ↦ let y = rw (z, w) at q in cc
      ]
    ]

may_change-same : (scope : Option Text) (d d' : CatalogDoc) → may_change scope d ≡ ok d' → d' ≡ d
unfolding may_change
may_change-same none d d' h = cc
may_change-same (some c) d d' h = ground arith

not_company : (k : Text) → contains reserved k ≡ false → (k == codes "companyId") ≡ false
unfolding reserved text_beq
not_company k h = elim (Bool-cases (k == codes "companyId")) [
  | inl e ↦ absurd (false-true (sym h ∙ ap (contains reserved) (==→eq k (codes "companyId") e)))
  | inr e ↦ e
]

lookup-merge :
    (payload fields : Fields)
    → lookup (codes "companyId") (merge (settable payload) fields)
      ≡ lookup (codes "companyId") fields
unfolding merge settable
lookup-merge [] fields = refl
lookup-merge ((k, v) ∷ payload) fields = elim (Bool-cases (contains reserved k)) [
  | inl e ↦ rw e (lookup-merge payload fields)
  | inr e ↦ rw e (
      lookup-merge payload (insert k v fields)
      ∙ (lookup-insert k (codes "companyId") v fields ∙ rw (not_company k e) refl))
]

-- Whatever a payload names, the map that an update decodes has the owner of the document.
owner_in-merge :
    (payload : Fields) (d : CatalogDoc) → owner_in (merge (settable payload) (to_map d)) ≡ d.owner
unfolding owner_in to_map from_pointer pointer_of
owner_in-merge payload d =
    ap pointer_of {y = some (from_pointer d.owner)} (
      lookup-merge payload (to_map d)
      ∙ (lookup-insert (codes "companyId") (codes "companyId") (from_pointer d.owner) d.fields
          ∙ rw (==_refl (codes "companyId")) refl))
    ∙ own d.owner
  where
    own : (o : Option Text) → pointer_of (some (from_pointer o)) ≡ o
    own none = refl
    own (some t) = refl

-- A write counts the document that was loaded.
not_zero :
    (ds : List CatalogDoc) (oid : ℕ) (d : CatalogDoc) (n : ℕ)
    → IsIn d ds
    → d.id ≡ oid
    → n ≡ tally (λ (x : CatalogDoc). x.id == oid) ds
    → (n == 0) ≡ false
not_zero ds oid d n i e q =
    let k = tally_pos (λ (x : CatalogDoc). x.id == oid) ds d i (rw e (==_refl oid)) in ground arith

module _ (m : Mongo) (decode : Text → Fields → Option Fields) where
  created-Added :
      (kind : Text) (now new_id : ℕ) (owner : Option Text) (r : Option Fields)
      (ds : List CatalogDoc)
      → Added owner ds (created m decode kind now new_id owner r ds)
  unfolding created stamp name_taken
  created-Added kind now new_id owner none ds = inl refl
  created-Added kind now new_id owner (some fields) ds =
      elim (create-cases m (catalog_model kind) now
        (record {
          id = new_id;
          created_at = 0;
          updated_at = 0;
          deleted = false;
          owner = owner;
          fields = fields;
        })
        ds) [
          | inl (e, q) ↦ inl (ap (λ z. z.1) q)
          | inr (q, v) ↦ inr (
            _,
            ap (λ z. z.1) q,
            refl,
            (m.hex new_id, ap (λ z. done_with (m.hex new_id) (name_taken z.0)) q),
          )
        ]

  pub writer_create-Added :
      (kind : Text) (now new_id : ℕ) (owner : Option Text) (payload : Fields) (ds : List CatalogDoc)
      → Added owner ds (writer_create m decode kind now new_id owner payload ds)
  unfolding writer_create
  writer_create-Added kind now new_id owner payload ds =
      created-Added kind now new_id owner (decode kind (with_active (settable payload))) ds

  load_ok :
      (oid : ℕ) (scope : Option Text) (ds : List CatalogDoc) (d : CatalogDoc)
      → load m decode oid scope ds ≡ ok d
      → IsIn d ds × (d.id ≡ oid) × (may_change scope d ≡ ok d)
  unfolding load found
  load_ok oid scope ds d h = go (m.find_one (λ x. x.id == oid && not x.deleted) ds) refl h
    where
      go :
          (r : Option (Option CatalogDoc))
          → m.find_one (λ (x : CatalogDoc). x.id == oid && not x.deleted) ds ≡ r
          → found scope r ≡ ok d
          → IsIn d ds × (d.id ≡ oid) × (may_change scope d ≡ ok d)
      go none e q = cc
      go (some none) e q = cc
      go (some (some x)) e q =
          let (i, p) = m.find_one-some (λ (x : CatalogDoc). x.id == oid && not x.deleted) ds e in
          let k = may_change-same scope x d q in (rw k i, rw k (ground arith), rw k (q ∙ ap ok k))

  changed-Edited :
      (kind : Text) (now oid : ℕ) (scope : Option Text) (d : CatalogDoc) (owner : Option Text)
      (r : Option Fields) (ds : List CatalogDoc)
      → owner ≡ d.owner
      → UniqueIds ds
      → IsIn d ds × (d.id ≡ oid) × (may_change scope d ≡ ok d)
      → Edited scope ds (changed m decode kind now oid d owner r ds)
  unfolding changed name_taken stamp
  changed-Edited kind now oid scope d owner none ds o u h = inl refl
  changed-Edited kind now oid scope d owner (some fields) ds o u h =
      let doc : CatalogDoc = record d { id = oid; owner = owner; fields = fields } in
      elim (update-cases m (catalog_model kind) now oid doc ds) [
        | inl (e, q) ↦ inl (ap (λ z. z.1) q)
        | inr (n, q, v, z) ↦
            let l =
              m.replace_one_lem (λ (x : CatalogDoc). x.id == oid)
                (written m (catalog_model kind) now false doc) ds q (u oid) in
            let k = not_zero ds oid d n h.0 h.1 l.0 in
            inr (
              ap (λ y. done_with tt (name_taken y))
                  {y = ok (written m (catalog_model kind) now false doc)} (z ∙ rw k refl),
              record {
                oid = oid;
                change = λ _. written m (catalog_model kind) now false doc;
                old = d;
                IsIn_old = h.0;
                old_id = h.1;
                allowed = h.2;
                same_owner = o;
                after = l.1;
              },
            )
      ]

  pub writer_update-Edited :
      (kind : Text) (now : ℕ) (id : Text) (scope : Option Text) (payload : Fields)
      (ds : List CatalogDoc)
      → UniqueIds ds
      → Edited scope ds (writer_update m decode kind now id scope payload ds)
  unfolding writer_update update_at merged
  writer_update-Edited kind now id scope payload ds u = at (m.from_hex id)
    where
      loaded :
          (oid : ℕ) (r : Result Error CatalogDoc)
          → load m decode oid scope ds ≡ r
          → Edited scope ds (merged m decode kind now oid payload r ds)
      loaded oid (err e) q = inl refl
      loaded oid (ok d) q =
          let fields = merge (settable payload) (to_map d) in
          changed-Edited kind now oid scope d (owner_in fields) (decode kind fields) ds
            (owner_in-merge payload d) u (load_ok oid scope ds d q)

      at : (o : Option ℕ) → Edited scope ds (update_at m decode kind now o scope payload ds)
      at none = inl refl
      at (some oid) = loaded oid (load m decode oid scope ds) refl

  pub writer_delete-Edited :
      (id : Text) (scope : Option Text) (ds : List CatalogDoc)
      → UniqueIds ds
      → Edited scope ds (writer_delete m decode id scope ds)
  unfolding writer_delete delete_at retired marked
  writer_delete-Edited id scope ds u = at (m.from_hex id)
    where
      mark :
          (oid : ℕ) (d : CatalogDoc)
          → IsIn d ds × (d.id ≡ oid) × (may_change scope d ≡ ok d)
          → (r : Option (ℕ × List CatalogDoc))
          → m.update_one
              (λ (x : CatalogDoc). x.id == oid)
              (λ (x : CatalogDoc). record x { deleted = true })
              ds
            ≡ r
          → Edited scope ds (marked m decode ds r)
      mark oid d h none q = inl refl
      mark oid d h (some (n, ds')) q =
          let l =
            m.update_one_lem (λ (x : CatalogDoc). x.id == oid)
              (λ (x : CatalogDoc). record x { deleted = true }) ds q (u oid) in
          let k = not_zero ds oid d n h.0 h.1 l.0 in
          rw k (
            inr (
              refl,
              record {
                oid = oid;
                change = λ x. record x { deleted = true };
                old = d;
                IsIn_old = h.0;
                old_id = h.1;
                allowed = h.2;
                same_owner = refl;
                after = l.1;
              },
            ))

      loaded :
          (oid : ℕ) (r : Result Error CatalogDoc)
          → load m decode oid scope ds ≡ r
          → Edited scope ds (retired m decode oid r ds)
      loaded oid (err e) q = inl refl
      loaded oid (ok d) q =
          mark oid d (load_ok oid scope ds d q)
            (m.update_one (λ x. x.id == oid) (λ x. record x { deleted = true }) ds) refl

      at : (o : Option ℕ) → Edited scope ds (delete_at m decode o scope ds)
      at none = inl refl
      at (some oid) = loaded oid (load m decode oid scope ds) refl

-- The document with the id of an edit is the old one.
pub edited_doc :
    (scope : Option Text) (ds ds' : List CatalogDoc) (e : Edit scope ds ds') (d : CatalogDoc)
    → UniqueIds ds
    → IsIn d ds
    → (d.id == e.oid) ≡ true
    → d ≡ e.old
edited_doc scope ds ds' e d u i h =
    tally-same (λ (x : CatalogDoc). x.id == e.oid) ds d e.old i e.IsIn_old h
      (rw e.old_id (==_refl e.oid)) (u e.oid)
