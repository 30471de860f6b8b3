-- ===== src/Catalog/Scopes.antt =====
-- What a scope of the cache may show, and the writes that do not touch it.
use master_data.Shared.{
  ◌≡◌, sym, ◌∙◌, ◌≢◌, inl, inr, Bool, true, false, not, ◌&&◌, ◌||◌, Option, none, some, List, [],
  ◌∷◌, ◌++◌, arith, Bool-cases, ◌==◌, nat_eq, text_eq, ==→eq, keep, keep-append, append-nil, All,
  Text,
}
use master_data.Mongo.Counts.{keep-alter}
use master_data.Catalog.{Entry, Cached, entry, listing, staff_scope, global_scope}
use master_data.Catalog.Documents.{CatalogDoc}
use master_data.Catalog.Writers.Cases.{UniqueIds, Edit, may_change-own, edited_doc}

-- The entries that a kept answer shows.
abbrev pub entries : Cached → List Entry
entries (entry e) = e ∷ []
entries (listing es n) = es

-- What a scope of the cache may show.
abbrev pub in_scope : Text → Option Text → Bool
in_scope scope none = true
in_scope scope (some o) = scope == staff_scope || (not (scope == global_scope) && o == scope)

pub All-map {ℓ κ μ} :
    {A : Type ℓ} {P : A → Type κ} {Q : A → Type μ} (xs : List A)
    → ((a : A) → P a → Q a)
    → All P xs
    → All Q xs
All-map [] f h = tt
All-map (x ∷ xs) f (p, h) = (f x p, All-map xs f h)

pub All-kept :
    {A : Type 0} {P Q : A → Type 0} (p : A → Bool) (xs : List A)
    → ((a : A) → P a → p a ≡ true → Q a)
    → All P xs
    → All Q (keep p xs)
All-kept p [] f h = tt
All-kept p (x ∷ xs) f (q, h) = elim (Bool-cases (p x)) [
  | inl e ↦ rw e (f x q e, All-kept p xs f h)
  | inr e ↦ rw e (All-kept p xs f h)
]

pub not_shown :
    (scope o : Text) → o ≢ scope → staff_scope ≢ scope → in_scope scope (some o) ≡ true → ⊥
not_shown scope o n k h = elim (Bool-cases (scope == staff_scope)) [
  | inl e ↦ k (sym (==→eq scope staff_scope e))
  | inr e ↦ elim (Bool-cases (o == scope)) [
    | inl q ↦ n (==→eq o scope q)
    | inr q ↦ absurd (ground arith)
  ]
]

pub not_in_scope :
    (scope company_id : Text)
    → company_id ≢ scope
    → staff_scope ≢ scope
    → in_scope scope (some company_id) ≡ false
not_in_scope scope company_id n k = elim (Bool-cases (in_scope scope (some company_id))) [
  | inl e ↦ absurd (not_shown scope company_id n k e)
  | inr e ↦ e
]

-- The documents that a scope may show.
abbrev pub seen : Text → List CatalogDoc → List CatalogDoc
seen scope ds = keep (λ (d : CatalogDoc). in_scope scope d.owner) ds

-- A write of a company's does not touch what another scope shows.
pub unseen-Edit :
    (company_id scope : Text) (ds ds' : List CatalogDoc)
    → UniqueIds ds
    → Edit (some company_id) ds ds'
    → company_id ≢ scope
    → staff_scope ≢ scope
    → seen scope ds' ≡ seen scope ds
unseen-Edit company_id scope ds ds' u e n k = rw e.after (
    keep-alter (λ (d : CatalogDoc). in_scope scope d.owner) (λ (d : CatalogDoc). d.id == e.oid)
      e.change ds
      (λ d i h.
        let z = edited_doc (some company_id) ds ds' e d u i h in
        let o = (may_change-own company_id e.old e.old e.allowed).0 in
        let no = not_in_scope scope company_id n k in (rw (z, o) no, rw (z, e.same_owner, o) no)))

pub unseen_added :
    (company_id scope : Text) (ds : List CatalogDoc) (d : CatalogDoc)
    → d.owner ≡ some company_id
    → company_id ≢ scope
    → staff_scope ≢ scope
    → seen scope (ds ++ d ∷ []) ≡ seen scope ds
unseen_added company_id scope ds d o n k =
    keep-append (λ (x : CatalogDoc). in_scope scope x.owner) ds (d ∷ [])
    ∙ rw (o, not_in_scope scope company_id n k) (append-nil (seen scope ds))
