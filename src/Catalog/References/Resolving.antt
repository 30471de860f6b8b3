-- ===== src/Catalog/References/Resolving.antt =====
-- What `Resolve` finds and what `Validate` lets pass.
use master_data.Shared.{
  ℕ, ◌≡◌, refl, ap, subst, ◌∙◌, ◌≢◌, ◌⊎◌, inl, inr, true, false, Option, none, some, List, [], ◌∷◌,
  arith, Bool-cases, Option-cases, ◌==◌, nat_eq, text_eq, ==→eq, All, Text, Result, ok, err, lookup,
  insert,
}
use master_data.Errors.{Error}
use master_data.Mongo.{Mongo, IsIn}
use master_data.Mongo.Counts.{IsIn-append}
use master_data.Catalog.{Entry, Catalog, visibility, to_entry}
use master_data.Catalog.Kinds.{KindSpec, catalog_kinds}
use master_data.Catalog.Documents.{CatalogDoc}
use master_data.Shared.{lookup-All, insert-All}
use master_data.Mongo.Counts.{IsIn-All, IsIn-append, IsIn-after}
use master_data.Catalog.References.{
  and_then, resolve_filter, decode_ids, add_entries, resolve_found, resolve_ids, resolve_kind,
  resolve_loop, resolve, unless_found, missing_ids, missing_refs, validate,
}
use master_data.Catalog.Reads.Kept.{ShownTo}

and_then-ok :
    {A B : Type 0} (r : Result Error A) (f : A → Result Error B) (b : B)
    → and_then r f ≡ ok b
    → (a : A) × (r ≡ ok a) × (f a ≡ ok b)
and_then-ok (err e) f b h = cc
and_then-ok (ok a) f b h = (a, refl, h)

ok-same : {A : Type 0} (a b : A) → ◌≡◌ {A = Result Error A} (ok a) (ok b) → a ≡ b
ok-same a b h = cc

not-blank : (x : Text) → x ≢ [] → (x == []) ≡ false
not-blank x n = elim (Bool-cases (x == [])) [ inl e ↦ absurd (n (==→eq x [] e)) | inr e ↦ e ]

unless-IsIn :
    (m : Mongo) (format_time : ℕ → Text) (x id : Text) (r : Option Entry) (ids : List Text)
    → IsIn id ids
    → IsIn id (unless_found m format_time x r ids)
unfolding unless_found
unless-IsIn m format_time x id none ids i = inr i
unless-IsIn m format_time x id (some e) ids i = i

module _ (m : Mongo) (format_time : ℕ → Text) (company_id : Text) (s : Catalog) where
  -- An entry of a list that the company may see, under its own id.
  abbrev pub Resolved : Text × Entry → Type 0
  Resolved b = (b.0 ≡ b.1.id) × ((kind : Text) × ShownTo m format_time s kind company_id false b.1)

  resolve_filter-parts :
      (oids : List ℕ) (d : CatalogDoc)
      → resolve_filter company_id oids d ≡ true
      → (d.deleted ≡ false) × (visibility company_id false d.owner ≡ true)
  resolve_filter-parts oids d h = (ground arith, ground arith)

  add_entries-Resolved :
      (kind : Text) (ds : List CatalogDoc) (out : List (Text × Entry))
      → All
          (λ d.
            IsIn d (s.docs kind)
            × (d.deleted ≡ false)
            × (visibility company_id false d.owner ≡ true))
          ds
      → All Resolved out
      → All Resolved (add_entries m format_time kind ds out)
  unfolding add_entries to_entry
  add_entries-Resolved kind [] out h a = a
  add_entries-Resolved kind (d ∷ ds) out ((i, l, v), h) a =
      add_entries-Resolved kind ds
        (insert (to_entry m format_time kind d).id (to_entry m format_time kind d) out) h
        (insert-All Resolved (to_entry m format_time kind d).id (to_entry m format_time kind d) out
          (refl, (kind, (d, i, l, v, refl))) a)

  resolve_ids-Resolved :
      (kind : Text) (oids : List ℕ) (out out' : List (Text × Entry))
      → All Resolved out
      → resolve_ids m format_time company_id kind oids out s ≡ ok out'
      → All Resolved out'
  unfolding resolve_ids resolve_found
  resolve_ids-Resolved kind [] out out' a h = subst (All Resolved) (ok-same out out' h) a
  resolve_ids-Resolved kind (o ∷ oids) out out' a h =
      found (m.find (resolve_filter company_id (o ∷ oids)) (s.docs kind)) refl h
    where
      found :
          (r : Option (List CatalogDoc))
          → m.find (resolve_filter company_id (o ∷ oids)) (s.docs kind) ≡ r
          → resolve_found m format_time kind r out ≡ ok out'
          → All Resolved out'
      found none q k = cc
      found (some ds) q k =
          subst (All Resolved) (ok-same (add_entries m format_time kind ds out) out' k) (
            add_entries-Resolved kind ds out
              (IsIn-All _ ds (λ d i.
                let (j, p) =
                  (m.find_lem (resolve_filter company_id (o ∷ oids)) (s.docs kind) q d).0 i in
                let (l, v) = resolve_filter-parts (o ∷ oids) d p in (j, l, v)))
              a)

  resolve_loop-Resolved :
      (refs : List (Text × List Text)) (out out' : List (Text × Entry))
      → All Resolved out
      → resolve_loop m format_time company_id refs out s ≡ ok out'
      → All Resolved out'
  unfolding resolve_loop
  resolve_loop-Resolved [] out out' a h = subst (All Resolved) (ok-same out out' h) a
  resolve_loop-Resolved ((kind, ids) ∷ refs) out out' a h =
      let (mid, q, k) =
        and_then-ok
          (resolve_kind m format_time company_id kind ids (lookup kind catalog_kinds) out s)
          (λ found. resolve_loop m format_time company_id refs found s) out' h in
      resolve_loop-Resolved refs mid out' (at (lookup kind catalog_kinds) mid q) k
    where
      at :
          (o : Option KindSpec) (mid : List (Text × Entry))
          → resolve_kind m format_time company_id kind ids o out s ≡ ok mid
          → All Resolved mid
      at none mid q = cc
      at (some spec) mid q = resolve_ids-Resolved kind (decode_ids m format_time ids) out mid a q

  missing_ids-cases :
      (resolved : List (Text × Entry)) (ids : List Text) (id : Text)
      → IsIn id ids
      → id ≢ []
      → IsIn id (missing_ids m format_time resolved ids)
        ⊎ ((e : Entry) × (lookup id resolved ≡ some e))
  unfolding missing_ids unless_found
  missing_ids-cases resolved [] id i n = elim i [ ]
  missing_ids-cases resolved (x ∷ ids) id (inl q) n = elim (Option-cases (lookup id resolved)) [
    | inr e ↦ inr e
    | inl e ↦
        let w = q in
        inl (rw (not-blank x (λ z. n (q ∙ z)), subst (λ y. lookup y resolved ≡ none) q e) (inl q))
  ]
  missing_ids-cases resolved (x ∷ ids) id (inr i) n = elim (missing_ids-cases resolved ids id i n) [
    | inr e ↦ inr e
    | inl j ↦ inl (elim (Bool-cases (x == [])) [
      | inl z ↦ rw z j
      | inr z ↦ rw z (
          unless-IsIn m format_time x id (lookup x resolved)
            (missing_ids m format_time resolved ids) j)
    ])
  ]

  missing_refs-cases :
      (resolved : List (Text × Entry)) (refs : List (Text × List Text)) (kind id : Text)
      (ids : List Text)
      → IsIn (kind, ids) refs
      → IsIn id ids
      → id ≢ []
      → IsIn id (missing_refs m format_time resolved refs)
        ⊎ ((e : Entry) × (lookup id resolved ≡ some e))
  unfolding missing_refs
  missing_refs-cases resolved [] kind id ids h i n = elim h [ ]
  missing_refs-cases resolved ((k, js) ∷ refs) kind id ids (inl q) i n =
      elim (missing_ids-cases resolved js id (subst (IsIn id) (ap (λ z. z.1) q) i) n) [
        | inl j ↦ inl (
            IsIn-append (missing_ids m format_time resolved js)
              (missing_refs m format_time resolved refs) id j)
        | inr e ↦ inr e
      ]
  missing_refs-cases resolved ((k, js) ∷ refs) kind id ids (inr h) i n =
      elim (missing_refs-cases resolved refs kind id ids h i n) [
        | inl j ↦ inl (
            IsIn-after (missing_ids m format_time resolved js)
              (missing_refs m format_time resolved refs) id j)
        | inr e ↦ inr e
      ]

  -- A reference that `Validate` does not report, and that is not empty, is the id of a live entry of
  -- some list, which the company may see: one of its own or one that Karlo maintains.
  pub validate_sound :
      (refs : List (Text × List Text)) (invalid : List Text) (kind id : Text) (ids : List Text)
      → validate m format_time company_id refs s ≡ ok invalid
      → IsIn (kind, ids) refs
      → IsIn id ids
      → id ≢ []
      → IsIn id invalid ⊎ ((e : Entry) × Resolved (id, e))
  unfolding validate resolve
  validate_sound refs invalid kind id ids h r i n =
      let (resolved, q, k) =
        and_then-ok (resolve m format_time company_id refs s)
          (λ resolved. ok (missing_refs m format_time resolved refs)) invalid h in
      elim (missing_refs-cases resolved refs kind id ids r i n) [
        | inl j ↦
            inl (subst (IsIn id) (ok-same (missing_refs m format_time resolved refs) invalid k) j)
        | inr (e, l) ↦ inr (
          e,
          lookup-All (λ k' e'. Resolved (k', e')) id e resolved l
              (resolve_loop-Resolved refs [] resolved tt q),
        )
      ]
