-- ===== src/Catalog/Reads/Kept.antt =====
-- What an answer that the cache has kept says to the caller whose key finds it.
use master_data.Shared.{
  split, ℕ, zero, suc, ◌≡◌, refl, sym, ap, subst, ◌∙◌, ◌≢◌, ◌⊎◌, inl, inr, Bool, true, false, not,
  Option, none, some, List, [], ◌∷◌, ◌++◌, map, arith, Bool-cases, ◌==◌, nat_eq, text_eq, ==→eq,
  exists, All, Text, codes, text_beq, Result, ok, err, lookup,
}
use master_data.Errors.{Error, not_found, unknown_kind}
use master_data.Mongo.{Mongo, IsIn}
use master_data.Cache.{colon, clean, key}
use master_data.Cache.Families.{NoColon, clean_lem, split-key}
use master_data.Catalog.{
  Entry, Cached, entry, listing, Catalog, Outcome, staff_scope, global_scope, catalog_scope, root,
  entry_key, visibility, to_entry,
}
use master_data.Catalog.Kinds.{KindSpec, catalog_kinds}
use master_data.Catalog.Documents.{CatalogDoc}
use master_data.Shared.{insert-All, lookup-untested}
use master_data.Catalog.Coherence.{in_scope, Item, Coherent, still_kept, entries, All-map}
use master_data.Catalog.Reads.{FindOptions, get_filter, put, as_entry}

-- A caller whose scope is its own: platform staff, or a company whose id is not one of the two
-- scopes' names and has no colon, as no object id has.
abbrev pub Tenant : Text → Bool → Type 0
Tenant company_id staff =
    (staff ≡ true) ⊎ (NoColon company_id × (company_id ≢ staff_scope) × (company_id ≢ global_scope))

not-eq : (a b : Text) → a ≢ b → (a == b) ≡ false
not-eq a b n = elim (Bool-cases (a == b)) [ inl e ↦ absurd (n (==→eq a b e)) | inr e ↦ e ]

pub clean-catalog_scope :
    (company_id : Text) (staff : Bool)
    → Tenant company_id staff
    → clean (catalog_scope company_id staff) ≡ catalog_scope company_id staff
unfolding catalog_scope clean
clean-catalog_scope company_id true t = refl
clean-catalog_scope company_id false (inl t) = cc
clean-catalog_scope company_id false (inr t) = elim (Bool-cases (company_id == [])) [
  | inl e ↦ rw e refl
  | inr e ↦ rw e (clean_lem company_id t.0)
]

-- A scope shows what its caller may see.
pub in_scope-visibility :
    (company_id : Text) (staff : Bool) (owner : Option Text)
    → Tenant company_id staff
    → in_scope (catalog_scope company_id staff) owner ≡ visibility company_id staff owner
unfolding catalog_scope visibility text_beq
in_scope-visibility company_id true none t = refl
in_scope-visibility company_id true (some o) t = refl
in_scope-visibility company_id false none t = refl
in_scope-visibility company_id false (some o) (inl t) = cc
in_scope-visibility company_id false (some o) (inr t) = elim (Bool-cases (company_id == [])) [
  | inl e ↦ rw e refl
  | inr e ↦ rw (e, not-eq company_id staff_scope t.1, not-eq company_id global_scope t.2) refl
]

pub unclean : Text → Bool
unclean k = not (clean k == k)

pub clean-kind :
    (kind : Text) (spec : KindSpec) → lookup kind catalog_kinds ≡ some spec → clean kind ≡ kind
unfolding catalog_kinds clean text_beq unclean
clean-kind kind spec h =
    let z = lookup-untested unclean kind spec catalog_kinds h refl in
    ==→eq (clean kind) kind (ground arith)

after_form : List Text → List Text
after_form (a ∷ b ∷ c ∷ d ∷ e ∷ rest) = rest
after_form _ = []

segment : ℕ → List Text → Text
segment n [] = []
segment zero (s ∷ ss) = s
segment (suc n) (s ∷ ss) = segment n ss

same_segments : (a b : List Text) → key a ≡ key b → map clean a ≡ map clean b
same_segments a b e =
    ap (λ l. elim l [ [] ↦ [] | x ∷ l' ↦ elim l' [ [] ↦ [] | y ∷ r ↦ r ] ])
      (sym (split-key a) ∙ ap (split colon) e ∙ split-key b)

-- A read changes nothing but what is kept.
pub put-Coherent :
    (m : Mongo) (format_time : ℕ → Text)
    (Request : Text → Text → List Text → (CatalogDoc → Bool) → FindOptions → Type 0)
    (page : FindOptions → List CatalogDoc → List CatalogDoc) (k : Text) (c : Cached) (s : Catalog)
    → Item m format_time Request page s k c
    → Coherent m format_time Request page s
    → Coherent m format_time Request page (put k c s)
put-Coherent m format_time Request page k c s it h =
    let moved = λ (k' : Text) (c' : Cached) (it' : Item m format_time Request page s k' c').
      still_kept m format_time Request page s (put k c s) k' c' it' refl in
    insert-All (λ (b : Text × Cached). Item m format_time Request page (put k c s) b.0 b.1) k c
      s.cache (moved k c it) (All-map s.cache (λ (b : Text × Cached) it'. moved b.0 b.1 it') h)

-- What a key of an entry, or of a list, says of a kept answer.
module _ (m : Mongo) (format_time : ℕ → Text) where
  -- The entry of a live document of the list that the caller may see.
  abbrev pub ShownTo : Catalog → Text → Text → Bool → Entry → Type 0
  ShownTo s kind company_id staff e =
      (d : CatalogDoc) × IsIn d (s.docs kind)
      × (d.deleted ≡ false)
      × (visibility company_id staff d.owner ≡ true)
      × (e ≡ to_entry m format_time kind d)

  -- The answer of the database, had it been asked: the document of the id, or that there is none.
  abbrev pub AnswerOf : Catalog → Text → Text → Text → Bool → Result Error Entry → Type 0
  AnswerOf s kind id company_id staff (ok e) =
      ShownTo s kind company_id staff e
      × ((oid : ℕ) × (m.from_hex id ≡ some oid) × (e.id ≡ m.hex oid))
  AnswerOf s kind id company_id staff (err not_found) =
      (m.from_hex id ≡ none)
      ⊎ ((oid : ℕ) × (m.from_hex id ≡ some oid)
          × (exists (get_filter oid company_id staff) (s.docs kind) ≡ false))
  AnswerOf s kind id company_id staff (err unknown_kind) = lookup kind catalog_kinds ≡ none
  AnswerOf s kind id company_id staff (err _) = Unit

  -- The entries of a listing, or an error.
  abbrev pub ShowsOnly : Catalog → Text → Text → Bool → Result Error (List Entry × ℕ) → Type 0
  ShowsOnly s kind company_id staff (ok (es, total)) = All (ShownTo s kind company_id staff) es
  ShowsOnly s kind company_id staff (err e) = Unit

module _ (m : Mongo) (format_time : ℕ → Text)
    (Request : Text → Text → List Text → (CatalogDoc → Bool) → FindOptions → Type 0)
    (page : FindOptions → List CatalogDoc → List CatalogDoc) where
  abbrev pub GetRight : Catalog → Text → Text → Text → Bool → Outcome Entry → Type 0
  GetRight s kind id company_id staff r =
      AnswerOf m format_time s kind id company_id staff r.0
      × Coherent m format_time Request page r.1

  pub kept_shown :
      (s : Catalog) (kind company_id : Text) (staff : Bool) (k : Text) (c : Cached)
      (it : Item m format_time Request page s k c)
      → Tenant company_id staff
      → it.scope ≡ catalog_scope company_id staff
      → it.kind ≡ kind
      → All (ShownTo m format_time s kind company_id staff) (entries c)
  kept_shown s kind company_id staff k c it t es ek =
      All-map (entries c)
        (λ (e : Entry) h.
          let o : visibility company_id staff h.0.owner ≡ true =
            sym (in_scope-visibility company_id staff h.0.owner t)
            ∙ subst (λ z. in_scope z h.0.owner ≡ true) es h.3 in
          (
            h.0,
            subst (λ z. IsIn h.0 (s.docs z)) ek h.1,
            h.2,
            o,
            subst (λ z. e ≡ to_entry m format_time z h.0) ek h.4,
          ))
        it.shown

  -- The scope and the kind that a key names.
  pub kept_place :
      (s : Catalog) (kind company_id : Text) (staff : Bool) (k : Text) (c : Cached)
      (it : Item m format_time Request page s k c) (form : Text) (tail : List Text)
      → Tenant company_id staff
      → clean kind ≡ kind
      → k ≡ key (root ++ catalog_scope company_id staff ∷ kind ∷ form ∷ tail)
      → (it.scope ≡ catalog_scope company_id staff)
        × (it.kind ≡ kind)
        × (clean it.form ≡ clean form)
        × (map clean it.tail ≡ map clean tail)
  unfolding segment clean after_form
  kept_place s kind company_id staff k c it form tail t ck e =
      let q =
        same_segments (root ++ it.scope ∷ it.kind ∷ it.form ∷ it.tail)
          (root ++ catalog_scope company_id staff ∷ kind ∷ form ∷ tail) (sym it.is_key ∙ e) in
      (
        sym it.clean_scope ∙ ap (segment 2) q ∙ clean-catalog_scope company_id staff t,
        sym it.clean_kind ∙ ap (segment 3) q ∙ ck,
        ap (segment 4) q,
        ap after_form q,
      )

  pub kept_entry :
      (s : Catalog) (kind id company_id : Text) (staff : Bool) (oid : ℕ) (c : Cached)
      → Tenant company_id staff
      → clean kind ≡ kind
      → clean id ≡ id
      → m.from_hex id ≡ some oid
      → Item m format_time Request page s (entry_key (catalog_scope company_id staff) kind id) c
      → AnswerOf m format_time s kind id company_id staff (ok (as_entry c))
  unfolding entry_key clean as_entry segment
  kept_entry s kind id company_id staff oid (listing es n) t ck ci h it =
      let p =
        kept_place s kind company_id staff _ (listing es n) it (codes "id") (id ∷ []) t ck refl in
      let z : codes "list" ≡ codes "id" = sym (ap clean it.answers.0) ∙ p.2 in cc
  kept_entry s kind id company_id staff oid (entry e) t ck ci h it =
      let p = kept_place s kind company_id staff _ (entry e) it (codes "id") (id ∷ []) t ck refl in
      let (f, (id', oid', tl, c', h', x)) = it.answers in
      let z : id' ≡ id = sym c' ∙ ap (segment 0) (sym (ap (map clean) tl) ∙ p.3) ∙ ci in
      (
        (kept_shown s kind company_id staff _ (entry e) it t p.0 p.1).0,
        (oid', subst (λ y. m.from_hex y ≡ some oid') z h', x),
      )
