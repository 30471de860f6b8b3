-- ===== src/Catalog/Coherence.antt =====
-- The cache of the reference lists against their documents: what a kept answer must be, and that no
-- write leaves another behind.
use master_data.Shared.{
  ℕ, ◌≡◌, refl, sym, ap, subst, ◌∙◌, ◌≢◌, ◌⊎◌, inl, inr, Bool, true, false, not, ◌||◌, Option, some,
  List, [], ◌∷◌, ◌++◌, arith, Bool-cases, ◌==◌, nat_eq, text_eq, ==_refl, ==→eq, keep, tally, map,
  All, Text, codes, text_beq,
}
use master_data.Mongo.{Mongo, IsIn}
use master_data.Mongo.Counts.{keep-narrow, tally-narrow, IsIn-keep, kept-IsIn}
use master_data.Cache.{clean, key, prefix, pattern, starts_with}
use master_data.Cache.Families.{NoGlob, prefix-NoGlob, starts_with-prefix}
use master_data.Catalog.{
  Entry, Cached, entry, listing, Catalog, staff_scope, root, Sweep, delete_by_prefix, invalidate,
  scope_for_edit, to_entry,
}
use master_data.Catalog.Documents.{Fields, CatalogDoc}
use master_data.Catalog.Reads.{FindOptions}
use master_data.Catalog.Writers.Cases.{UniqueIds, Edit}
use master_data.Catalog.Writes.Effects.{run_write-Effect}
use master_data.Catalog.Writes.Outcomes.{
  Write, kind_of, run_write, Effect, OwnAdded, IsSwept, skips_sweep,
}
use master_data.Catalog.Scopes.{All-kept, seen, unseen-Edit, unseen_added}
pub use master_data.Catalog.Scopes.{entries, in_scope, All-map}

-- `page` is the part of the matching documents that a find gives for its options, and `Request` says
-- which filters and options a key's scope, list and parts can stand for.
module _ (m : Mongo) (format_time : ℕ → Text)
    (Request : Text → Text → List Text → (CatalogDoc → Bool) → FindOptions → Type 0)
    (page : FindOptions → List CatalogDoc → List CatalogDoc) where
  -- The entry is that of a live document which stands in the list now.
  abbrev pub ShownIn : Catalog → Text → Text → Entry → Type 0
  ShownIn s kind scope e =
      (d : CatalogDoc) × IsIn d (s.docs kind)
      × (d.deleted ≡ false)
      × (in_scope scope d.owner ≡ true)
      × (e ≡ to_entry m format_time kind d)

  -- The listing is the database's present answer to a request that its key stands for: the same
  -- entries in the same order, and the same total.
  pub record UpToDate (s : Catalog) (scope kind : Text) (tail : List Text) (es : List Entry) (n : ℕ)
      : Type 0 where
    pub test : CatalogDoc → Bool
    pub options : FindOptions
    pub request : Request scope kind tail test options
    pub within : (d : CatalogDoc) → test d ≡ true → in_scope scope d.owner ≡ true
    pub total : n ≡ tally test (s.docs kind)
    pub shows : es ≡ map (to_entry m format_time kind) (page options (keep test (s.docs kind)))

  -- A kept answer belongs to its key.
  abbrev pub Answers : Catalog → Text → Text → Cached → Text → List Text → Type 0
  Answers s scope kind (entry e) form tail =
      (form ≡ codes "id")
      × ((id : Text) × (oid : ℕ) × (tail ≡ id ∷ [])
          × (clean id ≡ id)
          × (m.from_hex id ≡ some oid)
          × (e.id ≡ m.hex oid))
  Answers s scope kind (listing es n) form tail =
      (form ≡ codes "list") × UpToDate s scope kind tail es n

  pub record Item (s : Catalog) (k : Text) (v : Cached) : Type 0 where
    pub scope : Text
    pub kind : Text
    pub form : Text
    pub tail : List Text
    pub is_key : k ≡ key (root ++ scope ∷ kind ∷ form ∷ tail)
    pub clean_scope : clean scope ≡ scope
    pub clean_kind : clean kind ≡ kind
    pub shown : All (ShownIn s kind scope) (entries v)
    pub answers : Answers s scope kind v form tail

  -- Every kept answer is what the database holds now, and only what its scope may see.
  abbrev pub Coherent : Catalog → Type 0
  Coherent s = All (λ (b : Text × Cached). Item s b.0 b.1) s.cache

  still-Answers :
      (s s' : Catalog) (scope kind : Text) (v : Cached) (form : Text) (tail : List Text)
      → seen scope (s'.docs kind) ≡ seen scope (s.docs kind)
      → Answers s scope kind v form tail
      → Answers s' scope kind v form tail
  still-Answers s s' scope kind (entry e) form tail q h = h
  still-Answers s s' scope kind (listing es n) form tail q (f, h) =
      let visible : CatalogDoc → Bool = λ (d : CatalogDoc). in_scope scope d.owner in
      (
        f,
        record {
          test = h.test;
          options = h.options;
          request = h.request;
          within = h.within;
          total =
              h.total
              ∙ sym (tally-narrow h.test visible (s.docs kind) h.within)
              ∙ sym (ap (tally h.test) q)
              ∙ tally-narrow h.test visible (s'.docs kind) h.within;
          shows =
              h.shows
              ∙ ap (λ ds. map (to_entry m format_time kind) (page h.options ds))
                  (sym (keep-narrow h.test visible (s.docs kind) h.within)
                    ∙ sym (ap (keep h.test) q)
                    ∙ keep-narrow h.test visible (s'.docs kind) h.within);
        },
      )

  -- An item stays right where the documents that its scope shows stay.
  pub still_kept :
      (s s' : Catalog) (k : Text) (v : Cached) (it : Item s k v)
      → seen it.scope (s'.docs it.kind) ≡ seen it.scope (s.docs it.kind)
      → Item s' k v
  still_kept s s' k v it q = record {
    scope = it.scope;
    kind = it.kind;
    form = it.form;
    tail = it.tail;
    is_key = it.is_key;
    clean_scope = it.clean_scope;
    clean_kind = it.clean_kind;
    shown =
        All-map (entries v)
          (λ (e : Entry) h. (
            h.0,
            (kept-IsIn visible (s'.docs it.kind) h.0
                (subst (IsIn h.0) (sym q) (IsIn-keep visible (s.docs it.kind) h.0 h.1 h.3))).0,
            h.2,
            h.3,
            h.4,
          ))
          it.shown;
    answers = still-Answers s s' it.scope it.kind v it.form it.tail q it.answers;
  }
    where
      visible : CatalogDoc → Bool
      visible d = in_scope it.scope d.owner

  -- What a sweep by a scope and a kind leaves is of another scope or kind.
  unswept :
      (s : Catalog) (k : Text) (v : Cached) (it : Item s k v) (scope : Text)
      → not (starts_with (prefix (root ++ scope ∷ it.kind ∷ [])) k) ≡ true
      → scope ≢ it.scope
  unfolding clean text_beq
  unswept s k v it scope h e =
      let z : starts_with (prefix (root ++ scope ∷ it.kind ∷ [])) k ≡ true =
        rw
          (
            it.is_key,
            starts_with-prefix (root ++ scope ∷ it.kind ∷ [])
                (root ++ it.scope ∷ it.kind ∷ it.form ∷ it.tail),
            e,
            ==_refl (clean it.scope),
            ==_refl (clean it.kind),
          )
          refl in
      let y = rw z at h in cc

  all_swept :
      (s : Catalog) (k : Text) (v : Cached)
      → Item s k v
      → not (starts_with (prefix root) k) ≡ true
      → ⊥
  unfolding clean text_beq
  all_swept s k v it h =
      let z : starts_with (prefix root) k ≡ true =
        rw (it.is_key, starts_with-prefix root (root ++ it.scope ∷ it.kind ∷ it.form ∷ it.tail))
          refl in
      let y = rw z at h in cc

  root_plain : (parts : List Text) → All NoGlob parts → NoGlob (prefix (root ++ parts))
  root_plain parts h = prefix-NoGlob (root ++ parts) (ground arith, (ground arith, h))

  -- A sweep that works: it deletes the keys that begin with a prefix that has no byte with a meaning
  -- of its own.
  module _ (sweep : Sweep)
      (sweeps : (p : Text) (cache : List (Text × Cached))
        → NoGlob p
        → sweep (pattern p) cache
          ≡ keep (λ (b : Text × Cached). not (starts_with p b.0)) cache) where
    swept_items :
        (s s' : Catalog) (kind company_id : Text) (staff : Bool)
        → NoGlob company_id
        → NoGlob kind
        → ((k : Text) (v : Cached) (it : Item s k v)
            → staff ≡ false
            → company_id ≢ []
            → (it.kind ≡ kind → (company_id ≢ it.scope) × (staff_scope ≢ it.scope))
            → Item s' k v)
        → Coherent s
        → All
            (λ (b : Text × Cached). Item s' b.0 b.1)
            (invalidate sweep kind company_id staff s).cache
    unfolding invalidate delete_by_prefix
    swept_items s s' kind company_id staff gc gk f h =
        elim (Bool-cases (staff || company_id == [])) [
          | inl e ↦
              rw (e, sweeps (prefix root) s.cache (root_plain [] tt))
                (All-kept (λ (b : Text × Cached). not (starts_with (prefix root) b.0)) s.cache
                  (λ (b : Text × Cached) it q. absurd (all_swept s b.0 b.1 it q)) h)
          | inr e ↦
              rw
                (
                  e,
                  sweeps (prefix (root ++ company_id ∷ kind ∷ [])) s.cache
                      (root_plain (company_id ∷ kind ∷ []) (gc, (gk, tt))),
                  sweeps (prefix (root ++ staff_scope ∷ kind ∷ []))
                      (keep (λ b. not (starts_with (prefix (root ++ company_id ∷ kind ∷ [])) b.0))
                        s.cache)
                      (root_plain (staff_scope ∷ kind ∷ []) (ground arith, (gk, tt))),
                )
                (All-kept
                  (λ (b : Text × Cached).
                    not (starts_with (prefix (root ++ staff_scope ∷ kind ∷ [])) b.0))
                  (keep (λ b. not (starts_with (prefix (root ++ company_id ∷ kind ∷ [])) b.0))
                    s.cache)
                  (λ (b : Text × Cached)
                      (both : Item s b.0 b.1
                        × (not (starts_with (prefix (root ++ company_id ∷ kind ∷ [])) b.0) ≡ true))
                      q.
                    f b.0 b.1 both.0 (ground arith) (λ z. not_empty company_id z (ground arith))
                      (λ w. (
                        unswept s b.0 b.1 both.0 company_id (
                            at_kind both.0.kind kind
                              (λ x. not (starts_with (prefix (root ++ company_id ∷ x ∷ [])) b.0)) w
                              both.1),
                        unswept s b.0 b.1 both.0 staff_scope (
                            at_kind both.0.kind kind
                              (λ x. not (starts_with (prefix (root ++ staff_scope ∷ x ∷ [])) b.0)) w
                              q),
                      )))
                  (All-kept
                    (λ (b : Text × Cached).
                      not (starts_with (prefix (root ++ company_id ∷ kind ∷ [])) b.0))
                    s.cache (λ (b : Text × Cached) it q. (it, q)) h))
        ]
      where
        at_kind : (x y : Text) (test : Text → Bool) → x ≡ y → test y ≡ true → test x ≡ true
        at_kind x y test e q = ap test e ∙ q

        not_empty : (c : Text) → c ≡ [] → (c == []) ≡ false → ⊥
        not_empty c e q = let z = rw (e, ==_refl {K = Text} []) at q in cc

    module _ (kind company_id : Text) (staff skip : Bool) (s s' : Catalog)
        (e : Effect skip sweep kind company_id staff s s') where
      stays :
          (k : Text) (v : Cached) (it : Item s k v)
          → (it.kind ≡ kind → seen it.scope e.ds ≡ seen it.scope (s.docs kind))
          → Item s' k v
      stays k v it f = still_kept s s' k v it (elim (Bool-cases (it.kind == kind)) [
        | inl q ↦
            let z = ==→eq it.kind kind q in
            rw (e.docs it.kind, q) (f z ∙ ap (λ x. seen it.scope (s.docs x)) (sym z))
        | inr q ↦ rw (e.docs it.kind, q) refl
      ])

      of_cache :
          (cs : List (Text × Cached))
          → s'.cache ≡ cs
          → All (λ (b : Text × Cached). Item s' b.0 b.1) cs
          → Coherent s'
      of_cache cs c a = subst (All (λ (b : Text × Cached). Item s' b.0 b.1)) (sym c) a

      -- What is left after a sweep is of a scope that shows the same as before.
      swept_rest :
          NoGlob company_id
          → NoGlob kind
          → ((scope : Text)
              → staff ≡ false
              → company_id ≢ scope
              → staff_scope ≢ scope
              → seen scope e.ds ≡ seen scope (s.docs kind))
          → Coherent s
          → IsSwept sweep kind company_id staff s s'
          → Coherent s'
      swept_rest gc gk f h c = of_cache (invalidate sweep kind company_id staff s).cache c (
          swept_items s s' kind company_id staff gc gk
            (λ k v it q n y. stays k v it (λ z. f it.scope q (y z).0 (y z).1)) h)

      unchanged :
          NoGlob company_id
          → NoGlob kind
          → e.ds ≡ s.docs kind
          → Coherent s
          → (s'.cache ≡ s.cache) ⊎ IsSwept sweep kind company_id staff s s'
          → Coherent s'
      unchanged gc gk q h (inl c) = of_cache s.cache c (
          All-map s.cache (λ (b : Text × Cached) it. stays b.0 b.1 it (λ z. ap (seen it.scope) q))
            h)
      unchanged gc gk q h (inr c) = swept_rest gc gk (λ scope b n y. ap (seen scope) q) h c

      effect-Coherent :
          UniqueIds (s.docs kind)
          → NoGlob company_id
          → NoGlob kind
          → skip ≡ false
          → Coherent s
          → ((e.ds ≡ s.docs kind)
              ⊎ (OwnAdded company_id staff (s.docs kind) e.ds
                  × (IsSwept sweep kind company_id staff s s' ⊎ (skip ≡ true)))
              ⊎ (Edit (scope_for_edit company_id staff) (s.docs kind) e.ds
                  × IsSwept sweep kind company_id staff s s'))
          → Coherent s'
      unfolding scope_for_edit
      effect-Coherent u gc gk y h (inl q) = unchanged gc gk q h e.cache
      effect-Coherent u gc gk y h (inr (inl (x, inr z))) = cc
      effect-Coherent u gc gk y h (inr (inl ((d, q, o), inl c))) =
          swept_rest gc gk
            (λ scope b n k. rw q (unseen_added company_id scope (s.docs kind) d (o b) n k)) h c
      effect-Coherent u gc gk y h (inr (inr (x, c))) =
          swept_rest gc gk
            (λ scope b n k.
              unseen-Edit company_id scope (s.docs kind) e.ds u
                (subst (λ b. Edit (scope_for_edit company_id b) (s.docs kind) e.ds) b x) n k)
            h c

    -- No write, whoever asks for it and whatever its result, leaves a kept answer that the database
    -- would no longer give: an entry that is changed, deleted or not the caller's, or a listing that
    -- misses an entry, has one too many or another total. What the write has outdated is swept in
    -- every scope that could see it. No two documents of the list have the same id; the ids of the
    -- company and of the list have no byte with a meaning in a pattern; a sweep deletes every key with
    -- its prefix, so Redis does not fail; and the write does not create in a list without owners,
    -- which sweeps nothing.
    pub run_write-Coherent :
        (decode : Text → Fields → Option Fields) (now : ℕ) (company_id : Text) (staff : Bool)
        (w : Write) (s : Catalog)
        → UniqueIds (s.docs (kind_of w))
        → NoGlob company_id
        → NoGlob (kind_of w)
        → skips_sweep w ≡ false
        → Coherent s
        → Coherent (run_write m decode sweep now company_id staff w s)
    run_write-Coherent decode now company_id staff w s u gc gk y h =
        let e = run_write-Effect m decode sweep now company_id staff w s u in
        effect-Coherent (kind_of w) company_id staff (skips_sweep w) s
          (run_write m decode sweep now company_id staff w s) e u gc gk y h e.change
