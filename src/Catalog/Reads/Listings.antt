-- ===== src/Catalog/Reads/Listings.antt =====
-- `List` with the cache against the database alone.
use master_data.Shared.{
  ℕ, ◌≡◌, refl, sym, ap, subst, ◌∙◌, ◌++◌, keep, tally, inl, inr, Bool, true, false, not, ◌&&◌,
  Option, none, some, List, [], ◌∷◌, map, arith, Bool-cases, ◌==◌, nat_eq, text_eq, All, Text,
  codes, lookup,
}
use master_data.Mongo.{Mongo, IsIn}
use master_data.Cache.{clean}
use master_data.Catalog.{
  Entry, Cached, entry, listing, Catalog, Outcome, root, catalog_scope, visibility, to_entry,
}
use master_data.Catalog.Kinds.{KindSpec, catalog_kinds}
use master_data.Catalog.Documents.{CatalogDoc}
use master_data.Shared.{lookup-All}
use master_data.Mongo.Counts.{IsIn-All, kept-IsIn}
use master_data.Query.{Params}
use master_data.Catalog.Coherence.{ShownIn, Item, Coherent}
use master_data.Catalog.Reads.{
  FindOptions, list_key, list_filter, list, list_in, list_cached, list_miss, counted, page_found,
  as_listing, find_options,
}
use master_data.Catalog.Reads.Kept.{
  Tenant, ShownTo, clean-kind, clean-catalog_scope, in_scope-visibility, kept_shown, kept_place,
  put-Coherent,
}
use master_data.Cache.{key}
use master_data.Catalog.Reads.Current.{list_tail, ListRequest, CurrentAnswer, ListAnswer}

-- The same key, from the same parts.
same_key :
    (a a' b b' c c' : Text) (t t' : List Text)
    → a ≡ a'
    → b ≡ b'
    → c ≡ c'
    → t ≡ t'
    → key (root ++ a ∷ b ∷ c ∷ t) ≡ key (root ++ a' ∷ b' ∷ c' ∷ t')
same_key a a' b b' c c' t t' ea eb ec et = rw (ea, eb, ec, et) refl

-- What the driver documents of a page of a find: a part of the documents that match.
module _ (m : Mongo) (format_time : ℕ → Text) (fingerprint : Text → Text) (print_number : ℕ → Text)
    (matches : Text → Text → Bool)
    (find_page : FindOptions → (CatalogDoc → Bool) → List CatalogDoc → Option (List CatalogDoc))
    (page : FindOptions → List CatalogDoc → List CatalogDoc)
    (find_page_lem : (o : FindOptions) (p : CatalogDoc → Bool) (ds r : List CatalogDoc)
      → find_page o p ds ≡ some r
      → r ≡ page o (keep p ds))
    (page-IsIn : (o : FindOptions) (ds : List CatalogDoc) (d : CatalogDoc)
      → IsIn d (page o ds)
      → IsIn d ds) where
  abbrev pub ListRight :
      Catalog → Text → Text → Bool → Text → Params → Outcome (List Entry × ℕ) → Type 0
  ListRight s kind company_id staff parent_id p r =
      ListAnswer m format_time fingerprint print_number matches find_page page s kind company_id
        staff parent_id p r.0
      × Coherent m format_time
          (ListRequest m format_time fingerprint print_number matches find_page) page r.1

  list_filter-parts :
      (company_id : Text) (staff : Bool) (parent_field parent_id search : Text) (d : CatalogDoc)
      → list_filter m format_time fingerprint print_number matches find_page company_id staff
          parent_field parent_id search d
        ≡ true
      → (d.deleted ≡ false) × (visibility company_id staff d.owner ≡ true)
  unfolding list_filter
  list_filter-parts company_id staff parent_field parent_id search d h =
      (ground arith, ground arith)

  shown_map :
      (Q : Entry → Type 0) (kind : Text) (ds : List CatalogDoc)
      → All (λ d. Q (to_entry m format_time kind d)) ds
      → All Q (map (to_entry m format_time kind) ds)
  shown_map Q kind [] h = tt
  shown_map Q kind (d ∷ ds) (p, h) = (p, shown_map Q kind ds h)

  page-right :
      (s : Catalog) (kind company_id parent_id : Text) (spec : KindSpec) (staff : Bool) (p : Params)
      (total : ℕ) (r : Option (List CatalogDoc))
      → lookup kind catalog_kinds ≡ some spec
      → total
        ≡ tally
            (list_filter m format_time fingerprint print_number matches find_page company_id staff
              spec.parent_field parent_id p.search)
            (s.docs kind)
      → find_page
          (find_options p)
          (list_filter m format_time fingerprint print_number matches find_page company_id staff
            spec.parent_field parent_id p.search)
          (s.docs kind)
        ≡ r
      → Tenant company_id staff
      → clean kind ≡ kind
      → Coherent m format_time
          (ListRequest m format_time fingerprint print_number matches find_page)
          page
          s
      → ListRight s kind company_id staff parent_id p (
          page_found m format_time fingerprint print_number matches find_page
            (list_key m format_time fingerprint print_number matches find_page
              (catalog_scope company_id staff)
              kind
              parent_id
              p)
            kind
            total
            r
            s)
  unfolding page_found list_key
  page-right s kind company_id parent_id spec staff p total none lk n q t ck c = (tt, c)
  page-right s kind company_id parent_id spec staff p total (some ds) lk n q t ck c =
      let scope = catalog_scope company_id staff in
      let test =
        list_filter m format_time fingerprint print_number matches find_page company_id staff
          spec.parent_field parent_id p.search in
      let shows : map (to_entry m format_time kind) ds
          ≡ map (to_entry m format_time kind) (page (find_options p) (keep test (s.docs kind))) =
        ap (map (to_entry m format_time kind))
          (find_page_lem (find_options p) test (s.docs kind) ds q) in
      let parts : (d : CatalogDoc)
          → IsIn d ds
          → IsIn d (s.docs kind)
            × (d.deleted ≡ false)
            × (visibility company_id staff d.owner ≡ true) =
        λ d i.
          let i' =
            page-IsIn (find_options p) (keep test (s.docs kind)) d
              (subst (IsIn d) (find_page_lem (find_options p) test (s.docs kind) ds q) i) in
          let (j, g) = kept-IsIn test (s.docs kind) d i' in
          let (l, v) =
            list_filter-parts company_id staff spec.parent_field parent_id p.search d g in
          (j, l, v) in
      (
        (
          shown_map (ShownTo m format_time s kind company_id staff) kind ds
              (IsIn-All _ ds (λ d i. let (j, l, v) = parts d i in (d, j, l, v, refl))),
          record {
            caller = company_id;
            caller_staff = staff;
            parent = parent_id;
            params = p;
            spec = spec;
            same_scope = refl;
            listed = lk;
            same_key = refl;
            total = n;
            shows = shows;
          },
        ),
        put-Coherent m format_time
            (ListRequest m format_time fingerprint print_number matches find_page) page _
            (listing (map (to_entry m format_time kind) ds) total) s
            (record {
              scope = scope;
              kind = kind;
              form = codes "list";
              tail = list_tail m format_time fingerprint print_number matches find_page parent_id p;
              is_key = refl;
              clean_scope = clean-catalog_scope company_id staff t;
              clean_kind = ck;
              shown =
                  shown_map
                    (ShownIn m format_time
                      (ListRequest m format_time fingerprint print_number matches find_page) page s
                      kind scope)
                    kind ds
                    (IsIn-All _ ds (λ d i.
                      let (j, l, v) = parts d i in
                      (d, j, l, in_scope-visibility company_id staff d.owner t ∙ v, refl)));
              answers = (
                refl,
                record {
                  test = test;
                  options = find_options p;
                  request = record {
                    company_id = company_id;
                    staff = staff;
                    parent_id = parent_id;
                    params = p;
                    spec = spec;
                    same_scope = refl;
                    listed = lk;
                    same_tail = refl;
                    test_lem = refl;
                    options_lem = refl;
                  };
                  within = λ d h.
                      in_scope-visibility company_id staff d.owner t
                      ∙ (list_filter-parts company_id staff spec.parent_field parent_id p.search d
                          h).1;
                  total = n;
                  shows = shows;
                },
              );
            })
            c,
      )

  -- A kept listing that the key of a request finds.
  kept_listing :
      (s : Catalog) (kind company_id parent_id : Text) (staff : Bool) (p : Params) (es : List Entry)
      (n : ℕ)
      → Tenant company_id staff
      → clean kind ≡ kind
      → (it : Item m format_time
          (ListRequest m format_time fingerprint print_number matches find_page)
          page
          s
          (list_key m format_time fingerprint print_number matches find_page
            (catalog_scope company_id staff)
            kind
            parent_id
            p)
          (listing es n))
      → it.scope ≡ catalog_scope company_id staff
      → it.kind ≡ kind
      → CurrentAnswer m format_time fingerprint print_number matches find_page page s
          (catalog_scope company_id staff)
          kind
          parent_id
          p
          es
          n
  unfolding list_key
  kept_listing s kind company_id parent_id staff p es n t ck it ps pk =
      let u = it.answers.1 in
      let r = u.request in
      let filter =
        list_filter m format_time fingerprint print_number matches find_page r.company_id r.staff
          r.spec.parent_field r.parent_id r.params.search in
      record {
        caller = r.company_id;
        caller_staff = r.staff;
        parent = r.parent_id;
        params = r.params;
        spec = r.spec;
        same_scope = r.same_scope ∙ ps;
        listed = subst (λ z. lookup z catalog_kinds ≡ some r.spec) pk r.listed;
        same_key = sym (
            it.is_key
            ∙ same_key it.scope (catalog_scope company_id staff) it.kind kind it.form (codes "list")
                it.tail
                (list_tail m format_time fingerprint print_number matches find_page r.parent_id
                  r.params)
                ps pk it.answers.0 r.same_tail);
        total =
            u.total
            ∙ ap (λ f. tally f (s.docs it.kind)) r.test_lem
            ∙ ap (λ k. tally filter (s.docs k)) pk;
        shows =
            u.shows
            ∙ ap
                (λ f.
                  map (to_entry m format_time it.kind) (page u.options (keep f (s.docs it.kind))))
                r.test_lem
            ∙ ap (λ o. map (to_entry m format_time it.kind) (page o (keep filter (s.docs it.kind))))
                r.options_lem
            ∙ ap
                (λ k.
                  map (to_entry m format_time k)
                    (page (find_options r.params) (keep filter (s.docs k))))
                pk;
      }

  -- What `List` answers is what the database holds now, whatever the cache has kept, if it was
  -- coherent, and the cache stays coherent: every entry is that of a live document which the caller
  -- may see, and the entries and the total are the present answer to a `List` of the same key. The
  -- caller is as for `Get`; a page of a find is a part of the documents that match.
  pub list-ListRight :
      (s : Catalog) (kind company_id parent_id : Text) (staff : Bool) (p : Params)
      → Tenant company_id staff
      → Coherent m format_time
          (ListRequest m format_time fingerprint print_number matches find_page)
          page
          s
      → ListRight s kind company_id staff parent_id p (
          list m format_time fingerprint print_number matches find_page kind company_id parent_id
            staff p s)
  unfolding list list_in list_cached list_miss counted list_key as_listing clean
  list-ListRight s kind company_id parent_id staff p t c = listed (lookup kind catalog_kinds) refl
    where
      k : Text
      k =
          list_key m format_time fingerprint print_number matches find_page
            (catalog_scope company_id staff) kind parent_id p

      cached :
          (spec : KindSpec) (r : Option Cached)
          → lookup kind catalog_kinds ≡ some spec
          → lookup k s.cache ≡ r
          → clean kind ≡ kind
          → ListRight s kind company_id staff parent_id p (
              list_cached m format_time fingerprint print_number matches find_page k kind company_id
                staff parent_id p spec r s)
      cached spec (some (entry e)) lk q ck =
          let it =
            lookup-All
              (Item m format_time
                (ListRequest m format_time fingerprint print_number matches find_page) page s)
              k (entry e) s.cache q c in
          let place =
            kept_place m format_time
              (ListRequest m format_time fingerprint print_number matches find_page) page s kind
              company_id staff k (entry e) it (codes "list")
              (list_tail m format_time fingerprint print_number matches find_page parent_id p) t ck
              refl in
          let z : codes "id" ≡ codes "list" = sym (ap clean it.answers.0) ∙ place.2 in cc
      cached spec (some (listing es n)) lk q ck =
          let it =
            lookup-All
              (Item m format_time
                (ListRequest m format_time fingerprint print_number matches find_page) page s)
              k (listing es n) s.cache q c in
          let place =
            kept_place m format_time
              (ListRequest m format_time fingerprint print_number matches find_page) page s kind
              company_id staff k (listing es n) it (codes "list")
              (list_tail m format_time fingerprint print_number matches find_page parent_id p) t ck
              refl in
          (
            (
              kept_shown m format_time
                  (ListRequest m format_time fingerprint print_number matches find_page) page s kind
                  company_id staff k (listing es n) it t place.0 place.1,
              kept_listing s kind company_id parent_id staff p es n t ck it place.0 place.1,
            ),
            c,
          )
      cached spec none lk q ck =
          elim (Bool-cases (not (parent_id == []) && spec.parent_field == [])) [
            | inl e ↦ rw e (tt, c)
            | inr e ↦ rw e (total (m.count_documents test (s.docs kind)) refl)
          ]
        where
          test : CatalogDoc → Bool
          test =
              list_filter m format_time fingerprint print_number matches find_page company_id staff
                spec.parent_field parent_id p.search

          total :
              (n : Option ℕ)
              → m.count_documents test (s.docs kind) ≡ n
              → ListRight s kind company_id staff parent_id p (
                  counted m format_time fingerprint print_number matches find_page k kind test p n
                    s)
          total none e = (tt, c)
          total (some n) e =
              page-right s kind company_id parent_id spec staff p n _ lk
                (m.count_lem test (s.docs kind) e) refl t ck c

      listed :
          (o : Option KindSpec)
          → lookup kind catalog_kinds ≡ o
          → ListRight s kind company_id staff parent_id p (
              list_in m format_time fingerprint print_number matches find_page kind company_id staff
                parent_id p o s)
      listed none h = (h, c)
      listed (some spec) h = cached spec (lookup k s.cache) h refl (clean-kind kind spec h)
