-- ===== src/Catalog/Reads/Histories.antt =====
-- Histories of the reference lists: writes, reads and answers that the cache forgets, in any order.
use master_data.Shared.{
  ℕ, ◌≡◌, sym, subst, Bool, Option, some, List, [], keep, All, All-keep, Text, false, not, refl,
}
use master_data.Mongo.{Mongo, IsIn}
use master_data.Cache.{pattern, starts_with}
use master_data.Cache.Families.{NoColon, NoGlob}
use master_data.Catalog.{Cached, Catalog, Sweep}
use master_data.Catalog.Documents.{Fields, CatalogDoc}
use master_data.Catalog.Writers.Cases.{UniqueIds}
use master_data.Catalog.Writes.Outcomes.{Write, kind_of, run_write, skips_sweep}
use master_data.Query.{Params}
use master_data.Catalog.Coherence.{Item, Coherent, still_kept, All-map, run_write-Coherent}
use master_data.Catalog.Reads.{FindOptions, get, list}
use master_data.Catalog.Reads.Kept.{Tenant, AnswerOf}
use master_data.Catalog.Reads.Freshness.{get-AnswerOf}
use master_data.Catalog.Reads.Listings.{list-ListRight}
use master_data.Catalog.Reads.Current.{ListRequest, ListAnswer}

module _ (m : Mongo) (format_time : ℕ → Text) (fingerprint : Text → Text) (print_number : ℕ → Text)
    (matches : Text → Text → Bool)
    (find_page : FindOptions → (CatalogDoc → Bool) → List CatalogDoc → Option (List CatalogDoc))
    (sweep : Sweep) where
  -- The states that requests lead to, from callers of every company and from platform staff.
  pub data Reaches (s0 : Catalog) : Catalog → Type 0 where
    start : Reaches s0 s0
    wrote :
        {s : Catalog} (s' : Catalog)
        → Reaches s0 s
        → (decode : Text → Fields → Option Fields) (now : ℕ) (company_id : Text) (staff : Bool)
          (w : Write)
        → UniqueIds (s.docs (kind_of w))
        → NoGlob company_id
        → NoGlob (kind_of w)
        → skips_sweep w ≡ false
        → s' ≡ run_write m decode sweep now company_id staff w s
        → Reaches s0 s'
    got :
        {s : Catalog} (s' : Catalog)
        → Reaches s0 s
        → (kind id company_id : Text) (staff : Bool) → Tenant company_id staff
        → s'
          ≡ (get m format_time fingerprint print_number matches find_page kind id company_id staff
              s).1
        → Reaches s0 s'
    listed :
        {s : Catalog} (s' : Catalog)
        → Reaches s0 s
        → (kind company_id parent_id : Text) (staff : Bool) (p : Params) → Tenant company_id staff
        → s'
          ≡ (list m format_time fingerprint print_number matches find_page kind company_id parent_id
              staff p s).1
        → Reaches s0 s'
    -- Answers reach the end of their time, or the cache is full.
    forgot :
        {s : Catalog} (s' : Catalog)
        → Reaches s0 s
        → (test : Text × Cached → Bool) → s' ≡ record s { cache = keep test s.cache }
        → Reaches s0 s'

forget-Coherent :
    (m : Mongo) (format_time : ℕ → Text)
    (Request : Text → Text → List Text → (CatalogDoc → Bool) → FindOptions → Type 0)
    (page : FindOptions → List CatalogDoc → List CatalogDoc) (test : Text × Cached → Bool)
    (s : Catalog)
    → Coherent m format_time Request page s
    → Coherent m format_time Request page (record s { cache = keep test s.cache })
forget-Coherent m format_time Request page test s h =
    All-map (keep test s.cache)
      (λ (b : Text × Cached) it.
        still_kept m format_time Request page s (record s { cache = keep test s.cache }) b.0 b.1 it
          refl)
      (All-keep (λ (b : Text × Cached). Item m format_time Request page s b.0 b.1) test s.cache h)

module _ (m : Mongo) (format_time : ℕ → Text) (fingerprint : Text → Text) (print_number : ℕ → Text)
    (matches : Text → Text → Bool)
    (find_page : FindOptions → (CatalogDoc → Bool) → List CatalogDoc → Option (List CatalogDoc))
    (sweep : Sweep)
    (from_hex-NoColon : (id : Text) (oid : ℕ) → m.from_hex id ≡ some oid → NoColon id)
    (page : FindOptions → List CatalogDoc → List CatalogDoc)
    (find_page_lem : (o : FindOptions) (p : CatalogDoc → Bool) (ds r : List CatalogDoc)
      → find_page o p ds ≡ some r
      → r ≡ page o (keep p ds))
    (page-IsIn : (o : FindOptions) (ds : List CatalogDoc) (d : CatalogDoc)
      → IsIn d (page o ds)
      → IsIn d ds)
    (sweeps : (p : Text) (cache : List (Text × Cached))
      → NoGlob p
      → sweep (pattern p) cache ≡ keep (λ (b : Text × Cached). not (starts_with p b.0)) cache) where
  reached-Coherent :
      (s0 s : Catalog)
      → Coherent m format_time
          (ListRequest m format_time fingerprint print_number matches find_page)
          page
          s0
      → Reaches m format_time fingerprint print_number matches find_page sweep s0 s
      → Coherent m format_time
          (ListRequest m format_time fingerprint print_number matches find_page)
          page
          s
  reached-Coherent s0 _ c start = c
  reached-Coherent s0 s' c (wrote {s} _ r decode now company_id staff w u gc gk y e) =
      subst
        (Coherent m format_time
          (ListRequest m format_time fingerprint print_number matches find_page) page)
        (sym e)
        (run_write-Coherent m format_time
          (ListRequest m format_time fingerprint print_number matches find_page) page sweep sweeps
          decode now company_id staff w s u gc gk y (reached-Coherent s0 s c r))
  reached-Coherent s0 s' c (got {s} _ r kind id company_id staff t e) =
      subst
        (Coherent m format_time
          (ListRequest m format_time fingerprint print_number matches find_page) page)
        (sym e)
        (get-AnswerOf m format_time fingerprint print_number matches find_page
          (ListRequest m format_time fingerprint print_number matches find_page) page
          from_hex-NoColon s kind id company_id staff t (reached-Coherent s0 s c r)).1
  reached-Coherent s0 s' c (listed {s} _ r kind company_id parent_id staff p t e) =
      subst
        (Coherent m format_time
          (ListRequest m format_time fingerprint print_number matches find_page) page)
        (sym e)
        (list-ListRight m format_time fingerprint print_number matches find_page page find_page_lem
          page-IsIn s kind company_id parent_id staff p t (reached-Coherent s0 s c r)).1
  reached-Coherent s0 s' c (forgot {s} _ r test e) =
      subst
        (Coherent m format_time
          (ListRequest m format_time fingerprint print_number matches find_page) page)
        (sym e)
        (forget-Coherent m format_time
          (ListRequest m format_time fingerprint print_number matches find_page) page test s
          (reached-Coherent s0 s c r))

  -- After any sequence of creates, updates, deletes, `Get`s, `List`s and expiries by any callers, from
  -- an empty cache: what `Get` answers is the live document of that id which the database holds now
  -- and which the caller may see, or that there is none, or an error of the driver. What `List`
  -- answers are entries of live documents that the caller may see; the entries, their order and the
  -- total are the database's present answer to a `List` of the same list and scope whose key is the
  -- same, which is the request itself unless two requests share a key. The requests run one after the
  -- other. Redis does not fail to sweep: every key with the prefix goes. No request creates in a list
  -- without owners, which sweeps nothing. Ids are unique in each list; a reader's company has an id
  -- without a colon that is neither `staff` nor `global`, and the ids of a writer's company and list
  -- have no byte with a meaning in a pattern; the ids that the driver reads have no colon, and a page
  -- of a find is a part of the documents that match.
  pub reads_refine :
      (s0 s : Catalog) (kind id company_id parent_id : Text) (staff : Bool) (p : Params)
      → s0.cache ≡ []
      → Reaches m format_time fingerprint print_number matches find_page sweep s0 s
      → Tenant company_id staff
      → AnswerOf m format_time s kind id company_id staff
          (get m format_time fingerprint print_number matches find_page kind id company_id staff
            s).0
        × ListAnswer m format_time fingerprint print_number matches find_page page s kind company_id
            staff parent_id p
            (list m format_time fingerprint print_number matches find_page kind company_id parent_id
              staff p s).0
  reads_refine s0 s kind id company_id parent_id staff p e r t =
      let empty : Coherent m format_time
          (ListRequest m format_time fingerprint print_number matches find_page) page s0 =
        subst
          (All (λ (b : Text × Cached).
            Item m format_time
              (ListRequest m format_time fingerprint print_number matches find_page) page s0 b.0
              b.1))
          (sym e) tt in
      let c = reached-Coherent s0 s empty r in
      (
        (get-AnswerOf m format_time fingerprint print_number matches find_page
            (ListRequest m format_time fingerprint print_number matches find_page) page
            from_hex-NoColon s kind id company_id staff t c).0,
        (list-ListRight m format_time fingerprint print_number matches find_page page find_page_lem
            page-IsIn s kind company_id parent_id staff p t c).0,
      )
