-- ===== src/Catalog/Reads/Freshness.antt =====
-- `Get` with the cache against the database alone.
use master_data.Shared.{
  ℕ, ◌≡◌, refl, ap, ◌∙◌, inl, inr, Bool, true, false, Option, none, some, List, [], ◌∷◌, arith,
  nat_eq, text_eq, Text, codes, lookup,
}
use master_data.Mongo.{Mongo, IsIn}
use master_data.Cache.{clean}
use master_data.Cache.Families.{NoColon, clean_lem}
use master_data.Catalog.{Cached, entry, Catalog, catalog_scope, entry_key, visibility, to_entry}
use master_data.Catalog.Kinds.{KindSpec, catalog_kinds}
use master_data.Catalog.Documents.{CatalogDoc}
use master_data.Shared.{lookup-All}
use master_data.Catalog.Coherence.{Item, Coherent}
use master_data.Catalog.Reads.{
  FindOptions, get, get_in, get_at, get_cached, get_filter, entry_found,
}
use master_data.Catalog.Reads.Kept.{
  Tenant, clean-kind, clean-catalog_scope, in_scope-visibility, kept_entry, GetRight, put-Coherent,
}

-- What the driver documents of its ids.
module _ (m : Mongo) (format_time : ℕ → Text) (fingerprint : Text → Text) (print_number : ℕ → Text)
    (matches : Text → Text → Bool)
    (find_page : FindOptions → (CatalogDoc → Bool) → List CatalogDoc → Option (List CatalogDoc))
    (Request : Text → Text → List Text → (CatalogDoc → Bool) → FindOptions → Type 0)
    (page : FindOptions → List CatalogDoc → List CatalogDoc)
    (from_hex-NoColon : (id : Text) (oid : ℕ) → m.from_hex id ≡ some oid → NoColon id) where
  get_filter-parts :
      (oid : ℕ) (company_id : Text) (staff : Bool) (d : CatalogDoc)
      → get_filter oid company_id staff d ≡ true
      → (d.id ≡ oid) × (d.deleted ≡ false) × (visibility company_id staff d.owner ≡ true)
  get_filter-parts oid company_id staff d h = (ground arith, ground arith, ground arith)

  kept_as :
      (s : Catalog) (kind id company_id : Text) (staff : Bool) (oid : ℕ) (d : CatalogDoc)
      → Tenant company_id staff
      → clean kind ≡ kind
      → m.from_hex id ≡ some oid
      → IsIn d (s.docs kind)
      → get_filter oid company_id staff d ≡ true
      → Item m format_time Request page s
          (entry_key (catalog_scope company_id staff) kind id)
          (entry (to_entry m format_time kind d))
  unfolding entry_key to_entry
  kept_as s kind id company_id staff oid d t ck h i p =
      let (e, l, v) = get_filter-parts oid company_id staff d p in
      record {
        scope = catalog_scope company_id staff;
        kind = kind;
        form = codes "id";
        tail = id ∷ [];
        is_key = refl;
        clean_scope = clean-catalog_scope company_id staff t;
        clean_kind = ck;
        shown = ((d, i, l, in_scope-visibility company_id staff d.owner t ∙ v, refl), tt);
        answers = (refl, (id, oid, refl, clean_lem id (from_hex-NoColon id oid h), h, ap m.hex e));
      }

  found-right :
      (s : Catalog) (kind id company_id : Text) (staff : Bool) (oid : ℕ)
      (r : Option (Option CatalogDoc))
      → m.find_one (get_filter oid company_id staff) (s.docs kind) ≡ r
      → Tenant company_id staff
      → clean kind ≡ kind
      → m.from_hex id ≡ some oid
      → Coherent m format_time Request page s
      → GetRight m format_time Request page s kind id company_id staff (
          entry_found m format_time fingerprint print_number matches find_page
            (entry_key (catalog_scope company_id staff) kind id)
            kind
            r
            s)
  unfolding entry_found to_entry
  found-right s kind id company_id staff oid none q t ck h c = (tt, c)
  found-right s kind id company_id staff oid (some none) q t ck h c =
      (inr (oid, h, m.find_one-none (get_filter oid company_id staff) (s.docs kind) q), c)
  found-right s kind id company_id staff oid (some (some d)) q t ck h c =
      let (i, p) = m.find_one-some (get_filter oid company_id staff) (s.docs kind) q in
      let (e, l, v) = get_filter-parts oid company_id staff d p in
      (
        ((d, i, l, v, refl), (oid, h, ap m.hex e)),
        put-Coherent m format_time Request page (entry_key (catalog_scope company_id staff) kind id)
            (entry (to_entry m format_time kind d)) s
            (kept_as s kind id company_id staff oid d t ck h i p) c,
      )

  -- `Get` gives what the database holds now: an entry is that of the live document of the id asked
  -- for, which the caller may see, and `not found` means that there is none. That is so whatever the
  -- cache has kept, if it was coherent, and the cache stays coherent. The caller is platform staff or
  -- a company whose id has no colon and is neither `staff` nor `global`; the ids that the driver
  -- reads have no colon.
  pub get-AnswerOf :
      (s : Catalog) (kind id company_id : Text) (staff : Bool)
      → Tenant company_id staff
      → Coherent m format_time Request page s
      → GetRight m format_time Request page s kind id company_id staff
          (get m format_time fingerprint print_number matches find_page kind id company_id staff s)
  unfolding get get_in get_at get_cached
  get-AnswerOf s kind id company_id staff t c = listed (lookup kind catalog_kinds) refl
    where
      k : Text
      k = entry_key (catalog_scope company_id staff) kind id

      cached :
          (oid : ℕ) (r : Option Cached)
          → lookup k s.cache ≡ r
          → clean kind ≡ kind
          → m.from_hex id ≡ some oid
          → GetRight m format_time Request page s kind id company_id staff (
              get_cached m format_time fingerprint print_number matches find_page k kind oid
                company_id staff r s)
      cached oid (some v) q ck h = (
        kept_entry m format_time Request page s kind id company_id staff oid v t ck
            (clean_lem id (from_hex-NoColon id oid h)) h
            (lookup-All (Item m format_time Request page s) k v s.cache q c),
        c,
      )
      cached oid none q ck h = found-right s kind id company_id staff oid _ refl t ck h c

      at :
          (o : Option ℕ)
          → m.from_hex id ≡ o
          → clean kind ≡ kind
          → GetRight m format_time Request page s kind id company_id staff (
              get_at m format_time fingerprint print_number matches find_page kind id company_id
                staff o s)
      at none h ck = (inl h, c)
      at (some oid) h ck = cached oid (lookup k s.cache) refl ck h

      listed :
          (o : Option KindSpec)
          → lookup kind catalog_kinds ≡ o
          → GetRight m format_time Request page s kind id company_id staff (
              get_in m format_time fingerprint print_number matches find_page kind id company_id
                staff o s)
      listed none h = (h, c)
      listed (some spec) h = at (m.from_hex id) refl (clean-kind kind spec h)
