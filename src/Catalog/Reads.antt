-- ===== src/Catalog/Reads.antt =====
-- internal/services/catalog.go and helpers.go: `List` and `Get`. The hash, the
-- printer of numbers and the matcher of patterns are parameters, and so is the ordered page that a
-- find returns.
pub mod Kept
pub mod Freshness
pub mod Current
pub mod Listings
pub mod Histories
use master_data.Shared.{ℤ}
use master_data.Shared.{
  ℕ, Bool, false, not, ◌&&◌, ◌||◌, Option, none, some, List, [], ◌∷◌, ◌++◌, map, if◌then◌else◌,
  ◌==◌, nat_eq, text_eq, contains, Text, codes, to_lower, ok, err, lookup, insert,
}
use master_data.Errors.{not_found, validation, unknown_kind, failure}
use master_data.Models.{active}
use master_data.Mongo.{Mongo}
use master_data.Mongo
use master_data.Repository
use master_data.Normalise.{name}
use master_data.Cache.{key}
use master_data.Catalog.{
  Entry, Cached, entry, listing, Catalog, Outcome, catalog_scope, root, entry_key, visibility,
  to_entry,
}
use master_data.Catalog.Kinds.{KindSpec, catalog_kinds}
use master_data.Catalog.Documents.{Value, text, texts, CatalogDoc}
use master_data.Query.{
  Params, Filter, Sort, Operator, eq, neq, like, within, gt, gte, lt, lte, between, unknown, offset,
}

-- `regexSpecial`.
is_special : ℕ → Bool
is_special c = contains (codes ".*+?()[]{}|^$\\") c

unfoldable pub escape_regex : Text → Text
unfolding is_special
escape_regex [] = []
escape_regex (c ∷ s) = if is_special c then b'\\' ∷ c ∷ escape_regex s else c ∷ escape_regex s

-- A find's skip, limit and sort; `true` is descending.
pub record FindOptions : Type 0 where
  pub skip : ℤ
  pub limit : ℕ
  pub sort : List (Text × Bool)

sort_keys : List Sort → List (Text × Bool)
sort_keys [] = (codes "_id", false) ∷ []
sort_keys (s ∷ []) = (s.field, s.desc) ∷ []
sort_keys (s ∷ t ∷ ss) = (s.field, s.desc) ∷ sort_keys (t ∷ ss)

unfoldable pub find_options : Params → FindOptions
unfolding sort_keys
find_options p = record { skip = offset p; limit = p.page_size; sort = sort_keys p.sorts }

-- The constants of query.go.
abbrev pub operator_text : Operator → Text
operator_text eq = codes "eq"
operator_text neq = codes "neq"
operator_text like = codes "like"
operator_text within = codes "in"
operator_text gt = codes "gt"
operator_text gte = codes "gte"
operator_text lt = codes "lt"
operator_text lte = codes "lte"
operator_text between = codes "between"
operator_text unknown = codes "?"

filters_text : List Filter → Text
filters_text [] = []
filters_text (f ∷ fs) =
    codes "|f:"
    ++ f.field
    ++ codes ":"
    ++ operator_text f.operator
    ++ codes ":"
    ++ f.value
    ++ filters_text fs

sorts_text : List Sort → Text
sorts_text [] = []
sorts_text (s ∷ ss) =
    codes "|s:"
    ++ s.field
    ++ codes ":"
    ++ (if s.desc then codes "true" else codes "false")
    ++ sorts_text ss

unfoldable pub list_text : Params → Text
unfolding filters_text sorts_text
list_text p = p.search ++ filters_text p.filters ++ sorts_text p.sorts

-- `{field: value}`.
equals : Text → Option Value → Bool
equals value (some (text t)) = t == value
equals value (some (texts ts)) = contains ts value
equals value _ = false

-- What is stored under the key of an entry or a list, read as the other: JSON with no field that
-- the reader asks for.
zero_entry : Entry
zero_entry = record {
  id = [];
  kind = [];
  company_id = none;
  code = [];
  name = [];
  description = [];
  active = false;
  attrs = [];
  created_at = [];
  updated_at = [];
}

unfoldable pub as_entry : Cached → Entry
unfolding zero_entry
as_entry (entry e) = e
as_entry (listing es n) = zero_entry

unfoldable pub as_listing : Cached → List Entry × ℕ
as_listing (entry e) = ([], 0)
as_listing (listing es n) = (es, n)

abbrev pub put : Text → Cached → Catalog → Catalog
put k c s = record s { cache = insert k c s.cache }

abbrev pub get_filter : ℕ → Text → Bool → CatalogDoc → Bool
get_filter oid company_id staff d =
    d.id == oid && not d.deleted && visibility company_id staff d.owner

module _ (m : Mongo) (format_time : ℕ → Text) (fingerprint : Text → Text) (print_number : ℕ → Text)
    (matches : Text → Text → Bool)
    (find_page : FindOptions
      → (CatalogDoc → Bool)
      → List CatalogDoc
      → Option (List CatalogDoc)) where
  unfoldable pub list_key : Text → Text → Text → Params → Text
  list_key scope kind parent_id p = key (
      root
      ++ scope
        ∷ kind
        ∷ codes "list"
        ∷ (if parent_id == [] then codes "-" else parent_id)
        ∷ print_number p.page
        ∷ print_number p.page_size
        ∷ fingerprint (list_text p)
        ∷ [])

  -- A regular expression never matches a field that is missing or no text.
  searched : Text → Option Value → Bool
  searched pattern (some (text t)) = matches pattern t
  searched pattern _ = false

  unfoldable pub list_filter : Text → Bool → Text → Text → Text → CatalogDoc → Bool
  unfolding equals searched
  list_filter company_id staff parent_field parent_id search d =
      not d.deleted
      && visibility company_id staff d.owner
      && (parent_id == [] || equals parent_id (lookup parent_field d.fields))
      && (search == []
          || searched (b'^' ∷ escape_regex (to_lower search))
              (lookup (codes "nameNormalised") d.fields))

  abbrev pub to_entries : Text → List CatalogDoc → List Entry
  to_entries kind ds = map (to_entry m format_time kind) ds

  page_found : Text → Text → ℕ → Option (List CatalogDoc) → Catalog → Outcome (List Entry × ℕ)
  page_found k kind total none s = (err failure, s)
  page_found k kind total (some ds) s =
      (ok (to_entries kind ds, total), put k (listing (to_entries kind ds) total) s)

  counted :
      Text → Text → (CatalogDoc → Bool) → Params → Option ℕ → Catalog → Outcome (List Entry × ℕ)
  unfolding page_found
  counted k kind test p none s = (err failure, s)
  counted k kind test p (some total) s =
      page_found k kind total (find_page (find_options p) test (s.docs kind)) s

  list_miss :
      Text → Text → Text → Bool → Text → Params → KindSpec → Catalog → Outcome (List Entry × ℕ)
  unfolding counted
  list_miss k kind company_id staff parent_id p spec s =
      if not (parent_id == []) && spec.parent_field == []
      then (err validation, s)
      else let test = list_filter company_id staff spec.parent_field parent_id p.search in
        counted k kind test p (m.count_documents test (s.docs kind)) s

  list_cached :
      Text
      → Text
      → Text
      → Bool
      → Text
      → Params
      → KindSpec
      → Option Cached
      → Catalog
      → Outcome (List Entry × ℕ)
  unfolding list_miss
  list_cached k kind company_id staff parent_id p spec (some c) s = (ok (as_listing c), s)
  list_cached k kind company_id staff parent_id p spec none s =
      list_miss k kind company_id staff parent_id p spec s

  list_in :
      Text → Text → Bool → Text → Params → Option KindSpec → Catalog → Outcome (List Entry × ℕ)
  unfolding list_cached
  list_in kind company_id staff parent_id p none s = (err unknown_kind, s)
  list_in kind company_id staff parent_id p (some spec) s =
      let k = list_key (catalog_scope company_id staff) kind parent_id p in
      list_cached k kind company_id staff parent_id p spec (lookup k s.cache) s

  unfoldable pub list : Text → Text → Text → Bool → Params → Catalog → Outcome (List Entry × ℕ)
  unfolding list_in
  list kind company_id parent_id staff p s =
      list_in kind company_id staff parent_id p (lookup kind catalog_kinds) s

  entry_found : Text → Text → Option (Option CatalogDoc) → Catalog → Outcome Entry
  entry_found k kind none s = (err failure, s)
  entry_found k kind (some none) s = (err not_found, s)
  entry_found k kind (some (some d)) s =
      (ok (to_entry m format_time kind d), put k (entry (to_entry m format_time kind d)) s)

  get_cached : Text → Text → ℕ → Text → Bool → Option Cached → Catalog → Outcome Entry
  unfolding entry_found
  get_cached k kind oid company_id staff (some c) s = (ok (as_entry c), s)
  get_cached k kind oid company_id staff none s =
      entry_found k kind (m.find_one (get_filter oid company_id staff) (s.docs kind)) s

  get_at : Text → Text → Text → Bool → Option ℕ → Catalog → Outcome Entry
  unfolding get_cached
  get_at kind id company_id staff none s = (err not_found, s)
  get_at kind id company_id staff (some oid) s =
      let k = entry_key (catalog_scope company_id staff) kind id in
      get_cached k kind oid company_id staff (lookup k s.cache) s

  get_in : Text → Text → Text → Bool → Option KindSpec → Catalog → Outcome Entry
  unfolding get_at
  get_in kind id company_id staff none s = (err unknown_kind, s)
  get_in kind id company_id staff (some spec) s = get_at kind id company_id staff (m.from_hex id) s

  unfoldable pub get : Text → Text → Text → Bool → Catalog → Outcome Entry
  unfolding get_in
  get kind id company_id staff s = get_in kind id company_id staff (lookup kind catalog_kinds) s
