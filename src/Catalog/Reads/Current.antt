-- ===== src/Catalog/Reads/Current.antt =====
-- The answer that the database would give to a `List` now.
use master_data.Shared.{
  ℕ, ◌≡◌, keep, tally, Result, ok, err, Bool, Option, none, some, List, [], ◌∷◌, map, if◌then◌else◌,
  ◌==◌, nat_eq, text_eq, All, Text, codes, lookup,
}
use master_data.Mongo.{Mongo}
use master_data.Catalog.{Entry, Catalog, catalog_scope, to_entry}
use master_data.Catalog.Kinds.{KindSpec, catalog_kinds}
use master_data.Catalog.Documents.{CatalogDoc}
use master_data.Query.{Params}
use master_data.Catalog.Reads.{FindOptions, list_key, list_filter, list_text, find_options}
use master_data.Catalog.Reads.Kept.{ShownTo}
use master_data.Errors.{Error, unknown_kind}

module _ (m : Mongo) (format_time : ℕ → Text) (fingerprint : Text → Text) (print_number : ℕ → Text)
    (matches : Text → Text → Bool)
    (find_page : FindOptions
      → (CatalogDoc → Bool)
      → List CatalogDoc
      → Option (List CatalogDoc)) where
  -- What a key says of a page of a list.
  abbrev pub list_tail : Text → Params → List Text
  list_tail parent_id p =
      (if parent_id == [] then codes "-" else parent_id)
      ∷ print_number p.page
      ∷ print_number p.page_size
      ∷ fingerprint (list_text p)
      ∷ []

  -- The filter and the options are those of a `List` whose key has these parts.
  pub record ListRequest (scope kind : Text) (tail : List Text) (test : CatalogDoc → Bool)
      (options : FindOptions) : Type 0 where
    pub company_id : Text
    pub staff : Bool
    pub parent_id : Text
    pub params : Params
    pub spec : KindSpec
    pub same_scope : catalog_scope company_id staff ≡ scope
    pub listed : lookup kind catalog_kinds ≡ some spec
    pub same_tail : tail ≡ list_tail parent_id params
    pub test_lem :
        test
        ≡ list_filter m format_time fingerprint print_number matches find_page company_id staff
            spec.parent_field parent_id params.search
    pub options_lem : options ≡ find_options params

  -- The entries and the total are what the database holds now for some `List` of the same list with
  -- the same key, by a caller of the same scope.
  pub record CurrentAnswer (page : FindOptions → List CatalogDoc → List CatalogDoc) (s : Catalog)
      (scope kind parent_id : Text) (p : Params) (es : List Entry) (n : ℕ) : Type 0 where
    pub caller : Text
    pub caller_staff : Bool
    pub parent : Text
    pub params : Params
    pub spec : KindSpec
    pub same_scope : catalog_scope caller caller_staff ≡ scope
    pub listed : lookup kind catalog_kinds ≡ some spec
    pub same_key :
        list_key m format_time fingerprint print_number matches find_page scope kind parent params
        ≡ list_key m format_time fingerprint print_number matches find_page scope kind parent_id p
    pub total :
        n
        ≡ tally
            (list_filter m format_time fingerprint print_number matches find_page caller
              caller_staff spec.parent_field parent params.search)
            (s.docs kind)
    pub shows :
        es
        ≡ map (to_entry m format_time kind) (
            page (find_options params) (
              keep
                (list_filter m format_time fingerprint print_number matches find_page caller
                  caller_staff spec.parent_field parent params.search)
                (s.docs kind)))

  abbrev pub ListAnswer :
      (FindOptions → List CatalogDoc → List CatalogDoc)
      → Catalog
      → Text
      → Text
      → Bool
      → Text
      → Params
      → Result Error (List Entry × ℕ)
      → Type 0
  ListAnswer page s kind company_id staff parent_id p (ok (es, n)) =
      All (ShownTo m format_time s kind company_id staff) es
      × CurrentAnswer page s (catalog_scope company_id staff) kind parent_id p es n
  ListAnswer page s kind company_id staff parent_id p (err unknown_kind) =
      lookup kind catalog_kinds ≡ none
  ListAnswer page s kind company_id staff parent_id p (err _) = Unit
