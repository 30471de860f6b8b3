-- ===== src/Catalog/Tests.antt =====
-- Runs of the reference lists and the witnesses of their theorems, over a database in memory.
use master_data.Shared.{
  ℕ, ◌+◌, ◌≡◌, refl, sym, ap, subst, ◌⊎◌, inl, inr, Bool, true, false, not, ◌++◌, ◌&&◌, Option,
  none, some, List, [], ◌∷◌, arith, leb, if◌then◌else◌, Bool-cases, ◌==◌, nat_eq, text_eq, ==→eq,
  keep, Text, codes, text_beq, ok, lookup, insert,
}
use master_data.Mongo.{IsIn}
use master_data.Repository
use master_data.Normalise.{name}
use master_data.Cache.Families.{NoColon, NoGlob}
use master_data.Catalog.{Entry, Cached, Catalog, Sweep, scope_for_edit, visibility, to_entry}
use master_data.Catalog.Kinds.{catalog_kinds}
use master_data.Catalog.Documents.{Fields, CatalogDoc}
use master_data.Catalog.Writers.Cases.{UniqueIds}
use master_data.Catalog.Writes.Outcomes.{Write, update_entry, run_write}
use master_data.Mongo.Memory.{in_memory, parse_id, print_id}
use master_data.Query.{Params}
use master_data.Catalog.Documents.{text}
use master_data.Catalog.Writers.{writable, writer_update}
use master_data.Catalog.Writes.{update}
use master_data.Catalog.Writes.Frame.{others, run_write_leaves}
use master_data.Catalog.Coherence.{Coherent, run_write-Coherent}
use master_data.Catalog.Reads.{FindOptions, get, list}
use master_data.Catalog.Reads.Kept.{Tenant, AnswerOf}
use master_data.Catalog.Reads.Current.{ListRequest, ListAnswer}
use master_data.Catalog.Reads.Freshness.{get-AnswerOf}
use master_data.Cache.{pattern, starts_with}
use master_data.Catalog.Reads.Histories.{start, wrote, got, reads_refine}
use master_data.Catalog.References.{validate, resolve}
use master_data.Catalog.References.Resolving.{Resolved, validate_sound}

abbrev brand : Text
brand = codes "brand"

abbrev company : Text
company = codes "c1"

named : ℕ → Option Text → Text → CatalogDoc
named id owner name = record {
  id = id;
  created_at = 1;
  updated_at = 1;
  deleted = false;
  owner = owner;
  fields = (codes "name", text name) ∷ [];
}

abbrev stored : Catalog
stored = record {
  docs = λ k.
      if k == brand
      then named 1 none (codes "Hino")
        ∷ named 2 (some company) (codes "Own")
        ∷ named 3 (some (codes "c2")) (codes "Theirs")
        ∷ []
      else [];
  vehicles = [];
  cache = [];
  notices = [];
}

any_fields : Text → Fields → Option Fields
any_fields kind fields = some fields

no_time : ℕ → Text
no_time t = []

same_text : Text → Text
same_text t = t

one_digit : ℕ → Text
one_digit n = (n + 48) ∷ []

abbrev first_rows : FindOptions → (CatalogDoc → Bool) → List CatalogDoc → Option (List CatalogDoc)
first_rows o p ds = some (keep p ds)

abbrev whole_page : FindOptions → List CatalogDoc → List CatalogDoc
whole_page o ds = ds

first_rows_lem :
    (o : FindOptions) (p : CatalogDoc → Bool) (ds r : List CatalogDoc)
    → first_rows o p ds ≡ some r
    → r ≡ whole_page o (keep p ds)
first_rows_lem o p ds r h = cc

whole_page-IsIn :
    (o : FindOptions) (ds : List CatalogDoc) (d : CatalogDoc) → IsIn d (whole_page o ds) → IsIn d ds
whole_page-IsIn o ds d i = i

-- Redis with a matcher of patterns that end in `*`.
without_last : Text → Text
without_last [] = []
without_last (c ∷ []) = []
without_last (c ∷ d ∷ s) = c ∷ without_last (d ∷ s)

abbrev sweep_all : Sweep
sweep_all p cache = keep (λ b. not (starts_with (without_last p) b.0)) cache

without_last-append : (p : Text) (c : ℕ) → without_last (p ++ c ∷ []) ≡ p
unfolding without_last
without_last-append [] c = refl
without_last-append (d ∷ []) c = refl
without_last-append (d ∷ e ∷ p) c = ap (λ r. d ∷ r) (without_last-append (e ∷ p) c)

sweep_all_lem :
    (p : Text) (cache : List (Text × Cached))
    → NoGlob p
    → sweep_all (pattern p) cache ≡ keep (λ (b : Text × Cached). not (starts_with p b.0)) cache
unfolding pattern
sweep_all_lem p cache h = rw (without_last-append p b'*') refl

parse_id-NoColon : (id : Text) (oid : ℕ) → parse_id id ≡ some oid → NoColon id
parse_id-NoColon [] oid h = cc
parse_id-NoColon (c ∷ s) oid h = elim (Bool-cases (leb 100 c && s == [])) [
  | inr e ↦ let z = rw e at h in cc
  | inl e ↦ (ground arith, subst NoColon (sym (==→eq s [] (ground arith))) tt)
]

unique_brands : UniqueIds (stored.docs brand)
unfolding named text_beq
unique_brands oid = ground arith

-- The state once the company has read its entry: the cache holds the answer.
abbrev after_get : Catalog
after_get =
    (get in_memory no_time same_text one_digit (λ p t. true) first_rows brand (print_id 2) company
      false stored).1

unique_after_get : UniqueIds (after_get.docs brand)
unfolding get lookup catalog_kinds text_beq named visibility
unique_after_get = unique_brands

abbrev renamed : Write
renamed = update_entry brand (print_id 2) ((codes "name", text (codes "New")) ∷ [])

abbrev after_update : Catalog
after_update = run_write in_memory any_fields sweep_all 9 company false renamed after_get

abbrev a_page : Params
a_page = record { failed = false; page = 0; page_size = 20; filters = []; sorts = []; search = [] }

company-Tenant : Tenant company false
company-Tenant = inr (ground arith, λ e. cc, λ e. cc)

updated :
    (update in_memory any_fields sweep_all 9 brand
      (print_id 2)
      company
      false
      ((codes "name", text (codes "New")) ∷ [])
      after_get).0
    ≡ ok tt
unfolding update writable text_beq writer_update get lookup catalog_kinds named visibility
    scope_for_edit any_fields Repository.update
updated = refl

run_write_leaves_example :
    others company
      ((run_write in_memory any_fields sweep_all 9 company false renamed stored).docs brand)
    ≡ others company (stored.docs brand)
run_write_leaves_example =
    run_write_leaves company in_memory any_fields sweep_all 9 renamed stored brand unique_brands

-- The cache holds the answer that the company has read.
after_get-Coherent :
    Coherent in_memory no_time
      (ListRequest in_memory no_time same_text one_digit (λ p t. true) first_rows)
      whole_page
      after_get
after_get-Coherent =
    (get-AnswerOf in_memory no_time same_text one_digit (λ p t. true) first_rows
      (ListRequest in_memory no_time same_text one_digit (λ p t. true) first_rows) whole_page
      parse_id-NoColon stored brand (print_id 2) company false company-Tenant tt).1

run_write-Coherent_example :
    Coherent in_memory no_time
      (ListRequest in_memory no_time same_text one_digit (λ p t. true) first_rows)
      whole_page
      (run_write in_memory any_fields sweep_all 9 company false renamed after_get)
run_write-Coherent_example =
    run_write-Coherent in_memory no_time
      (ListRequest in_memory no_time same_text one_digit (λ p t. true) first_rows) whole_page
      sweep_all sweep_all_lem any_fields 9 company false renamed after_get unique_after_get
      (ground arith) (ground arith) refl after_get-Coherent

reads_refine_example :
    AnswerOf in_memory no_time after_update brand
      (print_id 2)
      company
      false
      (get in_memory no_time same_text one_digit
        (λ p t. true)
        first_rows
        brand
        (print_id 2)
        company
        false
        after_update).0
    × ListAnswer in_memory no_time same_text one_digit
        (λ p t. true)
        first_rows
        whole_page
        after_update
        brand
        company
        false
        []
        a_page
        (list in_memory no_time same_text one_digit
          (λ p t. true)
          first_rows
          brand
          company
          []
          false
          a_page
          after_update).0
reads_refine_example =
    reads_refine in_memory no_time same_text one_digit (λ p t. true) first_rows sweep_all
      parse_id-NoColon whole_page first_rows_lem whole_page-IsIn sweep_all_lem stored after_update
      brand (print_id 2) company [] false a_page refl
      (wrote after_update (got after_get start brand (print_id 2) company false company-Tenant refl)
        any_fields 9 company false renamed unique_after_get (ground arith) (ground arith) refl refl)
      company-Tenant

abbrev references : List (Text × List Text)
references = (brand, print_id 1 ∷ print_id 3 ∷ []) ∷ []

reported : validate in_memory no_time company references stored ≡ ok (print_id 3 ∷ [])
unfolding validate resolve lookup catalog_kinds text_beq named visibility insert to_entry
reported = refl

validate_sound_example :
    IsIn (print_id 1) (print_id 3 ∷ [])
    ⊎ ((e : Entry) × Resolved in_memory no_time company stored (print_id 1, e))
validate_sound_example =
    validate_sound in_memory no_time company stored references (print_id 3 ∷ []) brand (print_id 1)
      (print_id 1 ∷ print_id 3 ∷ []) reported (inl refl) (inl refl) (λ e. cc)
