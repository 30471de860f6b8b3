-- ===== src/Catalog/References.antt =====
-- internal/services/catalog.go: `Resolve` and `Validate`. A map of references is a list in the order
-- of iteration.
pub mod Resolving
use master_data.Shared.{
  ℕ, Bool, false, not, ◌&&◌, Option, none, some, List, [], ◌∷◌, ◌++◌, if◌then◌else◌, ◌==◌, nat_eq,
  text_eq, contains, Text, Result, ok, err, lookup, insert,
}
use master_data.Errors.{Error, unknown_kind, failure}
use master_data.Mongo.{Mongo}
use master_data.Mongo
use master_data.Repository
use master_data.Catalog.{Entry, Catalog, visibility, to_entry}
use master_data.Catalog.Kinds.{KindSpec, catalog_kinds}
use master_data.Catalog.Documents.{CatalogDoc}

abbrev pub and_then : {A B : Type 0} → Result Error A → (A → Result Error B) → Result Error B
and_then (err e) f = err e
and_then (ok a) f = f a

abbrev pub resolve_filter : Text → List ℕ → CatalogDoc → Bool
resolve_filter company_id oids d =
    contains oids d.id && not d.deleted && visibility company_id false d.owner

module _ (m : Mongo) (format_time : ℕ → Text) where
  with_id : Option ℕ → List ℕ → List ℕ
  with_id none oids = oids
  with_id (some oid) oids = oid ∷ oids

  unfoldable pub decode_ids : List Text → List ℕ
  unfolding with_id
  decode_ids [] = []
  decode_ids (id ∷ ids) = with_id (m.from_hex id) (decode_ids ids)

  unfoldable pub add_entries : Text → List CatalogDoc → List (Text × Entry) → List (Text × Entry)
  add_entries kind [] out = out
  add_entries kind (d ∷ ds) out =
      add_entries kind ds
        (insert (to_entry m format_time kind d).id (to_entry m format_time kind d) out)

  resolve_found :
      Text → Option (List CatalogDoc) → List (Text × Entry) → Result Error (List (Text × Entry))
  unfolding add_entries
  resolve_found kind none out = err failure
  resolve_found kind (some ds) out = ok (add_entries kind ds out)

  resolve_ids :
      Text → Text → List ℕ → List (Text × Entry) → Catalog → Result Error (List (Text × Entry))
  unfolding resolve_found
  resolve_ids company_id kind [] out s = ok out
  resolve_ids company_id kind (o ∷ oids) out s =
      resolve_found kind (m.find (resolve_filter company_id (o ∷ oids)) (s.docs kind)) out

  resolve_kind :
      Text
      → Text
      → List Text
      → Option KindSpec
      → List (Text × Entry)
      → Catalog
      → Result Error (List (Text × Entry))
  unfolding resolve_ids decode_ids
  resolve_kind company_id kind ids none out s = err unknown_kind
  resolve_kind company_id kind ids (some spec) out s =
      resolve_ids company_id kind (decode_ids ids) out s

  unfoldable pub resolve_loop :
      Text
      → List (Text × List Text)
      → List (Text × Entry)
      → Catalog
      → Result Error (List (Text × Entry))
  unfolding resolve_kind
  resolve_loop company_id [] out s = ok out
  resolve_loop company_id ((kind, ids) ∷ refs) out s =
      and_then (resolve_kind company_id kind ids (lookup kind catalog_kinds) out s)
        (λ found. resolve_loop company_id refs found s)

  unfoldable pub resolve :
      Text → List (Text × List Text) → Catalog → Result Error (List (Text × Entry))
  unfolding resolve_loop
  resolve company_id refs s = resolve_loop company_id refs [] s

  unless_found : Text → Option Entry → List Text → List Text
  unless_found id none ids = id ∷ ids
  unless_found id (some e) ids = ids

  unfoldable pub missing_ids : List (Text × Entry) → List Text → List Text
  unfolding unless_found
  missing_ids resolved [] = []
  missing_ids resolved (id ∷ ids) =
      if id == []
      then missing_ids resolved ids
      else unless_found id (lookup id resolved) (missing_ids resolved ids)

  unfoldable pub missing_refs : List (Text × Entry) → List (Text × List Text) → List Text
  unfolding missing_ids
  missing_refs resolved [] = []
  missing_refs resolved ((kind, ids) ∷ refs) =
      missing_ids resolved ids ++ missing_refs resolved refs

  unfoldable pub validate : Text → List (Text × List Text) → Catalog → Result Error (List Text)
  unfolding missing_refs
  validate company_id refs s =
      and_then (resolve company_id refs s) (λ resolved. ok (missing_refs resolved refs))
