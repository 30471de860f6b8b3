-- ===== src/Query/Allowed.antt =====
-- Nothing outside the allowlist reaches the database.
use master_data.Shared.{
  ℕ, ◌≡◌, refl, sym, ap, subst, ◌∙◌, inl, inr, Bool, true, false, not, ◌&&◌, ◌||◌, Option, none,
  some, List, [], ◌∷◌, Bool-cases, Option-cases, All, Text,
}
use master_data.Query.{
  Params, Operator, Atoi, parse, from_proto, with_lists, RawFilter, RawSort, FieldSet, resolve,
  ProtoQuery, ProtoFilter, Filter, Sort, at_least_zero, choose_page_size, and_parse, decoded, also,
  parse_filters, parse_filter, clause, parse_sorts, parse_sort, proto_filters, proto_sorts,
  filter_on, sort_on, add_filter, add_sort, unmarshal_value, normalise_operator, first_non_empty,
  is_unknown, is_within, is_empty, list,
}

-- The column is one that the allowlist gives for some name.
abbrev pub IsAllowed : FieldSet → Text → Type 0
IsAllowed allowed column = (name : Text) × (resolve allowed name ≡ some column)

abbrev pub is_none : {A : Type 0} → List A → Bool
is_none [] = true
is_none (x ∷ xs) = false

-- Every column is allowed, and a refused request has no filters and no sorts.
abbrev pub IsSafe : FieldSet → Params → Type 0
IsSafe allowed p =
    All (λ (f : Filter). IsAllowed allowed f.field) p.filters
    × All (λ (s : Sort). IsAllowed allowed s.field) p.sorts
    × ((not p.failed || (is_none p.filters && is_none p.sorts)) ≡ true)

clause-field :
    (column : Text) (o : Operator) (values : List Text) (f : Filter)
    → clause column o values ≡ some f
    → f.field ≡ column
unfolding clause
clause-field column o values f h =
    elim (Bool-cases (is_unknown o || is_within o && is_empty (list values))) [
      | inl q ↦ let z = rw q at h in cc
      | inr q ↦ let z = rw q at h in ap (λ r. elim r [ some x ↦ x.field | none ↦ column ]) (sym z)
    ]

parse_filter-IsAllowed :
    (allowed : FieldSet) (it : RawFilter) (values : Option (List Text)) (f : Filter)
    → parse_filter allowed it values ≡ some f
    → IsAllowed allowed f.field
unfolding parse_filter filter_on
parse_filter-IsAllowed allowed it none f h = cc
parse_filter-IsAllowed allowed it (some values) f h = elim (Option-cases (resolve allowed it.id)) [
  | inl q ↦ let z = rw q at h in cc
  | inr (column, q) ↦
      let z = rw q at h in
      let k =
        clause-field column (normalise_operator (first_non_empty it.operator it.type_name)) values f
          z in
      (it.id, q ∙ ap (λ x. some x) (sym k))
]

parse_sort-IsAllowed :
    (allowed : FieldSet) (it : RawSort) (s : Sort)
    → parse_sort allowed it ≡ some s
    → IsAllowed allowed s.field
unfolding parse_sort sort_on
parse_sort-IsAllowed allowed it s h = elim (Option-cases (resolve allowed it.id)) [
  | inl q ↦ let z = rw q at h in cc
  | inr (column, q) ↦
      let z = rw q at h in
      (it.id, q ∙ ap (λ r. elim r [ some x ↦ some x.field | none ↦ some column ]) z)
]

also-some :
    {A : Type 0} (a : Option A) (r : Option (List A)) (xs : List A)
    → also a r ≡ some xs
    → (x : A) × (ys : List A) × (a ≡ some x) × (r ≡ some ys) × (xs ≡ x ∷ ys)
also-some (some a) (some r) xs h = (a, r, refl, refl, cc)
also-some (some a) none xs h = cc
also-some none r xs h = cc

parse_filters-IsAllowed :
    (allowed : FieldSet) (items : List RawFilter) (fs : List Filter)
    → parse_filters allowed items ≡ some fs
    → All (λ (f : Filter). IsAllowed allowed f.field) fs
unfolding parse_filters
parse_filters-IsAllowed allowed [] fs h =
    subst (All _) (ap (λ r. elim r [ some x ↦ x | none ↦ [] ]) h) tt
parse_filters-IsAllowed allowed (it ∷ items) fs h =
    let (f, r, e, e', k) =
      also-some (parse_filter allowed it (unmarshal_value it.value)) (parse_filters allowed items)
        fs h in
    rw k (
      parse_filter-IsAllowed allowed it (unmarshal_value it.value) f e,
      parse_filters-IsAllowed allowed items r e',
    )

parse_sorts-IsAllowed :
    (allowed : FieldSet) (items : List RawSort) (ss : List Sort)
    → parse_sorts allowed items ≡ some ss
    → All (λ (s : Sort). IsAllowed allowed s.field) ss
unfolding parse_sorts
parse_sorts-IsAllowed allowed [] ss h =
    subst (All _) (ap (λ r. elim r [ some x ↦ x | none ↦ [] ]) h) tt
parse_sorts-IsAllowed allowed (it ∷ items) ss h =
    let (s, r, e, e', k) = also-some (parse_sort allowed it) (parse_sorts allowed items) ss h in
    rw k (parse_sort-IsAllowed allowed it s e, parse_sorts-IsAllowed allowed items r e')

and_parse-some :
    {A B : Type 0} (o : Option A) (f : A → Option B) (b : B)
    → and_parse o f ≡ some b
    → (a : A) × (f a ≡ some b)
and_parse-some none f b h = cc
and_parse-some (some a) f b h = (a, h)

proto_filters-IsAllowed :
    (allowed : FieldSet) (fs : List ProtoFilter)
    → All (λ (f : Filter). IsAllowed allowed f.field) (proto_filters allowed fs)
unfolding proto_filters add_filter
proto_filters-IsAllowed allowed [] = tt
proto_filters-IsAllowed allowed (f ∷ fs) = elim (Option-cases (resolve allowed f.id)) [
  | inl q ↦ rw q (proto_filters-IsAllowed allowed fs)
  | inr (c, q) ↦ rw q ((f.id, q), proto_filters-IsAllowed allowed fs)
]

proto_sorts-IsAllowed :
    (allowed : FieldSet) (ss : List RawSort)
    → All (λ (s : Sort). IsAllowed allowed s.field) (proto_sorts allowed ss)
unfolding proto_sorts add_sort
proto_sorts-IsAllowed allowed [] = tt
proto_sorts-IsAllowed allowed (s ∷ ss) = elim (Option-cases (resolve allowed s.id)) [
  | inl q ↦ rw q (proto_sorts-IsAllowed allowed ss)
  | inr (c, q) ↦ rw q ((s.id, q), proto_sorts-IsAllowed allowed ss)
]

from_proto-IsSafe :
    (q : Option ProtoQuery) (allowed : FieldSet) → IsSafe allowed (from_proto q allowed)
unfolding from_proto
from_proto-IsSafe none allowed = (tt, tt, refl)
from_proto-IsSafe (some q) allowed =
    (proto_filters-IsAllowed allowed q.filtered, proto_sorts-IsAllowed allowed q.sorted, refl)

with_lists-IsSafe :
    (allowed : FieldSet) (page size : ℕ) (search : Text) (f : Option (List Filter))
    (s : Option (List Sort))
    → ((fs : List Filter) → f ≡ some fs → All (λ (x : Filter). IsAllowed allowed x.field) fs)
    → ((ss : List Sort) → s ≡ some ss → All (λ (x : Sort). IsAllowed allowed x.field) ss)
    → IsSafe allowed (with_lists page size search f s)
unfolding with_lists
with_lists-IsSafe allowed page size search none s hf hs = (tt, tt, refl)
with_lists-IsSafe allowed page size search (some f) none hf hs = (tt, tt, refl)
with_lists-IsSafe allowed page size search (some f) (some s) hf hs = (hf f refl, hs s refl, refl)

-- Every column that a request filters or sorts by is one of the allowlist's, by HTTP and by gRPC,
-- whatever the texts and whatever the decoder makes of them. Where the request is refused there are
-- no filters and no sorts.
pub parse-IsSafe :
    (atoi : Text → Atoi) (json_filters : Text → Option (List RawFilter))
    (json_sorts : Text → Option (List RawSort)) (page size filtered sorted search : Text)
    (q : Option ProtoQuery) (allowed : FieldSet)
    → IsSafe allowed (parse atoi json_filters json_sorts page size filtered sorted search allowed)
      × IsSafe allowed (from_proto q allowed)
unfolding parse
parse-IsSafe atoi json_filters json_sorts page size filtered sorted search q allowed = (
  with_lists-IsSafe allowed (at_least_zero (atoi page).value) (choose_page_size (atoi size)) search
      (and_parse (decoded json_filters filtered) (parse_filters allowed))
      (and_parse (decoded json_sorts sorted) (parse_sorts allowed))
      (λ fs e.
        let (items, k) =
          and_parse-some (decoded json_filters filtered) (parse_filters allowed) fs e in
        parse_filters-IsAllowed allowed items fs k)
      (λ ss e.
        let (items, k) = and_parse-some (decoded json_sorts sorted) (parse_sorts allowed) ss e in
        parse_sorts-IsAllowed allowed items ss k),
  from_proto-IsSafe q allowed,
)
