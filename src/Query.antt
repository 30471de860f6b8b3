-- ===== src/Query.antt =====
-- internal/platform/query/query.go: what a list request may ask for. The JSON decoder, the decimal
-- printer of floats and `strconv.Atoi` are parameters. A page is a number: no code here makes a
-- negative one. `int` has 64 bits.
pub mod Bounds
pub mod Allowed
mod Tests
use master_data.Shared.{ℤ, pos, negsuc}
use master_data.Shared.{
  split, ℕ, ◌+◌, ◌-◌, ◌*◌, ◌/◌, ◌%◌, Bool, true, false, ◌&&◌, ◌||◌, Option, none, some, List, [],
  ◌∷◌, ltb, if◌then◌else◌, ◌==◌, nat_eq, text_eq, exists, contains, Text, codes, to_lower,
  trim_space, lookup,
}

abbrev pub max_page_size : ℕ
max_page_size = 200

abbrev pub default_page_size : ℕ
default_page_size = 20

pub data Operator : Type 0 where
  eq neq like within gt gte lt lte between unknown : Operator

pub record Filter : Type 0 where
  pub field : Text
  pub value : Text
  pub operator : Operator
  pub values : List Text

pub record Sort : Type 0 where
  pub field : Text
  pub desc : Bool

-- `err` is `Err != nil`.
pub record Params : Type 0 where
  pub failed : Bool
  pub page : ℕ
  pub page_size : ℕ
  pub filters : List Filter
  pub sorts : List Sort
  pub search : Text

-- A product of Go's `int`: it wraps at 64 bits, and is negative from 2 ^ 63 on.
unfoldable pub wrap : ℕ → ℤ
wrap n =
    let r = n % 18446744073709551616 in
    if ltb r 9223372036854775808 then pos r else negsuc (18446744073709551615 - r)

unfoldable pub offset : Params → ℤ
unfolding wrap
offset p = if ltb p.page 1 then pos 0 else wrap (p.page * p.page_size)

unfoldable pub total_pages : Params → ℕ → ℕ
total_pages p total =
    if p.page_size == 0
    then 0
    else if total % p.page_size == 0
    then total / p.page_size
    else total / p.page_size + 1

-- What `strconv.Atoi` returns: its value also stands where it returns an error.
pub record Atoi : Type 0 where
  pub value : ℤ
  pub error : Bool

abbrev pub at_least_zero : ℤ → ℕ
at_least_zero (pos n) = n
at_least_zero (negsuc n) = 0

unfoldable pub choose_page_size : Atoi → ℕ
choose_page_size a =
    let size = at_least_zero a.value in
    if a.error || size == 0
    then default_page_size
    else if ltb max_page_size size
    then max_page_size
    else size

-- `nil` is `none`.
abbrev pub FieldSet : Type 0
FieldSet = Option (List (Text × Text))

unfoldable pub resolve : FieldSet → Text → Option Text
resolve none name = none
resolve (some fields) name = lookup name fields

-- A decoded JSON value, as `UnmarshalJSON` tells them apart; `nested` is an object, or an array in
-- an array. A number is printed already.
pub data Scalar : Type 0 where
  string : Text → Scalar
  number : Text → Scalar
  boolean : Bool → Scalar
  null nested : Scalar

pub data FilterJson : Type 0 where
  single : Scalar → FilterJson
  array : List Scalar → FilterJson

format_bool : Bool → Text
format_bool true = codes "true"
format_bool false = codes "false"

list_values : List Scalar → List Text
unfolding format_bool
list_values [] = []
list_values (string t ∷ r) = t ∷ list_values r
list_values (number t ∷ r) = t ∷ list_values r
list_values (boolean b ∷ r) = format_bool b ∷ list_values r
list_values (null ∷ r) = list_values r
list_values (nested ∷ r) = list_values r

-- `filterValue.UnmarshalJSON`.
unfoldable pub unmarshal_value : FilterJson → Option (List Text)
unfolding format_bool list_values
unmarshal_value (single (string t)) = some (t ∷ [])
unmarshal_value (single (number t)) = some (t ∷ [])
unmarshal_value (single (boolean b)) = some (format_bool b ∷ [])
unmarshal_value (single null) = some []
unmarshal_value (single nested) = none
unmarshal_value (array items) = some (list_values items)

unfoldable pub scalar : List Text → Text
scalar [] = []
scalar (v ∷ vs) = v

abbrev pub comma : ℕ
comma = 44

split_trimmed : List Text → List Text
split_trimmed [] = []
split_trimmed (p ∷ ps) =
    if trim_space p == [] then split_trimmed ps else trim_space p ∷ split_trimmed ps

unfoldable pub list : List Text → List Text
unfolding split_trimmed
list (v ∷ []) = if exists (λ c. c == comma) v then split_trimmed (split comma v) else v ∷ []
list [] = []
list (v ∷ w ∷ vs) = v ∷ w ∷ vs

-- `rawFilter`, its value decoded.
pub record RawFilter : Type 0 where
  pub id : Text
  pub value : FilterJson
  pub operator : Text
  pub type_name : Text

pub record RawSort : Type 0 where
  pub id : Text
  pub desc : Bool

unfoldable pub normalise_operator : Text → Operator
normalise_operator s =
    let o = to_lower s in
    let is = λ (names : List Text). contains names o in
    if is (codes "neq" ∷ codes "ne" ∷ codes "!=" ∷ [])
    then neq
    else if is (codes "like" ∷ codes "contains" ∷ [])
    then like
    else if is (codes "in" ∷ [])
    then within
    else if is (codes "gt" ∷ codes ">" ∷ [])
    then gt
    else if is (codes "gte" ∷ codes ">=" ∷ [])
    then gte
    else if is (codes "lt" ∷ codes "<" ∷ [])
    then lt
    else if is (codes "lte" ∷ codes "<=" ∷ [])
    then lte
    else if is (codes "between" ∷ [])
    then between
    else if is (codes "regex" ∷ codes "match" ∷ [])
    then like
    else if is (
        [] ∷ codes "eq" ∷ codes "equal" ∷ codes "equals" ∷ codes "=" ∷ codes "==" ∷ codes "is" ∷ [])
    then eq
    else unknown

first_non_empty : Text → Text → Text
first_non_empty a b = if a == [] then b else a

abbrev pub is_unknown : Operator → Bool
is_unknown unknown = true
is_unknown _ = false

abbrev pub is_within : Operator → Bool
is_within within = true
is_within _ = false

abbrev pub is_empty : List Text → Bool
is_empty [] = true
is_empty (v ∷ vs) = false

clause : Text → Operator → List Text → Option Filter
unfolding scalar list
clause column operator values =
    if is_unknown operator || is_within operator && is_empty (list values)
    then none
    else some (record {
      field = column;
      value = scalar values;
      operator = operator;
      values = list values;
    })

filter_on : RawFilter → List Text → Option Text → Option Filter
unfolding clause normalise_operator first_non_empty
filter_on it values none = none
filter_on it values (some column) =
    clause column (normalise_operator (first_non_empty it.operator it.type_name)) values

-- One round of the loop of `parseFilters`: the checks in their order.
parse_filter : FieldSet → RawFilter → Option (List Text) → Option Filter
unfolding resolve filter_on
parse_filter allowed it none = none
parse_filter allowed it (some values) = filter_on it values (resolve allowed it.id)

abbrev pub also : {A : Type 0} → Option A → Option (List A) → Option (List A)
also (some a) (some r) = some (a ∷ r)
also (some a) none = none
also none r = none

unfoldable pub parse_filters : FieldSet → List RawFilter → Option (List Filter)
unfolding parse_filter unmarshal_value
parse_filters allowed [] = some []
parse_filters allowed (it ∷ items) =
    also (parse_filter allowed it (unmarshal_value it.value)) (parse_filters allowed items)

sort_on : RawSort → Option Text → Option Sort
sort_on it none = none
sort_on it (some column) = some (record { field = column; desc = it.desc })

parse_sort : FieldSet → RawSort → Option Sort
unfolding resolve sort_on
parse_sort allowed it = sort_on it (resolve allowed it.id)

unfoldable pub parse_sorts : FieldSet → List RawSort → Option (List Sort)
unfolding parse_sort
parse_sorts allowed [] = some []
parse_sorts allowed (it ∷ items) = also (parse_sort allowed it) (parse_sorts allowed items)

-- The empty text is no list; `none` is an error of the decoder.
abbrev pub decoded : {A : Type 0} → (Text → Option (List A)) → Text → Option (List A)
decoded decode raw = if raw == [] then some [] else decode raw

abbrev pub refused : ℕ → ℕ → Text → Params
refused page page_size search = record {
  failed = true;
  page = page;
  page_size = page_size;
  filters = [];
  sorts = [];
  search = trim_space search;
}

-- `Parse` once the filters and the sorts are read.
with_lists : ℕ → ℕ → Text → Option (List Filter) → Option (List Sort) → Params
with_lists page page_size search none sorts = refused page page_size search
with_lists page page_size search (some filters) none = refused page page_size search
with_lists page page_size search (some filters) (some sorts) = record {
  failed = false;
  page = page;
  page_size = page_size;
  filters = filters;
  sorts = sorts;
  search = trim_space search;
}

abbrev pub and_parse : {A B : Type 0} → Option A → (A → Option B) → Option B
and_parse none f = none
and_parse (some a) f = f a

module _ (atoi : Text → Atoi) (json_filters : Text → Option (List RawFilter))
    (json_sorts : Text → Option (List RawSort)) where
  unfoldable pub parse : Text → Text → Text → Text → Text → FieldSet → Params
  unfolding choose_page_size parse_filters parse_sorts with_lists
  parse page page_size filtered sorted search allowed =
      with_lists (at_least_zero (atoi page).value) (choose_page_size (atoi page_size)) search
        (and_parse (decoded json_filters filtered) (parse_filters allowed))
        (and_parse (decoded json_sorts sorted) (parse_sorts allowed))

pub data ProtoOperator : Type 0 where
  unspecified proto_eq proto_neq proto_like proto_in proto_gt proto_gte : ProtoOperator
  proto_lt proto_lte proto_between : ProtoOperator

unfoldable pub operator_from_proto : ProtoOperator → Operator
operator_from_proto proto_neq = neq
operator_from_proto proto_like = like
operator_from_proto proto_in = within
operator_from_proto proto_gt = gt
operator_from_proto proto_gte = gte
operator_from_proto proto_lt = lt
operator_from_proto proto_lte = lte
operator_from_proto proto_between = between
operator_from_proto _ = eq

-- The gRPC query: its page and its size are 32-bit numbers.
pub record ProtoFilter : Type 0 where
  pub id : Text
  pub value : Text
  pub operator : ProtoOperator

pub record ProtoQuery : Type 0 where
  pub page : Option (ℤ × ℤ)
  pub filtered : List ProtoFilter
  pub sorted : List RawSort
  pub search : Text

-- An unknown field is passed over.
add_filter : ProtoFilter → Option Text → List Filter → List Filter
unfolding operator_from_proto
add_filter f none fs = fs
add_filter f (some column) fs =
    record {
      field = column;
      value = f.value;
      operator = operator_from_proto f.operator;
      values = [];
    }
    ∷ fs

proto_filters : FieldSet → List ProtoFilter → List Filter
unfolding resolve add_filter
proto_filters allowed [] = []
proto_filters allowed (f ∷ fs) = add_filter f (resolve allowed f.id) (proto_filters allowed fs)

add_sort : RawSort → Option Text → List Sort → List Sort
add_sort s none ss = ss
add_sort s (some column) ss = record { field = column; desc = s.desc } ∷ ss

proto_sorts : FieldSet → List RawSort → List Sort
unfolding resolve add_sort
proto_sorts allowed [] = []
proto_sorts allowed (s ∷ ss) = add_sort s (resolve allowed s.id) (proto_sorts allowed ss)

proto_page : Option (ℤ × ℤ) → ℕ
proto_page none = 0
proto_page (some (page, size)) = at_least_zero page

proto_page_size : Option (ℤ × ℤ) → ℕ
proto_page_size none = default_page_size
proto_page_size (some (page, size)) =
    let n = at_least_zero size in
    if n == 0 then default_page_size else if ltb n max_page_size then n else max_page_size

unfoldable pub from_proto : Option ProtoQuery → FieldSet → Params
unfolding proto_filters proto_sorts proto_page proto_page_size
from_proto none allowed = record {
  failed = false;
  page = 0;
  page_size = default_page_size;
  filters = [];
  sorts = [];
  search = [];
}
from_proto (some q) allowed = record {
  failed = false;
  page = proto_page q.page;
  page_size = proto_page_size q.page;
  filters = proto_filters allowed q.filtered;
  sorts = proto_sorts allowed q.sorted;
  search = trim_space q.search;
}
