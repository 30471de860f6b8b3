-- ===== src/Query/Tests.antt =====
-- Runs of query.go and the witnesses of its theorems. The decoders read one text each.
use master_data.Shared.{pos}
use master_data.Shared.{
  ◌-◌, ◌*◌, ◌≤◌, ◌<◌, ◌≡◌, refl, true, false, if◌then◌else◌, ◌==◌, text_eq, Option, none, some,
  List, [], ◌∷◌, Text, codes, arith, text_beq, lookup, to_lower, trim_space,
}
use master_data.Query.{
  Params, offset, total_pages, Atoi, parse, from_proto, RawFilter, RawSort, FieldSet, ProtoQuery,
  proto_gt, array, string, number, within,
}
use master_data.Query.Bounds.{page_size_bounds, total_pages_exact, offset_exact}
use master_data.Query.Allowed.{IsSafe, parse-IsSafe}

read_number : Text → Atoi
read_number s =
    if s == codes "3"
    then record { value = pos 3; error = false }
    else if s == codes "500"
    then record { value = pos 500; error = false }
    else record { value = pos 0; error = true }

read_filters : Text → Option (List RawFilter)
read_filters s =
    if s == codes "named"
    then some (
        record {
          id = codes "name";
          value = array (string (codes "a") ∷ number (codes "7") ∷ []);
          operator = codes "IN";
          type_name = [];
        }
        ∷ [])
    else none

read_sorts : Text → Option (List RawSort)
read_sorts s = some (record { id = codes "name"; desc = true } ∷ [])

abbrev columns : FieldSet
columns = some ((codes "name", codes "nameNormalised") ∷ [])

abbrev grpc_query : Option ProtoQuery
grpc_query = some (record {
  page = some (pos 2, pos 1000);
  filtered =
      record { id = codes "name"; value = codes "x"; operator = proto_gt }
      ∷ record { id = codes "secret"; value = codes "x"; operator = proto_gt }
      ∷ [];
  sorted = [];
  search = codes " x ";
})

abbrev third_page : Params
third_page = record {
  failed = false;
  page = 3;
  page_size = 200;
  filters =
      record {
        field = codes "nameNormalised";
        value = codes "a";
        operator = within;
        values = codes "a" ∷ codes "7" ∷ [];
      }
      ∷ [];
  sorts = record { field = codes "nameNormalised"; desc = true } ∷ [];
  search = codes "x";
}

parsed :
    parse read_number read_filters read_sorts
      (codes "3")
      (codes "500")
      (codes "named")
      (codes "s")
      (codes " x")
      columns
    ≡ third_page
unfolding parse read_number read_filters read_sorts text_beq lookup to_lower trim_space
parsed = refl

page_size_bounds_example :
    let p =
      parse read_number read_filters read_sorts
        (codes "3")
        (codes "500")
        (codes "named")
        (codes "s")
        (codes " x")
        columns in
    let g = from_proto grpc_query columns in
    (0 < p.page_size) × (p.page_size ≤ 200) × (0 < g.page_size) × (g.page_size ≤ 200)
page_size_bounds_example =
    page_size_bounds read_number read_filters read_sorts (codes "3") (codes "500") (codes "named")
      (codes "s") (codes " x") grpc_query columns

parse-IsSafe_example :
    IsSafe columns (
      parse read_number read_filters read_sorts
        (codes "3")
        (codes "500")
        (codes "named")
        (codes "s")
        (codes " x")
        columns)
    × IsSafe columns (from_proto grpc_query columns)
parse-IsSafe_example =
    parse-IsSafe read_number read_filters read_sorts (codes "3") (codes "500") (codes "named")
      (codes "s") (codes " x") grpc_query columns

total_pages_exact_example :
    (401 ≤ total_pages third_page 401 * 200) × ((total_pages third_page 401 - 1) * 200 < 401)
total_pages_exact_example = total_pages_exact third_page 401 (omega arith) (omega arith)

offset_exact_example : offset third_page ≡ pos (3 * 200)
offset_exact_example = offset_exact third_page (omega arith) (omega arith)
