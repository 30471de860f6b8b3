-- ===== src/Query/Bounds.antt =====
-- The numbers of a list request: page sizes, pages and offsets.
use master_data.Shared.{ℤ, pos}
use master_data.Shared.{
  ℕ, zero, suc, ◌+◌, ◌-◌, ◌*◌, ◌/◌, ◌%◌, ◌≤◌, ◌<◌, ◌≡◌, refl, sym, ap, ◌∙◌, inl, inr, Option, none,
  some, List, arith, ltb, if◌then◌else◌, Bool-cases, ◌==◌, nat_eq, text_eq, Text,
}
use native.Mathlib.Nat.{div-add-mod, mod-lt, mul-le-mul, zero-mul}
use master_data.Query.{
  Params, wrap, offset, total_pages, Atoi, choose_page_size, max_page_size, parse, from_proto,
  with_lists, RawFilter, RawSort, FieldSet, ProtoQuery, proto_page_size, Filter, Sort,
  at_least_zero, and_parse, decoded, parse_filters, parse_sorts,
}

choose_page_size_bounds :
    (a : Atoi) → (0 < choose_page_size a) × (choose_page_size a ≤ max_page_size)
unfolding choose_page_size
choose_page_size_bounds a = ground arith

with_lists-page_size :
    (page page_size : ℕ) (search : Text) (f : Option (List Filter)) (s : Option (List Sort))
    → (with_lists page page_size search f s).page_size ≡ page_size
unfolding with_lists
with_lists-page_size page page_size search none s = refl
with_lists-page_size page page_size search (some f) none = refl
with_lists-page_size page page_size search (some f) (some s) = refl

proto_page_size_bounds :
    (p : Option (ℤ × ℤ)) → (0 < proto_page_size p) × (proto_page_size p ≤ max_page_size)
unfolding proto_page_size
proto_page_size_bounds none = ground arith
proto_page_size_bounds (some (page, size)) = ground arith

-- However a list is asked for, by HTTP or by gRPC, and also when its filters are refused, a page has
-- between 1 and 200 rows.
pub page_size_bounds :
    (atoi : Text → Atoi) (json_filters : Text → Option (List RawFilter))
    (json_sorts : Text → Option (List RawSort)) (page size filtered sorted search : Text)
    (q : Option ProtoQuery) (allowed : FieldSet)
    → let p = parse atoi json_filters json_sorts page size filtered sorted search allowed in
      let g = from_proto q allowed in
      (0 < p.page_size) × (p.page_size ≤ 200) × (0 < g.page_size) × (g.page_size ≤ 200)
unfolding parse from_proto
page_size_bounds atoi json_filters json_sorts page size filtered sorted search q allowed =
    let e =
      with_lists-page_size (at_least_zero (atoi page).value) (choose_page_size (atoi size)) search
        (and_parse (decoded json_filters filtered) (parse_filters allowed))
        (and_parse (decoded json_sorts sorted) (parse_sorts allowed)) in
    let b = choose_page_size_bounds (atoi size) in
    let g = from_proto_bounds q in (rw e b.0, rw e b.1, g.0, g.1)
  where
    from_proto_bounds :
        (q : Option ProtoQuery)
        → (0 < (from_proto q allowed).page_size) × ((from_proto q allowed).page_size ≤ 200)
    from_proto_bounds none = omega arith
    from_proto_bounds (some q) = proto_page_size_bounds q.page

-- The pages that a remainder makes, with the division done.
pages : ℕ → ℕ → ℕ → ℕ
pages s q r = if s == 0 then 0 else if r == 0 then q else q + 1

pages_exact :
    (s q r total : ℕ)
    → s * q + r ≡ total
    → r < s
    → 0 < total
    → (total ≤ pages s q r * s) × ((pages s q r - 1) * s < total)
unfolding pages
pages_exact s zero r total e h k = grind arith
pages_exact s (suc q) zero total e h k = grind arith
pages_exact s (suc q) (suc r) total e h k =
    let w : pages s (suc q) (suc r) ≡ suc (suc q) = ground arith in rw w (last_page s q r total e h)
  where
    last_page :
        (s q r total : ℕ)
        → s * suc q + suc r ≡ total
        → suc r < s
        → (total ≤ suc (suc q) * s) × ((suc (suc q) - 1) * s < total)
    last_page s q r total e h = grind arith

-- The pages are just enough: they hold all the rows, and without the last one they would not.
pub total_pages_exact :
    (p : Params) (total : ℕ)
    → 0 < p.page_size
    → 0 < total
    → (total ≤ total_pages p total * p.page_size)
      × ((total_pages p total - 1) * p.page_size < total)
unfolding total_pages pages
total_pages_exact p total h k =
    pages_exact p.page_size (total / p.page_size) (total % p.page_size) total
      (div-add-mod total p.page_size) (mod-lt total h) k

wrap_small : (n : ℕ) → n < 9223372036854775808 → wrap n ≡ pos n
unfolding wrap
wrap_small n h = ground arith

-- Up to page 46,116,860,184,273,879 the offset is the number of the rows before the page: the
-- product does not overflow.
pub offset_exact :
    (p : Params)
    → p.page_size ≤ 200
    → p.page ≤ 46116860184273879
    → offset p ≡ pos (p.page * p.page_size)
unfolding offset
offset_exact p h k = elim (Bool-cases (ltb p.page 1)) [
  | inl q ↦
      let z : p.page ≡ 0 = ground arith in
      rw q (ap pos (sym (ap (λ n. n * p.page_size) z ∙ zero-mul p.page_size)))
  | inr q ↦ rw q (wrap_small (p.page * p.page_size) (omega (arith, mul-le-mul k h)))
]
