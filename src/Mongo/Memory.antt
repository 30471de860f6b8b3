-- ===== src/Mongo/Memory.antt =====
-- A database in memory that keeps every promise of the interface. Its ids print as one byte, a
-- stand-in for the driver's 24 digits.
use master_data.Shared.{
  ℕ, ◌+◌, ◌-◌, ◌≡◌, refl, sym, ap, subst, ◌↔◌, inl, inr, Bool, true, false, not, ◌&&◌, Option, none,
  some, List, [], ◌∷◌, ◌++◌, map, arith, leb, if◌then◌else◌, Bool-cases, ◌==◌, nat_eq, text_eq,
  keep, first, tally, exists, alter, Text, text_beq, is_space, trim_space,
}
use master_data.Mongo.{Mongo, inserted, IsIn}

module _ {D : Type 0} where
  pub first-IsIn :
      (p : D → Bool) (ds : List D) (d : D) → first p ds ≡ some d → IsIn d ds × (p d ≡ true)
  first-IsIn p [] d h = cc
  first-IsIn p (x ∷ ds) d h = elim (Bool-cases (p x)) [
    | inl e ↦ (inl (ground arith), ground arith)
    | inr e ↦ let r = first-IsIn p ds d (ground arith) in (inr r.0, r.1)
  ]

  pub first-none : (p : D → Bool) (ds : List D) → first p ds ≡ none → exists p ds ≡ false
  first-none p [] h = refl
  first-none p (x ∷ ds) h = ground (arith, first-none p ds)

  pub keep-IsIn :
      (p : D → Bool) (ds : List D) (d : D) → IsIn d (keep p ds) → IsIn d ds × (p d ≡ true)
  keep-IsIn p [] d h = elim h [ ]
  keep-IsIn p (x ∷ ds) d h = go (p x) refl h (keep-IsIn p ds d)
    where
      go :
          (b : Bool)
          → p x ≡ b
          → IsIn d (if b then x ∷ keep p ds else keep p ds)
          → (IsIn d (keep p ds) → IsIn d ds × (p d ≡ true))
          → IsIn d (x ∷ ds) × (p d ≡ true)
      go true e (inl q) ih = (inl q, rw q e)
      go true e (inr r) ih = (inr (ih r).0, (ih r).1)
      go false e r ih = (inr (ih r).0, (ih r).1)

  pub IsIn-keep : (p : D → Bool) (ds : List D) (d : D) → IsIn d ds → p d ≡ true → IsIn d (keep p ds)
  IsIn-keep p [] d h e = h
  IsIn-keep p (x ∷ ds) d (inl q) e =
      subst (λ b. IsIn d (if b then x ∷ keep p ds else keep p ds)) {x = true} {y = p x}
        (sym (subst (λ z. p z ≡ true) q e)) (inl q)
  IsIn-keep p (x ∷ ds) d (inr r) e = go (p x) (IsIn-keep p ds d r e)
    where
      go : (b : Bool) → IsIn d (keep p ds) → IsIn d (if b then x ∷ keep p ds else keep p ds)
      go true ih = inr ih
      go false ih = ih

  pub IsIn-map : {A : Type 0} (f : D → A) (ds : List D) (d : D) → IsIn d ds → IsIn (f d) (map f ds)
  IsIn-map f [] d h = elim h [ ]
  IsIn-map f (x ∷ ds) d (inl q) = inl (ap f q)
  IsIn-map f (x ∷ ds) d (inr r) = inr (IsIn-map f ds d r)

pub find_keep :
    {D : Type 0} (p : D → Bool) (ds r : List D)
    → some (keep p ds) ≡ some r
    → (d : D) → IsIn d r ↔ (IsIn d ds × (p d ≡ true))
find_keep p ds r h d =
    subst (λ l. IsIn d l ↔ (IsIn d ds × (p d ≡ true))) (cc)
      (keep-IsIn p ds d, λ b. IsIn-keep p ds d b.0 b.1)

pub distinct_keep :
    {D A : Type 0} (f : D → A) (p : D → Bool) (ds : List D) (r : List A)
    → some (map f (keep p ds)) ≡ some r
    → (d : D) → IsIn d ds
    → p d ≡ true
    → IsIn (f d) r
distinct_keep f p ds r h d i e =
    subst (IsIn (f d)) (cc) (IsIn-map f (keep p ds) d (IsIn-keep p ds d i e))

abbrev pub print_id : ℕ → Text
print_id o = (o + 100) ∷ []

abbrev pub parse_id : Text → Option ℕ
parse_id [] = none
parse_id (c ∷ s) = if leb 100 c && s == [] then some (c - 100) else none

pub parse-print : (o : ℕ) → parse_id (print_id o) ≡ some o
unfolding text_beq
parse-print o = ground arith

pub print_trimmed : (o : ℕ) → trim_space (print_id o) ≡ print_id o
unfolding trim_space is_space
print_trimmed o = ground arith

abbrev pub in_memory : Mongo
in_memory = record {
  find_one = λ p ds. some (first p ds);
  find = λ p ds. some (keep p ds);
  count_documents = λ p ds. some (tally p ds);
  distinct = λ f p ds. some (map f (keep p ds));
  insert_one = λ d ds. inserted (ds ++ d ∷ []);
  update_one = λ p f ds. some (tally p ds, alter p f ds);
  update_many = λ p f ds. some (tally p ds, alter p f ds);
  replace_one = λ p d ds. some (tally p ds, alter p (λ _. d) ds);
  delete_many = λ p ds. some (keep (λ d. not (p d)) ds);
  hex = print_id;
  from_hex = parse_id;
  find_one-some = λ p ds {d} h. first-IsIn p ds d (cc);
  find_one-none = λ p ds h. first-none p ds (cc);
  find_lem = λ p ds {r} h d. find_keep p ds r h d;
  count_lem = λ p ds h. cc;
  distinct_lem = λ f p ds {r} h d i e. distinct_keep f p ds r h d i e;
  insert_lem = λ d ds h. cc;
  update_one_lem = λ p f ds h t. (cc, cc);
  update_many_lem = λ p f ds h. (cc, cc);
  replace_one_lem = λ p d ds h t. (cc, cc);
  delete_many_lem = λ p ds h. cc;
  from_hex-hex = parse-print;
  trim_space-hex = print_trimmed;
}
