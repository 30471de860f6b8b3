-- ===== src/Guard/Refusals.antt =====
-- The targets that the guard refuses, however they are written.
use master_data.Shared.{
  ℕ, ◌≡◌, refl, sym, ap, subst, ◌∙◌, ◌≢◌, ◌⊎◌, inl, inr, Bool, true, false, not, ◌&&◌, Option, none,
  some, [], ◌∷◌, ◌++◌, append-nil, arith, if◌then◌else◌, Bool-cases, ◌==◌, nat_eq, text_eq, ==_refl,
  exists, All, contains, Text, codes, text_beq, text_beq_iff, to_lower_byte, to_lower, trim_space,
}
use master_data.Shared.{cut_prefix}
use master_data.Guard.{
  Refusal, legacy_cluster, legacy_database, legacy_path, no_database, legacy_databases, is_cut,
  contains_text, cut_here, cut_text, name_of, path_of, after_scheme, database_from_uri, equal_fold,
  guard_target,
}

-- No byte of the text is this one.
abbrev pub Without : ℕ → Text → Type 0
Without c s = All (λ d. d ≢ c) s

-- A URI whose path names the database.
abbrev pub uri_of : Text → Text → Text → Text → Text
uri_of scheme host db options = scheme ++ codes "://" ++ (host ++ b'/' ∷ (db ++ options))

-- The targets that must not be used: the old cluster anywhere in the URI, an old database by its
-- name or in the URI's path, in capitals or not, and no name at all.
pub data IsForbidden : Text → Text → Type 0 where
  old_cluster :
      (before host after uri database : Text)
      → uri ≡ before ++ host ++ after
      → to_lower host ≡ codes "cluster0-ndqn7.mongodb.net"
      → IsForbidden uri database
  old_name :
      (uri database : Text)
      → contains legacy_databases (to_lower (trim_space database)) ≡ true
      → IsForbidden uri database
  old_path :
      (scheme host db options uri database : Text)
      → uri ≡ uri_of scheme host db options
      → Without b':' scheme
      → Without b'/' host
      → Without b'?' db
      → (options ≡ []) ⊎ ((rest : Text) × (options ≡ b'?' ∷ rest))
      → contains legacy_databases (to_lower db) ≡ true
      → IsForbidden uri database
  no_name : (uri database : Text) → trim_space database ≡ [] → IsForbidden uri database

cut_prefix-append : (p s : Text) → cut_prefix p (p ++ s) ≡ some s
unfolding cut_prefix
cut_prefix-append [] s = refl
cut_prefix-append (c ∷ p) s = rw (==_refl c) (cut_prefix-append p s)

begins_here : (s part : Text) → is_cut (cut_prefix part s) ≡ true → contains_text s part ≡ true
unfolding contains_text
begins_here [] part h = h
begins_here (c ∷ s) part h = rw h refl

contains_text-append :
    (before part after : Text) → contains_text (before ++ part ++ after) part ≡ true
unfolding contains_text is_cut
contains_text-append [] part after =
    begins_here (part ++ after) part (rw (cut_prefix-append part after) refl)
contains_text-append (c ∷ before) part after =
    ground (arith, contains_text-append before part after)

to_lower-append : (s t : Text) → to_lower (s ++ t) ≡ to_lower s ++ to_lower t
unfolding to_lower
to_lower-append [] t = refl
to_lower-append (c ∷ s) t = ap (λ r. to_lower_byte c ∷ r) (to_lower-append s t)

cut_text-first :
    (c : ℕ) (sep before after : Text)
    → Without c before
    → cut_text (c ∷ sep) (before ++ (c ∷ sep) ++ after) ≡ some (before, after)
unfolding cut_text cut_here cut_prefix
cut_text-first c sep [] after h = rw (==_refl c, cut_prefix-append sep after) refl
cut_text-first c sep (d ∷ before) after (n, h) =
    rw (other c d n, cut_text-first c sep before after h) refl
  where
    other : (x y : ℕ) → y ≢ x → (x == y) ≡ false
    other x y k = ground arith

cut_text-byte :
    (c : ℕ) (before after : Text)
    → Without c before
    → cut_text (c ∷ []) (before ++ c ∷ after) ≡ some (before, after)
unfolding cut_text cut_here cut_prefix
cut_text-byte c [] after h = rw (==_refl c) refl
cut_text-byte c (d ∷ before) after (n, h) = rw (other c d n, cut_text-byte c before after h) refl
  where
    other : (x y : ℕ) → y ≢ x → (x == y) ≡ false
    other x y k = ground arith

cut_text-never : (c : ℕ) (s : Text) → Without c s → cut_text (c ∷ []) s ≡ none
unfolding cut_text cut_here cut_prefix
cut_text-never c [] h = refl
cut_text-never c (d ∷ s) (n, h) = rw (other c d n, cut_text-never c s h) refl
  where
    other : (x y : ℕ) → y ≢ x → (x == y) ≡ false
    other x y k = ground arith

database_from_uri-uri_of :
    (scheme host db options : Text)
    → Without b':' scheme
    → Without b'/' host
    → Without b'?' db
    → (options ≡ []) ⊎ ((rest : Text) × (options ≡ b'?' ∷ rest))
    → database_from_uri (uri_of scheme host db options) ≡ db
unfolding database_from_uri after_scheme path_of name_of
database_from_uri-uri_of scheme host db options hs hh hd o =
    rw
      (
        cut_text-first b':' (codes "//") scheme (host ++ b'/' ∷ (db ++ options)) hs,
        cut_text-byte b'/' host (db ++ options) hh,
      )
      (named o)
  where
    named :
        (options ≡ []) ⊎ ((rest : Text) × (options ≡ b'?' ∷ rest))
        → name_of (db ++ options) (cut_text (codes "?") (db ++ options)) ≡ db
    named (inl e) = rw (e, append-nil db, cut_text-never b'?' db hd) refl
    named (inr (rest, e)) =
        subst (λ o. name_of (db ++ o) (cut_text (codes "?") (db ++ o)) ≡ db) (sym e)
          (ap (name_of (db ++ b'?' ∷ rest)) (cut_text-byte b'?' db rest hd))

is_refused : Option Refusal → Bool
is_refused none = false
is_refused (some r) = true

same_text : (s t : Text) → (s == t) ≡ (t == s)
same_text s t = ground (arith, text_beq_iff s t, text_beq_iff t s)

-- An old name in the path is found there.
path_found :
    (db : Text)
    → contains legacy_databases (to_lower db) ≡ true
    → (not (db == []) && exists (λ name. equal_fold db name) legacy_databases) ≡ true
unfolding equal_fold to_lower to_lower_byte text_beq
path_found [] h = cc
path_found (c ∷ db) h = ground (
  arith,
  same_text (to_lower (c ∷ db)) (codes "prod"),
  same_text (to_lower (c ∷ db)) (codes "test"),
  same_text (to_lower (c ∷ db)) (codes "local"),
)

false-true : {A : Type 0} (b : Bool) → b ≡ false → b ≡ true → A
false-true b e h = absurd (ground arith)

-- Where the other tests pass, there is no name.
unnamed :
    (uri database : Text)
    → IsForbidden uri database
    → contains_text (to_lower uri) (codes "cluster0-ndqn7.mongodb.net") ≡ false
    → contains legacy_databases (to_lower (trim_space database)) ≡ false
    → (not (database_from_uri uri == [])
        && exists (λ name. equal_fold (database_from_uri uri) name) legacy_databases)
      ≡ false
    → (to_lower (trim_space database) == []) ≡ true
unfolding to_lower text_beq
unnamed uri database (old_cluster before host after _ _ q h) e g k =
    false-true (contains_text (to_lower uri) (codes "cluster0-ndqn7.mongodb.net")) e (
      subst (λ u. contains_text u (codes "cluster0-ndqn7.mongodb.net") ≡ true)
        (sym (
          ap to_lower q
          ∙ to_lower-append (before ++ host) after
          ∙ ap (λ r. r ++ to_lower after)
              (to_lower-append before host ∙ ap (λ r. to_lower before ++ r) h)))
        (contains_text-append (to_lower before) (codes "cluster0-ndqn7.mongodb.net")
          (to_lower after)))
unnamed uri database (old_name _ _ h) e g k =
    false-true (contains legacy_databases (to_lower (trim_space database))) g h
unnamed uri database (old_path scheme host db options _ _ q hs hh hd o h) e g k =
    false-true
      (not (database_from_uri uri == [])
        && exists (λ name. equal_fold (database_from_uri uri) name) legacy_databases)
      k
      (subst (λ d. (not (d == []) && exists (λ name. equal_fold d name) legacy_databases) ≡ true)
        (sym (ap database_from_uri q ∙ database_from_uri-uri_of scheme host db options hs hh hd o))
        (path_found db h))
unnamed uri database (no_name _ _ h) e g k = rw h refl

-- Every forbidden target is refused, whatever else the URI and the name say.
pub guard_target_refuses :
    (uri database : Text)
    → IsForbidden uri database
    → (r : Refusal) × (guard_target uri database ≡ some r)
unfolding guard_target equal_fold
guard_target_refuses uri database f =
    elim (Bool-cases (contains_text (to_lower uri) (codes "cluster0-ndqn7.mongodb.net"))) [
      | inl e ↦ (legacy_cluster, rw e refl)
      | inr e ↦ elim (Bool-cases (contains legacy_databases (to_lower (trim_space database)))) [
        | inl g ↦ (legacy_database, rw (e, g) refl)
        | inr g ↦
            elim (Bool-cases (
              not (database_from_uri uri == [])
              && exists (λ name. equal_fold (database_from_uri uri) name) legacy_databases)) [
                | inl k ↦ (legacy_path, rw (e, g, k) refl)
                | inr k ↦ (
                  no_database,
                  rw (e, g, k)
                      (if_none (to_lower (trim_space database) == [])
                        (unnamed uri database f e g k)),
                )
              ]
      ]
    ]
  where
    if_none : (b : Bool) → b ≡ true → (if b then some no_database else none) ≡ some no_database
    if_none b h = rw h refl
