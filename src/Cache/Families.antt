-- ===== src/Cache/Families.antt =====
-- Which keys a prefix sweeps, and what a key remembers of its parts.
use master_data.Shared.{
  ◌≡◌, refl, sym, ap, ◌∙◌, ◌≢◌, Bool, true, false, ◌&&◌, List, [], ◌∷◌, ◌++◌, map, append_assoc,
  arith, if◌then◌else◌, ◌==◌, nat_eq, text_eq, All, All-append, Text, text_beq, ℕ, ◌||◌,
}
use master_data.Shared.{split}
use master_data.Cache.{
  colon, underscore, namespace, schema_version, clean, join, key, prefix, pattern, starts_with,
}

-- A longer list that begins with this one.
abbrev pub extends : List Text → List Text → Bool
extends [] [] = false
extends [] (q ∷ qs) = true
extends (p ∷ ps) [] = false
extends (p ∷ ps) (q ∷ qs) = p == q && extends ps qs

abbrev pub NoColon : Text → Type 0
NoColon s = All (λ c. c ≢ colon) s

pub clean-NoColon : (s : Text) → NoColon (clean s)
unfolding clean
clean-NoColon [] = tt
clean-NoColon (c ∷ s) = (clean_byte, clean-NoColon s)
  where
    clean_byte : (if c == colon then underscore else c) ≢ colon
    clean_byte = ground arith

pub clean_lem : (s : Text) → NoColon s → clean s ≡ s
unfolding clean
clean_lem [] h = refl
clean_lem (c ∷ s) (h, hs) = ground (arith, clean_lem s hs)

map-clean-NoColon : (ps : List Text) → All NoColon (map clean ps)
map-clean-NoColon [] = tt
map-clean-NoColon (p ∷ ps) = (clean-NoColon p, map-clean-NoColon ps)

-- Two segments that are each followed by a colon.
starts_with-segment :
    (a b s t : Text)
    → NoColon a
    → NoColon b
    → starts_with (a ++ colon ∷ s) (b ++ colon ∷ t) ≡ (a == b && starts_with s t)
unfolding starts_with text_beq
starts_with-segment [] [] s t ha hb = refl
starts_with-segment [] (d ∷ b) s t ha (h, hb) = ground arith
starts_with-segment (c ∷ a) [] s t (h, ha) hb = ground arith
starts_with-segment (c ∷ a) (d ∷ b) s t (h, ha) (k, hb) =
    ground (arith, starts_with-segment a b s t ha hb)

-- A segment with a colon is no prefix of a last segment.
starts_with-last : (a b s : Text) → NoColon b → starts_with (a ++ colon ∷ s) b ≡ false
unfolding starts_with
starts_with-last [] [] s hb = refl
starts_with-last [] (d ∷ b) s (k, hb) = ground arith
starts_with-last (c ∷ a) [] s hb = refl
starts_with-last (c ∷ a) (d ∷ b) s (k, hb) = ground (arith, starts_with-last a b s hb)

and-false : (b : Bool) → (b && false) ≡ false
and-false b = ground arith

-- What a prefix of joined segments matches.
starts_with-join :
    (p q : Text) (ps qs : List Text)
    → All NoColon (p ∷ ps)
    → All NoColon (q ∷ qs)
    → starts_with (join (p ∷ ps) ++ colon ∷ []) (join (q ∷ qs)) ≡ extends (p ∷ ps) (q ∷ qs)
unfolding join starts_with
starts_with-join p q [] [] hp hq = starts_with-last p q [] hq.0 ∙ sym (and-false (p == q))
starts_with-join p q [] (q' ∷ qs) hp hq = starts_with-segment p q [] (join (q' ∷ qs)) hp.0 hq.0
starts_with-join p q (p' ∷ ps) [] hp hq =
    rw (append_assoc p (colon ∷ join (p' ∷ ps)) (colon ∷ []))
      (starts_with-last p q (join (p' ∷ ps) ++ colon ∷ []) hq.0 ∙ sym (and-false (p == q)))
starts_with-join p q (p' ∷ ps) (q' ∷ qs) hp hq =
    rw (append_assoc p (colon ∷ join (p' ∷ ps)) (colon ∷ [])) (
      starts_with-segment p q (join (p' ∷ ps) ++ colon ∷ []) (join (q' ∷ qs)) hp.0 hq.0
      ∙ ap (λ b. p == q && b) (starts_with-join p' q' ps qs hp.1 hq.1))

namespace-NoColon : All NoColon (namespace ∷ schema_version ∷ [])
namespace-NoColon = ground arith

pub starts_with-prefix :
    (parts others : List Text)
    → starts_with (prefix parts) (key others) ≡ extends (map clean parts) (map clean others)
unfolding prefix key text_beq
starts_with-prefix parts others =
    starts_with-join namespace namespace (schema_version ∷ map clean parts)
      (schema_version ∷ map clean others)
      ((namespace-NoColon.0, (namespace-NoColon.1.0, map-clean-NoColon parts)))
      ((namespace-NoColon.0, (namespace-NoColon.1.0, map-clean-NoColon others)))

-- A byte with a meaning of its own in a pattern of Redis: `*`, `?`, `[`, the backslash and `]`.
abbrev pub is_special : ℕ → Bool
is_special c = c == 42 || c == 63 || c == 91 || c == 92 || c == 93

abbrev pub NoGlob : Text → Type 0
NoGlob s = All (λ c. is_special c ≡ false) s

clean-NoGlob : (s : Text) → NoGlob s → NoGlob (clean s)
unfolding clean
clean-NoGlob [] h = tt
clean-NoGlob (c ∷ s) (h, hs) = (cleaned, clean-NoGlob s hs)
  where
    cleaned : is_special (if c == colon then underscore else c) ≡ false
    cleaned = ground arith

map-clean-NoGlob : (ps : List Text) → All NoGlob ps → All NoGlob (map clean ps)
map-clean-NoGlob [] h = tt
map-clean-NoGlob (p ∷ ps) (h, hs) = (clean-NoGlob p h, map-clean-NoGlob ps hs)

join-NoGlob : (ps : List Text) → All NoGlob ps → NoGlob (join ps)
unfolding join
join-NoGlob [] h = tt
join-NoGlob (p ∷ []) h = h.0
join-NoGlob (p ∷ q ∷ ps) (h, hs) =
    All-append (λ c. is_special c ≡ false) p (colon ∷ join (q ∷ ps)) h
      (refl, join-NoGlob (q ∷ ps) hs)

pub prefix-NoGlob : (parts : List Text) → All NoGlob parts → NoGlob (prefix parts)
unfolding prefix key
prefix-NoGlob parts h =
    All-append (λ c. is_special c ≡ false) (join (namespace ∷ schema_version ∷ map clean parts))
      (colon ∷ [])
      (join-NoGlob (namespace ∷ schema_version ∷ map clean parts)
        (ground arith, (ground arith, map-clean-NoGlob parts h)))
      (refl, tt)

-- The pattern that `DeleteByPrefix` scans for matches exactly the keys whose parts, cleaned of
-- colons, begin with the parts of the prefix and go on: no key of another family and not the key of
-- the family itself. `glob` is the matching of Redis, of which only this is used: `p*` matches the
-- texts that begin with `p` where `p` has none of `*`, `?`, `[`, `]` and the backslash. The parts of
-- the prefix have none of these.
pub glob-pattern :
    (glob : Text → Text → Bool)
    → ((p k : Text) → NoGlob p → glob (pattern p) k ≡ starts_with p k)
    → (parts others : List Text) → All NoGlob parts
    → glob (pattern (prefix parts)) (key others) ≡ extends (map clean parts) (map clean others)
glob-pattern glob law parts others h =
    law (prefix parts) (key others) (prefix-NoGlob parts h) ∙ starts_with-prefix parts others

-- Reading a key back: the segments between the colons.
split-append : (p s : Text) → NoColon p → split colon (p ++ colon ∷ s) ≡ p ∷ split colon s
unfolding split
split-append [] s h = refl
split-append (c ∷ p) s (h, hs) = ground (arith, split-append p s hs)

split-alone : (p : Text) → NoColon p → split colon p ≡ p ∷ []
unfolding split
split-alone [] h = refl
split-alone (c ∷ p) (h, hs) = ground (arith, split-alone p hs)

split-join :
    (p : Text) (ps : List Text) → All NoColon (p ∷ ps) → split colon (join (p ∷ ps)) ≡ p ∷ ps
unfolding join
split-join p [] h = split-alone p h.0
split-join p (q ∷ ps) h = split-append p (join (q ∷ ps)) h.0 ∙ ap (λ r. p ∷ r) (split-join q ps h.1)

-- A key gives its parts back, cleaned: so two lists of parts that differ otherwise than by `:`
-- against `_` never share a key.
pub split-key :
    (parts : List Text) → split colon (key parts) ≡ namespace ∷ schema_version ∷ map clean parts
unfolding key
split-key parts =
    split-join namespace (schema_version ∷ map clean parts)
      ((namespace-NoColon.0, (namespace-NoColon.1.0, map-clean-NoColon parts)))
