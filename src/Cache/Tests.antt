-- ===== src/Cache/Tests.antt =====
-- Runs of keys.go and the witnesses of its theorems.
use master_data.Shared.{
  ◌≡◌, refl, Text, List, [], ◌∷◌, codes, map, split, Bool, true, false, ◌&&◌, ◌||◌, ◌==◌, nat_eq,
  arith,
}
use master_data.Cache.{colon, key, prefix, pattern, starts_with, namespace, schema_version, clean}
use master_data.Cache.Families.{extends, NoGlob, glob-pattern, split-key}

abbrev catalog : List Text
catalog = codes "catalog" ∷ codes "a:b" ∷ []

key_of_catalog : key catalog ≡ codes "karlo:v1:catalog:a_b"
unfolding key
key_of_catalog = refl

-- A matcher that knows `*` at the end of a pattern only.
tail_glob : Text → Text → Bool
tail_glob [] [] = true
tail_glob [] (d ∷ k) = false
tail_glob (c ∷ p) [] = c == 42
tail_glob (c ∷ p) (d ∷ k) = let rest = tail_glob p k in c == 42 || (c == d && rest)

tail_glob_lem : (p k : Text) → NoGlob p → tail_glob (pattern p) k ≡ starts_with p k
unfolding tail_glob pattern starts_with
tail_glob_lem [] [] h = refl
tail_glob_lem [] (d ∷ k) h = refl
tail_glob_lem (c ∷ p) [] (h, hs) = ground arith
tail_glob_lem (c ∷ p) (d ∷ k) (h, hs) = ground (arith, tail_glob_lem p k hs)

glob-pattern_example :
    tail_glob (pattern (prefix (codes "catalog" ∷ []))) (key catalog)
    ≡ extends (map clean (codes "catalog" ∷ [])) (map clean catalog)
glob-pattern_example =
    glob-pattern tail_glob tail_glob_lem (codes "catalog" ∷ []) catalog (ground arith)

split-key_example : split colon (key catalog) ≡ namespace ∷ schema_version ∷ map clean catalog
split-key_example = split-key catalog
