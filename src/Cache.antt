-- ===== src/Cache.antt =====
-- internal/platform/cache/keys.go: the keys of the cache and the prefixes that sweep it.
pub mod Families
mod Tests
use master_data.Shared.{
  ℕ, Bool, true, false, ◌&&◌, List, [], ◌∷◌, ◌++◌, map, if◌then◌else◌, ◌==◌, nat_eq, text_eq, Text,
  codes,
}

abbrev pub colon : ℕ
colon = 58

abbrev pub underscore : ℕ
underscore = 95

abbrev pub namespace : Text
namespace = codes "karlo"

abbrev pub schema_version : Text
schema_version = codes "v1"

-- `strings.ReplaceAll(p, ":", "_")`.
unfoldable pub clean : Text → Text
clean [] = []
clean (c ∷ s) = (if c == colon then underscore else c) ∷ clean s

-- `strings.Join(parts, ":")`.
unfoldable pub join : List Text → Text
join [] = []
join (p ∷ []) = p
join (p ∷ q ∷ ps) = p ++ colon ∷ join (q ∷ ps)

unfoldable pub key : List Text → Text
unfolding join clean
key parts = join (namespace ∷ schema_version ∷ map clean parts)

unfoldable pub prefix : List Text → Text
unfolding key
prefix parts = key parts ++ colon ∷ []

-- The pattern that `DeleteByPrefix` gives to SCAN.
unfoldable pub pattern : Text → Text
pattern p = p ++ b'*' ∷ []

-- What a pattern `p*` matches where `p` has no byte with a meaning of its own.
unfoldable pub starts_with : Text → Text → Bool
starts_with [] s = true
starts_with (c ∷ p) [] = false
starts_with (c ∷ p) (d ∷ s) = c == d && starts_with p s
