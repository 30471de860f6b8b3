-- ===== src/Guard.antt =====
-- internal/config/guard.go: the databases that the service refuses to start with. `EqualFold` acts on
-- ASCII here, as the case mappings do.
mod Refusals
mod Tests
use master_data.Shared.{
  ℕ, Bool, true, false, not, ◌&&◌, ◌||◌, Option, none, some, List, [], ◌∷◌, if◌then◌else◌, ◌==◌,
  nat_eq, text_eq, exists, contains, Text, codes, to_lower, trim_space,
}
use master_data.Shared.{cut_prefix}

-- The reasons of `ErrLegacyTarget`.
pub data Refusal : Type 0 where
  legacy_cluster legacy_database legacy_path no_database : Refusal

abbrev pub legacy_hosts : List Text
legacy_hosts = codes "cluster0-ndqn7.mongodb.net" ∷ []

abbrev pub legacy_databases : List Text
legacy_databases = codes "prod" ∷ codes "test" ∷ codes "local" ∷ []

is_cut : Option Text → Bool
is_cut none = false
is_cut (some rest) = true

-- `strings.Contains`.
unfoldable pub contains_text : Text → Text → Bool
unfolding is_cut
contains_text [] part = is_cut (cut_prefix part [])
contains_text (c ∷ s) part = is_cut (cut_prefix part (c ∷ s)) || contains_text s part

cut_here : ℕ → Option Text → Option (Text × Text) → Option (Text × Text)
cut_here c (some after) later = some ([], after)
cut_here c none none = none
cut_here c none (some (before, after)) = some (c ∷ before, after)

-- `strings.Cut`, with a separator that is not empty.
unfoldable pub cut_text : Text → Text → Option (Text × Text)
unfolding cut_here
cut_text sep [] = none
cut_text sep (c ∷ s) = cut_here c (cut_prefix sep (c ∷ s)) (cut_text sep s)

name_of : Text → Option (Text × Text) → Text
name_of path none = path
name_of path (some (db, options)) = db

path_of : Option (Text × Text) → Text
unfolding name_of
path_of none = []
path_of (some (host, path)) = name_of path (cut_text (codes "?") path)

after_scheme : Option (Text × Text) → Text
unfolding path_of
after_scheme none = []
after_scheme (some (scheme, rest)) = path_of (cut_text (codes "/") rest)

unfoldable pub database_from_uri : Text → Text
unfolding after_scheme
database_from_uri uri = after_scheme (cut_text (codes "://") uri)

unfoldable pub equal_fold : Text → Text → Bool
equal_fold s t = to_lower s == to_lower t

unfoldable pub guard_target : Text → Text → Option Refusal
unfolding equal_fold
guard_target uri database =
    let lower_db = to_lower (trim_space database) in
    let path_db = database_from_uri uri in
    if exists (λ host. contains_text (to_lower uri) host) legacy_hosts
    then some legacy_cluster
    else if contains legacy_databases lower_db
    then some legacy_database
    else if not (path_db == []) && exists (λ name. equal_fold path_db name) legacy_databases
    then some legacy_path
    else if lower_db == []
    then some no_database
    else none
