-- ===== src/Normalise.antt =====
-- internal/platform/normalise/normalise.go: the stored forms that the unique indexes are built on.
-- A regular expression is a test on one byte: `[^A-Za-z0-9]`, `[^0-9]` and `\s`.
pub mod Plates
pub mod Names
mod Tests
use master_data.Shared.{
  ℕ, Bool, true, false, ◌&&◌, ◌||◌, Option, none, some, [], ◌∷◌, leb, ◌==◌, nat_eq, text_eq,
  if◌then◌else◌, keep, Text, to_upper, to_lower, trim_space,
}

-- What `nonAlphanumeric` does not match.
unfoldable pub is_alphanumeric : ℕ → Bool
is_alphanumeric c =
    (leb b'A' c && leb c b'Z') || (leb b'a' c && leb c b'z') || (leb b'0' c && leb c b'9')

-- What `nonDigits` does not match.
unfoldable pub is_digit : ℕ → Bool
is_digit c = leb b'0' c && leb c b'9'

-- `\s`, which is `[\t\n\f\r ]`: the vertical tab is not in it.
unfoldable pub is_blank : ℕ → Bool
is_blank c = c == 9 || c == 10 || c == 12 || c == 13 || c == 32

unfoldable pub plate : Text → Text
plate v = to_upper (keep is_alphanumeric v)

unfoldable pub serial : Text → Text
unfolding plate
serial v = plate v

unfoldable pub imei : Text → Text
imei v = keep is_digit v

unfoldable pub iccid : Text → Text
iccid v = keep is_digit v

-- `collapseSpace.ReplaceAllString(v, " ")`; the flag says that a run of blanks has been replaced.
unfoldable pub collapse : Bool → Text → Text
collapse run [] = []
collapse run (c ∷ s) =
    let later = collapse true s in
    let fresh = c ∷ collapse false s in
    if is_blank c then (if run then later else b' ' ∷ later) else fresh

unfoldable pub name : Text → Text
unfolding collapse
name v = to_lower (collapse false (trim_space v))

unfoldable pub code_key : Text → Text
unfolding plate
code_key v = plate v

unfoldable pub channel_key : Option Text → Text
channel_key none = []
channel_key (some channel) = to_upper (trim_space channel)

some_if_any : Text → Option Text
some_if_any [] = none
some_if_any (c ∷ s) = some (c ∷ s)

-- An absent or empty value stays absent, before and after `fn`.
unfoldable pub optional : (Text → Text) → Option Text → Option Text
unfolding some_if_any
optional fn none = none
optional fn (some v) = if trim_space v == [] then none else some_if_any (fn v)
