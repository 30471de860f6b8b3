-- ===== src/Normalise/Names.antt =====
-- `Name`: trimming, collapsing and folding case, each once.
use master_data.Shared.{
  ℕ, Bool, true, false, not, ◌&&◌, ◌||◌, ◌≡◌, refl, [], ◌∷◌, arith, leb, ◌==◌, nat_eq, All, Text,
  to_lower, to_lower_byte, trim_left, trim_right, trim_space,
}
use master_data.Normalise.{is_blank, collapse}

trim_right_idem : (s : Text) → trim_right (trim_right s) ≡ trim_right s
unfolding trim_right
trim_right_idem [] = refl
trim_right_idem (c ∷ s) = ground (arith, trim_right_idem s)

trim_right-trim_left : (s : Text) → trim_right (trim_left s) ≡ trim_left (trim_right s)
unfolding trim_right trim_left
trim_right-trim_left [] = refl
trim_right-trim_left (c ∷ s) = ground (arith, trim_right-trim_left s)

trim_left_idem : (s : Text) → trim_left (trim_left s) ≡ trim_left s
unfolding trim_left
trim_left_idem [] = refl
trim_left_idem (c ∷ s) = ground (arith, trim_left_idem s)

trim_space_idem : (s : Text) → trim_space (trim_space s) ≡ trim_space s
unfolding trim_space
trim_space_idem s = simp (trim_right-trim_left, trim_right_idem, trim_left_idem)

collapse_idem : (run : Bool) (s : Text) → collapse run (collapse run s) ≡ collapse run s
unfolding collapse is_blank
collapse_idem run [] = refl
collapse_idem true (c ∷ s) = ground (arith, collapse_idem true s, collapse_idem false s)
collapse_idem false (c ∷ s) = ground (arith, collapse_idem true s, collapse_idem false s)

is_blank-lower : (c : ℕ) → is_blank (to_lower_byte c) ≡ is_blank c
unfolding is_blank to_lower_byte
is_blank-lower c = ground arith

lower_blank : to_lower_byte b' ' ≡ b' '
unfolding to_lower_byte
lower_blank = refl

collapse-to_lower : (run : Bool) (s : Text) → collapse run (to_lower s) ≡ to_lower (collapse run s)
unfolding collapse to_lower
collapse-to_lower run [] = refl
collapse-to_lower true (c ∷ s) =
    ground
      (arith, is_blank-lower c, lower_blank, collapse-to_lower true s, collapse-to_lower false s)
collapse-to_lower false (c ∷ s) =
    ground
      (arith, is_blank-lower c, lower_blank, collapse-to_lower true s, collapse-to_lower false s)

to_lower_idem : (s : Text) → to_lower (to_lower s) ≡ to_lower s
unfolding to_lower to_lower_byte
to_lower_idem [] = refl
to_lower_idem (c ∷ s) = ground (arith, to_lower_idem s)

-- A tab, a newline, a vertical tab, a form feed, a carriage return or a space.
abbrev pub is_white : ℕ → Bool
is_white c = c == 9 || c == 10 || c == 11 || c == 12 || c == 13 || c == 32

-- No capital of A to Z, and of the bytes that `\s` matches only the space.
abbrev pub IsNameByte : ℕ → Type 0
IsNameByte c =
    (not (leb b'A' c && leb c b'Z') && not (c == 9 || c == 10 || c == 12 || c == 13)) ≡ true

abbrev pub starts_white : Text → Bool
starts_white [] = false
starts_white (c ∷ s) = is_white c

-- Whether the last byte is white; the flag answers for the empty text.
abbrev pub ends_white : Bool → Text → Bool
ends_white b [] = b
ends_white b (c ∷ s) = ends_white (is_white c) s

-- No space follows another; the flag says that one stands before the text.
abbrev pub no_double : Bool → Text → Bool
no_double b [] = true
no_double b (c ∷ s) = not (b && c == 32) && no_double (c == 32) s

abbrev pub IsCanonicalName : Text → Type 0
IsCanonicalName s =
    All IsNameByte s
    × (starts_white s ≡ false)
    × (ends_white false s ≡ false)
    × (no_double false s ≡ true)
