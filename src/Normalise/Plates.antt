-- ===== src/Normalise/Plates.antt =====
-- `Plate`, `Serial`, `Code` and `IMEI`: the stored form is canonical.
use master_data.Shared.{
  ℕ, true, ◌≡◌, refl, [], ◌∷◌, ◌++◌, ◌||◌, ◌&&◌, leb, All, Text, arith, to_upper, to_lower_byte,
  ◌↔◌, false, subst, sym, ◌∙◌, ap,
}
use master_data.Normalise.{is_alphanumeric, plate}

-- A byte of a stored plate: a digit or a capital.
abbrev pub IsPlateByte : ℕ → Type 0
IsPlateByte c = ((leb b'A' c && leb c b'Z') || (leb b'0' c && leb c b'9')) ≡ true

-- A stored plate has only digits and capitals.
plate_bytes : (v : Text) → All IsPlateByte (plate v)
unfolding plate to_upper is_alphanumeric
plate_bytes [] = tt
plate_bytes (c ∷ v) = ground (arith, plate_bytes v)

plate_fixed : (w : Text) → All IsPlateByte w → plate w ≡ w
unfolding plate to_upper is_alphanumeric
plate_fixed [] h = refl
plate_fixed (c ∷ w) (hc, hw) = ground (arith, plate_fixed w hw)

plate-append : (s t : Text) → plate (s ++ t) ≡ plate s ++ plate t
unfolding plate to_upper is_alphanumeric
plate-append [] t = refl
plate-append (c ∷ s) t = ground (arith, plate-append s t)

plate_drops : (c : ℕ) (t : Text) → is_alphanumeric c ≡ false → plate (c ∷ t) ≡ plate t
unfolding plate
plate_drops c t h = ground arith

plate_folds : (d : ℕ) (t : Text) → plate (to_lower_byte d ∷ t) ≡ plate (d ∷ t)
unfolding plate to_upper is_alphanumeric to_lower_byte
plate_folds d t = ground arith

-- `Plate` keeps exactly the texts made of digits and capitals, and every result is one.
pub plate_canonical : (v : Text) → All IsPlateByte (plate v) × ((plate v ≡ v) ↔ All IsPlateByte v)
plate_canonical v = (plate_bytes v, (λ e. subst (All IsPlateByte) e (plate_bytes v), plate_fixed v))

-- A separator typed anywhere in a plate is not part of what is stored, nor is the case of a letter.
pub plate_ignores :
    (s t : Text) (c d : ℕ)
    → is_alphanumeric c ≡ false
    → (plate (s ++ c ∷ t) ≡ plate (s ++ t))
      × (plate (s ++ to_lower_byte d ∷ t) ≡ plate (s ++ d ∷ t))
plate_ignores s t c d h = (
  plate-append s (c ∷ t) ∙ (ap (λ r. plate s ++ r) (plate_drops c t h) ∙ sym (plate-append s t)),
  plate-append s (to_lower_byte d ∷ t)
      ∙ (ap (λ r. plate s ++ r) (plate_folds d t) ∙ sym (plate-append s (d ∷ t))),
)
