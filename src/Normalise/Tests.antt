-- ===== src/Normalise/Tests.antt =====
-- Runs of normalise.go and the witnesses of its theorems.
use master_data.Shared.{
  ◌≡◌, ◌↔◌, refl, codes, All, ◌++◌, ◌∷◌, to_upper, to_lower, to_lower_byte, trim_space,
}
use master_data.Normalise.Plates.{IsPlateByte, plate_canonical, plate_ignores}
use master_data.Normalise.{plate, name, is_alphanumeric, is_blank}

plate_spaces : plate (codes "b 12-34 xyz") ≡ codes "B1234XYZ"
unfolding plate is_alphanumeric to_upper
plate_spaces = refl

name_spaces : name (codes "  Cikarang \t DC ") ≡ codes "cikarang dc"
unfolding name is_blank to_lower trim_space
name_spaces = refl

plate_canonical_example :
    All IsPlateByte (plate (codes "b-1234 xy"))
    × ((plate (codes "b-1234 xy") ≡ codes "b-1234 xy") ↔ All IsPlateByte (codes "b-1234 xy"))
plate_canonical_example = plate_canonical (codes "b-1234 xy")

plate_ignores_example :
    (plate (codes "B1" ++ 45 ∷ codes "23") ≡ plate (codes "B1" ++ codes "23"))
    × (plate (codes "B1" ++ to_lower_byte 88 ∷ codes "23") ≡ plate (codes "B1" ++ 88 ∷ codes "23"))
unfolding is_alphanumeric
plate_ignores_example = plate_ignores (codes "B1") (codes "23") 45 88 refl
