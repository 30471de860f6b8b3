-- ===== src/Safeconv/Tests.antt =====
-- Runs of safeconv.go and the witness of its theorem.
use master_data.Shared.{◌≡◌, refl, ◌↔◌, true, ◌&&◌}
use master_data.Shared.{pos, negsuc, le_int}
use master_data.Safeconv.{int32, non_negative_int32, digit, fits_int32, int32_saturates}

last_digit : digit (pos 12) ≡ b'9'
unfolding digit
last_digit = refl

int32_saturates_example :
    (fits_int32 (int32 (negsuc 3000000000)) ≡ true)
    × ((int32 (negsuc 3000000000) ≡ negsuc 3000000000) ↔ (fits_int32 (negsuc 3000000000) ≡ true))
    × (le_int (int32 (negsuc 3000000000)) (int32 (pos 7)) ≡ true)
    × (le_int (pos 0) (non_negative_int32 (negsuc 3000000000)) ≡ true)
    × (fits_int32 (non_negative_int32 (negsuc 3000000000)) ≡ true)
    × ((non_negative_int32 (negsuc 3000000000) ≡ negsuc 3000000000)
        ↔ ((le_int (pos 0) (negsuc 3000000000) && fits_int32 (negsuc 3000000000)) ≡ true))
int32_saturates_example = int32_saturates (negsuc 3000000000) (pos 7) refl
