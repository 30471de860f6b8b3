-- ===== src/Safeconv.antt =====
-- internal/platform/safeconv/safeconv.go: conversions that stop at the ends of 32 bits.
mod Tests
use master_data.Shared.{
  ℕ, ◌+◌, ◌≡◌, refl, subst, ◌↔◌, inl, inr, Bool, true, not, ◌&&◌, arith, ltb, if◌then◌else◌,
  Bool-cases,
}
use master_data.Shared.{ℤ, pos, negsuc, le_int}

abbrev pub max_int32 : ℤ
max_int32 = pos 2147483647

-- -(2 ^ 31).
abbrev pub min_int32 : ℤ
min_int32 = negsuc 2147483647

-- `Int32` and `Int32From64`.
unfoldable pub int32 : ℤ → ℤ
int32 v =
    if not (le_int v max_int32)
    then max_int32
    else if not (le_int min_int32 v)
    then min_int32
    else v

unfoldable pub non_negative_int32 : ℤ → ℤ
non_negative_int32 v = if not (le_int (pos 0) v) then pos 0 else int32 v

-- The byte of a decimal digit.
unfoldable pub digit : ℤ → ℕ
digit (negsuc n) = b'0'
digit (pos n) = if ltb 9 n then b'0' + 9 else b'0' + n

abbrev pub fits_int32 : ℤ → Bool
fits_int32 v = le_int min_int32 v && le_int v max_int32

int32-fits : (v : ℤ) → fits_int32 (int32 v) ≡ true
unfolding int32
int32-fits (pos n) = ground arith
int32-fits (negsuc n) = ground arith

int32-same : (v : ℤ) → fits_int32 v ≡ true → int32 v ≡ v
unfolding int32
int32-same (pos n) h = ground arith
int32-same (negsuc n) h = ground arith

int32_mono : (v w : ℤ) → le_int v w ≡ true → le_int (int32 v) (int32 w) ≡ true
unfolding int32
int32_mono (pos a) (pos b) h = ground arith
int32_mono (pos a) (negsuc b) h = cc
int32_mono (negsuc a) (pos b) h = ground arith
int32_mono (negsuc a) (negsuc b) h = ground arith

zero-int32 : int32 (pos 0) ≡ pos 0
zero-int32 = int32-same (pos 0) refl

count_positive : (v : ℤ) → le_int (pos 0) (non_negative_int32 v) ≡ true
unfolding non_negative_int32
count_positive v = elim (Bool-cases (le_int (pos 0) v)) [
  | inl e ↦ rw e (subst (λ x. le_int x (int32 v) ≡ true) zero-int32 (int32_mono (pos 0) v e))
  | inr e ↦ rw e refl
]

count-fits : (v : ℤ) → fits_int32 (non_negative_int32 v) ≡ true
unfolding non_negative_int32
count-fits v = elim (Bool-cases (le_int (pos 0) v)) [
  | inl e ↦ rw e (int32-fits v)
  | inr e ↦ rw e refl
]

count-same : (v : ℤ) → (le_int (pos 0) v && fits_int32 v) ≡ true → non_negative_int32 v ≡ v
unfolding non_negative_int32
count-same v h = elim (Bool-cases (le_int (pos 0) v)) [
  | inl e ↦ let z = rw e at h in rw e (int32-same v z)
  | inr e ↦ let z = rw e at h in cc
]

-- A number that fits in 32 bits is left as it is, and only such a number; any other goes to the end
-- that it lies beyond, so the result always fits and the order of two numbers is kept. A count
-- becomes a number that is at least 0 and fits too, and only such a number is left as it is.
pub int32_saturates :
    (v w : ℤ)
    → le_int v w ≡ true
    → (fits_int32 (int32 v) ≡ true)
      × ((int32 v ≡ v) ↔ (fits_int32 v ≡ true))
      × (le_int (int32 v) (int32 w) ≡ true)
      × (le_int (pos 0) (non_negative_int32 v) ≡ true)
      × (fits_int32 (non_negative_int32 v) ≡ true)
      × ((non_negative_int32 v ≡ v) ↔ ((le_int (pos 0) v && fits_int32 v) ≡ true))
int32_saturates v w h = (
  int32-fits v,
  (λ e. subst (λ x. fits_int32 x ≡ true) e (int32-fits v), int32-same v),
  int32_mono v w h,
  count_positive v,
  count-fits v,
  (
    λ e.
        subst (λ x. (le_int (pos 0) x && fits_int32 x) ≡ true) e
          (rw (count_positive v, count-fits v) refl),
    count-same v,
  ),
)
