-- ===== src/Repository/Devices/Tests.antt =====
-- Runs of devices.go and the witnesses of its theorems.
use master_data.Shared.{sym, subst, Option, Bool, ◌&&◌, if◌then◌else◌, arith, keep, All, Bool-cases}
use master_data.Shared.{
  ◌≡◌, refl, ◌↔◌, inl, inr, true, none, some, List, [], ◌∷◌, nat_eq, text_eq, Text, codes, text_beq,
  ok, lookup, insert,
}
use master_data.Models.{TrackerAssignment}
use master_data.Mongo.{IsIn}
use master_data.Mongo.Memory.{in_memory}
use master_data.Repository.Devices.{
  fitted_filter, period_filter, imeis_at, periods_for, by_vehicle_and_time,
}
use master_data.Repository.Devices.Intervals.{imeis_at_sound, imeis_at_complete}
use master_data.Repository.Devices.Periods.{
  period_of, StillOn, Asked, Ordered, period_before, Sorts, periods_for_exact,
}
use master_data.Mongo.Memory.{keep-IsIn}

abbrev first_fitting : TrackerAssignment
first_fitting = record {
  id = 1;
  company_id = codes "c1";
  tracker_id = some (codes "t1");
  vehicle_id = codes "v1";
  kind = codes "gps";
  device_id = codes "d1";
  imei = codes "351";
  fitted_at = 5;
  unfitted_at = some 9;
  install_photo_key = none;
  installed_by_user_id = none;
  install_notes = none;
  created_at = 5;
}

abbrev second_fitting : TrackerAssignment
second_fitting = record first_fitting {
  id = 2;
  imei = codes "352";
  fitted_at = 9;
  unfitted_at = none;
}

abbrev fittings : List TrackerAssignment
fittings = first_fitting ∷ second_fitting ∷ []

at_the_change :
    imeis_at in_memory fittings (codes "c1") (codes "v1" ∷ []) 9
    ≡ ok ((codes "v1", codes "352") ∷ [])
unfolding imeis_at fitted_filter text_beq lookup insert
at_the_change = refl

given : lookup (codes "v1") ((codes "v1", codes "352") ∷ []) ≡ some (codes "352")
unfolding lookup text_beq
given = refl

second_in_force : fitted_filter (codes "c1") (codes "v1" ∷ []) 9 second_fitting ≡ true
unfolding fitted_filter text_beq
second_in_force = refl

imeis_at_sound_example :
    (a : TrackerAssignment) × IsIn a fittings
    × (a.vehicle_id ≡ codes "v1")
    × (a.imei ≡ codes "352")
    × (fitted_filter (codes "c1") (codes "v1" ∷ []) 9 a ≡ true)
imeis_at_sound_example =
    imeis_at_sound in_memory fittings (codes "c1") (codes "v1") (codes "352") (codes "v1" ∷ []) 9
      ((codes "v1", codes "352") ∷ []) at_the_change given

imeis_at_complete_example :
    (i : Text) × (lookup (codes "v1") ((codes "v1", codes "352") ∷ []) ≡ some i)
imeis_at_complete_example =
    imeis_at_complete in_memory fittings (codes "c1") (codes "v1" ∷ []) 9
      ((codes "v1", codes "352") ∷ []) second_fitting at_the_change (inr (inl refl)) second_in_force
      (λ e. cc)

-- A find over rows that are stored in the order asked for; it fails where they are not.
abbrev may_precede :
    (TrackerAssignment → TrackerAssignment → Bool)
    → TrackerAssignment
    → List TrackerAssignment
    → Bool
may_precede before a [] = true
may_precede before a (b ∷ rows) = before a b && may_precede before a rows

abbrev is_ordered : (TrackerAssignment → TrackerAssignment → Bool) → List TrackerAssignment → Bool
is_ordered before [] = true
is_ordered before (a ∷ rows) = may_precede before a rows && is_ordered before rows

find_stored :
    (TrackerAssignment → TrackerAssignment → Bool)
    → (TrackerAssignment → Bool)
    → List TrackerAssignment
    → Option (List TrackerAssignment)
find_stored before p ds = if is_ordered before (keep p ds) then some (keep p ds) else none

and_left : (a b : Bool) → (a && b) ≡ true → a ≡ true
and_left a b h = ground arith

and_right : (a b : Bool) → (a && b) ≡ true → b ≡ true
and_right a b h = ground arith

may_precede-All :
    (before : TrackerAssignment → TrackerAssignment → Bool) (a : TrackerAssignment)
    (rows : List TrackerAssignment)
    → may_precede before a rows ≡ true
    → All (λ b. before a b ≡ true) rows
may_precede-All before a [] h = tt
may_precede-All before a (b ∷ rows) h = (
  and_left (before a b) (may_precede before a rows) h,
  may_precede-All before a rows (and_right (before a b) (may_precede before a rows) h),
)

is_ordered-Ordered :
    (before : TrackerAssignment → TrackerAssignment → Bool) (rows : List TrackerAssignment)
    → is_ordered before rows ≡ true
    → Ordered before rows
is_ordered-Ordered before [] h = tt
is_ordered-Ordered before (a ∷ rows) h = (
  may_precede-All before a rows (and_left (may_precede before a rows) (is_ordered before rows) h),
  is_ordered-Ordered before rows (and_right (may_precede before a rows) (is_ordered before rows) h),
)

IsIn-keep :
    (p : TrackerAssignment → Bool) (ds : List TrackerAssignment) (a : TrackerAssignment)
    → IsIn a ds
    → p a ≡ true
    → IsIn a (keep p ds)
IsIn-keep p [] a i h = i
IsIn-keep p (x ∷ ds) a (inl e) h = let h' = subst (λ z. p z ≡ true) e h in rw h' (inl e)
IsIn-keep p (x ∷ ds) a (inr i) h = elim (Bool-cases (p x)) [
  | inl e ↦ rw e (inr (IsIn-keep p ds a i h))
  | inr e ↦ rw e (IsIn-keep p ds a i h)
]

find_stored-Sorts : Sorts find_stored
unfolding find_stored
find_stored-Sorts p ds rows h = elim (Bool-cases (is_ordered by_vehicle_and_time (keep p ds))) [
  | inr e ↦ let z = rw e at h in cc
  | inl e ↦
      let z = rw e at h in
      let k : keep p ds ≡ rows = cc in
      (
        subst (Ordered by_vehicle_and_time) k
            (is_ordered-Ordered by_vehicle_and_time (keep p ds) e),
        λ a. (
          λ i. keep-IsIn p ds a (subst (IsIn a) (sym k) i),
          λ (i, q). subst (IsIn a) k (IsIn-keep p ds a i q),
        ),
      )
]

fittings_last : (a : TrackerAssignment) → IsIn a fittings → StillOn a.fitted_at a.unfitted_at
fittings_last a (inl e) =
    subst (λ (x : TrackerAssignment). StillOn x.fitted_at x.unfitted_at) (sym e) (ground arith)
fittings_last a (inr (inl e)) =
    subst (λ (x : TrackerAssignment). StillOn x.fitted_at x.unfitted_at) (sym e) tt
fittings_last a (inr (inr i)) = elim i [ ]

both_periods :
    periods_for find_stored fittings (codes "c1") [] 6 20
    ≡ ok (period_of first_fitting ∷ period_of second_fitting ∷ [])
unfolding periods_for period_filter text_beq find_stored by_vehicle_and_time
both_periods = refl

periods_for_exact_example :
    Ordered period_before (period_of first_fitting ∷ period_of second_fitting ∷ [])
    × (IsIn (period_of first_fitting) (period_of first_fitting ∷ period_of second_fitting ∷ []) ↔ (
        (a : TrackerAssignment) × IsIn a fittings
        × (period_of first_fitting ≡ period_of a)
        × Asked (codes "c1") [] 6 20 a))
periods_for_exact_example =
    periods_for_exact find_stored find_stored-Sorts fittings (codes "c1") [] 6 20
      (period_of first_fitting ∷ period_of second_fitting ∷ []) (period_of first_fitting)
      (omega arith) fittings_last both_periods
