-- ===== src/Repository/Devices.antt =====
-- internal/repository/devices.go: which device a vehicle carried at a moment, and the reverse. Times are numbers.
pub mod Intervals
pub mod Periods
mod Tests
use master_data.Shared.{
  ℕ, Bool, true, false, ◌&&◌, ◌||◌, Option, none, some, List, [], ◌∷◌, ltb, leb, if◌then◌else◌,
  ◌==◌, nat_eq, text_eq, contains, Text, Result, ok, err, lookup, insert,
}
use master_data.Errors.{Error, failure}
use master_data.Models.{TrackerAssignment}
use master_data.Mongo.{Mongo}

-- `{"$or": [{"unfittedAt": nil}, {"unfittedAt": {"$gt": at}}]}`.
unfoldable pub unfitted_after : ℕ → Option ℕ → Bool
unfitted_after at none = true
unfitted_after at (some t) = ltb at t

-- Fitted at the moment, and not taken off by then.
unfoldable pub in_force : ℕ → TrackerAssignment → Bool
unfolding unfitted_after
in_force at a = leb a.fitted_at at && unfitted_after at a.unfitted_at

unfoldable pub fitted_filter : Text → List Text → ℕ → TrackerAssignment → Bool
unfolding in_force
fitted_filter company_id vehicle_ids at a =
    a.company_id == company_id && contains vehicle_ids a.vehicle_id && in_force at a

unfoldable pub device_filter : Text → ℕ → TrackerAssignment → Bool
unfolding in_force
device_filter imei at a = a.imei == imei && in_force at a

unfoldable pub overlaps : ℕ → ℕ → TrackerAssignment → Bool
unfolding unfitted_after
overlaps from to a = leb a.fitted_at to && unfitted_after from a.unfitted_at

unfoldable pub period_filter : Text → Text → ℕ → ℕ → TrackerAssignment → Bool
unfolding overlaps
period_filter company_id vehicle_id from to a =
    a.company_id == company_id
    && overlaps from to a
    && (vehicle_id == [] || a.vehicle_id == vehicle_id)

-- `AssignmentPeriod`.
pub record Period : Type 0 where
  pub imei : Text
  pub vehicle_id : Text
  pub fitted_at : ℕ
  pub unfitted_at : Option ℕ

fitting_time : Option (Option TrackerAssignment) → Option ℕ
fitting_time none = none
fitting_time (some none) = none
fitting_time (some (some a)) = some a.fitted_at

abbrev pub Imeis : Type 0
Imeis = List (Text × Text)

-- `prev.After(a.FittedAt)`.
unless_later : TrackerAssignment → Option ℕ → Imeis → Imeis
unless_later a none out = insert a.vehicle_id a.imei out
unless_later a (some prev) out =
    if ltb a.fitted_at prev then out else insert a.vehicle_id a.imei out

periods : List TrackerAssignment → List Period
periods [] = []
periods (a ∷ rows) =
    if a.imei == []
    then periods rows
    else record {
      imei = a.imei;
      vehicle_id = a.vehicle_id;
      fitted_at = a.fitted_at;
      unfitted_at = a.unfitted_at;
    }
      ∷ periods rows

vehicle_found : Option (Option TrackerAssignment) → Result Error (Option Text)
vehicle_found none = err failure
vehicle_found (some none) = ok none
vehicle_found (some (some a)) = ok (some a.vehicle_id)

periods_found : Option (List TrackerAssignment) → Result Error (List Period)
unfolding periods
periods_found none = err failure
periods_found (some rows) = ok (periods rows)

module _ (m : Mongo) (assignments : List TrackerAssignment) where
  unfoldable pub fitted_at_of : Text → Text → Option ℕ
  unfolding fitting_time
  fitted_at_of vehicle_id imei = fitting_time (
      m.find_one (λ (a : TrackerAssignment). a.vehicle_id == vehicle_id && a.imei == imei)
        assignments)

  clash : TrackerAssignment → Option Text → Imeis → Imeis
  unfolding unless_later fitted_at_of
  clash a none out = insert a.vehicle_id a.imei out
  clash a (some existing) out =
      if existing == a.imei
      then insert a.vehicle_id a.imei out
      else unless_later a (fitted_at_of a.vehicle_id existing) out

  -- One round of the loop.
  round : TrackerAssignment → Imeis → Imeis
  unfolding clash
  round a out = if a.imei == [] then out else clash a (lookup a.vehicle_id out) out

  rounds : List TrackerAssignment → Imeis → Imeis
  unfolding round
  rounds [] out = out
  rounds (a ∷ rows) out = rounds rows (round a out)

  imeis_found : Option (List TrackerAssignment) → Result Error Imeis
  unfolding rounds
  imeis_found none = err failure
  imeis_found (some rows) = ok (rounds rows [])

  unfoldable pub imeis_at : Text → List Text → ℕ → Result Error Imeis
  unfolding imeis_found
  imeis_at company_id [] at = ok []
  imeis_at company_id (v ∷ vs) at =
      imeis_found (m.find (fitted_filter company_id (v ∷ vs) at) assignments)

  unfoldable pub vehicle_at : Text → ℕ → Result Error (Option Text)
  unfolding vehicle_found
  vehicle_at imei at = vehicle_found (m.find_one (device_filter imei at) assignments)

-- The order of texts that the database sorts by, byte by byte.
abbrev pub text_leb : Text → Text → Bool
text_leb [] t = true
text_leb (c ∷ s) [] = false
text_leb (c ∷ s) (d ∷ t) = ltb c d || (c == d && text_leb s t)

-- `{vehicleId: 1, fittedAt: 1}`, as whether `a` may stand before `b`.
unfoldable pub by_vehicle_and_time : TrackerAssignment → TrackerAssignment → Bool
by_vehicle_and_time a b =
    if a.vehicle_id == b.vehicle_id
    then leb a.fitted_at b.fitted_at
    else text_leb a.vehicle_id b.vehicle_id

-- `find_sorted` is the driver's find with a sort.
module _
    (find_sorted : (TrackerAssignment → TrackerAssignment → Bool)
      → (TrackerAssignment → Bool)
      → List TrackerAssignment
      → Option (List TrackerAssignment))
    (assignments : List TrackerAssignment) where
  unfoldable pub periods_for : Text → Text → ℕ → ℕ → Result Error (List Period)
  unfolding periods_found
  periods_for company_id vehicle_id from to =
      periods_found
        (find_sorted by_vehicle_and_time (period_filter company_id vehicle_id from to) assignments)
