-- ===== src/Repository/Devices/Periods.antt =====
-- `PeriodsFor` against the moments of its interval.
use master_data.Shared.{
  ℕ, ◌≤◌, ◌<◌, leb, ◌&&◌, ◌||◌, if◌then◌else◌, All, ◌≡◌, refl, sym, ap, subst, ◌≢◌, ◌↔◌, ◌⊎◌, inl,
  inr, Bool, true, false, Option, none, some, List, [], ◌∷◌, arith, Bool-cases, ◌==◌, nat_eq,
  text_eq, ==_refl, ==→eq, Text, ok,
}
use master_data.Models.{TrackerAssignment}
use master_data.Mongo.{IsIn}
use master_data.Repository.Devices.{
  period_filter, Period, overlaps, unfitted_after, text_leb, by_vehicle_and_time, periods,
  periods_found, periods_for,
}

abbrev pub period_of : TrackerAssignment → Period
period_of a = record {
  imei = a.imei;
  vehicle_id = a.vehicle_id;
  fitted_at = a.fitted_at;
  unfitted_at = a.unfitted_at;
}

periods-IsIn :
    (rows : List TrackerAssignment) (p : Period)
    → IsIn p (periods rows)
    → (a : TrackerAssignment) × IsIn a rows × (p ≡ period_of a) × ((a.imei == []) ≡ false)
unfolding periods
periods-IsIn [] p i = elim i [ ]
periods-IsIn (a ∷ rows) p i = elim (Bool-cases (a.imei == [])) [
  | inl e ↦ let z = rw e at i in let (x, j, q, n) = periods-IsIn rows p z in (x, inr j, q, n)
  | inr e ↦
      let z = rw e at i in
      elim z [
        | inl q ↦ (a, inl refl, q, e)
        | inr k ↦ let (x, j, q, n) = periods-IsIn rows p k in (x, inr j, q, n)
      ]
]

IsIn-periods :
    (rows : List TrackerAssignment) (a : TrackerAssignment)
    → IsIn a rows
    → (a.imei == []) ≡ false
    → IsIn (period_of a) (periods rows)
unfolding periods
IsIn-periods [] a i n = elim i [ ]
IsIn-periods (x ∷ rows) a (inl q) n =
    rw (subst (λ (y : TrackerAssignment). (y.imei == []) ≡ false) q n) (inl (ap period_of q))
IsIn-periods (x ∷ rows) a (inr i) n = elim (Bool-cases (x.imei == [])) [
  | inl e ↦ rw e (IsIn-periods rows a i n)
  | inr e ↦ rw e (inr (IsIn-periods rows a i n))
]

-- Not taken off by the moment.
abbrev pub StillOn : ℕ → Option ℕ → Type 0
StillOn t none = Unit
StillOn t (some u) = t < u

-- There is a moment of the interval at which the device was on the vehicle.
abbrev pub OnDuring : ℕ → ℕ → TrackerAssignment → Type 0
OnDuring from to a = (t : ℕ) × (from ≤ t) × (t ≤ to) × (a.fitted_at ≤ t) × StillOn t a.unfitted_at

later : ℕ → ℕ → ℕ
later x y = if leb x y then y else x

overlap_moment :
    (from to : ℕ) (a : TrackerAssignment)
    → from ≤ to
    → StillOn a.fitted_at a.unfitted_at
    → overlaps from to a ≡ true
    → OnDuring from to a
unfolding overlaps
overlap_moment from to a h w o = at a.unfitted_at w o
  where
    at :
        (u : Option ℕ)
        → StillOn a.fitted_at u
        → (leb a.fitted_at to && unfitted_after from u) ≡ true
        → (t : ℕ) × (from ≤ t) × (t ≤ to) × (a.fitted_at ≤ t) × StillOn t u
    at none k q = elim (Bool-cases (leb from a.fitted_at)) [
      | inl e ↦ (a.fitted_at, ground arith, ground arith, ground arith, tt)
      | inr e ↦ (from, ground arith, ground arith, ground arith, tt)
    ]
    at (some u) k q = elim (Bool-cases (leb from a.fitted_at)) [
      | inl e ↦ (a.fitted_at, ground arith, ground arith, ground arith, k)
      | inr e ↦ (from, ground arith, ground arith, ground arith, ground arith)
    ]

moment_overlaps :
    (from to : ℕ) (a : TrackerAssignment) → OnDuring from to a → overlaps from to a ≡ true
unfolding overlaps
moment_overlaps from to a (t, h, k, f, s) = at a.unfitted_at s
  where
    at : (u : Option ℕ) → StillOn t u → (leb a.fitted_at to && unfitted_after from u) ≡ true
    at none q = ground arith
    at (some u) q = ground arith

-- The assignments that the question is about.
abbrev pub Asked : Text → Text → ℕ → ℕ → TrackerAssignment → Type 0
Asked company_id vehicle_id from to a =
    (a.company_id ≡ company_id)
    × ((vehicle_id ≡ []) ⊎ (a.vehicle_id ≡ vehicle_id))
    × OnDuring from to a
    × (a.imei ≢ [])

filter_parts :
    (company_id vehicle_id : Text) (from to : ℕ) (a : TrackerAssignment)
    → period_filter company_id vehicle_id from to a ≡ true
    → (a.company_id ≡ company_id)
      × ((vehicle_id ≡ []) ⊎ (a.vehicle_id ≡ vehicle_id))
      × (overlaps from to a ≡ true)
unfolding period_filter
filter_parts company_id vehicle_id from to a h = (
  ==→eq a.company_id company_id (ground arith),
  elim (Bool-cases (vehicle_id == [])) [
    | inl e ↦ inl (==→eq vehicle_id [] e)
    | inr e ↦ inr (==→eq a.vehicle_id vehicle_id (ground arith))
  ],
  ground arith,
)

parts_filter :
    (company_id vehicle_id : Text) (from to : ℕ) (a : TrackerAssignment)
    → a.company_id ≡ company_id
    → (vehicle_id ≡ []) ⊎ (a.vehicle_id ≡ vehicle_id)
    → overlaps from to a ≡ true
    → period_filter company_id vehicle_id from to a ≡ true
unfolding period_filter
parts_filter company_id vehicle_id from to a c (inl v) o =
    rw (c, ==_refl company_id, o, v, ==_refl {K = Text} []) refl
parts_filter company_id vehicle_id from to a c (inr v) o =
    let z = ==_refl vehicle_id in rw (c, ==_refl company_id, o, v, z) (either (vehicle_id == []))
  where
    either : (b : Bool) → (b || true) ≡ true
    either true = refl
    either false = refl

-- Every element may stand before all that follow.
abbrev pub Ordered : {A : Type 0} → (A → A → Bool) → List A → Type 0
Ordered before [] = Unit
Ordered before (x ∷ xs) = All (λ y. before x y ≡ true) xs × Ordered before xs

-- By vehicle, and then by time.
abbrev pub period_before : Period → Period → Bool
period_before p q =
    if p.vehicle_id == q.vehicle_id
    then leb p.fitted_at q.fitted_at
    else text_leb p.vehicle_id q.vehicle_id

All-periods :
    (Q : Period → Type 0) (rows : List TrackerAssignment)
    → All (λ a. Q (period_of a)) rows
    → All Q (periods rows)
unfolding periods
All-periods Q [] h = tt
All-periods Q (a ∷ rows) (h, hs) = elim (Bool-cases (a.imei == [])) [
  | inl e ↦ rw e (All-periods Q rows hs)
  | inr e ↦ rw e (h, All-periods Q rows hs)
]

periods-Ordered :
    (rows : List TrackerAssignment)
    → Ordered by_vehicle_and_time rows
    → Ordered period_before (periods rows)
unfolding periods by_vehicle_and_time
periods-Ordered [] h = tt
periods-Ordered (a ∷ rows) (h, hs) = elim (Bool-cases (a.imei == [])) [
  | inl e ↦ rw e (periods-Ordered rows hs)
  | inr e ↦
      rw e (All-periods (λ q. period_before (period_of a) q ≡ true) rows h, periods-Ordered rows hs)
]

-- What the driver documents of a find with a sort: the rows that match, in the order.
abbrev pub Sorts :
    ((TrackerAssignment → TrackerAssignment → Bool)
      → (TrackerAssignment → Bool)
      → List TrackerAssignment
      → Option (List TrackerAssignment))
    → Type 0
Sorts find_sorted =
    (p : TrackerAssignment → Bool) (ds rows : List TrackerAssignment)
    → find_sorted by_vehicle_and_time p ds ≡ some rows
    → Ordered by_vehicle_and_time rows
      × ((a : TrackerAssignment) → IsIn a rows ↔ (IsIn a ds × (p a ≡ true)))

not_blank : (t : Text) → (t == []) ≡ false → t ≢ []
not_blank t e q = let z = rw (q, ==_refl {K = Text} []) at e in cc

blank : (t : Text) → t ≢ [] → (t == []) ≡ false
blank t k = elim (Bool-cases (t == [])) [ inl e ↦ absurd (k (==→eq t [] e)) | inr e ↦ e ]

-- `PeriodsFor` gives exactly the periods of the company's assignments, of the vehicle asked for or of
-- all, that carry an IMEI and whose device was on its vehicle at some moment of the interval, ends
-- included: from the moment of the fitting until before that of the removal. They are ordered by
-- vehicle and then by time. The interval is not turned round, and no stored assignment ends before
-- or when it starts; the driver's find gives the rows that match, in the order asked for.
pub periods_for_exact :
    (find_sorted : (TrackerAssignment → TrackerAssignment → Bool)
      → (TrackerAssignment → Bool)
      → List TrackerAssignment
      → Option (List TrackerAssignment))
    → Sorts find_sorted
    → (assignments : List TrackerAssignment) (company_id vehicle_id : Text) (from to : ℕ)
      (out : List Period) (p : Period)
    → from ≤ to
    → ((a : TrackerAssignment) → IsIn a assignments → StillOn a.fitted_at a.unfitted_at)
    → periods_for find_sorted assignments company_id vehicle_id from to ≡ ok out
    → Ordered period_before out
      × (IsIn p out ↔ (
          (a : TrackerAssignment) × IsIn a assignments
          × (p ≡ period_of a)
          × Asked company_id vehicle_id from to a))
unfolding periods_for periods_found
periods_for_exact find_sorted law assignments company_id vehicle_id from to out p le lasts h =
    found (find_sorted by_vehicle_and_time filter assignments) refl h
  where
    filter : TrackerAssignment → Bool
    filter = period_filter company_id vehicle_id from to

    found :
        (r : Option (List TrackerAssignment))
        → find_sorted by_vehicle_and_time filter assignments ≡ r
        → periods_found r ≡ ok out
        → Ordered period_before out
          × (IsIn p out ↔ (
              (a : TrackerAssignment) × IsIn a assignments
              × (p ≡ period_of a)
              × Asked company_id vehicle_id from to a))
    found none q k = cc
    found (some rows) q k =
        let e : periods rows ≡ out = cc in
        let (o, lem) = law filter assignments rows q in
        (
          subst (Ordered period_before) e (periods-Ordered rows o),
          (
            λ i.
                let (a, j, x, n) = periods-IsIn rows p (subst (IsIn p) (sym e) i) in
                let (g, f) = (lem a).0 j in
                let (c, v, l) = filter_parts company_id vehicle_id from to a f in
                (a, g, x, (c, v, overlap_moment from to a le (lasts a g) l, not_blank a.imei n)),
            λ (a, i, x, (c, v, d, n)).
                let f =
                  parts_filter company_id vehicle_id from to a c v (moment_overlaps from to a d) in
                subst (IsIn p) e (
                  subst (λ y. IsIn y (periods rows)) (sym x)
                    (IsIn-periods rows a ((lem a).1 (i, f)) (blank a.imei n))),
          ),
        )
