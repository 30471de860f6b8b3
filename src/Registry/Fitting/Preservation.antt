-- ===== src/Registry/Fitting/Preservation.antt =====
-- `Fit` and `Unfit` keep the invariant, whatever fails and wherever it fails.
use master_data.Shared.{
  refers, ℕ, ◌+◌, ◌≡◌, refl, sym, ap, subst, ◌≢◌, inl, inr, true, not, ◌&&◌, none, some, List, [],
  ◌∷◌, map, arith, ltb, Bool-cases, Option-cases, ◌==◌, nat_eq, text_eq, ==→eq, tally, exists, Text,
  text_beq_iff, ok, err,
}
use master_data.Errors.{validation, failure}
use master_data.Models.{
  tracker_gps, active, Vehicle, Tracker, TrackerAssignment, assignment_before_write,
}
use master_data.Mongo.{Mongo, IsIn, Deployment}
use master_data.Registry.{Db, Outcome, and_then, announce, is_tracker}
use master_data.Registry.Lookups.{Looks, instead-Looks, find_tracker-Looks, find_vehicle-Looks}
use master_data.Registry.Fitting.{
  FitInput, minute, at_or, open_for, open_among, new_assignment, same_kind, kind_ids, fit_run, fit,
  fit_device, fit_onto, fit_write, announce_fit, announce_unfit,
}
use master_data.Registry.Fitting.Runs.{closed, added, fit_run_cases, transact_cases}
use master_data.Registry.Fitting.Invariant.{
  open_on, Backed, Fitted, Fitted-same, closed-Fitted, added-Fitted, tally-close-le,
  tally-close-zero, open_for-close, open_on-close,
}

module _ (m : Mongo) where
  -- The list has the printed ids of the live devices of a kind.
  abbrev pub Covers : Text → List Tracker → List Text → Type 0
  Covers kind ts ids = (t : Tracker) → IsIn t ts → same_kind m kind t ≡ true → IsIn (m.hex t.id) ids

  IsIn-map_hex : (o : ℕ) (os : List ℕ) → IsIn o os → IsIn (m.hex o) (map m.hex os)
  IsIn-map_hex o [] h = elim h [ ]
  IsIn-map_hex o (x ∷ os) (inl e) = inl (ap m.hex e)
  IsIn-map_hex o (x ∷ os) (inr i) = inr (IsIn-map_hex o os i)

  pub kind_ids-Looks :
      (kind : Text) (db : Db) → Looks (Covers kind db.trackers) db (kind_ids m kind db)
  unfolding kind_ids
  kind_ids-Looks kind db =
      elim (Option-cases (m.distinct (λ (t : Tracker). t.id) (same_kind m kind) db.trackers)) [
        | inl e ↦ rw e (inl (failure, refl))
        | inr (ids, e) ↦ rw e (
            inr (
              map m.hex ids,
              refl,
              λ t i s.
                  IsIn-map_hex t.id ids
                    (m.distinct_lem (λ (t : Tracker). t.id) (same_kind m kind) db.trackers e t i s),
            ))
      ]

  exists-refers :
      (k : Text) (ids : List Text) → IsIn k ids → exists (λ j. refers (some k) j) ids ≡ true
  exists-refers k [] h = elim h [ ]
  exists-refers k (x ∷ ids) (inl e) = ground (arith, text_beq_iff k x)
  exists-refers k (x ∷ ids) (inr i) = ground (arith, exists-refers k ids i)

  -- What is open on the vehicle for the kind is among what the second write closes.
  open_on-open_among :
      (vid kind : Text) (ids : List Text) (db : Db)
      → Fitted m db
      → Covers kind db.trackers ids
      → (a : TrackerAssignment) → IsIn a db.assignments
      → open_on vid kind a ≡ true
      → open_among vid ids a ≡ true
  open_on-open_among vid kind ids db f c a i o =
      let (t, it, st, e) = f.backed a i (ground arith) in
      let k : a.kind ≡ kind = ==→eq a.kind kind (ground arith) in
      let x = exists-refers (m.hex t.id) ids (c t it (subst (λ z. same_kind m z t ≡ true) k st)) in
      let y = subst (λ z. exists (λ j. refers z j) ids ≡ true) (sym e) x in ground arith

  pub new_assignment_lem :
      (company_id : Text) (t : Tracker) (v : Vehicle) (input : FitInput) (at now new_id : ℕ)
      → t.kind ≢ []
      → let a = new_assignment m company_id t v input at now new_id in
        (a.tracker_id ≡ some (m.hex t.id))
        × (a.vehicle_id ≡ m.hex v.id)
        × (a.kind ≡ t.kind)
        × (a.fitted_at ≡ at)
        × (a.unfitted_at ≡ none)
  unfolding new_assignment assignment_before_write
  new_assignment_lem company_id t v input at now new_id n =
      ground (arith, text_beq_iff t.kind [], text_beq_iff t.kind tracker_gps)

  -- The new assignment can be added once both writes have closed what was open.
  inserted-Fitted :
      (tid : Text) (a : TrackerAssignment) (ids : List Text) (at : ℕ) (db : Db)
      → Fitted m db
      → a.tracker_id ≡ some tid
      → Backed m db.trackers a
      → Covers a.kind db.trackers ids
      → Fitted m (added a (closed (open_among a.vehicle_id ids) at (closed (open_for tid) at db)))
  inserted-Fitted tid a ids at db f e b c =
      let q₁ = open_for tid in
      let q₂ = open_among a.vehicle_id ids in
      let db₁ = closed q₁ at db in
      let f₁ = closed-Fitted m q₁ at db f in
      let z : tally q₁ db₁.assignments ≡ 0 =
        tally-close-zero q₁ q₁ at db.assignments (open_for-close tid at) (λ x i h. h) in
      added-Fitted m a tid (closed q₂ at db₁) e b
        (omega (arith, z, tally-close-le q₁ q₂ at db₁.assignments (open_for-close tid at)))
        (tally-close-zero (open_on a.vehicle_id a.kind) q₂ at db₁.assignments
          (open_on-close a.vehicle_id a.kind at)
          (open_on-open_among a.vehicle_id a.kind ids db₁ f₁ c))
        (closed-Fitted m q₂ at db₁ f₁)

  fit_run-Fitted :
      (t : Tracker) (v : Vehicle) (ids : List Text) (at : ℕ) (a : TrackerAssignment) (db : Db)
      → Fitted m db
      → a.tracker_id ≡ some (m.hex t.id)
      → a.vehicle_id ≡ m.hex v.id
      → Backed m db.trackers a
      → Covers a.kind db.trackers ids
      → Fitted m (fit_run m t v ids at a db).1
  fit_run-Fitted t v ids at a db f e ev b c =
      let q₁ = open_for (m.hex t.id) in
      let f₁ = closed-Fitted m q₁ at db f in
      fit_run_cases m (Fitted m) t v ids at a db f f₁
        (closed-Fitted m (open_among (m.hex v.id) ids) at (closed q₁ at db) f₁)
        (λ db' s. Fitted-same m _ db' s (
          subst (λ vid. Fitted m (added a (closed (open_among vid ids) at (closed q₁ at db)))) ev
            (inserted-Fitted (m.hex t.id) a ids at db f e b c)))

  announce-Fitted :
      (kind company_id id op : Text) (db : Db)
      → Fitted m db
      → Fitted m (announce kind company_id id op db).1
  unfolding announce
  announce-Fitted kind company_id id op db f =
      Fitted-same m db _ (record { assignments_kept = refl; trackers_kept = refl }) f

  announce_fit-Fitted :
      (company_id tracker_id vehicle_id : Text) (a : TrackerAssignment) (r : Outcome (Unit {0}))
      → Fitted m r.1
      → Fitted m (and_then r (λ _. announce_fit m company_id tracker_id vehicle_id a)).1
  unfolding announce_fit
  announce_fit-Fitted company_id tracker_id vehicle_id a (err e, db) f = f
  announce_fit-Fitted company_id tracker_id vehicle_id a (ok u, db) f =
      Fitted-same m db _ (record { assignments_kept = refl; trackers_kept = refl }) f

  announce_unfit-Fitted :
      (company_id tracker_id vehicle_id : Text) (r : Outcome (Unit {0}))
      → Fitted m r.1
      → Fitted m (and_then r (λ _. announce_unfit m company_id tracker_id vehicle_id)).1
  unfolding announce_unfit
  announce_unfit-Fitted company_id tracker_id vehicle_id (err e, db) f = f
  announce_unfit-Fitted company_id tracker_id vehicle_id (ok u, db) f =
      elim (Bool-cases (vehicle_id == [])) [
        | inl e ↦
            rw e (Fitted-same m db _ (record { assignments_kept = refl; trackers_kept = refl }) f)
        | inr e ↦
            rw e (Fitted-same m db _ (record { assignments_kept = refl; trackers_kept = refl }) f)
      ]

  -- The lookups have found what the writes need.
  found_run-Fitted :
      (company_id : Text) (t : Tracker) (o : ℕ) (v : Vehicle) (input : FitInput) (ids : List Text)
      (at now new_id : ℕ) (db : Db)
      → Fitted m db
      → IsIn t db.trackers
      → is_tracker m company_id o t ≡ true
      → Covers t.kind db.trackers ids
      → Fitted m (fit_run m t v ids at (new_assignment m company_id t v input at now new_id) db).1
  found_run-Fitted company_id t o v input ids at now new_id db f it st c =
      let (e, ev, ek, _, _) =
        new_assignment_lem company_id t v input at now new_id (f.kinded t it) in
      let a = new_assignment m company_id t v input at now new_id in
      fit_run-Fitted t v ids at a db f e ev (t, it, ground (arith, text_beq_iff t.kind a.kind), e)
        (subst (λ k. Covers k db.trackers ids) (sym ek) c)

  module _ (tx : Deployment) (now new_id : ℕ) (company_id tracker_id : Text) (input : FitInput)
      (db : Db) (f : Fitted m db) where
    fit_onto-Fitted :
        (t : Tracker) (o : ℕ) (v : Vehicle)
        → IsIn t db.trackers
        → is_tracker m company_id o t ≡ true
        → Fitted m (fit_onto m tx now new_id company_id tracker_id input t v db).1
    unfolding fit_onto fit_write
    fit_onto-Fitted t o v it st =
        elim (Bool-cases (ltb (now + minute) (at_or now input.fitted_at))) [
          | inl e ↦ rw e f
          | inr e ↦ rw e (elim (kind_ids-Looks t.kind db) [
            | inl (e', q) ↦ rw q f
            | inr (ids, q, c) ↦ rw q (
                announce_fit-Fitted company_id tracker_id input.vehicle_id _ _ (
                  transact_cases m (Fitted m) tx _ db f (
                    found_run-Fitted company_id t o v input ids (at_or now input.fitted_at) now
                      new_id db f it st c)))
          ])
        ]

    fit_device-Fitted :
        (t : Tracker) (o : ℕ)
        → IsIn t db.trackers
        → is_tracker m company_id o t ≡ true
        → Fitted m (fit_device m tx now new_id company_id tracker_id input t db).1
    unfolding fit_device
    fit_device-Fitted t o it st =
        elim (Bool-cases (not (t.status == active) && not (t.status == []))) [
          | inl e ↦ rw e f
          | inr e ↦
              rw e
                (elim (instead-Looks _ validation db _
                  (find_vehicle-Looks m company_id input.vehicle_id db)) [
                    | inl (e', q) ↦ rw q f
                    | inr (v, q, w) ↦ rw q (fit_onto-Fitted t o v it st)
                  ])
        ]

    -- If the invariant of the fittings holds before a `Fit`, it holds after it: for every input
    -- and every deployment, and also where a call of the driver fails between two writes that no
    -- transaction holds together.
    pub fit-Fitted : Fitted m (fit m tx now new_id company_id tracker_id input db).1
    unfolding fit
    fit-Fitted = elim (find_tracker-Looks m company_id tracker_id db) [
      | inl (e, q) ↦ rw q f
      | inr (t, q, (o, s, it, st)) ↦ rw q (fit_device-Fitted t o it st)
    ]
