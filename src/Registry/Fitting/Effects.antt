-- ===== src/Registry/Fitting/Effects.antt =====
-- What a `Fit` that succeeds has done: the three records agree on where the device is.
use master_data.Shared.{
  refers, ℕ, ◌≡◌, refl, sym, ap, subst, ◌∙◌, true, false, none, some, List, arith, ◌==◌, nat_eq,
  text_eq, ==→eq, tally, All, Text, text_beq_iff, ok,
}
use master_data.Models.{tracker_gps, Vehicle, Tracker, TrackerAssignment}
use master_data.Mongo.{Mongo, IsIn, Deployment}
use master_data.Registry.{Db, is_vehicle}
use master_data.Registry.Fitting.{FitInput, at_or, is_open, open_for, fit}
use master_data.Registry.Fitting.Invariant.{open_on, Fitted}
use master_data.Registry.Fitting.Preservation.{fit-Fitted, new_assignment_lem}
use master_data.Mongo.Counts.{tally_pos, IsIn-All}
use master_data.Registry.Fitting.Writes.{linked, OneEach, linked_lem, hex-beq}
use master_data.Registry.Fitting.Steps.{Came, fit_ok}

opens :
    (tid : Text) (a : TrackerAssignment)
    → a.tracker_id ≡ some tid
    → a.unfitted_at ≡ none
    → open_for tid a ≡ true
opens tid a e eu = rw (e, eu) (ground (arith, text_beq_iff tid tid))

module _ (m : Mongo) where
  -- The vehicle of an assignment is a live one of the company.
  abbrev pub OnOwnVehicle : Text → List Vehicle → TrackerAssignment → Type 0
  OnOwnVehicle company_id vs a =
      (v : Vehicle) × IsIn v vs
      × (v.company_id ≡ company_id)
      × (v.deleted ≡ false)
      × (a.vehicle_id ≡ m.hex v.id)

  on_own_vehicle :
      (company_id : Text) (vs : List Vehicle) (a : TrackerAssignment) (v : Vehicle) (o : ℕ)
      → IsIn v vs
      → is_vehicle m company_id o v ≡ true
      → a.vehicle_id ≡ m.hex v.id
      → OnOwnVehicle company_id vs a
  on_own_vehicle company_id vs a v o i s e =
      (v, i, ==→eq v.company_id company_id (ground arith), ground arith, e)

  only_links :
      (t : Tracker) (v : Vehicle) (at : ℕ) (a : TrackerAssignment) (vs vs' : List Vehicle)
      (tid : Text)
      → a.tracker_id ≡ some (m.hex t.id)
      → a.vehicle_id ≡ m.hex v.id
      → vs' ≡ linked (m.hex t.id) v.id at vs
      → a.tracker_id ≡ some tid
      → (w : Vehicle) → IsIn w vs'
      → refers w.tracker_id tid ≡ (m.hex w.id == a.vehicle_id)
  only_links t v at a vs vs' tid e ev l q w i =
      let k : m.hex t.id ≡ tid = cc in
      let z = linked_lem m (m.hex t.id) v.id at vs w (subst (λ xs. IsIn w xs) l i) in
      rw (← k, ev) (z ∙ sym (hex-beq m w.id v.id))

  module _ (tx : Deployment) (now new_id : ℕ) (company_id tracker_id : Text) (input : FitInput)
      (a : TrackerAssignment) (db db' : Db) (f : Fitted m db)
      (h : fit m tx now new_id company_id tracker_id input db ≡ (ok a, db')) where
    -- What the new assignment says of its device and vehicle.
    fit_fields :
        (c : Came m company_id tracker_id input now new_id a db db')
        → (a.tracker_id ≡ some (m.hex (c.t).id))
          × (a.vehicle_id ≡ m.hex (c.v).id)
          × (a.kind ≡ (c.t).kind)
          × (a.fitted_at ≡ at_or now input.fitted_at)
          × (a.unfitted_at ≡ none)
    fit_fields c =
        let (o, it, st) = c.tracker_found in
        subst
          (λ (x : TrackerAssignment).
            (x.tracker_id ≡ some (m.hex (c.t).id))
            × (x.vehicle_id ≡ m.hex (c.v).id)
            × (x.kind ≡ (c.t).kind)
            × (x.fitted_at ≡ at_or now input.fitted_at)
            × (x.unfitted_at ≡ none))
          c.is_new
          (new_assignment_lem m company_id c.t c.v input (at_or now input.fitted_at) now new_id
            (f.kinded c.t it))

    -- After a `Fit` that succeeds on a state with the invariant: the assignment is stored, and
    -- open since the time asked for, on a live vehicle of the company. It names a device, it is
    -- the one open assignment of that device, and the one open assignment of its vehicle and
    -- kind.
    pub fit_agrees :
        IsIn a db'.assignments
        × (is_open a ≡ true)
        × (a.fitted_at ≡ at_or now input.fitted_at)
        × OnOwnVehicle company_id db.vehicles a
        × ((tid : Text) × (a.tracker_id ≡ some tid) × (tally (open_for tid) db'.assignments ≡ 1))
        × (tally (open_on a.vehicle_id a.kind) db'.assignments ≡ 1)
    fit_agrees =
        let c = fit_ok m tx now new_id company_id tracker_id input a db db' h in
        let f' : Fitted m db' =
          subst (λ r. Fitted m r) (ap (λ r. r.1) h)
            (fit-Fitted m tx now new_id company_id tracker_id input db f) in
        let (ov, iv, sv) = c.vehicle_found in
        let (e, ev, ek, ef, eu) = fit_fields c in
        let tid = m.hex (c.t).id in
        let o₁ : open_for tid a ≡ true = opens tid a e eu in
        let o₂ : open_on a.vehicle_id a.kind a ≡ true =
          ground (arith, text_beq_iff a.vehicle_id a.vehicle_id, text_beq_iff a.kind a.kind) in
        (
          c.has_assignment,
          rw eu refl,
          ef,
          on_own_vehicle company_id db.vehicles a c.v ov iv sv ev,
          (
            tid,
            e,
            omega (
              arith,
              f'.one_per_tracker tid,
              tally_pos (open_for tid) db'.assignments a c.has_assignment o₁,
            ),
          ),
          omega (
            arith,
            f'.one_per_vehicle a.vehicle_id a.kind,
            tally_pos (open_on a.vehicle_id a.kind) db'.assignments a c.has_assignment o₂,
          ),
        )

    -- After a `Fit` of a GPS that succeeds on a state with the invariant, where no two vehicles
    -- have one id: of all the vehicles stored, of any company, the ones that point at the device
    -- are those with the id of the vehicle it is fitted on.
    pub fit_links :
        OneEach db.vehicles
        → a.kind ≡ tracker_gps
        → (tid : Text) × (a.tracker_id ≡ some tid)
          × All
              (λ (w : Vehicle). refers w.tracker_id tid ≡ (m.hex w.id == a.vehicle_id))
              db'.vehicles
    fit_links u k =
        let c = fit_ok m tx now new_id company_id tracker_id input a db db' h in
        let (e, ev, ek, ef, eu) = fit_fields c in
        let tid = m.hex (c.t).id in
        (
          tid,
          e,
          IsIn-All _ db'.vehicles (
              only_links c.t c.v (at_or now input.fitted_at) a db.vehicles db'.vehicles tid e ev
                (c.has_links (sym ek ∙ k) u) e),
        )
