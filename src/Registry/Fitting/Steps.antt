-- ===== src/Registry/Fitting/Steps.antt =====
-- A fitting that succeeds, step by step.
use master_data.Shared.{
  ℕ, ◌+◌, ◌≡◌, refl, ◌∙◌, inl, inr, Bool, true, false, not, ◌&&◌, List, [], ltb, ◌==◌, nat_eq,
  text_eq, Text, ok,
}
use master_data.Errors.{Error, validation}
use master_data.Models.{tracker_gps, active, Vehicle, Tracker, TrackerAssignment}
use master_data.Mongo.{Mongo, IsIn, Deployment}
use master_data.Registry.{
  Db, Outcome, Exec, and_then, refuse_if, instead, is_tracker, find_tracker, is_vehicle,
  find_vehicle,
}
use master_data.Registry.Lookups.{Looks, instead-Looks, find_tracker-Looks, find_vehicle-Looks}
use master_data.Registry.Fitting.{
  FitInput, minute, at_or, new_assignment, kind_ids, fit_run, transact, fit, fit_device, fit_onto,
  fit_write, announce_fit,
}
use master_data.Registry.Fitting.Preservation.{Covers, kind_ids-Looks}
use master_data.Registry.Fitting.Writes.{
  linked, OneEach, and_then_ok, transact_ok, fit_run_ok, announce_fit_ok,
}

module _ (m : Mongo) where
  -- Where the assignment of a successful fitting comes from.
  pub record Came (company_id tracker_id : Text) (input : FitInput) (now new_id : ℕ)
      (a : TrackerAssignment) (db db' : Db) : Type 0 where
    pub t : Tracker
    pub v : Vehicle
    pub tracker_found : (o : ℕ) × IsIn t db.trackers × (is_tracker m company_id o t ≡ true)
    pub vehicle_found : (o : ℕ) × IsIn v db.vehicles × (is_vehicle m company_id o v ≡ true)
    pub is_new : new_assignment m company_id t v input (at_or now input.fitted_at) now new_id ≡ a
    pub has_assignment : IsIn a db'.assignments
    pub has_links :
        t.kind ≡ tracker_gps
        → OneEach db.vehicles
        → db'.vehicles ≡ linked (m.hex t.id) v.id (at_or now input.fitted_at) db.vehicles

  Looks-ok :
      {A B : Type 0} (Q : A → Type 0) (r : Outcome A) (k : A → Exec B) (b : B) (db db' : Db)
      → Looks Q db r
      → and_then r k ≡ (ok b, db')
      → (a : A) × Q a × (k a db ≡ (ok b, db'))
  Looks-ok Q r k b db db' (inl (e, q)) h = let z = rw q at h in cc
  Looks-ok Q r k b db db' (inr (a, q, w)) h = (a, w, rw q at h)

  refuse_if_ok :
      {B : Type 0} (t : Bool) (e : Error) (k : Exec B) (b : B) (db db' : Db)
      → and_then (refuse_if t e db) (λ _. k) ≡ (ok b, db')
      → (t ≡ false) × (k db ≡ (ok b, db'))
  refuse_if_ok true e k b db db' h = cc
  refuse_if_ok false e k b db db' h = (refl, h)

  module _ (tx : Deployment) (now new_id : ℕ) (company_id tracker_id : Text) (input : FitInput)
      (a : TrackerAssignment) (db db' : Db) where
    fit_write_ok :
        (t : Tracker) (v : Vehicle) (ids : List Text)
        → (o : ℕ) × IsIn t db.trackers × (is_tracker m company_id o t ≡ true)
        → (o : ℕ) × IsIn v db.vehicles × (is_vehicle m company_id o v ≡ true)
        → fit_write m tx now new_id company_id tracker_id input t v ids db ≡ (ok a, db')
        → Came company_id tracker_id input now new_id a db db'
    unfolding fit_write
    fit_write_ok t v ids ft fv g =
        let at = at_or now input.fitted_at in
        let n = new_assignment m company_id t v input at now new_id in
        let (u, db₁, r, l) =
          and_then_ok m (transact m tx (fit_run m t v ids at n) db)
            (λ _. announce_fit m company_id tracker_id input.vehicle_id n) a db' g in
        let done =
          fit_run_ok m t v ids at n db db₁
            (transact_ok m tx (fit_run m t v ids at n) tt db db₁ r) in
        let (q, ea, ev) = announce_fit_ok m company_id tracker_id input.vehicle_id n a db₁ db' l in
        record {
          t = t;
          v = v;
          tracker_found = ft;
          vehicle_found = fv;
          is_new = q;
          has_assignment = rw (← q, ea) done.has_assignment;
          has_links = λ k w. ev ∙ done.has_links k w;
        }

    fit_onto_ok :
        (t : Tracker) (v : Vehicle)
        → (o : ℕ) × IsIn t db.trackers × (is_tracker m company_id o t ≡ true)
        → (o : ℕ) × IsIn v db.vehicles × (is_vehicle m company_id o v ≡ true)
        → fit_onto m tx now new_id company_id tracker_id input t v db ≡ (ok a, db')
        → Came company_id tracker_id input now new_id a db db'
    unfolding fit_onto
    fit_onto_ok t v ft fv h =
        let rest : Exec TrackerAssignment = λ d.
          and_then (kind_ids m t.kind d)
            (fit_write m tx now new_id company_id tracker_id input t v) in
        let (_, h₁) =
          refuse_if_ok (ltb (now + minute) (at_or now input.fitted_at)) validation rest a db db'
            h in
        let (ids, c, h₂) =
          Looks-ok (Covers m t.kind db.trackers) (kind_ids m t.kind db)
            (fit_write m tx now new_id company_id tracker_id input t v) a db db'
            (kind_ids-Looks m t.kind db) h₁ in
        fit_write_ok t v ids ft fv h₂

    fit_device_ok :
        (t : Tracker)
        → (o : ℕ) × IsIn t db.trackers × (is_tracker m company_id o t ≡ true)
        → fit_device m tx now new_id company_id tracker_id input t db ≡ (ok a, db')
        → Came company_id tracker_id input now new_id a db db'
    unfolding fit_device
    fit_device_ok t ft h =
        let look : Exec Vehicle =
          λ d. instead validation (find_vehicle m company_id input.vehicle_id d) in
        let rest : Exec TrackerAssignment =
          λ d. and_then (look d) (fit_onto m tx now new_id company_id tracker_id input t) in
        let (_, h₁) =
          refuse_if_ok (not (t.status == active) && not (t.status == [])) validation rest a db db'
            h in
        let (v, (o, _, iv, sv), h₂) =
          Looks-ok _ (look db) (fit_onto m tx now new_id company_id tracker_id input t) a db db'
            (instead-Looks _ validation db _ (find_vehicle-Looks m company_id input.vehicle_id db))
            h₁ in
        fit_onto_ok t v ft (o, iv, sv) h₂

    pub fit_ok :
        fit m tx now new_id company_id tracker_id input db ≡ (ok a, db')
        → Came company_id tracker_id input now new_id a db db'
    unfolding fit
    fit_ok h =
        let (t, (o, _, it, st), h₁) =
          Looks-ok _ (find_tracker m company_id tracker_id db)
            (fit_device m tx now new_id company_id tracker_id input) a db db'
            (find_tracker-Looks m company_id tracker_id db) h in
        fit_device_ok t (o, it, st) h₁
