-- ===== src/Registry/Fitting/Removal.antt =====
-- What `Unfit` leaves when it succeeds.
use master_data.Shared.{
  refers, ℕ, ◌≡◌, refl, sym, ap, ◌∙◌, inl, inr, Bool, true, false, Option, List, [], arith,
  if◌then◌else◌, Bool-cases, ◌==◌, nat_eq, text_eq, tally, alter, Text, ok,
}
use master_data.Models.{tracker_gps, Vehicle, Tracker, TrackerAssignment}
use master_data.Mongo.{Mongo, IsIn, Deployment}
use master_data.Mongo.Counts.{tally-alter-zero}
use master_data.Registry.{Db, is_tracker}
use master_data.Registry.Lookups.{Spells, find_tracker-Looks}
use master_data.Registry.Fitting.{
  at_or, open_for, close, unlink, unfit, unfit_run, unlink_where, announce_unfit, transact,
}
use master_data.Registry.Fitting.Runs.{closed, close_where_cases}
use master_data.Registry.Fitting.Writes.{set_vehicles_ok, and_then_ok, transact_ok}
use master_data.Registry.Fitting.Invariant.{Fitted}

-- The vehicles without the links to a device.
abbrev pub released : Text → ℕ → List Vehicle → List Vehicle
released tid at vs = alter (λ v. refers v.tracker_id tid) (unlink at) vs

module _ (m : Mongo) where
  -- The writes have closed an assignment and released the vehicles.
  record Closed (t : Tracker) (at : ℕ) (db db' : Db) : Type 0 where
    some_open : (tally (open_for (m.hex t.id)) db.assignments == 0) ≡ false
    closes : db'.assignments ≡ alter (open_for (m.hex t.id)) (close at) db.assignments
    releases :
        db'.vehicles
        ≡ (if t.kind == tracker_gps then released (m.hex t.id) at db.vehicles else db.vehicles)

  unfit_run_ok :
      (t : Tracker) (at : ℕ) (db db' : Db) → unfit_run m t at db ≡ (ok tt, db') → Closed t at db db'
  unfolding unfit_run unlink_where
  unfit_run_ok t at db db' h = elim (close_where_cases m (open_for (m.hex t.id)) at db) [
    | inl e ↦ let z = rw e at h in cc
    | inr e ↦
        let z = rw e at h in
        elim (Bool-cases (tally (open_for (m.hex t.id)) db.assignments == 0)) [
          | inl w ↦ let y = rw w at z in cc
          | inr w ↦
              let y = rw w at z in
              elim (Bool-cases (t.kind == tracker_gps)) [
                | inr k ↦
                    let x = rw k at y in
                    record {
                      some_open = w;
                      closes = sym (ap (λ r. (r.1).assignments) x);
                      releases = rw k (sym (ap (λ r. (r.1).vehicles) x));
                    }
                | inl k ↦
                    let x = rw k at y in
                    let p : Vehicle → Bool = λ v. refers v.tracker_id (m.hex t.id) in
                    let (n, vs, e', d) =
                      set_vehicles_ok m (closed (open_for (m.hex t.id)) at db) db'
                        (m.update_many p (unlink at) db.vehicles) x in
                    record {
                      some_open = w;
                      closes = ap (λ (r : Db). r.assignments) d;
                      releases = rw k (
                          ap (λ (r : Db). r.vehicles) d
                          ∙ (m.update_many_lem p (unlink at) db.vehicles e').1);
                    }
              ]
        ]
  ]

  announce_unfit_ok :
      (company_id tracker_id vehicle_id : Text) (db db' : Db)
      → announce_unfit m company_id tracker_id vehicle_id db ≡ (ok tt, db')
      → (db'.assignments ≡ db.assignments) × (db'.vehicles ≡ db.vehicles)
  unfolding announce_unfit
  announce_unfit_ok company_id tracker_id vehicle_id db db' h =
      elim (Bool-cases (vehicle_id == [])) [
        | inl e ↦
            let z = rw e at h in
            (sym (ap (λ r. (r.1).assignments) z), sym (ap (λ r. (r.1).vehicles) z))
        | inr e ↦
            let z = rw e at h in
            (sym (ap (λ r. (r.1).assignments) z), sym (ap (λ r. (r.1).vehicles) z))
      ]

  -- An `Unfit` that succeeds on a state with the invariant: the id names a live device of the
  -- company, which was on exactly one vehicle and is on none now. Its one open assignment is closed
  -- at the time asked for, or now; every other assignment is as it was, in the same order. If the
  -- device is a GPS, the vehicles that pointed at it are released, so none does, and the others are
  -- as they were; for any other kind all vehicles are.
  pub unfit_removes :
      (tx : Deployment) (now : ℕ) (company_id tracker_id : Text) (unfitted_at : Option ℕ)
      (db db' : Db)
      → Fitted m db
      → unfit m tx now company_id tracker_id unfitted_at db ≡ (ok tt, db')
      → (t : Tracker) × IsIn t db.trackers
        × ((o : ℕ) × Spells m tracker_id o × (is_tracker m company_id o t ≡ true))
        × (tally (open_for (m.hex t.id)) db.assignments ≡ 1)
        × (tally (open_for (m.hex t.id)) db'.assignments ≡ 0)
        × (db'.assignments
            ≡ alter (open_for (m.hex t.id)) (close (at_or now unfitted_at)) db.assignments)
        × (db'.vehicles ≡ (
            if t.kind == tracker_gps
            then released (m.hex t.id) (at_or now unfitted_at) db.vehicles
            else db.vehicles))
        × ((if t.kind == tracker_gps
              then tally (λ v. refers v.tracker_id (m.hex t.id)) db'.vehicles
              else 0)
            ≡ 0)
  unfolding unfit
  unfit_removes tx now company_id tracker_id unfitted_at db db' f h =
      elim (find_tracker-Looks m company_id tracker_id db) [
        | inl (e, q) ↦ let z = rw q at h in cc
        | inr (t, q, (o, s, i, st)) ↦
            let z = rw q at h in
            let at = at_or now unfitted_at in
            let (u, db₁, e₁, e₂) =
              and_then_ok m (transact m tx (unfit_run m t at) db)
                (λ _. announce_unfit m company_id tracker_id _) tt db' z in
            let r = unfit_run_ok t at db db₁ (transact_ok m tx (unfit_run m t at) tt db db₁ e₁) in
            let (ka, kv) = announce_unfit_ok company_id tracker_id _ db₁ db' e₂ in
            let a = ka ∙ r.closes in
            let v = kv ∙ r.releases in
            let one = r.some_open in
            (
              t,
              i,
              (o, s, st),
              ground (arith, f.one_per_tracker (m.hex t.id)),
              ap (tally (open_for (m.hex t.id))) a
                  ∙ tally-alter-zero (open_for (m.hex t.id)) (close at) db.assignments
                      (closed_not (m.hex t.id) at),
              a,
              v,
              nobody t at v,
            )
      ]
    where
      closed_not : (tid : Text) (at : ℕ) (x : TrackerAssignment) → open_for tid (close at x) ≡ false
      closed_not tid at x = ground arith

      nobody :
          (t : Tracker) (at : ℕ)
          → db'.vehicles
            ≡ (if t.kind == tracker_gps then released (m.hex t.id) at db.vehicles else db.vehicles)
          → (if t.kind == tracker_gps
              then tally (λ v. refers v.tracker_id (m.hex t.id)) db'.vehicles
              else 0)
            ≡ 0
      nobody t at v = elim (Bool-cases (t.kind == tracker_gps)) [
        | inr k ↦ rw k refl
        | inl k ↦
            let w = rw k at v in
            rw (k, w)
              (tally-alter-zero (λ (y : Vehicle). refers y.tracker_id (m.hex t.id)) (unlink at)
                db.vehicles (λ y. refl))
      ]
