-- ===== src/Registry/Fitting/Runs.antt =====
-- Every run of the writes of `Fit` and `Unfit` ends in one of a few states.
use master_data.Shared.{
  refers, ℕ, ◌≡◌, refl, ◌∙◌, ◌⊎◌, inl, inr, Bool, not, ◌&&◌, Option, none, some, List, [], ◌∷◌,
  ◌++◌, Bool-cases, Option-cases, ◌==◌, nat_eq, text_eq, tally, alter, Text, ok, err,
}
use master_data.Errors.{failure}
use master_data.Models.{tracker_gps, Vehicle, Tracker, TrackerAssignment}
use master_data.Mongo.{
  Mongo, Inserted, inserted, Deployment, no_session, unsupported, commits, aborts,
}
use master_data.Mongo
use master_data.Registry.{Db, Outcome, Exec, and_then}
use master_data.Registry.Fitting.{
  open_for, open_among, close, unlink, link, close_where, set_vehicles, unlink_where, link_vehicle,
  insert_assignment, move_link, fit_run, settle, transact, unfit_run,
}

abbrev pub closed : (TrackerAssignment → Bool) → ℕ → Db → Db
closed p at db = record db { assignments = alter p (close at) db.assignments }

abbrev pub added : TrackerAssignment → Db → Db
added a db = record db { assignments = db.assignments ++ a ∷ [] }

-- Two states with the same assignments, trackers and models.
pub record SameFittings (db db' : Db) : Type 0 where
  pub assignments_kept : db'.assignments ≡ db.assignments
  pub trackers_kept : db'.trackers ≡ db.trackers

module _ (m : Mongo) where
  pub close_where_cases :
      (p : TrackerAssignment → Bool) (at : ℕ) (db : Db)
      → (close_where m p at db ≡ (err failure, db))
        ⊎ (close_where m p at db ≡ (ok (tally p db.assignments), closed p at db))
  unfolding close_where
  close_where_cases p at db = elim (Option-cases (m.update_many p (close at) db.assignments)) [
    | inl e ↦ inl (rw e)
    | inr ((n, rows), e) ↦
        let l = m.update_many_lem p (close at) db.assignments e in inr (rw (e, l.0, l.1))
  ]

  pub insert_assignment_cases :
      (a : TrackerAssignment) (db : Db)
      → (insert_assignment m a db ≡ (err failure, db))
        ⊎ (insert_assignment m a db ≡ (ok tt, added a db))
  unfolding insert_assignment
  insert_assignment_cases a db = go (m.insert_one a db.assignments) refl
    where
      go :
          (r : Inserted TrackerAssignment)
          → m.insert_one a db.assignments ≡ r
          → (insert_assignment m a db ≡ (err failure, db))
            ⊎ (insert_assignment m a db ≡ (ok tt, added a db))
      go (inserted rows) e = inr (rw (e, m.insert_lem a db.assignments e))
      go Mongo.duplicate e = inl (rw e)
      go Mongo.failed e = inl (rw e)

  pub set_vehicles_kept :
      (db : Db) (r : Option (ℕ × List Vehicle)) → SameFittings db (set_vehicles m db r).1
  unfolding set_vehicles
  set_vehicles_kept db none = record { assignments_kept = refl; trackers_kept = refl }
  set_vehicles_kept db (some (n, rows)) = record { assignments_kept = refl; trackers_kept = refl }

  pub and_then_kept :
      {A B : Type 0} (db : Db) (r : Outcome A) (f : A → Exec B)
      → SameFittings db r.1
      → ((a : A) (db' : Db) → SameFittings db' (f a db').1)
      → SameFittings db (and_then r f).1
  and_then_kept db (ok a, db') f s h = record {
    assignments_kept = (h a db').assignments_kept ∙ s.assignments_kept;
    trackers_kept = (h a db').trackers_kept ∙ s.trackers_kept;
  }
  and_then_kept db (err e, db') f s h = s

  pub move_link_kept :
      (kind tid : Text) (o at : ℕ) (db : Db) → SameFittings db (move_link m kind tid o at db).1
  unfolding move_link unlink_where link_vehicle
  move_link_kept kind tid o at db = elim (Bool-cases (kind == tracker_gps)) [
    | inl e ↦ rw e (
        and_then_kept db (unlink_where m (λ v. refers v.tracker_id tid && not (v.id == o)) at db)
          (λ _. link_vehicle m o tid at)
          (set_vehicles_kept db (
            m.update_many (λ v. refers v.tracker_id tid && not (v.id == o)) (unlink at)
              db.vehicles))
          (λ _ db'.
            set_vehicles_kept db' (m.update_one (λ v. v.id == o) (link tid at) db'.vehicles)))
    | inr e ↦ rw e (record { assignments_kept = refl; trackers_kept = refl })
  ]

  -- The first two writes close, the third inserts, and the others leave the assignments alone.
  pub fit_run_cases :
      (P : Db → Type 0) (t : Tracker) (v : Vehicle) (ids : List Text) (at : ℕ)
      (a : TrackerAssignment) (db : Db)
      → P db
      → P (closed (open_for (m.hex t.id)) at db)
      → P (closed (open_among (m.hex v.id) ids) at (closed (open_for (m.hex t.id)) at db))
      → ((db' : Db)
          → SameFittings
              (added a
                (closed (open_among (m.hex v.id) ids) at (closed (open_for (m.hex t.id)) at db)))
              db'
          → P db')
      → P (fit_run m t v ids at a db).1
  unfolding fit_run
  fit_run_cases P t v ids at a db p₀ p₁ p₂ p₃ =
      elim (close_where_cases (open_for (m.hex t.id)) at db) [
        | inl e ↦ rw e p₀
        | inr e ↦
            rw e
              (elim (close_where_cases (open_among (m.hex v.id) ids) at
                (closed (open_for (m.hex t.id)) at db)) [
                  | inl e' ↦ rw e' p₁
                  | inr e' ↦
                      rw e'
                        (elim (insert_assignment_cases a (
                          closed (open_among (m.hex v.id) ids) at
                            (closed (open_for (m.hex t.id)) at db))) [
                              | inl i ↦ rw i p₂
                              | inr i ↦ rw i (p₃ _ (move_link_kept t.kind (m.hex t.id) v.id at _))
                            ])
                ])
      ]

  -- `Unfit` closes, and then leaves the assignments alone.
  pub unfit_run_cases :
      (P : Db → Type 0) (t : Tracker) (at : ℕ) (db : Db)
      → P db
      → ((db' : Db) → SameFittings (closed (open_for (m.hex t.id)) at db) db' → P db')
      → P (unfit_run m t at db).1
  unfolding unfit_run unlink_where
  unfit_run_cases P t at db p₀ p₁ = elim (close_where_cases (open_for (m.hex t.id)) at db) [
    | inl e ↦ rw e p₀
    | inr e ↦ rw e (elim (Bool-cases (tally (open_for (m.hex t.id)) db.assignments == 0)) [
      | inl z ↦ rw z (p₁ _ (record { assignments_kept = refl; trackers_kept = refl }))
      | inr z ↦ rw z (elim (Bool-cases (t.kind == tracker_gps)) [
        | inl k ↦ rw k (p₁ _ (set_vehicles_kept (closed (open_for (m.hex t.id)) at db) _))
        | inr k ↦ rw k (p₁ _ (record { assignments_kept = refl; trackers_kept = refl }))
      ])
    ])
  ]

  -- A transaction ends where the run ends, or where it began.
  pub transact_cases :
      {A : Type 0} (P : Db → Type 0) (tx : Deployment) (run : Exec A) (db : Db)
      → P db
      → P (run db).1
      → P (transact m tx run db).1
  unfolding transact settle
  transact_cases P no_session run db p₀ p₁ = p₁
  transact_cases P unsupported run db p₀ p₁ = p₁
  transact_cases P aborts run db p₀ p₁ = p₀
  transact_cases {A} P commits run db p₀ p₁ = go (run db) p₁
    where
      go : (r : Outcome A) → P r.1 → P (settle m db r).1
      go (ok a, db') p = p
      go (err e, db') p = p₀
