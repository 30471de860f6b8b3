-- ===== src/Registry/Fitting/Writes.antt =====
-- What the writes of a fitting leave when they succeed.
use master_data.Shared.{
  refers, ℕ, ◌≤◌, ◌≡◌, refl, sym, ap, subst, ◌∙◌, inl, inr, Bool, not, ◌&&◌, Option, none, some,
  List, [], ◌∷◌, arith, ◌==◌, nat_eq, text_eq, tally, alter, Text, text_beq_iff, ok, err,
}
use master_data.Models.{tracker_gps, Vehicle, Tracker, TrackerAssignment}
use master_data.Mongo.{Mongo, IsIn, Deployment, no_session, unsupported, commits, aborts}
use master_data.Registry.{Db, Outcome, Exec, and_then}
use master_data.Registry.Fitting.{
  open_for, open_among, unlink, link, fit_run, transact, settle, announce_fit, move_link,
  unlink_where, link_vehicle, set_vehicles,
}
use master_data.Registry.Fitting.Runs.{
  closed, added, close_where_cases, insert_assignment_cases, move_link_kept,
}
use master_data.Mongo.Counts.{IsIn-added}

-- The links of the vehicles after the writes of a GPS fitting.
abbrev pub linked : Text → ℕ → ℕ → List Vehicle → List Vehicle
linked tid o at vs =
    alter (λ v. v.id == o) (link tid at)
      (alter (λ v. refers v.tracker_id tid && not (v.id == o)) (unlink at) vs)

-- No two vehicles have one id.
abbrev pub OneEach : List Vehicle → Type 0
OneEach vs = (o : ℕ) → tally (λ v. v.id == o) vs ≤ 1

module _ (m : Mongo) where
  tally-unlink :
      (p : Vehicle → Bool) (o at : ℕ) (vs : List Vehicle)
      → tally (λ v. v.id == o) (alter p (unlink at) vs) ≡ tally (λ v. v.id == o) vs
  tally-unlink p o at [] = refl
  tally-unlink p o at (v ∷ vs) = ground (arith, tally-unlink p o at vs)

  pub set_vehicles_ok :
      (db db' : Db) (r : Option (ℕ × List Vehicle))
      → set_vehicles m db r ≡ (ok tt, db')
      → (n : ℕ) × (vs : List Vehicle) × (r ≡ some (n, vs)) × (db' ≡ record db { vehicles = vs })
  unfolding set_vehicles
  set_vehicles_ok db db' none h = cc
  set_vehicles_ok db db' (some (n, vs)) h = (n, vs, refl, cc)

  pub and_then_ok :
      {A B : Type 0} (r : Outcome A) (f : A → Exec B) (b : B) (db' : Db)
      → and_then r f ≡ (ok b, db')
      → (a : A) × (db : Db) × (r ≡ (ok a, db)) × (f a db ≡ (ok b, db'))
  and_then_ok (ok a, db) f b db' h = (a, db, refl, h)
  and_then_ok (err e, db) f b db' h = cc

  move_link_ok :
      (kind tid : Text) (o at : ℕ) (db db' : Db)
      → OneEach db.vehicles
      → kind ≡ tracker_gps
      → move_link m kind tid o at db ≡ (ok tt, db')
      → db'.vehicles ≡ linked tid o at db.vehicles
  unfolding move_link unlink_where link_vehicle
  move_link_ok kind tid o at db db' u k h =
      let p : Vehicle → Bool = λ v. refers v.tracker_id tid && not (v.id == o) in
      let g = rw ((text_beq_iff kind tracker_gps).1 k) at h in
      let (x, db₁, q₁, g₁) =
        and_then_ok (unlink_where m p at db) (λ _. link_vehicle m o tid at) tt db' g in
      let (n₁, vs₁, e₁, d₁) = set_vehicles_ok db db₁ (m.update_many p (unlink at) db.vehicles) q₁ in
      let (n₂, vs₂, e₂, d₂) =
        set_vehicles_ok db₁ db' (m.update_one (λ v. v.id == o) (link tid at) db₁.vehicles) g₁ in
      let l₁ = m.update_many_lem p (unlink at) db.vehicles e₁ in
      let v₁ : db₁.vehicles ≡ alter p (unlink at) db.vehicles = ap (λ d. d.vehicles) d₁ ∙ l₁.1 in
      let l₂ =
        m.update_one_lem (λ v. v.id == o) (link tid at) db₁.vehicles e₂
          (rw (v₁, tally-unlink p o at db.vehicles) (u o)) in
      ap (λ d. d.vehicles) d₂ ∙ (l₂.1 ∙ ap (alter (λ v. v.id == o) (link tid at)) v₁)

  pub linked_lem :
      (tid : Text) (o at : ℕ) (vs : List Vehicle) (w : Vehicle)
      → IsIn w (linked tid o at vs)
      → refers w.tracker_id tid ≡ (w.id == o)
  linked_lem tid o at [] w i = elim i [ ]
  linked_lem tid o at (v ∷ vs) w (inr i) = linked_lem tid o at vs w i
  linked_lem tid o at (v ∷ vs) w (inl e) = rw e (ground (arith, text_beq_iff tid tid))

  hex-injective : (a b : ℕ) → m.hex a ≡ m.hex b → a ≡ b
  hex-injective a b e = let h = sym (m.from_hex-hex a) ∙ (ap m.from_hex e ∙ m.from_hex-hex b) in cc

  pub hex-beq : (a b : ℕ) → (m.hex a == m.hex b) ≡ (a == b)
  hex-beq a b =
      ground (arith, text_beq_iff (m.hex a) (m.hex b), hex-injective a b, λ (e : a ≡ b). ap m.hex e)

  pub transact_ok :
      {A : Type 0} (tx : Deployment) (run : Exec A) (a : A) (db db' : Db)
      → transact m tx run db ≡ (ok a, db')
      → run db ≡ (ok a, db')
  unfolding transact settle
  transact_ok no_session run a db db' h = h
  transact_ok unsupported run a db db' h = h
  transact_ok aborts run a db db' h = cc
  transact_ok {A} commits run a db db' h = go (run db) h
    where
      go : (r : Outcome A) → settle m db r ≡ (ok a, db') → r ≡ (ok a, db')
      go (ok b, db₁) e = e
      go (err b, db₁) e = cc

  -- The state after the writes of a run that has succeeded.
  pub record Done (t : Tracker) (v : Vehicle) (at : ℕ) (a : TrackerAssignment) (db db' : Db)
      : Type 0 where
    pub has_assignment : IsIn a db'.assignments
    pub has_links :
        t.kind ≡ tracker_gps
        → OneEach db.vehicles
        → db'.vehicles ≡ linked (m.hex t.id) v.id at db.vehicles

  pub fit_run_ok :
      (t : Tracker) (v : Vehicle) (ids : List Text) (at : ℕ) (a : TrackerAssignment) (db db' : Db)
      → fit_run m t v ids at a db ≡ (ok tt, db')
      → Done t v at a db db'
  unfolding fit_run
  fit_run_ok t v ids at a db db' h =
      let q₁ = open_for (m.hex t.id) in
      let q₂ = open_among (m.hex v.id) ids in
      let db₁ = closed q₁ at db in
      let db₂ = closed q₂ at db₁ in
      elim (close_where_cases m q₁ at db) [
        | inl e ↦ let z = rw e at h in cc
        | inr e ↦
            let h₁ = rw e at h in
            elim (close_where_cases m q₂ at db₁) [
              | inl e₁ ↦ let z = rw e₁ at h₁ in cc
              | inr e₁ ↦
                  let h₂ = rw e₁ at h₁ in
                  elim (insert_assignment_cases m a db₂) [
                    | inl e₂ ↦ let z = rw e₂ at h₂ in cc
                    | inr e₂ ↦
                        let h₃ = rw e₂ at h₂ in
                        let s = move_link_kept m t.kind (m.hex t.id) v.id at (added a db₂) in
                        record {
                          has_assignment =
                              subst (λ (d : Db). IsIn a d.assignments) (ap (λ r. r.1) h₃)
                                (rw s.assignments_kept (IsIn-added db₂.assignments a));
                          has_links = λ k u.
                              move_link_ok t.kind (m.hex t.id) v.id at (added a db₂) db' u k h₃;
                        }
                  ]
            ]
      ]

  pub announce_fit_ok :
      (company_id tracker_id vehicle_id : Text) (a b : TrackerAssignment) (db db' : Db)
      → announce_fit m company_id tracker_id vehicle_id a db ≡ (ok b, db')
      → (a ≡ b) × (db'.assignments ≡ db.assignments) × (db'.vehicles ≡ db.vehicles)
  unfolding announce_fit
  announce_fit_ok company_id tracker_id vehicle_id a b db db' h =
      (cc, sym (ap (λ r. (r.1).assignments) h), sym (ap (λ r. (r.1).vehicles) h))
