-- ===== src/Registry/Lookups.antt =====
-- What the lookups of the registry return: a live document that the company may see, or an error,
-- and the state unchanged.
use master_data.Shared.{
  ℕ, ◌≡◌, refl, ◌⊎◌, inl, inr, Bool, true, Option, none, some, List, Option-cases, Text, trim_space,
  ok, err,
}
use master_data.Errors.{Error, not_found, failure}
use master_data.Mongo.{Mongo, IsIn}
use master_data.Registry.{
  Db, Outcome, and_then, instead, found, oid, is_tracker, find_tracker, is_vehicle, find_vehicle,
  is_driver, get_driver,
}

-- A lookup leaves the state alone, and a result has the property.
abbrev pub Looks : {D : Type 0} → (D → Type 0) → Db → Outcome D → Type 0
Looks {D} Q db r = ((e : Error) × (r ≡ (err e, db))) ⊎ ((d : D) × (r ≡ (ok d, db)) × Q d)

pub instead-Looks :
    {D : Type 0} (Q : D → Type 0) (e : Error) (db : Db) (r : Outcome D)
    → Looks Q db r
    → Looks Q db (instead e r)
instead-Looks Q e db r (inr (d, q, h)) = rw q (inr (d, refl, h))
instead-Looks Q e db r (inl (e', q)) = rw q (go e')
  where
    go : (e' : Error) → Looks Q db (instead e (err e', db))
    go not_found = inl (e, refl)
    go e' = inl (e', refl)

module _ (m : Mongo) where
  found-Looks :
      {D : Type 0} (p : D → Bool) (ds : List D) (db : Db)
      → Looks (λ d. IsIn d ds × (p d ≡ true)) db (found (m.find_one p ds) db)
  found-Looks {D} p ds db = go (m.find_one p ds) refl
    where
      go :
          (r : Option (Option D))
          → m.find_one p ds ≡ r
          → Looks (λ d. IsIn d ds × (p d ≡ true)) db (found r db)
      go none e = inl (failure, refl)
      go (some none) e = inl (not_found, refl)
      go (some (some d)) e = inr (d, refl, m.find_one-some p ds e)

  -- The id is the one that the text spells once it is trimmed.
  abbrev pub Spells : Text → ℕ → Type 0
  Spells id o = m.from_hex (trim_space id) ≡ some o

  by_id-Looks :
      {D : Type 0} (p : ℕ → D → Bool) (col : Db → List D) (id : Text) (db : Db)
      → Looks
          (λ d. (o : ℕ) × Spells id o × IsIn d (col db) × (p o d ≡ true))
          db
          (and_then (oid m id db) λ o db'. found (m.find_one (p o) (col db')) db')
  unfolding oid
  by_id-Looks p col id db = elim (Option-cases (m.from_hex (trim_space id))) [
    | inl e ↦ rw e (inl (not_found, refl))
    | inr (o, e) ↦ rw e (go o e (found-Looks (p o) (col db) db))
  ]
    where
      go :
          (o : ℕ)
          → m.from_hex (trim_space id) ≡ some o
          → Looks (λ d. IsIn d (col db) × (p o d ≡ true)) db (found (m.find_one (p o) (col db)) db)
          → Looks
              (λ d. (o' : ℕ) × (some o ≡ some o') × IsIn d (col db) × (p o' d ≡ true))
              db
              (found (m.find_one (p o) (col db)) db)
      go o e (inl l) = inl l
      go o e (inr (d, q, (i, t))) = inr (d, q, (o, refl, i, t))

  pub find_tracker-Looks :
      (company_id id : Text) (db : Db)
      → Looks
          (λ t. (o : ℕ) × Spells id o × IsIn t db.trackers × (is_tracker m company_id o t ≡ true))
          db
          (find_tracker m company_id id db)
  unfolding find_tracker
  find_tracker-Looks company_id id db =
      by_id-Looks (is_tracker m company_id) (λ s. s.trackers) id db

  pub find_vehicle-Looks :
      (company_id id : Text) (db : Db)
      → Looks
          (λ v. (o : ℕ) × Spells id o × IsIn v db.vehicles × (is_vehicle m company_id o v ≡ true))
          db
          (find_vehicle m company_id id db)
  unfolding find_vehicle
  find_vehicle-Looks company_id id db =
      by_id-Looks (is_vehicle m company_id) (λ s. s.vehicles) id db

  pub get_driver-Looks :
      (company_id id : Text) (db : Db)
      → Looks
          (λ d. (o : ℕ) × Spells id o × IsIn d db.drivers × (is_driver m company_id o d ≡ true))
          db
          (get_driver m company_id id db)
  unfolding get_driver
  get_driver-Looks company_id id db = by_id-Looks (is_driver m company_id) (λ s. s.drivers) id db
