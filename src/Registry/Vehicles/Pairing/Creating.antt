-- ===== src/Registry/Vehicles/Pairing/Creating.antt =====
-- Creating a vehicle: its id is new, and its driver leaves every other vehicle of the company.
use master_data.Shared.{
  refers, ℕ, ◌+◌, ◌≤◌, ◌≡◌, refl, sym, ap, subst, ◌∙◌, inl, inr, Bool, true, false, not, Option,
  none, some, List, [], ◌∷◌, arith, Bool-cases, ◌==◌, nat_eq, text_eq, tally, Text, codes,
  trim_space, Result, ok, err,
}
use master_data.Errors.{Error, validation}
use master_data.Models.{active, Vehicle, Driver}
use master_data.Mongo.{Mongo}
use master_data.Repository
use master_data.Registry.{Db, and_then, ◌>>=◌, ◌>>◌, announce, counted, find_vehicle}
use master_data.Registry.Outcomes.{Post, Post-and_then, Post-state}
use master_data.Registry.Inputs.{VehicleInput}
use master_data.Registry.Inputs.Patches.{Same}
use master_data.Repository.Writes.{written}
use master_data.Registry.Vehicles.{set_driver, check_group, dup, on_vehicles}
use master_data.Registry.Vehicles.Pairing.{has_id, OnePerDriver, Free, Set, One}
use master_data.Registry.Vehicles.Pairing.Setting.{set_driver-Post}
use master_data.Mongo.Counts.{tally-alter-same}
use master_data.Registry.Lookups.{get_driver-Looks}
use master_data.Registry.Outcomes.{Post-both, Post-instead, Post-refuse_if, Looks-state}
use master_data.Repository.Writes.{create-cases}
use master_data.Registry.Vehicles.{
  unpair_driver_elsewhere, unpair_rows, unpaired, unpair, paired_elsewhere, announce_others,
  pair_driver, new_vehicle, write_new, create_vehicle,
}
use master_data.Registry.Vehicles.Pairing.{append-OnePerDriver, paired}
use master_data.Registry.Vehicles.Pairing.Updating.{
  check_group-Post, apply-Post, written-Same, find_vehicle-One,
}

module _ (m : Mongo) where
  -- How many vehicles have the id.
  abbrev Count : ℕ → ℕ → Db → Type 0
  Count o n db = tally (has_id o) db.vehicles ≡ n

  abbrev Any : Db → Type 0
  Any db = Unit

  unpair_driver_elsewhere-Count :
      (o n now : ℕ) (company_id h : Text) (except : ℕ) (db : Db)
      → Count o n db
      → Post Any (λ _ d. Count o n d) (unpair_driver_elsewhere m now company_id h except db)
  unfolding unpair_driver_elsewhere unpair_rows unpaired
  unpair_driver_elsewhere-Count o n now company_id h except db c = finds (m.find p db.vehicles)
    where
      p : Vehicle → Bool
      p = paired_elsewhere company_id h except

      updates :
          (vs : List Vehicle) (r : Option (ℕ × List Vehicle))
          → m.update_many p (unpair now) db.vehicles ≡ r
          → Post Any (λ _ d. Count o n d) (unpaired m vs r db)
      updates vs none e = tt
      updates vs (some (k, rows)) e =
          let l = (m.update_many_lem p (unpair now) db.vehicles e).1 in
          ap (tally (has_id o)) l
          ∙ (tally-alter-same (has_id o) p (unpair now) db.vehicles (λ a. refl) ∙ c)

      finds :
          (r : Option (List Vehicle))
          → Post Any (λ _ d. Count o n d) (and_then (counted r db) (unpair_rows m now p))
      finds none = tt
      finds (some []) = c
      finds (some (v ∷ vs)) = updates (v ∷ vs) (m.update_many p (unpair now) db.vehicles) refl

  announce_others-Count :
      (o n : ℕ) (company_id : Text) (ids : List Text) (db : Db)
      → Count o n db
      → Post Any (λ _ d. Count o n d) (announce_others m company_id ids db)
  unfolding announce_others announce
  announce_others-Count o n company_id [] db c = c
  announce_others-Count o n company_id (id ∷ ids) db c =
      announce_others-Count o n company_id ids _ c

  pair_driver-Count :
      (o n now : ℕ) (company_id : Text) (v : Vehicle) (d : Driver) (db : Db)
      → Count o n db
      → Post Any (λ _ d. Count o n d) (pair_driver m now company_id v d db)
  unfolding pair_driver
  pair_driver-Count o n now company_id v d db c =
      elim (Bool-cases (refers v.current_driver_id (m.hex d.id))) [
        | inl q ↦ rw q c
        | inr q ↦ rw q (
            Post-and_then Any (λ _ d. Count o n d) (λ _ d. Count o n d) _ _
              (unpair_driver_elsewhere-Count o n now company_id (m.hex d.id) v.id db c)
              (λ ids db₁ c₁.
                Post-and_then Any (λ _ d. Count o n d) (λ _ d. Count o n d) _ _
                  (announce_others-Count o n company_id ids db₁ c₁) (λ _ db₂ c₂. c₂)))
      ]

  set_driver-Count :
      (o n now : ℕ) (company_id : Text) (v : Vehicle) (driver_id : Option Text) (db : Db)
      → Count o n db
      → Post Any (λ _ d. Count o n d) (set_driver m now company_id v driver_id db)
  unfolding set_driver
  set_driver-Count o n now company_id v none db c = c
  set_driver-Count o n now company_id v (some driver_id) db c =
      elim (Bool-cases (trim_space driver_id == [])) [
        | inl q ↦ rw q c
        | inr q ↦ rw q (
            Post-and_then Any (λ _ d. d ≡ db) (λ _ d. Count o n d) _ _
              (Post-instead Any (λ _ d. d ≡ db) validation _
                (Looks-state Any _ db _ tt (get_driver-Looks m company_id driver_id db)))
              (λ d db₁ k.
                Post-and_then Any (λ _ d'. (d' ≡ db₁) × ((not (d.status == active)) ≡ false))
                  (λ _ d. Count o n d) _ _
                  (Post-refuse_if Any (not (d.status == active)) validation db₁ tt)
                  (λ _ db₂ (k₂, _).
                    pair_driver-Count o n now company_id v d db₂
                      (subst (Count o n) (sym (k₂ ∙ k)) c))))
      ]

  -- Who has the driver is the vehicle with this id, if anyone.
  tally-paired :
      (c h : Text) (o : ℕ) (vs : List Vehicle)
      → tally (paired c h) vs ≤ tally (paired_elsewhere c h o) vs + tally (has_id o) vs
  tally-paired c h o [] = omega arith
  tally-paired c h o (v ∷ vs) = ground (arith, tally-paired c h o vs)

  create-OnePerDriver :
      (now new_id : ℕ) (w : Vehicle) (db : Db)
      → One db
      → Count w.id 0 db
      → Count new_id 0 db
      → Free w db.vehicles
      → OnePerDriver
          (Repository.create m Repository.vehicles now (record w { id = new_id }) db.vehicles).1
  create-OnePerDriver now new_id w db u z n f =
      let doc : Vehicle = record w { id = new_id } in
      let s = written-Same m now true doc in
      elim (create-cases m Repository.vehicles now doc db.vehicles) [
        | inl (e, q) ↦ rw q u
        | inr (q, _) ↦ rw q (
            append-OnePerDriver (written m Repository.vehicles now true doc) db.vehicles u
              (rw s.same_id n)
              (λ h r.
                let r' = subst (λ x. refers x h ≡ true) s.same_driver r in
                rw s.same_company
                  (omega (arith, tally-paired w.company_id h w.id db.vehicles, f h r', z))))
      ]

  write_new-Post :
      (now new_id : ℕ) (company_id : Text) (w : Vehicle) (db : Db)
      → OnePerDriver
          (Repository.create m Repository.vehicles now (record w { id = new_id }) db.vehicles).1
      → Post One (λ _ d. One d) (write_new m now new_id company_id w db)
  unfolding write_new announce
  write_new-Post now new_id company_id w db k =
      go (Repository.create m Repository.vehicles now (record w { id = new_id }) db.vehicles) k
    where
      go :
          (r : Result Error Vehicle × List Vehicle)
          → OnePerDriver r.1
          → Post One
              (λ _ d. One d)
              (and_then (on_vehicles (dup r.0, r.1) db) (λ x.
                announce (codes "vehicle") company_id (m.hex new_id) (codes "create")
                >> find_vehicle m company_id (m.hex new_id)))
      go (ok x, rows) l = find_vehicle-One m company_id (m.hex new_id) _ l
      go (err x, rows) l = l

  set_and_write-Post :
      (now new_id : ℕ) (v : Vehicle) (driver_id : Option Text) (db : Db)
      → One db
      → Count v.id 0 db
      → Count new_id 0 db
      → Free v db.vehicles
      → Post One
          (λ _ d. One d)
          ((set_driver m now v.company_id v driver_id >>= write_new m now new_id v.company_id) db)
  set_and_write-Post now new_id v driver_id db u z n f =
      Post-and_then One (λ w d. Set v w d × (Count v.id 0 d × Count new_id 0 d)) (λ _ d. One d) _ _
        (Post-both One (Set v) (λ w d. Count v.id 0 d × Count new_id 0 d) _
          (set_driver-Post m now v driver_id db u f)
          (Post-both Any (λ w d. Count v.id 0 d) (λ w d. Count new_id 0 d) _
            (set_driver-Count v.id 0 now v.company_id v driver_id db z)
            (set_driver-Count new_id 0 now v.company_id v driver_id db n)))
        (λ w db₁ ((u₁, i, _, f₁), (z₁, n₁)).
          write_new-Post now new_id v.company_id w db₁
            (create-OnePerDriver now new_id w db₁ u₁ (rw i z₁) n₁ f₁))

  check_and_create-Post :
      (now new_id : ℕ) (company_id : Text) (v : Vehicle) (driver_id : Option Text) (db : Db)
      → One db
      → Count 0 0 db
      → Count new_id 0 db
      → Same (new_vehicle company_id) v
      → Post One
          (λ _ d. One d)
          ((check_group m company_id v.truck_group_id
              >> (set_driver m now company_id v driver_id >>= write_new m now new_id company_id))
            db)
  check_and_create-Post now new_id company_id v driver_id db u z n s =
      Post-and_then One (λ _ d. d ≡ db) (λ _ d. One d) _ _
        (check_group-Post m company_id v.truck_group_id db u)
        (λ _ db₁ k.
          subst
            (λ x.
              Post One (λ _ d. One d)
                ((set_driver m now company_id v driver_id >>= write_new m now new_id company_id) x))
            (sym k)
            (subst
              (λ c.
                Post One (λ _ d. One d)
                  ((set_driver m now c v driver_id >>= write_new m now new_id c) db))
              s.same_company
              (set_and_write-Post now new_id v driver_id db u (rw s.same_id z) n
                (λ h r. absurd (none_refers h (subst (λ x. refers x h ≡ true) s.same_driver r))))))
    where
      none_refers : (h : Text) → refers none h ≡ true → ⊥
      none_refers h r = cc

  -- If the vehicles have different ids and no two of a company have one driver, this still holds
  -- after a vehicle is created, whatever the input and whichever call of the driver of the
  -- database fails, as long as no vehicle had the new id and none had the nil id.
  pub create_vehicle-OnePerDriver :
      (now new_id : ℕ) (company_id : Text) (input : VehicleInput) (db : Db)
      → OnePerDriver db.vehicles
      → tally (has_id 0) db.vehicles ≡ 0
      → tally (has_id new_id) db.vehicles ≡ 0
      → OnePerDriver ((create_vehicle m now new_id company_id input db).1).vehicles
  unfolding create_vehicle
  create_vehicle-OnePerDriver now new_id company_id input db u z n = Post-state One _ (
      Post-and_then One (λ w d. (d ≡ db) × Same (new_vehicle company_id) w) (λ _ d. One d) _ _
        (apply-Post m input (new_vehicle company_id) db u)
        (λ v db₁ (k, s).
          subst
            (λ x.
              Post One (λ _ d. One d)
                ((check_group m company_id v.truck_group_id
                    >> (set_driver m now company_id v input.current_driver_id
                        >>= write_new m now new_id company_id))
                  x))
            (sym k)
            (check_and_create-Post now new_id company_id v input.current_driver_id db u z n s)))
