-- ===== src/Registry/Vehicles/Pairing/Updating.antt =====
-- Updating a vehicle, from the lookup to the write.
use master_data.Shared.{
  refers, ℕ, ◌≡◌, refl, sym, subst, inl, inr, Bool, true, false, Option, none, some, List, [],
  arith, Bool-cases, ◌==◌, nat_eq, text_eq, ==→eq, Text, codes, Result, ok, err,
}
use master_data.Errors.{Error, validation}
use master_data.Models.{Vehicle, vehicle_before_write}
use master_data.Mongo.{Mongo, IsIn}
use master_data.Repository
use master_data.Registry.{Db, and_then, ◌>>=◌, ◌>>◌, refuse_if, announce, counted, find_vehicle}
use master_data.Registry.Lookups.{find_vehicle-Looks}
use master_data.Registry.Outcomes.{Post, Post-and_then, Post-state}
use master_data.Registry.Inputs.{VehicleInput, apply_vehicle}
use master_data.Registry.Inputs.Patches.{Same, apply_vehicle-Same}
use master_data.Repository.Writes.{written, update-cases}
use master_data.Registry.Vehicles.{
  set_driver, check_group, group_known, is_group, write_back, update_vehicle, lift, dup,
  on_vehicles,
}
use master_data.Registry.Vehicles.Pairing.{
  has_id, OnePerDriver, Free, Set, One, replace-OnePerDriver,
}
use master_data.Registry.Vehicles.Pairing.Setting.{set_driver-Post, kept-Free}

module _ (m : Mongo) where
  pub check_group-Post :
      (company_id : Text) (group_id : Option Text) (db : Db)
      → One db
      → Post One (λ _ d. d ≡ db) (check_group m company_id group_id db)
  unfolding check_group group_known
  check_group-Post company_id none db u = refl
  check_group-Post company_id (some group_id) db u = elim (Bool-cases (group_id == [])) [
    | inl q ↦ rw q refl
    | inr q ↦ rw q (known (m.from_hex group_id))
  ]
    where
      counts :
          (r : Option ℕ)
          → Post One (λ _ d. d ≡ db) (and_then (counted r db) (λ n. refuse_if (n == 0) validation))
      counts none = u
      counts (some n) = elim (Bool-cases (n == 0)) [ inl q ↦ rw q u | inr q ↦ rw q refl ]

      known : (r : Option ℕ) → Post One (λ _ d. d ≡ db) (group_known m company_id r db)
      known none = u
      known (some o) = counts (m.count_documents (is_group m company_id o) db.groups)

  pub apply-Post :
      (input : VehicleInput) (v : Vehicle) (db : Db)
      → One db
      → Post One (λ w d. (d ≡ db) × Same v w) (lift (apply_vehicle input v) db)
  apply-Post input v db u = go (apply_vehicle input v) refl
    where
      go :
          (r : Result Error Vehicle)
          → apply_vehicle input v ≡ r
          → Post One (λ w d. (d ≡ db) × Same v w) (lift r db)
      go (ok w) e = (refl, apply_vehicle-Same input v w e)
      go (err x) e = u

  pub written-Same :
      (now : ℕ) (creating : Bool) (w : Vehicle)
      → Same w (written m Repository.vehicles now creating w)
  unfolding vehicle_before_write
  written-Same now creating w = record { same_id = refl; same_company = refl; same_driver = refl }

  Same-Free : (v w : Vehicle) (vs : List Vehicle) → Same v w → Free v vs → Free w vs
  Same-Free v w vs s f h r =
      rw (s.same_id, s.same_company) (f h (subst (λ x. refers x h ≡ true) s.same_driver r))

  update-OnePerDriver :
      (now : ℕ) (w : Vehicle) (vs : List Vehicle)
      → OnePerDriver vs
      → Free w vs
      → OnePerDriver (Repository.update m Repository.vehicles now w.id w vs).1
  update-OnePerDriver now w vs u f = elim (update-cases m Repository.vehicles now w.id w vs) [
    | inl (e, q) ↦ rw q u
    | inr (n, q, _, _) ↦
        let s = written-Same now false w in
        let l =
          m.replace_one_lem (has_id w.id) (written m Repository.vehicles now false w) vs q
            (u.one_each w.id) in
        rw l.1 (
          replace-OnePerDriver w.id (written m Repository.vehicles now false w) vs u s.same_id
            (Same-Free w (written m Repository.vehicles now false w) vs s f))
  ]

  pub find_vehicle-One :
      (company_id id : Text) (db : Db)
      → One db
      → Post One (λ _ d. One d) (find_vehicle m company_id id db)
  find_vehicle-One company_id id db u = elim (find_vehicle-Looks m company_id id db) [
    | inl (e, q) ↦ rw q u
    | inr (v, q, _) ↦ rw q u
  ]

  write_back-Post :
      (now : ℕ) (company_id id : Text) (w : Vehicle) (db : Db)
      → One db
      → Free w db.vehicles
      → Post One (λ _ d. One d) (write_back m now company_id id w db)
  unfolding write_back announce
  write_back-Post now company_id id w db u f =
      go (Repository.update m Repository.vehicles now w.id w db.vehicles)
        (update-OnePerDriver now w db.vehicles u f)
    where
      go :
          (r : Result Error Vehicle × List Vehicle)
          → OnePerDriver r.1
          → Post One
              (λ _ d. One d)
              (and_then (on_vehicles (dup r.0, r.1) db) (λ x.
                announce (codes "vehicle") company_id id (codes "update")
                >> find_vehicle m company_id id))
      go (ok x, rows) k = find_vehicle-One company_id id _ k
      go (err x, rows) k = k

  check_and_write-Post :
      (now : ℕ) (id : Text) (old v : Vehicle) (driver_id : Option Text) (db : Db)
      → One db
      → IsIn old db.vehicles
      → Same old v
      → Post One
          (λ _ d. One d)
          ((check_group m old.company_id v.truck_group_id
              >> (set_driver m now old.company_id v driver_id
                  >>= write_back m now old.company_id id))
            db)
  check_and_write-Post now id old v driver_id db u i s =
      Post-and_then One (λ _ d. d ≡ db) (λ _ d. One d) _ _
        (check_group-Post old.company_id v.truck_group_id db u)
        (λ _ db₁ k.
          subst
            (λ x.
              Post One (λ _ d. One d)
                ((set_driver m now old.company_id v driver_id
                    >>= write_back m now old.company_id id)
                  x))
            (sym k)
            (Post-and_then One (Set v) (λ _ d. One d) _ _
              (subst (λ c. Post One (Set v) (set_driver m now c v driver_id db)) s.same_company
                (set_driver-Post m now v driver_id db u
                  (kept-Free m old v db.vehicles u i s.same_id s.same_company s.same_driver)))
              (λ w db₂ (u₂, _, _, f). write_back-Post now old.company_id id w db₂ u₂ f)))

  found_update-Post :
      (now : ℕ) (id : Text) (input : VehicleInput) (old : Vehicle) (db : Db)
      → One db
      → IsIn old db.vehicles
      → Post One
          (λ _ d. One d)
          (and_then (lift (apply_vehicle input old) db) (λ v.
            check_group m old.company_id v.truck_group_id
            >> (set_driver m now old.company_id v input.current_driver_id
                >>= write_back m now old.company_id id)))
  found_update-Post now id input old db u i =
      Post-and_then One (λ w d. (d ≡ db) × Same old w) (λ _ d. One d) _ _
        (apply-Post input old db u)
        (λ v db₁ (k, s).
          subst
            (λ x.
              Post One (λ _ d. One d)
                ((check_group m old.company_id v.truck_group_id
                    >> (set_driver m now old.company_id v input.current_driver_id
                        >>= write_back m now old.company_id id))
                  x))
            (sym k) (check_and_write-Post now id old v input.current_driver_id db u i s))

  -- If the vehicles have different ids and no two of a company have one driver, this still holds
  -- after a vehicle is updated, whatever the input and whichever call of the driver of the
  -- database fails.
  pub update_vehicle-OnePerDriver :
      (now : ℕ) (company_id id : Text) (input : VehicleInput) (db : Db)
      → OnePerDriver db.vehicles
      → OnePerDriver ((update_vehicle m now company_id id input db).1).vehicles
  unfolding update_vehicle
  update_vehicle-OnePerDriver now company_id id input db u =
      elim (find_vehicle-Looks m company_id id db) [
        | inl (e, q) ↦ rw q u
        | inr (old, q, (o, _, i, s)) ↦
            let k : old.company_id ≡ company_id = ==→eq old.company_id company_id (ground arith) in
            rw (q, ← k) (Post-state One _ (found_update-Post now id input old db u i))
      ]
