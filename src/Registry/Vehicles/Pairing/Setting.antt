-- ===== src/Registry/Vehicles/Pairing/Setting.antt =====
-- Setting the driver of a vehicle frees the driver of every other vehicle of the company.
use master_data.Shared.{
  refers, ℕ, ◌≡◌, refl, sym, subst, ◌∙◌, inl, inr, Bool, true, false, not, ◌&&◌, Option, none, some,
  List, [], ◌∷◌, arith, Bool-cases, Option-cases, ◌==◌, nat_eq, text_eq, tally, Text, text_beq_iff,
  trim_space,
}
use master_data.Errors.{validation}
use master_data.Models.{active, Vehicle, Driver}
use master_data.Mongo.{Mongo, IsIn}
use master_data.Registry.{Db, announce}
use master_data.Registry.Lookups.{get_driver-Looks}
use master_data.Registry.Outcomes.{Post, Post-and_then, Post-instead, Post-refuse_if, Looks-state}
use master_data.Registry.Vehicles.{
  paired_elsewhere, unpair, unpair_rows, unpaired, unpair_driver_elsewhere, announce_others,
  pair_driver, set_driver,
}
use master_data.Mongo.Counts.{tally-alter-zero, tally-le, tally-other}
use master_data.Registry.Vehicles.Pairing.{
  paired, has_id, OnePerDriver, Free, Set, One, unpair-OnePerDriver,
}

module _ (m : Mongo) where
  find-nothing : (p : Vehicle → Bool) (vs : List Vehicle) → m.find p vs ≡ some [] → tally p vs ≡ 0
  find-nothing p vs e = none_in vs (λ v i. elim (Bool-cases (p v)) [
    | inl q ↦ absurd ((m.find_lem p vs e v).1 (i, q))
    | inr q ↦ q
  ])
    where
      none_in : (xs : List Vehicle) → ((v : Vehicle) → IsIn v xs → p v ≡ false) → tally p xs ≡ 0
      none_in [] h = refl
      none_in (x ∷ xs) h = ground (arith, h x (inl refl), none_in xs (λ v i. h v (inr i)))

  unpair_rows-Post :
      (now : ℕ) (company_id h : Text) (o : ℕ) (rows : List Vehicle) (db : Db)
      → One db
      → m.find (paired_elsewhere company_id h o) db.vehicles ≡ some rows
      → Post One
          (λ _ d. One d × (tally (paired_elsewhere company_id h o) d.vehicles ≡ 0))
          (unpair_rows m now (paired_elsewhere company_id h o) rows db)
  unfolding unpair_rows unpaired
  unpair_rows-Post now company_id h o [] db u e =
      (u, find-nothing (paired_elsewhere company_id h o) db.vehicles e)
  unpair_rows-Post now company_id h o (v ∷ vs) db u e =
      let p = paired_elsewhere company_id h o in
      elim (Option-cases (m.update_many p (unpair now) db.vehicles)) [
        | inl q ↦ rw q u
        | inr ((n, rows), q) ↦
            let l = m.update_many_lem p (unpair now) db.vehicles q in
            rw q (
              rw l.1 (unpair-OnePerDriver now p db.vehicles u),
              rw l.1 (tally-alter-zero p (unpair now) db.vehicles (λ a. ground arith)),
            )
      ]

  unpair_driver_elsewhere-Post :
      (now : ℕ) (company_id h : Text) (o : ℕ) (db : Db)
      → One db
      → Post One
          (λ _ d. One d × (tally (paired_elsewhere company_id h o) d.vehicles ≡ 0))
          (unpair_driver_elsewhere m now company_id h o db)
  unfolding unpair_driver_elsewhere
  unpair_driver_elsewhere-Post now company_id h o db u =
      elim (Option-cases (m.find (paired_elsewhere company_id h o) db.vehicles)) [
        | inl q ↦ rw q u
        | inr (rows, q) ↦ rw q (unpair_rows-Post now company_id h o rows db u q)
      ]

  announce_others-Post :
      (E : Db → Type 0) (Q : List Vehicle → Type 0) (company_id : Text) (ids : List Text) (db : Db)
      → Q db.vehicles
      → Post E (λ _ d. Q d.vehicles) (announce_others m company_id ids db)
  unfolding announce_others announce
  announce_others-Post E Q company_id [] db h = h
  announce_others-Post E Q company_id (id ∷ ids) db h = announce_others-Post E Q company_id ids _ h

  -- The driver of a stored vehicle is free already.
  pub kept-Free :
      (v w : Vehicle) (vs : List Vehicle)
      → OnePerDriver vs
      → IsIn v vs
      → w.id ≡ v.id
      → w.company_id ≡ v.company_id
      → w.current_driver_id ≡ v.current_driver_id
      → Free w vs
  kept-Free v w vs u i e c d h r =
      let z =
        tally-other (paired v.company_id h) (has_id v.id) vs v i
          (ground
            (arith, text_beq_iff v.company_id v.company_id, subst (λ x. refers x h ≡ true) d r))
          (ground arith) (u.one_driven v.company_id h) in
      rw (c, e)
        (omega (
          arith,
          z,
          tally-le (paired_elsewhere v.company_id h v.id)
              (λ x. paired v.company_id h x && not (has_id v.id x)) vs (λ x q. ground arith),
        ))

  pair_driver-Post :
      (now : ℕ) (v : Vehicle) (d : Driver) (db : Db)
      → One db
      → Free v db.vehicles
      → Post One (Set v) (pair_driver m now v.company_id v d db)
  unfolding pair_driver
  pair_driver-Post now v d db u f = elim (Bool-cases (refers v.current_driver_id (m.hex d.id))) [
    | inl q ↦ rw q (u, refl, refl, f)
    | inr q ↦
        let h = m.hex d.id in
        let Q : List Vehicle → Type 0 =
          λ vs. OnePerDriver vs × (tally (paired_elsewhere v.company_id h v.id) vs ≡ 0) in
        rw q (
          Post-and_then One (λ _ db'. Q db'.vehicles) (Set v)
            (unpair_driver_elsewhere m now v.company_id h v.id db) _
            (unpair_driver_elsewhere-Post now v.company_id h v.id db u)
            (λ ids db₁ k.
              Post-and_then One (λ _ db'. Q db'.vehicles) (Set v)
                (announce_others m v.company_id ids db₁) _
                (announce_others-Post One Q v.company_id ids db₁ k)
                (λ _ db₂ (u₂, z). (u₂, refl, refl, paired-Free db₂ z))))
  ]
    where
      paired-Free :
          (db' : Db)
          → tally (paired_elsewhere v.company_id (m.hex d.id) v.id) db'.vehicles ≡ 0
          → Free
              (record v {
                current_driver_id = some (m.hex d.id);
                current_driver_user_id = d.user_id;
              })
              db'.vehicles
      paired-Free db' z h r =
          let k = (text_beq_iff (m.hex d.id) h).0 r in
          subst (λ x. tally (paired_elsewhere v.company_id x v.id) db'.vehicles ≡ 0) k z

  pub set_driver-Post :
      (now : ℕ) (v : Vehicle) (driver_id : Option Text) (db : Db)
      → One db
      → Free v db.vehicles
      → Post One (Set v) (set_driver m now v.company_id v driver_id db)
  unfolding set_driver
  set_driver-Post now v none db u f = (u, refl, refl, f)
  set_driver-Post now v (some driver_id) db u f = elim (Bool-cases (trim_space driver_id == [])) [
    | inl q ↦ rw q (u, refl, refl, λ h r. absurd (ground arith))
    | inr q ↦ rw q (
        Post-and_then One (λ _ d. d ≡ db) (Set v) _ _
          (Post-instead One (λ _ d. d ≡ db) validation _
            (Looks-state One _ db _ u (get_driver-Looks m v.company_id driver_id db)))
          (λ d db₁ k.
            Post-and_then One (λ _ d'. (d' ≡ db₁) × ((not (d.status == active)) ≡ false)) (Set v) _
              _ (Post-refuse_if One (not (d.status == active)) validation db₁ (subst One (sym k) u))
              (λ _ db₂ (k₂, _).
                subst (λ x. Post One (Set v) (pair_driver m now v.company_id v d x)) (sym (k₂ ∙ k))
                  (pair_driver-Post now v d db u f))))
  ]
