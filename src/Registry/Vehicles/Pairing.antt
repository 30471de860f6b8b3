-- ===== src/Registry/Vehicles/Pairing.antt =====
-- One vehicle of a company per driver: creating and updating vehicles keep the pairing unique.
pub mod Setting
pub mod Updating
pub mod Creating
use master_data.Shared.{
  refers, ℕ, ◌+◌, ◌≤◌, ◌≡◌, refl, subst, inl, inr, Bool, true, not, ◌&&◌, List, [], ◌∷◌, ◌++◌,
  arith, if◌then◌else◌, Bool-cases, ◌==◌, nat_eq, text_eq, ==→eq, tally, alter, Text,
}
use master_data.Models.{Vehicle}
use master_data.Mongo.{Mongo}
use master_data.Mongo
use master_data.Repository
use master_data.Registry.{Db}
use master_data.Registry.Vehicles.{paired_elsewhere, unpair}
use master_data.Mongo.Counts.{
  tally-alter-le, tally-alter-same, tally-le, tally-never, tally-replace,
}

abbrev pub paired : Text → Text → Vehicle → Bool
paired company_id driver_id v = v.company_id == company_id && refers v.current_driver_id driver_id

abbrev pub has_id : ℕ → Vehicle → Bool
has_id o v = v.id == o

-- The vehicles have different ids, and no two of a company have the same driver.
pub record OnePerDriver (vs : List Vehicle) : Type 0 where
  pub one_each : (o : ℕ) → tally (has_id o) vs ≤ 1
  pub one_driven : (company_id driver_id : Text) → tally (paired company_id driver_id) vs ≤ 1

-- Nothing but the vehicle with this id has a driver in common with `v`.
abbrev pub Free : Vehicle → List Vehicle → Type 0
Free v vs =
    (h : Text)
    → refers v.current_driver_id h ≡ true
    → tally (paired_elsewhere v.company_id h v.id) vs ≡ 0

pub unpair-OnePerDriver :
    (now : ℕ) (q : Vehicle → Bool) (vs : List Vehicle)
    → OnePerDriver vs
    → OnePerDriver (alter q (unpair now) vs)
unpair-OnePerDriver now q vs u = record {
  one_each = λ o. rw (tally-alter-same (has_id o) q (unpair now) vs (λ a. refl)) (u.one_each o);
  one_driven = λ c h.
      omega (
        arith,
        u.one_driven c h,
        tally-alter-le (paired c h) q (unpair now) vs (λ a. ground arith),
      );
}

replace-one_each :
    (o n : ℕ) (w : Vehicle) (vs : List Vehicle)
    → OnePerDriver vs
    → w.id ≡ o
    → tally (has_id n) (alter (has_id o) (λ _. w) vs) ≤ 1
replace-one_each o n w vs u e = elim (Bool-cases (n == o)) [
  | inl q ↦ ground (
    arith,
    tally-replace (has_id n) (has_id o) w vs,
    u.one_each o,
    tally-never (λ x. has_id n x && not (has_id o x)) vs (λ x. ground arith),
  )
  | inr q ↦ ground (
    arith,
    tally-replace (has_id n) (has_id o) w vs,
    u.one_each n,
    tally-le (λ x. has_id n x && not (has_id o x)) (has_id n) vs (λ x h. ground arith),
  )
]

replace-one_driven :
    (o : ℕ) (c h : Text) (w : Vehicle) (vs : List Vehicle)
    → OnePerDriver vs
    → w.id ≡ o
    → Free w vs
    → tally (paired c h) (alter (has_id o) (λ _. w) vs) ≤ 1
replace-one_driven o c h w vs u e f = elim (Bool-cases (paired c h w)) [
  | inl q ↦
      let k : w.company_id ≡ c = ==→eq w.company_id c (ground arith) in
      let z = f h (ground arith) in
      let y : tally (λ x. paired c h x && not (has_id o x)) vs ≡ 0 = omega (
        arith,
        z,
        tally-le (λ x. paired c h x && not (has_id o x)) (paired_elsewhere w.company_id h w.id) vs
            (λ x r. rw (k, e) (ground arith)),
      ) in
      ground (arith, tally-replace (paired c h) (has_id o) w vs, u.one_each o, y)
  | inr q ↦ ground (
    arith,
    tally-replace (paired c h) (has_id o) w vs,
    u.one_driven c h,
    tally-le (λ x. paired c h x && not (has_id o x)) (paired c h) vs (λ x r. ground arith),
  )
]

-- Replacing a vehicle by one whose driver is free keeps the pairing unique.
pub replace-OnePerDriver :
    (o : ℕ) (w : Vehicle) (vs : List Vehicle)
    → OnePerDriver vs
    → w.id ≡ o
    → Free w vs
    → OnePerDriver (alter (has_id o) (λ _. w) vs)
replace-OnePerDriver o w vs u e f = record {
  one_each = λ n. replace-one_each o n w vs u e;
  one_driven = λ c h. replace-one_driven o c h w vs u e f;
}

-- A new vehicle has an id of its own, and no vehicle has its driver.
pub append-OnePerDriver :
    (w : Vehicle) (vs : List Vehicle)
    → OnePerDriver vs
    → tally (has_id w.id) vs ≡ 0
    → ((h : Text) → refers w.current_driver_id h ≡ true → tally (paired w.company_id h) vs ≡ 0)
    → OnePerDriver (vs ++ w ∷ [])
append-OnePerDriver w vs u z f = record {
  one_each = λ n. elim (Bool-cases (has_id n w)) [
    | inl q ↦
        let k : w.id ≡ n = ==→eq w.id n q in
        ground (arith, tally-snoc (has_id n) vs w, subst (λ i. tally (has_id i) vs ≡ 0) k z)
    | inr q ↦ ground (arith, tally-snoc (has_id n) vs w, u.one_each n)
  ];
  one_driven = λ c h. elim (Bool-cases (paired c h w)) [
    | inl q ↦
        let k : w.company_id ≡ c = ==→eq w.company_id c (ground arith) in
        ground (
          arith,
          tally-snoc (paired c h) vs w,
          subst (λ i. tally (paired i h) vs ≡ 0) k (f h (ground arith)),
        )
    | inr q ↦ ground (arith, tally-snoc (paired c h) vs w, u.one_driven c h)
  ];
}
  where
    tally-snoc :
        {A : Type 0} (p : A → Bool) (xs : List A) (a : A)
        → tally p (xs ++ a ∷ []) ≡ tally p xs + (if p a then 1 else 0)
    tally-snoc p [] a = omega arith
    tally-snoc p (x ∷ xs) a = omega (arith, tally-snoc p xs a)

-- What setting the driver gives: the vehicle is the same, and its driver is free.
abbrev pub Set : Vehicle → Vehicle → Db → Type 0
Set v w db =
    OnePerDriver db.vehicles × (w.id ≡ v.id) × (w.company_id ≡ v.company_id) × Free w db.vehicles

abbrev pub One : Db → Type 0
One db = OnePerDriver db.vehicles
