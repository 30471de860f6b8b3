-- ===== src/Registry/Fitting/Invariant.antt =====
-- The invariant of the fittings: a device is in one open assignment at most, a vehicle carries
-- one device of a kind at most, and what is open belongs to a live device of that kind.
use master_data.Shared.{
  ℕ, ◌+◌, ◌≤◌, ◌≡◌, refl, sym, ap, subst, ◌≢◌, ◌⊎◌, inl, inr, Bool, true, false, ◌&&◌, some, List,
  [], ◌∷◌, ◌++◌, arith, if◌then◌else◌, Bool-cases, ◌==◌, nat_eq, text_eq, ==→eq, tally, alter, Text,
}
use master_data.Models.{Tracker, TrackerAssignment}
use master_data.Mongo.{Mongo, IsIn}
use master_data.Registry.{Db}
use master_data.Registry.Fitting.{is_open, open_for, close, same_kind}
use master_data.Registry.Fitting.Runs.{closed, added, SameFittings}

abbrev pub open_on : Text → Text → TrackerAssignment → Bool
open_on vid kind a = a.vehicle_id == vid && a.kind == kind && is_open a

-- A live device of the assignment's kind, which the assignment names.
abbrev pub Backed : Mongo → List Tracker → TrackerAssignment → Type 0
Backed m ts a =
    (t : Tracker) × IsIn t ts × (same_kind m a.kind t ≡ true) × (a.tracker_id ≡ some (m.hex t.id))

pub record Fitted (m : Mongo) (db : Db) : Type 0 where
  pub one_per_tracker : (tid : Text) → tally (open_for tid) db.assignments ≤ 1
  pub one_per_vehicle : (vid kind : Text) → tally (open_on vid kind) db.assignments ≤ 1
  pub backed :
      (a : TrackerAssignment) → IsIn a db.assignments → is_open a ≡ true → Backed m db.trackers a
  pub kinded : (t : Tracker) → IsIn t db.trackers → t.kind ≢ []

pub tally-close-le :
    (p q : TrackerAssignment → Bool) (at : ℕ) (xs : List TrackerAssignment)
    → ((a : TrackerAssignment) → p (close at a) ≡ false)
    → tally p (alter q (close at) xs) ≤ tally p xs
tally-close-le p q at [] h = omega arith
tally-close-le p q at (x ∷ xs) h = ground (arith, h x, tally-close-le p q at xs h)

pub tally-close-zero :
    (p q : TrackerAssignment → Bool) (at : ℕ) (xs : List TrackerAssignment)
    → ((a : TrackerAssignment) → p (close at a) ≡ false)
    → ((a : TrackerAssignment) → IsIn a xs → p a ≡ true → q a ≡ true)
    → tally p (alter q (close at) xs) ≡ 0
tally-close-zero p q at [] h k = refl
tally-close-zero p q at (x ∷ xs) h k =
    ground (arith, h x, k x (inl refl), tally-close-zero p q at xs h (λ a i. k a (inr i)))

pub tally-append :
    {A : Type 0} (p : A → Bool) (xs : List A) (a : A)
    → tally p (xs ++ a ∷ []) ≡ tally p xs + (if p a then 1 else 0)
tally-append p [] a = omega arith
tally-append p (x ∷ xs) a = omega (arith, tally-append p xs a)

pub IsIn-close :
    (q : TrackerAssignment → Bool) (at : ℕ) (xs : List TrackerAssignment) (a : TrackerAssignment)
    → is_open a ≡ true
    → IsIn a (alter q (close at) xs)
    → IsIn a xs
IsIn-close q at [] a o i = i
IsIn-close q at (x ∷ xs) a o (inr i) = inr (IsIn-close q at xs a o i)
IsIn-close q at (x ∷ xs) a o (inl e) = go (q x) e
  where
    go : (b : Bool) → a ≡ (if b then close at x else x) → IsIn a (x ∷ xs)
    go true e' = absurd (ground (arith, ap (λ r. is_open r) e'))
    go false e' = inl e'

pub IsIn-append-one :
    {A : Type 0} (xs : List A) (a b : A) → IsIn b (xs ++ a ∷ []) → IsIn b xs ⊎ (b ≡ a)
IsIn-append-one [] a b (inl e) = inr e
IsIn-append-one [] a b (inr i) = elim i [ ]
IsIn-append-one (x ∷ xs) a b (inl e) = inl (inl e)
IsIn-append-one (x ∷ xs) a b (inr i) = elim (IsIn-append-one xs a b i) [
  | inl j ↦ inl (inr j)
  | inr e ↦ inr e
]

pub open_for-close :
    (tid : Text) (at : ℕ) (a : TrackerAssignment) → open_for tid (close at a) ≡ false
open_for-close tid at a = ground arith

pub open_on-close :
    (vid kind : Text) (at : ℕ) (a : TrackerAssignment) → open_on vid kind (close at a) ≡ false
open_on-close vid kind at a = ground arith

module _ (m : Mongo) where
  pub Fitted-same : (db db' : Db) → SameFittings db db' → Fitted m db → Fitted m db'
  Fitted-same db db' s f = record {
    one_per_tracker = λ tid. rw s.assignments_kept (f.one_per_tracker tid);
    one_per_vehicle = λ vid kind. rw s.assignments_kept (f.one_per_vehicle vid kind);
    backed = rw (s.assignments_kept, s.trackers_kept) f.backed;
    kinded = rw s.trackers_kept f.kinded;
  }

  pub closed-Fitted :
      (q : TrackerAssignment → Bool) (at : ℕ) (db : Db) → Fitted m db → Fitted m (closed q at db)
  closed-Fitted q at db f = record {
    one_per_tracker = λ tid. omega (
      arith,
      f.one_per_tracker tid,
      tally-close-le (open_for tid) q at db.assignments (open_for-close tid at),
    );
    one_per_vehicle = λ vid kind. omega (
      arith,
      f.one_per_vehicle vid kind,
      tally-close-le (open_on vid kind) q at db.assignments (open_on-close vid kind at),
    );
    backed = λ a i o. f.backed a (IsIn-close q at db.assignments a o i) o;
    kinded = f.kinded;
  }

  pub added-Fitted :
      (a : TrackerAssignment) (tid : Text) (db : Db)
      → a.tracker_id ≡ some tid
      → Backed m db.trackers a
      → tally (open_for tid) db.assignments ≡ 0
      → tally (open_on a.vehicle_id a.kind) db.assignments ≡ 0
      → Fitted m db
      → Fitted m (added a db)
  added-Fitted a tid db e b z z' f = record {
    one_per_tracker = λ other. per_tracker other (Bool-cases (tid == other));
    one_per_vehicle = λ vid kind.
        per_vehicle vid kind (Bool-cases (a.vehicle_id == vid)) (Bool-cases (a.kind == kind));
    backed = λ x i o. elim (IsIn-append-one db.assignments a x i) [
      | inl j ↦ f.backed x j o
      | inr q ↦ subst (Backed m db.trackers) (sym q) b
    ];
    kinded = f.kinded;
  }
    where
      per_tracker :
          (other : Text)
          → ((tid == other) ≡ true) ⊎ ((tid == other) ≡ false)
          → tally (open_for other) (added a db).assignments ≤ 1
      per_tracker other (inl q) =
          subst (λ t. tally (open_for t) (added a db).assignments ≤ 1) (==→eq tid other q)
            (ground (arith, tally-append (open_for tid) db.assignments a))
      per_tracker other (inr q) =
          ground (arith, tally-append (open_for other) db.assignments a, f.one_per_tracker other)

      per_vehicle :
          (vid kind : Text)
          → ((a.vehicle_id == vid) ≡ true) ⊎ ((a.vehicle_id == vid) ≡ false)
          → ((a.kind == kind) ≡ true) ⊎ ((a.kind == kind) ≡ false)
          → tally (open_on vid kind) (added a db).assignments ≤ 1
      per_vehicle vid kind (inl q) (inl r) =
          subst (λ v. tally (open_on v kind) (added a db).assignments ≤ 1)
            (==→eq a.vehicle_id vid q)
            (subst (λ k. tally (open_on a.vehicle_id k) (added a db).assignments ≤ 1)
              (==→eq a.kind kind r)
              (ground (arith, tally-append (open_on a.vehicle_id a.kind) db.assignments a)))
      per_vehicle vid kind (inr q) _ =
          ground
            (arith, tally-append (open_on vid kind) db.assignments a, f.one_per_vehicle vid kind)
      per_vehicle vid kind (inl q) (inr r) =
          ground
            (arith, tally-append (open_on vid kind) db.assignments a, f.one_per_vehicle vid kind)
