-- ===== src/Registry/Outcomes.antt =====
-- Conditions on the result and the state after an operation of the register.
use master_data.Shared.{◌≡◌, refl, inl, inr, Bool, true, false, ok, err}
use master_data.Errors.{Error, not_found}
use master_data.Registry.{Db, Outcome, Exec, and_then, refuse_if, instead}
use master_data.Registry.Lookups.{Looks}

-- `E` holds of the state after an error, `Q` of a result and the state after it.
abbrev pub Post : {A : Type 0} → (Db → Type 0) → (A → Db → Type 0) → Outcome A → Type 0
Post E Q (ok a, db) = Q a db
Post E Q (err e, db) = E db

pub Post-and_then :
    {A B : Type 0} (E : Db → Type 0) (Q : A → Db → Type 0) (R : B → Db → Type 0) (r : Outcome A)
    (f : A → Exec B)
    → Post E Q r
    → ((a : A) (db : Db) → Q a db → Post E R (f a db))
    → Post E R (and_then r f)
Post-and_then E Q R (ok a, db) f h k = k a db h
Post-and_then E Q R (err e, db) f h k = h

pub Post-state : {A : Type 0} (E : Db → Type 0) (r : Outcome A) → Post E (λ a db. E db) r → E r.1
Post-state E (ok a, db) h = h
Post-state E (err e, db) h = h

pub Post-instead :
    {A : Type 0} (E : Db → Type 0) (Q : A → Db → Type 0) (e : Error) (r : Outcome A)
    → Post E Q r
    → Post E Q (instead e r)
Post-instead E Q e (ok a, db) h = h
Post-instead E Q e (err not_found, db) h = h
Post-instead E Q e (err _, db) h = h

pub Post-refuse_if :
    (E : Db → Type 0) (t : Bool) (e : Error) (db : Db)
    → E db
    → Post E (λ _ d. (d ≡ db) × (t ≡ false)) (refuse_if t e db)
Post-refuse_if E true e db h = h
Post-refuse_if E false e db h = (refl, refl)

-- A lookup leaves the state alone.
pub Looks-Post :
    {A : Type 0} (E : Db → Type 0) (Q : A → Type 0) (db : Db) (r : Outcome A)
    → E db
    → Looks Q db r
    → Post E (λ a d. (d ≡ db) × Q a) r
Looks-Post E Q db r h (inl (e, q)) = rw q h
Looks-Post E Q db r h (inr (a, q, w)) = rw q (refl, w)

pub Looks-state :
    {A : Type 0} (E : Db → Type 0) (Q : A → Type 0) (db : Db) (r : Outcome A)
    → E db
    → Looks Q db r
    → Post E (λ _ d. d ≡ db) r
Looks-state E Q db r h (inl (e, q)) = rw q h
Looks-state E Q db r h (inr (a, q, w)) = rw q refl

pub Post-both :
    {A : Type 0} (E : Db → Type 0) (Q R : A → Db → Type 0) (r : Outcome A)
    → Post E Q r
    → Post (λ _. Unit) R r
    → Post E (λ a d. Q a d × R a d) r
Post-both E Q R (ok a, db) h k = (h, k)
Post-both E Q R (err e, db) h k = h
