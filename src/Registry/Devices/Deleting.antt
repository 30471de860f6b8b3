-- ===== src/Registry/Devices/Deleting.antt =====
-- Deleting a device keeps the fittings sound.
use master_data.Shared.{
  refers, ℕ, ◌≤◌, ◌≡◌, refl, sym, ap, subst, ◌∙◌, ◌≢◌, inl, inr, Bool, true, false, Option, none,
  some, List, [], ◌∷◌, arith, ltb, Bool-cases, ◌==◌, nat_eq, text_eq, ==→eq, tally, alter, Text,
  codes, text_beq, text_beq_iff, Result, ok, err,
}
use master_data.Errors.{Error, conflict}
use master_data.Models.{Tracker, TrackerAssignment}
use master_data.Mongo.{Mongo, IsIn}
use master_data.Repository
use master_data.Registry.{Db, and_then, ◌>>◌, refuse_if, announce, counted}
use master_data.Registry.Lookups.{Spells, find_tracker-Looks}
use master_data.Registry.Fitting.{open_for, is_open}
use master_data.Registry.Fitting.Invariant.{Fitted, Fitted-same}
use master_data.Registry.Devices.{delete_tracker, on_trackers}
use master_data.Repository.Writes.{soft_delete-cases}
use master_data.Repository.{deletable}

module _ (m : Mongo) where
  tally-zero :
      {A : Type 0} (p : A → Bool) (xs : List A) (a : A) → tally p xs ≡ 0 → IsIn a xs → p a ≡ false
  tally-zero p [] a z i = elim i [ ]
  tally-zero p (x ∷ xs) a z (inl e) = rw e (ground arith)
  tally-zero p (x ∷ xs) a z (inr i) = tally-zero p xs a (ground arith) i

  IsIn-kept :
      {A : Type 0} (q : A → Bool) (f : A → A) (xs : List A) (a : A)
      → IsIn a xs
      → q a ≡ false
      → IsIn a (alter q f xs)
  IsIn-kept q f [] a i e = elim i [ ]
  IsIn-kept q f (x ∷ xs) a (inl r) e = let e' = subst (λ z. q z ≡ false) r e in inl (r ∙ rw e' refl)
  IsIn-kept q f (x ∷ xs) a (inr i) e = inr (IsIn-kept q f xs a i e)

  kinds-kept :
      (q : Tracker → Bool) (now : ℕ) (ts : List Tracker)
      → ((t : Tracker) → IsIn t ts → t.kind ≢ [])
      → (t : Tracker) → IsIn t (alter q (λ x. record x { deleted = true; updated_at = now }) ts)
      → t.kind ≢ []
  kinds-kept q now [] h t i = elim i [ ]
  kinds-kept q now (x ∷ ts) h t (inr i) = kinds-kept q now ts (λ y j. h y (inr j)) t i
  kinds-kept q now (x ∷ ts) h t (inl e) = elim (Bool-cases (q x)) [
    | inl k ↦
        let r : t ≡ record x { deleted = true; updated_at = now } = e ∙ rw k refl in
        λ z. h x (inl refl) (sym (ap (λ (y : Tracker). y.kind) r) ∙ z)
    | inr k ↦
        let r : t ≡ x = e ∙ rw k refl in
        λ z. h x (inl refl) (sym (ap (λ (y : Tracker). y.kind) r) ∙ z)
  ]

  marked-Fitted :
      (now o : ℕ) (db : Db)
      → Fitted m db
      → tally (open_for (m.hex o)) db.assignments ≡ 0
      → Fitted m (record db {
        trackers =
            alter
              (deletable m Repository.trackers [] o)
              (Repository.trackers.mark_deleted now)
              db.trackers;
      })
  unfolding deletable
  marked-Fitted now o db f z = record {
    one_per_tracker = f.one_per_tracker;
    one_per_vehicle = f.one_per_vehicle;
    backed = λ a i p.
        let (t, j, s, e) = f.backed a i p in
        let c = tally-zero (open_for (m.hex o)) db.assignments a z i in
        (
          t,
          IsIn-kept (deletable m Repository.trackers [] o) (Repository.trackers.mark_deleted now)
              db.trackers t j (other a t e p c),
          s,
          e,
        );
    kinded = kinds-kept (deletable m Repository.trackers [] o) now db.trackers f.kinded;
  }
    where
      other :
          (a : TrackerAssignment) (t : Tracker)
          → a.tracker_id ≡ some (m.hex t.id)
          → is_open a ≡ true
          → open_for (m.hex o) a ≡ false
          → deletable m Repository.trackers [] o t ≡ false
      other a t e p c = elim (Bool-cases (t.id == o)) [
        | inr k ↦ rw k refl
        | inl k ↦
            let q : a.tracker_id ≡ some (m.hex o) = e ∙ ap (λ x. some (m.hex x)) (==→eq t.id o k) in
            let y : refers a.tracker_id (m.hex o) ≡ true =
              rw q ((text_beq_iff (m.hex o) (m.hex o)).1 refl) in
            absurd (ground arith)
      ]

  tally-deletable :
      (o : ℕ) (ts : List Tracker)
      → tally (deletable m Repository.trackers [] o) ts ≡ tally (λ (t : Tracker). t.id == o) ts
  unfolding deletable text_beq
  tally-deletable o [] = refl
  tally-deletable o (t ∷ ts) = ground (arith, tally-deletable o ts)

  -- The last writes of `DeleteTracker`.
  write-Fitted :
      (now o : ℕ) (company_id id : Text) (db : Db)
      → Fitted m db
      → tally (open_for (m.hex o)) db.assignments ≡ 0
      → tally (λ (t : Tracker). t.id == o) db.trackers ≤ 1
      → Fitted m
          (and_then
            (on_trackers (Repository.soft_delete m Repository.trackers now [] o db.trackers) db)
            (λ _. announce (codes "tracker") company_id id (codes "delete"))).1
  unfolding announce
  write-Fitted now o company_id id db f z u =
      go (Repository.soft_delete m Repository.trackers now [] o db.trackers)
        (elim (soft_delete-cases m Repository.trackers now [] o db.trackers u') [
          | inl e ↦ subst (λ rows. Fitted m (record db { trackers = rows })) (sym e) f
          | inr e ↦
              subst (λ rows. Fitted m (record db { trackers = rows })) (sym e)
                (marked-Fitted now o db f z)
        ])
    where
      go :
          (r : Result Error (Unit {0}) × List Tracker)
          → Fitted m (record db { trackers = r.1 })
          → Fitted m
              (and_then
                (on_trackers r db)
                (λ _. announce (codes "tracker") company_id id (codes "delete"))).1
      go (ok x, rows) k =
          Fitted-same m _ _ (record { assignments_kept = refl; trackers_kept = refl }) k
      go (err x, rows) k = k

      u' : tally (deletable m Repository.trackers [] o) db.trackers ≤ 1
      u' = rw (tally-deletable o db.trackers) u

  -- The id is printed as the database prints it: then it names the device that was found.
  spelled : (o o' : ℕ) → Spells m (m.hex o) o' → o ≡ o'
  spelled o o' e =
      let h = sym (m.from_hex-hex o) ∙ (ap m.from_hex (sym (m.trim_space-hex o)) ∙ e) in cc

  -- If the invariant of the fittings holds before a device is deleted, it holds after it, so a
  -- device with an open assignment is never deleted: where the id is written as the database
  -- prints ids and no two devices have that id, whichever call of the driver fails.
  pub delete_tracker-Fitted :
      (now o : ℕ) (company_id : Text) (db : Db)
      → Fitted m db
      → tally (λ (t : Tracker). t.id == o) db.trackers ≤ 1
      → Fitted m (delete_tracker m now company_id (m.hex o) db).1
  unfolding delete_tracker
  delete_tracker-Fitted now o company_id db f u =
      elim (find_tracker-Looks m company_id (m.hex o) db) [
        | inl (e, q) ↦ rw q f
        | inr (t, q, (o', s, _, i)) ↦
            let k : t.id ≡ o = ==→eq t.id o' (ground arith) ∙ sym (spelled o o' s) in
            rw q (counts t k (m.count_documents (open_for (m.hex o)) db.assignments) refl)
      ]
    where
      counts :
          (t : Tracker)
          → t.id ≡ o
          → (r : Option ℕ) → m.count_documents (open_for (m.hex o)) db.assignments ≡ r
          → Fitted m
              (and_then (counted r db) (λ n.
                refuse_if (ltb 0 n) conflict
                >> ((λ d.
                      on_trackers
                        (Repository.soft_delete m Repository.trackers now [] t.id d.trackers)
                        d)
                    >> announce (codes "tracker") company_id (m.hex o) (codes "delete")))).1
      counts t k none e = f
      counts t k (some n) e = elim (Bool-cases (ltb 0 n)) [
        | inl q ↦ rw q f
        | inr q ↦
            let z = m.count_lem (open_for (m.hex o)) db.assignments e in
            rw (q, k) (write-Fitted now o company_id (m.hex o) db f (ground arith) u)
      ]
