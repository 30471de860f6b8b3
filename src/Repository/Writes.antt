-- ===== src/Repository/Writes.antt =====
-- What the writes of the store can come to.
use master_data.Shared.{
  Text, alter, tally, ◌≤◌, ℕ, ◌≡◌, refl, ◌⊎◌, inl, inr, Bool, true, false, Option, none, some, List,
  [], ◌∷◌, ◌++◌, if◌then◌else◌, Bool-cases, ◌==◌, nat_eq, text_eq, Result, ok, err,
}
use master_data.Errors.{Error, not_found, duplicate, failure}
use master_data.Mongo.{Mongo, Inserted, inserted}
use master_data.Mongo
use master_data.Repository.{
  Stored, soft_delete, deletion, deletable, create, update, insertion, refuse_or, replacement,
}

module _ (m : Mongo) {D : Type 0} (model : Stored D) where
  -- A document as `Create` (or `Update`) writes it.
  abbrev pub written : ℕ → Bool → D → D
  written now creating doc = model.stamp now creating (model.before_write doc)

  abbrev pub Created : ℕ → D → List D → Result Error D × List D → Type 0
  Created now doc ds r =
      (((e : Error) × (r ≡ (err e, ds)))
        ⊎ ((r ≡ (ok (written now true doc), ds ++ written now true doc ∷ []))
            × (model.validate (model.before_write doc) ≡ none)))

  pub create-cases :
      (now : ℕ) (doc : D) (ds : List D) → Created now doc ds (create m model now doc ds)
  unfolding create insertion refuse_or
  create-cases now doc ds =
      go (model.validate (model.before_write doc)) refl (m.insert_one (written now true doc) ds)
        refl
    where
      go :
          (v : Option Error)
          → model.validate (model.before_write doc) ≡ v
          → (i : Inserted D) → m.insert_one (written now true doc) ds ≡ i
          → Created now doc ds
              (refuse_or m model v ds (insertion m model (written now true doc) ds i))
      go (some e) q i w = inl (e, refl)
      go none q (inserted r) w = inr (rw (m.insert_lem (written now true doc) ds w) refl, q)
      go none q Mongo.duplicate w = inl (duplicate, refl)
      go none q Mongo.failed w = inl (failure, refl)

  abbrev pub Updated : ℕ → ℕ → D → List D → Result Error D × List D → Type 0
  Updated now id doc ds r =
      (((e : Error) × (r ≡ (err e, ds)))
        ⊎ ((n : ℕ) × (m.replace_one (λ d. model.id_of d == id) (written now false doc) ds
              ≡ some (n, r.1))
            × (model.validate (model.before_write doc) ≡ none)
            × (r.0 ≡ (if n == 0 then err not_found else ok (written now false doc)))))

  pub update-cases :
      (now id : ℕ) (doc : D) (ds : List D) → Updated now id doc ds (update m model now id doc ds)
  unfolding update replacement refuse_or
  update-cases now id doc ds =
      go (model.validate (model.before_write doc)) refl
        (m.replace_one (λ d. model.id_of d == id) (written now false doc) ds) refl
    where
      go :
          (v : Option Error)
          → model.validate (model.before_write doc) ≡ v
          → (i : Option (ℕ × List D))
          → m.replace_one (λ d. model.id_of d == id) (written now false doc) ds ≡ i
          → Updated now id doc ds
              (refuse_or m model v ds (replacement m model (written now false doc) ds i))
      go (some e) q i w = inl (e, refl)
      go none q none w = inl (failure, refl)
      go none q (some (n, r)) w = elim (Bool-cases (n == 0)) [
        | inl z ↦ rw z (inr (n, w, q, rw z refl))
        | inr z ↦ rw z (inr (n, w, q, rw z refl))
      ]

  -- A deletion writes at most the mark on the documents that it names.
  abbrev pub Deleted : ℕ → Text → ℕ → List D → List D → Type 0
  Deleted now company_id id ds ds' =
      (ds' ≡ ds) ⊎ (ds' ≡ alter (deletable m model company_id id) (model.mark_deleted now) ds)

  pub soft_delete-cases :
      (now : ℕ) (company_id : Text) (id : ℕ) (ds : List D)
      → tally (deletable m model company_id id) ds ≤ 1
      → Deleted now company_id id ds (soft_delete m model now company_id id ds).1
  unfolding soft_delete deletion
  soft_delete-cases now company_id id ds u =
      go (m.update_one (deletable m model company_id id) (model.mark_deleted now) ds) refl
    where
      go :
          (r : Option (ℕ × List D))
          → m.update_one (deletable m model company_id id) (model.mark_deleted now) ds ≡ r
          → Deleted now company_id id ds (deletion m model ds r).1
      go none e = inl refl
      go (some (n, xs)) e =
          let l =
            (m.update_one_lem (deletable m model company_id id) (model.mark_deleted now) ds e
              u).1 in
          elim (Bool-cases (n == 0)) [ inl k ↦ rw k (inr l) | inr k ↦ rw k (inr l) ]
