-- ===== src/Repository/Tenancy.antt =====
-- What a company can see through the typed store.
use master_data.Shared.{
  ℕ, ◌≤◌, ◌<◌, ◌≡◌, refl, ap, subst, ◌∙◌, ◌≢◌, ◌⊎◌, inl, inr, Bool, true, false, ◌&&◌, Option, none,
  some, List, [], ◌∷◌, arith, Bool-cases, ◌==◌, nat_eq, text_eq, ==→eq, tally, alter, Text, ok,
}
use master_data.Mongo.{Mongo, IsIn}
use master_data.Repository.{
  Stored, find_by_id, soft_delete, visible, owned_or_global, one, deletion, deletable,
}

-- What the methods of a model promise about deleting.
pub record Deletable {D : Type 0} (model : Stored D) : Type 0 where
  pub is_deleted-mark_deleted :
      (now : ℕ) (d : D) → model.is_deleted (model.mark_deleted now d) ≡ true

-- A document that a reader of the company may see: all of them for platform staff (no company).
abbrev pub Visible : {D : Type 0} → Stored D → Text → D → Type 0
Visible model company_id d =
    (model.is_deleted d ≡ false)
    × ((company_id ≡ []) ⊎ (model.company_of d ≡ none) ⊎ (model.company_of d ≡ some company_id))

module _ (m : Mongo) {D : Type 0} (model : Stored D) where
  owned_or_global-cases :
      (company_id : Text) (o : Option Text)
      → owned_or_global m model company_id o ≡ true
      → (o ≡ none) ⊎ (o ≡ some company_id)
  unfolding owned_or_global
  owned_or_global-cases company_id none h = inl refl
  owned_or_global-cases company_id (some c) h = inr (ap (λ x. some x) (==→eq c company_id h))

  visible-Visible :
      (company_id : Text) (d : D) → visible m model company_id d ≡ true → Visible model company_id d
  unfolding visible
  visible-Visible company_id d h = (
    ground arith,
    elim (Bool-cases (company_id == [])) [
      | inl q ↦ inl (==→eq company_id [] q)
      | inr q ↦ inr (owned_or_global-cases company_id (model.company_of d) (ground arith))
    ],
  )

  -- A document that is found is a stored one with the id asked for. It is not deleted, and is the
  -- company's own or belongs to no company, unless the reader is not bound to a company.
  pub find_by_id-Visible :
      (company_id : Text) (id : ℕ) (ds : List D) (d : D)
      → find_by_id m model company_id id ds ≡ ok d
      → IsIn d ds × (model.id_of d ≡ id) × Visible model company_id d
  unfolding find_by_id one
  find_by_id-Visible company_id id ds d h = go (m.find_one _ ds) refl h
    where
      go :
          (r : Option (Option D))
          → m.find_one (λ x. model.id_of x == id && visible m model company_id x) ds ≡ r
          → one m model r ≡ ok d
          → IsIn d ds × (model.id_of d ≡ id) × Visible model company_id d
      go none e q = cc
      go (some none) e q = cc
      go (some (some x)) e q =
          let k : x ≡ d = cc in
          let (i, p) =
            m.find_one-some (λ x. model.id_of x == id && visible m model company_id x) ds e in
          subst (λ y. IsIn y ds × (model.id_of y ≡ id) × Visible model company_id y) k
            (i, ground arith, visible-Visible company_id x (ground arith))

  tally-less :
      (p q : D → Bool) (ds : List D) (d : D)
      → ((x : D) → q x ≡ true → p x ≡ true)
      → IsIn d ds
      → p d ≡ true
      → q d ≡ false
      → tally q ds < tally p ds
  tally-less p q [] d h i e f = elim i [ ]
  tally-less p q (x ∷ ds) d h (inl r) e f =
      let e' = subst (λ z. p z ≡ true) r e in
      let f' = subst (λ z. q z ≡ false) r f in ground (arith, tally-under ds)
    where
      tally-under : (xs : List D) → tally q xs ≤ tally p xs
      tally-under [] = omega arith
      tally-under (x ∷ xs) = ground (arith, h x, tally-under xs)
  tally-less p q (x ∷ ds) d h (inr i) e f = ground (arith, h x, tally-less p q ds d h i e f)

  IsIn-alter :
      (q : D → Bool) (f : D → D) (ds : List D) (d : D)
      → IsIn d (alter q f ds)
      → ((x : D) × (d ≡ f x)) ⊎ (IsIn d ds × (q d ≡ false))
  IsIn-alter q f [] d i = elim i [ ]
  IsIn-alter q f (x ∷ ds) d (inl e) = elim (Bool-cases (q x)) [
    | inl k ↦ inl (x, e ∙ rw k refl)
    | inr k ↦ let e' : d ≡ x = e ∙ rw k refl in inr (inl e', rw e' k)
  ]
  IsIn-alter q f (x ∷ ds) d (inr i) = elim (IsIn-alter q f ds d i) [
    | inl w ↦ inl w
    | inr (j, k) ↦ inr (inr j, k)
  ]

  -- No document that is left with this id is readable.
  marked-hides :
      (laws : Deletable model) (now : ℕ) (company_id : Text) (id : ℕ) (ds : List D) (d : D)
      → tally (λ x. model.id_of x == id) ds ≤ 1
      → 0 < tally (deletable m model company_id id) ds
      → IsIn d (alter (deletable m model company_id id) (model.mark_deleted now) ds)
      → model.id_of d ≡ id
      → model.is_deleted d ≡ true
  unfolding deletable
  marked-hides laws now company_id id ds d u n i e =
      elim (IsIn-alter (deletable m model company_id id) (model.mark_deleted now) ds d i) [
        | inl (x, k) ↦ rw k (laws.is_deleted-mark_deleted now x)
        | inr (j, k) ↦
            let l =
              tally-less (λ x. model.id_of x == id) (deletable m model company_id id) ds d
                (λ x h. ground arith) j (rw e (ground arith)) k in
            absurd (omega (arith, l, u, n))
      ]

  soft_delete_ok :
      (now : ℕ) (company_id : Text) (id : ℕ) (ds ds' : List D)
      → soft_delete m model now company_id id ds ≡ (ok tt, ds')
      → (n : ℕ) × (m.update_one (deletable m model company_id id) (model.mark_deleted now) ds
          ≡ some (n, ds'))
        × (0 < n)
  unfolding soft_delete deletion
  soft_delete_ok now company_id id ds ds' h =
      go (m.update_one (deletable m model company_id id) (model.mark_deleted now) ds) h
    where
      go :
          (r : Option (ℕ × List D))
          → deletion m model ds r ≡ (ok tt, ds')
          → (n : ℕ) × (r ≡ some (n, ds')) × (0 < n)
      go none q = cc
      go (some (n, xs)) q = elim (Bool-cases (n == 0)) [
        | inl k ↦ let z = rw k at q in cc
        | inr k ↦ let z = rw k at q in (n, ap (λ y. some (n, y)) (ap (λ y. y.1) z), ground arith)
      ]

  deletable-le :
      (company_id : Text) (id : ℕ) (ds : List D)
      → tally (deletable m model company_id id) ds ≤ tally (λ x. model.id_of x == id) ds
  unfolding deletable
  deletable-le company_id id [] = omega arith
  deletable-le company_id id (x ∷ ds) = ground (arith, deletable-le company_id id ds)

  -- After a deletion that succeeds, no reader finds the document, whatever company the reader
  -- belongs to, if no two documents had its id and the model's mark is one that its reads
  -- respect.
  pub soft_delete_hides :
      (laws : Deletable model) (now : ℕ) (company_id reader : Text) (id : ℕ) (ds ds' : List D)
      (d : D)
      → tally (λ x. model.id_of x == id) ds ≤ 1
      → soft_delete m model now company_id id ds ≡ (ok tt, ds')
      → find_by_id m model reader id ds' ≢ ok d
  soft_delete_hides laws now company_id reader id ds ds' d u h w =
      let (n, e, k) = soft_delete_ok now company_id id ds ds' h in
      let l =
        m.update_one_lem (deletable m model company_id id) (model.mark_deleted now) ds e
          (omega (arith, u, deletable-le company_id id ds)) in
      let (i, o, (live, _)) = find_by_id-Visible reader id ds' d w in
      let z =
        marked-hides laws now company_id id ds d u (omega (arith, l.0, k))
          (subst (λ xs. IsIn d xs) l.1 i) o in
      ground arith
