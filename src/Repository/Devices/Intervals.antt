-- ===== src/Repository/Devices/Intervals.antt =====
-- The answers about devices against the assignments: intervals that are closed at the start and open
-- at the end.
use master_data.Shared.{
  ℕ, ◌≡◌, refl, sym, subst, ◌∙◌, ◌≢◌, ◌⊎◌, inl, inr, Bool, true, false, Option, none, some, List,
  [], ◌∷◌, arith, ltb, Bool-cases, ◌==◌, nat_eq, text_eq, ==_refl, ==→eq, Text, ok, lookup, insert,
  lookup-insert,
}
use master_data.Models.{TrackerAssignment}
use master_data.Mongo.{Mongo, IsIn}
use master_data.Repository.Devices.{
  fitted_filter, Imeis, unless_later, fitted_at_of, clash, round, rounds, imeis_found, imeis_at,
}

abbrev is_found : Option Text → Bool
is_found none = false
is_found (some i) = true

abbrev found_key : Text → Imeis → Bool
found_key v out = is_found (lookup v out)

module _ (m : Mongo) (assignments : List TrackerAssignment) where
  -- What a round adds is the assignment's, and it forgets no vehicle.
  abbrev RoundRight : TrackerAssignment → Imeis → Imeis → Type 0
  RoundRight a out r =
      ((v i : Text)
        → lookup v r ≡ some i
        → (lookup v out ≡ some i) ⊎ ((a.vehicle_id ≡ v) × (a.imei ≡ i)))
      × ((v : Text) → found_key v out ≡ true → found_key v r ≡ true)
      × (found_key a.vehicle_id r ≡ true)

  inserted_right :
      (a : TrackerAssignment) (out : Imeis) → RoundRight a out (insert a.vehicle_id a.imei out)
  inserted_right a out = (
    λ v i h. elim (Bool-cases (a.vehicle_id == v)) [
      | inl e ↦ inr (
        ==→eq a.vehicle_id v e,
        some-same a.imei i (sym (lookup-insert a.vehicle_id v a.imei out ∙ rw e refl) ∙ h),
      )
      | inr e ↦ inl (sym (lookup-insert a.vehicle_id v a.imei out ∙ rw e refl) ∙ h)
    ],
    λ v h. elim (Bool-cases (a.vehicle_id == v)) [
      | inl e ↦ rw (lookup-insert a.vehicle_id v a.imei out, e) refl
      | inr e ↦ rw (lookup-insert a.vehicle_id v a.imei out, e) h
    ],
    rw (lookup-insert a.vehicle_id a.vehicle_id a.imei out, ==_refl a.vehicle_id) refl,
  )
    where
      some-same : (x y : Text) → some x ≡ some y → x ≡ y
      some-same x y h = cc

  clash_right :
      (a : TrackerAssignment) (out : Imeis) (r : Option Text)
      → lookup a.vehicle_id out ≡ r
      → RoundRight a out (clash m assignments a r out)
  unfolding clash unless_later
  clash_right a out none e = inserted_right a out
  clash_right a out (some existing) e = elim (Bool-cases (existing == a.imei)) [
    | inl q ↦ rw q (inserted_right a out)
    | inr q ↦ rw q (at (fitted_at_of m assignments a.vehicle_id existing))
  ]
    where
      at : (t : Option ℕ) → RoundRight a out (unless_later a t out)
      at none = inserted_right a out
      at (some prev) = elim (Bool-cases (ltb a.fitted_at prev)) [
        | inl z ↦ rw z (λ v i h. inl h, λ v h. h, rw e refl)
        | inr z ↦ rw z (inserted_right a out)
      ]

  -- An assignment that stands behind an answer.
  abbrev pub Behind : List TrackerAssignment → Text → Text → Type 0
  Behind rows v i =
      (a : TrackerAssignment) × IsIn a rows × (a.vehicle_id ≡ v) × (a.imei ≡ i) × (i ≢ [])

  rounds_sound :
      (rows : List TrackerAssignment) (out : Imeis) (v i : Text)
      → lookup v (rounds m assignments rows out) ≡ some i
      → (lookup v out ≡ some i) ⊎ Behind rows v i
  unfolding rounds round
  rounds_sound [] out v i h = inl h
  rounds_sound (a ∷ rows) out v i h = elim (rounds_sound rows (round m assignments a out) v i h) [
    | inr (x, j, e, k, n) ↦ inr (x, inr j, e, k, n)
    | inl q ↦ elim (Bool-cases (a.imei == [])) [
      | inl e ↦ let z = rw e at q in inl z
      | inr e ↦
          let z = rw e at q in
          elim ((clash_right a out (lookup a.vehicle_id out) refl).0 v i z) [
            | inl k ↦ inl k
            | inr (k, l) ↦ inr (a, inl refl, k, l, λ n. not-blank a.imei e (l ∙ n))
          ]
    ]
  ]
    where
      not-blank : (x : Text) → (x == []) ≡ false → x ≡ [] → ⊥
      not-blank x e n = let z = rw (n, ==_refl {K = Text} []) at e in cc

  rounds-kept :
      (rows : List TrackerAssignment) (out : Imeis) (v : Text)
      → found_key v out ≡ true
      → found_key v (rounds m assignments rows out) ≡ true
  unfolding rounds round
  rounds-kept [] out v h = h
  rounds-kept (a ∷ rows) out v h =
      rounds-kept rows (round m assignments a out) v (elim (Bool-cases (a.imei == [])) [
        | inl e ↦ rw e h
        | inr e ↦ rw e ((clash_right a out (lookup a.vehicle_id out) refl).1 v h)
      ])

  rounds_complete :
      (rows : List TrackerAssignment) (out : Imeis) (a : TrackerAssignment)
      → IsIn a rows
      → (a.imei == []) ≡ false
      → found_key a.vehicle_id (rounds m assignments rows out) ≡ true
  unfolding rounds round
  rounds_complete [] out a i n = elim i [ ]
  rounds_complete (x ∷ rows) out a (inl q) n =
      subst
        (λ (y : TrackerAssignment).
          found_key y.vehicle_id (rounds m assignments rows (round m assignments x out)) ≡ true)
        (sym q)
        (rounds-kept rows (round m assignments x out) x.vehicle_id (
          rw (subst (λ (y : TrackerAssignment). (y.imei == []) ≡ false) q n)
            ((clash_right x out (lookup x.vehicle_id out) refl).2)))
  rounds_complete (x ∷ rows) out a (inr i) n =
      rounds_complete rows (round m assignments x out) a i n

  -- What a successful `IMEIsAt` read.
  rows_of :
      (company_id v : Text) (vehicle_ids : List Text) (at : ℕ) (out : Imeis)
      → imeis_at m assignments company_id (v ∷ vehicle_ids) at ≡ ok out
      → (rows : List TrackerAssignment) × (m.find
            (fitted_filter company_id (v ∷ vehicle_ids) at)
            assignments
          ≡ some rows)
        × (rounds m assignments rows [] ≡ out)
  unfolding imeis_at imeis_found
  rows_of company_id v vehicle_ids at out h =
      found (m.find (fitted_filter company_id (v ∷ vehicle_ids) at) assignments) refl h
    where
      found :
          (r : Option (List TrackerAssignment))
          → m.find (fitted_filter company_id (v ∷ vehicle_ids) at) assignments ≡ r
          → imeis_found m assignments r ≡ ok out
          → (rows : List TrackerAssignment) × (m.find
                (fitted_filter company_id (v ∷ vehicle_ids) at)
                assignments
              ≡ some rows)
            × (rounds m assignments rows [] ≡ out)
      found none q k = cc
      found (some rows) q k = (rows, q, cc)

  -- `IMEIsAt` gives a vehicle a device only where an assignment of the company, in force at the
  -- moment, puts that device on it.
  pub imeis_at_sound :
      (company_id v i : Text) (vehicle_ids : List Text) (at : ℕ) (out : Imeis)
      → imeis_at m assignments company_id vehicle_ids at ≡ ok out
      → lookup v out ≡ some i
      → (a : TrackerAssignment) × IsIn a assignments
        × (a.vehicle_id ≡ v)
        × (a.imei ≡ i)
        × (fitted_filter company_id vehicle_ids at a ≡ true)
  unfolding imeis_at lookup
  imeis_at_sound company_id v i [] at out h l =
      let e : [] ≡ out = cc in absurd (none-some (rw (sym e) at l))
    where
      none-some : lookup v [] ≡ some i → ⊥
      none-some q = cc
  imeis_at_sound company_id v i (w ∷ vs) at out h l =
      let (rows, q, e) = rows_of company_id w vs at out h in
      elim (rounds_sound rows [] v i (rw e l)) [
        | inl y ↦ absurd (ground arith)
        | inr (a, j, x, y, n) ↦
            let (g, f) = (m.find_lem (fitted_filter company_id (w ∷ vs) at) assignments q a).0 j in
            (a, g, x, y, f)
      ]

  -- Every vehicle that `IMEIsAt` is asked for, and that has an assignment of the company in force at
  -- the moment with an IMEI, gets one.
  pub imeis_at_complete :
      (company_id : Text) (vehicle_ids : List Text) (at : ℕ) (out : Imeis) (a : TrackerAssignment)
      → imeis_at m assignments company_id vehicle_ids at ≡ ok out
      → IsIn a assignments
      → fitted_filter company_id vehicle_ids at a ≡ true
      → a.imei ≢ []
      → (i : Text) × (lookup a.vehicle_id out ≡ some i)
  unfolding fitted_filter
  imeis_at_complete company_id [] at out a h i f n = absurd (no-vehicle f)
    where
      no-vehicle : fitted_filter company_id [] at a ≡ true → ⊥
      no-vehicle q = ground arith
  imeis_at_complete company_id (w ∷ vs) at out a h i f n =
      let (rows, q, e) = rows_of company_id w vs at out h in
      let j = (m.find_lem (fitted_filter company_id (w ∷ vs) at) assignments q a).1 (i, f) in
      key_value (lookup a.vehicle_id out)
        (subst (λ o. found_key a.vehicle_id o ≡ true) e (rounds_complete rows [] a j (blank n)))
    where
      key_value : (o : Option Text) → is_found o ≡ true → (i : Text) × (o ≡ some i)
      key_value none q = cc
      key_value (some i) q = (i, refl)

      blank : a.imei ≢ [] → (a.imei == []) ≡ false
      blank k = elim (Bool-cases (a.imei == [])) [
        | inl e ↦ absurd (k (==→eq a.imei [] e))
        | inr e ↦ e
      ]
