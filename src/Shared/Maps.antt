-- ===== src/Shared/Maps.antt =====
-- Go maps as association lists: reading, writing, and deleting the entries that pass a test.
use mathlib.Core.Bool.{Bool, false}
use mathlib.Core.List.{List, [], ◌∷◌}
use mathlib.Core.Logic.{◌≢◌, inl, inr}
use mathlib.Core.Option.{Option, none, some}
use mathlib.Core.Path.{◌≡◌, refl, ap, subst}
use native.Mathlib.Omega.{arith}
use master_data.Shared.Tests.{if◌then◌else◌, Bool-cases, Eq, ◌==◌, ==→eq}
use master_data.Shared.Lists.{All, exists}

abbrev pub drop_value {ℓ} : {V : Type ℓ} → (V → Bool) → Option V → Option V
drop_value p none = none
drop_value p (some v) = if p v then none else some v

abbrev drop_none {ℓ} : {V : Type ℓ} → V → Option V → V
drop_none w none = w
drop_none w (some v) = v

module _ {ℓ κ} {K : Type ℓ} {V : Type κ} ⦃e : Eq K⦄ where
  unfoldable pub lookup : K → List (K × V) → Option V
  lookup key [] = none
  lookup key ((other, value) ∷ entries) = if other == key then some value else lookup key entries

  unfoldable pub insert : K → V → List (K × V) → List (K × V)
  insert key value [] = (key, value) ∷ []
  insert key value ((other, old) ∷ entries) =
      if other == key then (key, value) ∷ entries else (other, old) ∷ insert key value entries

  -- `for k, v := range m { if p(v) { delete(m, k) } }`.
  unfoldable pub drop_if : (V → Bool) → List (K × V) → List (K × V)
  drop_if p [] = []
  drop_if p ((j, w) ∷ m) = if p w then drop_if p m else (j, w) ∷ drop_if p m

  -- No entry has this key.
  abbrev pub Lacks : K → List (K × V) → Type ℓ
  Lacks k m = All (λ b. b.0 ≢ k) m

  -- No two entries have the same key.
  abbrev pub Distinct : List (K × V) → Type ℓ
  Distinct [] = Unit
  Distinct (b ∷ m) = Lacks b.0 m × Distinct m

  pub lookup-insert :
      (key wanted : K) (value : V) (entries : List (K × V))
      → lookup wanted (insert key value entries)
        ≡ (if key == wanted then some value else lookup wanted entries)
  unfolding lookup insert
  lookup-insert key wanted value [] = refl
  lookup-insert key wanted value ((other, old) ∷ entries) = ground (
    arith,
    lookup-insert key wanted value entries,
    e.same_iff key wanted,
    e.same_iff other key,
    e.same_iff other wanted,
  )

  lookup-Lacks : (k : K) (m : List (K × V)) → Lacks k m → lookup k m ≡ none
  unfolding lookup
  lookup-Lacks k [] h = refl
  lookup-Lacks k ((i, w) ∷ m) (h, hs) = ground (arith, e.same_iff i k, lookup-Lacks k m hs)

  insert-Lacks : (k j : K) (v : V) (m : List (K × V)) → j ≢ k → Lacks k m → Lacks k (insert j v m)
  unfolding insert
  insert-Lacks k j v [] n h = (n, tt)
  insert-Lacks k j v ((i, w) ∷ m) n (h, hs) = ground (arith, insert-Lacks k j v m n hs)

  pub insert-Distinct : (k : K) (v : V) (m : List (K × V)) → Distinct m → Distinct (insert k v m)
  unfolding insert
  insert-Distinct k v [] h = (tt, tt)
  insert-Distinct k v ((i, w) ∷ m) (h, hs) =
      ground (arith, e.same_iff i k, insert-Distinct k v m hs, insert-Lacks i k v m, h)

  drop_if-Lacks : (p : V → Bool) (k : K) (m : List (K × V)) → Lacks k m → Lacks k (drop_if p m)
  unfolding drop_if
  drop_if-Lacks p k [] h = tt
  drop_if-Lacks p k ((i, w) ∷ m) (h, hs) = ground (arith, drop_if-Lacks p k m hs)

  pub drop_if-Distinct : (p : V → Bool) (m : List (K × V)) → Distinct m → Distinct (drop_if p m)
  unfolding drop_if
  drop_if-Distinct p [] h = tt
  drop_if-Distinct p ((i, w) ∷ m) (h, hs) =
      ground (arith, drop_if-Distinct p m hs, drop_if-Lacks p i m h)

  pub lookup-drop_if :
      (p : V → Bool) (k : K) (m : List (K × V))
      → Distinct m
      → lookup k (drop_if p m) ≡ drop_value p (lookup k m)
  unfolding lookup drop_if
  lookup-drop_if p k [] h = refl
  lookup-drop_if p k ((i, w) ∷ m) (h, hs) = ground (
    arith,
    e.same_iff i k,
    lookup-drop_if p k m hs,
    lookup-Lacks i m h,
    lookup-Lacks k m,
    lookup-Lacks i (drop_if p m) (drop_if-Lacks p i m h),
  )

  -- What holds of every entry holds of one that is found.
  pub lookup-All {μ} :
      (P : K → V → Type μ) (k : K) (v : V) (m : List (K × V))
      → lookup k m ≡ some v
      → All (λ b. P b.0 b.1) m
      → P k v
  unfolding lookup
  lookup-All P k v [] h a = cc
  lookup-All P k v ((j, w) ∷ m) h (p, a) = elim (Bool-cases (j == k)) [
    | inl e ↦
        let y = rw e at h in
        let z : w ≡ v = ap (λ r. drop_none w r) y in
        subst (λ x. P k x) z (subst (λ x. P x w) (==→eq j k e) p)
    | inr e ↦ let y = rw e at h in lookup-All P k v m y a
  ]

  pub insert-All {μ} :
      (P : K × V → Type μ) (k : K) (v : V) (m : List (K × V))
      → P (k, v)
      → All P m
      → All P (insert k v m)
  unfolding insert
  insert-All P k v [] p a = (p, tt)
  insert-All P k v ((j, w) ∷ m) p (q, a) = elim (Bool-cases (j == k)) [
    | inl e ↦ rw e (p, a)
    | inr e ↦ rw e (q, insert-All P k v m p a)
  ]

  -- A key that is found fails a test that every key fails.
  pub lookup-untested :
      (test : K → Bool) (k : K) (v : V) (m : List (K × V))
      → lookup k m ≡ some v
      → exists (λ b. test b.0) m ≡ false
      → test k ≡ false
  unfolding lookup
  lookup-untested test k v [] h n = cc
  lookup-untested test k v ((j, w) ∷ m) h n = elim (Bool-cases (j == k)) [
    | inl e ↦ subst (λ x. test x ≡ false) (==→eq j k e) (ground arith)
    | inr e ↦ let y = rw e at h in lookup-untested test k v m y (ground arith)
  ]
