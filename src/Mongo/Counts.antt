-- ===== src/Mongo/Counts.antt =====
-- Counting the documents that pass a filter, before and after a write.
use master_data.Shared.{
  ◌+◌, ◌≤◌, ◌<◌, ◌≡◌, refl, sym, ap, subst, ◌∙◌, inl, inr, Bool, true, false, not, ◌&&◌, List, [],
  ◌∷◌, ◌++◌, arith, if◌then◌else◌, Bool-cases, keep, tally, alter, All,
}
use master_data.Mongo.{IsIn}

pub tally_pos :
    {A : Type 0} (p : A → Bool) (xs : List A) (a : A) → IsIn a xs → p a ≡ true → 0 < tally p xs
tally_pos p [] a i e = elim i [ ]
tally_pos p (x ∷ xs) a (inl q) e = let e' = subst (λ z. p z ≡ true) q e in ground arith
tally_pos p (x ∷ xs) a (inr i) e = omega (arith, tally_pos p xs a i e)

pub IsIn-added : {A : Type 0} (xs : List A) (a : A) → IsIn a (xs ++ a ∷ [])
IsIn-added [] a = inl refl
IsIn-added (x ∷ xs) a = inr (IsIn-added xs a)

pub IsIn-append : {A : Type 0} (xs ys : List A) (a : A) → IsIn a xs → IsIn a (xs ++ ys)
IsIn-append [] ys a i = elim i [ ]
IsIn-append (x ∷ xs) ys a (inl q) = inl q
IsIn-append (x ∷ xs) ys a (inr i) = inr (IsIn-append xs ys a i)

pub IsIn-after : {A : Type 0} (xs ys : List A) (a : A) → IsIn a ys → IsIn a (xs ++ ys)
IsIn-after [] ys a i = i
IsIn-after (x ∷ xs) ys a i = inr (IsIn-after xs ys a i)

pub IsIn-All : {A : Type 0} (P : A → Type 0) (xs : List A) → ((a : A) → IsIn a xs → P a) → All P xs
IsIn-All P [] h = tt
IsIn-All P (x ∷ xs) h = (h x (inl refl), IsIn-All P xs (λ a i. h a (inr i)))

module _ {A : Type 0} where
  pub tally-le :
      (p q : A → Bool) (xs : List A) → ((a : A) → p a ≡ true → q a ≡ true) → tally p xs ≤ tally q xs
  tally-le p q [] h = omega arith
  tally-le p q (x ∷ xs) h = ground (arith, h x, tally-le p q xs h)

  pub tally-replace :
      (p q : A → Bool) (d : A) (xs : List A)
      → tally p (alter q (λ _. d) xs)
        ≡ tally (λ x. p x && not (q x)) xs + (if p d then tally q xs else 0)
  tally-replace p q d [] = ground arith
  tally-replace p q d (x ∷ xs) = ground (arith, tally-replace p q d xs)

  -- One element passes, so what is not it does not.
  pub tally-other :
      (p q : A → Bool) (xs : List A) (a : A)
      → IsIn a xs
      → p a ≡ true
      → q a ≡ true
      → tally p xs ≤ 1
      → tally (λ x. p x && not (q x)) xs ≡ 0
  tally-other p q [] a i e f t = elim i [ ]
  tally-other p q (x ∷ xs) a (inl r) e f t =
      let e' = subst (λ z. p z ≡ true) r e in
      let f' = subst (λ z. q z ≡ true) r f in
      ground (arith, tally-le (λ y. p y && not (q y)) p xs (λ y h. ground arith))
  tally-other p q (x ∷ xs) a (inr i) e f t =
      let z = tally-other p q xs a i e f (ground arith) in
      let y = tally_pos p xs a i e in ground arith

  pub tally-alter-same :
      (p q : A → Bool) (f : A → A) (xs : List A)
      → ((a : A) → p (f a) ≡ p a)
      → tally p (alter q f xs) ≡ tally p xs
  tally-alter-same p q f [] h = refl
  tally-alter-same p q f (x ∷ xs) h = ground (arith, h x, tally-alter-same p q f xs h)

  pub tally-alter-le :
      (p q : A → Bool) (f : A → A) (xs : List A)
      → ((a : A) → p (f a) ≡ false)
      → tally p (alter q f xs) ≤ tally p xs
  tally-alter-le p q f [] h = omega arith
  tally-alter-le p q f (x ∷ xs) h = ground (arith, h x, tally-alter-le p q f xs h)

  pub tally-alter-zero :
      (p : A → Bool) (f : A → A) (xs : List A)
      → ((a : A) → p (f a) ≡ false)
      → tally p (alter p f xs) ≡ 0
  tally-alter-zero p f [] h = refl
  tally-alter-zero p f (x ∷ xs) h = ground (arith, h x, tally-alter-zero p f xs h)

pub tally-never :
    {A : Type 0} (p : A → Bool) (xs : List A) → ((a : A) → p a ≡ false) → tally p xs ≡ 0
tally-never p [] h = refl
tally-never p (x ∷ xs) h = ground (arith, h x, tally-never p xs h)

-- Two elements that pass a test that only one may pass.
pub tally-same :
    {A : Type 0} (p : A → Bool) (xs : List A) (a b : A)
    → IsIn a xs
    → IsIn b xs
    → p a ≡ true
    → p b ≡ true
    → tally p xs ≤ 1
    → a ≡ b
tally-same p [] a b i j e f u = elim i [ ]
tally-same p (x ∷ xs) a b (inl q) (inl r) e f u = q ∙ sym r
tally-same p (x ∷ xs) a b (inl q) (inr j) e f u =
    let k = tally_pos p xs b j f in let e' = subst (λ z. p z ≡ true) q e in absurd (ground arith)
tally-same p (x ∷ xs) a b (inr i) (inl r) e f u =
    let k = tally_pos p xs a i e in let f' = subst (λ z. p z ≡ true) r f in absurd (ground arith)
tally-same p (x ∷ xs) a b (inr i) (inr j) e f u = tally-same p xs a b i j e f (omega arith)

pub keep-alter :
    {A : Type 0} (p q : A → Bool) (f : A → A) (xs : List A)
    → ((a : A) → IsIn a xs → q a ≡ true → (p a ≡ false) × (p (f a) ≡ false))
    → keep p (alter q f xs) ≡ keep p xs
keep-alter p q f [] h = refl
keep-alter p q f (x ∷ xs) h =
    let ih = keep-alter p q f xs (λ a i. h a (inr i)) in
    elim (Bool-cases (q x)) [
      | inl e ↦ let k = h x (inl refl) e in rw (e, k.0, k.1) ih
      | inr e ↦
          rw e (elim (Bool-cases (p x)) [ inl g ↦ rw g (ap (λ r. x ∷ r) ih) | inr g ↦ rw g ih ])
    ]

-- Keeping what passes a narrower test.
pub keep-narrow :
    {A : Type 0} (p q : A → Bool) (xs : List A)
    → ((a : A) → p a ≡ true → q a ≡ true)
    → keep p (keep q xs) ≡ keep p xs
keep-narrow p q [] h = refl
keep-narrow p q (x ∷ xs) h = ground (arith, h x, keep-narrow p q xs h)

pub tally-narrow :
    {A : Type 0} (p q : A → Bool) (xs : List A)
    → ((a : A) → p a ≡ true → q a ≡ true)
    → tally p (keep q xs) ≡ tally p xs
tally-narrow p q [] h = refl
tally-narrow p q (x ∷ xs) h = ground (arith, h x, tally-narrow p q xs h)

pub IsIn-keep :
    {A : Type 0} (p : A → Bool) (xs : List A) (a : A) → IsIn a xs → p a ≡ true → IsIn a (keep p xs)
IsIn-keep p [] a i h = i
IsIn-keep p (x ∷ xs) a (inl e) h = let h' = subst (λ z. p z ≡ true) e h in rw h' (inl e)
IsIn-keep p (x ∷ xs) a (inr i) h = elim (Bool-cases (p x)) [
  | inl e ↦ rw e (inr (IsIn-keep p xs a i h))
  | inr e ↦ rw e (IsIn-keep p xs a i h)
]

pub kept-IsIn :
    {A : Type 0} (p : A → Bool) (xs : List A) (a : A)
    → IsIn a (keep p xs)
    → IsIn a xs × (p a ≡ true)
kept-IsIn p [] a i = elim i [ ]
kept-IsIn p (x ∷ xs) a i = elim (Bool-cases (p x)) [
  | inr e ↦ let z = rw e at i in let (j, q) = kept-IsIn p xs a z in (inr j, q)
  | inl e ↦
      let z = rw e at i in
      elim z [
        | inl q ↦ (inl q, subst (λ y. p y ≡ true) (sym q) e)
        | inr j ↦ let (k, q) = kept-IsIn p xs a j in (inr k, q)
      ]
]
