-- ===== src/Mongo.antt =====
-- The MongoDB driver, which is not part of the repository: an interface of the calls that the code
-- makes, with what their documentation promises. A collection is the list of its documents, a
-- filter the test that it stands for; `none` and `failed` are an error of the driver.
pub mod Memory
pub mod Counts
use master_data.Shared.{
  ℕ, ◌≤◌, ◌≡◌, ◌↔◌, ◌⊎◌, Bool, true, false, not, Option, none, some, List, [], ◌∷◌, ◌++◌, keep,
  tally, exists, alter, Text, trim_space,
}

pub data Inserted (D : Type 0) : Type 0 where
  inserted : List D → Inserted D
  duplicate failed : Inserted D

-- A document stands in a collection.
abbrev pub IsIn : {D : Type 0} → D → List D → Type 0
IsIn d [] = ⊥
IsIn d (x ∷ xs) = (d ≡ x) ⊎ IsIn d xs

pub record Mongo : Type 1 where
  pub find_one : {D : Type 0} → (D → Bool) → List D → Option (Option D)
  pub find : {D : Type 0} → (D → Bool) → List D → Option (List D)
  pub count_documents : {D : Type 0} → (D → Bool) → List D → Option ℕ
  pub distinct : {D A : Type 0} → (D → A) → (D → Bool) → List D → Option (List A)
  pub insert_one : {D : Type 0} → D → List D → Inserted D
  -- The number of the documents that match, and the collection after the write.
  pub update_one : {D : Type 0} → (D → Bool) → (D → D) → List D → Option (ℕ × List D)
  pub update_many : {D : Type 0} → (D → Bool) → (D → D) → List D → Option (ℕ × List D)
  pub replace_one : {D : Type 0} → (D → Bool) → D → List D → Option (ℕ × List D)
  pub delete_many : {D : Type 0} → (D → Bool) → List D → Option (List D)
  -- `ObjectID.Hex` and `ObjectIDFromHex`.
  pub hex : ℕ → Text
  pub from_hex : Text → Option ℕ
  -- What the calls promise when they succeed.
  pub find_one-some :
      {D : Type 0} (p : D → Bool) (ds : List D) {d : D}
      → find_one p ds ≡ some (some d)
      → IsIn d ds × (p d ≡ true)
  pub find_one-none :
      {D : Type 0} (p : D → Bool) (ds : List D) → find_one p ds ≡ some none → exists p ds ≡ false
  pub find_lem :
      {D : Type 0} (p : D → Bool) (ds : List D) {r : List D}
      → find p ds ≡ some r
      → (d : D) → IsIn d r ↔ (IsIn d ds × (p d ≡ true))
  pub count_lem :
      {D : Type 0} (p : D → Bool) (ds : List D) {n : ℕ}
      → count_documents p ds ≡ some n
      → n ≡ tally p ds
  pub distinct_lem :
      {D A : Type 0} (f : D → A) (p : D → Bool) (ds : List D) {r : List A}
      → distinct f p ds ≡ some r
      → (d : D) → IsIn d ds
      → p d ≡ true
      → IsIn (f d) r
  pub insert_lem :
      {D : Type 0} (d : D) (ds : List D) {r : List D}
      → insert_one d ds ≡ inserted r
      → r ≡ ds ++ d ∷ []
  pub update_one_lem :
      {D : Type 0} (p : D → Bool) (f : D → D) (ds : List D) {n : ℕ} {r : List D}
      → update_one p f ds ≡ some (n, r)
      → tally p ds ≤ 1
      → (n ≡ tally p ds) × (r ≡ alter p f ds)
  pub update_many_lem :
      {D : Type 0} (p : D → Bool) (f : D → D) (ds : List D) {n : ℕ} {r : List D}
      → update_many p f ds ≡ some (n, r)
      → (n ≡ tally p ds) × (r ≡ alter p f ds)
  pub replace_one_lem :
      {D : Type 0} (p : D → Bool) (d : D) (ds : List D) {n : ℕ} {r : List D}
      → replace_one p d ds ≡ some (n, r)
      → tally p ds ≤ 1
      → (n ≡ tally p ds) × (r ≡ alter p (λ _. d) ds)
  pub delete_many_lem :
      {D : Type 0} (p : D → Bool) (ds : List D) {r : List D}
      → delete_many p ds ≡ some r
      → r ≡ keep (λ d. not (p d)) ds
  pub from_hex-hex : (o : ℕ) → from_hex (hex o) ≡ some o
  -- 24 hexadecimal digits: there is nothing to trim.
  pub trim_space-hex : (o : ℕ) → trim_space (hex o) ≡ hex o

-- What a deployment makes of a transaction: no session, no support, a commit, or a failing commit.
pub data Deployment : Type 0 where
  no_session unsupported commits aborts : Deployment
