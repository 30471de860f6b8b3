-- ===== src/Revocation/Pruning.antt =====
-- `Prune` forgets only what no token needs.
use master_data.Shared.{
  ℕ, ◌-◌, ◌≤◌, ◌≡◌, refl, Option, none, some, List, [], ◌∷◌, arith, ltb, nat_eq, text_eq, Text,
  lookup, Distinct, lookup-drop_if, drop_value, insert-Distinct, drop_if-Distinct,
}
use master_data.Revocation.{
  Kind, session, user, company, unknown, Event, Revocations, issued_before, ended, revoked, later,
  by_kind, apply, apply_all, prune,
}

-- The maps have one entry for a key.
pub record IsValid (l : Revocations) : Type 0 where
  pub sessions_distinct : Distinct l.sessions
  pub users_distinct : Distinct l.users
  pub companies_distinct : Distinct l.companies

later-Distinct :
    (id : Text) (at : ℕ) (o : Option ℕ) (m : List (Text × ℕ))
    → Distinct m
    → Distinct (later id at o m)
unfolding later
later-Distinct id at none m h = insert-Distinct id at m h
later-Distinct id at (some cur) m h = ground (arith, insert-Distinct id at m h)

by_kind-IsValid : (k : Kind) (l : Revocations) (e : Event) → IsValid l → IsValid (by_kind k l e)
unfolding by_kind
by_kind-IsValid session l e v = record {
  sessions_distinct = insert-Distinct e.id e.at l.sessions v.sessions_distinct;
  users_distinct = v.users_distinct;
  companies_distinct = v.companies_distinct;
}
by_kind-IsValid user l e v = record {
  sessions_distinct = v.sessions_distinct;
  users_distinct = later-Distinct e.id e.at (lookup e.id l.users) l.users v.users_distinct;
  companies_distinct = v.companies_distinct;
}
by_kind-IsValid company l e v = record {
  sessions_distinct = v.sessions_distinct;
  users_distinct = v.users_distinct;
  companies_distinct =
      later-Distinct e.id e.at (lookup e.id l.companies) l.companies v.companies_distinct;
}
by_kind-IsValid (unknown k) l e v = v

pub apply_all-IsValid : (l : Revocations) (es : List Event) → IsValid l → IsValid (apply_all l es)
unfolding apply_all apply
apply_all-IsValid l [] v = v
apply_all-IsValid l (e ∷ es) v = apply_all-IsValid (apply l e) es (by_kind-IsValid e.kind l e v)

prune-IsValid : (now life : ℕ) (l : Revocations) → IsValid l → IsValid (prune now life l)
unfolding prune
prune-IsValid now life l v = record {
  sessions_distinct = drop_if-Distinct _ l.sessions v.sessions_distinct;
  users_distinct = drop_if-Distinct _ l.users v.users_distinct;
  companies_distinct = drop_if-Distinct _ l.companies v.companies_distinct;
}

-- A session entry is not older than the token: a session ends after its token was issued.
abbrev EndedAfter : ℕ → Option ℕ → Type 0
EndedAfter issued_at none = Unit
EndedAfter issued_at (some at) = issued_at ≤ at

issued_before-drop :
    (cutoff issued_at : ℕ) (o : Option ℕ)
    → cutoff ≤ issued_at
    → issued_before issued_at (drop_value (λ at. ltb at cutoff) o) ≡ issued_before issued_at o
unfolding issued_before
issued_before-drop cutoff issued_at none h = refl
issued_before-drop cutoff issued_at (some at) h = ground arith

ended-drop :
    (cutoff issued_at : ℕ) (o : Option ℕ)
    → cutoff ≤ issued_at
    → EndedAfter issued_at o
    → ended (drop_value (λ at. ltb at cutoff) o) ≡ ended o
unfolding ended
ended-drop cutoff issued_at none h a = refl
ended-drop cutoff issued_at (some at) h a = ground arith

-- Pruning keeps the maps' keys distinct and changes the answer for no token that is still alive:
-- one issued within the longest token life, and not after its own session was ended.
pub revoked-prune :
    (now life : ℕ) (l : Revocations) (s u c : Text) (issued_at : ℕ)
    → IsValid l
    → now - life ≤ issued_at
    → EndedAfter issued_at (lookup s l.sessions)
    → IsValid (prune now life l)
      × (revoked (prune now life l) s u c issued_at ≡ revoked l s u c issued_at)
revoked-prune now life l s u c i v alive after = (
  prune-IsValid now life l v,
  unfold prune revoked in
      rw (
        lookup-drop_if (λ at. ltb at (now - life)) s l.sessions v.sessions_distinct,
        lookup-drop_if (λ at. ltb at (now - life)) u l.users v.users_distinct,
        lookup-drop_if (λ at. ltb at (now - life)) c l.companies v.companies_distinct,
        ended-drop (now - life) i (lookup s l.sessions) alive after,
        issued_before-drop (now - life) i (lookup u l.users) alive,
        issued_before-drop (now - life) i (lookup c l.companies) alive,
      ),
)
