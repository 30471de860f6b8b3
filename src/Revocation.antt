-- ===== src/Revocation.antt =====
-- internal/platform/revocation/revocation.go: the list of ended sessions and of cut-off times that
-- each service keeps. A time is a number of nanoseconds since the zero time; a time of the
-- announcement is before another by `ltb`.
pub mod History
pub mod Pruning
mod Tests
use master_data.Shared.{
  ℕ, ◌-◌, Bool, true, false, not, ◌&&◌, Option, none, some, List, [], ◌∷◌, ltb, if◌then◌else◌, ◌==◌,
  nat_eq, text_eq, length, Text, lookup, insert, drop_if,
}

pub data Kind : Type 0 where
  session user company : Kind
  unknown : Text → Kind

pub record Event : Type 0 where
  pub kind : Kind
  pub id : Text
  pub at : ℕ

-- `List`.
pub record Revocations : Type 0 where
  pub sessions : List (Text × ℕ)
  pub users : List (Text × ℕ)
  pub companies : List (Text × ℕ)
  pub degraded : Bool

unfoldable pub new_list : Revocations
new_list = record { sessions = []; users = []; companies = []; degraded = false }

-- `cutoff, ok := m[id]; ok && issuedAt.Before(cutoff)`.
issued_before : ℕ → Option ℕ → Bool
issued_before issued_at none = false
issued_before issued_at (some cutoff) = ltb issued_at cutoff

ended : Option ℕ → Bool
ended none = false
ended (some at) = true

unfoldable pub revoked : Revocations → Text → Text → Text → ℕ → Bool
unfolding issued_before ended
revoked l session_id user_id company_id issued_at =
    if not (session_id == []) && ended (lookup session_id l.sessions)
    then true
    else if not (user_id == []) && issued_before issued_at (lookup user_id l.users)
    then true
    else if not (company_id == []) && issued_before issued_at (lookup company_id l.companies)
    then true
    else false

-- The later of two cut-offs is kept.
later : Text → ℕ → Option ℕ → List (Text × ℕ) → List (Text × ℕ)
later id at none m = insert id at m
later id at (some cur) m = if ltb cur at then insert id at m else m

by_kind : Kind → Revocations → Event → Revocations
unfolding later
by_kind session l e = record l { sessions = insert e.id e.at l.sessions }
by_kind user l e = record l { users = later e.id e.at (lookup e.id l.users) l.users }
by_kind company l e = record l { companies = later e.id e.at (lookup e.id l.companies) l.companies }
by_kind (unknown k) l e = l

unfoldable pub apply : Revocations → Event → Revocations
unfolding by_kind
apply l e = by_kind e.kind l e

-- `for _, e := range events { fresh.Apply(e) }`.
unfoldable pub apply_all : Revocations → List Event → Revocations
apply_all l [] = l
apply_all l (e ∷ es) = apply_all (apply l e) es

unfoldable pub replace : Revocations → List Event → Revocations
replace l events =
    let fresh = apply_all new_list events in
    record l {
      sessions = fresh.sessions;
      users = fresh.users;
      companies = fresh.companies;
      degraded = false;
    }

-- `now` is the clock's reading.
unfoldable pub prune : ℕ → ℕ → Revocations → Revocations
prune now max_token_life l =
    let cutoff = now - max_token_life in
    record l {
      sessions = drop_if (λ at. ltb at cutoff) l.sessions;
      users = drop_if (λ at. ltb at cutoff) l.users;
      companies = drop_if (λ at. ltb at cutoff) l.companies;
    }

unfoldable pub mark_degraded : Revocations → Revocations
mark_degraded l = record l { degraded = true }

unfoldable pub size : Revocations → record { sessions : ℕ; users : ℕ; companies : ℕ }
size l = record {
  sessions = length l.sessions;
  users = length l.users;
  companies = length l.companies;
}
