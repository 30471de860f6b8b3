-- ===== src/Revocation/History.antt =====
-- What the list answers after a history of announcements.
use master_data.Shared.{
  ℕ, ◌≡◌, refl, Bool, false, not, ◌&&◌, ◌||◌, List, [], ◌∷◌, ◌++◌, arith, ltb, ◌==◌, nat_eq,
  text_eq, exists, exists-append, Text, text_beq_iff, lookup, insert, lookup-insert,
}
use master_data.Revocation.{
  Kind, session, user, company, unknown, Event, Revocations, new_list, issued_before, ended,
  revoked, later, by_kind, apply, apply_all, replace,
}

-- Whether one announcement ends a token, read off the announcement alone.
abbrev ends_by : Kind → Text → ℕ → Text → Text → Text → ℕ → Bool
ends_by session id at s u c issued_at = not (s == []) && id == s
ends_by user id at s u c issued_at = not (u == []) && id == u && ltb issued_at at
ends_by company id at s u c issued_at = not (c == []) && id == c && ltb issued_at at
ends_by (unknown k) id at s u c issued_at = false

abbrev pub ends : Text → Text → Text → ℕ → Event → Bool
ends s u c issued_at e = ends_by e.kind e.id e.at s u c issued_at

issued_before-later :
    (id u : Text) (at issued_at : ℕ) (m : List (Text × ℕ))
    → issued_before issued_at (lookup u (later id at (lookup id m) m))
      ≡ (issued_before issued_at (lookup u m) || (id == u && ltb issued_at at))
unfolding issued_before later
issued_before-later id u at issued_at m = ground (arith, lookup-insert id u at m, text_beq_iff id u)

ended-insert :
    (id s : Text) (at : ℕ) (m : List (Text × ℕ))
    → ended (lookup s (insert id at m)) ≡ (ended (lookup s m) || id == s)
unfolding ended
ended-insert id s at m = ground (arith, lookup-insert id s at m)

revoked-by_kind :
    (k : Kind) (l : Revocations) (e : Event) (s u c : Text) (issued_at : ℕ)
    → revoked (by_kind k l e) s u c issued_at
      ≡ (revoked l s u c issued_at || ends_by k e.id e.at s u c issued_at)
revoked-by_kind session l e s u c i =
    unfold by_kind revoked in ground (arith, ended-insert e.id s e.at l.sessions)
revoked-by_kind user l e s u c i =
    unfold by_kind revoked in ground (arith, issued_before-later e.id u e.at i l.users)
revoked-by_kind company l e s u c i =
    unfold by_kind revoked in ground (arith, issued_before-later e.id c e.at i l.companies)
revoked-by_kind (unknown k) l e s u c i = unfold by_kind revoked in ground arith

revoked-apply :
    (l : Revocations) (e : Event) (s u c : Text) (issued_at : ℕ)
    → revoked (apply l e) s u c issued_at ≡ (revoked l s u c issued_at || ends s u c issued_at e)
unfolding apply
revoked-apply l e = revoked-by_kind e.kind l e

revoked-apply_all :
    (l : Revocations) (es : List Event) (s u c : Text) (issued_at : ℕ)
    → revoked (apply_all l es) s u c issued_at
      ≡ (revoked l s u c issued_at || exists (ends s u c issued_at) es)
unfolding apply_all
revoked-apply_all l [] s u c i = ground arith
revoked-apply_all l (e ∷ es) s u c i =
    ground (arith, revoked-apply_all (apply l e) es s u c i, revoked-apply l e s u c i)

revoked-new_list : (s u c : Text) (issued_at : ℕ) → revoked new_list s u c issued_at ≡ false
unfolding new_list revoked lookup
revoked-new_list s u c i = ground arith

revoked-replace_fresh :
    (l : Revocations) (es : List Event) (s u c : Text) (issued_at : ℕ)
    → revoked (replace l es) s u c issued_at ≡ revoked (apply_all new_list es) s u c issued_at
unfolding replace revoked
revoked-replace_fresh l es s u c i = refl

-- After a resync with `es` and then the announcements `more`, a token is refused exactly when one
-- of these announcements ends it: its own session, or a cut-off for its user or its company that
-- lies after its issue. Announcements before the resync and unknown kinds play no part.
pub revoked-replace :
    (l : Revocations) (es more : List Event) (s u c : Text) (issued_at : ℕ)
    → revoked (apply_all (replace l es) more) s u c issued_at
      ≡ exists (ends s u c issued_at) (es ++ more)
revoked-replace l es more s u c i = ground (
  arith,
  revoked-apply_all (replace l es) more s u c i,
  revoked-replace_fresh l es s u c i,
  revoked-apply_all new_list es s u c i,
  revoked-new_list s u c i,
  exists-append (ends s u c i) es more,
)
