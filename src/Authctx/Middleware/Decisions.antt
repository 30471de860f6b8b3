-- ===== src/Authctx/Middleware/Decisions.antt =====
-- What the middleware lets in.
use master_data.Shared.{
  ℕ, ◌≡◌, refl, sym, ap, ◌∙◌, ◌≢◌, ◌⊎◌, inl, inr, Bool, true, false, not, Option, none, some, List,
  [], ◌∷◌, ◌++◌, arith, if◌then◌else◌, Bool-cases, ◌==◌, nat_eq, text_eq, ==_refl, ==→eq, exists,
  contains, Text,
}
use master_data.Authctx.{Principal, has_permission}
use master_data.Revocation.{Revocations, Event, apply_all, replace}
use master_data.Revocation.History.{ends, revoked-replace}
use master_data.Authctx.Middleware.{
  Answer, passed, unauthorized, access_denied, malformed, TokenParser, verify, require_auth, decide,
  is_revoked, ask_remote, remote_answer, cut, put_before, has_module, module_answer, require_module,
  Metadata, strip_bearer,
}

-- A signed token gets in as the principal that it names exactly when none of the announcements that
-- the service has seen, since its last resync with `es`, ends it: its session, or a cut-off for its
-- user or its company after its issue. That is so whatever the remote validator says, for a token
-- that is not of a single device.
pub require_auth-ends :
    (parse : TokenParser) (remote : Option (Text → Option Principal)) (l : Revocations)
    (es more : List Event) (token : Text) (p : Principal) (issued_at : ℕ)
    → token ≢ []
    → verify parse token ≡ some (p, issued_at)
    → p.single_device ≡ false
    → require_auth parse remote (some (apply_all (replace l es) more)) token ≡ (
        if exists (ends p.token_id p.user_id p.company_id issued_at) (es ++ more)
        then unauthorized
        else passed p)
unfolding require_auth decide is_revoked
require_auth-ends parse remote l es more token p issued_at n v d =
    rw
      (
        not-blank token n,
        v,
        d,
        revoked-replace l es more p.token_id p.user_id p.company_id issued_at,
      )
      refl
  where
    not-blank : (t : Text) → t ≢ [] → (t == []) ≡ false
    not-blank t q = elim (Bool-cases (t == [])) [ inl e ↦ absurd (q (==→eq t [] e)) | inr e ↦ e ]

-- A token of a single device, and one that no key of ours has signed, get in only by the remote
-- validator, as the principal that it names: without a validator they do not get in.
pub require_auth-remote :
    (parse : TokenParser) (remote : Option (Text → Option Principal)) (list : Option Revocations)
    (token : Text) (p q : Principal) (issued_at : ℕ)
    → (verify parse token ≡ none)
      ⊎ ((verify parse token ≡ some (q, issued_at)) × (q.single_device ≡ true))
    → require_auth parse remote list token ≡ passed p
    → (validate : Text → Option Principal) × (remote ≡ some validate) × (validate token ≡ some p)
unfolding require_auth decide ask_remote
require_auth-remote parse remote list token p q issued_at v h = elim (Bool-cases (token == [])) [
  | inl e ↦ let z = rw e at h in cc
  | inr e ↦ let z = rw e at h in by_verdict v z
]
  where
    answered : (r : Option Principal) → remote_answer r ≡ passed p → r ≡ some p
    answered none k = cc
    answered (some x) k = cc

    asked :
        (r : Option (Text → Option Principal))
        → ask_remote r token ≡ passed p
        → (validate : Text → Option Principal) × (r ≡ some validate) × (validate token ≡ some p)
    asked none k = cc
    asked (some validate) k = (validate, refl, answered (validate token) k)

    by_verdict :
        ((verify parse token ≡ none)
          ⊎ ((verify parse token ≡ some (q, issued_at)) × (q.single_device ≡ true)))
        → decide remote list token (verify parse token) ≡ passed p
        → (validate : Text → Option Principal) × (remote ≡ some validate)
          × (validate token ≡ some p)
    by_verdict (inl e) k = asked remote (rw e at k)
    by_verdict (inr (e, s)) k = asked remote (rw (e, s) at k)

-- What `Cut` parts is the text again with the separator between.
cut-join :
    (sep : ℕ) (s before after : Text) → cut sep s ≡ some (before, after) → s ≡ before ++ sep ∷ after
unfolding cut
cut-join sep [] before after h = cc
cut-join sep (c ∷ s) before after h = elim (Bool-cases (c == sep)) [
  | inl e ↦
      let z = rw e at h in
      let k = ==→eq c sep e in
      let b : before ≡ [] = cc in let a : s ≡ after = cc in rw (k, b, a) refl
  | inr e ↦ let z = rw e at h in behind (λ b a q. cut-join sep s b a q) (cut sep s) refl z
]
  where
    behind :
        ((b a : Text) → cut sep s ≡ some (b, a) → s ≡ b ++ sep ∷ a)
        → (r : Option (Text × Text)) → cut sep s ≡ r
        → put_before c r ≡ some (before, after)
        → c ∷ s ≡ before ++ sep ∷ after
    behind ih none q k = cc
    behind ih (some (b, a)) q k =
        let x : before ≡ c ∷ b = cc in
        let y : a ≡ after = cc in rw x (ap (λ r. c ∷ r) (ih b a q ∙ ap (λ z. b ++ sep ∷ z) y))

cut-none : (sep : ℕ) (s : Text) → cut sep s ≡ none → contains s sep ≡ false
unfolding cut put_before
cut-none sep [] h = refl
cut-none sep (c ∷ s) h = ground (arith, cut-none sep s)

cut-some :
    (sep : ℕ) (s before after : Text) → cut sep s ≡ some (before, after) → contains s sep ≡ true
cut-some sep s before after h = rw (cut-join sep s before after h) (has_middle before)
  where
    has_middle : (b : Text) → contains (b ++ sep ∷ after) sep ≡ true
    has_middle [] = ground (arith, ==_refl sep)
    has_middle (c ∷ b) = ground (arith, has_middle b)

-- The answer of a test on the caller.
pub gate_answer : (Principal → Bool) → Option Principal → Answer
gate_answer test none = unauthorized
gate_answer test (some p) = if test p then passed p else access_denied

not-if : (b : Bool) (x y : Answer) → (if not b then x else y) ≡ (if b then y else x)
not-if true x y = refl
not-if false x y = refl

-- `RequireModule` with a permission that has a dot is `HasPermission` in the service's product, for
-- the permission as it is written; without a caller it answers 401, and without a dot 500.
pub require_module_lem :
    (service_product permission : Text) (ctx : Option Principal)
    → require_module service_product permission ctx ≡ (
        if contains permission b'.'
        then gate_answer (λ p. has_permission p service_product permission) ctx
        else malformed)
unfolding require_module module_answer has_module gate_answer
require_module_lem service_product permission ctx = by_cut (cut b'.' permission) refl ctx
  where
    by_cut :
        (r : Option (Text × Text))
        → cut b'.' permission ≡ r
        → (ctx : Option Principal)
        → module_answer service_product r ctx ≡ (
            if contains permission b'.'
            then gate_answer (λ p. has_permission p service_product permission) ctx
            else malformed)
    by_cut none e c = rw (cut-none b'.' permission e) refl
    by_cut (some (m, a)) e none = rw (cut-some b'.' permission m a e) refl
    by_cut (some (m, a)) e (some p) = rw (cut-some b'.' permission m a e) (
        not-if (has_permission p service_product (m ++ b'.' ∷ a)) access_denied (passed p)
        ∙ ap (λ z. if has_permission p service_product z then passed p else access_denied)
            (sym (cut-join b'.' permission m a e)))

-- Where the principal of a call comes from: the first authorization, verified.
pub data Named (parser : Option TokenParser) (md : Metadata) : Option Principal → Type 0 where
  nobody : (parser ≡ none) ⊎ (md.authorization ≡ []) → Named parser md none
  unverified :
      (parse : TokenParser) (t : Text) (rest : List Text)
      → parser ≡ some parse
      → md.authorization ≡ t ∷ rest
      → verify parse (strip_bearer t) ≡ none
      → Named parser md none
  named :
      (parse : TokenParser) (t : Text) (rest : List Text) (p : Principal) (issued_at : ℕ)
      → parser ≡ some parse
      → md.authorization ≡ t ∷ rest
      → verify parse (strip_bearer t) ≡ some (p, issued_at)
      → Named parser md (some p)
