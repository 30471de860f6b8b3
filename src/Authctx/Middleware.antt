-- ===== src/Authctx/Middleware.antt =====
-- internal/platform/authctx/middleware.go and grpc.go: which requests get in, and as whom. The JWT
-- library and the remote validator are parameters; a context is the principal that it carries.
pub mod Decisions
use master_data.Shared.{cut_prefix}
use master_data.Shared.{
  ℕ, Bool, false, not, ◌&&◌, ◌||◌, Option, none, some, List, [], ◌∷◌, ◌++◌, if◌then◌else◌, ◌==◌,
  nat_eq, text_eq, length, keep, exists, contains, Text, codes, trim_space,
}
use master_data.Authctx.{Principal, has_permission, has_role}
use master_data.Revocation.{Revocations, revoked}

-- What a handler of gin does: it calls the next one, or answers with a status.
pub data Answer : Type 0 where
  passed : Principal → Answer
  unauthorized access_denied malformed : Answer

abbrev pub TokenParser : Type 0
TokenParser = Text → Option (Principal × Option ℕ)

issue_time : Option ℕ → ℕ
issue_time none = 0
issue_time (some at) = at

with_subject : Option (Principal × Option ℕ) → Option (Principal × ℕ)
unfolding issue_time
with_subject none = none
with_subject (some (p, at)) = if p.user_id == [] then none else some (p, issue_time at)

-- `VerifyWithIssuedAt`, over what `ParseClaims` gives.
unfoldable pub verify : TokenParser → Text → Option (Principal × ℕ)
unfolding with_subject
verify parse token = with_subject (parse token)

trim_bearer : Text → Option Text → Text
trim_bearer header none = trim_space header
trim_bearer header (some rest) = trim_space rest

-- The header `Authorization`, and the parameter `token`.
unfoldable pub extract_token : Text → Text → Text
unfolding trim_bearer cut_prefix
extract_token header query =
    if header == [] then query else trim_bearer header (cut_prefix (codes "Bearer ") header)

is_revoked : Option Revocations → Principal → ℕ → Bool
is_revoked none p issued_at = false
is_revoked (some l) p issued_at = revoked l p.token_id p.user_id p.company_id issued_at

remote_answer : Option Principal → Answer
remote_answer none = unauthorized
remote_answer (some p) = passed p

ask_remote : Option (Text → Option Principal) → Text → Answer
unfolding remote_answer
ask_remote none token = unauthorized
ask_remote (some validate) token = remote_answer (validate token)

-- Once the token is verified, or is not.
decide :
    Option (Text → Option Principal) → Option Revocations → Text → Option (Principal × ℕ) → Answer
unfolding ask_remote is_revoked
decide remote list token none = ask_remote remote token
decide remote list token (some (p, issued_at)) =
    if p.single_device
    then ask_remote remote token
    else if is_revoked list p issued_at
    then unauthorized
    else passed p

-- `RequireAuthWithRevocations`; `RequireAuth` has no list.
unfoldable pub require_auth :
    TokenParser → Option (Text → Option Principal) → Option Revocations → Text → Answer
unfolding decide verify
require_auth parse remote list token =
    if token == [] then unauthorized else decide remote list token (verify parse token)

unfoldable pub require_role : Text → List Text → Option Principal → Answer
require_role service_product roles none = unauthorized
require_role service_product roles (some p) =
    if not (has_role service_product p roles) then access_denied else passed p

unfoldable pub require_platform_staff : Option Principal → Answer
require_platform_staff none = unauthorized
require_platform_staff (some p) = if not p.is_platform_staff then access_denied else passed p

-- `strings.Cut` with a separator of one byte.
put_before : ℕ → Option (Text × Text) → Option (Text × Text)
put_before c none = none
put_before c (some (before, after)) = some (c ∷ before, after)

unfoldable pub cut : ℕ → Text → Option (Text × Text)
unfolding put_before
cut sep [] = none
cut sep (c ∷ s) = if c == sep then some ([], s) else put_before c (cut sep s)

-- `HasModule`.
unfoldable pub has_module : Text → Principal → Text → Text → Bool
has_module service_product p module_name action =
    has_permission p service_product (module_name ++ b'.' ∷ action)

module_answer : Text → Option (Text × Text) → Option Principal → Answer
unfolding has_module
module_answer service_product none ctx = malformed
module_answer service_product (some (module_name, action)) none = unauthorized
module_answer service_product (some (module_name, action)) (some p) =
    if not (has_module service_product p module_name action) then access_denied else passed p

unfoldable pub require_module : Text → Text → Option Principal → Answer
unfolding module_answer
require_module service_product permission ctx =
    module_answer service_product (cut b'.' permission) ctx

also : Option (Text × Text) → Option (List (Text × Text)) → Option (List (Text × Text))
also none rest = none
also (some spec) none = none
also (some spec) (some specs) = some (spec ∷ specs)

-- `product:key`, each of them; `none` is the panic when the routes are set up.
unfoldable pub qualified : List Text → Option (List (Text × Text))
unfolding also cut
qualified [] = some []
qualified (p ∷ ps) = also (cut b':' p) (qualified ps)

unfoldable pub require_any_of : List (Text × Text) → Option Principal → Answer
require_any_of specs none = unauthorized
require_any_of specs (some p) =
    if exists (λ (spec : Text × Text). has_permission p spec.0 spec.1) specs
    then passed p
    else access_denied

-- The server's interceptor: an answer of status Unauthenticated, or the handler's call.
pub data Call : Type 0 where
  unauthenticated : Call
  handled : Option Principal → Call

pub record Metadata : Type 0 where
  pub service_tokens : List Text
  pub authorization : List Text

unfoldable pub is_health_check : Text → Bool
is_health_check method =
    method == codes "/grpc.health.v1.Health/Check" || method == codes "/grpc.health.v1.Health/Watch"

stripped : Text → Option Text → Option Text → Text
stripped s (some (c ∷ rest)) other = c ∷ rest
stripped s _ (some (c ∷ rest)) = c ∷ rest
stripped s _ _ = s

unfoldable pub strip_bearer : Text → Text
unfolding stripped cut_prefix
strip_bearer s = stripped s (cut_prefix (codes "Bearer ") s) (cut_prefix (codes "bearer ") s)

-- The set of the tokens that are not empty.
unfoldable pub accepted_tokens : List Text → List Text
accepted_tokens tokens = keep (λ t. not (t == [])) tokens

unfoldable pub has_accepted : List Text → List Text → Bool
has_accepted got accepted = exists (λ g. contains accepted g) got

named_principal : Option (Principal × ℕ) → Option Principal
named_principal none = none
named_principal (some (p, issued_at)) = some p

-- The first authorization, if the server has a verifier.
caller_of : Option TokenParser → List Text → Option Principal
unfolding strip_bearer verify named_principal
caller_of none tokens = none
caller_of (some parse) [] = none
caller_of (some parse) (t ∷ tokens) = named_principal (verify parse (strip_bearer t))

with_metadata : Option TokenParser → List Text → Option Metadata → Call
unfolding caller_of has_accepted
with_metadata parser accepted none = unauthenticated
with_metadata parser accepted (some md) =
    if not (length accepted == 0) && not (has_accepted md.service_tokens accepted)
    then unauthenticated
    else handled (caller_of parser md.authorization)

-- `UnaryServerInterceptor`, for a request whose context carries nobody yet.
unfoldable pub unary_server : Option TokenParser → List Text → Text → Option Metadata → Call
unfolding with_metadata accepted_tokens
unary_server parser tokens method md =
    if is_health_check method
    then handled none
    else with_metadata parser (accepted_tokens tokens) md
