-- ===== src/Admin/Gate.antt =====
-- The extractor of an authenticated principal with a least role, and the errors of the routes.
use smooth_agent.Base.{ℕ, zero, suc, String, Option, none, some, string_eq, ltb, if◌then◌else◌}
use smooth_agent.Base.Text.{trim, is_empty}
use smooth_agent.Base.Ascii.{strip_prefix}
use smooth_agent.Auth.Principal.{
  Role, basic, curator, admin, rank, AuthError, unauthenticated, invalid_token, missing_role,
  forbidden, misconfigured, AuthResult, valid, refused, Principal, ◌>>=◌, ok_or,
}
use smooth_agent.Auth.Verifier.{TokenCrates, Verifier, verify}

-- `rank_role`
abbrev pub rank_role : ℕ → Role
rank_role zero = basic
rank_role (suc zero) = curator
rank_role (suc (suc n)) = admin

abbrev pub after_scheme : String → Option String
after_scheme value = elim (strip_prefix value "Bearer ") [
  | some rest ↦ some rest
  | none ↦ strip_prefix value "bearer "
]

abbrev pub nonempty_token : String → Option String
nonempty_token trimmed = if is_empty trimmed then none else some trimmed

-- The token in the `Authorization` header, if there is one that is text.
unfoldable pub bearer_token : Option String → Option String
bearer_token none = none
bearer_token (some value) = elim (after_scheme value) [
  | none ↦ none
  | some rest ↦ nonempty_token (trim rest)
]

-- The role's test behind the verification.
abbrev pub at_least : ℕ → Principal → AuthResult Principal
at_least min principal =
    if ltb (rank principal.role) min
    then refused (forbidden (rank_role min) principal.role)
    else valid principal

unfoldable pub require_role :
    (crates : TokenCrates) → Verifier crates → ℕ → Option String → AuthResult Principal
unfolding bearer_token
require_role crates verifier min header = do
  token ← ok_or (bearer_token header) unauthenticated
  principal ← verify crates verifier token
  at_least min principal

-- The status of a rejection, and its code.
abbrev pub rejection : AuthError → ℕ × String
rejection unauthenticated = (401, "UNAUTHENTICATED")
rejection (invalid_token m) = (401, "INVALID_TOKEN")
rejection (missing_role m) = (401, "MISSING_ROLE")
rejection (forbidden required actual) = (403, "FORBIDDEN")
rejection (misconfigured m) = (500, "AUTH_MISCONFIGURED")
