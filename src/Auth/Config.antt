-- ===== src/Auth/Config.antt =====
-- `AuthConfig` (rust/smooth-operator/src/auth.rs): the verifier that the environment selects.
use Prim.Native.String.{◌++◌}
use smooth_agent.Base.{
  String, Bool, true, false, Option, none, some, string_eq, ◌==◌, if◌then◌else◌,
}
use smooth_agent.Base.Text.{trim, is_empty}
use smooth_agent.Base.Ascii.{to_ascii_lowercase}
use smooth_agent.Auth.Principal.{AuthResult, valid, refused, misconfigured, ◌>>=◌, ok_or}
use smooth_agent.Auth.Verifier.{
  TokenCrates, JwtVerifier, jwt_hs256, jwt_rs256, Verifier, jwt, smoo, trusted, admin_disabled,
  no_auth_verifier,
}

-- `std::env::var(key).ok()`
abbrev pub Env : Type 0
Env = String → Option String

-- `.filter(|s| !s.is_empty())`
abbrev pub nonempty : String → Option String
nonempty s = if is_empty s then none else some s

unfoldable pub env_nonempty : Env → String → Option String
env_nonempty env key = elim (env key) [ none ↦ none | some raw ↦ nonempty (trim raw) ]

-- The value of `AUTH_MODE`, if it is set to something.
unfoldable pub raw_mode : Env → Option String
raw_mode env = elim (env "AUTH_MODE") [
  | none ↦ none
  | some raw ↦ nonempty (to_ascii_lowercase (trim raw))
]

abbrev pub unwrap_or : Option String → String → String
unwrap_or none fallback = fallback
unwrap_or (some s) fallback = s

abbrev pub is_some : {A : Type 0} → Option A → Bool
is_some none = false
is_some (some s) = true

-- A failed default mode leaves the server with its admin routes disabled.
abbrev pub or_disabled :
    (crates : TokenCrates) → Bool → AuthResult (JwtVerifier crates) → AuthResult (Verifier crates)
or_disabled crates explicit (valid v) = valid (jwt v)
or_disabled crates true (refused e) = refused e
or_disabled crates false (refused (misconfigured m)) = valid admin_disabled
or_disabled crates false (refused e) = refused e

module _ (crates : TokenCrates) (env : Env) where
  -- The key in the environment, RS256 first, made into a verifier.
  unfoldable pub keyed : String → Option String → Option String → AuthResult (JwtVerifier crates)
  keyed missing issuer audience = elim (env_nonempty env "AUTH_JWT_RS256_PUBLIC_KEY") [
    | some pem ↦ jwt_rs256 crates pem issuer audience
    | none ↦ elim (env_nonempty env "AUTH_JWT_HS256_SECRET") [
      | some secret ↦ valid (jwt_hs256 crates secret issuer audience)
      | none ↦ refused (misconfigured missing)
    ]
  ]

  unfoldable pub build_jwt : Option String → Option String → AuthResult (JwtVerifier crates)
  unfolding keyed
  build_jwt issuer audience =
      keyed
        "AUTH_MODE=jwt requires AUTH_JWT_RS256_PUBLIC_KEY or AUTH_JWT_HS256_SECRET (refusing to fall back to no-auth)"
        issuer audience

  unfoldable pub build_smoo : Option String → Option String → AuthResult (Verifier crates)
  unfolding keyed
  build_smoo issuer audience = do
    iss ← ok_or issuer (misconfigured "AUTH_MODE=smoo requires AUTH_JWT_ISSUER (Smoo's issuer)")
    v ←
        keyed "AUTH_MODE=smoo requires AUTH_JWT_RS256_PUBLIC_KEY or AUTH_JWT_HS256_SECRET"
          (some iss) audience
    valid (smoo v)

  -- The `match` on the mode.
  unfoldable pub select : Bool → String → AuthResult (Verifier crates)
  unfolding build_jwt build_smoo
  select explicit mode =
      let issuer = env_nonempty env "AUTH_JWT_ISSUER" in
      let audience = env_nonempty env "AUTH_JWT_AUDIENCE" in
      if mode == "none"
      then valid
          (no_auth_verifier crates (unwrap_or (env_nonempty env "AUTH_DEV_ORG_ID") "dev-org"))
      else if mode == "trusted"
      then valid trusted
      else if mode == "jwt"
      then or_disabled crates explicit (build_jwt issuer audience)
      else if mode == "smoo"
      then build_smoo issuer audience
      else refused (
          misconfigured
            ("unknown AUTH_MODE '" ++ (mode ++ "' (expected jwt | smoo | trusted | none)")))

  unfoldable pub from_env : AuthResult (Verifier crates)
  unfolding select raw_mode
  from_env = select (is_some (raw_mode env)) (unwrap_or (raw_mode env) "jwt")
