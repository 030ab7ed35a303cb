-- ===== src/Auth/Verifier.antt =====
-- The verifiers and their choice from the environment (rust/smooth-operator/src/auth.rs). The crates
-- `jsonwebtoken`, `base64` and `serde_json` come as a parameter.
use Prim.Native.String.{◌++◌}
use smooth_agent.Base.{
  String, Bool, true, false, Option, none, some, List, [], ◌∷◌, string_eq, if◌then◌else◌,
}
use smooth_agent.Base.Text.{trim, is_empty}
use smooth_agent.Base.Outcome.{Outcome, ok, err}
use smooth_agent.Auth.Principal.{
  admin, AuthError, unauthenticated, invalid_token, misconfigured, AuthResult, valid, refused,
  ◌>>=◌, Principal, new, Claims, into_principal,
}

pub data Algorithm : Type 0 where
  hs256 rs256 : Algorithm

-- The fields of `Validation` that the code sets.
pub record Validation : Type 0 where
  pub algorithm : Algorithm
  pub required_spec_claims : List String
  pub validate_aud : Bool
  pub aud : Option String
  pub iss : Option String

-- Keys, the validated decoding of a token, and the decoding of a forwarded identity.
pub record TokenCrates : Type 1 where
  pub Key : Type 0
  pub Bytes : Type 0
  pub from_secret : String → Key
  pub from_rsa_pem : String → Outcome Key
  pub decode : String → Key → Validation → Outcome Claims
  pub url_safe_no_pad : String → Outcome Bytes
  pub url_safe : String → Outcome Bytes
  pub claims_from_slice : Bytes → Outcome Claims

-- `configure_validation`, on a validation of the algorithm with the crate's defaults.
unfoldable pub configure_validation : Algorithm → Option String → Option String → Validation
configure_validation algorithm issuer audience = record {
  algorithm = algorithm;
  required_spec_claims = "exp" ∷ "sub" ∷ [];
  validate_aud = elim audience [ none ↦ false | some _ ↦ true ];
  aud = audience;
  iss = issuer;
}

-- `.map_err(|e| error(prefix + e))`
abbrev pub map_err : {A : Type 0} → (String → AuthError) → Outcome A → AuthResult A
map_err f (ok a) = valid a
map_err f (err m) = refused (f m)

-- `first.or_else(|_| second)`
abbrev pub or_else : {A : Type 0} → Outcome A → Outcome A → Outcome A
or_else (ok a) second = ok a
or_else (err _) second = second

module _ (crates : TokenCrates) where
  open crates use {
    Key, Bytes, from_secret, from_rsa_pem, decode, url_safe_no_pad, url_safe, claims_from_slice,
  }

  pub record JwtVerifier : Type 0 where
    pub key : Key
    pub validation : Validation

  abbrev pub jwt_hs256 : String → Option String → Option String → JwtVerifier
  jwt_hs256 secret issuer audience = record {
    key = from_secret secret;
    validation = configure_validation hs256 issuer audience;
  }

  unfoldable pub jwt_rs256 : String → Option String → Option String → AuthResult JwtVerifier
  jwt_rs256 pem issuer audience = do
    key ← map_err (λ e. misconfigured ("invalid RS256 public key: " ++ e)) (from_rsa_pem pem)
    valid (record { key = key; validation = configure_validation rs256 issuer audience })

  unfoldable pub decode_principal : JwtVerifier → String → AuthResult Principal
  decode_principal v token = if is_empty (trim token) then refused unauthenticated else (do
    claims ← map_err invalid_token (decode token v.key v.validation)
    into_principal claims)

  -- The bytes of a forwarded identity, unpadded or padded, and the claims in them.
  abbrev pub identity_bytes : String → AuthResult Bytes
  identity_bytes identity =
      map_err (λ e. invalid_token ("trusted identity is not valid base64url: " ++ e))
        (or_else (url_safe_no_pad identity) (url_safe identity))

  abbrev pub identity_claims : Bytes → AuthResult Claims
  identity_claims bytes =
      map_err (λ e. invalid_token ("trusted identity is not valid claims JSON: " ++ e))
        (claims_from_slice bytes)

  unfoldable pub decode_trusted : String → AuthResult Principal
  decode_trusted forwarded =
      let identity = trim forwarded in
      if is_empty identity then refused unauthenticated else (do
        bytes ← identity_bytes identity
        claims ← identity_claims bytes
        into_principal claims)

  pub data Verifier : Type 0 where
    jwt smoo : JwtVerifier → Verifier
    no_auth : Principal → Verifier
    trusted admin_disabled : Verifier

  abbrev pub no_auth_verifier : String → Verifier
  no_auth_verifier org_id =
      no_auth (new "dev-admin" org_id admin (some "Dev Admin (AUTH_MODE=none)"))

  unfoldable pub verify : Verifier → String → AuthResult Principal
  unfolding decode_principal decode_trusted
  verify (jwt v) token = decode_principal v token
  verify (smoo v) token = decode_principal v token
  verify (no_auth principal) token = valid principal
  verify trusted token = decode_trusted token
  verify admin_disabled token = refused (
      invalid_token "admin API disabled: set AUTH_MODE=jwt|smoo + a key, or AUTH_MODE=none for dev")

  abbrev pub mode : Verifier → String
  mode (jwt v) = "jwt"
  mode (smoo v) = "smoo"
  mode (no_auth principal) = "none"
  mode trusted = "trusted"
  mode admin_disabled = "disabled"

  -- `introspect` of the hosted verifier, which is a stub.
  abbrev pub introspect : JwtVerifier → String → AuthResult Principal
  introspect v token = refused (
      misconfigured
        "live token introspection is not wired; use the JWT form (Smoo signs a JWT we verify locally) or implement the /introspect client")
