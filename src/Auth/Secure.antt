-- ===== src/Auth/Secure.antt =====
-- What an authenticated principal can be (rust/smooth-operator/src/auth.rs).
use smooth_agent.Base.{
  String, Bool, true, false, Option, none, some, ◌≡◌, ◌≢◌, ◌⊎◌, inl, inr, refl, sym, ap, arith,
  string_eq, ◌==◌, Bool-cases,
}
use mathlib.Core.Path.{subst}
use text.Mathlib.TextEquality.{eq_iff}
use smooth_agent.Base.Text.{trim}
use smooth_agent.Base.Ascii.{to_ascii_lowercase}
use smooth_agent.Base.Outcome.{Outcome, ok}
use smooth_agent.Auth.Principal.{
  Role, basic, curator, admin, AuthResult, valid, refused, AuthError, unauthenticated, missing_role,
  forbidden, misconfigured, Principal, Claims, role_name, parse_role, claimed_role, claimed_org,
  ok_or, invalid_token, ◌>>=◌,
}
use smooth_agent.Auth.Verifier.{
  TokenCrates, JwtVerifier, Verifier, jwt, smoo, no_auth, trusted, admin_disabled, verify,
}
use smooth_agent.Auth.Config.{
  Env, env_nonempty, raw_mode, unwrap_or, keyed, build_jwt, build_smoo, or_disabled, select,
  from_env,
}

-- Inversion of a successful chain.
pub >>=-eq-valid {ℓ κ} :
    {X : Type ℓ} {Y : Type κ} {y : Y} (first : AuthResult X) (next : X → AuthResult Y)
    → (first >>= next) ≡ valid y
    → (x : X) × (first ≡ valid x) × (next x ≡ valid y)
>>=-eq-valid (refused _) next succeeds = cc
>>=-eq-valid (valid x) next succeeds = (x, refl, succeeds)

pub ok_or-valid :
    {A : Type 0} (o : Option A) (e : AuthError) {a : A} → ok_or o e ≡ valid a → o ≡ some a
ok_or-valid none e h = cc
ok_or-valid (some a) e h = ground arith

-- The principal says what the claims say: the subject, an organization and a role that they name.
pub record Stands (c : Claims) (p : Principal) : Type 0 where
  pub user : p.user_id ≡ c.sub
  pub org : claimed_org c ≡ some p.org_id
  pub role : claimed_role c.role ≡ valid p.role
  pub groups : p.groups ≡ c.groups

module _ (crates : TokenCrates) where
  open crates use {decode, claims_from_slice, url_safe_no_pad, url_safe, Bytes}

  -- Where the claims of a verified principal can come from.
  pub data Vouched (token : String) (p : Principal) : Verifier crates → Type 0 where
    signed_jwt :
        (v : JwtVerifier crates) (c : Claims)
        → decode token v.key v.validation ≡ ok c
        → Stands c p
        → Vouched token p (jwt v)
    signed_smoo :
        (v : JwtVerifier crates) (c : Claims)
        → decode token v.key v.validation ≡ ok c
        → Stands c p
        → Vouched token p (smoo v)
    forwarded :
        (b : Bytes) (c : Claims)
        → (url_safe_no_pad (trim token) ≡ ok b) ⊎ (url_safe (trim token) ≡ ok b)
        → claims_from_slice b ≡ ok c
        → Stands c p
        → Vouched token p trusted
    development : (q : Principal) → q ≡ p → Vouched token p (no_auth q)

  -- A verifier that accepts what nobody signed.
  abbrev pub IsOpen : Verifier crates → Type 0
  IsOpen (no_auth p) = Unit
  IsOpen trusted = Unit
  IsOpen (jwt v) = ⊥
  IsOpen (smoo v) = ⊥
  IsOpen admin_disabled = ⊥

  the_same : (v w : Verifier crates) → valid v ≡ valid w → v ≡ w
  the_same v w h = cc

  or_disabled-closed :
      (explicit : Bool) (r : AuthResult (JwtVerifier crates)) (v : Verifier crates)
      → or_disabled crates explicit r ≡ valid v
      → IsOpen v
      → ⊥
  or_disabled-closed explicit (valid w) v h o = subst IsOpen (sym (the_same (jwt w) v h)) o
  or_disabled-closed true (refused e) v h o = cc
  or_disabled-closed false (refused unauthenticated) v h o = cc
  or_disabled-closed false (refused (invalid_token m)) v h o = cc
  or_disabled-closed false (refused (missing_role m)) v h o = cc
  or_disabled-closed false (refused (forbidden r q)) v h o = cc
  or_disabled-closed false (refused (misconfigured m)) v h o =
      subst IsOpen (sym (the_same admin_disabled v h)) o

  smoo-closed :
      (env : Env) (v : Verifier crates)
      → build_smoo crates env
          (env_nonempty env "AUTH_JWT_ISSUER")
          (env_nonempty env "AUTH_JWT_AUDIENCE")
        ≡ valid v
      → IsOpen v
      → ⊥
  unfolding build_smoo
  smoo-closed env v h o =
      let (iss, _, keyed_v) = >>=-eq-valid (ok_or (env_nonempty env "AUTH_JWT_ISSUER") _) _ h in
      let (w, _, made) = >>=-eq-valid (keyed crates env _ (some iss) _) _ keyed_v in
      subst IsOpen (sym (the_same (smoo w) v made)) o

  select_explicit :
      (env : Env) (explicit : Bool) (mode : String) (v : Verifier crates)
      → select crates env explicit mode ≡ valid v
      → IsOpen v
      → (mode ≡ "none") ⊎ (mode ≡ "trusted")
  unfolding select build_smoo
  select_explicit env explicit mode v h o = elim (Bool-cases (mode == "none")) [
    | inl e ↦ inl ((eq_iff mode "none").0 e)
    | inr not_none ↦ elim (Bool-cases (mode == "trusted")) [
      | inl e ↦ inr ((eq_iff mode "trusted").0 e)
      | inr not_trusted ↦ elim (Bool-cases (mode == "jwt")) [
        | inl e ↦ absurd (or_disabled-closed explicit _ v (rw (not_none, not_trusted, e) at h) o)
        | inr not_jwt ↦ elim (Bool-cases (mode == "smoo")) [
          | inl e ↦ absurd (smoo-closed env v (rw (not_none, not_trusted, not_jwt, e) at h) o)
          | inr not_smoo ↦ cc (rw (not_none, not_trusted, not_jwt, not_smoo) at h)
        ]
      ]
    ]
  ]

  unwrap_or-eq :
      (o : Option String) (m : String) → unwrap_or o "jwt" ≡ m → ("jwt" == m) ≡ false → o ≡ some m
  unwrap_or-eq none m h ne = ground (arith, eq_iff "jwt" m)
  unwrap_or-eq (some s) m h ne = ap some h

  -- Authentication is off only on request: the environment selects a verifier that accepts
  -- unsigned identities only if `AUTH_MODE` is set to `none` or to `trusted`.
  pub from_env_explicit :
      (env : Env) (v : Verifier crates)
      → from_env crates env ≡ valid v
      → IsOpen v
      → (raw_mode env ≡ some "none") ⊎ (raw_mode env ≡ some "trusted")
  unfolding from_env
  from_env_explicit env v h open_mode = elim (select_explicit env _ _ v h open_mode) [
    | inl e ↦ inl (unwrap_or-eq (raw_mode env) "none" e refl)
    | inr e ↦ inr (unwrap_or-eq (raw_mode env) "trusted" e refl)
  ]

  -- A configuration that is refused when the service starts.
  abbrev pub IsMisconfigured : AuthResult (Verifier crates) → Type 0
  IsMisconfigured (refused (misconfigured m)) = Unit
  IsMisconfigured (refused (invalid_token m)) = ⊥
  IsMisconfigured (refused (missing_role m)) = ⊥
  IsMisconfigured (refused (forbidden r q)) = ⊥
  IsMisconfigured (refused unauthenticated) = ⊥
  IsMisconfigured (valid v) = ⊥

  -- With no key in the environment and `AUTH_MODE` unset there is a verifier that accepts no token as
  -- anybody's; with no key and `jwt` or `smoo` asked for the configuration is refused.
  pub from_env-keyless :
      (env : Env)
      → env_nonempty env "AUTH_JWT_RS256_PUBLIC_KEY" ≡ none
      → env_nonempty env "AUTH_JWT_HS256_SECRET" ≡ none
      → (raw_mode env ≡ none
          → (v : Verifier crates) × (from_env crates env ≡ valid v)
            × ((token : String) (p : Principal) → verify crates v token ≢ valid p))
        × (raw_mode env ≡ some "jwt" → IsMisconfigured (from_env crates env))
        × (raw_mode env ≡ some "smoo" → IsMisconfigured (from_env crates env))
  unfolding from_env select build_jwt build_smoo verify
  from_env-keyless env rs hs = (
    λ e. (admin_disabled, rw (e, keyless _ _ _) refl, accepts_none),
    λ e. rw (e, keyless _ _ _) tt,
    λ e. smoo_mode e _ refl,
  )
    where
      keyless :
          (missing : String) (issuer audience : Option String)
          → keyed crates env missing issuer audience ≡ refused (misconfigured missing)
      keyless missing issuer audience = unfold keyed in (rw (rs, hs, keyed) refl)

      accepts_none : (token : String) (p : Principal) → verify crates admin_disabled token ≢ valid p
      accepts_none token p h = cc

      smoo_mode :
          raw_mode env ≡ some "smoo"
          → (o : Option String) → env_nonempty env "AUTH_JWT_ISSUER" ≡ o
          → IsMisconfigured (from_env crates env)
      smoo_mode e none i = rw (e, i) tt
      smoo_mode e (some iss) i = rw (e, i, keyless _ _ _) tt

-- Every role is read back from its own name, and a text that is read as a role is, trimmed and in
-- lower case, that role's name or the alias `user` of the lowest one.
pub parse_role-role_name :
    ((r : Role) → parse_role (role_name r) ≡ valid r)
    × ((s : String) (r : Role)
        → parse_role s ≡ valid r
        → (to_ascii_lowercase (trim s) ≡ role_name r)
          ⊎ ((to_ascii_lowercase (trim s) ≡ "user") × (r ≡ basic)))
unfolding parse_role
parse_role-role_name = (own, named)
  where
    own : (r : Role) → parse_role (role_name r) ≡ valid r
    own basic = unfold to_ascii_lowercase trim in refl
    own curator = unfold to_ascii_lowercase trim in refl
    own admin = unfold to_ascii_lowercase trim in refl

    named :
        (s : String) (r : Role)
        → parse_role s ≡ valid r
        → (to_ascii_lowercase (trim s) ≡ role_name r)
          ⊎ ((to_ascii_lowercase (trim s) ≡ "user") × (r ≡ basic))
    named s r h =
        let name = to_ascii_lowercase (trim s) in
        ground (
          arith,
          eq_iff name "admin",
          eq_iff name "curator",
          eq_iff name "basic",
          eq_iff name "user",
        )
