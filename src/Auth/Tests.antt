-- ===== src/Auth/Tests.antt =====
-- Verifiers over toy crates, on concrete tokens and environments.
use smooth_agent.Base.{
  String, none, some, [], ◌∷◌, ◌≡◌, ◌≢◌, ◌⊎◌, refl, string_eq, ◌==◌, if◌then◌else◌,
}
use smooth_agent.Base.Text.{trim}
use smooth_agent.Base.Ascii.{to_ascii_lowercase}
use smooth_agent.Base.Outcome.{ok, err}
use smooth_agent.Auth.Principal.{curator, valid, Principal, Claims}
use smooth_agent.Auth.Verifier.{TokenCrates, Verifier, jwt, jwt_hs256, verify, no_auth_verifier}
use smooth_agent.Auth.Config.{Env, env_nonempty, raw_mode, from_env}
use smooth_agent.Auth.Secure.{from_env_explicit, from_env-keyless, IsMisconfigured}

abbrev ann : Claims
ann = record {
  sub = "ann";
  org = some "acme";
  org_id = none;
  role = some " Curator ";
  name = none;
  groups = "eng" ∷ [];
}

-- A token is accepted if it is its key.
abbrev toy : TokenCrates
toy = record {
  Key = String;
  Bytes = String;
  from_secret = λ secret. secret;
  from_rsa_pem = λ pem. if pem == "bad" then err "no PEM" else ok pem;
  decode = λ token key validation. if token == key then ok ann else err "signature";
  url_safe_no_pad = λ s. ok s;
  url_safe = λ s. ok s;
  claims_from_slice = λ b. if b == "{}" then err "missing field" else ok ann;
}

abbrev keyed_by_k : Verifier toy
keyed_by_k = jwt (jwt_hs256 toy "k" none none)

abbrev ann_principal : Principal
ann_principal = record {
  user_id = "ann";
  org_id = "acme";
  role = curator;
  display_name = none;
  groups = "eng" ∷ [];
}

abbrev bare : Env
bare key = none

abbrev mode_only : String → Env
mode_only mode key = if key == "AUTH_MODE" then some mode else none

abbrev dev : Verifier toy
dev = no_auth_verifier toy "dev-org"

from_env_explicit_example :
    (raw_mode (mode_only " None ") ≡ some "none") ⊎ (raw_mode (mode_only " None ") ≡ some "trusted")
unfolding from_env to_ascii_lowercase trim env_nonempty
from_env_explicit_example = from_env_explicit toy (mode_only " None ") dev selected tt
  where
    selected : from_env toy (mode_only " None ") ≡ valid dev
    selected = refl

from_env-keyless_example :
    (raw_mode bare ≡ none
      → (v : Verifier toy) × (from_env toy bare ≡ valid v)
        × ((token : String) (p : Principal) → verify toy v token ≢ valid p))
    × (raw_mode bare ≡ some "jwt" → IsMisconfigured toy (from_env toy bare))
    × (raw_mode bare ≡ some "smoo" → IsMisconfigured toy (from_env toy bare))
unfolding env_nonempty
from_env-keyless_example = from_env-keyless toy bare refl refl
