-- ===== src/Server/Config.antt =====
-- `ServerConfig` and `StorageBackend` (rust/smooth-operator-server/src/config.rs).
use Prim.Native.Char.{code}
use smooth_agent.Base.{
  ℕ, ◌+◌, ◌*◌, ◌-◌, ◌^◌, ◌<◌, String, Bool, false, Option, none, some, ◌≡◌, refl, arith, string_eq,
  ◌==◌, ◌||◌, leb, ltb, nat_eqb, if◌then◌else◌, Option-cases, Bool-cases, inl, inr,
}
use smooth_agent.Base.Text.{trim, is_empty}
use smooth_agent.Base.Ascii.{to_ascii_lowercase}
use smooth_agent.Auth.Config.{Env, env_nonempty, is_some, unwrap_or}

abbrev pub default_bind : String
default_bind = "127.0.0.1"

abbrev pub default_port : ℕ
default_port = 8787

abbrev pub default_gateway_url : String
default_gateway_url = "https://llm.smoo.ai/v1"

abbrev pub default_model : String
default_model = "claude-haiku-4-5"

abbrev pub default_max_iterations : ℕ
default_max_iterations = 6

abbrev pub default_max_tokens : ℕ
default_max_tokens = 512

pub data StorageBackend : Type 0 where
  memory postgres dynamodb : StorageBackend

-- The `match` of `StorageBackend::parse`.
abbrev pub backend_of_name : String → StorageBackend
backend_of_name name =
    if name == "postgres" || name == "pg" || name == "postgresql"
    then postgres
    else if name == "dynamodb" || name == "ddb" || name == "dynamo"
    then dynamodb
    else memory

unfoldable pub parse_backend : String → StorageBackend
parse_backend value = backend_of_name (to_ascii_lowercase (trim value))

-- The value of decimal digits behind those read so far.
unfoldable pub digits_value : ℕ → String → Option ℕ
digits_value n String.[] = some n
digits_value n (String.◌∷◌ c s) =
    let rest = digits_value (10 * n + (code c - 0x30)) s in
    if leb 0x30 (code c) then (if leb (code c) 0x39 then rest else none) else none

abbrev pub below : ℕ → Option ℕ → Option ℕ
below bound none = none
below bound (some n) = if ltb n bound then some n else none

-- `parse` of an unsigned integer below a bound: digits, with an optional plus sign before them.
unfoldable pub parse_unsigned : ℕ → String → Option ℕ
unfolding digits_value
parse_unsigned bound String.[] = none
parse_unsigned bound (String.◌∷◌ c s) =
    let digits = if nat_eqb (code c) 0x2b then s else String.◌∷◌ c s in
    if is_empty digits then none else below bound (digits_value 0 digits)

pub record ServerConfig : Type 0 where
  pub bind : String
  pub port : ℕ
  pub gateway_url : String
  pub gateway_key : Option String
  pub model : String
  pub seed_kb : Bool
  pub max_iterations : ℕ
  pub max_tokens : ℕ
  pub storage : StorageBackend
  pub widget_auth_strict : Bool

-- The parts of the engine's configuration that vary.
pub record LlmConfig : Type 0 where
  pub api_url : String
  pub api_key : String
  pub model : String
  pub max_tokens : ℕ

-- A number from the environment, or the default.
unfoldable pub number_var : Env → String → ℕ → Option ℕ
number_var env key bound = elim (env key) [ none ↦ none | some s ↦ parse_unsigned bound (trim s) ]

-- `.filter(|n| *n > 0).unwrap_or(default)`
abbrev pub positive_or : ℕ → Option ℕ → ℕ
positive_or default none = default
positive_or default (some n) = if ltb 0 n then n else default

abbrev pub port_or : Option ℕ → ℕ
port_or none = default_port
port_or (some n) = n

abbrev pub is_truthy : Option String → Bool
is_truthy none = false
is_truthy (some s) = let s = to_ascii_lowercase (trim s) in s == "1" || s == "true" || s == "yes"

abbrev pub backend_or : Option String → StorageBackend
backend_or none = memory
backend_or (some s) = parse_backend s

abbrev pub is_one : Option String → Bool
is_one none = false
is_one (some s) = s == "1"

unfoldable pub from_env : Env → ServerConfig
unfolding number_var
from_env env = record {
  bind = unwrap_or (env_nonempty env "SMOOTH_AGENT_BIND") default_bind;
  port = port_or (number_var env "SMOOTH_AGENT_PORT" (2 ^ 16));
  gateway_url = unwrap_or (env_nonempty env "SMOOAI_GATEWAY_URL") default_gateway_url;
  gateway_key = env_nonempty env "SMOOAI_GATEWAY_KEY";
  model = unwrap_or (env_nonempty env "SMOOTH_AGENT_MODEL") default_model;
  seed_kb = is_one (env "SMOOTH_AGENT_SEED_KB");
  max_iterations =
      positive_or default_max_iterations (number_var env "SMOOTH_AGENT_MAX_ITERATIONS" (2 ^ 32));
  max_tokens = positive_or default_max_tokens (number_var env "SMOOTH_AGENT_MAX_TOKENS" (2 ^ 32));
  storage = backend_or (env "SMOOTH_AGENT_STORAGE");
  widget_auth_strict = is_truthy (env "WIDGET_AUTH_STRICT");
}

abbrev pub has_llm : ServerConfig → Bool
has_llm c = is_some c.gateway_key

abbrev pub llm_config : ServerConfig → Option LlmConfig
llm_config c = elim c.gateway_key [
  | none ↦ none
  | some key ↦ some (record {
    api_url = c.gateway_url;
    api_key = key;
    model = c.model;
    max_tokens = c.max_tokens;
  })
]

below_bound : (bound : ℕ) (o : Option ℕ) {n : ℕ} → below bound o ≡ some n → n < bound
below_bound bound none h = cc
below_bound bound (some m) h = ground arith

parse_unsigned_bound :
    (bound : ℕ) (s : String) {n : ℕ} → parse_unsigned bound s ≡ some n → n < bound
unfolding parse_unsigned
parse_unsigned_bound bound String.[] h = cc
parse_unsigned_bound bound (String.◌∷◌ c s) h =
    let digits = if nat_eqb (code c) 0x2b then s else String.◌∷◌ c s in
    elim (Bool-cases (is_empty digits)) [
      | inl e ↦ cc (rw e at h)
      | inr e ↦ below_bound bound (digits_value 0 digits) (rw e at h)
    ]

number_var_bound :
    (env : Env) (key : String) (bound : ℕ) {n : ℕ} → number_var env key bound ≡ some n → n < bound
unfolding number_var
number_var_bound env key bound h = elim (Option-cases (env key)) [
  | inl e ↦ cc (rw (e, number_var) at h)
  | inr (s, e) ↦ parse_unsigned_bound bound (trim s) (rw (e, number_var) at h)
]

positive_or_bounds :
    (default bound : ℕ) (o : Option ℕ)
    → 0 < default
    → default < bound
    → ((n : ℕ) → o ≡ some n → n < bound)
    → (0 < positive_or default o) × (positive_or default o < bound)
positive_or_bounds default bound none p d h = (p, d)
positive_or_bounds default bound (some n) p d h = let b = h n refl in (ground arith, ground arith)

positive_var_bounds :
    (env : Env) (key : String) (default : ℕ)
    → 0 < default
    → default < 2 ^ 32
    → (0 < positive_or default (number_var env key (2 ^ 32)))
      × (positive_or default (number_var env key (2 ^ 32)) < 2 ^ 32)
positive_var_bounds env key default p d =
    positive_or_bounds default (2 ^ 32) (number_var env key (2 ^ 32)) p d
      (λ n e. number_var_bound env key (2 ^ 32) e)

port_or_bound : (o : Option ℕ) → ((n : ℕ) → o ≡ some n → n < 2 ^ 16) → port_or o < 2 ^ 16
port_or_bound none h = omega arith
port_or_bound (some n) h = h n refl

port_bound : (env : Env) (key : String) → port_or (number_var env key (2 ^ 16)) < 2 ^ 16
port_bound env key =
    port_or_bound (number_var env key (2 ^ 16)) (λ n e. number_var_bound env key (2 ^ 16) e)

-- A configuration from any environment is usable: the port is a 16-bit number, an agent's loop and
-- its answers have a positive bound below 2 ^ 32, and turns are available exactly with a key.
pub from_env_bounds :
    (env : Env)
    → ((from_env env).port < 2 ^ 16)
      × ((0 < (from_env env).max_iterations) × ((from_env env).max_iterations < 2 ^ 32))
      × ((0 < (from_env env).max_tokens) × ((from_env env).max_tokens < 2 ^ 32))
      × (is_some (llm_config (from_env env)) ≡ has_llm (from_env env))
unfolding from_env
from_env_bounds env = (
  port_bound env "SMOOTH_AGENT_PORT",
  positive_var_bounds env "SMOOTH_AGENT_MAX_ITERATIONS" default_max_iterations (omega arith)
      (omega arith),
  positive_var_bounds env "SMOOTH_AGENT_MAX_TOKENS" default_max_tokens (omega arith) (omega arith),
  available (env_nonempty env "SMOOAI_GATEWAY_KEY"),
)
  where
    available :
        (key : Option String)
        → is_some (llm_config (record (from_env env) { gateway_key = key })) ≡ is_some key
    available none = refl
    available (some k) = refl

tests :
    (parse_unsigned 65536 "+8787" ≡ some 8787)
    × (parse_unsigned 65536 "65536" ≡ none)
    × (parse_unsigned 65536 "+" ≡ none)
unfolding parse_unsigned
tests = (refl, refl, refl)
