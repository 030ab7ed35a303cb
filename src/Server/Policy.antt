-- ===== src/Server/Policy.antt =====
-- The policy of embedded widgets at the creation of a session: `enforce_widget_auth` and
-- `verify_auth_context_value` (rust/smooth-operator-server/src/handler.rs).
use smooth_agent.Base.{ℕ, ◌/◌, String, Bool, false, Option, none, some, string_eq, if◌then◌else◌}
use smooth_agent.Base.Int.{ℤ, pos}
use smooth_agent.Json.{Json, str_field, i64_field}
use smooth_agent.Widget.Origin.{WidgetAuthProvider, agent_widget_auth, origin_allowed}
use smooth_agent.Widget.Context.{HmacCrates, verify_auth_context}
use smooth_agent.Server.Config.{ServerConfig}

-- The parameters of the build and of the moment: whether arithmetic is checked for overflow, the
-- signatures, and the time in milliseconds.
pub record Ambient : Type 0 where
  pub checks : Bool
  pub hmac : HmacCrates
  pub now : ℕ

-- `chrono::Utc::now().timestamp()`
abbrev pub now_unix : Ambient → ℤ
now_unix env = pos (env.now / 1000)

-- `origin.unwrap_or_default()`
abbrev pub origin_or_empty : Option String → String
origin_or_empty none = ""
origin_or_empty (some origin) = origin

-- The check when the key and all three fields are there; `none` is a panic.
abbrev pub verify_fields :
    Ambient → Option String → Option String → Option String → Option ℤ → Option Bool
verify_fields env (some pk) (some user_id) (some signature) (some timestamp) =
    verify_auth_context env.hmac env.checks pk user_id signature timestamp (now_unix env) (pos 60)
verify_fields env (some pk) (some user_id) (some signature) none = some false
verify_fields env (some pk) (some user_id) none t = some false
verify_fields env (some pk) none s t = some false
verify_fields env none u s t = some false

-- What the policy says to a frame: proceed, an error to send, or a panic.
pub data Verdict : Type 0 where
  proceed : Verdict
  denied : (code message : String) → Verdict
  panicked : Verdict

module _ (json : Json) (env : Ambient) where
  open json use {Value, field}

  unfoldable pub verify_auth_context_value : Option String → Value → Option Bool
  verify_auth_context_value public_key ac =
      verify_fields env public_key (str_field json ac "userId") (str_field json ac "signature")
        (i64_field json ac "timestamp")

  -- The context of the frame, if it has one, must verify.
  unfoldable pub check_context : Option String → Option Value → Verdict
  unfolding verify_auth_context_value
  check_context public_key none = proceed
  check_context public_key (some ac) = elim (verify_auth_context_value public_key ac) [
    | none ↦ panicked
    | some verified ↦
        if verified
        then proceed
        else denied "AUTH_CONTEXT_INVALID" "authContext signature failed verification"
  ]

  unfoldable pub enforce_widget_auth :
      WidgetAuthProvider → ServerConfig → Option String → String → Value → Verdict
  unfolding check_context
  enforce_widget_auth provider config origin agent_id parsed =
      elim (agent_widget_auth provider agent_id) [
        | none ↦
            if config.widget_auth_strict
            then denied "AGENT_NOT_AUTHORIZED" "this agent is not registered for embedding"
            else proceed
        | some policy ↦
            if origin_allowed policy.allowed_origins (origin_or_empty origin)
            then check_context policy.public_key (field parsed "authContext")
            else denied "ORIGIN_NOT_ALLOWED" "this origin is not allowed to embed this agent"
      ]
