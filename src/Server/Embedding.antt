-- ===== src/Server/Embedding.antt =====
-- Who may create a session with an embedded agent.
use smooth_agent.Base.{
  ◌/◌, ◌≤◌, String, true, false, Option, none, some, [], ◌≡◌, ◌⊎◌, refl, ap, ◌∙◌, arith, string_eq,
  Bool-cases, Option-cases, inl, inr,
}
use smooth_agent.Base.Int.{ℤ, pos}
use smooth_agent.Json.{Json, str_field, i64_field}
use smooth_agent.Engine.{Documents}
use smooth_agent.Search.Rerank.{Lexicon}
use smooth_agent.Widget.Origin.{
  AgentWidgetAuth, WidgetAuthProvider, agent_widget_auth, origin_allowed,
}
use smooth_agent.Widget.Context.{IsSigned, IsFar, distance, verify_auth_context-accepts}
use smooth_agent.Server.Config.{ServerConfig}
use smooth_agent.Server.Policy.{
  Ambient, Verdict, proceed, denied, panicked, verify_auth_context_value, check_context,
  enforce_widget_auth, origin_or_empty, verify_fields, now_unix,
}
use smooth_agent.Server.State.{AppState}
use smooth_agent.Server.Sessions.{Reply, SessionIds, or_default_str}
use smooth_agent.Server.Dispatch.{Outside, handle_create_session}

module _ (json : Json) (env : Ambient) where
  -- A context with a user id, a signature and a timestamp, where the signature is one of the two
  -- others under the key, and the timestamp is at most 60 seconds from the present; a build without
  -- overflow checks may also take one at least 2 ^ 63 seconds away.
  pub record IsGenuine (key : Option String) (ac : json.Value) : Type 0 where
    pub public_key : String
    pub user_id : String
    pub signature : String
    pub timestamp : ℤ
    pub has_key : key ≡ some public_key
    pub has_user : str_field json ac "userId" ≡ some user_id
    pub has_signature : str_field json ac "signature" ≡ some signature
    pub has_timestamp : i64_field json ac "timestamp" ≡ some timestamp
    pub signed : IsSigned env.hmac public_key user_id signature timestamp
    pub timely :
        (distance (pos (env.now / 1000)) timestamp ≤ 60)
        ⊎ ((env.checks ≡ false) × IsFar (pos (env.now / 1000)) timestamp)

  genuine :
      (key : Option String) (ac : json.Value) (k u s : Option String) (t : Option ℤ)
      → key ≡ k
      → str_field json ac "userId" ≡ u
      → str_field json ac "signature" ≡ s
      → i64_field json ac "timestamp" ≡ t
      → verify_fields env k u s t ≡ some true
      → IsGenuine key ac
  genuine key ac (some k) (some u) (some s) (some t) hk hu hs ht h =
      let (sign, time) =
        verify_auth_context-accepts env.hmac k u s env.checks (now_unix env) t (pos 60) h in
      record {
        public_key = k;
        user_id = u;
        signature = s;
        timestamp = t;
        has_key = hk;
        has_user = hu;
        has_signature = hs;
        has_timestamp = ht;
        signed = sign;
        timely = elim time [ inl fresh ↦ inl (omega (arith, fresh)) | inr far ↦ inr far ];
      }
  genuine key ac (some k) (some u) (some s) none hk hu hs ht h = cc
  genuine key ac (some k) (some u) none t hk hu hs ht h = cc
  genuine key ac (some k) none s t hk hu hs ht h = cc
  genuine key ac none u s t hk hu hs ht h = cc

  verify_auth_context_value-IsGenuine :
      (key : Option String) (ac : json.Value)
      → verify_auth_context_value json env key ac ≡ some true
      → IsGenuine key ac
  unfolding verify_auth_context_value
  verify_auth_context_value-IsGenuine key ac h =
      genuine key ac key (str_field json ac "userId") (str_field json ac "signature")
        (i64_field json ac "timestamp") refl refl refl refl h

  -- The policy lets the frame's sender in.
  pub data Authorized (provider : WidgetAuthProvider) (config : ServerConfig)
      (origin : Option String) (agent_id : String) (parsed : json.Value) : Type 0 where
    unregistered :
        agent_widget_auth provider agent_id ≡ none
        → config.widget_auth_strict ≡ false
        → Authorized provider config origin agent_id parsed
    embedded :
        (policy : AgentWidgetAuth)
        → agent_widget_auth provider agent_id ≡ some policy
        → origin_allowed policy.allowed_origins (origin_or_empty origin) ≡ true
        → (json.field parsed "authContext" ≡ none)
          ⊎ ((ac : json.Value) × (json.field parsed "authContext" ≡ some ac)
              × IsGenuine policy.public_key ac)
        → Authorized provider config origin agent_id parsed

  context_verified :
      (key : Option String) (parsed : json.Value) (o : Option json.Value)
      → json.field parsed "authContext" ≡ o
      → check_context json env key o ≡ proceed
      → (json.field parsed "authContext" ≡ none)
        ⊎ ((ac : json.Value) × (json.field parsed "authContext" ≡ some ac) × IsGenuine key ac)
  unfolding check_context
  context_verified key parsed none e h = inl e
  context_verified key parsed (some ac) e h =
      elim (Option-cases (verify_auth_context_value json env key ac)) [
        | inl v ↦ cc (rw (check_context, v) at h)
        | inr (b, v) ↦ elim (Bool-cases b) [
          | inl t ↦ inr (ac, e, verify_auth_context_value-IsGenuine key ac (v ∙ ap some t))
          | inr f ↦ cc (rw (check_context, v, f) at h)
        ]
      ]

  enforce_widget_auth-Authorized :
      (provider : WidgetAuthProvider) (config : ServerConfig) (origin : Option String)
      (agent_id : String) (parsed : json.Value)
      → enforce_widget_auth json env provider config origin agent_id parsed ≡ proceed
      → Authorized provider config origin agent_id parsed
  unfolding enforce_widget_auth
  enforce_widget_auth-Authorized provider config origin agent_id parsed h =
      elim (Option-cases (agent_widget_auth provider agent_id)) [
        | inl e ↦ elim (Bool-cases config.widget_auth_strict) [
          | inl s ↦ cc (rw (enforce_widget_auth, e, s) at h)
          | inr s ↦ unregistered e s
        ]
        | inr (policy, e) ↦
            elim (Bool-cases (origin_allowed policy.allowed_origins (origin_or_empty origin))) [
              | inr o ↦ cc (rw (enforce_widget_auth, e, o) at h)
              | inl o ↦ embedded policy e o (
                  context_verified policy.public_key parsed (json.field parsed "authContext") refl
                    (rw (enforce_widget_auth, e, o) at h))
            ]
      ]

  module _ (lex : Lexicon) (docs : Documents) {Score : Type 0}
      (out : Outside json lex docs Score) where
    -- A session is begun only for whom the agent's policy lets in: one without a policy, if the server
    -- is not strict, or one whose policy allows the frame's origin and whose context, if the frame has
    -- one, names a user and has a signature of the user and the timestamp under the agent's key. The
    -- timestamp is at most 60 seconds from the present, or in a build without overflow checks maybe at
    -- least 2 ^ 63 seconds away. Otherwise nothing changes and nothing is spawned.
    pub handle_create_session-Authorized :
        (state : AppState json out.kb.State) (conn_id : String) (origin : Option String)
        (parsed : json.Value) (rid : Option String) (ids : SessionIds)
        (reply : Reply json out.kb.State)
        → handle_create_session json env lex docs out state conn_id origin parsed rid ids
          ≡ some reply
        → Authorized state.widget_auth state.config origin
            (or_default_str (str_field json parsed "agentId") ids.agent_id)
            parsed
          ⊎ ((reply.state ≡ state) × (reply.spawned ≡ []))
    unfolding handle_create_session
    handle_create_session-Authorized state conn_id origin parsed rid ids reply h =
        by_verdict
          (enforce_widget_auth json env state.widget_auth state.config origin agent_id parsed) refl
      where
        agent_id : String
        agent_id = or_default_str (str_field json parsed "agentId") ids.agent_id

        by_verdict :
            (v : Verdict)
            → enforce_widget_auth json env state.widget_auth state.config origin agent_id parsed ≡ v
            → Authorized state.widget_auth state.config origin agent_id parsed
              ⊎ ((reply.state ≡ state) × (reply.spawned ≡ []))
        by_verdict proceed e =
            inl (
              enforce_widget_auth-Authorized state.widget_auth state.config origin agent_id parsed
                e)
        by_verdict (denied code message) e =
            let got = rw (handle_create_session, e) at h in inr (ground arith, ground arith)
        by_verdict panicked e = cc (rw (handle_create_session, e) at h)
