-- ===== src/Server/Totality.antt =====
-- A build without overflow checks does not panic in the policy of widgets.
use smooth_agent.Base.{
  ◌+◌, String, Bool, false, Option, none, some, ◌≡◌, inl, inr, refl, string_eq, Bool-cases,
  Option-cases, if◌then◌else◌, ltb,
}
use smooth_agent.Base.Int.{
  ℤ, pos, i64_sub, i64_abs, fits_i64, wrap_i64, i64_result, gt_ℤ, sub_ℕ, pos_part, neg_part,
}
use smooth_agent.Json.{Json, str_field, i64_field}
use smooth_agent.Widget.Origin.{WidgetAuthProvider, agent_widget_auth, origin_allowed}
use smooth_agent.Widget.Context.{HmacCrates, replay_distance, signature_ok, verify_auth_context}
use smooth_agent.Server.Config.{ServerConfig}
use smooth_agent.Server.Policy.{
  Ambient, panicked, verify_fields, verify_auth_context_value, check_context, enforce_widget_auth,
  origin_or_empty, now_unix,
}

i64_result-wraps : (z : ℤ) → (w : ℤ) × (i64_result false z ≡ some w)
i64_result-wraps z = elim (Bool-cases (fits_i64 z)) [
  | inl e ↦ (z, rw e refl)
  | inr e ↦ (wrap_i64 z, rw e refl)
]

i64_sub-wraps : (a b : ℤ) → (w : ℤ) × (i64_sub false a b ≡ some w)
unfolding i64_sub
i64_sub-wraps a b = i64_result-wraps (sub_ℕ (pos_part a + neg_part b) (neg_part a + pos_part b))

i64_abs-wraps : (a : ℤ) → (w : ℤ) × (i64_abs false a ≡ some w)
unfolding i64_abs
i64_abs-wraps a = i64_result-wraps (if ltb 0 (neg_part a) then pos (neg_part a) else a)

-- Without overflow checks the check of a context does not panic.
verify_auth_context-total :
    (crates : HmacCrates) (pk user signature : String) (timestamp now_unix max_age : ℤ)
    → (b : Bool) × (verify_auth_context crates false pk user signature timestamp now_unix max_age
        ≡ some b)
unfolding verify_auth_context replay_distance
verify_auth_context-total crates pk user signature timestamp now_unix max_age =
    let (d, e) = i64_sub-wraps now_unix timestamp in
    let (m, f) = i64_abs-wraps d in
    elim (Bool-cases (gt_ℤ m max_age)) [
      | inl late ↦ (false, rw (verify_auth_context, replay_distance, e, f, late) refl)
      | inr near ↦ (
        signature_ok crates pk user signature timestamp,
        rw (verify_auth_context, replay_distance, e, f, near) refl,
      )
    ]

module _ (json : Json) (env : Ambient) where
  verify_fields-total :
      (pk user signature : Option String) (timestamp : Option ℤ)
      → env.checks ≡ false
      → (b : Bool) × (verify_fields env pk user signature timestamp ≡ some b)
  verify_fields-total none u s t e = (false, refl)
  verify_fields-total (some pk) none s t e = (false, refl)
  verify_fields-total (some pk) (some u) none t e = (false, refl)
  verify_fields-total (some pk) (some u) (some s) none e = (false, refl)
  verify_fields-total (some pk) (some u) (some s) (some t) e =
      let (b, p) = verify_auth_context-total env.hmac pk u s t (now_unix env) (pos 60) in
      (b, rw e p)

  -- A panic of the policy's check can only be an overflow.
  pub enforce_widget_auth-total :
      (provider : WidgetAuthProvider) (config : ServerConfig) (origin : Option String)
      (agent_id : String) (parsed : json.Value)
      → env.checks ≡ false
      → (enforce_widget_auth json env provider config origin agent_id parsed ≡ panicked)
      → ⊥
  unfolding enforce_widget_auth check_context verify_auth_context_value
  enforce_widget_auth-total provider config origin agent_id parsed unchecked h =
      elim (Option-cases (agent_widget_auth provider agent_id)) [
        | inl e ↦ elim (Bool-cases config.widget_auth_strict) [
          | inl s ↦ cc (rw (enforce_widget_auth, e, s) at h)
          | inr s ↦ cc (rw (enforce_widget_auth, e, s) at h)
        ]
        | inr (policy, e) ↦
            elim (Bool-cases (origin_allowed policy.allowed_origins (origin_or_empty origin))) [
              | inr o ↦ cc (rw (enforce_widget_auth, e, o) at h)
              | inl o ↦
                  context-total policy.public_key (json.field parsed "authContext")
                    (rw (enforce_widget_auth, e, o) at h)
            ]
      ]
    where
      context-total :
          (key : Option String) (ac : Option json.Value)
          → check_context json env key ac ≡ panicked
          → ⊥
      context-total key none h = cc
      context-total key (some ac) h =
          let (b, e) =
            verify_fields-total key (str_field json ac "userId") (str_field json ac "signature")
              (i64_field json ac "timestamp") unchecked in
          elim (Bool-cases b) [
            | inl t ↦ cc (rw (check_context, verify_auth_context_value, e, t) at h)
            | inr f ↦ cc (rw (check_context, verify_auth_context_value, e, f) at h)
          ]
