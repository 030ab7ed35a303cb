-- ===== src/Widget/Origin.antt =====
-- `AgentWidgetAuth`, its providers, and the allow-list of origins
-- (rust/smooth-operator/src/widget_auth.rs).
use Prim.Native.String.{◌++◌}
use text.Mathlib.TextEquality.{eq_iff}
use smooth_agent.Base.{
  String, Bool, true, false, Option, none, some, List, [], ◌∷◌, ◌≡◌, ◌⊎◌, ◌↔◌, inl, inr, refl,
  arith, string_eq, ◌==◌, ◌||◌, any, if◌then◌else◌, Memᴰ, Bool-cases, any-true, any_of_mem,
  Option-cases, sym, ap, ◌∙◌,
}
use smooth_agent.Base.Dict.{Dict, get}
use smooth_agent.Base.Ascii.{split_once, strip_prefix, ends_with}

pub record AgentWidgetAuth : Type 0 where
  pub allowed_origins : List String
  pub public_key : Option String

-- `WidgetAuthProvider`: the bundled permissive and static ones, and a host's own.
pub data WidgetAuthProvider : Type 0 where
  permissive : WidgetAuthProvider
  static : Dict String AgentWidgetAuth → WidgetAuthProvider
  host : (String → Option AgentWidgetAuth) → WidgetAuthProvider

abbrev pub agent_widget_auth : WidgetAuthProvider → String → Option AgentWidgetAuth
agent_widget_auth permissive agent_id = none
agent_widget_auth (static rows) agent_id = get rows agent_id
agent_widget_auth (host policy) agent_id = policy agent_id

-- The host part of a wildcard pattern against the host of an origin.
unfoldable pub host_matches : String → String → Bool
host_matches pattern_host origin_host = elim (strip_prefix pattern_host "*.") [
  | none ↦ false
  | some suffix ↦ origin_host == suffix || ends_with origin_host ("." ++ suffix)
]

-- The wildcard part of `origin_matches`, on both sides split at their schemes.
unfoldable pub wildcard_matches : Option (String × String) → Option (String × String) → Bool
unfolding host_matches
wildcard_matches none origin = false
wildcard_matches (some p) none = false
wildcard_matches (some (p_scheme, p_host)) (some (o_scheme, o_host)) =
    if p_scheme == o_scheme then host_matches p_host o_host else false

unfoldable pub origin_matches : String → String → Bool
unfolding wildcard_matches
origin_matches pattern origin =
    if pattern == "*"
    then true
    else if pattern == origin
    then true
    else wildcard_matches (split_once pattern "://") (split_once origin "://")

unfoldable pub origin_allowed : List String → String → Bool
unfolding origin_matches
origin_allowed allowed origin = any (λ pattern. origin_matches pattern origin) allowed

-- What a pattern stands for: any origin, one origin, or the hosts of a scheme at or below a domain.
pub data Covers : String → String → Type 0 where
  everything : (pattern origin : String) → pattern ≡ "*" → Covers pattern origin
  exactly : (pattern origin : String) → pattern ≡ origin → Covers pattern origin
  below :
      (pattern origin scheme p_host o_host suffix : String)
      → split_once pattern "://" ≡ some (scheme, p_host)
      → split_once origin "://" ≡ some (scheme, o_host)
      → strip_prefix p_host "*." ≡ some suffix
      → (o_host ≡ suffix) ⊎ (ends_with o_host ("." ++ suffix) ≡ true)
      → Covers pattern origin

origin_tests :
    (origin_allowed ("https://*.smoo.ai" ∷ []) "https://app.smoo.ai" ≡ true)
    × (origin_allowed ("https://*.smoo.ai" ∷ []) "https://smoo.ai" ≡ true)
    × (origin_allowed ("https://*.smoo.ai" ∷ []) "https://evilsmoo.ai" ≡ false)
    × (origin_allowed ("https://*.smoo.ai" ∷ []) "http://app.smoo.ai" ≡ false)
unfolding origin_allowed split_once strip_prefix ends_with
origin_tests = (refl, refl, refl, refl)

host_matches-Covers :
    (pattern origin scheme p_host o_host : String)
    → split_once pattern "://" ≡ some (scheme, p_host)
    → split_once origin "://" ≡ some (scheme, o_host)
    → host_matches p_host o_host ≡ true
    → Covers pattern origin
unfolding host_matches
host_matches-Covers pattern origin scheme p_host o_host ps os h =
    elim (Option-cases (strip_prefix p_host "*.")) [
      | inl e ↦ cc (rw (e, host_matches) at h)
      | inr (suffix, e) ↦
          let split = rw (e, host_matches) at h in
          elim (Bool-cases (o_host == suffix)) [
            | inl same ↦
                below pattern origin scheme p_host o_host suffix ps os e
                  (inl ((eq_iff o_host suffix).0 same))
            | inr other ↦
                below pattern origin scheme p_host o_host suffix ps os e (inr (rw other at split))
          ]
    ]

wildcard_matches-Covers :
    (pattern origin : String) (p o : Option (String × String))
    → split_once pattern "://" ≡ p
    → split_once origin "://" ≡ o
    → wildcard_matches p o ≡ true
    → Covers pattern origin
unfolding wildcard_matches
wildcard_matches-Covers pattern origin none o ps os h = cc
wildcard_matches-Covers pattern origin (some p) none ps os h = cc
wildcard_matches-Covers pattern origin (some (p_scheme, p_host)) (some (o_scheme, o_host)) ps os h =
    elim (Bool-cases (p_scheme == o_scheme)) [
      | inl same ↦
          let scheme = (eq_iff p_scheme o_scheme).0 same in
          host_matches-Covers pattern origin p_scheme p_host o_host ps
            (os ∙ ap (λ s. some (s, o_host)) (sym scheme)) (rw same at h)
      | inr other ↦ cc (rw other at h)
    ]

origin_matches-Covers :
    (pattern origin : String) → origin_matches pattern origin ≡ true → Covers pattern origin
unfolding origin_matches
origin_matches-Covers pattern origin h = elim (Bool-cases (pattern == "*")) [
  | inl e ↦ everything pattern origin ((eq_iff pattern "*").0 e)
  | inr some_host ↦ elim (Bool-cases (pattern == origin)) [
    | inl e ↦ exactly pattern origin ((eq_iff pattern origin).0 e)
    | inr wild ↦ wildcard_matches-Covers pattern origin _ _ refl refl (rw (some_host, wild) at h)
  ]
]

wildcard-origin_matches :
    (pattern origin : String)
    → wildcard_matches (split_once pattern "://") (split_once origin "://") ≡ true
    → origin_matches pattern origin ≡ true
unfolding origin_matches
wildcard-origin_matches pattern origin h = ground (arith, h)

Covers-origin_matches :
    (pattern origin : String) → Covers pattern origin → origin_matches pattern origin ≡ true
Covers-origin_matches pattern origin (everything _ _ e) =
    unfold origin_matches in ground (arith, eq_iff pattern "*")
Covers-origin_matches pattern origin (exactly _ _ e) =
    unfold origin_matches in ground (arith, eq_iff pattern origin)
Covers-origin_matches pattern origin (below _ _ scheme p_host o_host suffix ps os sfx h) =
    wildcard-origin_matches pattern origin
      (rw (ps, os) (same_scheme scheme p_host o_host (under p_host o_host suffix sfx h)))
  where
    same_scheme :
        (s p o : String)
        → host_matches p o ≡ true
        → wildcard_matches (some (s, p)) (some (s, o)) ≡ true
    same_scheme s p o h = unfold wildcard_matches in ground (arith, h, eq_iff s s)

    under :
        (p_host o_host suffix : String)
        → strip_prefix p_host "*." ≡ some suffix
        → (o_host ≡ suffix) ⊎ (ends_with o_host ("." ++ suffix) ≡ true)
        → host_matches p_host o_host ≡ true
    under p_host o_host suffix sfx h =
        unfold host_matches in (rw (sfx, host_matches) (ground (arith, h, eq_iff o_host suffix)))

-- An origin is allowed exactly if some entry of the list covers it, so an empty list allows none.
pub origin_allowed_iff :
    (allowed : List String) (origin : String)
    → (origin_allowed allowed origin ≡ true)
      ↔ ((pattern : String) × Memᴰ pattern allowed × Covers pattern origin)
unfolding origin_allowed
origin_allowed_iff allowed origin = (
  λ h.
      let (pattern, m, e) = any-true (λ p. origin_matches p origin) allowed h in
      (pattern, m, origin_matches-Covers pattern origin e),
  λ (pattern, m, c).
      any_of_mem (λ p. origin_matches p origin) m (Covers-origin_matches pattern origin c),
)
