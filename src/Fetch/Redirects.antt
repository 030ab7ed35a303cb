-- ===== src/Fetch/Redirects.antt =====
-- Following redirects: the policy of `safe_http_client`, and what a fetch requests. The network is a
-- parameter, and so is the HTTP client, which asks the policy before it follows a redirect and tells
-- it the URLs that it has requested so far.
use mathlib.Core.Path.{subst}
use smooth_agent.Base.{
  ℕ, zero, suc, ◌+◌, ◌≤◌, ◌≡◌, ◌⊎◌, String, true, false, Option, none, some, List, [], ◌∷◌, ◌++◌,
  refl, sym, ap, ◌∙◌, arith, string_eq, length, leb, if◌then◌else◌, All, All-append, length-append,
  Bool-cases, Option-cases, inl, inr,
}
use smooth_agent.Base.Outcome.{Outcome, ok, err, Outcome-cases, >>=-eq-ok}
use smooth_agent.Fetch.Guard.{
  Ipv4, Ipv6, Host, domain, ipv4, ipv6, UrlCrate, is_blocked_ipv4, is_blocked_ipv6, to_ipv4,
  is_localhost, is_http, host_of, assert_ipv4_public, assert_ipv6_public, assert_host_public,
  check_url, assert_url_is_public,
}

-- A host that the guard lets through: a name other than localhost, or an address outside of the
-- blocked ones, also where it stands inside an IPv6 address.
pub data Public : Host → Type 0 where
  named : (name : String) → is_localhost name ≡ false → Public (domain name)
  v4 : (ip : Ipv4) → is_blocked_ipv4 ip ≡ false → Public (ipv4 ip)
  v6 : (ip : Ipv6) → to_ipv4 ip ≡ none → is_blocked_ipv6 ip ≡ false → Public (ipv6 ip)
  embedded :
      (ip : Ipv6) (inner : Ipv4)
      → to_ipv4 ip ≡ some inner
      → is_blocked_ipv4 inner ≡ false
      → Public (ipv6 ip)

assert_ipv4_public-ok : (ip : Ipv4) → assert_ipv4_public ip ≡ ok tt → is_blocked_ipv4 ip ≡ false
unfolding assert_ipv4_public
assert_ipv4_public-ok ip h = elim (Bool-cases (is_blocked_ipv4 ip)) [
  | inl e ↦ cc (rw (assert_ipv4_public, e) at h)
  | inr e ↦ e
]

assert_ipv6_public-Public : (ip : Ipv6) → assert_ipv6_public ip ≡ ok tt → Public (ipv6 ip)
unfolding assert_ipv6_public
assert_ipv6_public-Public ip h = elim (Option-cases (to_ipv4 ip)) [
  | inr (inner, e) ↦
      embedded ip inner e (assert_ipv4_public-ok inner (rw (assert_ipv6_public, e) at h))
  | inl e ↦ elim (Bool-cases (is_blocked_ipv6 ip)) [
    | inl b ↦ cc (rw (assert_ipv6_public, e, b) at h)
    | inr b ↦ v6 ip e b
  ]
]

assert_host_public-Public : (h : Host) → assert_host_public h ≡ ok tt → Public h
unfolding assert_host_public
assert_host_public-Public (domain name) p = elim (Bool-cases (is_localhost name)) [
  | inl e ↦ cc (rw e at p)
  | inr e ↦ named name e
]
assert_host_public-Public (ipv4 ip) p = v4 ip (assert_ipv4_public-ok ip p)
assert_host_public-Public (ipv6 ip) p = assert_ipv6_public-Public ip p

-- What the server of a URL answers: a redirect, or a page.
pub data Response (Url Page : Type 0) : Type 0 where
  moved : Url → Response Url Page
  page : Page → Response Url Page

module _ (crate : UrlCrate) where
  open crate use {Url, parse, as_str, host, parse-as_str}

  -- Fetched over HTTP(S) from a public host.
  pub record PublicUrl (u : Url) : Type 0 where
    pub web : is_http crate u ≡ true
    pub at : Host
    pub has_host : host u ≡ some at
    pub public : Public at

  check_url-PublicUrl : (u v : Url) → check_url crate u ≡ ok v → (u ≡ v) × PublicUrl u
  unfolding check_url
  check_url-PublicUrl u v h = elim (Bool-cases (is_http crate u)) [
    | inr w ↦ cc (rw (check_url, w) at h)
    | inl w ↦ elim (Option-cases (host u)) [
      | inl e ↦ cc (rw (check_url, w, host_of, e) at h)
      | inr (at, e) ↦ elim (Outcome-cases (assert_host_public at)) [
        | inr (m, p) ↦ cc (rw (check_url, w, host_of, e, p) at h)
        | inl (_, p) ↦
            let got = rw (check_url, w, host_of, e, p) at h in
            (
              ground arith,
              record { web = w; at = at; has_host = e; public = assert_host_public-Public at p },
            )
      ]
    ]
  ]

  -- The guard lets through only what is public, and gives the URL that it has parsed.
  pub assert_url_is_public-PublicUrl :
      (raw : String) (u : Url)
      → assert_url_is_public crate raw ≡ ok u
      → (parse raw ≡ ok u) × PublicUrl u
  unfolding assert_url_is_public
  assert_url_is_public-PublicUrl raw u h =
      let (v, p, e) = >>=-eq-ok (parse raw) (check_url crate) h in
      let (same, public) = check_url-PublicUrl v u e in
      (p ∙ ap ok same, subst PublicUrl same public)

  module _ {Page : Type 0} (respond : Url → Response Url Page) where
    -- The policy's answer to a redirect, after the URLs that were requested.
    unfoldable pub redirect_policy : List Url → Url → Outcome Url
    redirect_policy previous next =
        if leb 10 (length previous)
        then err "fetch_url: too many redirects"
        else assert_url_is_public crate (as_str next)

    -- The requests from a URL on, at most `n` of them: the outcome and all URLs requested.
    unfoldable pub follow : ℕ → List Url → Url → Option (Outcome Page × List Url)
    unfolding redirect_policy
    follow zero previous u = none
    follow (suc n) previous u =
        let requested = previous ++ u ∷ [] in
        elim (respond u) [
          | page p ↦ some (ok p, requested)
          | moved next ↦ elim (redirect_policy requested next) [
            | err e ↦ some (err e, requested)
            | ok _ ↦ follow n requested next
          ]
        ]

    -- A fetch of a text given by the model.
    unfoldable pub fetch : ℕ → String → Option (Outcome Page × List Url)
    unfolding follow
    fetch n raw = elim (assert_url_is_public crate raw) [
      | err e ↦ some (err e, [])
      | ok url ↦ follow n [] url
    ]

    -- It ends, with at most ten requests, all of public URLs.
    abbrev pub IsSafe : Option (Outcome Page × List Url) → Type 0
    IsSafe r =
        (outcome : Outcome Page) × (requested : List Url) × (r ≡ some (outcome, requested))
        × All PublicUrl requested
        × (length requested ≤ 10)

    Response-cases :
        (r : Response Url Page) → ((p : Page) × (r ≡ page p)) ⊎ ((next : Url) × (r ≡ moved next))
    Response-cases (page p) = inl (p, refl)
    Response-cases (moved next) = inr (next, refl)

    policy_ok :
        (previous : List Url) (next v : Url)
        → redirect_policy previous next ≡ ok v
        → (suc (length previous) ≤ 10) × PublicUrl next
    unfolding redirect_policy
    policy_ok previous next v h = elim (Bool-cases (leb 10 (length previous))) [
      | inl e ↦ cc (rw (redirect_policy, e) at h)
      | inr e ↦
          let (p, public) =
            assert_url_is_public-PublicUrl (as_str next) v (rw (redirect_policy, e) at h) in
          (ground arith, subst PublicUrl (the_url v next (sym p ∙ parse-as_str next)) public)
    ]
      where
        the_url : (v next : Url) → ok v ≡ ok next → v ≡ next
        the_url v next e = cc

    follow_step :
        (n : ℕ) (previous : List Url) (u : Url)
        → suc n + length previous ≡ 10
        → All PublicUrl previous
        → PublicUrl u
        → ((next : Url)
            → n + length (previous ++ u ∷ []) ≡ 10
            → suc (length (previous ++ u ∷ [])) ≤ 10
            → All PublicUrl (previous ++ u ∷ [])
            → PublicUrl next
            → IsSafe (follow n (previous ++ u ∷ []) next))
        → IsSafe (follow (suc n) previous u)
    unfolding follow
    follow_step n previous u left before public onwards =
        let requested = previous ++ u ∷ [] in
        let count = length-append previous (u ∷ []) in
        let sent : All PublicUrl requested =
          All-append PublicUrl previous (u ∷ []) before (public, tt) in
        let few : length requested ≤ 10 = omega (arith, left, count) in
        elim (Response-cases (respond u)) [
          | inl (p, e) ↦ rw (follow, e) (ok p, requested, refl, sent, few)
          | inr (next, e) ↦ elim (Outcome-cases (redirect_policy requested next)) [
            | inr (m, p) ↦ rw (follow, e, p) (err m, requested, refl, sent, few)
            | inl (v, p) ↦
                let (room, is_public) = policy_ok requested next v p in
                let tail : n + length requested ≡ 10 = omega (arith, left, count) in
                rw (follow, e, p) (onwards next tail room sent is_public)
          ]
        ]

    follow-IsSafe :
        (n : ℕ) (previous : List Url) (u : Url)
        → suc n + length previous ≡ 10
        → All PublicUrl previous
        → PublicUrl u
        → IsSafe (follow (suc n) previous u)
    follow-IsSafe zero previous u left before public =
        follow_step zero previous u left before public
          (λ next all_used room b p. absurd (omega (arith, all_used, room)))
    follow-IsSafe (suc n) previous u left before public =
        follow_step (suc n) previous u left before public
          (λ next left' room b p. follow-IsSafe n (previous ++ u ∷ []) next left' b p)

    -- A fetch ends, whatever the servers answer: ten steps are enough, it sends at most ten requests,
    -- and each of them is to a public URL, the targets of redirects included.
    pub fetch-IsSafe : (raw : String) → IsSafe (fetch 10 raw)
    unfolding fetch
    fetch-IsSafe raw = elim (Outcome-cases (assert_url_is_public crate raw)) [
      | inr (m, e) ↦ rw (fetch, e) (err m, [], refl, tt, omega arith)
      | inl (u, e) ↦
          rw (fetch, e) (follow-IsSafe 9 [] u refl tt (assert_url_is_public-PublicUrl raw u e).1)
    ]
