-- ===== src/Widget/Context.antt =====
-- The signed `authContext` of a widget (`verify_auth_context` of
-- rust/smooth-operator/src/widget_auth.rs). HMAC-SHA256 and the hex decoder are third-party crates.
use Prim.Native.String.{◌++◌}
use smooth_agent.Base.{
  ℕ, ◌-◌, ◌⊎◌, String, Bool, true, false, Option, none, some, List, ◌≡◌, ◌+◌, ◌≤◌, ◌<◌, refl, arith,
  if◌then◌else◌, ltb, leb, ◌&&◌, ◌↔◌, Option-cases, Bool-cases, inl, inr, ap, sym, ◌∙◌,
}
use smooth_agent.Base.Int.{ℤ, pos, negsuc, i64_half, i64_sub, i64_abs, gt_ℤ, pos_part, neg_part}

-- The functions that the check calls: `hex::decode`, a number's `Display`, and the verification of
-- an HMAC under a key (`none` for a key that is refused) of a message against a signature.
pub record HmacCrates : Type 0 where
  pub hex_decode : String → Option (List ℕ)
  pub show_i64 : ℤ → String
  pub verify_slice : String → String → List ℕ → Option Bool

-- The signature's part of the check.
unfoldable pub signature_ok : HmacCrates → String → String → String → ℤ → Bool
signature_ok crates public_key user_id signature_hex timestamp =
    elim (crates.hex_decode signature_hex) [
      | none ↦ false
      | some sig ↦
          elim (crates.verify_slice public_key (user_id ++ (":" ++ crates.show_i64 timestamp))
            sig) [ none ↦ false | some ok ↦ ok ]
    ]

-- `(now_unix - timestamp).abs()`, which overflows on some timestamps.
unfoldable pub replay_distance : Bool → ℤ → ℤ → Option ℤ
unfolding i64_sub i64_abs
replay_distance checks now_unix timestamp = elim (i64_sub checks now_unix timestamp) [
  | none ↦ none
  | some d ↦ i64_abs checks d
]

-- `none` is a panic, which only a build with overflow checks has.
unfoldable pub verify_auth_context :
    HmacCrates → Bool → String → String → String → ℤ → ℤ → ℤ → Option Bool
unfolding signature_ok replay_distance
verify_auth_context crates checks public_key user_id signature_hex timestamp now_unix max_age_secs =
    elim (replay_distance checks now_unix timestamp) [
      | none ↦ none
      | some distance ↦
          if gt_ℤ distance max_age_secs
          then some false
          else some (signature_ok crates public_key user_id signature_hex timestamp)
    ]

-- Two times less than 2 ^ 63 seconds apart.
abbrev pub AreNear : ℤ → ℤ → Type 0
AreNear a b =
    (pos_part a + neg_part b < i64_half + (neg_part a + pos_part b))
    × (neg_part a + pos_part b < i64_half + (pos_part a + neg_part b))

-- The distance of two times.
abbrev pub distance : ℤ → ℤ → ℕ
distance a b =
    let ahead = pos_part a + neg_part b in
    let behind = neg_part a + pos_part b in
    if leb behind ahead then ahead - behind else behind - ahead

abbrev pub IsFar : ℤ → ℤ → Type 0
IsFar a b =
    (i64_half + (neg_part a + pos_part b) ≤ pos_part a + neg_part b)
    ⊎ (i64_half + (pos_part a + neg_part b) ≤ neg_part a + pos_part b)

replay_distance-near :
    (checks : Bool) (now_unix timestamp : ℤ)
    → AreNear now_unix timestamp
    → replay_distance checks now_unix timestamp ≡ some (pos (distance now_unix timestamp))
unfolding replay_distance i64_sub i64_abs
replay_distance-near checks (pos n) (pos t) (a, b) = ground arith
replay_distance-near checks (pos n) (negsuc t) (a, b) = ground arith
replay_distance-near checks (negsuc n) (pos t) (a, b) = ground arith
replay_distance-near checks (negsuc n) (negsuc t) (a, b) = ground arith

replay_distance-far :
    (now_unix timestamp : ℤ)
    → IsFar now_unix timestamp
    → replay_distance true now_unix timestamp ≡ none
unfolding replay_distance i64_sub i64_abs
replay_distance-far (pos n) (pos t) far = ground arith
replay_distance-far (pos n) (negsuc t) far = ground arith
replay_distance-far (negsuc n) (pos t) far = ground arith
replay_distance-far (negsuc n) (negsuc t) far = ground arith

-- Two times exactly 2 ^ 63 seconds apart.
abbrev pub AreAntipodal : ℤ → ℤ → Type 0
AreAntipodal a b =
    (pos_part a + neg_part b ≡ i64_half + (neg_part a + pos_part b))
    ⊎ (neg_part a + pos_part b ≡ i64_half + (pos_part a + neg_part b))

replay_distance-wraps :
    (now_unix timestamp : ℤ)
    → AreAntipodal now_unix timestamp
    → replay_distance false now_unix timestamp ≡ some (negsuc 0x7fffffffffffffff)
unfolding replay_distance i64_sub i64_abs
replay_distance-wraps (pos n) (pos t) apart = ground arith
replay_distance-wraps (pos n) (negsuc t) apart = ground arith
replay_distance-wraps (negsuc n) (pos t) apart = ground arith
replay_distance-wraps (negsuc n) (negsuc t) apart = ground arith

module _ (crates : HmacCrates) (public_key user_id signature_hex : String) where
  -- The hex text is of a signature, under the key, of the user id and the timestamp with a colon
  -- between them.
  abbrev pub IsSigned : ℤ → Type 0
  IsSigned timestamp =
      (signature : List ℕ) × (crates.hex_decode signature_hex ≡ some signature)
      × (crates.verify_slice public_key (user_id ++ (":" ++ crates.show_i64 timestamp)) signature
          ≡ some true)

  signature_ok→IsSigned :
      (timestamp : ℤ)
      → signature_ok crates public_key user_id signature_hex timestamp ≡ true
      → IsSigned timestamp
  unfolding signature_ok
  signature_ok→IsSigned timestamp h = elim (Option-cases (crates.hex_decode signature_hex)) [
    | inl e ↦ cc (rw (signature_ok, e) at h)
    | inr (sig, e) ↦
        elim (Option-cases
          (crates.verify_slice public_key (user_id ++ (":" ++ crates.show_i64 timestamp)) sig)) [
            | inl v ↦ cc (rw (signature_ok, e, v) at h)
            | inr (b, v) ↦ (sig, e, v ∙ ap some (rw (signature_ok, e, v) at h))
          ]
  ]

  IsSigned→signature_ok :
      (timestamp : ℤ)
      → IsSigned timestamp
      → signature_ok crates public_key user_id signature_hex timestamp ≡ true
  unfolding signature_ok
  IsSigned→signature_ok timestamp (sig, e, v) = rw (signature_ok, e, v) refl

  -- The times differ by the age at most.
  abbrev pub IsFresh : (now_unix timestamp max_age_secs : ℤ) → Type 0
  IsFresh now_unix timestamp max_age_secs =
      distance now_unix timestamp + neg_part max_age_secs ≤ pos_part max_age_secs

  verify_auth_context-near :
      (checks : Bool) (now_unix timestamp max_age_secs : ℤ)
      → AreNear now_unix timestamp
      → verify_auth_context crates checks public_key user_id signature_hex timestamp now_unix
          max_age_secs
        ≡ some (
            leb (distance now_unix timestamp + neg_part max_age_secs) (pos_part max_age_secs)
            && signature_ok crates public_key user_id signature_hex timestamp)
  unfolding verify_auth_context
  verify_auth_context-near checks now_unix timestamp max_age_secs near =
      rw (verify_auth_context, replay_distance-near checks now_unix timestamp near)
        (window (distance now_unix timestamp) (neg_part max_age_secs) (pos_part max_age_secs)
          (signature_ok crates public_key user_id signature_hex timestamp))
    where
      window :
          (d below above : ℕ) (signed : Bool)
          → (if ltb (above + 0) (d + below) then some false else some signed)
            ≡ some (leb (d + below) above && signed)
      window d below above signed = ground arith

  -- The check of two times less than 2 ^ 63 seconds apart never panics, and succeeds exactly if the
  -- times differ by `max_age_secs` at most and the signature is, under the key, one of the user id and
  -- the timestamp, joined by a colon. With times further apart a build with overflow checks panics.
  pub verify_auth_context_lem :
      (now_unix timestamp max_age_secs : ℤ)
      → ((checks : Bool)
          → AreNear now_unix timestamp
          → (b : Bool) × (verify_auth_context crates checks public_key user_id signature_hex
                timestamp now_unix max_age_secs
              ≡ some b)
            × ((b ≡ true) ↔ (IsFresh now_unix timestamp max_age_secs × IsSigned timestamp)))
        × (IsFar now_unix timestamp
            → verify_auth_context crates true public_key user_id signature_hex timestamp now_unix
                max_age_secs
              ≡ none)
  unfolding verify_auth_context
  verify_auth_context_lem now_unix timestamp max_age_secs = (
    λ checks near. (
      leb (distance now_unix timestamp + neg_part max_age_secs) (pos_part max_age_secs)
          && signature_ok crates public_key user_id signature_hex timestamp,
      verify_auth_context-near checks now_unix timestamp max_age_secs near,
      (
        λ h. (ground arith, signature_ok→IsSigned timestamp (ground arith)),
        λ fresh_signed.
            let signed = IsSigned→signature_ok timestamp fresh_signed.1 in
            let fresh = fresh_signed.0 in ground arith,
      ),
    ),
    λ far. rw (verify_auth_context, replay_distance-far now_unix timestamp far) refl,
  )

  near_or_IsFar : (a b : ℤ) → AreNear a b ⊎ IsFar a b
  near_or_IsFar a b = ground arith

  -- Whatever passes is signed, and it is fresh but in a build without overflow checks, where a
  -- timestamp at least 2 ^ 63 seconds away may pass, too.
  pub verify_auth_context-accepts :
      (checks : Bool) (now_unix timestamp max_age_secs : ℤ)
      → verify_auth_context crates checks public_key user_id signature_hex timestamp now_unix
          max_age_secs
        ≡ some true
      → IsSigned timestamp
        × (IsFresh now_unix timestamp max_age_secs ⊎ ((checks ≡ false) × IsFar now_unix timestamp))
  unfolding verify_auth_context
  verify_auth_context-accepts checks now_unix timestamp max_age_secs h =
      elim (near_or_IsFar now_unix timestamp) [
        | inl near ↦
            let both =
              the_same _
                (sym (verify_auth_context-near checks now_unix timestamp max_age_secs near) ∙ h) in
            (signature_ok→IsSigned timestamp (ground arith), inl (ground arith))
        | inr far ↦ elim (Bool-cases checks) [
          | inl on ↦
              let panics = (verify_auth_context_lem now_unix timestamp max_age_secs).1 far in
              cc (rw on at h, panics)
          | inr off ↦ elim (Option-cases (replay_distance checks now_unix timestamp)) [
            | inl e ↦ cc (rw (verify_auth_context, e) at h)
            | inr (d, e) ↦
                let signed = decided (gt_ℤ d max_age_secs) _ (rw (verify_auth_context, e) at h) in
                (signature_ok→IsSigned timestamp signed, inr (off, far))
          ]
        ]
      ]
    where
      the_same : (b : Bool) → some b ≡ some true → b ≡ true
      the_same b h = cc

      decided :
          (stale signed : Bool)
          → (if stale then some false else some signed) ≡ some true
          → signed ≡ true
      decided true signed h = cc
      decided false signed h = the_same signed h

  -- In a build without overflow checks a timestamp 2 ^ 63 seconds away from the present, on either
  -- side, passes the replay window of every age that is not negative: only the signature decides.
  pub verify_auth_context-wraps :
      (now_unix timestamp max_age_secs : ℤ)
      → neg_part max_age_secs ≡ 0
      → AreAntipodal now_unix timestamp
      → verify_auth_context crates false public_key user_id signature_hex timestamp now_unix
          max_age_secs
        ≡ some (signature_ok crates public_key user_id signature_hex timestamp)
  unfolding verify_auth_context
  verify_auth_context-wraps now_unix timestamp max_age_secs positive apart =
      rw (verify_auth_context, replay_distance-wraps now_unix timestamp apart, positive)
        (inside (pos_part max_age_secs))
    where
      inside :
          (above : ℕ)
          → (if ltb (above + i64_half) 0
              then some false
              else some (signature_ok crates public_key user_id signature_hex timestamp))
            ≡ some (signature_ok crates public_key user_id signature_hex timestamp)
      inside above = ground arith
