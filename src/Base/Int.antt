-- ===== src/Base/Int.antt =====
-- Signed numbers over the native ones, with the operations of `i64` that may overflow.
use Prim.Native.Nat.{ℕ, suc, ◌+◌, ◌-◌, ◌≤◌, ◌<◌}
use mathlib.Core.Path.{◌≡◌, refl}
use mathlib.Core.Bool.{Bool, false}
use mathlib.Core.Option.{Option, none, some}
use smooth_agent.Base.Tests.{leb, ltb, if◌then◌else◌}

-- `negsuc n` is -(n + 1).
pub data ℤ : Type 0 where
  pos negsuc : ℕ → ℤ

abbrev pub pos_part : ℤ → ℕ
pos_part (negsuc _) = 0
pos_part (pos n) = n

abbrev pub neg_part : ℤ → ℕ
neg_part (negsuc n) = suc n
neg_part (pos _) = 0

-- The difference of two numbers.
abbrev pub sub_ℕ : (minuend subtrahend : ℕ) → ℤ
sub_ℕ m k = if leb k m then pos (m - k) else negsuc (k - m - 1)

-- `2 ^ 63`
abbrev pub i64_half : ℕ
i64_half = 0x8000000000000000

-- `i64::MIN ≤ z ≤ i64::MAX`
abbrev pub IsI64 : ℤ → Type 0
IsI64 z = (pos_part z < i64_half) × (neg_part z ≤ i64_half)

abbrev pub fits_i64 : ℤ → Bool
fits_i64 z = if ltb (pos_part z) i64_half then leb (neg_part z) i64_half else false

-- A result that is past the range by less than `2 ^ 64`, brought back into it.
abbrev pub wrap_i64 : ℤ → ℤ
wrap_i64 z =
    if leb i64_half (pos_part z)
    then sub_ℕ (pos_part z) (i64_half + i64_half)
    else if ltb i64_half (neg_part z)
    then sub_ℕ (i64_half + i64_half) (neg_part z)
    else z

-- A result of `i64` arithmetic: with overflow checks `none` is a panic, without them it wraps.
abbrev pub i64_result : Bool → ℤ → Option ℤ
i64_result checks z = if fits_i64 z then some z else if checks then none else some (wrap_i64 z)

-- `a - b`
unfoldable pub i64_sub : Bool → ℤ → ℤ → Option ℤ
i64_sub checks a b = i64_result checks (sub_ℕ (pos_part a + neg_part b) (neg_part a + pos_part b))

-- `a.abs()`
unfoldable pub i64_abs : Bool → ℤ → Option ℤ
i64_abs checks a = i64_result checks (if ltb 0 (neg_part a) then pos (neg_part a) else a)

-- `a > b`
abbrev pub gt_ℤ : ℤ → ℤ → Bool
gt_ℤ a b = ltb (pos_part b + neg_part a) (pos_part a + neg_part b)

min_wraps : i64_abs false (negsuc 0x7fffffffffffffff) ≡ some (negsuc 0x7fffffffffffffff)
unfolding i64_abs
min_wraps = refl
