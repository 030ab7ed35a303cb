-- ===== src/Base/Tests.antt =====
-- Boolean tests on numbers and keys, the conditional, and case splits that keep their equation.
use text.Mathlib.TextEquality.{eq_iff}
use Prim.Native.Nat.{ℕ, compare, Ordering}
use Prim.Native.String.{String}
use mathlib.Core.Path.{◌≡◌, refl}
use mathlib.Core.Logic.{◌↔◌, ◌⊎◌, inl, inr}
use mathlib.Core.Bool.{Bool, true, false}
use text.Mathlib.Text.{◌==◌ as str_eq}
use mathlib.Core.Option.{Option, none, some}
use native.Mathlib.Omega.{arith}

abbrev pub ltb : ℕ → ℕ → Bool
ltb a b = elim (compare a b) [ Ordering.lt ↦ true | _ ↦ false ]

abbrev pub leb : ℕ → ℕ → Bool
leb a b = elim (compare a b) [ Ordering.gt ↦ false | _ ↦ true ]

abbrev pub nat_eqb : ℕ → ℕ → Bool
nat_eqb a b = elim (compare a b) [ Ordering.eq ↦ true | _ ↦ false ]

infix 1 if◌then◌else◌
abbrev pub if◌then◌else◌ {ℓ} : {A : Type ℓ} → Bool → A → A → A
if true then x else y = x
if false then x else y = y

pub nat_eqb_iff : (a b : ℕ) → (nat_eqb a b ≡ true) ↔ (a ≡ b)
nat_eqb_iff a b = ground arith

pub Bool-cases : (b : Bool) → (b ≡ true) ⊎ (b ≡ false)
Bool-cases true = inl refl
Bool-cases false = inr refl

pub Option-cases {ℓ} : {A : Type ℓ} (o : Option A) → (o ≡ none) ⊎ ((a : A) × (o ≡ some a))
Option-cases none = inl refl
Option-cases (some a) = inr (a, refl)

-- Rust's `Eq` on a key type: a test that decides equality.
pub record Eq (Key : Type 0) : Type 0 where
  pub beq : (k l : Key) → Bool
  pub beq_iff : (k l : Key) → (beq k l ≡ true) ↔ (k ≡ l)

infix 50 ◌==◌
abbrev pub ◌==◌ : {Key : Type 0} ⦃e : Eq Key⦄ (k l : Key) → Bool
◌==◌ ⦃e⦄ = e.beq

instance abbrev pub string_eq : Eq String
string_eq = record { beq = str_eq; beq_iff = eq_iff }

instance abbrev pub nat_eq : Eq ℕ
nat_eq = record { beq = nat_eqb; beq_iff = nat_eqb_iff }

module _ {A : Type 0} ⦃e : Eq A⦄ where
  pub ==_refl : (a : A) → (a == a) ≡ true
  ==_refl a = (e.beq_iff a a).1 refl

-- `Option<K>` compared with `==`.
abbrev pub option_eqb : {A : Type 0} → (A → A → Bool) → Option A → Option A → Bool
option_eqb f none none = true
option_eqb f (some a) (some b) = f a b
option_eqb f _ _ = false
