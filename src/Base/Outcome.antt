-- ===== src/Base/Outcome.antt =====
-- `anyhow::Result`: a value, or an error with its message.
use Prim.Native.String.{String}
use mathlib.Core.Path.{◌≡◌, refl}
use mathlib.Core.Logic.{◌⊎◌, inl, inr}
use mathlib.Core.Bool.{Bool, false}
use native.Mathlib.Omega.{arith}
use smooth_agent.Base.Tests.{if◌then◌else◌}

pub data Outcome {ℓ} (A : Type ℓ) : Type ℓ where
  ok : A → Outcome A
  err : String → Outcome A

infixl 5 ◌>>=◌ ◌>>◌
abbrev pub ◌>>=◌ {ℓ κ} : {X : Type ℓ} {Y : Type κ} (first : Outcome X) → (X → Outcome Y) → Outcome Y
err message >>= _ = err message
ok x >>= next = next x

abbrev pub ◌>>◌ {ℓ κ} : {X : Type ℓ} {Y : Type κ} (first : Outcome X) → Outcome Y → Outcome Y
first >> second = first >>= λ _. second

-- `RwLock` and `Mutex`: a panic in a holder poisons the lock, and every later use of it is an error.
pub record Lock (A : Type 0) : Type 0 where
  pub poisoned : Bool
  pub content : A

abbrev pub new_lock : {A : Type 0} → A → Lock A
new_lock a = record { poisoned = false; content = a }

-- `.read()` and `.write()`, with the message that the caller maps a poisoned lock to.
abbrev pub acquire : {A : Type 0} → Lock A → String → Outcome A
acquire l message = if l.poisoned then err message else ok l.content

abbrev pub store : {A : Type 0} → Lock A → A → Lock A
store l a = record l { content = a }

-- A result is a value or an error, with its equation.
pub Outcome-cases {ℓ} :
    {X : Type ℓ} (o : Outcome X) → ((x : X) × (o ≡ ok x)) ⊎ ((message : String) × (o ≡ err message))
Outcome-cases (ok x) = inl (x, refl)
Outcome-cases (err message) = inr (message, refl)

-- Inversion of a successful chain.
pub >>=-eq-ok {ℓ κ} :
    {X : Type ℓ} {Y : Type κ} {y : Y} (first : Outcome X) (next : X → Outcome Y)
    → (first >>= next) ≡ ok y
    → (x : X) × (first ≡ ok x) × (next x ≡ ok y)
>>=-eq-ok (err _) next succeeds = cc
>>=-eq-ok (ok x) next succeeds = (x, refl, succeeds)

pub acquire_ok :
    {A : Type 0} (l : Lock A) (message : String) {a : A}
    → acquire l message ≡ ok a
    → (l.poisoned ≡ false) × (a ≡ l.content)
acquire_ok l message h = ground arith
