-- ===== src/Base/Lists.antt =====
-- Lists measured by native numbers, list predicates by recursion, and the iterator methods of Rust
-- that run by clauses.
use Prim.Native.Nat.{ℕ, zero, suc, ◌+◌, ◌-◌, ◌≤◌, min}
use mathlib.Core.Path.{◌≡◌, refl, ap, sym}
use mathlib.Core.Logic.{inl, inr}
use mathlib.Core.Bool.{Bool, true, false, ◌&&◌, ◌||◌}
use mathlib.Core.List.{List, [], ◌∷◌, ◌++◌, Memᴰ, reverse, reverse-cons}
use mathlib.Core.Option.{Option, none, some}
use native.Mathlib.Omega.{arith}
use smooth_agent.Base.Tests.{if◌then◌else◌, Eq, ◌==◌, Bool-cases}

-- A predicate on every element; it computes to a tuple.
abbrev pub All {ℓ κ} : {X : Type ℓ} (Good : X → Type κ) → List X → Type κ
All Good [] = Unit
All Good (first ∷ rest) = Good first × All Good rest

module _ {ℓ} {A : Type ℓ} where
  abbrev pub length : List A → ℕ
  length [] = 0
  length (x ∷ xs) = suc (length xs)

  abbrev pub take : ℕ → List A → List A
  take zero xs = []
  take (suc n) [] = []
  take (suc n) (x ∷ xs) = x ∷ take n xs

  abbrev pub drop : ℕ → List A → List A
  drop zero xs = xs
  drop (suc n) [] = []
  drop (suc n) (x ∷ xs) = drop n xs

  abbrev pub get_elem? : List A → ℕ → Option A
  get_elem? [] i = none
  get_elem? (x ∷ xs) zero = some x
  get_elem? (x ∷ xs) (suc i) = get_elem? xs i

  -- `slice.last()`
  abbrev pub get_last? : List A → Option A
  get_last? [] = none
  get_last? (x ∷ []) = some x
  get_last? (x ∷ y ∷ xs) = get_last? (y ∷ xs)

  abbrev pub null : List A → Bool
  null [] = true
  null (x ∷ xs) = false

  -- `iter().any`, `iter().all`, `iter().filter` and `iter().find`
  abbrev pub any : (A → Bool) → List A → Bool
  any p [] = false
  any p (x ∷ xs) = p x || any p xs

  abbrev pub all : (A → Bool) → List A → Bool
  all p [] = true
  all p (x ∷ xs) = p x && all p xs

  abbrev pub filter : (A → Bool) → List A → List A
  filter p [] = []
  filter p (x ∷ xs) = let rest = filter p xs in if p x then x ∷ rest else rest

  abbrev pub find : (A → Bool) → List A → Option A
  find p [] = none
  find p (x ∷ xs) = if p x then some x else find p xs

module _ {ℓ} {A : Type ℓ} where
  pub length-append : (xs ys : List A) → length (xs ++ ys) ≡ length xs + length ys
  length-append [] ys = omega arith
  length-append (x ∷ xs) ys = omega (arith, length-append xs ys)

  pub length-take : (n : ℕ) (xs : List A) → length (take n xs) ≡ min n (length xs)
  length-take zero xs = omega arith
  length-take (suc n) [] = omega arith
  length-take (suc n) (x ∷ xs) = omega (arith, length-take n xs)

  pub length-drop : (n : ℕ) (xs : List A) → length (drop n xs) ≡ length xs - n
  length-drop zero xs = omega arith
  length-drop (suc n) [] = omega arith
  length-drop (suc n) (x ∷ xs) = omega (arith, length-drop n xs)

  pub take-append-drop : (n : ℕ) (xs : List A) → take n xs ++ drop n xs ≡ xs
  take-append-drop zero xs = refl
  take-append-drop (suc n) [] = refl
  take-append-drop (suc n) (x ∷ xs) = ap (λ l. x ∷ l) (take-append-drop n xs)

  pub take-of_le : (n : ℕ) (xs : List A) → length xs ≤ n → take n xs ≡ xs
  take-of_le zero [] h = refl
  take-of_le zero (x ∷ xs) h = elim h [ ]
  take-of_le (suc n) [] h = refl
  take-of_le (suc n) (x ∷ xs) h = ap (λ l. x ∷ l) (take-of_le n xs (omega arith))

  pub take-zero : (xs : List A) → take 0 xs ≡ []
  take-zero xs = refl

module _ {ℓ κ} {A : Type ℓ} (P : A → Type κ) where
  pub All-append : (front back : List A) → All P front → All P back → All P (front ++ back)
  All-append [] back hf hb = hb
  All-append (x ∷ front) back hf hb = (hf.0, All-append front back hf.1 hb)

  pub All-take : (n : ℕ) (xs : List A) → All P xs → All P (take n xs)
  All-take zero xs h = tt
  All-take (suc n) [] h = tt
  All-take (suc n) (x ∷ xs) h = (h.0, All-take n xs h.1)

  pub All-drop : (n : ℕ) (xs : List A) → All P xs → All P (drop n xs)
  All-drop zero xs h = h
  All-drop (suc n) [] h = tt
  All-drop (suc n) (x ∷ xs) h = All-drop n xs h.1

  pub All-of : ((a : A) → P a) → (xs : List A) → All P xs
  All-of f [] = tt
  All-of f (x ∷ xs) = (f x, All-of f xs)

  -- What holds of the elements holds of those that pass a test.
  pub All-filter_of : (p : A → Bool) (xs : List A) → All P xs → All P (filter p xs)
  All-filter_of p [] h = tt
  All-filter_of p (x ∷ xs) h = elim (Bool-cases (p x)) [
    | inl e ↦ rw e (h.0, All-filter_of p xs h.1)
    | inr e ↦ rw e (All-filter_of p xs h.1)
  ]

pub All-imp {ℓ κ μ} :
    {A : Type ℓ} (P : A → Type κ) (Q : A → Type μ)
    → ((a : A) → P a → Q a)
    → (xs : List A) → All P xs
    → All Q xs
All-imp P Q f [] h = tt
All-imp P Q f (x ∷ xs) h = (f x h.0, All-imp P Q f xs h.1)

module _ {ℓ} {A : Type ℓ} (p : A → Bool) where
  pub All-filter : (xs : List A) → All (λ x. p x ≡ true) (filter p xs)
  All-filter [] = tt
  All-filter (x ∷ xs) = elim (Bool-cases (p x)) [
    | inl e ↦ rw e (e, All-filter xs)
    | inr e ↦ rw e (All-filter xs)
  ]

  pub length-filter-le : (xs : List A) → length (filter p xs) ≤ length xs
  length-filter-le [] = omega arith
  length-filter-le (x ∷ xs) = ground (arith, length-filter-le xs)

-- `contains` on a slice or a `HashSet`.
module _ {A : Type 0} ⦃e : Eq A⦄ where
  abbrev pub contains : List A → A → Bool
  contains [] a = false
  contains (x ∷ xs) a = x == a || contains xs a

  -- No value stands twice.
  abbrev pub Distinct : List A → Type 0
  Distinct [] = Unit
  Distinct (x ∷ xs) = (contains xs x ≡ false) × Distinct xs

-- A Boolean search succeeds exactly when a member passes the test.
module _ {ℓ} {A : Type ℓ} (p : A → Bool) where
  pub any-true : (xs : List A) → any p xs ≡ true → (x : A) × Memᴰ x xs × (p x ≡ true)
  any-true [] h = cc
  any-true (x ∷ xs) h = elim (Bool-cases (p x)) [
    | inl e ↦ (x, Memᴰ.head refl, e)
    | inr e ↦ let (y, m, q) = any-true xs (rw e at h) in (y, Memᴰ.tail m, q)
  ]

  pub any_of_mem : {x : A} {xs : List A} → Memᴰ x xs → p x ≡ true → any p xs ≡ true
  any_of_mem (Memᴰ.head e) h = rw (← e) (rw h)
  any_of_mem (Memᴰ.tail m) h = let ih = any_of_mem m h in ground (arith, ih)

module _ {A : Type 0} ⦃e : Eq A⦄ where
  pub mem_of_contains : (xs : List A) (a : A) → contains xs a ≡ true → Memᴰ a xs
  mem_of_contains [] a h = cc
  mem_of_contains (x ∷ xs) a h = elim (Bool-cases (x == a)) [
    | inl q ↦ Memᴰ.head (sym ((e.beq_iff x a).0 q))
    | inr q ↦ Memᴰ.tail (mem_of_contains xs a (rw q at h))
  ]

  pub contains_of_mem : {a : A} {xs : List A} → Memᴰ a xs → contains xs a ≡ true
  contains_of_mem {a} (Memᴰ.head q) = rw ((e.beq_iff _ a).1 (sym q))
  contains_of_mem (Memᴰ.tail m) = let ih = contains_of_mem m in ground (arith, ih)

module _ {A : Type 0} ⦃e : Eq A⦄ where
  pub contains-append :
      (xs ys : List A) (a : A) → contains (xs ++ ys) a ≡ (contains xs a || contains ys a)
  contains-append [] ys a = refl
  contains-append (x ∷ xs) ys a = ground (arith, contains-append xs ys a)

  pub contains-reverse : (xs : List A) (a : A) → contains (reverse xs) a ≡ contains xs a
  contains-reverse [] a = refl
  contains-reverse (x ∷ xs) a =
      rw (reverse-cons x xs)
        (ground (arith, contains-append (reverse xs) (x ∷ []) a, contains-reverse xs a))

  Distinct-snoc :
      (xs : List A) (a : A) → Distinct xs → contains xs a ≡ false → Distinct (xs ++ a ∷ [])
  Distinct-snoc [] a d h = (refl, tt)
  Distinct-snoc (x ∷ xs) a d h =
      ground
        (arith, contains-append xs (a ∷ []) x, Distinct-snoc xs a d.1, e.beq_iff a x, e.beq_iff x a)

  pub Distinct-reverse : (xs : List A) → Distinct xs → Distinct (reverse xs)
  Distinct-reverse [] d = tt
  Distinct-reverse (x ∷ xs) d =
      rw (reverse-cons x xs)
        (Distinct-snoc (reverse xs) x (Distinct-reverse xs d.1) (rw (contains-reverse xs x) d.0))
