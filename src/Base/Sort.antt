-- ===== src/Base/Sort.antt =====
-- `sort_by`: a stable sort. The order comes as the test that a comparison is not `Greater`.
use mathlib.Core.List.Memᴰ
use smooth_agent.Base.Tests.{if◌then◌else◌, Bool-cases}
use smooth_agent.Base.Lists.{All, All-take, length, take}
use Prim.Native.Nat.{ℕ, zero, suc}
use mathlib.Core.Path.{◌≡◌, refl, ap}
use mathlib.Core.Logic.{◌⊎◌, inl, inr}
use mathlib.Core.Bool.{Bool, true, false}
use mathlib.Core.List.{List, [], ◌∷◌, Perm, Memᴰ}
use mathlib.Core.List.Perm
use native.Mathlib.Omega.{arith}

module _ {A : Type 0} (le : A → A → Bool) where
  -- `x` stood before all of the list, so it goes before what is equal to it.
  unfoldable pub place : A → List A → List A
  place x [] = x ∷ []
  place x (y ∷ ys) = if le x y then x ∷ y ∷ ys else y ∷ place x ys

  unfoldable pub sort_by : List A → List A
  unfolding place
  sort_by [] = []
  sort_by (x ∷ xs) = place x (sort_by xs)

  place-perm : (x : A) (ys : List A) → Perm (place x ys) (x ∷ ys)
  unfolding place
  place-perm x [] = Perm.refl (x ∷ [])
  place-perm x (y ∷ ys) = elim (Bool-cases (le x y)) [
    | inl e ↦ rw e (Perm.refl (x ∷ y ∷ ys))
    | inr e ↦ rw e (Perm.trans (Perm.cons y (place-perm x ys)) (Perm.swap x y ys))
  ]

  pub sort_by-perm : (xs : List A) → Perm (sort_by xs) xs
  unfolding sort_by
  sort_by-perm [] = Perm.refl []
  sort_by-perm (x ∷ xs) = Perm.trans (place-perm x (sort_by xs)) (Perm.cons x (sort_by-perm xs))

  module _ {ℓ} (P : A → Type ℓ) where
    All-place : (x : A) (ys : List A) → P x → All P ys → All P (place x ys)
    unfolding place
    All-place x [] p h = (p, tt)
    All-place x (y ∷ ys) p h = elim (Bool-cases (le x y)) [
      | inl e ↦ rw e (p, (h.0, h.1))
      | inr e ↦ rw e (h.0, All-place x ys p h.1)
    ]

    pub All-sort_by : (xs : List A) → All P xs → All P (sort_by xs)
    unfolding sort_by
    All-sort_by [] h = tt
    All-sort_by (x ∷ xs) h = All-place x (sort_by xs) h.0 (All-sort_by xs h.1)

  -- Every element is in order with all that follow it.
  abbrev pub IsSorted : List A → Type 0
  IsSorted [] = Unit
  IsSorted (x ∷ xs) = All (λ y. le x y ≡ true) xs × IsSorted xs

  module _ (total : (x y : A) → le x y ≡ false → le y x ≡ true)
      (trans : (x y z : A) → le x y ≡ true → le y z ≡ true → le x z ≡ true) where
    All-le :
        (x y : A) (ys : List A)
        → le x y ≡ true
        → All (λ z. le y z ≡ true) ys
        → All (λ z. le x z ≡ true) ys
    All-le x y [] e h = tt
    All-le x y (z ∷ zs) e h = (trans x y z e h.0, All-le x y zs e h.1)

    place-IsSorted : (x : A) (ys : List A) → IsSorted ys → IsSorted (place x ys)
    unfolding place
    place-IsSorted x [] h = (tt, tt)
    place-IsSorted x (y ∷ ys) h = elim (Bool-cases (le x y)) [
      | inl e ↦ rw e ((e, All-le x y ys e h.0), h)
      | inr e ↦
          rw e (All-place (λ z. le y z ≡ true) x ys (total x y e) h.0, place-IsSorted x ys h.1)
    ]

    pub sort_by-IsSorted : (xs : List A) → IsSorted (sort_by xs)
    unfolding sort_by
    sort_by-IsSorted [] = tt
    sort_by-IsSorted (x ∷ xs) = place-IsSorted x (sort_by xs) (sort_by-IsSorted xs)

  length-place : (x : A) (ys : List A) → length (place x ys) ≡ suc (length ys)
  unfolding place
  length-place x [] = refl
  length-place x (y ∷ ys) = ground (arith, length-place x ys)

  pub length-sort_by : (xs : List A) → length (sort_by xs) ≡ length xs
  unfolding sort_by
  length-sort_by [] = refl
  length-sort_by (x ∷ xs) = omega (arith, length-place x (sort_by xs), length-sort_by xs)

  mem-place_self : (x : A) (ys : List A) → Memᴰ x (place x ys)
  unfolding place
  mem-place_self x [] = Memᴰ.head refl
  mem-place_self x (y ∷ ys) = elim (Bool-cases (le x y)) [
    | inl e ↦ rw e (Memᴰ.head refl)
    | inr e ↦ rw e (Memᴰ.tail (mem-place_self x ys))
  ]

  mem-place : (x z : A) (ys : List A) → Memᴰ z ys → Memᴰ z (place x ys)
  unfolding place
  mem-place x z [] m = elim m [ ]
  mem-place x z (y ∷ ys) m = elim (Bool-cases (le x y)) [
    | inl e ↦ rw e (Memᴰ.tail m)
    | inr e ↦ rw e (elim (Memᴰ.cases_cons m) [
      | inl here ↦ Memᴰ.head here
      | inr there ↦ Memᴰ.tail (mem-place x z ys there)
    ])
  ]

  pub mem-sort_by : {z : A} {xs : List A} → Memᴰ z xs → Memᴰ z (sort_by xs)
  unfolding sort_by
  mem-sort_by (Memᴰ.head {x} {xs} e) = rw e (mem-place_self x (sort_by xs))
  mem-sort_by {z} (Memᴰ.tail {x} {xs} m) = mem-place x z (sort_by xs) (mem-sort_by m)

  pub All_at : (P : A → Type 0) (z : A) (xs : List A) → All P xs → Memᴰ z xs → P z
  All_at P z [] h m = elim m [ ]
  All_at P z (x ∷ xs) h (Memᴰ.head e) = rw e h.0
  All_at P z (x ∷ xs) h (Memᴰ.tail m) = All_at P z xs h.1 m

  -- Of a sorted list, an element is among the first `n`, or there are `n` that go before it.
  pub sorted_take :
      (n : ℕ) (xs : List A) (z : A)
      → IsSorted xs
      → Memᴰ z xs
      → Memᴰ z (take n xs) ⊎ All (λ y. le y z ≡ true) (take n xs) × (length (take n xs) ≡ n)
  sorted_take zero xs z s m = inr (tt, refl)
  sorted_take (suc n) [] z s m = elim m [ ]
  sorted_take (suc n) (x ∷ xs) z s m = elim (Memᴰ.cases_cons m) [
    | inl here ↦ inl (Memᴰ.head here)
    | inr there ↦ elim (sorted_take n xs z s.1 there) [
      | inl early ↦ inl (Memᴰ.tail early)
      | inr (before, full) ↦ inr ((All_at (λ y. le x y ≡ true) z xs s.0 there, before), ap suc full)
    ]
  ]

  pub IsSorted-take : (n : ℕ) (xs : List A) → IsSorted xs → IsSorted (take n xs)
  IsSorted-take zero xs s = tt
  IsSorted-take (suc n) [] s = tt
  IsSorted-take (suc n) (x ∷ xs) s =
      (All-take (λ y. le x y ≡ true) n xs s.0, IsSorted-take n xs s.1)
