-- ===== src/Base/Sets.antt =====
-- `HashSet` as a list in which no value stands twice.
use smooth_agent.Base.Tests.{if◌then◌else◌, Eq, ◌==◌}
use smooth_agent.Base.Lists.{contains, Distinct}
use mathlib.Core.Path.{◌≡◌, refl}
use mathlib.Core.Bool.{false, ◌||◌}
use mathlib.Core.List.{List, [], ◌∷◌}
use native.Mathlib.Omega.{arith}

module _ {A : Type 0} ⦃e : Eq A⦄ where
  unfoldable pub set_insert : List A → A → List A
  set_insert [] a = a ∷ []
  set_insert (x ∷ xs) a = if x == a then x ∷ xs else x ∷ set_insert xs a

  unfoldable pub set_remove : List A → A → List A
  set_remove [] a = []
  set_remove (x ∷ xs) a = if x == a then xs else x ∷ set_remove xs a

  pub contains-set_insert :
      (xs : List A) (a b : A) → contains (set_insert xs a) b ≡ (a == b || contains xs b)
  unfolding set_insert
  contains-set_insert [] a b = refl
  contains-set_insert (x ∷ xs) a b =
      ground (arith, e.beq_iff x a, e.beq_iff x b, e.beq_iff a b, contains-set_insert xs a b)

  pub contains-set_remove :
      (xs : List A) (a b : A)
      → Distinct xs
      → contains (set_remove xs a) b ≡ (if a == b then false else contains xs b)
  unfolding set_remove
  contains-set_remove [] a b d = ground arith
  contains-set_remove (x ∷ xs) a b d =
      ground (arith, e.beq_iff x a, e.beq_iff x b, e.beq_iff a b, contains-set_remove xs a b d.1)

  pub set_insert-Distinct : (xs : List A) (a : A) → Distinct xs → Distinct (set_insert xs a)
  unfolding set_insert
  set_insert-Distinct [] a d = (refl, tt)
  set_insert-Distinct (x ∷ xs) a d = ground (
    arith,
    e.beq_iff x a,
    e.beq_iff a x,
    contains-set_insert xs a x,
    set_insert-Distinct xs a d.1,
  )

  pub set_remove-Distinct : (xs : List A) (a : A) → Distinct xs → Distinct (set_remove xs a)
  unfolding set_remove
  set_remove-Distinct [] a d = tt
  set_remove-Distinct (x ∷ xs) a d =
      ground (arith, e.beq_iff x a, contains-set_remove xs a x d.1, set_remove-Distinct xs a d.1)
