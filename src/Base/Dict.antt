-- ===== src/Base/Dict.antt =====
-- `HashMap` as an association list: an insertion replaces the value in place, or adds at the end.
use smooth_agent.Base.Tests.{if◌then◌else◌, Eq, ◌==◌, ==_refl, Bool-cases}
use smooth_agent.Base.Lists.{contains, Distinct, find}
use mathlib.Core.Path.{◌≡◌, refl}
use mathlib.Core.Bool.{Bool, true, false, ◌||◌}
use mathlib.Core.Option.{Option, none, some}
use mathlib.Core.List.{List, [], ◌∷◌, map}
use mathlib.Core.Logic.{inl, inr}
use native.Mathlib.Omega.{arith}

abbrev pub Dict : Type 0 → Type 0 → Type 0
Dict K V = List (K × V)

module _ {K V : Type 0} ⦃e : Eq K⦄ where
  unfoldable pub get : Dict K V → K → Option V
  get [] k = none
  get ((j, v) ∷ m) k = if j == k then some v else get m k

  unfoldable pub insert : Dict K V → K → V → Dict K V
  insert [] k v = (k, v) ∷ []
  insert ((j, w) ∷ m) k v = if j == k then (k, v) ∷ m else (j, w) ∷ insert m k v

  unfoldable pub remove : Dict K V → K → Dict K V
  remove [] k = []
  remove ((j, v) ∷ m) k = let rest = remove m k in if j == k then rest else (j, v) ∷ rest

  abbrev pub contains_key : Dict K V → K → Bool
  contains_key m k = elim (get m k) [ none ↦ false | some v ↦ true ]

  pub get-insert :
      (m : Dict K V) (k j : K) (v : V) → get (insert m k v) j ≡ (if k == j then some v else get m j)
  unfolding get insert
  get-insert [] k j v = refl
  get-insert ((i, w) ∷ m) k j v =
      ground (arith, e.beq_iff k j, e.beq_iff i k, e.beq_iff i j, get-insert m k j v)

  pub get-insert_self : (m : Dict K V) (k : K) (v : V) → get (insert m k v) k ≡ some v
  get-insert_self m k v = rw (get-insert m k k v, ==_refl k)

  pub get-remove :
      (m : Dict K V) (k j : K) → get (remove m k) j ≡ (if k == j then none else get m j)
  unfolding get remove
  get-remove [] k j = ground arith
  get-remove ((i, w) ∷ m) k j =
      ground (arith, e.beq_iff k j, e.beq_iff i k, e.beq_iff i j, get-remove m k j)

  -- The keys, in which none stands twice: an invariant of the representation.
  abbrev pub keys : Dict K V → List K
  keys m = map (λ e. e.0) m

  contains-keys-insert :
      (m : Dict K V) (k j : K) (v : V)
      → contains (keys (insert m k v)) j ≡ (k == j || contains (keys m) j)
  unfolding insert
  contains-keys-insert [] k j v = refl
  contains-keys-insert ((i, w) ∷ m) k j v =
      ground (arith, e.beq_iff k j, e.beq_iff i k, e.beq_iff i j, contains-keys-insert m k j v)

  pub keys-insert-Distinct :
      (m : Dict K V) (k : K) (v : V) → Distinct (keys m) → Distinct (keys (insert m k v))
  unfolding insert
  keys-insert-Distinct [] k v d = (refl, tt)
  keys-insert-Distinct ((i, w) ∷ m) k v d = ground (
    arith,
    e.beq_iff i k,
    e.beq_iff k i,
    contains-keys-insert m k i v,
    keys-insert-Distinct m k v d.1,
  )

  contains-keys_of_get :
      (m : Dict K V) (k : K) (v : V) → get m k ≡ some v → contains (keys m) k ≡ true
  unfolding get
  contains-keys_of_get [] k v h = cc
  contains-keys_of_get ((i, w) ∷ m) k v h = ground (arith, contains-keys_of_get m k v)

  -- What a search through `values()` finds is stored under some key.
  pub find-get :
      (p : V → Bool) (m : Dict K V) (v : V)
      → Distinct (keys m)
      → find p (map (λ x. x.1) m) ≡ some v
      → (k : K) × (get m k ≡ some v) × (p v ≡ true)
  unfolding get
  find-get p [] v d h = cc
  find-get p ((i, w) ∷ m) v d h = elim (Bool-cases (p w)) [
    | inl q ↦ let same : w ≡ v = ground arith in (i, ground (arith, e.beq_iff i i), rw same at q)
    | inr q ↦
        let (k, g, pv) = find-get p m v d.1 (rw q at h) in
        let there = contains-keys_of_get m k v g in (k, ground (arith, e.beq_iff i k), pv)
  ]

  pub find-none :
      (p : V → Bool) (m : Dict K V) (k : K) (v : V)
      → find p (map (λ x. x.1) m) ≡ none
      → get m k ≡ some v
      → p v ≡ false
  unfolding get
  find-none p [] k v h g = cc
  find-none p ((i, w) ∷ m) k v h g = ground (arith, find-none p m k v)

  -- A value that is the first to pass a search is found once it is stored.
  pub find-insert :
      (p : V → Bool) (m : Dict K V) (k : K) (v : V)
      → find p (map (λ x. x.1) m) ≡ none
      → p v ≡ true
      → find p (map (λ x. x.1) (insert m k v)) ≡ some v
  unfolding insert
  find-insert p [] k v h q = rw q
  find-insert p ((i, w) ∷ m) k v h q = ground (arith, find-insert p m k v)

pub ruleset dict_laws = (get-insert, get-remove)
