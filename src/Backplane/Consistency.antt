-- ===== src/Backplane/Consistency.antt =====
-- The two maps of the registry say the same, and hold no empty set, after any operations.
use smooth_agent.Base.{
  String, Bool, true, false, Option, none, some, List, [], ◌∷◌, ◌≡◌, ◌≢◌, refl, arith, ◌==◌, ◌&&◌,
  ◌||◌, Eq, string_eq, if◌then◌else◌, contains, Distinct,
}
use smooth_agent.Base.Dict.{Dict, get, remove, get-insert, get-remove}
use smooth_agent.Base.Sets.{
  set_insert, set_remove, contains-set_insert, contains-set_remove, set_insert-Distinct,
  set_remove-Distinct,
}
use text.Mathlib.TextEquality.{eq_iff}
use smooth_agent.Backplane.Registry.{
  Target, connection, target_eq, target_beq_iff, members, entry_insert, Registry, release,
  release_all, new, attach, associate, detach,
}

set_insert-ne-nil : {A : Type 0} ⦃f : Eq A⦄ (xs : List A) (a : A) → set_insert xs a ≢ []
unfolding set_insert
set_insert-ne-nil [] a h = cc
set_insert-ne-nil (x ∷ xs) a h = ground arith

module _ {K A : Type 0} ⦃e : Eq K⦄ ⦃f : Eq A⦄ where
  pub members-entry_insert :
      (m : Dict K (List A)) (k j : K) (a : A)
      → members (entry_insert m k a) j
        ≡ (if k == j then set_insert (members m k) a else members m j)
  unfolding entry_insert
  members-entry_insert m k j a = ground (arith, get-insert m k j (set_insert (members m k) a))

  pub contains-entry_insert :
      (m : Dict K (List A)) (k j : K) (a b : A)
      → contains (members (entry_insert m k a) j) b ≡ (k == j && a == b || contains (members m j) b)
  contains-entry_insert m k j a b =
      ground
        (arith, members-entry_insert m k j a, contains-set_insert (members m k) a b, e.beq_iff k j)

  pub entry_insert-Distinct :
      (m : Dict K (List A)) (k : K) (a : A)
      → ((j : K) → Distinct (members m j))
      → (j : K) → Distinct (members (entry_insert m k a) j)
  entry_insert-Distinct m k a d j = rw (members-entry_insert m k j a) (go (k == j))
    where
      go : (b : Bool) → Distinct (if b then set_insert (members m k) a else members m j)
      go true = set_insert-Distinct (members m k) a (d k)
      go false = d j

  pub get-entry_insert-ne :
      (m : Dict K (List A)) (k : K) (a : A)
      → ((j : K) → get m j ≢ some [])
      → (j : K) → get (entry_insert m k a) j ≢ some []
  unfolding entry_insert
  get-entry_insert-ne m k a h j q =
      ground (
        arith,
        get-insert m k j (set_insert (members m k) a),
        h j,
        set_insert-ne-nil (members m k) a,
      )

  members-remove :
      (m : Dict K (List A)) (k j : K)
      → members (remove m k) j ≡ (if k == j then [] else members m j)
  members-remove m k j = ground (arith, get-remove m k j)

  remove-Distinct :
      (m : Dict K (List A)) (k : K)
      → ((j : K) → Distinct (members m j))
      → (j : K) → Distinct (members (remove m k) j)
  remove-Distinct m k d j = rw (members-remove m k j) (go (k == j))
    where
      go : (b : Bool) → Distinct (if b then [] else members m j)
      go true = tt
      go false = d j

module _ (m : Dict Target (List String)) (c : String) (t : Target) where
  members-release :
      (u : Target)
      → members (release m c t) u ≡ (if t == u then set_remove (members m t) c else members m u)
  unfolding release set_remove
  members-release u = go (get m t) refl
    where
      go :
          (o : Option (List String))
          → get m t ≡ o
          → members (release m c t) u ≡ (if t == u then set_remove (members m t) c else members m u)
      go none q = ground (arith, target_beq_iff t u)
      go (some xs) q =
          ground (arith, target_beq_iff t u, get-remove m t u, get-insert m t u (set_remove xs c))

  release-ne : ((u : Target) → get m u ≢ some []) → (u : Target) → get (release m c t) u ≢ some []
  unfolding release
  release-ne h u q = go (get m t) refl
    where
      go : (o : Option (List String)) → get m t ≡ o → ⊥
      go none e = ground (arith, h u)
      go (some xs) e = ground (arith, h u, get-remove m t u, get-insert m t u (set_remove xs c))

  release-Distinct :
      ((u : Target) → Distinct (members m u)) → (u : Target) → Distinct (members (release m c t) u)
  release-Distinct d u = rw (members-release u) (go (t == u))
    where
      go : (b : Bool) → Distinct (if b then set_remove (members m t) c else members m u)
      go true = set_remove-Distinct (members m t) c (d t)
      go false = d u

module _ (c : String) where
  contains-release_all :
      (ts : List Target) (m : Dict Target (List String))
      → ((u : Target) → Distinct (members m u))
      → (u : Target) (c' : String)
      → contains (members (release_all m c ts) u) c'
        ≡ (if c == c' && contains ts u then false else contains (members m u) c')
  unfolding release_all
  contains-release_all [] m d u c' = ground arith
  contains-release_all (t ∷ ts) m d u c' = ground (
    arith,
    contains-release_all ts (release m c t) (release-Distinct m c t d) u c',
    members-release m c t u,
    contains-set_remove (members m t) c c' (d t),
    target_beq_iff t u,
    eq_iff c c',
  )

  release_all-ne :
      (ts : List Target) (m : Dict Target (List String))
      → ((u : Target) → get m u ≢ some [])
      → (u : Target) → get (release_all m c ts) u ≢ some []
  unfolding release_all
  release_all-ne [] m h = h
  release_all-ne (t ∷ ts) m h = release_all-ne ts (release m c t) (release-ne m c t h)

  release_all-Distinct :
      (ts : List Target) (m : Dict Target (List String))
      → ((u : Target) → Distinct (members m u))
      → (u : Target) → Distinct (members (release_all m c ts) u)
  unfolding release_all
  release_all-Distinct [] m d = d
  release_all-Distinct (t ∷ ts) m d =
      release_all-Distinct ts (release m c t) (release-Distinct m c t d)

module _ {Sink Value : Type 0} where
  -- The maps are inverse to one another, no set is empty, and no set holds a value twice.
  pub record IsConsistent (r : Registry Sink Value) : Type 0 where
    pub inverse :
        (c : String) (t : Target)
        → contains (members r.target_conns t) c ≡ contains (members r.conn_targets c) t
    pub inhabited : (t : Target) → get r.target_conns t ≢ some []
    pub conns_distinct : (t : Target) → Distinct (members r.target_conns t)
    pub targets_distinct : (c : String) → Distinct (members r.conn_targets c)

  pub IsConsistent-new : IsConsistent (new {Sink = Sink} {Value = Value})
  unfolding get
  IsConsistent-new = record {
    inverse = λ c t. refl;
    inhabited = λ t h. cc;
    conns_distinct = λ t. tt;
    targets_distinct = λ c. tt;
  }

  pub associate-IsConsistent :
      (r : Registry Sink Value) (c : String) (t : Target)
      → IsConsistent r
      → IsConsistent (associate r c t)
  unfolding associate
  associate-IsConsistent r c t v = record {
    inverse = λ d u. ground (
      arith,
      contains-entry_insert r.target_conns t u c d,
      contains-entry_insert r.conn_targets c d t u,
      v.inverse d u,
    );
    inhabited = get-entry_insert-ne r.target_conns t c v.inhabited;
    conns_distinct = entry_insert-Distinct r.target_conns t c v.conns_distinct;
    targets_distinct = entry_insert-Distinct r.conn_targets c t v.targets_distinct;
  }

  -- `attach` is an association with the connection's own target, and a sink.
  pub attach-IsConsistent :
      (r : Registry Sink Value) (c : String) (s : Sink)
      → IsConsistent r
      → IsConsistent (attach r c s)
  unfolding attach associate
  attach-IsConsistent r c s v =
      let w = associate-IsConsistent r c (connection c) v in
      record {
        inverse = w.inverse;
        inhabited = w.inhabited;
        conns_distinct = w.conns_distinct;
        targets_distinct = w.targets_distinct;
      }

  pub contains-detach :
      (r : Registry Sink Value) (c : String)
      → IsConsistent r
      → (d : String) (t : Target)
      → contains (members (detach r c).conn_targets d) t
        ≡ (if c == d then false else contains (members r.conn_targets d) t)
  unfolding detach
  contains-detach r c v d t = ground (arith, get-remove r.conn_targets c d)

  pub detach-IsConsistent :
      (r : Registry Sink Value) (c : String) → IsConsistent r → IsConsistent (detach r c)
  unfolding detach
  detach-IsConsistent r c v = record {
    inverse = λ d t. ground (
      arith,
      contains-release_all c (members r.conn_targets c) r.target_conns v.conns_distinct t d,
      get-remove r.conn_targets c d,
      v.inverse d t,
      eq_iff c d,
    );
    inhabited = release_all-ne c (members r.conn_targets c) r.target_conns v.inhabited;
    conns_distinct =
        release_all-Distinct c (members r.conn_targets c) r.target_conns v.conns_distinct;
    targets_distinct = remove-Distinct r.conn_targets c v.targets_distinct;
  }
