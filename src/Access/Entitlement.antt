-- ===== src/Access/Entitlement.antt =====
-- Who may read a document: `can_access` against an independent description of entitlement.
use smooth_agent.Base.{
  String, Bool, true, Option, none, some, List, [], ◌∷◌, ◌++◌, ◌||◌, ◌≡◌, ◌↔◌, refl, arith, any,
  contains, ◌==◌, string_eq, Memᴰ, any-true, any_of_mem, mem_of_contains, contains_of_mem,
  Bool-cases, ==_refl, inl, inr,
}
use smooth_agent.Access.Acl.{DocAcl, AccessContext, can_access, user_listed, with_group}
use text.Mathlib.TextEquality.{eq_iff}

-- The three grounds on which a requester may read a document.
pub data Entitled (ctx : AccessContext) (acl : DocAcl) : Type 0 where
  by_public : acl.public ≡ true → Entitled ctx acl
  by_user : (uid : String) → ctx.user_id ≡ some uid → Memᴰ uid acl.users → Entitled ctx acl
  by_group : (g : String) → Memᴰ g ctx.groups → Memᴰ g acl.groups → Entitled ctx acl

user_listed→mem :
    (o : Option String) (users : List String)
    → user_listed o users ≡ true
    → (uid : String) × (o ≡ some uid) × Memᴰ uid users
user_listed→mem none users h = cc
user_listed→mem (some uid) users h =
    let (u, m, q) = any-true (λ u. u == uid) users h in (uid, refl, rw ((eq_iff u uid).0 q) at m)

mem→user_listed :
    (uid : String) (users : List String) → Memᴰ uid users → user_listed (some uid) users ≡ true
mem→user_listed uid users m = any_of_mem (λ u. u == uid) m (==_refl uid)

can_access→Entitled :
    (ctx : AccessContext) (acl : DocAcl) → can_access ctx acl ≡ true → Entitled ctx acl
unfolding can_access
can_access→Entitled ctx acl h = elim (Bool-cases acl.public) [
  | inl p ↦ by_public p
  | inr p ↦ elim (Bool-cases (user_listed ctx.user_id acl.users)) [
    | inl u ↦ let (uid, q, m) = user_listed→mem ctx.user_id acl.users u in by_user uid q m
    | inr u ↦
        let shared : any (λ g. contains acl.groups g) ctx.groups ≡ true = ground arith in
        let (g, m, c) = any-true (λ g. contains acl.groups g) ctx.groups shared in
        by_group g m (mem_of_contains acl.groups g c)
  ]
]

Entitled→can_access :
    (ctx : AccessContext) (acl : DocAcl) → Entitled ctx acl → can_access ctx acl ≡ true
unfolding can_access
Entitled→can_access ctx acl (by_public p) = rw p
Entitled→can_access ctx acl (by_user uid q m) =
    let listed = mem→user_listed uid acl.users m in
    let l : user_listed ctx.user_id acl.users ≡ true = rw q listed in ground arith
Entitled→can_access ctx acl (by_group g m c) =
    let shared = any_of_mem (λ g. contains acl.groups g) m (contains_of_mem c) in ground arith

-- A requester passes the access check exactly when the document is public, the requester's user id
-- is in the allow-list, or one of the requester's groups is in the allow-list.
pub can_access_iff :
    (ctx : AccessContext) (acl : DocAcl) → (can_access ctx acl ≡ true) ↔ Entitled ctx acl
can_access_iff ctx acl = (can_access→Entitled ctx acl, Entitled→can_access ctx acl)

any-append :
    {A : Type 0} (p : A → Bool) (xs ys : List A) → any p (xs ++ ys) ≡ (any p xs || any p ys)
any-append p [] ys = refl
any-append p (x ∷ xs) ys = ground (arith, any-append p xs ys)

-- Joining a group adds exactly the documents that list the group, and takes no document away.
pub can_access-with_group :
    (ctx : AccessContext) (acl : DocAcl) (g : String)
    → can_access (with_group ctx g) acl ≡ (can_access ctx acl || contains acl.groups g)
unfolding can_access
can_access-with_group ctx acl g =
    ground (arith, any-append (λ x. contains acl.groups x) ctx.groups (g ∷ []))
