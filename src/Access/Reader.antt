-- ===== src/Access/Reader.antt =====
-- The reader's query: which results a requester gets.
use smooth_agent.Base.{
  ℕ, zero, suc, ◌+◌, ◌≤◌, ◌<◌, String, Bool, true, false, Option, none, some, List, [], ◌∷◌, ◌++◌,
  ◌≡◌, refl, sym, ◌∙◌, ap, arith, length, take, filter, nat_eqb, All, All-take, All-filter, All-imp,
  string_eq, Bool-cases, inl, inr, if◌then◌else◌, length-append, ◌≢◌,
}
use mathlib.Core.List.{append-nil, append_assoc}
use smooth_agent.Base.Dict.{get}
use smooth_agent.Base.Outcome.{ok, >>=-eq-ok, acquire, acquire_ok}
use smooth_agent.Engine.{KnowledgeResult, Documents, KnowledgeBase}
use smooth_agent.Access.Acl.{DocAcl, AccessContext}
use smooth_agent.Access.Entitlement.{Entitled, can_access_iff}
use smooth_agent.Access.Store.{
  AclTable, AclKnowledgeStore, candidate_count, is_allowed, collect, reader_query, usize_max,
  lock_message,
}

-- What a returned document satisfies: no list is recorded for it, or the recorded one entitles.
pub data Readable (table : AclTable) (ctx : AccessContext) (id : String) : Type 0 where
  unrestricted : get table id ≡ none → Readable table ctx id
  entitled : (acl : DocAcl) → get table id ≡ some acl → Entitled ctx acl → Readable table ctx id

pub is_allowed→Readable :
    (table : AclTable) (ctx : AccessContext) (id : String)
    → is_allowed table ctx id ≡ true
    → Readable table ctx id
unfolding is_allowed
is_allowed→Readable table ctx id h = go (get table id) refl
  where
    go : (o : Option DocAcl) → get table id ≡ o → Readable table ctx id
    go none e = unrestricted e
    go (some acl) e = entitled acl e ((can_access_iff ctx acl).0 (rw (e, is_allowed) at h))

pub Readable→is_allowed :
    (table : AclTable) (ctx : AccessContext) (id : String)
    → Readable table ctx id
    → is_allowed table ctx id ≡ true
unfolding is_allowed
Readable→is_allowed table ctx id (unrestricted e) = rw (e, is_allowed)
Readable→is_allowed table ctx id (entitled acl e ent) =
    rw (e, is_allowed) ((can_access_iff ctx acl).1 ent)

-- The pool that is asked for holds at least the limit, and never overflows a machine word.
pub candidate_count_bounds :
    (limit : ℕ)
    → limit ≤ usize_max
    → (limit ≤ candidate_count limit)
      × (20 ≤ candidate_count limit)
      × (candidate_count limit ≤ usize_max)
unfolding candidate_count
candidate_count_bounds limit h = (omega arith, omega arith, omega arith)

module _ {Score : Type 0} (table : AclTable) (ctx : AccessContext) where
  -- The candidates that the requester may read, in the backend's order.
  abbrev pub readable : List (KnowledgeResult Score) → List (KnowledgeResult Score)
  readable = filter (λ r. is_allowed table ctx r.document_id)

  collect-take :
      (limit : ℕ) (out cands : List (KnowledgeResult Score)) (k : ℕ)
      → length out + suc k ≡ limit
      → collect table ctx limit out cands ≡ out ++ take (suc k) (readable cands)
  unfolding collect
  collect-take limit out [] k h = sym (append-nil out)
  collect-take limit out (r ∷ rest) k h = elim (Bool-cases (is_allowed table ctx r.document_id)) [
    | inr no_access ↦ rw no_access (collect-take limit out rest k h)
    | inl allowed ↦ full k h allowed (collect-take limit (out ++ r ∷ []) rest)
  ]
    where
      full :
          (k : ℕ)
          → length out + suc k ≡ limit
          → is_allowed table ctx r.document_id ≡ true
          → ((j : ℕ)
              → length (out ++ r ∷ []) + suc j ≡ limit
              → collect table ctx limit (out ++ r ∷ []) rest
                ≡ (out ++ r ∷ []) ++ take (suc j) (readable rest))
          → collect table ctx limit out (r ∷ rest) ≡ out ++ take (suc k) (readable (r ∷ rest))
      full zero e a ih =
          let reached : nat_eqb (length (out ++ r ∷ [])) limit ≡ true =
            ground (arith, length-append out (r ∷ [])) in
          rw (a, reached)
      full (suc j) e a ih =
          let open_yet : nat_eqb (length (out ++ r ∷ [])) limit ≡ false =
            ground (arith, length-append out (r ∷ [])) in
          rw (a, open_yet)
            (ih j (omega (arith, length-append out (r ∷ []))) ∙ append_assoc out (r ∷ []) _)

  collect-zero :
      (out cands : List (KnowledgeResult Score))
      → collect table ctx 0 out cands ≡ out ++ readable cands
  unfolding collect
  collect-zero out [] = sym (append-nil out)
  collect-zero out (r ∷ rest) = elim (Bool-cases (is_allowed table ctx r.document_id)) [
    | inr no_access ↦ rw no_access (collect-zero out rest)
    | inl allowed ↦
        let open_yet : nat_eqb (length (out ++ r ∷ [])) 0 ≡ false =
          ground (arith, length-append out (r ∷ [])) in
        rw (allowed, open_yet) (collect-zero (out ++ r ∷ []) rest ∙ append_assoc out (r ∷ []) _)
  ]

  pub collect_lem :
      (limit : ℕ) (cands : List (KnowledgeResult Score))
      → collect table ctx limit [] cands
        ≡ (if nat_eqb limit 0 then readable cands else take limit (readable cands))
  collect_lem zero cands = collect-zero [] cands
  collect_lem (suc k) cands = collect-take (suc k) [] cands k (omega arith) ∙ ground arith

module _ (docs : Documents) {Score : Type 0} (kb : KnowledgeBase docs.Document Score)
    (s : AclKnowledgeStore kb.State) (ctx : AccessContext) (text : String) (limit : ℕ) where
  -- With the backend's candidates and a healthy lock, the query returns the first `limit` candidates
  -- that the requester may read, in the backend's order; with a limit of 0 it returns all of them.
  pub reader_query_lem :
      (cands : List (KnowledgeResult Score))
      → kb.query s.inner text (candidate_count limit) ≡ ok cands
      → s.acls.poisoned ≡ false
      → reader_query docs kb s ctx text limit
        ≡ ok (
            if nat_eqb limit 0
            then readable s.acls.content ctx cands
            else take limit (readable s.acls.content ctx cands))
  unfolding reader_query
  reader_query_lem cands q healthy =
      rw (q, healthy) (ap ok (collect_lem s.acls.content ctx limit cands))

  reader_query_inv :
      (out : List (KnowledgeResult Score))
      → reader_query docs kb s ctx text limit ≡ ok out
      → (cands : List (KnowledgeResult Score)) × (kb.query s.inner text (candidate_count limit)
          ≡ ok cands)
        × (out ≡ collect s.acls.content ctx limit [] cands)
  unfolding reader_query
  reader_query_inv out h =
      let (cands, q, rest) = >>=-eq-ok (kb.query s.inner text (candidate_count limit)) _ h in
      let (table, a, e) = >>=-eq-ok (acquire s.acls lock_message) _ rest in
      let (healthy, t) = acquire_ok s.acls lock_message a in (cands, q, cc)

  All-collect :
      (P : KnowledgeResult Score → Type 0) (cands : List (KnowledgeResult Score))
      → All P (readable s.acls.content ctx cands)
      → All P (collect s.acls.content ctx limit [] cands)
  All-collect P cands h = rw (collect_lem s.acls.content ctx limit cands) (go (nat_eqb limit 0))
    where
      go :
          (b : Bool)
          → All P (
              if b
              then readable s.acls.content ctx cands
              else take limit (readable s.acls.content ctx cands))
      go true = h
      go false = All-take P limit (readable s.acls.content ctx cands) h

  -- Every document that a query returns has no recorded allow-list, or one that entitles the
  -- requester, whatever the backend returned.
  pub reader_query-Readable :
      (out : List (KnowledgeResult Score))
      → reader_query docs kb s ctx text limit ≡ ok out
      → All (λ r. Readable s.acls.content ctx r.document_id) out
  reader_query-Readable out h =
      let (cands, q, e) = reader_query_inv out h in
      rw e (
        All-collect _ cands (
          All-imp (λ r. is_allowed s.acls.content ctx r.document_id ≡ true) _
            (λ r. is_allowed→Readable s.acls.content ctx r.document_id) _
            (All-filter (λ r. is_allowed s.acls.content ctx r.document_id) cands)))

  -- A query for no documents is not honoured: with a limit of 0 it returns every candidate that the
  -- requester may read, so as soon as there is one the result is longer than the limit.
  pub reader_query-zero :
      (cands : List (KnowledgeResult Score))
      → limit ≡ 0
      → kb.query s.inner text (candidate_count limit) ≡ ok cands
      → s.acls.poisoned ≡ false
      → readable s.acls.content ctx cands ≢ []
      → (out : List (KnowledgeResult Score)) × (reader_query docs kb s ctx text limit ≡ ok out)
        × (limit < length out)
  reader_query-zero cands z q healthy some_readable = (
    readable s.acls.content ctx cands,
    reader_query_lem cands q healthy ∙ ground arith,
    grind arith,
  )
