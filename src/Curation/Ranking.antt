-- ===== src/Curation/Ranking.antt =====
-- What a curated query returns.
use mathlib.Core.List.Memᴰ
use smooth_agent.Base.{
  ℕ, ◌≤◌, ◌<◌, ◌⊎◌, String, true, false, List, [], ◌∷◌, ◌≡◌, refl, arith, take, length, string_eq,
  nat_eqb, All, All-take, All-imp, Bool-cases, inl, inr, length-take, Memᴰ,
}
use mathlib.Core.Path.{subst}
use smooth_agent.Base.Sort.{
  sort_by, IsSorted, sort_by-IsSorted, All-sort_by, IsSorted-take, sorted_take, mem-sort_by,
}
use smooth_agent.Base.Outcome.{ok, >>=-eq-ok, acquire, acquire_ok}
use smooth_agent.Engine.{KnowledgeResult, Documents, KnowledgeBase}
use smooth_agent.Access.Acl.{AccessContext}
use smooth_agent.Access.Store.{AclTable, candidate_count, is_allowed, lock_message}
use smooth_agent.Access.Reader.{Readable, is_allowed→Readable, Readable→is_allowed}
use smooth_agent.Curation.Meta.{FloatOps}
use smooth_agent.Curation.Filter.{RetrievalFilter, matches, Matches, matches_iff}
use smooth_agent.Curation.Store.{
  MetaTable, CuratedKnowledgeStore, meta_of, boosted, keep, ranked_before, reader_query,
  meta_lock_message,
}

module _ {Score : Type 0} (float : FloatOps Score) (metas : MetaTable Score) (acls : AclTable)
    (f : RetrievalFilter) (ctx : AccessContext) where
  -- A result stands for a candidate that the requester may read and the filter passes, with its
  -- score multiplied by the document's boost.
  pub record Admitted (cands : List (KnowledgeResult Score)) (r : KnowledgeResult Score)
      : Type 0 where
    pub candidate : KnowledgeResult Score
    pub offered : Memᴰ candidate cands
    pub rescored : r ≡ boosted float (meta_of float metas candidate.document_id) candidate
    pub readable : Readable acls ctx candidate.document_id
    pub wanted : Matches f (meta_of float metas candidate.document_id)

  Admitted-tail :
      (c : KnowledgeResult Score) (cands : List (KnowledgeResult Score)) (r : KnowledgeResult Score)
      → Admitted cands r
      → Admitted (c ∷ cands) r
  Admitted-tail c cands r a = record {
    candidate = a.candidate;
    offered = Memᴰ.tail a.offered;
    rescored = a.rescored;
    readable = a.readable;
    wanted = a.wanted;
  }

  keep-Admitted :
      (cands : List (KnowledgeResult Score))
      → All (Admitted cands) (keep float metas acls f ctx cands)
  unfolding keep
  keep-Admitted [] = tt
  keep-Admitted (c ∷ cands) =
      let meta = meta_of float metas c.document_id in
      let rest =
        All-imp (Admitted cands) (Admitted (c ∷ cands)) (Admitted-tail c cands) _
          (keep-Admitted cands) in
      elim (Bool-cases (is_allowed acls ctx c.document_id)) [
        | inr denied ↦ rw denied rest
        | inl allowed ↦ elim (Bool-cases (matches f meta)) [
          | inr passed_over ↦ rw (allowed, passed_over) rest
          | inl wanted ↦
              rw (allowed, wanted)
                (
                  record {
                    candidate = c;
                    offered = Memᴰ.head refl;
                    rescored = refl;
                    readable = is_allowed→Readable acls ctx c.document_id allowed;
                    wanted = (matches_iff f meta).0 wanted;
                  },
                  rest,
                )
        ]
      ]

  keep_mem :
      (cands : List (KnowledgeResult Score)) (c : KnowledgeResult Score)
      → Memᴰ c cands
      → Readable acls ctx c.document_id
      → Matches f (meta_of float metas c.document_id)
      → Memᴰ
          (boosted float (meta_of float metas c.document_id) c)
          (keep float metas acls f ctx cands)
  unfolding keep
  keep_mem [] c m r w = elim m [ ]
  keep_mem (d ∷ cands) c m r w = elim (Memᴰ.cases_cons m) [
    | inl here ↦
        subst
          (λ d.
            Memᴰ (boosted float (meta_of float metas c.document_id) c)
              (keep float metas acls f ctx (d ∷ cands)))
          here
          (rw (Readable→is_allowed acls ctx c.document_id r, (matches_iff f _).1 w)
            (Memᴰ.head refl))
    | inr there ↦
        let ih = keep_mem cands c there r w in
        elim (Bool-cases (is_allowed acls ctx d.document_id)) [
          | inr denied ↦ rw denied ih
          | inl allowed ↦ elim (Bool-cases (matches f (meta_of float metas d.document_id))) [
            | inr passed_over ↦ rw (allowed, passed_over) ih
            | inl wanted ↦ rw (allowed, wanted) (Memᴰ.tail ih)
          ]
        ]
  ]

module _ (docs : Documents) {Score : Type 0} (kb : KnowledgeBase docs.Document Score)
    (float : FloatOps Score) (s : CuratedKnowledgeStore kb.State Score) (f : RetrievalFilter)
    (ctx : AccessContext) (text : String) (limit : ℕ) where
  abbrev survivors : List (KnowledgeResult Score) → List (KnowledgeResult Score)
  survivors cands =
      sort_by (ranked_before float) (keep float s.meta.content s.acls.content f ctx cands)

  reader_query_inv :
      (out cands : List (KnowledgeResult Score))
      → 0 < limit
      → kb.query s.inner text (candidate_count limit) ≡ ok cands
      → reader_query docs kb float s f ctx text limit ≡ ok out
      → out ≡ take limit (survivors cands)
  unfolding reader_query
  reader_query_inv out cands pos q h =
      let some_limit : nat_eqb limit 0 ≡ false = ground arith in
      let (cands', q', rest) =
        >>=-eq-ok (kb.query s.inner text (candidate_count limit)) _ (rw some_limit at h) in
      let (metas, a, rest') = >>=-eq-ok (acquire s.meta meta_lock_message) _ rest in
      let (acls, b, e) = >>=-eq-ok (acquire s.acls lock_message) _ rest' in
      let (_, m) = acquire_ok s.meta meta_lock_message a in
      let (_, n) = acquire_ok s.acls lock_message b in let same : cands' ≡ cands = cc in cc

  -- Every result of a curated query stands for a candidate of the backend that the requester may
  -- read and that the filter passes, with the candidate's score multiplied by the boost recorded for
  -- its document (or by one, if nothing is recorded); in particular no filter and no boost lets a
  -- requester see a document that the access lists keep from them.
  pub reader_query-Admitted :
      (out cands : List (KnowledgeResult Score))
      → 0 < limit
      → kb.query s.inner text (candidate_count limit) ≡ ok cands
      → reader_query docs kb float s f ctx text limit ≡ ok out
      → All (Admitted float s.meta.content s.acls.content f ctx cands) out
  reader_query-Admitted out cands pos q h = rw (reader_query_inv out cands pos q h) (
      All-take (Admitted float s.meta.content s.acls.content f ctx cands) limit (survivors cands) (
        All-sort_by (ranked_before float) (Admitted float s.meta.content s.acls.content f ctx cands)
          (keep float s.meta.content s.acls.content f ctx cands)
          (keep-Admitted float s.meta.content s.acls.content f ctx cands)))

  -- The result is the best of what may be returned: given that the float order is total and
  -- transitive, it is sorted from the highest boosted score down and holds at most `limit` rows,
  -- and every candidate that the requester may read and the filter passes is in it with its boosted
  -- score, unless the result is full and none of its rows ranks below that candidate.
  pub reader_query-best :
      (out cands : List (KnowledgeResult Score))
      → 0 < limit
      → kb.query s.inner text (candidate_count limit) ≡ ok cands
      → reader_query docs kb float s f ctx text limit ≡ ok out
      → ((a b : Score) → float.total_leb a b ≡ false → float.total_leb b a ≡ true)
      → ((a b c : Score)
          → float.total_leb a b ≡ true
          → float.total_leb b c ≡ true
          → float.total_leb a c ≡ true)
      → IsSorted (ranked_before float) out
        × (length out ≤ limit)
        × ((c : KnowledgeResult Score)
            → Memᴰ c cands
            → Readable s.acls.content ctx c.document_id
            → Matches f (meta_of float s.meta.content c.document_id)
            → Memᴰ (boosted float (meta_of float s.meta.content c.document_id) c) out
              ⊎ All
                  (λ r.
                    ranked_before float r
                      (boosted float (meta_of float s.meta.content c.document_id) c)
                    ≡ true)
                  out
                × (length out ≡ limit))
  reader_query-best out cands pos q h total trans =
      let kept = keep float s.meta.content s.acls.content f ctx cands in
      let sorted =
        sort_by-IsSorted (ranked_before float) (λ x y e. total y.score x.score e)
          (λ x y z e e'. trans z.score y.score x.score e' e) kept in
      rw (reader_query_inv out cands pos q h) (
        IsSorted-take (ranked_before float) limit (survivors cands) sorted,
        omega (arith, length-take limit (survivors cands)),
        λ c m r w. sorted_take (ranked_before float) limit (survivors cands) _ sorted (
            mem-sort_by (ranked_before float)
              (keep_mem float s.meta.content s.acls.content f ctx cands c m r w)),
      )
