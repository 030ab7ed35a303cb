-- ===== src/Curation/Store.antt =====
-- `CuratedKnowledgeStore` with its two handles, which share the tables and the backend.
use smooth_agent.Base.{
  ℕ, String, Bool, Option, none, some, List, [], ◌∷◌, take, string_eq, if◌then◌else◌, nat_eqb,
}
use smooth_agent.Base.Dict.{Dict, get, insert}
use smooth_agent.Base.Sort.{sort_by}
use smooth_agent.Base.Outcome.{Outcome, ok, err, ◌>>=◌, Lock, new_lock, acquire, store}
use smooth_agent.Engine.{KnowledgeResult, Documents, KnowledgeBase}
use smooth_agent.Access.Acl.{DocAcl, AccessContext, AclJson}
use smooth_agent.Access.Acl
use smooth_agent.Access.Store.{AclTable, candidate_count, is_allowed, lock_message}
use smooth_agent.Curation.Meta.{FloatOps, DocMeta, from_metadata, unrecorded}
use smooth_agent.Curation.Filter.{RetrievalFilter, matches}

abbrev pub meta_lock_message : String
meta_lock_message = "curation meta table lock poisoned: poisoned lock: another task failed inside"

abbrev pub MetaTable : Type 0 → Type 0
MetaTable Score = Dict String (DocMeta Score)

pub record CuratedKnowledgeStore (State Score : Type 0) : Type 0 where
  pub inner : State
  pub meta : Lock (MetaTable Score)
  pub acls : Lock AclTable

module _ {Score : Type 0} (float : FloatOps Score) where
  -- The metadata of a result: the recorded one, or that of an uncurated document.
  abbrev pub meta_of : MetaTable Score → String → DocMeta Score
  meta_of table id = elim (get table id) [ none ↦ unrecorded float | some meta ↦ meta ]

  abbrev pub boosted : DocMeta Score → KnowledgeResult Score → KnowledgeResult Score
  boosted meta result = record result { score = float.mul result.score meta.boost }

  -- The `for` loop of the reader's query.
  unfoldable pub keep :
      MetaTable Score
      → AclTable
      → RetrievalFilter
      → AccessContext
      → List (KnowledgeResult Score)
      → List (KnowledgeResult Score)
  keep metas acls f ctx [] = []
  keep metas acls f ctx (result ∷ rest) =
      let kept = keep metas acls f ctx rest in
      let meta = meta_of metas result.document_id in
      if is_allowed acls ctx result.document_id
      then (if matches f meta then boosted meta result ∷ kept else kept)
      else kept

  -- `b.score.total_cmp(&a.score)` is not `Greater`.
  abbrev pub ranked_before : KnowledgeResult Score → KnowledgeResult Score → Bool
  ranked_before a b = float.total_leb b.score a.score

module _ (docs : Documents) {Score : Type 0} (kb : KnowledgeBase docs.Document Score)
    (float : FloatOps Score) where
  open docs use {Document}

  abbrev pub new : kb.State → CuratedKnowledgeStore kb.State Score
  new inner = record { inner = inner; meta = new_lock []; acls = new_lock [] }

  unfoldable pub record_meta :
      CuratedKnowledgeStore kb.State Score
      → String
      → DocMeta Score
      → Outcome (Unit {0}) × CuratedKnowledgeStore kb.State Score
  record_meta s id meta = elim (acquire s.meta meta_lock_message) [
    | ok table ↦ (ok tt, record s { meta = store s.meta (insert table id meta) })
    | err m ↦ (err m, s)
  ]

  -- The second half of the bookkeeping: a stamped list is recorded, if its lock is healthy.
  unfoldable pub record_stamp :
      CuratedKnowledgeStore kb.State Score
      → Option DocAcl
      → String
      → Outcome (Unit {0}) × CuratedKnowledgeStore kb.State Score
  record_stamp s none id = (ok tt, s)
  record_stamp s (some acl) id = elim (acquire s.acls lock_message) [
    | ok table ↦ (ok tt, record s { acls = store s.acls (insert table id acl) })
    | err m ↦ (err m, s)
  ]

  unfoldable pub record_ingest_metadata :
      AclJson
      → CuratedKnowledgeStore kb.State Score
      → Document
      → Outcome (Unit {0}) × CuratedKnowledgeStore kb.State Score
  unfolding record_meta record_stamp
  record_ingest_metadata json s doc =
      let (r, s') = record_meta s (docs.id doc) (from_metadata float (docs.metadata doc)) in
      elim r [
        | err m ↦ (err m, s')
        | ok _ ↦ record_stamp s' (Acl.from_metadata json (docs.metadata doc)) (docs.id doc)
      ]

  -- `ingest` of both handles.
  unfoldable pub ingest :
      AclJson
      → CuratedKnowledgeStore kb.State Score
      → Document
      → Outcome (Unit {0}) × CuratedKnowledgeStore kb.State Score
  unfolding record_ingest_metadata
  ingest json s doc =
      let (r, s') = record_ingest_metadata json s doc in
      elim r [
        | err m ↦ (err m, s')
        | ok _ ↦ let (r', inner) = kb.ingest s'.inner doc in (r', record s' { inner = inner })
      ]

  -- `query` of the ingest handle: unfiltered.
  unfoldable pub handle_query :
      CuratedKnowledgeStore kb.State Score → String → ℕ → Outcome (List (KnowledgeResult Score))
  handle_query s text limit = kb.query s.inner text limit

  -- `query` of a reader bound to a filter and a requester.
  unfoldable pub reader_query :
      CuratedKnowledgeStore kb.State Score
      → RetrievalFilter
      → AccessContext
      → String
      → ℕ
      → Outcome (List (KnowledgeResult Score))
  reader_query s f ctx text limit = if nat_eqb limit 0 then ok [] else (do
    candidates ← kb.query s.inner text (candidate_count limit)
    metas ← acquire s.meta meta_lock_message
    acls ← acquire s.acls lock_message
    ok (take limit (sort_by (ranked_before float) (keep float metas acls f ctx candidates))))
