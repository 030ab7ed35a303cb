-- ===== src/Ingestion/Pipeline.antt =====
-- The ingestion pipeline (rust/ingestion/src/pipeline.rs): pull, chunk, embed, store. The ledger and
-- the knowledge base are the state; an error leaves in them what was stored before it.
use Prim.Native.String.{◌++◌}
use smooth_agent.Base.{
  ◌≡◌, ℕ, ◌+◌, String, Option, none, some, List, [], ◌∷◌, string_eq, map, length, any, null,
  if◌then◌else◌, not, nat_eqb, ◌||◌, find,
}
use smooth_agent.Base.Dict.{Dict, get, contains_key}
use smooth_agent.Base.Text.{join}
use smooth_agent.Base.Outcome.{Outcome, ok, err}
use smooth_agent.Base.Words.{decimal}
use smooth_agent.Engine.{Documents, KnowledgeBase}
use smooth_agent.Access.Acl.{AclJson, for_groups, attach_to}
use smooth_agent.Curation.Meta.{
  FloatOps, with_document_set, with_boost, document_set_key, boost_key,
}
use smooth_agent.Ingestion.Chunker.{RawDocument, Chunk, Chunker, chunk}
use smooth_agent.Ingestion.Ledger.{IngestLedger, record_key, ledger_contains, chunk_key}
use smooth_agent.Ingestion.Ledger

-- `Connector`: a name, and a pull that may fail.
pub record Connector : Type 0 where
  pub name : String
  pub pull : Option ℕ → Outcome (List RawDocument)

-- `Embedder`: its dimension, and the vectors of a batch of texts.
pub record Embedder : Type 1 where
  pub Vector : Type 0
  pub len : Vector → ℕ
  pub dim : ℕ
  pub embed : List String → Outcome (List Vector)
  -- An implementation must return one vector for each text.
  pub embed-length :
      (texts : List String) (vectors : List Vector)
      → embed texts ≡ ok vectors
      → length vectors ≡ length texts

-- `Document::new` of the engine, with its kinds of documents.
pub record NewDocument (Document : Type 0) : Type 1 where
  pub DocumentType : Type 0
  pub documentation : DocumentType
  pub new : String → String → DocumentType → Document

pub record IngestOptions (DocumentType Score : Type 0) : Type 0 where
  pub org_id : String
  pub since : Option ℕ
  pub ledger : IngestLedger
  pub doc_type : DocumentType
  pub document_sets : List String
  pub boost : Option Score

pub record IngestReport : Type 0 where
  pub documents_pulled : ℕ
  pub documents_skipped : ℕ
  pub chunks_stored : ℕ
  pub embedding_dim : ℕ

-- `.with_context(..)`, with the text of an error as `{:#}` prints it.
abbrev pub with_context {ℓ} : {A : Type ℓ} → String → Outcome A → Outcome A
with_context context (ok a) = ok a
with_context context (err m) = err (context ++ (": " ++ m))

-- What a run changes.
pub record IngestState (State : Type 0) : Type 0 where
  pub knowledge : State
  pub ledger : IngestLedger

module _ {Score : Type 0} {Document : Type 0} (make : NewDocument Document) where
  unfoldable pub for_org : String → IngestOptions make.DocumentType Score
  for_org org_id = record {
    org_id = org_id;
    since = none;
    ledger = Ledger.new;
    doc_type = make.documentation;
    document_sets = [];
    boost = none;
  }

module _ {DocumentType Score : Type 0} where
  abbrev pub in_document_sets :
      IngestOptions DocumentType Score → List String → IngestOptions DocumentType Score
  in_document_sets options sets = record options { document_sets = sets }

  abbrev pub option_boost :
      IngestOptions DocumentType Score → Score → IngestOptions DocumentType Score
  option_boost options boost = record options { boost = some boost }

  abbrev pub with_ledger :
      IngestOptions DocumentType Score → IngestLedger → IngestOptions DocumentType Score
  with_ledger options ledger = record options { ledger = ledger }

  abbrev pub option_since : IngestOptions DocumentType Score → ℕ → IngestOptions DocumentType Score
  option_since options since = record options { since = some since }

  abbrev pub option_doc_type :
      IngestOptions DocumentType Score → DocumentType → IngestOptions DocumentType Score
  option_doc_type options doc_type = record options { doc_type = doc_type }

module _ (docs : Documents) (make : NewDocument docs.Document) {Score : Type 0}
    (float : FloatOps Score) (json : AclJson) where
  -- The loop over the chunk's metadata.
  unfoldable pub carry : docs.Document → Dict String String → docs.Document
  carry doc [] = doc
  carry doc ((k, v) ∷ rest) = carry (docs.with_metadata doc k v) rest

  unfoldable pub stamp_sets : List String → docs.Document → docs.Document
  stamp_sets sets doc =
      if null sets || contains_key (docs.metadata doc) document_set_key
      then doc
      else with_document_set docs doc sets

  unfoldable pub stamp_boost : Option Score → docs.Document → docs.Document
  stamp_boost none doc = doc
  stamp_boost (some b) doc =
      if contains_key (docs.metadata doc) boost_key then doc else with_boost float docs doc b

  unfoldable pub stamp_acl : Option (List String) → docs.Document → docs.Document
  stamp_acl none doc = doc
  stamp_acl (some labels) doc =
      if null labels
      then doc
      else attach_to json docs (for_groups labels) (docs.with_metadata doc "acl" (join "," labels))

  -- The document that `store_chunk` builds.
  unfoldable pub chunk_document :
      IngestOptions make.DocumentType Score → String → Chunk → docs.Document
  unfolding carry stamp_sets stamp_boost stamp_acl
  chunk_document options doc_id c =
      let source : String = elim (get c.metadata "source") [ none ↦ "ingestion" | some s ↦ s ] in
      let d0 = make.new c.text source options.doc_type in
      let d1 = docs.with_metadata d0 "org_id" options.org_id in
      let d2 = docs.with_metadata d1 "document_id" doc_id in
      let d3 = docs.with_metadata d2 "chunk_id" c.id in
      let d4 = docs.with_metadata d3 "chunk_index" (decimal c.index) in
      stamp_acl c.acl
        (stamp_boost options.boost (stamp_sets options.document_sets (carry d4 c.metadata)))

  module _ (kb : KnowledgeBase docs.Document Score) where
    unfoldable pub store_chunk :
        IngestOptions make.DocumentType Score
        → kb.State
        → String
        → Chunk
        → Outcome (Unit {0}) × kb.State
    unfolding chunk_document
    store_chunk options knowledge doc_id c =
        let (r, after) = kb.ingest knowledge (chunk_document options doc_id c) in
        (with_context ("storing chunk '" ++ (c.id ++ "'")) r, after)

    -- One round of the loop over a document's chunks; the number counts the stored ones.
    unfoldable pub store_new :
        IngestOptions make.DocumentType Score
        → String
        → IngestState kb.State
        → ℕ
        → Chunk
        → Outcome ℕ × IngestState kb.State
    unfolding store_chunk
    store_new options doc_id s stored c =
        let (fresh, ledger) = record_key s.ledger (chunk_key options.org_id doc_id c) in
        let (r, knowledge) = store_chunk options s.knowledge doc_id c in
        let tried : IngestState kb.State = record { knowledge = knowledge; ledger = ledger } in
        if not fresh
        then (ok stored, record s { ledger = ledger })
        else elim r [ ok _ ↦ (ok (stored + 1), tried) | err m ↦ (err m, tried) ]

    unfoldable pub store_chunks :
        IngestOptions make.DocumentType Score
        → String
        → IngestState kb.State
        → ℕ
        → List Chunk
        → Outcome ℕ × IngestState kb.State
    unfolding store_new
    store_chunks options doc_id s stored [] = (ok stored, s)
    store_chunks options doc_id s stored (c ∷ cs) =
        let (r, s') = store_new options doc_id s stored c in
        elim r [ err m ↦ (err m, s') | ok count ↦ store_chunks options doc_id s' count cs ]

    -- The batch of vectors is refused if one has the wrong dimension. There are as many vectors as
    -- chunks, as the code asserts in a debug build: that is what an `Embedder` must return.
    unfoldable pub embed_chunks : (embedder : Embedder) → String → List Chunk → Outcome (Unit {0})
    embed_chunks embedder doc_id cs = elim (embedder.embed (map (λ c. c.text) cs)) [
      | err m ↦ with_context ("embedding chunks for document '" ++ (doc_id ++ "'")) (err m)
      | ok vectors ↦ elim (find (λ v. not (nat_eqb (embedder.len v) embedder.dim)) vectors) [
        | none ↦ ok tt
        | some v ↦ err (
            "embedder returned dim "
            ++ (decimal (embedder.len v) ++ (" but reports dim " ++ decimal embedder.dim)))
      ]
    ]

    abbrev pub skip : IngestReport → IngestReport
    skip report = record report { documents_skipped = report.documents_skipped + 1 }

    -- One round of the loop over the documents.
    unfoldable pub ingest_document :
        Chunker
        → Embedder
        → IngestOptions make.DocumentType Score
        → IngestState kb.State
        → IngestReport
        → RawDocument
        → Outcome IngestReport × IngestState kb.State
    unfolding chunk store_chunks embed_chunks
    ingest_document chunker embedder options s report raw =
        let cs = chunk chunker raw in
        let keys = map (chunk_key options.org_id raw.id) cs in
        let any_new = any (λ k. not (ledger_contains s.ledger k)) keys in
        if null cs
        then (ok (skip report), s)
        else if not any_new
        then (ok (skip report), s)
        else elim (embed_chunks embedder raw.id cs) [
          | err m ↦ (err m, s)
          | ok _ ↦
              let (r, s') = store_chunks options raw.id s report.chunks_stored cs in
              elim r [
                | err m ↦ (err m, s')
                | ok stored ↦ (ok (record report { chunks_stored = stored }), s')
              ]
        ]

    unfoldable pub ingest_documents :
        Chunker
        → Embedder
        → IngestOptions make.DocumentType Score
        → IngestState kb.State
        → IngestReport
        → List RawDocument
        → Outcome IngestReport × IngestState kb.State
    unfolding ingest_document
    ingest_documents chunker embedder options s report [] = (ok report, s)
    ingest_documents chunker embedder options s report (raw ∷ raws) =
        let (r, s') = ingest_document chunker embedder options s report raw in
        elim r [
          | err m ↦ (err m, s')
          | ok next ↦ ingest_documents chunker embedder options s' next raws
        ]

    abbrev pub pulled_report : Embedder → List RawDocument → IngestReport
    pulled_report embedder raws = record {
      documents_pulled = length raws;
      documents_skipped = 0;
      chunks_stored = 0;
      embedding_dim = embedder.dim;
    }

    -- The ledger in the options is a handle: what the run leaves in it is in the state.
    unfoldable pub ingest :
        Connector
        → Chunker
        → Embedder
        → kb.State
        → IngestOptions make.DocumentType Score
        → Outcome IngestReport × IngestState kb.State
    unfolding ingest_documents
    ingest connector chunker embedder knowledge options =
        let s : IngestState kb.State = record { knowledge = knowledge; ledger = options.ledger } in
        let pulled =
          with_context ("connector '" ++ (connector.name ++ "' pull failed"))
            (connector.pull options.since) in
        elim pulled [
          | err m ↦ (err m, s)
          | ok raws ↦ ingest_documents chunker embedder options s (pulled_report embedder raws) raws
        ]
