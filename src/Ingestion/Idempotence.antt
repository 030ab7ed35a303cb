-- ===== src/Ingestion/Idempotence.antt =====
-- Runs of the pipeline over the same documents (rust/ingestion/src/pipeline.rs).
use mathlib.Core.Path.{subst}
use smooth_agent.Base.{
  ℕ, String, true, false, List, [], ◌∷◌, ◌≡◌, refl, ap, sym, ◌∙◌, arith, string_eq, length,
  contains, All,
}
use smooth_agent.Base.Sets.{set_insert}
use smooth_agent.Base.Outcome.{ok, err}
use smooth_agent.Engine.{Documents, KnowledgeBase}
use smooth_agent.Access.Acl.{AclJson}
use smooth_agent.Curation.Meta.{FloatOps}
use smooth_agent.Ingestion.Chunker.{RawDocument, Chunk, Chunker}
use smooth_agent.Ingestion.Ledger.{IngestLedger, record_key, chunk_key}
use smooth_agent.Ingestion.Pipeline.{
  Connector, Embedder, NewDocument, IngestOptions, IngestReport, IngestState, with_ledger,
  store_new, ingest_documents, ingest, pulled_report,
}
use smooth_agent.Ingestion.Reingest.{
  Covered, keys_of, documents-Covered, documents-Grown, skip_all_lem, store_new-Grown,
}

set_insert_old : (xs : List String) (a : String) → contains xs a ≡ true → set_insert xs a ≡ xs
unfolding set_insert
set_insert_old [] a h = cc
set_insert_old (x ∷ xs) a h = ground (arith, set_insert_old xs a)

record_key_old :
    (l : IngestLedger) (k : String)
    → l.poisoned ≡ false
    → contains l.content k ≡ true
    → record_key l k ≡ (false, l)
unfolding record_key
record_key_old l k h c = rw (h, c, set_insert_old l.content k c) (ground arith)

module _ (docs : Documents) (make : NewDocument docs.Document) {Score : Type 0}
    (float : FloatOps Score) (json : AclJson) (kb : KnowledgeBase docs.Document Score) where
  store_new_old :
      (options : IngestOptions make.DocumentType Score) (doc_id : String) (s : IngestState kb.State)
      (n : ℕ) (c : Chunk)
      → record_key s.ledger (chunk_key options.org_id doc_id c) ≡ (false, s.ledger)
      → store_new docs make float json kb options doc_id s n c ≡ (ok n, s)
  unfolding store_new
  store_new_old options doc_id s n c e = rw e refl

  -- A chunk whose store fails is lost: its key stays in the ledger, so with any later
  -- knowledge base a second attempt reports success, and neither stores the chunk nor counts it.
  pub store_new-retry :
      (options : IngestOptions make.DocumentType Score) (doc_id : String) (s : IngestState kb.State)
      (n later : ℕ) (c : Chunk) (message : String) (knowledge : kb.State)
      → s.ledger.poisoned ≡ false
      → (store_new docs make float json kb options doc_id s n c).0 ≡ err message
      → let after : IngestState kb.State = record {
        knowledge = knowledge;
        ledger = (store_new docs make float json kb options doc_id s n c).1.ledger;
      } in
        store_new docs make float json kb options doc_id after later c ≡ (ok later, after)
  store_new-retry options doc_id s n later c message knowledge h e =
      let l = (store_new docs make float json kb options doc_id s n c).1.ledger in
      let (g, here) = store_new-Grown docs make float json kb options doc_id s n c h in
      store_new_old options doc_id (record { knowledge = knowledge; ledger = l }) later c
        (record_key_old l (chunk_key options.org_id doc_id c) g.0 here)

  ingest_lem :
      (options : IngestOptions make.DocumentType Score) (connector : Connector) (chunker : Chunker)
      (embedder : Embedder) (knowledge : kb.State) (raws : List RawDocument)
      → connector.pull options.since ≡ ok raws
      → ingest docs make float json kb connector chunker embedder knowledge options
        ≡ ingest_documents docs make float json kb chunker embedder options
            (record { knowledge = knowledge; ledger = options.ledger })
            (pulled_report docs make float json kb embedder raws)
            raws
  unfolding ingest
  ingest_lem options connector chunker embedder knowledge raws p = rw (p, ingest) refl

  -- Ingestion is idempotent: after a run with a healthy ledger that succeeds, a run with the ledger
  -- that it left, over the same pulled documents, succeeds, skips every document, stores no chunk,
  -- and changes neither the knowledge base nor the ledger.
  pub ingest-idempotent :
      (options : IngestOptions make.DocumentType Score) (connector : Connector) (chunker : Chunker)
      (embedder : Embedder) (knowledge : kb.State) (raws : List RawDocument) (report : IngestReport)
      (after : IngestState kb.State)
      → options.ledger.poisoned ≡ false
      → connector.pull options.since ≡ ok raws
      → ingest docs make float json kb connector chunker embedder knowledge options
        ≡ (ok report, after)
      → ingest docs make float json kb connector chunker embedder after.knowledge
          (with_ledger options after.ledger)
        ≡ (
          ok (record {
            documents_pulled = length raws;
            documents_skipped = length raws;
            chunks_stored = 0;
            embedding_dim = embedder.dim;
          }),
          after,
        )
  ingest-idempotent options connector chunker embedder knowledge raws report after h p run =
      let s0 : IngestState kb.State = record { knowledge = knowledge; ledger = options.ledger } in
      let start = pulled_report docs make float json kb embedder raws in
      let first = sym (ingest_lem options connector chunker embedder knowledge raws p) ∙ run in
      let (g, c) =
        documents-Grown docs make float json kb options chunker embedder s0 start raws h in
      let healthy = ap (λ r. r.1.ledger.poisoned) (sym first) ∙ g.0 in
      let covered =
        subst
          (λ l. All (λ raw. Covered l (keys_of docs make float json kb options chunker raw)) raws)
          (ap (λ r. r.1.ledger) first) (c report (ap (λ r. r.0) first)) in
      let again = with_ledger options after.ledger in
      ingest_lem again connector chunker embedder after.knowledge raws p
      ∙ documents-Covered docs make float json kb again chunker embedder after start raws healthy
          covered
      ∙ ap (λ r. (ok r, after)) (skip_all_lem docs make float json kb options start raws)
      ∙ ground arith
