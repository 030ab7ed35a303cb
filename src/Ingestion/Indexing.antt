-- ===== src/Ingestion/Indexing.antt =====
-- Incremental indexing (rust/ingestion/src/indexing.rs): the store of runs, and one pass over a
-- connector. Times are numbers; the clock, the new id and the reading of RFC 3339 come as arguments.
use smooth_agent.Base.{
  ℕ, String, Bool, true, false, Option, none, some, List, [], ◌∷◌, string_eq, ◌==◌, ◌&&◌, filter,
  length, max, if◌then◌else◌,
}
use smooth_agent.Base.Dict.{get}
use smooth_agent.Base.Outcome.{Outcome, ok, err}
use smooth_agent.Engine.{Documents, KnowledgeBase}
use smooth_agent.Access.Acl.{AclJson}
use smooth_agent.Curation.Meta.{FloatOps}
use smooth_agent.Ingestion.Chunker.{RawDocument, Chunker}
use smooth_agent.Ingestion.Ledger.{IngestLedger}
use smooth_agent.Ingestion.Ledger
use smooth_agent.Ingestion.Pipeline.{
  Connector, Embedder, NewDocument, IngestOptions, IngestReport, IngestState, for_org, with_ledger,
  option_doc_type, option_since, ingest,
}

pub data IndexingRunStatus : Type 0 where
  running succeeded failed : IndexingRunStatus

pub record IndexingRun : Type 0 where
  pub id : String
  pub connector_name : String
  pub status : IndexingRunStatus
  pub started_at : ℕ
  pub finished_at : Option ℕ
  pub documents_seen : ℕ
  pub chunks_indexed : ℕ
  pub documents_skipped : ℕ
  pub cursor : Option ℕ
  pub error : Option String

abbrev pub has_succeeded : IndexingRun → Bool
has_succeeded run = elim run.status [ running ↦ false | succeeded ↦ true | failed ↦ false ]

abbrev pub InMemoryIndexingStore : Type 0
InMemoryIndexingStore = List IndexingRun

unfoldable pub record_run : InMemoryIndexingStore → IndexingRun → InMemoryIndexingStore
record_run [] run = run ∷ []
record_run (r ∷ runs) run =
    let rest = record_run runs run in if r.id == run.id then run ∷ runs else r ∷ rest

-- `Iterator::max` on optional times, of which those that are there count.
abbrev pub latest : Option ℕ → Option ℕ → Option ℕ
latest none b = b
latest (some a) none = some a
latest (some a) (some b) = some (max a b)

unfoldable pub latest_cursor : InMemoryIndexingStore → String → Option ℕ
latest_cursor [] name = none
latest_cursor (r ∷ runs) name =
    let rest = latest_cursor runs name in
    if r.connector_name == name && has_succeeded r then latest r.cursor rest else rest

unfoldable pub list_runs : InMemoryIndexingStore → String → List IndexingRun
list_runs runs name = filter (λ r. r.connector_name == name) runs

pub data IndexingEvent : Type 0 where
  started : String → ℕ → IndexingEvent
  finished : IndexingRun → IndexingEvent

-- The service; `progress` says whether a callback is installed.
pub record IndexingService (DocumentType : Type 0) : Type 0 where
  pub org_id : String
  pub doc_type : DocumentType
  pub ledger : Option IngestLedger
  pub progress : Bool

abbrev pub new :
    {Document : Type 0} (make : NewDocument Document) → String → IndexingService make.DocumentType
new make org_id = record {
  org_id = org_id;
  doc_type = make.documentation;
  ledger = none;
  progress = false;
}

module _ {DocumentType : Type 0} where
  abbrev pub doc_type : IndexingService DocumentType → DocumentType → IndexingService DocumentType
  doc_type service t = record service { doc_type = t }

  abbrev pub service_ledger :
      IndexingService DocumentType → IngestLedger → IndexingService DocumentType
  service_ledger service ledger = record service { ledger = some ledger }

  abbrev pub with_progress : IndexingService DocumentType → IndexingService DocumentType
  with_progress service = record service { progress = true }

-- What a pass changes: the knowledge base, the service with its shared ledger, the recorded runs,
-- and the calls of the progress callback.
pub record World (DocumentType State : Type 0) : Type 0 where
  pub knowledge : State
  pub service : IndexingService DocumentType
  pub runs : InMemoryIndexingStore
  pub events : List IndexingEvent

-- What a pass reads of its surroundings: the id it makes and the two readings of the clock.
pub record Moment : Type 0 where
  pub id : String
  pub started_at : ℕ
  pub finished_at : ℕ

module _ {DocumentType State : Type 0} where
  abbrev pub emit : World DocumentType State → IndexingEvent → World DocumentType State
  emit w event = if w.service.progress then record w { events = event ∷ w.events } else w

  -- Both ends of a pass: the run is stored and reported.
  unfoldable pub conclude :
      World DocumentType State → IndexingRun → IndexingRun × World DocumentType State
  conclude w run = (run, emit (record w { runs = record_run w.runs run }) (finished run))

  unfoldable pub record_failed :
      World DocumentType State → Moment → String → String → IndexingRun × World DocumentType State
  unfolding conclude
  record_failed w now connector_name message = conclude w (record {
    id = now.id;
    connector_name = connector_name;
    status = failed;
    started_at = now.started_at;
    finished_at = some now.finished_at;
    documents_seen = 0;
    chunks_indexed = 0;
    documents_skipped = 0;
    cursor = none;
    error = some message;
  })

module _ (parse_time : String → Option ℕ) where
  abbrev pub updated_at : RawDocument → Option ℕ
  updated_at raw = elim (get raw.metadata "updated_at") [ none ↦ none | some s ↦ parse_time s ]

  unfoldable pub max_updated_at : List RawDocument → Option ℕ
  max_updated_at [] = none
  max_updated_at (raw ∷ raws) = latest (updated_at raw) (max_updated_at raws)

  -- The cursor of a successful run.
  abbrev pub next_cursor : Option ℕ → ℕ → List RawDocument → Option ℕ
  next_cursor since started_at [] = since
  next_cursor since started_at (raw ∷ raws) = elim (max_updated_at (raw ∷ raws)) [
    | none ↦ some started_at
    | some t ↦ some t
  ]

  module _ (docs : Documents) (make : NewDocument docs.Document) {Score : Type 0}
      (float : FloatOps Score) (json : AclJson) (kb : KnowledgeBase docs.Document Score) where
    unfoldable pub ingest_pulled :
        String
        → List RawDocument
        → Chunker
        → Embedder
        → kb.State
        → IngestOptions make.DocumentType Score
        → Outcome IngestReport × IngestState kb.State
    ingest_pulled source_name raws chunker embedder knowledge options =
        ingest docs make float json kb (record { name = source_name; pull = λ since. ok raws })
          chunker embedder knowledge options

    -- The shared ledger of a service, or a fresh one.
    abbrev pub run_ledger : Option IngestLedger → IngestLedger
    run_ledger none = Ledger.new
    run_ledger (some ledger) = ledger

    unfoldable pub run_options :
        IndexingService make.DocumentType → Option ℕ → IngestOptions make.DocumentType Score
    run_options service since =
        let o =
          option_doc_type (with_ledger (for_org make service.org_id) (run_ledger service.ledger))
            service.doc_type in
        elim since [ none ↦ o | some s ↦ option_since o s ]

    -- What the pipeline leaves: a shared ledger is the service's, a fresh one is dropped.
    abbrev pub after_ingest :
        World make.DocumentType kb.State → IngestState kb.State → World make.DocumentType kb.State
    after_ingest w s = record w {
      knowledge = s.knowledge;
      service = record (w.service) {
        ledger = elim (w.service.ledger) [ none ↦ none | some _ ↦ some s.ledger ];
      };
    }

    abbrev pub succeeded_run :
        String → Moment → Option ℕ → List RawDocument → IngestReport → IndexingRun
    succeeded_run connector_name now since raws report = record {
      id = now.id;
      connector_name = connector_name;
      status = succeeded;
      started_at = now.started_at;
      finished_at = some now.finished_at;
      documents_seen = length raws;
      chunks_indexed = report.chunks_stored;
      documents_skipped = report.documents_skipped;
      cursor = next_cursor since now.started_at raws;
      error = none;
    }

    -- `run_once` behind its pull.
    unfoldable pub index_pulled :
        World make.DocumentType kb.State
        → Moment
        → String
        → Option ℕ
        → Chunker
        → Embedder
        → List RawDocument
        → IndexingRun × World make.DocumentType kb.State
    unfolding ingest_pulled run_options record_failed conclude
    index_pulled w now name since chunker embedder raws =
        let announced = emit w (started name (length raws)) in
        let (r, s) =
          ingest_pulled name raws chunker embedder w.knowledge (run_options w.service since) in
        let w' = after_ingest announced s in
        elim r [
          | err m ↦ record_failed w' now name m
          | ok report ↦ conclude w' (succeeded_run name now since raws report)
        ]

    unfoldable pub run_once :
        World make.DocumentType kb.State
        → Moment
        → Connector
        → Chunker
        → Embedder
        → IndexingRun × World make.DocumentType kb.State
    unfolding index_pulled record_failed latest_cursor
    run_once w now connector chunker embedder =
        let since = latest_cursor w.runs connector.name in
        elim (connector.pull since) [
          | err m ↦ record_failed w now connector.name m
          | ok raws ↦ index_pulled w now connector.name since chunker embedder raws
        ]
