-- ===== src/Ingestion/Cursor.antt =====
-- The store of runs and its cursor over a series of passes.
use smooth_agent.Base.{
  ℕ, ◌≤◌, String, false, Option, none, some, List, [], ◌∷◌, ◌≡◌, ◌≢◌, inl, inr, refl, arith, length,
  string_eq, ◌==◌, ◌&&◌, map, contains, Distinct, if◌then◌else◌, Bool-cases, ap, ◌++◌, ◌∙◌, ◌||◌,
}
use text.Mathlib.TextEquality.{eq_iff}
use smooth_agent.Engine.{Documents, KnowledgeBase}
use smooth_agent.Access.Acl.{AclJson}
use smooth_agent.Base.Outcome.{Outcome-cases}
use smooth_agent.Curation.Meta.{FloatOps}
use smooth_agent.Ingestion.Chunker.{RawDocument, Chunker}
use smooth_agent.Ingestion.Pipeline.{Connector, Embedder, NewDocument}
use smooth_agent.Ingestion.Indexing.{
  IndexingRun, running, has_succeeded, InMemoryIndexingStore, record_run, latest, latest_cursor,
  World, Moment, record_failed, conclude, run_once, index_pulled, emit, started, finished,
  IndexingEvent, ingest_pulled, run_options, after_ingest,
}

abbrev pub ids : InMemoryIndexingStore → List String
ids runs = map (λ r. r.id) runs

-- A time is not behind another one: nothing is behind none.
abbrev pub AtMost : Option ℕ → Option ℕ → Type 0
AtMost none b = Unit
AtMost (some a) none = ⊥
AtMost (some a) (some b) = a ≤ b

latest-AtMost : (a b : Option ℕ) → AtMost b (latest a b)
latest-AtMost none none = tt
latest-AtMost none (some b) = omega arith
latest-AtMost (some a) none = tt
latest-AtMost (some a) (some b) = omega arith

-- A run with a new id stands behind all the others.
pub record_run_new :
    (runs : InMemoryIndexingStore) (run : IndexingRun)
    → contains (ids runs) run.id ≡ false
    → record_run runs run ≡ runs ++ run ∷ []
unfolding record_run
record_run_new [] run new = refl
record_run_new (r ∷ runs) run new = ground (arith, record_run_new runs run)

contains-ids-record_run :
    (runs : InMemoryIndexingStore) (run : IndexingRun) (id : String)
    → contains (ids (record_run runs run)) id ≡ (run.id == id || contains (ids runs) id)
unfolding record_run
contains-ids-record_run [] run id = refl
contains-ids-record_run (r ∷ runs) run id = ground (
  arith,
  eq_iff (r.id) (run.id),
  eq_iff (r.id) id,
  eq_iff (run.id) id,
  contains-ids-record_run runs run id,
)

-- Recording a run keeps the ids of the stored runs distinct.
pub record_run-Distinct :
    (runs : InMemoryIndexingStore) (run : IndexingRun)
    → Distinct (ids runs)
    → Distinct (ids (record_run runs run))
unfolding record_run
record_run-Distinct [] run d = (refl, tt)
record_run-Distinct (r ∷ runs) run d = ground (
  arith,
  eq_iff r.id run.id,
  eq_iff run.id r.id,
  contains-ids-record_run runs run r.id,
  record_run-Distinct runs run d.1,
)

latest-none : (a : Option ℕ) → latest a none ≡ a
latest-none none = refl
latest-none (some a) = refl

latest_assoc : (a b c : Option ℕ) → latest a (latest b c) ≡ latest (latest a b) c
latest_assoc none b c = refl
latest_assoc (some a) none c = refl
latest_assoc (some a) (some b) none = refl
latest_assoc (some a) (some b) (some c) = ap some (omega arith)

-- What a run adds to the cursor of a connector.
abbrev pub gain : IndexingRun → String → Option ℕ
gain run name = if run.connector_name == name && has_succeeded run then run.cursor else none

latest_cursor-append :
    (runs : InMemoryIndexingStore) (run : IndexingRun) (name : String)
    → latest_cursor (runs ++ run ∷ []) name ≡ latest (latest_cursor runs name) (gain run name)
unfolding latest_cursor
latest_cursor-append [] run name =
    elim (Bool-cases (run.connector_name == name && has_succeeded run)) [
      | inl e ↦ rw e (latest-none run.cursor)
      | inr e ↦ rw e refl
    ]
latest_cursor-append (r ∷ runs) run name =
    let ih = latest_cursor-append runs run name in
    elim (Bool-cases (r.connector_name == name && has_succeeded r)) [
      | inl e ↦ rw (e, ih) (latest_assoc r.cursor (latest_cursor runs name) (gain run name))
      | inr e ↦ rw (e, ih) refl
    ]

-- A run with a new id moves the cursor of a connector up to its own, and no other run moves it.
pub latest_cursor-record_run :
    (runs : InMemoryIndexingStore) (run : IndexingRun) (name : String)
    → contains (ids runs) run.id ≡ false
    → latest_cursor (record_run runs run) name ≡ latest (latest_cursor runs name) (gain run name)
latest_cursor-record_run runs run name new =
    rw (record_run_new runs run new) (latest_cursor-append runs run name)

AtMost-latest : (a b : Option ℕ) → AtMost a (latest a b)
AtMost-latest none b = tt
AtMost-latest (some a) none = omega arith
AtMost-latest (some a) (some b) = omega arith

module _ (parse_time : String → Option ℕ) (docs : Documents) (make : NewDocument docs.Document)
    {Score : Type 0} (float : FloatOps Score) (json : AclJson)
    (kb : KnowledgeBase docs.Document Score) where
  -- Whatever happens in a pass, the run that it returns is the one that it records.
  abbrev pub Recorded :
      World make.DocumentType kb.State
      → Moment
      → String
      → IndexingRun × World make.DocumentType kb.State
      → Type 0
  Recorded w now name result =
      (result.1.runs ≡ record_run w.runs result.0)
      × (result.0.id ≡ now.id)
      × (result.0.connector_name ≡ name)
      × (result.0.status ≢ running)

  emit-runs :
      (w : World make.DocumentType kb.State) (event : IndexingEvent) → (emit w event).runs ≡ w.runs
  emit-runs w event = elim (Bool-cases w.service.progress) [ inl e ↦ rw e refl | inr e ↦ rw e refl ]

  conclude-Recorded :
      (w v : World make.DocumentType kb.State) (now : Moment) (name : String) (run : IndexingRun)
      → v.runs ≡ w.runs
      → run.id ≡ now.id
      → run.connector_name ≡ name
      → run.status ≢ running
      → Recorded w now name (conclude v run)
  unfolding conclude
  conclude-Recorded w v now name run e i n s = (
    emit-runs (record v { runs = record_run v.runs run }) (finished run)
        ∙ ap (λ rs. record_run rs run) e,
    i,
    n,
    s,
  )

  record_failed-Recorded :
      (w v : World make.DocumentType kb.State) (now : Moment) (name message : String)
      → v.runs ≡ w.runs
      → Recorded w now name (record_failed v now name message)
  unfolding record_failed
  record_failed-Recorded w v now name message e =
      conclude-Recorded w v now name _ e refl refl (λ h. cc)

  index_pulled-Recorded :
      (w : World make.DocumentType kb.State) (now : Moment) (name : String) (since : Option ℕ)
      (chunker : Chunker) (embedder : Embedder) (raws : List RawDocument)
      → Recorded w now name
          (index_pulled parse_time docs make float json kb w now name since chunker embedder raws)
  unfolding index_pulled record_run
  index_pulled-Recorded w now name since chunker embedder raws =
      let event = started name (length raws) in
      let result =
        ingest_pulled parse_time docs make float json kb name raws chunker embedder w.knowledge
          (run_options parse_time docs make float json kb w.service since) in
      let v = after_ingest parse_time docs make float json kb (emit w event) result.1 in
      elim (Outcome-cases result.0) [
        | inl (report, e) ↦
            rw (e, index_pulled)
              (conclude-Recorded w v now name _ (emit-runs w event) refl refl (λ h. cc))
        | inr (message, e) ↦
            rw (e, index_pulled) (record_failed-Recorded w v now name message (emit-runs w event))
      ]

  -- A pass records exactly the run that it returns, under its new id and the connector's name, and
  -- that run is over, whether the pull or the ingestion failed or not.
  pub run_once-Recorded :
      (w : World make.DocumentType kb.State) (now : Moment) (connector : Connector)
      (chunker : Chunker) (embedder : Embedder)
      → Recorded w now connector.name
          (run_once parse_time docs make float json kb w now connector chunker embedder)
  unfolding run_once record_run
  run_once-Recorded w now connector chunker embedder =
      let since = latest_cursor w.runs connector.name in
      elim (Outcome-cases (connector.pull since)) [
        | inl (raws, e) ↦
            rw (e, run_once)
              (index_pulled-Recorded w now connector.name since chunker embedder raws)
        | inr (message, e) ↦
            rw (e, run_once) (record_failed-Recorded w w now connector.name message refl)
      ]

  -- With an id that no recorded run has, a pass raises its connector's cursor to that of a
  -- successful run, leaves it after a failed one, and never touches another connector's.
  pub latest_cursor-run_once :
      (w : World make.DocumentType kb.State) (now : Moment) (connector : Connector)
      (chunker : Chunker) (embedder : Embedder) (name : String)
      → contains (ids w.runs) now.id ≡ false
      → let result = run_once parse_time docs make float json kb w now connector chunker embedder in
        latest_cursor result.1.runs name
        ≡ latest
            (latest_cursor w.runs name)
            (if connector.name == name && has_succeeded result.0 then result.0.cursor else none)
  latest_cursor-run_once w now connector chunker embedder name new =
      let result = run_once parse_time docs make float json kb w now connector chunker embedder in
      let (stored, id, named, over) = run_once-Recorded w now connector chunker embedder in
      rw (stored, latest_cursor-record_run w.runs result.0 name (rw id new), named) refl

  -- With an id that no recorded run has, no pass moves any connector's cursor back.
  pub run_once-AtMost :
      (w : World make.DocumentType kb.State) (now : Moment) (connector : Connector)
      (chunker : Chunker) (embedder : Embedder) (name : String)
      → contains (ids w.runs) now.id ≡ false
      → let result = run_once parse_time docs make float json kb w now connector chunker embedder in
        AtMost (latest_cursor w.runs name) (latest_cursor result.1.runs name)
  run_once-AtMost w now connector chunker embedder name new =
      rw (latest_cursor-run_once w now connector chunker embedder name new) (AtMost-latest _ _)
