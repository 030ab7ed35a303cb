-- ===== src/Ingestion/Tests.antt =====
-- Runs of the pipeline and of indexing on small inputs.
use smooth_agent.Base.{
  ℕ, ◌*◌, String, true, none, some, List, [], ◌∷◌, ◌≡◌, ◌≢◌, refl, All, Memᴰ, map, length, arith,
  string_eq, leb, ◌==◌, if◌then◌else◌,
}
use smooth_agent.Base.Dict.{Dict, get, insert}
use smooth_agent.Base.Outcome.{Outcome, ok, err}
use smooth_agent.Base.Words.{split_whitespace, split_paragraphs, word_parts, digit}
use smooth_agent.Base.Text.{trim, join}
use smooth_agent.Base.Sets.{set_insert}
use smooth_agent.Engine.{KnowledgeResult, KnowledgeBase}
use smooth_agent.Engine.Toy.{toy_documents, toy_base, entry}
use smooth_agent.Access.Acl.{
  DocAcl, AclJson, attach_to, for_groups, for_user, from_metadata, can_access,
}
use smooth_agent.Access.Store.{AclKnowledgeStore, reader_query}
use smooth_agent.Access.Store
use smooth_agent.Curation.Meta.{FloatOps}
use smooth_agent.Ingestion.Chunker.{
  RawDocument, Chunk, Chunker, raw_document, packed, split_text, hard_split_words,
}
use smooth_agent.Ingestion.Ledger.{IngestLedger, record_key, chunk_key}
use smooth_agent.Ingestion.Ledger
use smooth_agent.Ingestion.Bounds.{Fits, packed-Fits}
use smooth_agent.Ingestion.Pipeline.{
  Connector, Embedder, NewDocument, IngestOptions, IngestReport, IngestState, for_org, with_ledger,
  store_new, ingest, chunk_document,
}
use smooth_agent.Ingestion.Idempotence.{ingest-idempotent, store_new-retry}
use smooth_agent.Ingestion.Labels.{chunk-confidential}
use smooth_agent.Ingestion.Indexing.{
  IndexingRun, IndexingService, World, Moment, latest_cursor, run_once, record_run, latest,
  has_succeeded, succeeded, failed,
}
use smooth_agent.Ingestion.Indexing
use smooth_agent.Ingestion.Cursor.{AtMost, run_once-AtMost}

abbrev make : NewDocument (String × Dict String String)
make = record {
  DocumentType = Unit;
  documentation = tt;
  new = λ content source kind. (content, []);
}

abbrev float : FloatOps ℕ
float = record {
  one = 1;
  mul = λ a b. a * b;
  floor_zero = λ a. a;
  is_finite = λ a. true;
  parse = λ s. none;
  format = λ a. "1";
  total_leb = leb;
}

abbrev staff : DocAcl
staff = for_groups ("staff" ∷ [])

abbrev codec : AclJson
codec = record {
  to_string = λ acl. "staff";
  from_str = λ raw. if raw == "staff" then some staff else none;
}

abbrev vectors_of : List String → List ℕ
vectors_of texts = map (λ t. 2) texts

length-vectors_of : (texts : List String) → length (vectors_of texts) ≡ length texts
length-vectors_of [] = refl
length-vectors_of (text ∷ texts) = ground (arith, length-vectors_of texts)

one_each :
    (texts : List String) (vectors : List ℕ)
    → ok (vectors_of texts) ≡ ok vectors
    → length vectors ≡ length texts
one_each texts vectors h = ground (arith, length-vectors_of texts)

abbrev embedder : Embedder
embedder = record {
  Vector = ℕ;
  len = λ v. v;
  dim = 2;
  embed = λ texts. ok (vectors_of texts);
  embed-length = one_each;
}

abbrev chunker : Chunker
chunker = record { max_chars = 4; overlap_chars = 0 }

abbrev page : RawDocument
page = raw_document "page" "web" "ab cd ef"

abbrev connector : Connector
connector = record { name = "web"; pull = λ since. ok (page ∷ []) }

abbrev options : IngestOptions Unit ℕ
options = record {
  org_id = "org";
  since = none;
  ledger = Ledger.new;
  doc_type = tt;
  document_sets = [];
  boost = none;
}

program : Unit {0}
unfolding ingest split_text split_whitespace split_paragraphs trim hard_split_words word_parts
    record_key set_insert chunk_key digit join store_new chunk_document get insert from_metadata
    can_access run_once record_run latest_cursor
program = tt

packed_page :
    split_text (record { max_chars = 5; overlap_chars = 2 }) "ab cd ef" ≡ "ab cd" ∷ "cd ef" ∷ []
unfolding program
packed_page = refl

packed-Fits_example : All (Fits 4) (packed chunker "ab cd ef")
packed-Fits_example = packed-Fits chunker "ab cd ef"

abbrev first_run : Outcome IngestReport × IngestState (List (KnowledgeResult ℕ))
first_run = ingest toy_documents make float codec toy_base connector chunker embedder [] options

abbrev first_report : IngestReport
first_report = record {
  documents_pulled = 1;
  documents_skipped = 0;
  chunks_stored = 3;
  embedding_dim = 2;
}

first_run_ok : first_run ≡ (ok first_report, first_run.1)
unfolding program
first_run_ok = refl

ingest-idempotent_example :
    ingest toy_documents make float codec toy_base connector chunker embedder first_run.1.knowledge
      (with_ledger options first_run.1.ledger)
    ≡ (
      ok (record {
        documents_pulled = 1;
        documents_skipped = 1;
        chunks_stored = 0;
        embedding_dim = 2;
      }),
      first_run.1,
    )
ingest-idempotent_example =
    ingest-idempotent toy_documents make float codec toy_base options connector chunker embedder []
      (page ∷ []) first_report first_run.1 refl refl first_run_ok

-- A knowledge base that is down.
abbrev broken : KnowledgeBase (String × Dict String String) ℕ
broken = record {
  State = List (KnowledgeResult ℕ);
  ingest = λ s d. (err "down", s);
  query = λ s text n. ok [];
}

abbrev piece : Chunk
piece = record {
  id = "page#0";
  document_id = "page";
  index = 0;
  text = "ab";
  metadata = [];
  acl = some ("staff" ∷ []);
}

abbrev untouched : IngestState (List (KnowledgeResult ℕ))
untouched = record { knowledge = []; ledger = Ledger.new }

abbrev failure : Outcome ℕ × IngestState (List (KnowledgeResult ℕ))
failure = store_new toy_documents make float codec broken options "page" untouched 0 piece

failed_store : failure.0 ≡ err "storing chunk 'page#0': down"
unfolding program
failed_store = refl

abbrev healed : IngestState (List (KnowledgeResult ℕ))
healed = record { knowledge = entry "note" 0 ∷ []; ledger = failure.1.ledger }

store_new-retry_example :
    store_new toy_documents make float codec broken options "page" healed 7 piece ≡ (ok 7, healed)
store_new-retry_example =
    store_new-retry toy_documents make float codec broken options "page" untouched 0 7 piece
      "storing chunk 'page#0': down" (entry "note" 0 ∷ []) refl failed_store

abbrev staff_document : String × Dict String String
staff_document = chunk_document toy_documents make float codec options "page" piece

abbrev acl_store : AclKnowledgeStore (List (KnowledgeResult ℕ))
acl_store = Store.new toy_documents toy_base codec (entry "note" 0 ∷ [])

abbrev filled : AclKnowledgeStore (List (KnowledgeResult ℕ))
filled = (Store.ingest toy_documents toy_base codec acl_store staff_document).1

outsider : (g : String) → Memᴰ g [] → Memᴰ g ("staff" ∷ []) → ⊥
outsider g mine listed = elim mine [ ]

bobs : reader_query toy_documents toy_base filled (for_user "bob") "ab" 5 ≡ ok (entry "note" 0 ∷ [])
unfolding program reader_query Store.ingest Store.is_allowed Store.candidate_count Store.collect
    attach_to
bobs = refl

chunk-confidential_example :
    All {X = KnowledgeResult ℕ} (λ r. r.document_id ≢ staff_document.0) (entry "note" 0 ∷ [])
chunk-confidential_example =
    chunk-confidential toy_documents make float codec options "page" piece "staff" [] toy_base
      acl_store (for_user "bob") "ab" 5 (entry "note" 0 ∷ []) refl refl refl outsider bobs

abbrev old_run : IndexingRun
old_run = record {
  id = "r1";
  connector_name = "web";
  status = succeeded;
  started_at = 5;
  finished_at = some 6;
  documents_seen = 1;
  chunks_indexed = 1;
  documents_skipped = 0;
  cursor = some 4;
  error = none;
}

abbrev world : World Unit (List (KnowledgeResult ℕ))
world = record {
  knowledge = [];
  service = Indexing.with_progress (Indexing.new make "org");
  runs = old_run ∷ [];
  events = [];
}

abbrev tick : Moment
tick = record { id = "r2"; started_at = 10; finished_at = 11 }

abbrev pass : IndexingRun × World Unit (List (KnowledgeResult ℕ))
pass =
    run_once (λ raw. none) toy_documents make float codec toy_base world tick connector chunker
      embedder

pass_runs : latest_cursor pass.1.runs "web" ≡ some 10
unfolding program for_org Indexing.max_updated_at
pass_runs = refl

run_once-AtMost_example :
    AtMost (latest_cursor (old_run ∷ []) "web") (latest_cursor pass.1.runs "web")
run_once-AtMost_example =
    run_once-AtMost (λ raw. none) toy_documents make float codec toy_base world tick connector
      chunker embedder "web" refl
