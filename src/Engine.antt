-- ===== src/Engine.antt =====
-- What the service takes from the engine crate `smooth_operator_core`, which is not in the
-- repository: its documents and its knowledge base, as an interface with the laws relied on.
pub mod Toy
use smooth_agent.Base.{ℕ, String, string_eq, ◌≡◌, List}
use smooth_agent.Base.Dict.{Dict, insert}
use smooth_agent.Base.Outcome.{Outcome}

-- A match from a query: the four fields that the repository reads and builds.
pub record KnowledgeResult (Score : Type 0) : Type 0 where
  pub document_id : String
  pub chunk : String
  pub score : Score
  pub source : String

-- `Document`: an id, a metadata map, and the builder that stamps one metadata entry.
pub record Documents : Type 1 where
  pub Document : Type 0
  pub id : Document → String
  pub metadata : Document → Dict String String
  pub with_metadata : Document → String → String → Document
  pub id-with_metadata : (d : Document) (k v : String) → id (with_metadata d k v) ≡ id d
  pub metadata-with_metadata :
      (d : Document) (k v : String) → metadata (with_metadata d k v) ≡ insert (metadata d) k v

-- `KnowledgeBase`: a store whose ingestion may fail, and a ranked query with a limit. What a failed
-- ingestion leaves behind is the backend's own choice.
pub record KnowledgeBase (Document Score : Type 0) : Type 1 where
  pub State : Type 0
  pub ingest : State → Document → Outcome (Unit {0}) × State
  pub query : State → String → ℕ → Outcome (List (KnowledgeResult Score))
