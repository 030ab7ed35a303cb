-- ===== src/Engine/Toy.antt =====
-- A small engine that meets the interface: documents are an id with a map, and the knowledge base
-- lists every ingested document, with the number of entries before it as the score.
use smooth_agent.Base.{ℕ, String, string_eq, List, [], ◌∷◌, ◌++◌, refl, take, length}
use smooth_agent.Base.Dict.{Dict, insert}
use smooth_agent.Base.Outcome.{ok}
use smooth_agent.Engine.{KnowledgeResult, Documents, KnowledgeBase}

abbrev pub toy_documents : Documents
toy_documents = record {
  Document = String × Dict String String;
  id = λ d. d.0;
  metadata = λ d. d.1;
  with_metadata = λ d k v. (d.0, insert d.1 k v);
  id-with_metadata = λ d k v. refl;
  metadata-with_metadata = λ d k v. refl;
}

abbrev pub entry : String → ℕ → KnowledgeResult ℕ
entry id score = record { document_id = id; chunk = ""; score = score; source = "toy" }

abbrev pub toy_base : KnowledgeBase (String × Dict String String) ℕ
toy_base = record {
  State = List (KnowledgeResult ℕ);
  ingest = λ s d. (ok tt, s ++ entry d.0 (length s) ∷ []);
  query = λ s text n. ok (take n s);
}
