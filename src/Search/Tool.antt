-- ===== src/Search/Tool.antt =====
-- `KnowledgeSearchTool` (rust/smooth-operator/src/tools/knowledge_search.rs) over a handle of the
-- knowledge base. The result sink is returned with the tool's text. Rust's `{:?}` and the rounded
-- score come as a parameter.
use Prim.Native.String.{◌++◌ as str_append}
use smooth_agent.Base.{
  ℕ, suc, ◌*◌, String, Option, none, some, List, [], ◌∷◌, ◌++◌, string_eq, null, length, min, max,
  if◌then◌else◌,
}
use smooth_agent.Base.Words.{decimal}
use smooth_agent.Base.Outcome.{Outcome, ok, err, ◌>>=◌, Lock, store}
use smooth_agent.Json.{Json, str_field, u64_field}
use smooth_agent.Engine.{KnowledgeResult}
use smooth_agent.Access.Store.{usize_max}
use smooth_agent.Search.Rerank.{Lexicon, Reranker, apply_optional_rerank}

abbrev pub default_limit : ℕ
default_limit = 3

abbrev pub rerank_overfetch : ℕ
rerank_overfetch = 4

-- How a text is quoted and a score written.
pub record Display (Score : Type 0) : Type 0 where
  pub debug : String → String
  pub relevance : Score → String

-- `map_or(DEFAULT_LIMIT, |n| (n as usize).clamp(1, 10))`
abbrev pub clamped_limit : Option ℕ → ℕ
clamped_limit none = default_limit
clamped_limit (some n) = min (max n 1) 10

-- The tool; its handle is the query of the knowledge base that it was built over.
pub record KnowledgeSearchTool (lex : Lexicon) (Score : Type 0) : Type 0 where
  pub knowledge : String → ℕ → Outcome (List (KnowledgeResult Score))
  pub reranker : Option (Reranker lex Score)
  pub result_sink : Option (Lock (List (KnowledgeResult Score)))

-- `if let Ok(mut guard) = sink.lock() { guard.extend(results) }`
unfoldable pub extend_sink : {A : Type 0} → Lock (List A) → List A → Lock (List A)
extend_sink sink results = if sink.poisoned then sink else store sink (sink.content ++ results)

module _ {Score : Type 0} (display : Display Score) where
  -- The numbered lines, from the given number on.
  unfoldable pub listing : ℕ → List (KnowledgeResult Score) → String
  listing n [] = ""
  listing n (r ∷ rs) = str_append (decimal n) (
      str_append ". [source=" (
        str_append r.source (
          str_append " | id=" (
            str_append r.document_id (
              str_append " | relevance=" (
                str_append (display.relevance r.score) (
                  str_append "]\n"
                    (str_append r.chunk (str_append "\n" (listing (suc n) rs))))))))))

  unfoldable pub answer : String → List (KnowledgeResult Score) → String
  unfolding listing
  answer query results =
      if null results
      then str_append "No knowledge base results found for query: " (display.debug query)
      else str_append "Found " (
          str_append (decimal (length results)) (
            str_append " knowledge base result(s) for "
              (str_append (display.debug query) (str_append ":\n" (listing 1 results)))))

module _ {lex : Lexicon} {Score : Type 0} where
  abbrev pub new :
      (String → ℕ → Outcome (List (KnowledgeResult Score))) → KnowledgeSearchTool lex Score
  new knowledge = record { knowledge = knowledge; reranker = none; result_sink = none }

  abbrev pub with_result_sink :
      KnowledgeSearchTool lex Score
      → Lock (List (KnowledgeResult Score))
      → KnowledgeSearchTool lex Score
  with_result_sink tool sink = record tool { result_sink = some sink }

  abbrev pub with_reranker :
      KnowledgeSearchTool lex Score → Reranker lex Score → KnowledgeSearchTool lex Score
  with_reranker tool reranker = record tool { reranker = some reranker }

  -- `limit`, or four times as many for a reranker to choose from.
  abbrev pub fetch_count : Option (Reranker lex Score) → ℕ → ℕ
  fetch_count none limit = limit
  fetch_count (some r) limit = min (limit * rerank_overfetch) usize_max

  abbrev pub recorded :
      KnowledgeSearchTool lex Score → List (KnowledgeResult Score) → KnowledgeSearchTool lex Score
  recorded tool results = elim tool.result_sink [
    | none ↦ tool
    | some sink ↦ record tool { result_sink = some (extend_sink sink results) }
  ]

  -- What a search finds, before it is recorded and written out.
  unfoldable pub search_results :
      KnowledgeSearchTool lex Score → String → ℕ → Outcome (List (KnowledgeResult Score))
  search_results tool query limit = do
    candidates ← tool.knowledge query (fetch_count tool.reranker limit)
    ok (apply_optional_rerank lex tool.reranker query candidates limit)

module _ {lex : Lexicon} {Score : Type 0} (display : Display Score) where
  unfoldable pub execute_search :
      KnowledgeSearchTool lex Score → String → ℕ → Outcome String × KnowledgeSearchTool lex Score
  unfolding answer extend_sink search_results
  execute_search tool query limit = elim (search_results tool query limit) [
    | err m ↦ (err m, tool)
    | ok results ↦ (ok (answer display query results), recorded tool results)
  ]

  unfoldable pub execute :
      (json : Json)
      → KnowledgeSearchTool lex Score
      → json.Value
      → Outcome String × KnowledgeSearchTool lex Score
  unfolding execute_search
  execute json tool arguments = elim (str_field json arguments "query") [
    | none ↦ (err "knowledge_search requires a string 'query' argument", tool)
    | some query ↦ execute_search tool query (clamped_limit (u64_field json arguments "limit"))
  ]
