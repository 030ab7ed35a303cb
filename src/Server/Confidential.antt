-- ===== src/Server/Confidential.antt =====
-- Who may read what a turn cites.
use smooth_agent.Base.{
  ℕ, String, Bool, true, Option, none, some, List, [], ◌∷◌, ◌++◌, ◌≡◌, refl, sym, ap, ◌∙◌,
  string_eq, arith, All, All-take, All-append, All-imp, map, contains, Bool-cases, inl, inr,
}
use mathlib.Core.Path.{subst}
use smooth_agent.Base.Sets.{set_insert}
use smooth_agent.Base.Text.{is_empty}
use smooth_agent.Base.Outcome.{Outcome, ok, Outcome-cases, Lock}
use smooth_agent.Json.{Json}
use smooth_agent.Engine.{KnowledgeResult, Documents, KnowledgeBase}
use smooth_agent.Access.Acl.{AccessContext}
use smooth_agent.Access.Store.{AclKnowledgeStore, is_allowed, reader_query}
use smooth_agent.Access.Reader.{
  Readable, Readable→is_allowed, is_allowed→Readable, reader_query-Readable,
}
use smooth_agent.Storage.Tables.{Adapter}
use smooth_agent.Turn.Citations.{
  Citation, collect_citations, first_seen, from_knowledge_result, max_citations,
}
use smooth_agent.Turn.History.{load_prior_messages, or_empty}
use smooth_agent.Search.Rerank.{Lexicon, Reranker}
use smooth_agent.Search.Reordering.{KeepsContract}
use smooth_agent.Search.Tool.{Display, KnowledgeSearchTool, execute}
use smooth_agent.Search.Grounded.{AllAllowed, ReadsAs, IsClean, execute-IsClean}
use smooth_agent.Domain.{inbound, outbound}
use smooth_agent.Server.Agent.{AgentRun, emit, search, finish, Agent}
use smooth_agent.Server.Streaming.{
  Storage, TurnRequest, TurnResult, TurnChoices, Driven, auto_context_limit, query_or_none,
  sink_content, persist_message, drive,
}
use smooth_agent.Server.Turn.{conclude_turn, knowledge, search_tool, run_streaming_turn}

module _ {Score : Type 0} (table : String → Bool) where
  -- The test holds of the document of every result, or of every citation.
  abbrev AllPass : List (KnowledgeResult Score) → Type 0
  AllPass = All (λ r. table r.document_id ≡ true)

  first_seen-AllPass :
      (seen : List String) (rs : List (KnowledgeResult Score))
      → AllPass rs
      → AllPass (first_seen seen rs)
  unfolding first_seen
  first_seen-AllPass seen [] h = tt
  first_seen-AllPass seen (r ∷ rs) h = elim (Bool-cases (contains seen r.document_id)) [
    | inl e ↦ rw e (first_seen-AllPass (set_insert seen r.document_id) rs h.1)
    | inr e ↦ rw e (h.0, first_seen-AllPass (set_insert seen r.document_id) rs h.1)
  ]

  cited-AllPass :
      (rs : List (KnowledgeResult Score))
      → AllPass rs
      → All (λ (c : Citation Score). table c.id ≡ true) (map from_knowledge_result rs)
  unfolding from_knowledge_result
  cited-AllPass [] h = tt
  cited-AllPass (r ∷ rs) h = (h.0, cited-AllPass rs h.1)

  collect_citations-AllPass :
      (auto tool : List (KnowledgeResult Score))
      → AllPass auto
      → AllPass tool
      → All (λ (c : Citation Score). table c.id ≡ true) (collect_citations auto tool)
  unfolding collect_citations
  collect_citations-AllPass auto tool a t = cited-AllPass _ (
      All-take _ max_citations _
        (first_seen-AllPass [] (auto ++ tool) (All-append _ auto tool a t)))

module _ (lex : Lexicon) (docs : Documents) {Score : Type 0}
    (kb : KnowledgeBase docs.Document Score) (s : AclKnowledgeStore kb.State)
    (ctx : AccessContext) where
  clean_content :
      (knowledge : String → ℕ → Outcome (List (KnowledgeResult Score)))
      (r : Option (Reranker lex Score)) (sink : Option (Lock (List (KnowledgeResult Score))))
      → IsClean lex docs kb s ctx
          (record { knowledge = knowledge; reranker = r; result_sink = sink })
      → AllAllowed lex docs kb s ctx (sink_content sink)
  clean_content knowledge r none clean = tt
  clean_content knowledge r (some sink) clean = clean

  query_or_none-Allowed :
      (text : String) (limit : ℕ)
      → AllAllowed lex docs kb s ctx (query_or_none (reader_query docs kb s ctx text limit))
  query_or_none-Allowed text limit = elim (Outcome-cases (reader_query docs kb s ctx text limit)) [
    | inl (out, e) ↦ rw e (
        All-imp (λ r. Readable s.acls.content ctx r.document_id) _
          (λ r. Readable→is_allowed s.acls.content ctx r.document_id) out
          (reader_query-Readable docs kb s ctx text limit out e))
    | inr (m, e) ↦ rw e tt
  ]

  cited-Readable :
      (text : String) (limit : ℕ) (tool : KnowledgeSearchTool lex Score)
      → IsClean lex docs kb s ctx tool
      → All
          (λ (c : Citation Score). Readable s.acls.content ctx c.id)
          (collect_citations
            (query_or_none (reader_query docs kb s ctx text limit))
            (sink_content tool.result_sink))
  cited-Readable text limit tool clean =
      All-imp (λ (c : Citation Score). is_allowed s.acls.content ctx c.id ≡ true) _
        (λ c. is_allowed→Readable s.acls.content ctx c.id) _
        (collect_citations-AllPass (is_allowed s.acls.content ctx) _ (sink_content tool.result_sink)
          (query_or_none-Allowed text limit)
          (clean_content tool.knowledge tool.reranker tool.result_sink clean))

module _ {json : Json} {lex : Lexicon} {Score : Type 0} (display : Display Score) (docs : Documents)
    (kb : KnowledgeBase docs.Document Score) (s : AclKnowledgeStore kb.State)
    (ctx : AccessContext) where
  -- Whatever the agent does, its searches record only what the requester may read.
  pub drive-IsClean :
      (tool : KnowledgeSearchTool lex Score) (run : AgentRun json)
      → ReadsAs lex docs kb s ctx tool
      → KeepsContract lex tool.reranker
      → IsClean lex docs kb s ctx tool
      → IsClean lex docs kb s ctx ((drive display tool run).tool)
  unfolding drive
  drive-IsClean tool (emit event run) reads keeps clean = drive-IsClean tool run reads keeps clean
  drive-IsClean tool (search arguments run) reads keeps clean =
      let (clean', handle) =
        execute-IsClean lex docs kb s ctx display json tool arguments reads keeps clean in
      let after = (execute display json tool arguments).1 in
      drive-IsClean after (run ((execute display json tool arguments).0))
        (λ q n. ap (λ f. f q n) handle.0 ∙ reads q n)
        (subst (KeepsContract lex) (sym handle.1) keeps) clean'
  drive-IsClean tool (finish outcome) reads keeps clean = clean

module _ (json : Json) (now : ℕ) (lex : Lexicon) {Score : Type 0} (display : Display Score) where
  conclude_turn-citations :
      (req : TurnRequest lex Score) (ids : TurnChoices) (auto : List (KnowledgeResult Score))
      (tables : Adapter json.Value) (driven : Driven json lex Score) (result : TurnResult Score)
      → (conclude_turn json now lex display req ids auto tables driven).0 ≡ ok result
      → collect_citations auto (sink_content driven.tool.result_sink) ≡ result.citations
  unfolding conclude_turn
  conclude_turn-citations req ids auto tables driven result h =
      elim (Outcome-cases driven.outcome) [
        | inr (m, e) ↦ cc (rw (e, conclude_turn) at h)
        | inl (content, e) ↦ elim (Bool-cases (is_empty (or_empty content))) [
          | inl empty ↦ let got = rw (e, conclude_turn, empty) at h in ground arith
          | inr full ↦
              let got = rw (e, conclude_turn, full) at h in
              elim (Outcome-cases
                (persist_message json now tables ids.outbound_id req.conversation_id outbound
                  (or_empty content)).0) [
                    | inl (message, p) ↦ let made = rw p at got in ground arith
                    | inr (m, p) ↦ cc (rw p at got)
                  ]
        ]
      ]

  module _ (docs : Documents) (kb : KnowledgeBase docs.Document Score) where
    -- A turn cites only documents that the requester may read: whatever the agent and its model do,
    -- whatever a document says, each citation is of a document without a recorded allow-list or with
    -- one that entitles the requester. A host's own reranker is taken to return candidates.
    pub run_streaming_turn-Confidential :
        (agent : Agent json Score) (storage : Storage json kb.State) (req : TurnRequest lex Score)
        (ids : TurnChoices) (result : TurnResult Score)
        → KeepsContract lex req.reranker
        → (run_streaming_turn json now lex display docs kb agent storage req ids).result ≡ ok result
        → All
            (λ (c : Citation Score). Readable storage.knowledge.acls.content req.access c.id)
            result.citations
    unfolding run_streaming_turn
    run_streaming_turn-Confidential agent storage req ids result keeps h =
        elim (Outcome-cases (load_prior_messages storage.tables req.conversation_id)) [
          | inr (m, e) ↦ cc (rw (run_streaming_turn, e) at h)
          | inl (prior, e) ↦
              let persisted =
                persist_message json now storage.tables ids.inbound_id req.conversation_id inbound
                  req.user_message in
              let context =
                knowledge json now lex display docs kb storage req req.user_message
                  auto_context_limit in
              let driven =
                drive display (search_tool json now lex display docs kb storage req)
                  (agent prior context req.user_message) in
              elim (Outcome-cases persisted.0) [
                | inr (m, p) ↦ cc (rw (run_streaming_turn, e, p) at h)
                | inl (message, p) ↦
                    let cited =
                      conclude_turn-citations req ids (query_or_none context) persisted.1 driven
                        result (rw (run_streaming_turn, e, p) at h) in
                    subst
                      (All (λ (c : Citation Score).
                        Readable storage.knowledge.acls.content req.access c.id))
                      cited
                      (cited-Readable lex docs kb storage.knowledge req.access req.user_message
                        auto_context_limit driven.tool
                        (drive-IsClean display docs kb storage.knowledge req.access
                          (search_tool json now lex display docs kb storage req)
                          (agent prior context req.user_message) (λ q n. refl) keeps tt))
              ]
        ]
