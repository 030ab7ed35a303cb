-- ===== src/Server/Turn.antt =====
-- `run_streaming_turn` of rust/smooth-operator-server/src/runner.rs. The agent is a parameter, and
-- nothing else changes the storage during the turn.
use smooth_agent.Base.{ℕ, String, some, List, [], string_eq, any, if◌then◌else◌}
use smooth_agent.Base.Text.{is_empty}
use smooth_agent.Base.Outcome.{Outcome, ok, err, new_lock}
use smooth_agent.Json.{Json}
use smooth_agent.Engine.{KnowledgeResult, Documents, KnowledgeBase}
use smooth_agent.Domain.{inbound, outbound}
use smooth_agent.Access.Store.{reader_query}
use smooth_agent.Storage.Tables.{Adapter}
use smooth_agent.Turn.Citations.{collect_citations}
use smooth_agent.Turn.History.{load_prior_messages, or_empty}
use smooth_agent.Search.Rerank.{Lexicon}
use smooth_agent.Search.Tool.{Display, KnowledgeSearchTool}
use smooth_agent.Server.Agent.{Agent}
use smooth_agent.Server.Streaming.{
  Storage, TurnRequest, TurnResult, TurnChoices, Driven, auto_context_limit, query_or_none,
  sink_content, persist_message, translate_all, before_return, after_return, is_knowledge_search,
  drive,
}

-- What a turn leaves: its result, the tables, the events that were sent before it returned, and the
-- ones that its translator sends after that.
pub record TurnOutput (json : Json) (Score : Type 0) : Type 0 where
  pub result : Outcome (TurnResult Score)
  pub tables : Adapter json.Value
  pub events : List json.Value
  pub late : List json.Value

module _ (json : Json) (now : ℕ) (lex : Lexicon) {Score : Type 0} (display : Display Score) where
  -- The result from the reply, its message's id and the sources.
  abbrev pub turn_result :
      List (KnowledgeResult Score) → Driven json lex Score → String → String → TurnResult Score
  turn_result auto driven reply message_id = record {
    reply = reply;
    message_id = message_id;
    invoked_knowledge_search = any is_knowledge_search driven.events;
    citations = collect_citations auto (sink_content driven.tool.result_sink);
  }

  -- The outbound reply is persisted, unless it is empty.
  unfoldable pub conclude_turn :
      TurnRequest lex Score
      → TurnChoices
      → List (KnowledgeResult Score)
      → Adapter json.Value
      → Driven json lex Score
      → Outcome (TurnResult Score) × Adapter json.Value
  unfolding persist_message
  conclude_turn req ids auto tables driven = elim driven.outcome [
    | err m ↦ (err m, tables)
    | ok content ↦
        let reply = or_empty content in
        if is_empty reply
        then (ok (turn_result auto driven reply ids.outbound_id), tables)
        else let (stored, after) =
            persist_message json now tables ids.outbound_id req.conversation_id outbound reply in
          elim stored [
            | err m ↦ (err m, after)
            | ok message ↦ (ok (turn_result auto driven reply message.id), after)
          ]
  ]

  module _ (docs : Documents) (kb : KnowledgeBase docs.Document Score) where
    -- The query of `storage.knowledge_for_access(&access)`.
    abbrev pub knowledge :
        Storage json kb.State
        → TurnRequest lex Score
        → String
        → ℕ
        → Outcome (List (KnowledgeResult Score))
    knowledge storage req query limit =
        reader_query docs kb storage.knowledge req.access query limit

    abbrev pub search_tool :
        Storage json kb.State → TurnRequest lex Score → KnowledgeSearchTool lex Score
    search_tool storage req = record {
      knowledge = knowledge storage req;
      reranker = req.reranker;
      result_sink = some (new_lock []);
    }

    unfoldable pub run_streaming_turn :
        Agent json Score
        → Storage json kb.State
        → TurnRequest lex Score
        → TurnChoices
        → TurnOutput json Score
    unfolding conclude_turn drive translate_all
    run_streaming_turn agent storage req ids =
        let context = knowledge storage req req.user_message auto_context_limit in
        elim (load_prior_messages storage.tables req.conversation_id) [
          | err m ↦ record { result = err m; tables = storage.tables; events = []; late = [] }
          | ok prior ↦
              let (stored, tables) =
                persist_message json now storage.tables ids.inbound_id req.conversation_id inbound
                  req.user_message in
              elim stored [
                | err m ↦ record { result = err m; tables = tables; events = []; late = [] }
                | ok message ↦
                    let driven =
                      drive display (search_tool storage req)
                        (agent prior context req.user_message) in
                    let (result, after) =
                      conclude_turn req ids (query_or_none context) tables driven in
                    record {
                      result = result;
                      tables = after;
                      events =
                          translate_all json now req.request_id
                            (before_return ids.sent_before_failure driven.outcome driven.events);
                      late =
                          translate_all json now req.request_id
                            (after_return ids.sent_before_failure driven.outcome driven.events);
                    }
              ]
        ]
