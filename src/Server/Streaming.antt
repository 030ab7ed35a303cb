-- ===== src/Server/Streaming.antt =====
-- A turn of rust/smooth-operator-server/src/runner.rs: from the user's message to the reply, with the
-- events that it streams. The translator's task receives every event that the agent sends; its
-- output is given in the order in which it is sent.
use smooth_agent.Base.{
  ℕ, String, Bool, false, Option, none, some, List, [], ◌∷◌, ◌++◌, take, drop, string_eq, ◌==◌,
  if◌then◌else◌,
}
use smooth_agent.Base.Text.{is_empty}
use smooth_agent.Base.Outcome.{Outcome, ok, err, Lock}
use smooth_agent.Json.{Json}
use smooth_agent.Domain.{Direction, Message, from_text}
use smooth_agent.Access.Acl.{AccessContext}
use smooth_agent.Access.Store.{AclKnowledgeStore}
use smooth_agent.Storage.Tables.{Adapter, append_message}
use smooth_agent.Turn.Citations.{Citation}
use smooth_agent.Search.Rerank.{Lexicon, Reranker}
use smooth_agent.Search.Tool.{Display, KnowledgeSearchTool, execute}
use smooth_agent.Server.Protocol.{stream_token, stream_chunk}
use smooth_agent.Server.Agent.{
  AgentEvent, token_delta, tool_call_start, tool_call_complete, phase_start, structural, AgentRun,
  emit, search, finish,
}

abbrev pub auto_context_limit : ℕ
auto_context_limit = 3

-- The storage that a turn uses: the tables, and the knowledge behind its access control.
pub record Storage (json : Json) (State : Type 0) : Type 0 where
  pub tables : Adapter json.Value
  pub knowledge : AclKnowledgeStore State

-- `TurnRequest`, less the storage and what only the engine reads.
pub record TurnRequest (lex : Lexicon) (Score : Type 0) : Type 0 where
  pub conversation_id : String
  pub request_id : String
  pub user_message : String
  pub access : AccessContext
  pub reranker : Option (Reranker lex Score)

pub record TurnResult (Score : Type 0) : Type 0 where
  pub reply : String
  pub message_id : String
  pub invoked_knowledge_search : Bool
  pub citations : List (Citation Score)

-- What the runtime chooses during a turn: the ids that `Uuid::new_v4` gives, and, should the agent
-- fail, of how many of its events the translator has sent the output when the turn returns.
pub record TurnChoices : Type 0 where
  pub inbound_id : String
  pub outbound_id : String
  pub sent_before_failure : ℕ

abbrev pub query_or_none : {A : Type 0} → Outcome (List A) → List A
query_or_none (ok sources) = sources
query_or_none (err m) = []

-- The content of the result sink, which is read even if the lock is poisoned.
abbrev pub sink_content : {A : Type 0} → Option (Lock (List A)) → List A
sink_content none = []
sink_content (some sink) = sink.content

module _ (json : Json) (now : ℕ) where
  open json use {Value, string, boolean, object}

  -- The message that `persist_message` appends.
  abbrev pub persisted : String → String → Direction → String → Message Value
  persisted id conversation_id direction text = record {
    id = id;
    external_id = none;
    organization_id = none;
    conversation_id = some conversation_id;
    direction = direction;
    content = from_text text;
    from = none;
    to = none;
    metadata_json = none;
    analytics_json = none;
    created_at = now;
    updated_at = none;
  }

  unfoldable pub persist_message :
      Adapter Value → String → String → Direction → String → Outcome (Message Value) × Adapter Value
  persist_message s id conversation_id direction text =
      append_message s (persisted id conversation_id direction text)

  -- The event that the translator sends for an event of the agent.
  unfoldable pub translate : String → AgentEvent json → List Value
  translate request_id (token_delta content) =
      if is_empty content then [] else stream_token json now request_id content ∷ []
  translate request_id (tool_call_start tool_name arguments) =
      stream_chunk json now request_id tool_name (
        object (
          (
            "rawResponse",
            object (
                ("toolCall", object (("name", string tool_name) ∷ ("arguments", arguments) ∷ []))
                ∷ []),
          )
          ∷ []))
      ∷ []
  translate request_id (tool_call_complete tool_name result is_error) =
      stream_chunk json now request_id tool_name (
        object (
          (
            "rawResponse",
            object (
                (
                  "toolResult",
                  object (
                      ("name", string tool_name)
                      ∷ ("isError", boolean is_error)
                      ∷ ("result", string result)
                      ∷ []),
                )
                ∷ []),
          )
          ∷ []))
      ∷ []
  translate request_id (phase_start phase) = stream_chunk json now request_id phase (object []) ∷ []
  translate request_id structural = []

  unfoldable pub translate_all : String → List (AgentEvent json) → List Value
  unfolding translate
  translate_all request_id [] = []
  translate_all request_id (e ∷ es) = translate request_id e ++ translate_all request_id es

abbrev pub is_knowledge_search : {json : Json} → AgentEvent json → Bool
is_knowledge_search (token_delta content) = false
is_knowledge_search (tool_call_start tool_name arguments) = tool_name == "knowledge_search"
is_knowledge_search (tool_call_complete tool_name result is_error) = false
is_knowledge_search (phase_start phase) = false
is_knowledge_search structural = false

-- What a run of the agent leaves: its events, its outcome and the tool with its sink.
pub record Driven (json : Json) (lex : Lexicon) (Score : Type 0) : Type 0 where
  pub events : List (AgentEvent json)
  pub outcome : Outcome (Option String)
  pub tool : KnowledgeSearchTool lex Score

-- The agent's events whose output is sent before the turn returns, and after it. The translator is
-- awaited when the agent has succeeded; when it fails, the turn returns at once.
abbrev pub before_return : {A : Type 0} → ℕ → Outcome (Option String) → List A → List A
before_return n (ok content) events = events
before_return n (err m) events = take n events

abbrev pub after_return : {A : Type 0} → ℕ → Outcome (Option String) → List A → List A
after_return n (ok content) events = []
after_return n (err m) events = drop n events

module _ {json : Json} {lex : Lexicon} {Score : Type 0} (display : Display Score) where
  -- `agent.run_with_channel`, with the agent's calls of the tool.
  unfoldable pub drive : KnowledgeSearchTool lex Score → AgentRun json → Driven json lex Score
  drive tool (emit event run) =
      let rest = drive tool run in record rest { events = event ∷ rest.events }
  drive tool (search arguments run) =
      let (result, after) = execute display json tool arguments in drive after (run result)
  drive tool (finish outcome) = record { events = []; outcome = outcome; tool = tool }
