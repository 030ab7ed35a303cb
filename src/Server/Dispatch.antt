-- ===== src/Server/Dispatch.antt =====
-- The dispatch of a connection's frames and the turn behind `send_message`
-- (rust/smooth-operator-server/src/handler.rs). The JSON library, the agent, the engine's knowledge
-- base, the ids and the moment are parameters. A result of `none` is a panic.
use Prim.Native.String.{◌++◌ as str_append}
use smooth_agent.Base.{
  ℕ, String, false, Option, none, some, List, [], ◌∷◌, ◌++◌, string_eq, ◌==◌, if◌then◌else◌,
}
use smooth_agent.Base.Text.{trim, is_empty}
use smooth_agent.Base.Outcome.{Outcome, ok, err}
use smooth_agent.Json.{Json, str_field}
use smooth_agent.Engine.{Documents, KnowledgeBase}
use smooth_agent.Domain.{Session}
use smooth_agent.Access.Acl.{AccessContext}
use smooth_agent.Storage.Tables.{quoted}
use smooth_agent.Turn.Citations.{Citation}
use smooth_agent.Search.Rerank.{Lexicon, Reranker}
use smooth_agent.Search.Tool.{Display}
use smooth_agent.Server.Protocol.{
  pong, error, immediate_response, eventual_response, general_agent_response,
}
use smooth_agent.Server.Agent.{Agent}
use smooth_agent.Server.Config.{LlmConfig, llm_config}
use smooth_agent.Server.Streaming.{TurnResult, TurnChoices}
use smooth_agent.Server.Turn.{run_streaming_turn}
use smooth_agent.Server.State.{AppState, get_session}
use smooth_agent.Server.Policy.{Ambient, proceed, denied, panicked, enforce_widget_auth}
use smooth_agent.Server.Sessions.{
  SessionIds, Reply, or_default_str, begin_session, with_tables, handle_get_session,
}

-- What the handlers take from outside of the repository.
pub record Outside (json : Json) (lex : Lexicon) (docs : Documents) (Score : Type 0) : Type 1 where
  pub display : Display Score
  pub kb : KnowledgeBase docs.Document Score
  -- The agent with the model behind a configuration.
  pub agent : LlmConfig → ℕ → Agent json Score
  -- `build_reranker`, on the environment.
  pub reranker : Option (Reranker lex Score)
  pub to_value : List (Citation Score) → json.Value

-- The ids that are new in the handling of one frame.
pub record FreshIds : Type 0 where
  pub turn : TurnChoices
  pub for_session : SessionIds

-- `Some(m) if !m.trim().is_empty()`
abbrev pub nonblank : Option String → Option String
nonblank none = none
nonblank (some m) = if is_empty (trim m) then none else some m

module _ (json : Json) (env : Ambient) (lex : Lexicon) (docs : Documents) {Score : Type 0}
    (out : Outside json lex docs Score) where
  open json use {Value, object}

  abbrev pub App : Type 0
  App = AppState json out.kb.State

  abbrev pub answer_with : App → Value → Option (Reply json out.kb.State)
  answer_with state event = some (record { state = state; events = event ∷ []; spawned = [] })

  abbrev pub refuse : App → String → String → String → Option (Reply json out.kb.State)
  refuse state request_id code message =
      answer_with state (error json env.now (some request_id) code message)

  unfoldable pub handle_create_session :
      App
      → String
      → Option String
      → Value
      → Option String
      → SessionIds
      → Option (Reply json out.kb.State)
  handle_create_session state conn_id origin parsed request_id ids =
      let agent_id = or_default_str (str_field json parsed "agentId") ids.agent_id in
      elim (enforce_widget_auth json env state.widget_auth state.config origin agent_id parsed) [
        | proceed ↦ some (begin_session json env.now state conn_id parsed request_id agent_id ids)
        | denied code message ↦ answer_with state (error json env.now request_id code message)
        | panicked ↦ none
      ]

  -- The event that answers a turn. If its agent fails, events of the stream may come after it.
  abbrev pub final_event : String → Outcome (TurnResult Score) → Value
  final_event request_id (ok turn) =
      eventual_response json env.now out.to_value request_id 200 turn.message_id
        (general_agent_response json env.now turn.reply) false turn.citations
  final_event request_id (err e) =
      error json env.now (some request_id) "AGENT_ERROR" (str_append "agent turn failed: " e)

  -- `send_message` once its guards have passed. The output of the translator that comes late is sent
  -- after the handler's own last event: the handler does not wait in between.
  unfoldable pub run_message :
      App
      → AccessContext
      → String
      → String
      → Session Value
      → LlmConfig
      → TurnChoices
      → Option (Reply json out.kb.State)
  run_message state access request_id message session llm ids =
      let turn =
        run_streaming_turn json env.now lex out.display docs out.kb
          (out.agent llm state.config.max_iterations) state.storage
          (record {
            conversation_id = session.conversation_id;
            request_id = request_id;
            user_message = message;
            access = access;
            reranker = out.reranker;
          })
          ids in
      some (record {
        state = with_tables json env.now state turn.tables;
        events =
            immediate_response json env.now (some request_id) 202 "Processing your request..."
              (object [])
            ∷ (turn.events ++ final_event request_id turn.result ∷ turn.late);
        spawned = [];
      })

  unfoldable pub handle_send_message :
      App → AccessContext → Value → Option String → TurnChoices → Option (Reply json out.kb.State)
  unfolding run_message
  handle_send_message state access parsed none ids =
      answer_with state
        (error json env.now none "VALIDATION_ERROR" "send_message requires a 'requestId'")
  handle_send_message state access parsed (some request_id) ids =
      elim (str_field json parsed "sessionId") [
        | none ↦ refuse state request_id "VALIDATION_ERROR" "missing 'sessionId'"
        | some session_id ↦ elim (nonblank (str_field json parsed "message")) [
          | none ↦ refuse state request_id "VALIDATION_ERROR" "missing or empty 'message'"
          | some message ↦ elim (get_session state session_id) [
            | none ↦ refuse state request_id "SESSION_NOT_FOUND" (quoted "session" session_id)
            | some session ↦ elim (llm_config state.config) [
              | none ↦
                  refuse state request_id "LLM_UNAVAILABLE"
                    "SMOOAI_GATEWAY_KEY is not configured; this server cannot serve LLM turns. Set the gateway key to enable send_message."
              | some llm ↦ run_message state access request_id message session llm ids
            ]
          ]
        ]
      ]

  -- The `match` on the action.
  unfoldable pub dispatch :
      App
      → AccessContext
      → String
      → Option String
      → Value
      → Option String
      → Option String
      → FreshIds
      → Option (Reply json out.kb.State)
  unfolding handle_create_session handle_send_message
  dispatch state access conn_id origin parsed request_id none ids =
      answer_with state (error json env.now request_id "VALIDATION_ERROR" "missing 'action' field")
  dispatch state access conn_id origin parsed request_id (some action) ids =
      if action == "ping"
      then answer_with state (pong json env.now request_id)
      else if action == "create_conversation_session"
      then handle_create_session state conn_id origin parsed request_id ids.for_session
      else if action == "get_session"
      then answer_with state (handle_get_session json env.now state parsed request_id)
      else if action == "send_message"
      then handle_send_message state access parsed request_id ids.turn
      else answer_with state (
          error json env.now request_id "UNSUPPORTED_ACTION"
            (str_append "action '" (str_append action "' is not supported by this server")))

  unfoldable pub handle_frame :
      App
      → AccessContext
      → String
      → Option String
      → String
      → FreshIds
      → Option (Reply json out.kb.State)
  unfolding dispatch
  handle_frame state access conn_id origin raw ids = elim (json.from_str raw) [
    | err e ↦
        answer_with state
          (error json env.now none "VALIDATION_ERROR" (str_append "invalid JSON frame: " e))
    | ok parsed ↦
        dispatch state access conn_id origin parsed (str_field json parsed "requestId")
          (str_field json parsed "action") ids
  ]
