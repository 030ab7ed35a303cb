-- ===== src/Server/Liveness.antt =====
-- A frame's handling gives an answer.
use Prim.Native.String.{◌++◌ as str_append}
use smooth_agent.Base.{
  String, false, Option, none, some, List, [], ◌∷◌, ◌++◌, ◌≡◌, inl, inr, refl, string_eq, ◌==◌,
  Bool-cases, Option-cases, All, ◌⊎◌,
}
use smooth_agent.Base.Outcome.{Outcome, ok, err, Outcome-cases}
use smooth_agent.Json.{Json, str_field}
use smooth_agent.Engine.{Documents}
use smooth_agent.Domain.{Session}
use smooth_agent.Access.Acl.{AccessContext}
use smooth_agent.Search.Rerank.{Lexicon}
use smooth_agent.Storage.Tables.{quoted}
use smooth_agent.Server.Config.{LlmConfig, llm_config}
use smooth_agent.Server.Policy.{Ambient, Verdict, proceed, denied, panicked, enforce_widget_auth}
use smooth_agent.Server.Protocol.{error}
use smooth_agent.Server.State.{AppState, get_session}
use smooth_agent.Server.Streaming.{TurnRequest, TurnResult, TurnChoices}
use smooth_agent.Server.Turn.{run_streaming_turn}
use smooth_agent.Server.Late.{run_streaming_turn-IsLate}
use smooth_agent.Server.Sessions.{
  SessionIds, Reply, CreateTask, or_default_str, create_task, begin_session, run_create_task,
  store_rows, handle_get_session,
}
use smooth_agent.Server.Dispatch.{
  Outside, FreshIds, nonblank, final_event, run_message, handle_create_session, handle_send_message,
  dispatch, handle_frame,
}
use smooth_agent.Server.Answers.{
  Answers, pong-Answers, error-Answers, IsStreamed, IsError, error-IsError,
  immediate_response-Answers, eventual_response-Answers,
}
use smooth_agent.Server.Totality.{enforce_widget_auth-total}

module _ (json : Json) (env : Ambient) (lex : Lexicon) (docs : Documents) {Score : Type 0}
    (out : Outside json lex docs Score) where
  -- One event answers the request, and only events of the request's stream come after it, none if it
  -- is not an error; or the one task that was spawned will send such an answer, in whatever state it
  -- runs.
  pub data Answered (rid : Option String) (reply : Reply json out.kb.State) : Type 0 where
    at_once :
        (before : List json.Value) (answer : json.Value) (late : List json.Value)
        → reply.events ≡ before ++ answer ∷ late
        → Answers json rid answer
        → All (IsStreamed json rid) late
        → (late ≡ []) ⊎ IsError json answer
        → Answered rid reply
    by_task :
        (task : CreateTask json)
        → reply.spawned ≡ task ∷ []
        → ((state : AppState json out.kb.State)
            → Answers json rid ((run_create_task json env.now state task).1))
        → Answered rid reply

  -- The handler returns, and the frame is answered.
  abbrev pub IsAnswered : Option String → Option (Reply json out.kb.State) → Type 0
  IsAnswered rid r = (reply : Reply json out.kb.State) × (r ≡ some reply) × Answered rid reply

  sent :
      (rid : Option String) (state : AppState json out.kb.State) (event : json.Value)
      → Answers json rid event
      → IsAnswered rid (some (record { state = state; events = event ∷ []; spawned = [] }))
  sent rid state event a = (
    record { state = state; events = event ∷ []; spawned = [] },
    refl,
    at_once [] event [] refl a tt (inl refl),
  )

  run_create_task-Answers :
      (state : AppState json out.kb.State) (task : CreateTask json)
      → Answers json task.request_id ((run_create_task json env.now state task).1)
  unfolding run_create_task
  run_create_task-Answers state task =
      elim (Outcome-cases (store_rows json env.now state.storage.tables task).0) [
        | inl (_, e) ↦
            rw (run_create_task, e)
              (immediate_response-Answers json env.now task.request_id 200 "Session created"
                task.answer)
        | inr (m, e) ↦
            rw (run_create_task, e) (error-Answers json env.now task.request_id "INTERNAL_ERROR" m)
      ]

  create-IsAnswered :
      (state : AppState json out.kb.State) (conn_id : String) (origin : Option String)
      (parsed : json.Value) (rid : Option String) (ids : SessionIds)
      → env.checks ≡ false
      → IsAnswered rid
          (handle_create_session json env lex docs out state conn_id origin parsed rid ids)
  unfolding handle_create_session begin_session
  create-IsAnswered state conn_id origin parsed rid ids unchecked =
      by_verdict
        (enforce_widget_auth json env state.widget_auth state.config origin agent_id parsed) refl
    where
      agent_id : String
      agent_id = or_default_str (str_field json parsed "agentId") ids.agent_id

      by_verdict :
          (v : Verdict)
          → enforce_widget_auth json env state.widget_auth state.config origin agent_id parsed ≡ v
          → IsAnswered rid
              (handle_create_session json env lex docs out state conn_id origin parsed rid ids)
      by_verdict proceed e =
          rw (handle_create_session, e)
            (
              begin_session json env.now state conn_id parsed rid agent_id ids,
              refl,
              by_task (create_task json env.now parsed rid agent_id ids) refl (λ s.
                  run_create_task-Answers s (create_task json env.now parsed rid agent_id ids)),
            )
      by_verdict (denied code message) e =
          rw (handle_create_session, e)
            (sent rid state _ (error-Answers json env.now rid code message))
      by_verdict panicked e = absurd (
          enforce_widget_auth-total json env state.widget_auth state.config origin agent_id parsed
            unchecked e)

  final_event-Answers :
      (rid : String) (r : Outcome (TurnResult Score))
      → Answers json (some rid) (final_event json env lex docs out rid r)
  final_event-Answers rid (ok turn) =
      eventual_response-Answers json env.now out.to_value rid 200 turn.message_id _ false
        turn.citations
  final_event-Answers rid (err e) =
      error-Answers json env.now (some rid) "AGENT_ERROR" (str_append "agent turn failed: " e)

  final_event-late :
      (rid : String) (r : Outcome (TurnResult Score)) (late : List json.Value)
      → (late ≡ []) ⊎ ((m : String) × (r ≡ err m))
      → (late ≡ []) ⊎ IsError json (final_event json env lex docs out rid r)
  final_event-late rid r late (inl none_late) = inl none_late
  final_event-late rid r late (inr (m, failed)) =
      rw failed (inr (error-IsError json env.now (some rid) "AGENT_ERROR" _))

  run_message-IsAnswered :
      (state : AppState json out.kb.State) (access : AccessContext) (rid message : String)
      (session : Session json.Value) (llm : LlmConfig) (ids : TurnChoices)
      → IsAnswered
          (some rid)
          (run_message json env lex docs out state access rid message session llm ids)
  unfolding run_message
  run_message-IsAnswered state access rid message session llm ids =
      let req : TurnRequest lex Score = record {
        conversation_id = session.conversation_id;
        request_id = rid;
        user_message = message;
        access = access;
        reranker = out.reranker;
      } in
      let agent = out.agent llm state.config.max_iterations in
      let turn =
        run_streaming_turn json env.now lex out.display docs out.kb agent state.storage req ids in
      let (streamed, only_error) =
        run_streaming_turn-IsLate json env.now lex out.display docs out.kb agent state.storage req
          ids in
      (
        _,
        refl,
        at_once (_ ∷ turn.events) _ turn.late refl (final_event-Answers rid turn.result) streamed
            (final_event-late rid turn.result turn.late only_error),
      )

  send-IsAnswered :
      (state : AppState json out.kb.State) (access : AccessContext) (parsed : json.Value)
      (rid : Option String) (ids : TurnChoices)
      → IsAnswered rid (handle_send_message json env lex docs out state access parsed rid ids)
  unfolding handle_send_message
  send-IsAnswered state access parsed none ids =
      sent none state _ (error-Answers json env.now none _ _)
  send-IsAnswered state access parsed (some rid) ids =
      elim (Option-cases (str_field json parsed "sessionId")) [
        | inl e ↦ rw (handle_send_message, e) (refused "VALIDATION_ERROR" "missing 'sessionId'")
        | inr (session_id, e) ↦ elim (Option-cases (nonblank (str_field json parsed "message"))) [
          | inl m ↦
              rw (handle_send_message, e, m)
                (refused "VALIDATION_ERROR" "missing or empty 'message'")
          | inr (message, m) ↦ elim (Option-cases (get_session state session_id)) [
            | inl s ↦
                rw (handle_send_message, e, m, s)
                  (refused "SESSION_NOT_FOUND" (quoted "session" session_id))
            | inr (session, s) ↦ elim (Option-cases (llm_config state.config)) [
              | inl l ↦ rw (handle_send_message, e, m, s, l) (refused "LLM_UNAVAILABLE" _)
              | inr (llm, l) ↦
                  rw (handle_send_message, e, m, s, l)
                    (run_message-IsAnswered state access rid message session llm ids)
            ]
          ]
        ]
      ]
    where
      refused :
          (code message : String)
          → IsAnswered (some rid) (
              some (record {
                state = state;
                events = error json env.now (some rid) code message ∷ [];
                spawned = [];
              }))
      refused code message =
          sent (some rid) state _ (error-Answers json env.now (some rid) code message)

  get-Answers :
      (state : AppState json out.kb.State) (parsed : json.Value) (rid : Option String)
      → Answers json rid (handle_get_session json env.now state parsed rid)
  unfolding handle_get_session
  get-Answers state parsed rid = elim (Option-cases (str_field json parsed "sessionId")) [
    | inl e ↦ rw (handle_get_session, e) (error-Answers json env.now rid _ _)
    | inr (id, e) ↦ elim (Option-cases (get_session state id)) [
      | inl g ↦ rw (handle_get_session, e, g) (error-Answers json env.now rid _ _)
      | inr (s, g) ↦
          rw (handle_get_session, e, g)
            (immediate_response-Answers json env.now rid 200 "Session" _)
    ]
  ]

  -- The id that a frame's answer carries: the one in the frame, if it is JSON and has one.
  abbrev pub frame_id : String → Option String
  frame_id raw = elim (json.from_str raw) [
    | err e ↦ none
    | ok parsed ↦ str_field json parsed "requestId"
  ]

  dispatch-IsAnswered :
      (state : AppState json out.kb.State) (access : AccessContext) (conn_id : String)
      (origin : Option String) (parsed : json.Value) (rid action : Option String) (ids : FreshIds)
      → env.checks ≡ false
      → IsAnswered rid
          (dispatch json env lex docs out state access conn_id origin parsed rid action ids)
  unfolding dispatch
  dispatch-IsAnswered state access conn_id origin parsed rid none ids unchecked =
      sent rid state _ (error-Answers json env.now rid _ _)
  dispatch-IsAnswered state access conn_id origin parsed rid (some action) ids unchecked =
      elim (Bool-cases (action == "ping")) [
        | inl p ↦ rw p (sent rid state _ (pong-Answers json env.now rid))
        | inr p ↦ elim (Bool-cases (action == "create_conversation_session")) [
          | inl c ↦
              rw (p, c)
                (create-IsAnswered state conn_id origin parsed rid ids.for_session unchecked)
          | inr c ↦ elim (Bool-cases (action == "get_session")) [
            | inl g ↦ rw (p, c, g) (sent rid state _ (get-Answers state parsed rid))
            | inr g ↦ elim (Bool-cases (action == "send_message")) [
              | inl m ↦ rw (p, c, g, m) (send-IsAnswered state access parsed rid ids.turn)
              | inr m ↦ rw (p, c, g, m) (sent rid state _ (error-Answers json env.now rid _ _))
            ]
          ]
        ]
      ]

  -- Every frame is answered, in a build without overflow checks and if the engine's run of the agent
  -- ends: the handler returns for any text that a connection sends, and it sends a pong, an error or a
  -- response with the frame's request id, or spawns one task whose one event is such an answer. After
  -- the answer comes nothing, but for an error, after which the rest of the request's stream may come.
  pub handle_frame-IsAnswered :
      (state : AppState json out.kb.State) (access : AccessContext) (conn_id : String)
      (origin : Option String) (raw : String) (ids : FreshIds)
      → env.checks ≡ false
      → IsAnswered
          (frame_id raw)
          (handle_frame json env lex docs out state access conn_id origin raw ids)
  unfolding handle_frame
  handle_frame-IsAnswered state access conn_id origin raw ids unchecked =
      elim (Outcome-cases (json.from_str raw)) [
        | inr (e, p) ↦
            rw (handle_frame, frame_id, p)
              (sent none state _ (error-Answers json env.now none "VALIDATION_ERROR" _))
        | inl (parsed, p) ↦
            rw (handle_frame, frame_id, p)
              (dispatch-IsAnswered state access conn_id origin parsed
                (str_field json parsed "requestId") (str_field json parsed "action") ids unchecked)
      ]
