-- ===== src/Server/Sessions.antt =====
-- Creating and reading sessions (`handle_create_session` and `handle_get_session` of
-- rust/smooth-operator-server/src/handler.rs). The task that creation spawns is a value, which
-- is run later; the ids that `Uuid::new_v4` gives come as an argument.
use Prim.Native.String.{◌++◌ as str_append}
use smooth_agent.Base.{ℕ, String, Option, none, some, List, [], ◌∷◌, string_eq}
use smooth_agent.Base.Outcome.{Outcome, ok, err}
use smooth_agent.Json.{Json, str_field}
use smooth_agent.Domain.{
  Conversation, Participant, Session, SessionStatus, active, idle, ended, web, user, ai_agent,
}
use smooth_agent.Backplane.Registry.{session, agent, associate}
use smooth_agent.Storage.Tables.{
  Adapter, create_conversation, add_participant, create_session, quoted,
}
use smooth_agent.Server.Protocol.{error, immediate_response}
use smooth_agent.Server.State.{AppState, insert_session, get_session}

abbrev pub server_agent_name : String
server_agent_name = "smooth-agent"

-- `SEED_ORG_ID` of rust/smooth-operator-server/src/server.rs
abbrev pub seed_org_id : String
seed_org_id = "reference-org"

pub record SessionIds : Type 0 where
  pub agent_id : String
  pub conversation_id : String
  pub session_id : String
  pub user_participant_id : String
  pub agent_participant_id : String

abbrev pub or_default_str : Option String → String → String
or_default_str none default = default
or_default_str (some s) default = s

abbrev pub status_text : Option SessionStatus → String
status_text none = "active"
status_text (some active) = "active"
status_text (some idle) = "idle"
status_text (some ended) = "ended"

-- What the spawned task holds.
pub record CreateTask (json : Json) : Type 0 where
  pub request_id : Option String
  pub conversation : Conversation json.Value
  pub user_participant : Participant json.Value
  pub agent_participant : Participant json.Value
  pub created : Session json.Value
  pub answer : json.Value

-- What a handler leaves: the state, the events that it sent, and the tasks that it spawned.
pub record Reply (json : Json) (State : Type 0) : Type 0 where
  pub state : AppState json State
  pub events : List json.Value
  pub spawned : List (CreateTask json)

module _ (json : Json) (now : ℕ) where
  open json use {Value, string, object}

  -- The answer's payload.
  abbrev pub descriptor : String → SessionIds → Value
  descriptor agent_id ids = object (
      ("sessionId", string ids.session_id)
      ∷ ("conversationId", string ids.conversation_id)
      ∷ ("agentId", string agent_id)
      ∷ ("agentName", string server_agent_name)
      ∷ ("userParticipantId", string ids.user_participant_id)
      ∷ ("agentParticipantId", string ids.agent_participant_id)
      ∷ [])

  abbrev pub new_conversation : Value → SessionIds → Conversation Value
  new_conversation parsed ids = record {
    id = ids.conversation_id;
    platform = web;
    name = str_append "Session " ids.session_id;
    organization_id = seed_org_id;
    idempotency_key = ids.session_id;
    metadata_json = json.field parsed "metadata";
    analytics_json = none;
    created_at = now;
    updated_at = now;
  }

  abbrev pub new_user : Value → SessionIds → Participant Value
  new_user parsed ids = record {
    id = ids.user_participant_id;
    conversation_id = ids.conversation_id;
    organization_id = seed_org_id;
    participant_type = user;
    external_id = none;
    internal_id = none;
    browser_fingerprint = str_field json parsed "browserFingerprint";
    browser_info = none;
    name = or_default_str (str_field json parsed "userName") "Visitor";
    email = str_field json parsed "userEmail";
    phone = none;
    crm_contact_id = none;
    metadata_json = none;
    created_at = now;
    updated_at = now;
  }

  abbrev pub new_agent : String → SessionIds → Participant Value
  new_agent agent_id ids = record {
    id = ids.agent_participant_id;
    conversation_id = ids.conversation_id;
    organization_id = seed_org_id;
    participant_type = ai_agent;
    external_id = none;
    internal_id = some agent_id;
    browser_fingerprint = none;
    browser_info = none;
    name = server_agent_name;
    email = none;
    phone = none;
    crm_contact_id = none;
    metadata_json = none;
    created_at = now;
    updated_at = now;
  }

  abbrev pub new_session : String → SessionIds → Session Value
  new_session agent_id ids = record {
    session_id = ids.session_id;
    conversation_id = ids.conversation_id;
    agent_id = agent_id;
    agent_name = server_agent_name;
    user_participant_id = ids.user_participant_id;
    agent_participant_id = ids.agent_participant_id;
    thread_id = ids.conversation_id;
    status = some active;
    token_count = some 0;
    message_count = some 0;
    metadata = none;
    created_at = some now;
    updated_at = some now;
    ended_at = none;
    last_activity_at = some now;
  }

  abbrev pub create_task : Value → Option String → String → SessionIds → CreateTask json
  create_task parsed request_id agent_id ids = record {
    request_id = request_id;
    conversation = new_conversation parsed ids;
    user_participant = new_user parsed ids;
    agent_participant = new_agent agent_id ids;
    created = new_session agent_id ids;
    answer = descriptor agent_id ids;
  }

  -- The four writes of the task, up to the first that fails.
  unfoldable pub store_rows : Adapter Value → CreateTask json → Outcome (Unit {0}) × Adapter Value
  store_rows s0 task =
      let (conversation, s1) = create_conversation s0 task.conversation in
      let (user_row, s2) = add_participant s1 task.user_participant in
      let (agent_row, s3) = add_participant s2 task.agent_participant in
      let (session_row, s4) = create_session s3 task.created in
      elim conversation [
        | err e ↦ (err (str_append "create conversation failed: " e), s1)
        | ok _ ↦ elim user_row [
          | err e ↦ (err (str_append "add user participant failed: " e), s2)
          | ok _ ↦ elim agent_row [
            | err e ↦ (err (str_append "add agent participant failed: " e), s3)
            | ok _ ↦ elim session_row [
              | err e ↦ (err (str_append "create session failed: " e), s4)
              | ok _ ↦ (ok tt, s4)
            ]
          ]
        ]
      ]

  abbrev pub snapshot : Session Value → Value
  snapshot s = object (
      ("sessionId", string s.session_id)
      ∷ ("conversationId", string s.conversation_id)
      ∷ ("agentId", string s.agent_id)
      ∷ ("agentName", string s.agent_name)
      ∷ ("userParticipantId", string s.user_participant_id)
      ∷ ("agentParticipantId", string s.agent_participant_id)
      ∷ ("threadId", string s.thread_id)
      ∷ ("status", string (status_text s.status))
      ∷ [])

  module _ {State : Type 0} where
    -- The session's connection is to receive what is published for the session and for the agent.
    unfoldable pub begin_session :
        AppState json State
        → String
        → Value
        → Option String
        → String
        → SessionIds
        → Reply json State
    begin_session state conn_id parsed request_id agent_id ids = record {
      state = record state {
        backplane =
            associate (associate state.backplane conn_id (session ids.session_id)) conn_id
              (agent agent_id);
      };
      events = [];
      spawned = create_task parsed request_id agent_id ids ∷ [];
    }

    abbrev pub with_tables : AppState json State → Adapter Value → AppState json State
    with_tables state tables = record state { storage = record state.storage { tables = tables } }

    -- The spawned task: the state and the one event that it sends.
    unfoldable pub run_create_task :
        AppState json State → CreateTask json → AppState json State × Value
    unfolding store_rows
    run_create_task state task =
        let (stored, tables) = store_rows state.storage.tables task in
        let after = with_tables state tables in
        elim stored [
          | err e ↦ (after, error json now task.request_id "INTERNAL_ERROR" e)
          | ok _ ↦ (
            insert_session after task.created,
            immediate_response json now task.request_id 200 "Session created" task.answer,
          )
        ]

    unfoldable pub handle_get_session : AppState json State → Value → Option String → Value
    handle_get_session state parsed request_id = elim (str_field json parsed "sessionId") [
      | none ↦ error json now request_id "VALIDATION_ERROR" "missing 'sessionId'"
      | some session_id ↦ elim (get_session state session_id) [
        | some s ↦ immediate_response json now request_id 200 "Session" (snapshot s)
        | none ↦ error json now request_id "SESSION_NOT_FOUND" (quoted "session" session_id)
      ]
    ]
