-- ===== src/Server/Tests.antt =====
-- A server over toy parts: frames, a turn with a search, and the registries.
use smooth_agent.Base.{
  ℕ, ◌<◌, ◌^◌, if◌then◌else◌, String, true, false, none, some, List, [], ◌∷◌, ◌≡◌, ◌⊎◌, refl,
  string_eq, ◌==◌, All,
}
use smooth_agent.Base.Dict.{get}
use smooth_agent.Base.Outcome.{ok, new_lock}
use smooth_agent.Json.{Json, str_field}
use smooth_agent.Json.Toy.{toy, Tree, string, number, object, fields}
use smooth_agent.Engine.{KnowledgeResult}
use smooth_agent.Engine.Toy.{entry, toy_base, toy_documents}
use smooth_agent.Access.Acl.{for_user, anonymous, locked, can_access}
use smooth_agent.Access.Store.{reader_query, candidate_count, is_allowed}
use smooth_agent.Access.Reader.{Readable}
use smooth_agent.Auth.Config.{Env}
use smooth_agent.Storage.Tables.{empty, list_messages_by_conversation, append_message, append_body}
use smooth_agent.Base.Sets.{set_insert}
use smooth_agent.Turn.History.{load_prior_messages}
use smooth_agent.Search.Rerank.{apply_optional_rerank}
use smooth_agent.Search.Tool.{execute}
use smooth_agent.Turn.Citations.{Citation, collect_citations}
use smooth_agent.Search.Toy.{toy_lexicon, toy_display}
use smooth_agent.Server.Agent.{emit, search, finish, Agent, tool_call_start}
use smooth_agent.Server.Config.{ServerConfig, from_env, from_env_bounds, has_llm, llm_config}
use smooth_agent.Server.Policy.{
  Ambient, enforce_widget_auth, check_context, verify_auth_context_value,
}
use smooth_agent.Base.Int.{pos, i64_sub, i64_abs}
use smooth_agent.Widget.Origin.{static, origin_allowed}
use smooth_agent.Widget.Context.{verify_auth_context, signature_ok, replay_distance}
use smooth_agent.Server.Streaming.{Storage, TurnRequest, TurnResult, TurnChoices}
use smooth_agent.Server.Turn.{run_streaming_turn}
use smooth_agent.Server.Confidential.{run_streaming_turn-Confidential}
use smooth_agent.Server.State.{AppState, new, get_session}
use smooth_agent.Server.Sessions.{
  SessionIds, CreateTask, Reply, create_task, run_create_task, handle_get_session, snapshot,
  or_default_str, begin_session,
}
use smooth_agent.Server.SessionLaws.{get_session-run_create_task}
use smooth_agent.Server.Embedding.{Authorized, handle_create_session-Authorized}
use smooth_agent.Server.Protocol.{error, immediate_response}
use smooth_agent.Server.Dispatch.{Outside, FreshIds, handle_create_session, handle_frame}
use smooth_agent.Server.Liveness.{IsAnswered, frame_id, handle_frame-IsAnswered}

-- The frames that the parser knows.
abbrev json : Json
json =
    toy
      (("ping", object (fields (("action", string "ping") ∷ ("requestId", string "r1") ∷ []))) ∷ [])

abbrev storage : Storage json (List (KnowledgeResult ℕ))
storage = record {
  tables = new_lock empty;
  knowledge = record {
    inner = entry "a" 1 ∷ entry "b" 2 ∷ [];
    acls = new_lock (("a", locked) ∷ []);
  };
}

-- An agent that searches once and then says what it found.
abbrev searcher : Agent json ℕ
searcher prior context message =
    emit (tool_call_start "knowledge_search" (string ""))
      (search (object (fields (("query", string "q") ∷ []))) (λ r. finish (ok (some "done"))))

abbrev config : ServerConfig
config = record {
  bind = "127.0.0.1";
  port = 8787;
  gateway_url = "u";
  gateway_key = some "k";
  model = "m";
  seed_kb = false;
  max_iterations = 6;
  max_tokens = 512;
  storage = smooth_agent.Server.Config.memory;
  widget_auth_strict = false;
}

abbrev state : AppState json (List (KnowledgeResult ℕ))
state = new storage config

abbrev env : Ambient
env = record {
  checks = false;
  hmac = record { hex_decode = λ s. none; show_i64 = λ z. "0"; verify_slice = λ k m s. none };
  now = 1000;
}

abbrev outside : Outside json toy_lexicon toy_documents ℕ
outside = record {
  display = toy_display;
  kb = toy_base;
  agent = λ llm n. searcher;
  reranker = none;
  to_value = λ cs. string "";
}

abbrev session_ids : SessionIds
session_ids = record {
  agent_id = "agent";
  conversation_id = "c1";
  session_id = "s1";
  user_participant_id = "u1";
  agent_participant_id = "a1";
}

abbrev turn_ids : TurnChoices
turn_ids = record { inbound_id = "m1"; outbound_id = "m2"; sent_before_failure = 0 }

abbrev ids : FreshIds
ids = record { turn = turn_ids; for_session = session_ids }

handle_frame-IsAnswered_example :
    IsAnswered json env toy_lexicon toy_documents outside
      (frame_id json env toy_lexicon toy_documents outside "ping")
      (handle_frame json env toy_lexicon toy_documents outside state anonymous "conn" none "ping"
        ids)
handle_frame-IsAnswered_example =
    handle_frame-IsAnswered json env toy_lexicon toy_documents outside state anonymous "conn" none
      "ping" ids refl

abbrev bare : Env
bare key = if key == "SMOOTH_AGENT_PORT" then some "99999" else none

from_env_bounds_example :
    ((from_env bare).port < 2 ^ 16)
    × ((0 < (from_env bare).max_iterations) × ((from_env bare).max_iterations < 2 ^ 32))
    × ((0 < (from_env bare).max_tokens) × ((from_env bare).max_tokens < 2 ^ 32))
    × (smooth_agent.Auth.Config.is_some (llm_config (from_env bare)) ≡ has_llm (from_env bare))
from_env_bounds_example = from_env_bounds bare

abbrev task : CreateTask json
task = create_task json 1000 (object (fields [])) (some "r2") "agent" session_ids

abbrev asking : Tree
asking = object (fields (("sessionId", string "s1") ∷ []))

get_session-run_create_task_example :
    (handle_get_session json 1000 ((run_create_task json 1000 state task).0) asking none
      ≡ immediate_response json 1000 none 200 "Session" (snapshot json 1000 task.created))
    × ((run_create_task json 1000 state task).1
        ≡ immediate_response json 1000 task.request_id 200 "Session created" task.answer)
    × ((id : String)
        → ("s1" == id) ≡ false
        → get_session ((run_create_task json 1000 state task).0) id ≡ get_session state id)
unfolding get
get_session-run_create_task_example =
    get_session-run_create_task json 1000 state task asking none refl refl refl

-- A strict server with one agent that may be embedded anywhere with signed contexts.
abbrev strict : AppState json (List (KnowledgeResult ℕ))
strict = record (new storage (record config { widget_auth_strict = true })) {
  widget_auth = static (("bot", record { allowed_origins = "*" ∷ []; public_key = some "k" }) ∷ []);
}

-- Every signature in hex is one of the text `ann:1`.
abbrev signing : Ambient
signing = record env {
  hmac = record {
    hex_decode = λ s. some [];
    show_i64 = λ z. "1";
    verify_slice = λ k m s. some (m == "ann:1");
  };
}

abbrev unregistered_frame : Tree
unregistered_frame = object (fields [])

is_refused :
    handle_create_session json signing toy_lexicon toy_documents outside strict "conn" none
      unregistered_frame none session_ids
    ≡ some (record {
      state = strict;
      events =
          error json 1000 none "AGENT_NOT_AUTHORIZED" "this agent is not registered for embedding"
          ∷ [];
      spawned = [];
    })
unfolding handle_create_session get enforce_widget_auth
is_refused = refl

abbrev embedding_frame : Tree
embedding_frame = object (
    fields (
      ("agentId", string "bot")
      ∷ (
        "authContext",
        object (
            fields (
              ("userId", string "ann")
              ∷ ("signature", string "00")
              ∷ ("timestamp", number (pos 1))
              ∷ [])),
      )
      ∷ []))

abbrev begun : Reply json (List (KnowledgeResult ℕ))
begun = begin_session json 1000 strict "conn" embedding_frame none "bot" session_ids

is_begun :
    handle_create_session json signing toy_lexicon toy_documents outside strict "conn"
      (some "https://shop.example")
      embedding_frame
      none
      session_ids
    ≡ some begun
unfolding handle_create_session get enforce_widget_auth check_context verify_auth_context_value
    verify_auth_context signature_ok replay_distance i64_sub i64_abs origin_allowed
is_begun = refl

handle_create_session-Authorized_example :
    Authorized json signing strict.widget_auth strict.config
      (some "https://shop.example")
      (or_default_str (str_field json embedding_frame "agentId") "agent")
      embedding_frame
    ⊎ ((begun.state ≡ strict) × (begun.spawned ≡ []))
handle_create_session-Authorized_example =
    handle_create_session-Authorized json signing toy_lexicon toy_documents outside strict "conn"
      (some "https://shop.example") embedding_frame none session_ids begun is_begun

abbrev request : TurnRequest toy_lexicon ℕ
request = record {
  conversation_id = "c1";
  request_id = "r3";
  user_message = "hello";
  access = for_user "ann";
  reranker = none;
}

-- The turn cites the second document only.
abbrev turn : TurnResult ℕ
turn = record {
  reply = "done";
  message_id = "m2";
  invoked_knowledge_search = true;
  citations = record { id = "b"; title = "toy"; url = none; snippet = ""; score = 2 } ∷ [];
}

cites :
    (run_streaming_turn json 1000 toy_lexicon toy_display toy_documents toy_base searcher storage
      request turn_ids).result
    ≡ ok turn
unfolding run_streaming_turn load_prior_messages list_messages_by_conversation append_message
    append_body collect_citations reader_query candidate_count is_allowed get can_access execute
    apply_optional_rerank set_insert
cites = refl

run_streaming_turn-Confidential_example :
    All
      (λ (c : Citation ℕ). Readable storage.knowledge.acls.content request.access c.id)
      turn.citations
run_streaming_turn-Confidential_example =
    run_streaming_turn-Confidential json 1000 toy_lexicon toy_display toy_documents toy_base
      searcher storage request turn_ids turn tt cites
