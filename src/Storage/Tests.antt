-- ===== src/Storage/Tests.antt =====
-- Runs of the storage adapter on small tables.
use mathlib.Core.List.{filter_map}
use smooth_agent.Base.{
  ℕ, String, true, none, some, [], ◌∷◌, ◌≡◌, refl, arith, string_eq, if◌then◌else◌, ◌==◌,
}
use smooth_agent.Base.Dict.{get, insert}
use smooth_agent.Base.Sort.{sort_by}
use smooth_agent.Base.Outcome.{ok, err, new_lock}
use smooth_agent.Domain.{Conversation, Message, Session, web, inbound, active, ended, from_text}
use smooth_agent.Storage.Tables.{
  Adapter, ConversationUpdate, SessionUpdate, MessageQuery, empty, first_page, create_body,
  create_conversation, get_conversation, update_body, update_conversation, append_body,
  append_message, get_message, create_session, update_session, update_session_body,
  list_conversations_by_org, list_messages_by_conversation, page_of, page_ids, cut, position,
  quoted,
}
use smooth_agent.Storage.Conversations.{
  IsValid, IsValid-empty, create_conversation-IsValid, create_conversation-idempotent,
}
use smooth_agent.Storage.Paging.{read_all, read_all_complete}
use smooth_agent.Storage.Rows.{IsUpdated, update_session_lem}

abbrev chat : String → ℕ → Conversation String
chat id at = record {
  id = id;
  platform = web;
  name = "chat";
  organization_id = "acme";
  idempotency_key = "k1";
  metadata_json = none;
  analytics_json = none;
  created_at = at;
  updated_at = at;
}

abbrev fresh : Adapter String
fresh = new_lock empty

-- One conversation is stored.
abbrev one_chat : Adapter String
one_chat =
    new_lock
      (record empty { conversations = ("c1", chat "c1" 5) ∷ []; message_order = ("c1", []) ∷ [] })

abbrev renaming : ConversationUpdate String
renaming = record { name = some "renamed"; metadata_json = none; analytics_json = some "{}" }

program : Unit {0}
unfolding create_conversation create_body get_conversation update_conversation update_body
    append_message append_body get_message create_session update_session update_session_body
    list_conversations_by_org list_messages_by_conversation page_of page_ids cut position read_all
    get insert sort_by
program = tt

one_chat_run : create_conversation fresh (chat "c1" 5) ≡ (ok (chat "c1" 5), one_chat)
unfolding program
one_chat_run = refl

one_chat-IsValid : IsValid one_chat.content
unfolding program
one_chat-IsValid = create_conversation-IsValid fresh (chat "c1" 5) IsValid-empty

create_conversation-IsValid_example : IsValid (create_conversation one_chat (chat "c2" 9)).1.content
create_conversation-IsValid_example =
    create_conversation-IsValid one_chat (chat "c2" 9) one_chat-IsValid

create_conversation-idempotent_example :
    (row : Conversation String) × ((create_conversation one_chat (chat "c2" 9)).0 ≡ ok row)
    × (row.organization_id ≡ "acme")
    × (row.idempotency_key ≡ "k1")
    × (get_conversation (create_conversation one_chat (chat "c2" 9)).1 row.id ≡ ok (some row))
    × (create_conversation (create_conversation one_chat (chat "c2" 9)).1 (chat "c3" 10)
        ≡ (ok row, (create_conversation one_chat (chat "c2" 9)).1))
create_conversation-idempotent_example =
    create_conversation-idempotent one_chat (chat "c2" 9) (chat "c3" 10) refl one_chat-IsValid refl
      refl

abbrev said : String → Message String
said id = record {
  id = id;
  external_id = none;
  organization_id = none;
  conversation_id = some "c1";
  direction = inbound;
  content = from_text "hello";
  from = none;
  to = none;
  metadata_json = none;
  analytics_json = none;
  created_at = 1;
  updated_at = none;
}

-- Three messages are stored.
abbrev thread : Adapter String
thread = new_lock (record empty {
  messages = ("m1", said "m1") ∷ ("m2", said "m2") ∷ ("m3", said "m3") ∷ [];
  message_order = ("c1", "m1" ∷ "m2" ∷ "m3" ∷ []) ∷ [];
})

thread_run :
    (append_message
      (append_message (append_message fresh (said "m1")).1 (said "m2")).1
      (said "m3")).1
    ≡ thread
unfolding program
thread_run = refl

abbrev newest_first : MessageQuery
newest_first = record (first_page "c1" 2) { descending = true }

read_all_complete_example :
    read_all 4 thread newest_first ≡ ok (said "m3" ∷ said "m2" ∷ said "m1" ∷ [])
unfolding program filter_map
read_all_complete_example =
    read_all_complete thread newest_first 4 refl (omega arith) (refl, (refl, (refl, tt)))
      (omega arith)

abbrev visit : Session String
visit = record {
  session_id = "s1";
  conversation_id = "c1";
  agent_id = "a";
  agent_name = "Ada";
  user_participant_id = "u";
  agent_participant_id = "p";
  thread_id = "t";
  status = some active;
  token_count = some 0;
  message_count = some 0;
  metadata = none;
  created_at = some 1;
  updated_at = some 1;
  ended_at = none;
  last_activity_at = none;
}

abbrev ending : SessionUpdate
ending = record {
  status = some ended;
  token_count = none;
  message_count = some 3;
  last_activity_at = none;
  ended_at = some 9;
}

abbrev one_visit : Adapter String
one_visit = new_lock (record empty { sessions = ("s1", visit) ∷ [] })

update_session_lem_example :
    (get one_visit.content.sessions "s1" ≡ none
      → update_session one_visit "s1" ending 9 ≡ (err (quoted "session" "s1"), one_visit))
    × ((x : Session String)
        → get one_visit.content.sessions "s1" ≡ some x
        → (y : Session String) × IsUpdated ending 9 x y
          × ((update_session one_visit "s1" ending 9).0 ≡ ok y)
          × ((j : String)
              → get (update_session one_visit "s1" ending 9).1.content.sessions j
                ≡ (if "s1" == j then some y else get one_visit.content.sessions j)))
update_session_lem_example = update_session_lem one_visit "s1" ending 9 refl
