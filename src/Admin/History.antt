-- ===== src/Admin/History.antt =====
-- The routes of the chat history, on the in-memory tables.
use Prim.Native.String.{◌++◌ as str_append}
use smooth_agent.Base.{
  ℕ, ◌+◌, String, Bool, true, false, Option, none, some, List, string_eq, ◌==◌, ◌&&◌, any, filter,
  take, drop, length, map, min, max, leb, ltb, not, if◌then◌else◌,
}
use smooth_agent.Base.Outcome.{ok, err}
use smooth_agent.Domain.{
  Conversation, Participant, ParticipantType, user, ai_agent, human_agent, Platform, web, messenger,
  instagram, email, discord, phone, sms, slack, whatsapp, tiktok,
}
use smooth_agent.Auth.Principal.{Principal, curator, rank}
use smooth_agent.Storage.Tables.{
  Adapter, MessagePage, first_page, quoted, get_conversation, list_conversations_by_org,
  list_participants_by_conversation, list_messages_by_conversation,
}

-- An error of a route, by its status.
pub data AdminError : Type 0 where
  internal not_found forbidden : String → AdminError

-- `Result<A, AdminError>`
pub data AdminResult (A : Type 0) : Type 0 where
  answered : A → AdminResult A
  failed : AdminError → AdminResult A

pub record ConversationsQuery : Type 0 where
  pub limit : Option ℕ
  pub cursor : Option ℕ

pub record ConversationRow : Type 0 where
  pub id : String
  pub name : String
  pub platform : String
  pub created_at : ℕ
  pub updated_at : ℕ

pub record ConversationsResponse : Type 0 where
  pub conversations : List ConversationRow
  pub next_cursor : Option ℕ

-- `format!("{:?}", c.platform).to_lowercase()`
abbrev pub platform_text : Platform → String
platform_text web = "web"
platform_text messenger = "messenger"
platform_text instagram = "instagram"
platform_text email = "email"
platform_text discord = "discord"
platform_text phone = "phone"
platform_text sms = "sms"
platform_text slack = "slack"
platform_text whatsapp = "whatsapp"
platform_text tiktok = "tiktok"

abbrev pub page_limit : Option ℕ → ℕ
page_limit none = 50
page_limit (some n) = min (max n 1) 200

abbrev pub offset_or_zero : Option ℕ → ℕ
offset_or_zero none = 0
offset_or_zero (some n) = n

abbrev pub is_user : ParticipantType → Bool
is_user user = true
is_user ai_agent = false
is_user human_agent = false

abbrev pub is_id : Option String → String → Bool
is_id none user_id = false
is_id (some id) user_id = id == user_id

-- `principal.role >= Role::Curator`
abbrev pub sees_org : Principal → Bool
sees_org p = leb (rank curator) (rank p.role)

module _ {Json : Type 0} where
  abbrev pub is_owner : String → Participant Json → Bool
  is_owner user_id p = is_user p.participant_type && is_id p.external_id user_id

  unfoldable pub conversation_owned_by : Adapter Json → String → String → Bool
  conversation_owned_by s conversation_id user_id =
      elim (list_participants_by_conversation s conversation_id) [
        | err m ↦ false
        | ok parts ↦ any (is_owner user_id) parts
      ]

  abbrev pub row : Conversation Json → ConversationRow
  row c = record {
    id = c.id;
    name = c.name;
    platform = platform_text c.platform;
    created_at = c.created_at;
    updated_at = c.updated_at;
  }

  unfoldable pub visible :
      Adapter Json → Principal → List (Conversation Json) → List (Conversation Json)
  unfolding conversation_owned_by
  visible s p all =
      if sees_org p then all else filter (λ c. conversation_owned_by s c.id p.user_id) all

  -- The page of the visible conversations.
  abbrev pub conversations_page :
      ConversationsQuery → List (Conversation Json) → ConversationsResponse
  conversations_page q shown =
      let page = map row (take (page_limit q.limit) (drop (offset_or_zero q.cursor) shown)) in
      let next = offset_or_zero q.cursor + length page in
      record {
        conversations = page;
        next_cursor = if ltb next (length shown) then some next else none;
      }

  unfoldable pub list_conversations :
      Adapter Json → Principal → ConversationsQuery → AdminResult ConversationsResponse
  unfolding visible
  list_conversations s p q = elim (list_conversations_by_org s p.org_id) [
    | err e ↦ failed (internal (str_append "list conversations failed: " e))
    | ok all ↦ answered (conversations_page q (visible s p all))
  ]

  -- The read of the messages, behind the checks.
  abbrev pub read_messages : Adapter Json → String → AdminResult (MessagePage Json)
  read_messages s conversation_id =
      elim (list_messages_by_conversation s (first_page conversation_id 200)) [
        | err e ↦ failed (internal (str_append "list messages failed: " e))
        | ok page ↦ answered page
      ]

  -- The checks of a conversation that is there.
  unfoldable pub read_allowed :
      Adapter Json → Principal → String → Conversation Json → AdminResult (MessagePage Json)
  unfolding conversation_owned_by
  read_allowed s p conversation_id conv =
      if not (conv.organization_id == p.org_id)
      then failed (not_found (quoted "conversation" conversation_id))
      else if not (sees_org p) && not (conversation_owned_by s conversation_id p.user_id)
      then failed (forbidden "you do not have access to this conversation")
      else read_messages s conversation_id

  unfoldable pub conversation_messages :
      Adapter Json → Principal → String → AdminResult (MessagePage Json)
  unfolding read_allowed
  conversation_messages s p conversation_id = elim (get_conversation s conversation_id) [
    | err e ↦ failed (internal (str_append "get conversation failed: " e))
    | ok found ↦ elim found [
      | none ↦ failed (not_found (quoted "conversation" conversation_id))
      | some conv ↦ read_allowed s p conversation_id conv
    ]
  ]
