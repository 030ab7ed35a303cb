-- ===== src/Turn/History.antt =====
-- The history of a conversation: `load_prior_messages` (rust/smooth-operator/src/runtime.rs, with its
-- copy in rust/smooth-operator-server/src/runner.rs) and the `conversation_history` tool
-- (rust/smooth-operator/src/tools/conversation_history.rs).
use mathlib.Core.List.{reverse}
use Prim.Native.String.{◌++◌ as str_append}
use smooth_agent.Base.{
  ℕ, String, true, Option, none, some, List, [], ◌∷◌, string_eq, length, null, min, max,
  if◌then◌else◌,
}
use smooth_agent.Base.Text.{is_empty}
use smooth_agent.Base.Words.{decimal}
use smooth_agent.Base.Outcome.{Outcome, ok, ◌>>=◌}
use smooth_agent.Domain.{Direction, inbound, outbound, ContentItem, MessageContent, Message}
use smooth_agent.Storage.Tables.{Adapter, first_page, list_messages_by_conversation}

pub data Role : Type 0 where
  user assistant : Role

-- The parts of the engine's message that a replay fills in with other than a constant.
pub record EngineMessage : Type 0 where
  pub id : String
  pub role : Role
  pub content : String
  pub timestamp : ℕ

abbrev pub max_prior_messages : ℕ
max_prior_messages = 50

abbrev pub default_limit : ℕ
default_limit = 20

abbrev pub max_limit : ℕ
max_limit = 100

-- `items.iter().find_map(|it| it.text.clone())`
unfoldable pub item_text : List ContentItem → Option String
item_text [] = none
item_text (it ∷ items) =
    let rest = item_text items in elim it.text [ none ↦ rest | some text ↦ some text ]

abbrev pub or_empty : Option String → String
or_empty none = ""
or_empty (some text) = text

abbrev pub role_of : Direction → Role
role_of inbound = user
role_of outbound = assistant

abbrev pub clamped : Option ℕ → ℕ
clamped none = default_limit
clamped (some n) = min (max n 1) max_limit

abbrev pub speaker : Direction → String
speaker inbound = "User"
speaker outbound = "Agent"

module _ {Json : Type 0} where
  -- `content.text`, or the first item with a text, or nothing.
  unfoldable pub message_text : MessageContent Json → String
  unfolding item_text
  message_text content = elim content.text [
    | some text ↦ text
    | none ↦ or_empty (item_text content.items)
  ]

  -- The loop of `load_prior_messages`.
  unfoldable pub replay : List (Message Json) → List EngineMessage
  unfolding message_text
  replay [] = []
  replay (m ∷ ms) =
      let rest = replay ms in
      let text = message_text m.content in
      if is_empty text
      then rest
      else record {
        id = m.id;
        role = role_of m.direction;
        content = text;
        timestamp = m.created_at;
      }
        ∷ rest

  unfoldable pub load_prior_messages : Adapter Json → String → Outcome (List EngineMessage)
  unfolding replay
  load_prior_messages s conversation_id = do
    page ← list_messages_by_conversation s (first_page conversation_id max_prior_messages)
    ok (replay page.messages)

  -- The messages that the tool reads: the newest ones, oldest first.
  unfoldable pub recent_messages : Adapter Json → String → Option ℕ → Outcome (List (Message Json))
  recent_messages s conversation_id limit = do
    page ← list_messages_by_conversation s (record {
      conversation_id = conversation_id;
      limit = clamped limit;
      cursor = none;
      descending = true;
    })
    ok (reverse page.messages)

  unfoldable pub transcript : List (Message Json) → String
  unfolding message_text
  transcript [] = ""
  transcript (m ∷ ms) = str_append "- " (
      str_append (speaker m.direction)
        (str_append ": " (str_append (message_text m.content) (str_append "\n" (transcript ms)))))

  -- `execute` of the tool, on the limit in its arguments.
  unfoldable pub execute : Adapter Json → String → Option ℕ → Outcome String
  unfolding recent_messages transcript
  execute s conversation_id limit = do
    messages ← recent_messages s conversation_id limit
    ok (
        if null messages
        then "No messages in this conversation yet."
        else str_append "Recent conversation history (" (
            str_append (decimal (length messages))
              (str_append " message(s), oldest-first):\n" (transcript messages))))
