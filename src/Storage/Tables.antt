-- ===== src/Storage/Tables.antt =====
-- The tables, and every operation of `InMemoryStorageAdapter` on them. The clock comes as an argument.
use mathlib.Core.Path.{subst}
use mathlib.Core.Option
use mathlib.Core.List.{reverse, filter_map}
use Prim.Native.String.{◌++◌ as str_append}
use smooth_agent.Base.{
  ℕ, suc, ◌+◌, ◌≡◌, String, Bool, true, false, Option, none, some, List, [], ◌∷◌, ◌++◌, ◌&&◌, map,
  length, take, drop, filter, find, get_last?, ltb, leb, ◌==◌, string_eq, if◌then◌else◌, option_eqb,
  Bool-cases, inl, inr, sym,
}
use smooth_agent.Base.Dict.{Dict, get, insert}
use smooth_agent.Base.Sort.{sort_by}
use smooth_agent.Base.Outcome.{Outcome, ok, err, Lock, new_lock, store}
use smooth_agent.Domain.{Conversation, Participant, Message, Session, SessionStatus}

pub record ConversationUpdate (Json : Type 0) : Type 0 where
  pub name : Option String
  pub metadata_json : Option Json
  pub analytics_json : Option Json

pub record SessionUpdate : Type 0 where
  pub status : Option SessionStatus
  pub token_count : Option ℕ
  pub message_count : Option ℕ
  pub last_activity_at : Option ℕ
  pub ended_at : Option ℕ

pub record MessagePage (Json : Type 0) : Type 0 where
  pub messages : List (Message Json)
  pub next_cursor : Option String

pub record MessageQuery : Type 0 where
  pub conversation_id : String
  pub limit : ℕ
  pub cursor : Option String
  pub descending : Bool

-- `MessageQuery::new`: the first page, oldest first.
abbrev pub first_page : String → ℕ → MessageQuery
first_page conversation_id limit = record {
  conversation_id = conversation_id;
  limit = limit;
  cursor = none;
  descending = false;
}

pub record Tables (Json : Type 0) : Type 0 where
  pub conversations : Dict String (Conversation Json)
  pub participants : Dict String (Participant Json)
  pub messages : Dict String (Message Json)
  pub message_order : Dict String (List String)
  pub sessions : Dict String (Session Json)

abbrev pub lock_message : String
lock_message = "lock poisoned: poisoned lock: another task failed inside"

-- `"{what} '{id}' not found"`
abbrev pub quoted : String → String → String
quoted what id = str_append what (str_append " '" (str_append id "' not found"))

-- A field of a partial update: `Some` replaces what is there.
abbrev pub replace : {A : Type 0} → Option A → A → A
replace none old = old
replace (some new) old = new

abbrev pub replace_option : {A : Type 0} → Option A → Option A → Option A
replace_option none old = old
replace_option (some new) old = some new

abbrev pub values : {K V : Type 0} → Dict K V → List V
values m = map (λ e. e.1) m

-- `iter().position(|id| id == cursor)`
unfoldable pub position : List String → String → Option ℕ
position [] c = none
position (x ∷ xs) c = if x == c then some 0 else Option.map suc (position xs c)

-- `None` is before `Some`.
abbrev pub option_leb : Option ℕ → Option ℕ → Bool
option_leb none b = true
option_leb (some a) none = false
option_leb (some a) (some b) = leb a b

-- The tables behind their lock.
abbrev pub Adapter : Type 0 → Type 0
Adapter Json = Lock (Tables Json)

-- `entry(k).or_default()`
abbrev pub or_default : Dict String (List String) → String → Dict String (List String)
or_default m k = elim (get m k) [ none ↦ insert m k [] | some xs ↦ m ]

-- Where a page starts: behind the cursor, or at the front if there is none or it is unknown.
abbrev pub start_at : List String → Option String → ℕ
start_at ids none = 0
start_at ids (some c) = elim (position ids c) [ none ↦ 0 | some i ↦ i + 1 ]

module _ {Json : Type 0} where
  abbrev pub empty : Tables Json
  empty = record {
    conversations = [];
    participants = [];
    messages = [];
    message_order = [];
    sessions = [];
  }

  -- `self.tables.write()` or `.read()`, and the operation under the lock.
  abbrev pub under_write :
      {A : Type 0}
      → (Tables Json → Outcome A × Tables Json)
      → Adapter Json
      → Outcome A × Adapter Json
  under_write body s =
      if s.poisoned then (err lock_message, s) else (let (r, t) = body s.content in (r, store s t))

  -- What holds of the tables before and after the body holds after the operation.
  pub content-under_write :
      {A : Type 0} (P : Tables Json → Type 0) (body : Tables Json → Outcome A × Tables Json)
      (s : Adapter Json)
      → P s.content
      → P (body s.content).1
      → P (under_write body s).1.content
  content-under_write P body s h k = elim (Bool-cases s.poisoned) [
    | inl e ↦ rw e h
    | inr e ↦ rw e k
  ]

  -- To prove a fact of an adapter with a healthy lock, prove it where the lock is known.
  pub healthy_ind :
      (P : Adapter Json → Type 0)
      → ((t : Tables Json) → P (new_lock t))
      → (s : Adapter Json) → s.poisoned ≡ false
      → P s
  healthy_ind P h s e =
      subst P (λ i. record { poisoned = sym e i; content = s.content }) (h s.content)

  abbrev pub under_read : {A : Type 0} → (Tables Json → A) → Adapter Json → Outcome A
  under_read body s = if s.poisoned then err lock_message else ok (body s.content)

  abbrev pub same_key : Conversation Json → Conversation Json → Bool
  same_key c existing =
      existing.organization_id == c.organization_id && existing.idempotency_key == c.idempotency_key

  unfoldable pub create_body :
      Conversation Json → Tables Json → Outcome (Conversation Json) × Tables Json
  create_body c t = elim (find (same_key c) (values t.conversations)) [
    | some existing ↦ (ok existing, t)
    | none ↦ (
      ok c,
      record t {
        conversations = insert t.conversations c.id c;
        message_order = or_default t.message_order c.id;
      },
    )
  ]

  unfoldable pub create_conversation :
      Adapter Json → Conversation Json → Outcome (Conversation Json) × Adapter Json
  create_conversation s c = under_write (create_body c) s

  unfoldable pub get_conversation : Adapter Json → String → Outcome (Option (Conversation Json))
  get_conversation s id = under_read (λ t. get t.conversations id) s

  unfoldable pub list_conversations_by_org :
      Adapter Json → String → Outcome (List (Conversation Json))
  list_conversations_by_org s org =
      under_read
        (λ t.
          sort_by (λ a b. leb b.created_at a.created_at)
            (filter (λ c. c.organization_id == org) (values t.conversations)))
        s

  abbrev pub updated_conversation :
      ConversationUpdate Json → ℕ → Conversation Json → Conversation Json
  updated_conversation u now c = record c {
    name = replace u.name c.name;
    metadata_json = replace_option u.metadata_json c.metadata_json;
    analytics_json = replace_option u.analytics_json c.analytics_json;
    updated_at = now;
  }

  unfoldable pub update_body :
      String → ConversationUpdate Json → ℕ → Tables Json → Outcome (Conversation Json) × Tables Json
  update_body id u now t = elim (get t.conversations id) [
    | none ↦ (err (quoted "conversation" id), t)
    | some c ↦
        let c' = updated_conversation u now c in
        (ok c', record t { conversations = insert t.conversations id c' })
  ]

  unfoldable pub update_conversation :
      Adapter Json
      → String
      → ConversationUpdate Json
      → ℕ
      → Outcome (Conversation Json) × Adapter Json
  update_conversation s id u now = under_write (update_body id u now) s

  unfoldable pub add_participant :
      Adapter Json → Participant Json → Outcome (Participant Json) × Adapter Json
  add_participant s p =
      under_write (λ t. (ok p, record t { participants = insert t.participants p.id p })) s

  unfoldable pub get_participant : Adapter Json → String → Outcome (Option (Participant Json))
  get_participant s id = under_read (λ t. get t.participants id) s

  unfoldable pub list_participants_by_conversation :
      Adapter Json → String → Outcome (List (Participant Json))
  list_participants_by_conversation s conv =
      under_read
        (λ t.
          sort_by (λ a b. leb a.created_at b.created_at)
            (filter (λ p. p.conversation_id == conv) (values t.participants)))
        s

  unfoldable pub resolve_participant_by_external_id :
      Adapter Json → String → String → Outcome (Option (Participant Json))
  resolve_participant_by_external_id s conv external =
      under_read
        (λ t.
          find
            (λ p.
              p.conversation_id == conv && option_eqb (λ a b. a == b) p.external_id (some external))
            (values t.participants))
        s

  abbrev pub order_of : Tables Json → String → List String
  order_of t conv = elim (get t.message_order conv) [ none ↦ [] | some ids ↦ ids ]

  abbrev pub pushed_order : Option String → String → Tables Json → Dict String (List String)
  pushed_order none id t = t.message_order
  pushed_order (some conv) id t = insert t.message_order conv (order_of t conv ++ id ∷ [])

  unfoldable pub append_body : Message Json → Tables Json → Outcome (Message Json) × Tables Json
  append_body m t = (
    ok m,
    record t {
      message_order = pushed_order m.conversation_id m.id t;
      messages = insert t.messages m.id m;
    },
  )

  unfoldable pub append_message :
      Adapter Json → Message Json → Outcome (Message Json) × Adapter Json
  append_message s m = under_write (append_body m) s

  unfoldable pub get_message : Adapter Json → String → Outcome (Option (Message Json))
  get_message s id = under_read (λ t. get t.messages id) s

  unfoldable pub page_ids : MessageQuery → Tables Json → List String
  page_ids q t =
      if q.descending then reverse (order_of t q.conversation_id) else order_of t q.conversation_id

  -- The page of at most `limit` rows behind the cursor.
  unfoldable pub cut : List String → Tables Json → ℕ → Option String → MessagePage Json
  cut ids t limit cursor =
      let start = start_at ids cursor in
      let slice = take limit (drop start ids) in
      record {
        messages = filter_map (get t.messages) slice;
        next_cursor = if ltb (start + length slice) (length ids) then get_last? slice else none;
      }

  unfoldable pub page_of : MessageQuery → Tables Json → MessagePage Json
  page_of q t = cut (page_ids q t) t q.limit q.cursor

  unfoldable pub list_messages_by_conversation :
      Adapter Json → MessageQuery → Outcome (MessagePage Json)
  list_messages_by_conversation s q = under_read (page_of q) s

  unfoldable pub create_session :
      Adapter Json → Session Json → Outcome (Session Json) × Adapter Json
  create_session s x =
      under_write (λ t. (ok x, record t { sessions = insert t.sessions x.session_id x })) s

  unfoldable pub get_session : Adapter Json → String → Outcome (Option (Session Json))
  get_session s id = under_read (λ t. get t.sessions id) s

  abbrev pub updated_session : SessionUpdate → ℕ → Session Json → Session Json
  updated_session u now x = record x {
    status = replace_option u.status x.status;
    token_count = replace_option u.token_count x.token_count;
    message_count = replace_option u.message_count x.message_count;
    last_activity_at = replace_option u.last_activity_at x.last_activity_at;
    ended_at = replace_option u.ended_at x.ended_at;
    updated_at = some now;
  }

  unfoldable pub update_session_body :
      String → SessionUpdate → ℕ → Tables Json → Outcome (Session Json) × Tables Json
  update_session_body id u now t = elim (get t.sessions id) [
    | none ↦ (err (quoted "session" id), t)
    | some x ↦
        let x' = updated_session u now x in (ok x', record t { sessions = insert t.sessions id x' })
  ]

  unfoldable pub update_session :
      Adapter Json → String → SessionUpdate → ℕ → Outcome (Session Json) × Adapter Json
  update_session s id u now = under_write (update_session_body id u now) s

  unfoldable pub list_sessions_by_conversation :
      Adapter Json → String → Outcome (List (Session Json))
  list_sessions_by_conversation s conv =
      under_read
        (λ t.
          sort_by (λ a b. option_leb a.created_at b.created_at)
            (filter (λ x. x.conversation_id == conv) (values t.sessions)))
        s
