-- ===== src/Storage/Rows.antt =====
-- Messages and sessions: what an append and an update change, and the listing by organisation.
use mathlib.Core.List.{Perm}
use smooth_agent.Base.{
  ℕ, String, Bool, true, false, Option, none, some, List, [], ◌∷◌, ◌++◌, ◌≡◌, refl, arith, ◌==◌,
  string_eq, if◌then◌else◌, filter, All, All-imp, All-filter, leb,
}
use text.Mathlib.TextEquality.{eq_iff}
use smooth_agent.Base.Dict.{get, get-insert, get-insert_self}
use smooth_agent.Base.Outcome.{ok, err}
use smooth_agent.Base.Sort.{sort_by, IsSorted, sort_by-IsSorted, sort_by-perm, All-sort_by}
use smooth_agent.Domain.{Conversation, Message, Session}
use smooth_agent.Storage.Tables.{
  Tables, Adapter, SessionUpdate, append_body, append_message, get_message, order_of, pushed_order,
  update_session, update_session_body, updated_session, replace_option, quoted, healthy_ind, values,
  list_conversations_by_org,
}

-- A part of an update replaces what the row has, and without it the row keeps what it has.
pub record IsPatched {A : Type 0} (given before after : Option A) : Type 0 where
  pub kept : given ≡ none → after ≡ before
  pub replaced : (a : A) → given ≡ some a → after ≡ some a

replace_option-IsPatched :
    {A : Type 0} (given before : Option A) → IsPatched given before (replace_option given before)
replace_option-IsPatched none before = record { kept = λ h. refl; replaced = λ a h. cc }
replace_option-IsPatched (some a) before = record { kept = λ h. cc; replaced = λ b h. h }

module _ {Json : Type 0} where
  order_of_pushed :
      (t : Tables Json) (id : String) (o : Option String) (conv c : String)
      → o ≡ some conv
      → (elim (get (pushed_order o id t) c) [ none ↦ [] | some ids ↦ ids ])
        ≡ (if conv == c then order_of t conv ++ id ∷ [] else order_of t c)
  order_of_pushed t id o conv c e =
      rw e (ground (arith, get-insert t.message_order conv c (order_of t conv ++ id ∷ [])))

  -- Appending a message of a conversation answers with the message, makes it readable under its
  -- id, and adds its id at the end of that conversation's order; every other message and the order
  -- of every other conversation stay as they were.
  pub append_message_lem :
      (s : Adapter Json) (m : Message Json) (conv : String)
      → s.poisoned ≡ false
      → m.conversation_id ≡ some conv
      → ((append_message s m).0 ≡ ok m)
        × (get_message (append_message s m).1 m.id ≡ ok (some m))
        × ((c : String)
            → order_of (append_message s m).1.content c
              ≡ (if conv == c then order_of s.content conv ++ m.id ∷ [] else order_of s.content c))
        × ((id : String)
            → get (append_message s m).1.content.messages id
              ≡ (if m.id == id then some m else get s.content.messages id))
  unfolding append_message append_body get_message
  append_message_lem s m conv healthy e =
      healthy_ind
        (λ s.
          ((append_message s m).0 ≡ ok m)
          × (get_message (append_message s m).1 m.id ≡ ok (some m))
          × ((c : String)
              → order_of (append_message s m).1.content c ≡ (
                  if conv == c then order_of s.content conv ++ m.id ∷ [] else order_of s.content c))
          × ((id : String)
              → get (append_message s m).1.content.messages id
                ≡ (if m.id == id then some m else get s.content.messages id)))
        (λ t. (
          refl,
          rw (get-insert_self t.messages m.id m),
          λ c. order_of_pushed t m.id (m.conversation_id) conv c e,
          λ id. get-insert t.messages m.id id m,
        ))
        s healthy

  -- What an update makes of a row.
  pub record IsUpdated (u : SessionUpdate) (now : ℕ) (x y : Session Json) : Type 0 where
    pub same_session : y.session_id ≡ x.session_id
    pub same_conversation : y.conversation_id ≡ x.conversation_id
    pub same_agent : (y.agent_id ≡ x.agent_id) × (y.agent_name ≡ x.agent_name)
    pub same_participants :
        (y.user_participant_id ≡ x.user_participant_id)
        × (y.agent_participant_id ≡ x.agent_participant_id)
    pub same_thread : y.thread_id ≡ x.thread_id
    pub same_metadata : y.metadata ≡ x.metadata
    pub same_creation : y.created_at ≡ x.created_at
    pub status : IsPatched u.status x.status y.status
    pub token_count : IsPatched u.token_count x.token_count y.token_count
    pub message_count : IsPatched u.message_count x.message_count y.message_count
    pub last_activity_at : IsPatched u.last_activity_at x.last_activity_at y.last_activity_at
    pub ended_at : IsPatched u.ended_at x.ended_at y.ended_at
    pub stamped : y.updated_at ≡ some now

  updated_session-IsUpdated :
      (u : SessionUpdate) (now : ℕ) (x : Session Json) → IsUpdated u now x (updated_session u now x)
  updated_session-IsUpdated u now x = record {
    same_session = refl;
    same_conversation = refl;
    same_agent = (refl, refl);
    same_participants = (refl, refl);
    same_thread = refl;
    same_metadata = refl;
    same_creation = refl;
    status = replace_option-IsPatched u.status x.status;
    token_count = replace_option-IsPatched u.token_count x.token_count;
    message_count = replace_option-IsPatched u.message_count x.message_count;
    last_activity_at = replace_option-IsPatched u.last_activity_at x.last_activity_at;
    ended_at = replace_option-IsPatched u.ended_at x.ended_at;
    stamped = refl;
  }

  -- Updating a session that is not there is an error with no change; updating one that is there
  -- replaces the given parts and the time of the update, keeps its identity and the rest of it,
  -- answers with the new row, and leaves every other session as it was.
  pub update_session_lem :
      (s : Adapter Json) (id : String) (u : SessionUpdate) (now : ℕ)
      → s.poisoned ≡ false
      → (get s.content.sessions id ≡ none
          → update_session s id u now ≡ (err (quoted "session" id), s))
        × ((x : Session Json)
            → get s.content.sessions id ≡ some x
            → (y : Session Json) × IsUpdated u now x y
              × ((update_session s id u now).0 ≡ ok y)
              × ((j : String)
                  → get (update_session s id u now).1.content.sessions j
                    ≡ (if id == j then some y else get s.content.sessions j)))
  unfolding update_session update_session_body
  update_session_lem s id u now healthy =
      healthy_ind
        (λ s.
          (get s.content.sessions id ≡ none
            → update_session s id u now ≡ (err (quoted "session" id), s))
          × ((x : Session Json)
              → get s.content.sessions id ≡ some x
              → (y : Session Json) × IsUpdated u now x y
                × ((update_session s id u now).0 ≡ ok y)
                × ((j : String)
                    → get (update_session s id u now).1.content.sessions j
                      ≡ (if id == j then some y else get s.content.sessions j))))
        (λ t. (
          λ missing. rw (missing, update_session_body),
          λ x there. (
            updated_session u now x,
            updated_session-IsUpdated u now x,
            rw (there, update_session_body),
            λ j.
                rw (there, update_session_body)
                  (get-insert t.sessions id j (updated_session u now x)),
          ),
        ))
        s healthy

  -- Newest first.
  abbrev pub newer : Conversation Json → Conversation Json → Bool
  newer a b = leb b.created_at a.created_at

  -- Listing an organisation's conversations gives the stored rows of that organisation, each as
  -- often as it is stored and no other, ordered from the newest to the oldest.
  pub list_conversations_by_org_lem :
      (s : Adapter Json) (org : String)
      → s.poisoned ≡ false
      → (out : List (Conversation Json)) × (list_conversations_by_org s org ≡ ok out)
        × IsSorted newer out
        × All (λ c. c.organization_id ≡ org) out
        × Perm out (filter (λ c. c.organization_id == org) (values s.content.conversations))
  unfolding list_conversations_by_org
  list_conversations_by_org_lem s org healthy =
      let rows = filter (λ c. c.organization_id == org) (values s.content.conversations) in
      (
        sort_by newer rows,
        rw healthy,
        sort_by-IsSorted newer (λ x y h. ground arith) (λ x y z h k. ground arith) rows,
        All-sort_by newer (λ c. c.organization_id ≡ org) rows
            (All-imp (λ c. (c.organization_id == org) ≡ true) _
              (λ c. (eq_iff c.organization_id org).0) rows
              (All-filter (λ c. c.organization_id == org) (values s.content.conversations))),
        sort_by-perm newer rows,
      )
