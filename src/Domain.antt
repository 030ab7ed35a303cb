-- ===== src/Domain.antt =====
-- The domain model (rust/smooth-operator/src/domain.rs). A JSON payload is a value of a type that is
-- passed in, and an instant is a number.
use smooth_agent.Base.{ℕ, String, Option, some, none, List, [], ◌∷◌}

pub data Platform : Type 0 where
  web messenger instagram email discord phone sms slack whatsapp tiktok : Platform

pub data ParticipantType : Type 0 where
  user ai_agent human_agent : ParticipantType

pub data Direction : Type 0 where
  inbound outbound : Direction

pub data SessionStatus : Type 0 where
  active idle ended : SessionStatus

pub record ContentItem : Type 0 where
  pub item_type : String
  pub text : Option String

abbrev pub text_item : String → ContentItem
text_item text = record { item_type = "text"; text = some text }

pub record ParticipantRef : Type 0 where
  pub id : String
  pub participant_type : String
  pub name : Option String

module _ (Json : Type 0) where
  pub record Conversation : Type 0 where
    pub id : String
    pub platform : Platform
    pub name : String
    pub organization_id : String
    pub idempotency_key : String
    pub metadata_json : Option Json
    pub analytics_json : Option Json
    pub created_at : ℕ
    pub updated_at : ℕ

  pub record Participant : Type 0 where
    pub id : String
    pub conversation_id : String
    pub organization_id : String
    pub participant_type : ParticipantType
    pub external_id : Option String
    pub internal_id : Option String
    pub browser_fingerprint : Option String
    pub browser_info : Option Json
    pub name : String
    pub email : Option String
    pub phone : Option String
    pub crm_contact_id : Option String
    pub metadata_json : Option Json
    pub created_at : ℕ
    pub updated_at : ℕ

  pub record MessageContent : Type 0 where
    pub items : List ContentItem
    pub text : Option String
    pub structured_response : Option Json

  pub record Message : Type 0 where
    pub id : String
    pub external_id : Option String
    pub organization_id : Option String
    pub conversation_id : Option String
    pub direction : Direction
    pub content : MessageContent
    pub from : Option ParticipantRef
    pub to : Option ParticipantRef
    pub metadata_json : Option Json
    pub analytics_json : Option Json
    pub created_at : ℕ
    pub updated_at : Option ℕ

  pub record Session : Type 0 where
    pub session_id : String
    pub conversation_id : String
    pub agent_id : String
    pub agent_name : String
    pub user_participant_id : String
    pub agent_participant_id : String
    pub thread_id : String
    pub status : Option SessionStatus
    pub token_count : Option ℕ
    pub message_count : Option ℕ
    pub metadata : Option (List (String × Json))
    pub created_at : Option ℕ
    pub updated_at : Option ℕ
    pub ended_at : Option ℕ
    pub last_activity_at : Option ℕ

abbrev pub from_text : {Json : Type 0} → String → MessageContent Json
from_text text = record {
  items = text_item text ∷ [];
  text = some text;
  structured_response = none;
}
