-- ===== src/Admin/Tests.antt =====
-- The gate and the read of a conversation on concrete requests.
use mathlib.Core.List.{filter_map}
use smooth_agent.Base.{
  ◌≤◌, String, none, some, [], ◌∷◌, ◌≡◌, ◌≢◌, ◌⊎◌, refl, string_eq, ◌==◌, if◌then◌else◌,
}
use smooth_agent.Base.Text.{trim}
use smooth_agent.Base.Ascii.{strip_prefix, to_ascii_lowercase}
use smooth_agent.Base.Outcome.{ok, err, new_lock}
use smooth_agent.Base.Dict.{get}
use smooth_agent.Domain.{Conversation, web}
use smooth_agent.Storage.Tables.{
  Adapter, MessagePage, empty, get_conversation, list_messages_by_conversation, page_of, page_ids,
  cut,
}
use smooth_agent.Auth.Principal.{basic, curator, valid, rank, Principal, Claims, into_principal}
use smooth_agent.Auth.Verifier.{TokenCrates, Verifier, jwt, jwt_hs256, verify}
use smooth_agent.Admin.Gate.{bearer_token, require_role}
use smooth_agent.Admin.History.{answered, conversation_messages, read_allowed}
use smooth_agent.Admin.Visibility.{Owns, require_role-Verified, conversation_messages-Entitled}

abbrev curator_claims : Claims
curator_claims = record {
  sub = "ann";
  org = some "acme";
  org_id = none;
  role = some "curator";
  name = none;
  groups = [];
}

-- A token is accepted if it is its key.
abbrev crates : TokenCrates
crates = record {
  Key = String;
  Bytes = String;
  from_secret = λ secret. secret;
  from_rsa_pem = λ pem. ok pem;
  decode = λ token key validation. if token == key then ok curator_claims else err "signature";
  url_safe_no_pad = λ s. ok s;
  url_safe = λ s. ok s;
  claims_from_slice = λ b. ok curator_claims;
}

abbrev keyed_by_k : Verifier crates
keyed_by_k = jwt (jwt_hs256 crates "k" none none)

abbrev ann : Principal
ann = record { user_id = "ann"; org_id = "acme"; role = curator; display_name = none; groups = [] }

require_role-Verified_example :
    (token : String) × (bearer_token (some "Bearer  k ") ≡ some token)
    × (verify crates keyed_by_k token ≡ valid ann)
    × (1 ≤ rank ann.role)
unfolding verify trim into_principal to_ascii_lowercase require_role bearer_token strip_prefix
require_role-Verified_example =
    require_role-Verified crates keyed_by_k 1 (some "Bearer  k ") ann through
  where
    through : require_role crates keyed_by_k 1 (some "Bearer  k ") ≡ valid ann
    through = refl

abbrev chat : Conversation String
chat = record {
  id = "c1";
  platform = web;
  name = "chat";
  organization_id = "acme";
  idempotency_key = "k1";
  metadata_json = none;
  analytics_json = none;
  created_at = 5;
  updated_at = 5;
}

abbrev one_chat : Adapter String
one_chat = new_lock (record empty { conversations = ("c1", chat) ∷ [] })

abbrev no_messages : MessagePage String
no_messages = record { messages = []; next_cursor = none }

conversation_messages-Entitled_example :
    (conv : Conversation String) × (get_conversation one_chat "c1" ≡ ok (some conv))
    × (conv.organization_id ≡ "acme")
    × ((ann.role ≢ basic) ⊎ Owns one_chat "c1" "ann")
unfolding conversation_messages read_allowed get_conversation get list_messages_by_conversation
    page_of page_ids cut filter_map
conversation_messages-Entitled_example =
    conversation_messages-Entitled one_chat ann "c1" no_messages readable
  where
    readable : conversation_messages one_chat ann "c1" ≡ answered no_messages
    readable = refl
