-- ===== src/Server/State.antt =====
-- `AppState` (rust/smooth-operator-server/src/state.rs): what the handlers of a connection use of it,
-- and its three registries. The handles that only the admin routes use are left out.
use Prim.Native.String.{◌++◌ as str_append}
use smooth_agent.Base.{
  ℕ, ◌+◌, ◌^◌, ◌%◌, String, Bool, Option, none, some, List, [], ◌∷◌, ◌++◌, string_eq, ◌==◌, any,
  if◌then◌else◌,
}
use smooth_agent.Base.Dict.{Dict, get, insert}
use smooth_agent.Base.Sort.{sort_by}
use smooth_agent.Base.Outcome.{Lock, new_lock, store}
use smooth_agent.Json.{Json}
use smooth_agent.Domain.{Session}
use smooth_agent.Backplane.Registry.{Registry}
use smooth_agent.Backplane.Registry
use smooth_agent.Widget.Origin.{WidgetAuthProvider, permissive}
use smooth_agent.Server.Config.{ServerConfig}
use smooth_agent.Server.Streaming.{Storage}

-- Events go out to a connection through its sink.
pub record AppState (json : Json) (State : Type 0) : Type 0 where
  pub storage : Storage json State
  pub config : ServerConfig
  pub widget_auth : WidgetAuthProvider
  pub backplane : Registry String json.Value
  pub sessions : Lock (Dict String (Session json.Value))
  pub doc_sets : Lock (Dict String (Dict String ℕ))
  pub connectors : Lock (Dict String (List String))

-- U+0001, which no connector's name holds.
abbrev separator : String
separator = "\u{1}"

abbrev pub scoped_connector_key : String → String → String
scoped_connector_key org_id connector_name =
    str_append "IXCONN#" (str_append org_id (str_append separator connector_name))

-- `map.get(key)` or the empty default.
abbrev pub sets_of : Dict String (Dict String ℕ) → String → Dict String ℕ
sets_of m org = elim (get m org) [ none ↦ [] | some sets ↦ sets ]

abbrev pub names_of : Dict String (List String) → String → List String
names_of m org = elim (get m org) [ none ↦ [] | some names ↦ names ]

abbrev pub count_of : Dict String ℕ → String → ℕ
count_of m set = elim (get m set) [ none ↦ 0 | some n ↦ n ]

-- A name is pushed unless it is there.
abbrev pub add_name : List String → String → List String
add_name names name = if any (λ c. c == name) names then names else names ++ name ∷ []

-- The order of strings is a parameter: `a.cmp(&b)` is not `Greater`.
module _ {json : Json} {State : Type 0} where
  abbrev pub new : Storage json State → ServerConfig → AppState json State
  new storage config = record {
    storage = storage;
    config = config;
    widget_auth = permissive;
    backplane = Registry.new;
    sessions = new_lock [];
    doc_sets = new_lock [];
    connectors = new_lock [];
  }

  abbrev pub with_widget_auth : AppState json State → WidgetAuthProvider → AppState json State
  with_widget_auth state provider = record state { widget_auth = provider }

  -- A poisoned lock leaves the registry as it is.
  unfoldable pub insert_session : AppState json State → Session json.Value → AppState json State
  insert_session state session = if state.sessions.poisoned then state else record state {
    sessions = store state.sessions (insert state.sessions.content session.session_id session);
  }

  unfoldable pub get_session : AppState json State → String → Option (Session json.Value)
  get_session state session_id =
      if state.sessions.poisoned then none else get state.sessions.content session_id

  -- The count is a machine word.
  unfoldable pub record_document_set : AppState json State → String → String → AppState json State
  record_document_set state org_id set =
      let all_sets = state.doc_sets.content in
      let sets = sets_of all_sets org_id in
      let counted = insert sets set ((count_of sets set + 1) % 2 ^ 64) in
      if state.doc_sets.poisoned
      then state
      else record state { doc_sets = store state.doc_sets (insert all_sets org_id counted) }

  unfoldable pub record_connector : AppState json State → String → String → AppState json State
  record_connector state org_id name =
      let all_names = state.connectors.content in
      let names = names_of all_names org_id in
      if state.connectors.poisoned then state else record state {
        connectors = store state.connectors (insert all_names org_id (add_name names name));
      }

  module _ (string_le : String → String → Bool) where
    unfoldable pub document_sets : AppState json State → String → List (String × ℕ)
    document_sets state org_id =
        if state.doc_sets.poisoned
        then []
        else sort_by (λ a b. string_le a.0 b.0) (sets_of state.doc_sets.content org_id)

    unfoldable pub connectors : AppState json State → String → List String
    connectors state org_id =
        if state.connectors.poisoned
        then []
        else sort_by string_le (names_of state.connectors.content org_id)
