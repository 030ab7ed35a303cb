-- ===== src/Configs/Settings.antt =====
-- `AgentSettings` and `InMemorySettingsStore`. The clock comes as an argument.
use smooth_agent.Base.{ℕ, String, none, some, List, [], string_eq, if◌then◌else◌}
use smooth_agent.Base.Dict.{Dict, get, insert}
use smooth_agent.Base.Outcome.{Lock, new_lock, store}

pub record AgentSettings : Type 0 where
  pub org_id : String
  pub model : String
  pub system_prompt : String
  pub default_tools : List String
  pub updated_at : ℕ

abbrev pub default_model : String
default_model = "gpt-4o-mini"

abbrev pub default_system_prompt : String
default_system_prompt =
    "You are a helpful support assistant. Answer using the provided knowledge; cite sources and say you don't know when the knowledge doesn't cover the question."

abbrev pub defaults : String → ℕ → AgentSettings
defaults org_id now = record {
  org_id = org_id;
  model = default_model;
  system_prompt = default_system_prompt;
  default_tools = [];
  updated_at = now;
}

abbrev pub SettingsStore : Type 0
SettingsStore = Lock (Dict String AgentSettings)

abbrev pub new_settings : SettingsStore
new_settings = new_lock []

unfoldable pub get_settings : SettingsStore → ℕ → String → AgentSettings
get_settings s now org_id =
    if s.poisoned
    then defaults org_id now
    else elim (get s.content org_id) [ none ↦ defaults org_id now | some settings ↦ settings ]

unfoldable pub put_settings : SettingsStore → AgentSettings → SettingsStore
put_settings s settings =
    if s.poisoned then s else store s (insert s.content settings.org_id settings)
