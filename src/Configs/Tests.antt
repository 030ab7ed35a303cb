-- ===== src/Configs/Tests.antt =====
-- Runs of the stores.
use smooth_agent.Base.{String, true, some, none, List, [], ◌∷◌, ◌≡◌, refl}
use smooth_agent.Base.Dict.{get, insert, remove}
use smooth_agent.Base.Outcome.{ok, err}
use smooth_agent.Base.Ascii.{to_ascii_lowercase}
use smooth_agent.Base.Text.{trim}
use smooth_agent.Configs.Connectors.{
  ConnectorConfig, parse, web, new_configs, get_config, upsert_config, delete_config,
}
use smooth_agent.Configs.Isolation.{
  Change, upserted, deleted, run_changes, last_write, get_config-run_changes,
}

abbrev site : String → ConnectorConfig String
site org_id = record {
  id = "1";
  org_id = org_id;
  name = "docs";
  kind = web;
  config = "{}";
  enabled = true;
  created_at = 5;
  updated_at = 5;
}

abbrev changes : List (Change String)
changes = upserted (site "a") ∷ upserted (site "b") ∷ deleted "b" "1" ∷ []

read_back : get_config (run_changes new_configs changes) "a" "1" ≡ some (site "a")
unfolding run_changes upsert_config delete_config get_config get insert remove
read_back = refl

parse_web : parse "  WEB " ≡ ok web
unfolding parse to_ascii_lowercase trim
parse_web = refl

parse_unknown : parse "slack" ≡ err "slack"
unfolding parse to_ascii_lowercase trim
parse_unknown = refl

get_config-run_changes_example :
    (get_config (run_changes new_configs changes) "a" "1" ≡ last_write none changes "a" "1")
    × ((c : ConnectorConfig String)
        → get_config (run_changes new_configs changes) "a" "1" ≡ some c
        → (c.org_id ≡ "a") × (c.id ≡ "1"))
get_config-run_changes_example = get_config-run_changes changes "a" "1"
