-- ===== src/Configs/Isolation.antt =====
-- Each read of a configuration stays in its organization.
use smooth_agent.Base.{
  ℕ, String, false, Option, none, some, List, [], ◌∷◌, ◌≡◌, ◌∙◌, refl, ◌&&◌, arith, ap, string_eq,
  ◌==◌, if◌then◌else◌,
}
use smooth_agent.Base.Dict.{get, get-insert, get-remove}
use smooth_agent.Configs.Settings.{AgentSettings, SettingsStore, get_settings, put_settings}
use smooth_agent.Configs.Connectors.{
  ConnectorConfig, ConfigStore, new_configs, row_key, row_key_eq, get_config, upsert_config,
  delete_config,
}

-- A call that changes the store.
pub data Change (Value : Type 0) : Type 0 where
  upserted : ConnectorConfig Value → Change Value
  deleted : String → String → Change Value

module _ {Value : Type 0} where
  abbrev pub apply_change : ConfigStore Value → Change Value → ConfigStore Value
  apply_change s (upserted c) = upsert_config s c
  apply_change s (deleted org_id id) = (delete_config s org_id id).1

  unfoldable pub run_changes : ConfigStore Value → List (Change Value) → ConfigStore Value
  run_changes s [] = s
  run_changes s (change ∷ changes) = run_changes (apply_change s change) changes

  -- Every row stands under its own organization and id.
  abbrev IsKeyed : ConfigStore Value → Type 0
  IsKeyed s =
      (org id : String) (c : ConnectorConfig Value)
      → get_config s org id ≡ some c
      → (c.org_id ≡ org) × (c.id ≡ id)

  upsert_config-IsKeyed :
      (s : ConfigStore Value) (new : ConnectorConfig Value)
      → IsKeyed s
      → IsKeyed (upsert_config s new)
  unfolding upsert_config get_config
  upsert_config-IsKeyed s new keyed org id c h = ground (
    arith,
    get-insert s.content (row_key new.org_id new.id) (row_key org id) new,
    row_key_eq.beq_iff (row_key new.org_id new.id) (row_key org id),
    string_eq.beq_iff new.org_id org,
    string_eq.beq_iff new.id id,
    keyed org id c,
  )

  delete_config-IsKeyed :
      (s : ConfigStore Value) (old_org old_id : String)
      → IsKeyed s
      → IsKeyed (delete_config s old_org old_id).1
  unfolding delete_config get_config
  delete_config-IsKeyed s old_org old_id keyed org id c h =
      ground (arith, get-remove s.content (row_key old_org old_id) (row_key org id), keyed org id c)

  run_changes-IsKeyed :
      (s : ConfigStore Value) (changes : List (Change Value))
      → IsKeyed s
      → IsKeyed (run_changes s changes)
  unfolding run_changes
  run_changes-IsKeyed s [] keyed = keyed
  run_changes-IsKeyed s (upserted c ∷ changes) keyed =
      run_changes-IsKeyed (upsert_config s c) changes (upsert_config-IsKeyed s c keyed)
  run_changes-IsKeyed s (deleted org_id id ∷ changes) keyed =
      run_changes-IsKeyed (delete_config s org_id id).1 changes
        (delete_config-IsKeyed s org_id id keyed)

  -- What the last change of a row leaves of it.
  unfoldable pub last_write :
      Option (ConnectorConfig Value)
      → List (Change Value)
      → String
      → String
      → Option (ConnectorConfig Value)
  last_write found [] org id = found
  last_write found (upserted c ∷ changes) org id =
      last_write (if c.org_id == org && c.id == id then some c else found) changes org id
  last_write found (deleted old_org old_id ∷ changes) org id =
      last_write (if old_org == org && old_id == id then none else found) changes org id

  apply_change-poisoned :
      (s : ConfigStore Value) (change : Change Value)
      → s.poisoned ≡ false
      → (apply_change s change).poisoned ≡ false
  unfolding upsert_config delete_config
  apply_change-poisoned s (upserted c) h = rw h
  apply_change-poisoned s (deleted old_org old_id) h = rw h

  get_config-upsert_config :
      (s : ConfigStore Value) (c : ConnectorConfig Value) (org id : String)
      → s.poisoned ≡ false
      → get_config (upsert_config s c) org id
        ≡ (if c.org_id == org && c.id == id then some c else get_config s org id)
  unfolding upsert_config get_config
  get_config-upsert_config s c org id h =
      rw (h, get-insert s.content (row_key c.org_id c.id) (row_key org id) c)

  get_config-delete_config :
      (s : ConfigStore Value) (old_org old_id org id : String)
      → s.poisoned ≡ false
      → get_config (delete_config s old_org old_id).1 org id
        ≡ (if old_org == org && old_id == id then none else get_config s org id)
  unfolding delete_config get_config
  get_config-delete_config s old_org old_id org id h =
      rw (h, get-remove s.content (row_key old_org old_id) (row_key org id))

  get_config-run_changes_from :
      (s : ConfigStore Value) (changes : List (Change Value)) (org id : String)
      → s.poisoned ≡ false
      → get_config (run_changes s changes) org id ≡ last_write (get_config s org id) changes org id
  unfolding run_changes last_write
  get_config-run_changes_from s [] org id h = refl
  get_config-run_changes_from s (upserted c ∷ changes) org id h =
      get_config-run_changes_from (upsert_config s c) changes org id
        (apply_change-poisoned s (upserted c) h)
      ∙ ap (λ found. last_write found changes org id) (get_config-upsert_config s c org id h)
  get_config-run_changes_from s (deleted old_org old_id ∷ changes) org id h =
      get_config-run_changes_from (delete_config s old_org old_id).1 changes org id
        (apply_change-poisoned s (deleted old_org old_id) h)
      ∙ ap (λ found. last_write found changes org id)
          (get_config-delete_config s old_org old_id org id h)

  new_configs-IsKeyed : IsKeyed new_configs
  unfolding get_config get
  new_configs-IsKeyed org id c h = cc

  -- After any upserts and deletes of any organizations on a new store, a read by organization and id
  -- gives what the last change of that row left, and a row that it gives is of that organization and
  -- has that id.
  pub get_config-run_changes :
      (changes : List (Change Value)) (org id : String)
      → (get_config (run_changes new_configs changes) org id ≡ last_write none changes org id)
        × ((c : ConnectorConfig Value)
            → get_config (run_changes new_configs changes) org id ≡ some c
            → (c.org_id ≡ org) × (c.id ≡ id))
  unfolding get_config get
  get_config-run_changes changes org id = (
    get_config-run_changes_from new_configs changes org id refl,
    run_changes-IsKeyed new_configs changes new_configs-IsKeyed org id,
  )

-- A write replaces what is read of its organization, and of no other.
pub get_settings-put_settings :
    (s : SettingsStore) (new : AgentSettings) (now : ℕ) (org_id : String)
    → s.poisoned ≡ false
    → get_settings (put_settings s new) now org_id
      ≡ (if new.org_id == org_id then new else get_settings s now org_id)
unfolding get_settings put_settings
get_settings-put_settings s new now org_id h =
    ground (arith, get-insert s.content new.org_id org_id new)
