-- ===== src/Configs/Connectors.antt =====
-- `ConnectorConfig` and `InMemoryConnectorConfigStore`. The order of strings is a parameter.
use smooth_agent.Base.{
  ℕ, ◌≡◌, String, Bool, true, false, Option, none, some, List, [], ◌&&◌, filter, map, Eq, string_eq,
  ◌==◌, ==_refl, ap, ◌∙◌, arith, if◌then◌else◌,
}
use smooth_agent.Base.Dict.{Dict, get, insert, remove}
use smooth_agent.Base.Sort.{sort_by}
use smooth_agent.Base.Text.{trim, is_empty}
use smooth_agent.Base.Ascii.{to_ascii_lowercase}
use smooth_agent.Base.Outcome.{Outcome, ok, err, Lock, new_lock, store}
use smooth_agent.Json.{Json, str_field}

pub data ConnectorKind : Type 0 where
  github web file : ConnectorKind

abbrev pub as_str : ConnectorKind → String
as_str github = "github"
as_str web = "web"
as_str file = "file"

abbrev pub kind_of : String → Outcome ConnectorKind
kind_of name =
    if name == "github"
    then ok github
    else if name == "web"
    then ok web
    else if name == "file"
    then ok file
    else err name

unfoldable pub parse : String → Outcome ConnectorKind
parse value = kind_of (to_ascii_lowercase (trim value))

pub record ConnectorConfig (Value : Type 0) : Type 0 where
  pub id : String
  pub org_id : String
  pub name : String
  pub kind : ConnectorKind
  pub config : Value
  pub enabled : Bool
  pub created_at : ℕ
  pub updated_at : ℕ

abbrev pub trimmed_text : String → Option String
trimmed_text s = if is_empty (trim s) then none else some (trim s)

unfoldable pub auth_ref : (json : Json) → ConnectorConfig json.Value → Option String
auth_ref json c = elim (str_field json c.config "auth_ref") [
  | none ↦ none
  | some s ↦ trimmed_text s
]

-- The keys of the rows: an organization and an id.
pub record RowKey : Type 0 where
  pub org : String
  pub row_id : String

abbrev pub row_key : String → String → RowKey
row_key org row_id = record { org = org; row_id = row_id }

abbrev row_key-ext : (a b : RowKey) → a.org ≡ b.org → a.row_id ≡ b.row_id → a ≡ b
row_key-ext a b p q = ap (λ o. row_key o a.row_id) p ∙ ap (row_key b.org) q

instance abbrev pub row_key_eq : Eq RowKey
row_key_eq = record {
  beq = λ a b. a.org == b.org && a.row_id == b.row_id;
  beq_iff = λ a b. (
    λ h.
        row_key-ext a b ((string_eq.beq_iff a.org b.org).0 (ground arith))
          ((string_eq.beq_iff a.row_id b.row_id).0 (ground arith)),
    λ h. rw (
      ap (λ (x : RowKey). x.org) h,
      ap (λ (x : RowKey). x.row_id) h,
      ==_refl b.org,
      ==_refl b.row_id,
    ),
  );
}

abbrev pub ConfigStore : Type 0 → Type 0
ConfigStore Value = Lock (Dict RowKey (ConnectorConfig Value))

abbrev pub new_configs : {Value : Type 0} → ConfigStore Value
new_configs = new_lock []

module _ {Value : Type 0} where
  -- By name, and by id where the names are equal.
  abbrev pub name_order :
      (String → String → Bool) → ConnectorConfig Value → ConnectorConfig Value → Bool
  name_order string_le a b =
      if a.name == b.name then string_le a.id b.id else string_le a.name b.name

  unfoldable pub list_configs :
      (String → String → Bool) → ConfigStore Value → String → List (ConnectorConfig Value)
  list_configs string_le s org_id =
      if s.poisoned
      then []
      else sort_by (name_order string_le)
          (filter (λ c. c.org_id == org_id) (map (λ e. e.1) s.content))

  unfoldable pub get_config : ConfigStore Value → String → String → Option (ConnectorConfig Value)
  get_config s org_id id = if s.poisoned then none else get s.content (row_key org_id id)

  unfoldable pub upsert_config : ConfigStore Value → ConnectorConfig Value → ConfigStore Value
  upsert_config s c = if s.poisoned then s else store s (insert s.content (row_key c.org_id c.id) c)

  -- Whether a row was removed, and the store after it.
  unfoldable pub delete_config : ConfigStore Value → String → String → Bool × ConfigStore Value
  delete_config s org_id id = if s.poisoned then (false, s) else (
    elim (get s.content (row_key org_id id)) [ none ↦ false | some c ↦ true ],
    store s (remove s.content (row_key org_id id)),
  )
