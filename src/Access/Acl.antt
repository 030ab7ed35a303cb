-- ===== src/Access/Acl.antt =====
-- `DocAcl` and `AccessContext` of rust/smooth-operator/src/access_control.rs.
use smooth_agent.Base.{
  String, Bool, true, false, Option, none, some, List, [], ◌∷◌, ◌++◌, any, contains, ◌==◌,
  string_eq, if◌then◌else◌,
}
use smooth_agent.Base.Dict.{Dict, get}
use smooth_agent.Engine.{Documents}

pub record DocAcl : Type 0 where
  pub public : Bool
  pub users : List String
  pub groups : List String

-- `DocAcl::default()`: a fully locked document.
abbrev pub locked : DocAcl
locked = record { public = false; users = []; groups = [] }

-- `DocAcl::public()`
abbrev pub public_acl : DocAcl
public_acl = record locked { public = true }

abbrev pub for_users : List String → DocAcl
for_users users = record { public = false; users = users; groups = [] }

abbrev pub for_groups : List String → DocAcl
for_groups groups = record { public = false; users = []; groups = groups }

abbrev pub with_users : DocAcl → List String → DocAcl
with_users acl users = record acl { users = acl.users ++ users }

abbrev pub with_groups : DocAcl → List String → DocAcl
with_groups acl groups = record acl { groups = acl.groups ++ groups }

abbrev pub acl_metadata_key : String
acl_metadata_key = "acl_v2"

pub record AccessContext : Type 0 where
  pub user_id : Option String
  pub groups : List String

abbrev pub for_user : String → AccessContext
for_user user_id = record { user_id = some user_id; groups = [] }

abbrev pub anonymous : AccessContext
anonymous = record { user_id = none; groups = [] }

abbrev pub with_group : AccessContext → String → AccessContext
with_group ctx group = record ctx { groups = ctx.groups ++ group ∷ [] }

-- The user's own entry in the allow-list; an anonymous requester has none.
abbrev pub user_listed : Option String → List String → Bool
user_listed none users = false
user_listed (some uid) users = any (λ u. u == uid) users

unfoldable pub can_access : AccessContext → DocAcl → Bool
can_access ctx acl =
    if acl.public
    then true
    else if user_listed ctx.user_id acl.users
    then true
    else any (λ g. contains acl.groups g) ctx.groups

-- `serde_json` on an allow-list.
pub record AclJson : Type 0 where
  pub to_string : DocAcl → String
  pub from_str : String → Option DocAcl

module _ (json : AclJson) where
  unfoldable pub from_metadata : Dict String String → Option DocAcl
  from_metadata metadata = elim (get metadata acl_metadata_key) [
    | none ↦ none
    | some raw ↦ json.from_str raw
  ]

  unfoldable pub attach_to : (docs : Documents) → DocAcl → docs.Document → docs.Document
  attach_to docs acl doc = docs.with_metadata doc acl_metadata_key (json.to_string acl)
