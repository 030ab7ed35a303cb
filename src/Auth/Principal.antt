-- ===== src/Auth/Principal.antt =====
-- `Role`, `Principal`, `AuthError` and `Claims` (rust/smooth-operator/src/auth.rs).
use Prim.Native.String.{◌++◌}
use smooth_agent.Base.{
  ℕ, String, Bool, Option, none, some, List, [], string_eq, ◌==◌, leb, if◌then◌else◌, ◌||◌,
}
use smooth_agent.Base.Text.{trim}
use smooth_agent.Base.Ascii.{to_ascii_lowercase}
use smooth_agent.Access.Acl.{AccessContext}

pub data Role : Type 0 where
  basic curator admin : Role

-- The derived order: a role's place in its declaration.
abbrev pub rank : Role → ℕ
rank basic = 0
rank curator = 1
rank admin = 2

pub data AuthError : Type 0 where
  unauthenticated : AuthError
  invalid_token : String → AuthError
  missing_role : String → AuthError
  forbidden : Role → Role → AuthError
  misconfigured : String → AuthError

-- `Result<A, AuthError>`
pub data AuthResult {ℓ} (A : Type ℓ) : Type ℓ where
  valid : A → AuthResult A
  refused : AuthError → AuthResult A

infixl 5 ◌>>=◌ ◌>>◌
abbrev pub ◌>>=◌ {ℓ κ} :
    {X : Type ℓ} {Y : Type κ} (first : AuthResult X) → (X → AuthResult Y) → AuthResult Y
refused e >>= next = refused e
valid x >>= next = next x

abbrev pub ◌>>◌ {ℓ κ} :
    {X : Type ℓ} {Y : Type κ} (first : AuthResult X) → AuthResult Y → AuthResult Y
first >> second = first >>= λ _. second

abbrev pub role_name : Role → String
role_name basic = "basic"
role_name curator = "curator"
role_name admin = "admin"

-- The `match` of `Role::parse`, on the trimmed text in lower case.
unfoldable pub role_of_name : String → AuthResult Role
role_of_name name =
    if name == "admin"
    then valid admin
    else if name == "curator"
    then valid curator
    else if name == "basic" || name == "user"
    then valid basic
    else refused (missing_role ("unknown role '" ++ (name ++ "'")))

unfoldable pub parse_role : String → AuthResult Role
unfolding role_of_name
parse_role value = role_of_name (to_ascii_lowercase (trim value))

-- What `Display` writes.
abbrev pub error_text : AuthError → String
error_text unauthenticated = "missing bearer token"
error_text (invalid_token m) = "invalid token: " ++ m
error_text (missing_role m) = "missing or invalid role claim: " ++ m
error_text (forbidden required actual) =
    "forbidden: requires " ++ (role_name required ++ (", principal is " ++ role_name actual))
error_text (misconfigured m) = "auth misconfigured: " ++ m

pub record Principal : Type 0 where
  pub user_id : String
  pub org_id : String
  pub role : Role
  pub display_name : Option String
  pub groups : List String

abbrev pub new : String → String → Role → Option String → Principal
new user_id org_id role display_name = record {
  user_id = user_id;
  org_id = org_id;
  role = role;
  display_name = display_name;
  groups = [];
}

abbrev pub with_groups : Principal → List String → Principal
with_groups p groups = record p { groups = groups }

abbrev pub has_role : Principal → Role → Bool
has_role p min = leb (rank min) (rank p.role)

abbrev pub access_context : Principal → AccessContext
access_context p = record { user_id = some p.user_id; groups = p.groups }

pub record Claims : Type 0 where
  pub sub : String
  pub org : Option String
  pub org_id : Option String
  pub role : Option String
  pub name : Option String
  pub groups : List String

abbrev pub claimed_org : Claims → Option String
claimed_org c = elim c.org [ some org ↦ some org | none ↦ c.org_id ]

-- `.ok_or(..)`
abbrev pub ok_or : {A : Type 0} → Option A → AuthError → AuthResult A
ok_or none e = refused e
ok_or (some a) e = valid a

abbrev pub claimed_role : Option String → AuthResult Role
claimed_role none = refused (missing_role "no 'role' claim")
claimed_role (some r) = parse_role r

unfoldable pub into_principal : Claims → AuthResult Principal
unfolding parse_role
into_principal c = do
  role ← claimed_role c.role
  org_id ← ok_or (claimed_org c) (invalid_token "no 'org'/'org_id' claim")
  valid (record {
    user_id = c.sub;
    org_id = org_id;
    role = role;
    display_name = c.name;
    groups = c.groups;
  })
