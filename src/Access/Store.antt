-- ===== src/Access/Store.antt =====
-- `AclKnowledgeStore` of rust/smooth-operator/src/access_control.rs, with its two handles. The
-- handles share the store's table and backend, so an operation of either is one of the store.
use Prim.Native.Nat.{min, max}
use smooth_agent.Base.{
  ℕ, String, ◌*◌, ◌-◌, ◌^◌, Bool, true, none, some, List, [], ◌∷◌, ◌++◌, length, nat_eqb, string_eq,
  if◌then◌else◌,
}
use smooth_agent.Base.Dict.{Dict, get, insert}
use smooth_agent.Base.Outcome.{Outcome, ok, err, ◌>>=◌, Lock, new_lock, acquire, store}
use smooth_agent.Engine.{KnowledgeResult, Documents, KnowledgeBase}
use smooth_agent.Access.Acl.{DocAcl, AccessContext, can_access, AclJson, from_metadata}

abbrev pub AclTable : Type 0
AclTable = Dict String DocAcl

abbrev pub overfetch_factor : ℕ
overfetch_factor = 5

abbrev pub overfetch_floor : ℕ
overfetch_floor = 20

-- `usize::MAX` of a 64-bit build.
abbrev pub usize_max : ℕ
usize_max = 2 ^ 64 - 1

-- `limit.saturating_mul(OVERFETCH_FACTOR).max(OVERFETCH_FLOOR)`
unfoldable pub candidate_count : ℕ → ℕ
candidate_count limit = max (min (limit * overfetch_factor) usize_max) overfetch_floor

abbrev pub lock_message : String
lock_message = "acl table lock poisoned: poisoned lock: another task failed inside"

-- No recorded list means that the document is open to the organisation.
unfoldable pub is_allowed : AclTable → AccessContext → String → Bool
is_allowed table ctx id = elim (get table id) [ none ↦ true | some acl ↦ can_access ctx acl ]

module _ {Score : Type 0} where
  -- The `for` loop of the reader's query, with what it has pushed so far.
  unfoldable pub collect :
      AclTable
      → AccessContext
      → ℕ
      → List (KnowledgeResult Score)
      → List (KnowledgeResult Score)
      → List (KnowledgeResult Score)
  collect table ctx limit out [] = out
  collect table ctx limit out (result ∷ rest) =
      let pushed = out ++ result ∷ [] in
      let further = collect table ctx limit pushed rest in
      let skipped = collect table ctx limit out rest in
      if is_allowed table ctx result.document_id
      then (if nat_eqb (length pushed) limit then pushed else further)
      else skipped

-- The store: a wrapped backend and the shared side table.
pub record AclKnowledgeStore (State : Type 0) : Type 0 where
  pub inner : State
  pub acls : Lock AclTable

module _ (docs : Documents) {Score : Type 0} (kb : KnowledgeBase docs.Document Score)
    (json : AclJson) where
  open docs use {Document}

  abbrev pub new : kb.State → AclKnowledgeStore kb.State
  new inner = record { inner = inner; acls = new_lock [] }

  unfoldable pub record_acl :
      AclKnowledgeStore kb.State → String → DocAcl → Outcome (Unit {0}) × AclKnowledgeStore kb.State
  record_acl s id acl = elim (acquire s.acls lock_message) [
    | ok table ↦ (ok tt, record s { acls = store s.acls (insert table id acl) })
    | err m ↦ (err m, s)
  ]

  -- `self.inner.ingest(doc)`
  pub forward :
      AclKnowledgeStore kb.State → Document → Outcome (Unit {0}) × AclKnowledgeStore kb.State
  forward s doc = let (r, inner) = kb.ingest s.inner doc in (r, record s { inner = inner })

  -- `ingest` of both handles: a stamped list is recorded, then the document goes to the backend.
  unfoldable pub ingest :
      AclKnowledgeStore kb.State → Document → Outcome (Unit {0}) × AclKnowledgeStore kb.State
  unfolding forward
  ingest s doc = elim (from_metadata json (docs.metadata doc)) [
    | none ↦ forward s doc
    | some acl ↦ elim (acquire s.acls lock_message) [
      | ok table ↦ forward (record s { acls = store s.acls (insert table (docs.id doc) acl) }) doc
      | err m ↦ (err m, s)
    ]
  ]

module _ (docs : Documents) {Score : Type 0} (kb : KnowledgeBase docs.Document Score) where
  -- `query` of the ingest handle: unfiltered.
  unfoldable pub handle_query :
      AclKnowledgeStore kb.State → String → ℕ → Outcome (List (KnowledgeResult Score))
  handle_query s text limit = kb.query s.inner text limit

  -- `query` of a reader bound to `ctx`.
  unfoldable pub reader_query :
      AclKnowledgeStore kb.State
      → AccessContext
      → String
      → ℕ
      → Outcome (List (KnowledgeResult Score))
  unfolding collect
  reader_query s ctx text limit = do
    candidates ← kb.query s.inner text (candidate_count limit)
    table ← acquire s.acls lock_message
    ok (collect table ctx limit [] candidates)
