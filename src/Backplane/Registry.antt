-- ===== src/Backplane/Registry.antt =====
-- `Target`, `Registry` and `InMemoryBackplane`. A sink is a value of an abstract type; publishing
-- yields the calls of sinks that it makes, in order. No code panics while it holds the registry's
-- lock, so the `expect` on it never fires.
use text.Mathlib.TextEquality.{eq_iff}
use smooth_agent.Base.{
  ℕ, ◌+◌, String, Bool, true, false, none, some, List, [], ◌∷◌, ◌≡◌, ◌↔◌, arith, Eq, string_eq,
  if◌then◌else◌, null, length,
}
use text.Mathlib.Text.{◌==◌ as str_eq}
use smooth_agent.Base.Dict.{Dict, get, insert, remove}
use smooth_agent.Base.Sets.{set_insert, set_remove}

pub data Target : Type 0 where
  connection session user org agent : String → Target

abbrev pub target_beq : Target → Target → Bool
target_beq (connection a) (connection b) = str_eq a b
target_beq (session a) (session b) = str_eq a b
target_beq (user a) (user b) = str_eq a b
target_beq (org a) (org b) = str_eq a b
target_beq (agent a) (agent b) = str_eq a b
target_beq _ _ = false

pub target_beq_iff : (a b : Target) → (target_beq a b ≡ true) ↔ (a ≡ b)
target_beq_iff (connection a) (connection b) = ground (arith, eq_iff a b)
target_beq_iff (session a) (session b) = ground (arith, eq_iff a b)
target_beq_iff (user a) (user b) = ground (arith, eq_iff a b)
target_beq_iff (org a) (org b) = ground (arith, eq_iff a b)
target_beq_iff (agent a) (agent b) = ground (arith, eq_iff a b)
target_beq_iff _ _ = ground arith

instance abbrev pub target_eq : Eq Target
target_eq = record { beq = target_beq; beq_iff = target_beq_iff }

-- `get(&k).unwrap_or_default()` on a map of sets.
abbrev pub members : {K A : Type 0} ⦃e : Eq K⦄ → Dict K (List A) → K → List A
members m k = elim (get m k) [ none ↦ [] | some xs ↦ xs ]

-- `entry(k).or_default().insert(a)`
unfoldable pub entry_insert :
    {K A : Type 0} ⦃e : Eq K⦄ ⦃f : Eq A⦄ → Dict K (List A) → K → A → Dict K (List A)
entry_insert m k a = insert m k (set_insert (members m k) a)

module _ (Sink Value : Type 0) where
  pub record Registry : Type 0 where
    pub sinks : Dict String Sink
    pub conn_targets : Dict String (List Target)
    pub target_conns : Dict Target (List String)

  -- One call `sink(event)`, for the connection that owns the sink.
  pub record Delivery : Type 0 where
    pub conn : String
    pub sink : Sink
    pub event : Value

-- The body of the loop in `detach`, for one target of the connection.
unfoldable pub release : Dict Target (List String) → String → Target → Dict Target (List String)
release m conn t = elim (get m t) [
  | none ↦ m
  | some set ↦ let left = set_remove set conn in if null left then remove m t else insert m t left
]

unfoldable pub release_all :
    Dict Target (List String) → String → List Target → Dict Target (List String)
release_all m conn [] = m
release_all m conn (t ∷ ts) = release_all (release m conn t) conn ts

module _ {Sink Value : Type 0} where
  abbrev pub new : Registry Sink Value
  new = record { sinks = []; conn_targets = []; target_conns = [] }

  unfoldable pub connection_count : Registry Sink Value → ℕ
  connection_count r = length r.sinks

  unfoldable pub associate : Registry Sink Value → String → Target → Registry Sink Value
  associate r conn t = record r {
    conn_targets = entry_insert r.conn_targets conn t;
    target_conns = entry_insert r.target_conns t conn;
  }

  unfoldable pub attach : Registry Sink Value → String → Sink → Registry Sink Value
  attach r conn sink = record {
    sinks = insert r.sinks conn sink;
    conn_targets = entry_insert r.conn_targets conn (connection conn);
    target_conns = entry_insert r.target_conns (connection conn) conn;
  }

  unfoldable pub detach : Registry Sink Value → String → Registry Sink Value
  detach r conn = record {
    sinks = remove r.sinks conn;
    conn_targets = remove r.conn_targets conn;
    target_conns = release_all r.target_conns conn (members r.conn_targets conn);
  }

  -- The loop of `publish`, over the connections of the target.
  unfoldable pub deliver : Dict String Sink → List String → Value → List (Delivery Sink Value) × ℕ
  deliver sinks [] event = ([], 0)
  deliver sinks (conn ∷ conns) event =
      let (calls, delivered) = deliver sinks conns event in
      elim (get sinks conn) [
        | none ↦ (calls, delivered)
        | some sink ↦ (record { conn = conn; sink = sink; event = event } ∷ calls, delivered + 1)
      ]

  unfoldable pub publish : Registry Sink Value → Target → Value → List (Delivery Sink Value) × ℕ
  publish r t event = elim (get r.target_conns t) [
    | none ↦ ([], 0)
    | some conns ↦ deliver r.sinks conns event
  ]
