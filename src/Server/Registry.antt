-- ===== src/Server/Registry.antt =====
-- The registries of document sets and connectors, by organization.
use smooth_agent.Base.{
  ℕ, ◌+◌, ◌<◌, ◌^◌, ◌%◌, String, true, false, List, [], ◌∷◌, ◌++◌, ◌≡◌, refl, sym, ap, ◌∙◌, arith,
  string_eq, ◌==◌, any, if◌then◌else◌, Bool-cases, inl, inr, ==_refl,
}
use smooth_agent.Base.Dict.{Dict, insert, get-insert}
use smooth_agent.Json.{Json}
use smooth_agent.Server.State.{
  AppState, record_document_set, record_connector, sets_of, names_of, count_of, add_name,
}

count_of-insert :
    (m : Dict String ℕ) (set other : String) (n : ℕ)
    → count_of (insert m set n) other ≡ (if set == other then n else count_of m other)
count_of-insert m set other n = elim (Bool-cases (set == other)) [
  | inl e ↦ rw (count_of, get-insert m set other n, e) refl
  | inr e ↦ rw (count_of, get-insert m set other n, e) refl
]

sets_of-insert :
    (m : Dict String (Dict String ℕ)) (org other : String) (sets : Dict String ℕ)
    → sets_of (insert m org sets) other ≡ (if org == other then sets else sets_of m other)
sets_of-insert m org other sets = elim (Bool-cases (org == other)) [
  | inl e ↦ rw (sets_of, get-insert m org other sets, e) refl
  | inr e ↦ rw (sets_of, get-insert m org other sets, e) refl
]

names_of-insert :
    (m : Dict String (List String)) (org other : String) (names : List String)
    → names_of (insert m org names) other ≡ (if org == other then names else names_of m other)
names_of-insert m org other names = elim (Bool-cases (org == other)) [
  | inl e ↦ rw (names_of, get-insert m org other names, e) refl
  | inr e ↦ rw (names_of, get-insert m org other names, e) refl
]

any-pushed :
    (names : List String) (name : String) → any (λ c. c == name) (names ++ name ∷ []) ≡ true
any-pushed [] name = rw (==_refl name) refl
any-pushed (n ∷ ns) name = ground (arith, any-pushed ns name)

any-add_name :
    (names : List String) (name : String) → any (λ c. c == name) (add_name names name) ≡ true
any-add_name names name = elim (Bool-cases (any (λ c. c == name) names)) [
  | inl e ↦ rw e e
  | inr e ↦ rw e (any-pushed names name)
]

add_name-again :
    (names : List String) (name : String)
    → add_name (add_name names name) name ≡ add_name names name
add_name-again names name = rw (any-add_name names name) refl

module _ {json : Json} {State : Type 0} where
  -- The registries' contents for an organization.
  abbrev pub set_count : AppState json State → String → String → ℕ
  set_count state org set = count_of (sets_of state.doc_sets.content org) set

  abbrev pub org_connectors : AppState json State → String → List String
  org_connectors state org = names_of state.connectors.content org

  -- Recording a document adds one to the count of its set in its organization, below 2 ^ 64, and
  -- changes no other count, neither of another set nor of another organization.
  pub record_document_set_lem :
      (state : AppState json State) (org set : String)
      → state.doc_sets.poisoned ≡ false
      → set_count state org set + 1 < 2 ^ 64
      → (set_count (record_document_set state org set) org set ≡ set_count state org set + 1)
        × ((other : String)
            → (org == other) ≡ false
            → (s : String)
            → set_count (record_document_set state org set) other s ≡ set_count state other s)
        × ((s : String)
            → (set == s) ≡ false
            → set_count (record_document_set state org set) org s ≡ set_count state org s)
  unfolding record_document_set
  record_document_set_lem state org set healthy small =
      let more =
        insert (sets_of state.doc_sets.content org) set ((set_count state org set + 1) % 2 ^ 64) in
      let exact : (set_count state org set + 1) % 2 ^ 64 ≡ set_count state org set + 1 =
        omega arith in
      (
        rw
            (
              record_document_set,
              healthy,
              sets_of-insert state.doc_sets.content org org more,
              ==_refl org,
              count_of-insert (sets_of state.doc_sets.content org) set set
                  ((set_count state org set + 1) % 2 ^ 64),
              ==_refl set,
            )
            exact,
        λ other e s.
            rw
              (
                record_document_set,
                healthy,
                sets_of-insert state.doc_sets.content org other more,
                e,
              )
              refl,
        λ s e.
            rw
              (
                record_document_set,
                healthy,
                sets_of-insert state.doc_sets.content org org more,
                ==_refl org,
                count_of-insert (sets_of state.doc_sets.content org) set s
                    ((set_count state org set + 1) % 2 ^ 64),
                e,
              )
              refl,
      )

  connectors_after :
      (state : AppState json State) (org name : String)
      → state.connectors.poisoned ≡ false
      → (other : String)
      → org_connectors (record_connector state org name) other ≡ (
          if org == other
          then add_name (org_connectors state org) name
          else org_connectors state other)
  unfolding record_connector
  connectors_after state org name healthy other =
      rw (record_connector, healthy)
        (names_of-insert state.connectors.content org other
          (add_name (org_connectors state org) name))

  still_healthy :
      (state : AppState json State) (org name : String)
      → state.connectors.poisoned ≡ false
      → (record_connector state org name).connectors.poisoned ≡ false
  unfolding record_connector
  still_healthy state org name healthy = rw (record_connector, healthy) refl

  -- Recording a connector leaves the connectors of every other organization as they were, and
  -- recording it again changes nothing for its own.
  pub record_connector_lem :
      (state : AppState json State) (org name : String)
      → state.connectors.poisoned ≡ false
      → ((other : String)
          → (org == other) ≡ false
          → org_connectors (record_connector state org name) other ≡ org_connectors state other)
        × (org_connectors (record_connector (record_connector state org name) org name) org
            ≡ org_connectors (record_connector state org name) org)
        × (any (λ c. c == name) (org_connectors (record_connector state org name) org) ≡ true)
  unfolding record_connector
  record_connector_lem state org name healthy =
      let once = connectors_after state org name healthy in
      let twice =
        connectors_after (record_connector state org name) org name
          (still_healthy state org name healthy) in
      (
        λ other e. once other ∙ rw e refl,
        twice org
            ∙ rw (==_refl org) refl
            ∙ ap (λ l. add_name l name) (once org ∙ rw (==_refl org) refl)
            ∙ add_name-again (org_connectors state org) name
            ∙ sym (once org ∙ rw (==_refl org) refl),
        rw (once org, ==_refl org) (any-add_name (org_connectors state org) name),
      )
