-- ===== src/Access/Tests.antt =====
-- Runs of the access-controlled store on small inputs.
use smooth_agent.Base.{
  ℕ, String, true, false, none, some, List, [], ◌∷◌, ◌≡◌, ◌≢◌, ◌↔◌, refl, All, string_eq, ◌==◌,
  if◌then◌else◌,
}
use smooth_agent.Base.Dict.{Dict, get, insert}
use smooth_agent.Base.Outcome.{ok}
use smooth_agent.Engine.{KnowledgeResult}
use smooth_agent.Engine.Toy.{toy_documents, toy_base, entry}
use smooth_agent.Access.Acl.{DocAcl, AclJson, for_users, for_user, from_metadata, can_access}
use smooth_agent.Access.Store.{
  AclKnowledgeStore, ingest, reader_query, new, candidate_count, is_allowed,
}
use smooth_agent.Access.Entitlement.{Entitled, can_access_iff}
use smooth_agent.Access.Reader.{Readable, reader_query-Readable}
use smooth_agent.Access.Recording.{ingest-confidential}

abbrev alices : DocAcl
alices = for_users ("alice" ∷ [])

-- A codec that knows one list.
abbrev codec : AclJson
codec = record {
  to_string = λ acl. "alice";
  from_str = λ raw. if raw == "alice" then some alices else none;
}

abbrev memo : String × Dict String String
memo = ("memo", ("acl_v2", "alice") ∷ [])

abbrev start : AclKnowledgeStore (List (KnowledgeResult ℕ))
start = new toy_documents toy_base codec []

-- The store after the restricted memo and an open note.
abbrev filled : AclKnowledgeStore (List (KnowledgeResult ℕ))
filled = record {
  inner = entry "memo" 0 ∷ entry "note" 1 ∷ [];
  acls = record { poisoned = false; content = ("memo", alices) ∷ [] };
}

program : Unit {0}
unfolding ingest reader_query is_allowed can_access candidate_count get insert from_metadata
program = tt

abbrev after_memo : AclKnowledgeStore (List (KnowledgeResult ℕ))
unfolding insert ingest get from_metadata
after_memo = (ingest toy_documents toy_base codec start memo).1

filled_run : (ingest toy_documents toy_base codec after_memo ("note", [])).1 ≡ filled
unfolding program
filled_run = refl

bob_reads :
    reader_query toy_documents toy_base filled (for_user "bob") "" 5 ≡ ok (entry "note" 1 ∷ [])
unfolding program
bob_reads = refl

alice_reads :
    reader_query toy_documents toy_base filled (for_user "alice") "" 1 ≡ ok (entry "memo" 0 ∷ [])
unfolding program
alice_reads = refl

bob_is_refused : ¬ (Entitled (for_user "bob") alices)
unfolding program
bob_is_refused e = cc ((can_access_iff (for_user "bob") alices).1 e)

can_access_iff_example :
    (can_access (for_user "alice") alices ≡ true) ↔ Entitled (for_user "alice") alices
can_access_iff_example = can_access_iff (for_user "alice") alices

reader_query-Readable_example :
    All (λ r. Readable filled.acls.content (for_user "bob") r.document_id) (entry "note" 1 ∷ [])
reader_query-Readable_example =
    reader_query-Readable toy_documents toy_base filled (for_user "bob") "" 5 (entry "note" 1 ∷ [])
      bob_reads

ingest-confidential_example : All (λ r. r.document_id ≢ "memo") (entry "note" 1 ∷ [])
unfolding program
ingest-confidential_example =
    ingest-confidential toy_documents toy_base codec
      (record { inner = entry "note" 1 ∷ []; acls = record { poisoned = false; content = [] } })
      memo (for_user "bob") alices "" 5 (entry "note" 1 ∷ []) refl refl bob_is_refused refl
