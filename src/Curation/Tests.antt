-- ===== src/Curation/Tests.antt =====
-- Runs of the curated store on small inputs. The float is a number, with a codec for one value.
use smooth_agent.Base.{
  ℕ, ◌*◌, ◌≤◌, ◌⊎◌, String, true, false, none, some, List, [], ◌∷◌, ◌≡◌, ◌↔◌, refl, arith, All,
  Memᴰ, string_eq, leb, length, if◌then◌else◌, ◌==◌,
}
use smooth_agent.Base.Dict.{get, insert}
use smooth_agent.Base.Sort.{sort_by, IsSorted}
use smooth_agent.Base.Text.{trim, split, join}
use smooth_agent.Base.Outcome.{ok, new_lock}
use smooth_agent.Engine.{KnowledgeResult}
use smooth_agent.Engine.Toy.{toy_documents, toy_base, entry}
use smooth_agent.Access.Acl.{DocAcl, AclJson, for_user, for_users, can_access}
use smooth_agent.Access.Acl
use smooth_agent.Access.Store.{candidate_count, is_allowed}
use smooth_agent.Access.Reader.{Readable}
use smooth_agent.Curation.Meta.{
  FloatOps, DocMeta, parse_sets, parse_boost, from_metadata, with_document_set, with_boost,
}
use smooth_agent.Curation.Filter.{in_sets, matches, Matches, matches_iff}
use smooth_agent.Curation.Store.{
  CuratedKnowledgeStore, ingest, reader_query, keep, meta_of, boosted, ranked_before,
}
use smooth_agent.Curation.Ranking.{Admitted, reader_query-Admitted, reader_query-best}
use smooth_agent.Curation.Stamps.{parse_sets-with_document_set}

abbrev numbers : FloatOps ℕ
numbers = record {
  one = 1;
  mul = ◌*◌;
  floor_zero = λ b. b;
  is_finite = λ b. true;
  parse = λ raw. if raw == "3" then some 3 else none;
  format = λ b. "3";
  total_leb = leb;
}

abbrev codec : AclJson
codec = record { to_string = λ acl. "alice"; from_str = λ raw. some (for_users ("alice" ∷ [])) }

abbrev tagged : List String → ℕ → DocMeta ℕ
tagged sets boost = record { document_sets = sets; boost = boost; metadata = [] }

-- A note, a boosted readme and a secret of one set, and a document of no set.
abbrev shelf : CuratedKnowledgeStore (List (KnowledgeResult ℕ)) ℕ
shelf = record {
  inner = entry "note" 2 ∷ entry "secret" 9 ∷ entry "stray" 8 ∷ entry "readme" 1 ∷ [];
  meta = new_lock (
      ("note", tagged ("docs" ∷ []) 1)
      ∷ ("secret", tagged ("docs" ∷ []) 1)
      ∷ ("readme", tagged ("docs" ∷ []) 3)
      ∷ []);
  acls = new_lock (("secret", for_users ("alice" ∷ [])) ∷ []);
}

program : Unit {0}
unfolding reader_query keep matches is_allowed can_access candidate_count get insert sort_by ingest
    parse_sets parse_boost from_metadata with_document_set with_boost trim split join
    Acl.from_metadata
program = tt

abbrev bobs : List (KnowledgeResult ℕ)
bobs = entry "readme" 3 ∷ entry "note" 2 ∷ []

bob_reads :
    reader_query toy_documents toy_base numbers shelf (in_sets ("docs" ∷ [])) (for_user "bob") "" 5
    ≡ ok bobs
unfolding program
bob_reads = refl

matches_iff_example :
    (matches (in_sets ("docs" ∷ [])) (tagged ("docs" ∷ []) 1) ≡ true)
    ↔ Matches (in_sets ("docs" ∷ [])) (tagged ("docs" ∷ []) 1)
matches_iff_example = matches_iff (in_sets ("docs" ∷ [])) (tagged ("docs" ∷ []) 1)

reader_query-Admitted_example :
    All
      (Admitted numbers shelf.meta.content shelf.acls.content
        (in_sets ("docs" ∷ []))
        (for_user "bob")
        shelf.inner)
      bobs
unfolding program
reader_query-Admitted_example =
    reader_query-Admitted toy_documents toy_base numbers shelf (in_sets ("docs" ∷ []))
      (for_user "bob") "" 5 bobs shelf.inner (omega arith) refl refl

leb_total : (a b : ℕ) → leb a b ≡ false → leb b a ≡ true
leb_total a b h = ground arith

leb_trans : (a b c : ℕ) → leb a b ≡ true → leb b c ≡ true → leb a c ≡ true
leb_trans a b c h k = ground arith

reader_query-best_example :
    IsSorted (ranked_before numbers) bobs
    × (length bobs ≤ 5)
    × ((c : KnowledgeResult ℕ)
        → Memᴰ c shelf.inner
        → Readable shelf.acls.content (for_user "bob") c.document_id
        → Matches (in_sets ("docs" ∷ [])) (meta_of numbers shelf.meta.content c.document_id)
        → Memᴰ (boosted numbers (meta_of numbers shelf.meta.content c.document_id) c) bobs
          ⊎ All
              (λ r.
                ranked_before numbers r
                  (boosted numbers (meta_of numbers shelf.meta.content c.document_id) c)
                ≡ true)
              bobs
            × (length bobs ≡ 5))
unfolding program
reader_query-best_example =
    reader_query-best toy_documents toy_base numbers shelf (in_sets ("docs" ∷ [])) (for_user "bob")
      "" 5 bobs shelf.inner (omega arith) refl refl leb_total leb_trans

parse_sets-with_document_set_example :
    parse_sets (
      toy_documents.metadata
        (with_document_set toy_documents ("d", []) ("hr " ∷ " " ∷ "docs" ∷ [])))
    ≡ "hr" ∷ "docs" ∷ []
unfolding program
parse_sets-with_document_set_example =
    parse_sets-with_document_set toy_documents ("d", []) ("hr " ∷ " " ∷ "docs" ∷ [])
      ((refl, (refl, (refl, tt))), ((refl, tt), ((refl, (refl, (refl, (refl, tt)))), tt))) (λ e. cc)
