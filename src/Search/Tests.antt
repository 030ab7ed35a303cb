-- ===== src/Search/Tests.antt =====
-- Searches of a small store.
use smooth_agent.Base.{ℕ, Option, none, some, List, [], ◌∷◌, ◌≡◌, refl, string_eq, take}
use smooth_agent.Base.Outcome.{new_lock}
use smooth_agent.Engine.{KnowledgeResult}
use smooth_agent.Engine.Toy.{entry, toy_base, toy_documents}
use smooth_agent.Access.Acl.{for_user, locked}
use smooth_agent.Access.Store.{AclKnowledgeStore, reader_query}
use smooth_agent.Search.Rerank.{Reranker, lexical, apply_optional_rerank, tokenize, split_where}
use smooth_agent.Search.Reordering.{Selected, apply_optional_rerank-Selected}
use smooth_agent.Search.Tool.{KnowledgeSearchTool}
use smooth_agent.Search.Toy.{toy_lexicon}

tokens : tokenize toy_lexicon "return policy" ≡ "return" ∷ "policy" ∷ []
unfolding tokenize split_where
tokens = refl

abbrev by_words : Option (Reranker toy_lexicon ℕ)
by_words = some (lexical 1)

apply_optional_rerank-Selected_example :
    Selected
      (entry "a" 1 ∷ entry "b" 2 ∷ [])
      (apply_optional_rerank toy_lexicon by_words "b" (entry "a" 1 ∷ entry "b" 2 ∷ []) 1)
      1
    × (by_words ≡ none
        → apply_optional_rerank toy_lexicon by_words "b" (entry "a" 1 ∷ entry "b" 2 ∷ []) 1
          ≡ take 1 (entry "a" 1 ∷ entry "b" 2 ∷ []))
apply_optional_rerank-Selected_example =
    apply_optional_rerank-Selected toy_lexicon by_words "b" (entry "a" 1 ∷ entry "b" 2 ∷ []) 1 tt

-- The first of two documents is nobody's.
abbrev store : AclKnowledgeStore (List (KnowledgeResult ℕ))
store = record { inner = entry "a" 1 ∷ entry "b" 2 ∷ []; acls = new_lock (("a", locked) ∷ []) }

abbrev anns : KnowledgeSearchTool toy_lexicon ℕ
anns = record {
  knowledge = reader_query toy_documents toy_base store (for_user "ann");
  reranker = none;
  result_sink = none;
}
