-- ===== src/Search/Rerank.antt =====
-- The rerankers and the optional stage of rust/smooth-operator/src/rerank.rs. The tables of Unicode,
-- `f32`, and the order in which a hash set is walked come as a parameter.
use Prim.Native.Char.{Char}
use smooth_agent.Base.{
  ℕ, ◌||◌, String, Bool, Option, none, some, List, [], ◌∷◌, string_eq, ◌==◌, length, take, map,
  filter, null, not, nat_eqb, if◌then◌else◌,
}
use smooth_agent.Base.Text.{is_empty, push_front}
use smooth_agent.Base.Sets.{set_insert}
use smooth_agent.Base.Sort.{sort_by}
use smooth_agent.Engine.{KnowledgeResult}

pub record Lexicon : Type 1 where
  pub F32 : Type 0
  pub zero_f32 : F32
  pub one_f32 : F32
  pub from_usize : ℕ → F32
  pub ln : F32 → F32
  pub add : F32 → F32 → F32
  pub div : F32 → F32 → F32
  -- `a.partial_cmp(&b)` is not `Greater`, where no order counts as `Equal`.
  pub not_greater : F32 → F32 → Bool
  pub to_lowercase : String → String
  pub is_alphanumeric : Char → Bool
  -- The elements of a hash set in the order of its iteration.
  pub walk : List String → List String

-- `text.split(|c| !c.is_alphanumeric())`
unfoldable pub split_where : (Char → Bool) → String → List String
split_where keep String.[] = "" ∷ []
split_where keep (String.◌∷◌ c text) =
    let rest = split_where keep text in if keep c then push_front c rest else "" ∷ rest

-- A list's elements as a hash set.
unfoldable pub as_set : List String → List String
as_set [] = []
as_set (t ∷ ts) = set_insert (as_set ts) t

abbrev pub occurrences : String → List String → ℕ
occurrences term tokens = length (filter (λ t. t == term) tokens)

module _ (lex : Lexicon) where
  open lex use {
    F32, zero_f32, one_f32, from_usize, ln, add, div, not_greater, to_lowercase, is_alphanumeric,
    walk,
  }

  unfoldable pub tokenize : String → List String
  tokenize text = filter (λ t. not (is_empty t)) (split_where is_alphanumeric (to_lowercase text))

  -- The loop over the query's terms, with the sum so far.
  unfoldable pub summed : F32 → F32 → List String → F32 → List String → F32
  summed k1 length_penalty chunk_tokens score [] = score
  summed k1 length_penalty chunk_tokens score (term ∷ terms) =
      let n = occurrences term chunk_tokens in
      let count = from_usize n in
      let more = add score (div (div count (add count k1)) length_penalty) in
      let counted = summed k1 length_penalty chunk_tokens more terms in
      let skipped = summed k1 length_penalty chunk_tokens score terms in
      if nat_eqb n 0 then skipped else counted

  unfoldable pub lexical_score : F32 → List String → String → F32
  unfolding summed tokenize
  lexical_score k1 query_terms chunk =
      let chunk_tokens = tokenize chunk in
      if null chunk_tokens
      then zero_f32
      else summed k1 (add one_f32 (ln (add one_f32 (from_usize (length chunk_tokens)))))
          chunk_tokens zero_f32 (walk query_terms)

  -- `NoopReranker`, `LexicalReranker`, and a host's own.
  pub data Reranker (Score : Type 0) : Type 0 where
    noop : Reranker Score
    lexical : F32 → Reranker Score
    host :
        (String → List (KnowledgeResult Score) → ℕ → List (KnowledgeResult Score)) → Reranker Score

  module _ {Score : Type 0} where
    -- `b.0.partial_cmp(&a.0)`: the higher score first.
    abbrev pub scored_before : (F32 × KnowledgeResult Score) → (F32 × KnowledgeResult Score) → Bool
    scored_before a b = not_greater b.0 a.0

    unfoldable pub lexical_rerank :
        F32 → String → List (KnowledgeResult Score) → ℕ → List (KnowledgeResult Score)
    unfolding lexical_score
    lexical_rerank k1 query candidates top_k =
        if null candidates || nat_eqb top_k 0
        then []
        else let query_terms = as_set (tokenize query) in
          let scored = map (λ c. (lexical_score k1 query_terms c.chunk, c)) candidates in
          map (λ s. s.1) (take top_k (sort_by scored_before scored))

    unfoldable pub rerank :
        Reranker Score → String → List (KnowledgeResult Score) → ℕ → List (KnowledgeResult Score)
    unfolding lexical_rerank
    rerank noop query candidates top_k = take top_k candidates
    rerank (lexical k1) query candidates top_k = lexical_rerank k1 query candidates top_k
    rerank (host f) query candidates top_k = f query candidates top_k

    unfoldable pub apply_optional_rerank :
        Option (Reranker Score)
        → String
        → List (KnowledgeResult Score)
        → ℕ
        → List (KnowledgeResult Score)
    unfolding rerank
    apply_optional_rerank none query candidates top_k = take top_k candidates
    apply_optional_rerank (some r) query candidates top_k = rerank r query candidates top_k
