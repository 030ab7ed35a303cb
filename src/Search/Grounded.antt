-- ===== src/Search/Grounded.antt =====
-- What a search of the knowledge base through a reader can surface.
use mathlib.Core.List.{Perm, foldr}
use mathlib.Core.Bool.{Bool-set}
use mathlib.Core.Path.{subst}
use mathlib.Core.List.Perm
use smooth_agent.Base.{
  ℕ, ◌≤◌, ◌<◌, String, Bool, true, Option, none, some, List, [], ◌∷◌, ◌≡◌, refl, ap, ◌∙◌, sym,
  arith, string_eq, length, All, All-take, All-imp, All-append, all, ◌&&◌, length-take, inl, inr,
  Bool-cases, Option-cases,
}
use smooth_agent.Base.Outcome.{Outcome, ok, >>=-eq-ok, Lock, Outcome-cases}
use smooth_agent.Json.{Json, str_field, u64_field}
use smooth_agent.Engine.{KnowledgeResult, Documents, KnowledgeBase}
use smooth_agent.Access.Acl.{AccessContext}
use smooth_agent.Access.Store.{AclKnowledgeStore, reader_query, is_allowed}
use smooth_agent.Access.Reader.{Readable, Readable→is_allowed, reader_query-Readable}
use smooth_agent.Search.Rerank.{Lexicon, Reranker, apply_optional_rerank}
use smooth_agent.Search.Reordering.{Selected, KeepsContract, apply_optional_rerank-Selected}
use smooth_agent.Search.Tool.{
  Display, KnowledgeSearchTool, clamped_limit, fetch_count, recorded, search_results,
  execute_search, execute, extend_sink,
}

module _ {A : Type 0} (p : A → Bool) where
  all-foldr : (xs : List A) → all p xs ≡ foldr (λ x b. p x && b) true xs
  all-foldr [] = refl
  all-foldr (x ∷ xs) = ap (λ b. p x && b) (all-foldr xs)

  all-Perm : (xs ys : List A) → Perm xs ys → all p xs ≡ all p ys
  all-Perm xs ys r =
      all-foldr xs
      ∙ Perm.foldr-eq Bool-set (λ x b. p x && b) (λ a b x. ground arith) r true
      ∙ sym (all-foldr ys)

  all→All : (xs : List A) → all p xs ≡ true → All (λ x. p x ≡ true) xs
  all→All [] h = tt
  all→All (x ∷ xs) h = (ground arith, all→All xs (ground arith))

  All→all : (xs : List A) → All (λ x. p x ≡ true) xs → all p xs ≡ true
  All→all [] h = refl
  All→all (x ∷ xs) h = let rest = All→all xs h.1 in ground arith

  -- What a test finds of all candidates, it finds of what is selected from them.
  pub All-Selected :
      (candidates out : List A) (top_k : ℕ)
      → Selected candidates out top_k
      → All (λ x. p x ≡ true) candidates
      → All (λ x. p x ≡ true) out
  All-Selected candidates out top_k sel h = subst (All (λ x. p x ≡ true)) (sym sel.first) (
      All-take (λ x. p x ≡ true) top_k sel.order
        (all→All sel.order (all-Perm sel.order candidates sel.reordered ∙ All→all candidates h)))

length-Selected :
    {A : Type 0} (candidates out : List A) (top_k : ℕ) {selected : List A}
    → Selected candidates selected top_k
    → out ≡ selected
    → length out ≤ top_k
length-Selected candidates out top_k sel e =
    let cut = ap length (e ∙ sel.first) ∙ length-take top_k sel.order in omega (arith, cut)

pub clamped_limit_bounds : (o : Option ℕ) → (0 < clamped_limit o) × (clamped_limit o ≤ 10)
clamped_limit_bounds none = (omega arith, omega arith)
clamped_limit_bounds (some n) = (omega arith, omega arith)

module _ (lex : Lexicon) (docs : Documents) {Score : Type 0}
    (kb : KnowledgeBase docs.Document Score) (s : AclKnowledgeStore kb.State)
    (ctx : AccessContext) where
  -- The requester may read every document of a list.
  abbrev pub AllAllowed : List (KnowledgeResult Score) → Type 0
  AllAllowed = All (λ r. is_allowed s.acls.content ctx r.document_id ≡ true)

  -- The tool reads through the requester's reader.
  abbrev pub ReadsAs : KnowledgeSearchTool lex Score → Type 0
  ReadsAs tool =
      (query : String) (limit : ℕ)
      → tool.knowledge query limit ≡ reader_query docs kb s ctx query limit

  pub search_results-Allowed :
      (tool : KnowledgeSearchTool lex Score) (query : String) (limit : ℕ)
      (out : List (KnowledgeResult Score))
      → ReadsAs tool
      → KeepsContract lex tool.reranker
      → search_results tool query limit ≡ ok out
      → AllAllowed out × (length out ≤ limit)
  unfolding search_results
  search_results-Allowed tool query limit out reads keeps h =
      let (cands, q, e) =
        >>=-eq-ok (tool.knowledge query (fetch_count tool.reranker limit))
          (λ c. ok (apply_optional_rerank lex tool.reranker query c limit)) h in
      let sel = (apply_optional_rerank-Selected lex tool.reranker query cands limit keeps).0 in
      let got : apply_optional_rerank lex tool.reranker query cands limit ≡ out = ground arith in
      let readable =
        reader_query-Readable docs kb s ctx query (fetch_count tool.reranker limit) cands
          (sym (reads query (fetch_count tool.reranker limit)) ∙ q) in
      (
        subst AllAllowed got (
            All-Selected (λ r. is_allowed s.acls.content ctx r.document_id) cands _ limit sel
              (All-imp (λ r. Readable s.acls.content ctx r.document_id) _
                (λ r. Readable→is_allowed s.acls.content ctx r.document_id) cands readable)),
        length-Selected cands out limit sel (sym got),
      )

  -- What the tool has recorded so far is readable by the requester.
  abbrev pub IsClean : KnowledgeSearchTool lex Score → Type 0
  IsClean tool = elim tool.result_sink [ none ↦ Unit | some sink ↦ AllAllowed sink.content ]

  recorded-IsClean :
      (knowledge : String → ℕ → Outcome (List (KnowledgeResult Score)))
      (r : Option (Reranker lex Score)) (sink : Option (Lock (List (KnowledgeResult Score))))
      (out : List (KnowledgeResult Score))
      → IsClean (record { knowledge = knowledge; reranker = r; result_sink = sink })
      → AllAllowed out
      → IsClean (recorded (record { knowledge = knowledge; reranker = r; result_sink = sink }) out)
  unfolding extend_sink
  recorded-IsClean knowledge r none out clean allowed = tt
  recorded-IsClean knowledge r (some sink) out clean allowed = elim (Bool-cases sink.poisoned) [
    | inl e ↦ rw e clean
    | inr e ↦ rw e (All-append _ sink.content out clean allowed)
  ]

  -- Only the sink of a tool changes in a search.
  abbrev pub KeepsHandle : KnowledgeSearchTool lex Score → KnowledgeSearchTool lex Score → Type 0
  KeepsHandle tool after = (after.knowledge ≡ tool.knowledge) × (after.reranker ≡ tool.reranker)

  recorded-KeepsHandle :
      (knowledge : String → ℕ → Outcome (List (KnowledgeResult Score)))
      (r : Option (Reranker lex Score)) (sink : Option (Lock (List (KnowledgeResult Score))))
      (out : List (KnowledgeResult Score))
      → KeepsHandle
          (record { knowledge = knowledge; reranker = r; result_sink = sink })
          (recorded (record { knowledge = knowledge; reranker = r; result_sink = sink }) out)
  recorded-KeepsHandle knowledge r none out = (refl, refl)
  recorded-KeepsHandle knowledge r (some sink) out = (refl, refl)

  module _ (display : Display Score) (json : Json) where
    execute_search-IsClean :
        (tool : KnowledgeSearchTool lex Score) (query : String) (limit : ℕ)
        → ReadsAs tool
        → KeepsContract lex tool.reranker
        → IsClean tool
        → IsClean ((execute_search display tool query limit).1)
    unfolding execute_search
    execute_search-IsClean tool query limit reads keeps clean =
        elim (Outcome-cases (search_results tool query limit)) [
          | inl (out, e) ↦
              rw (execute_search, e)
                (recorded-IsClean tool.knowledge tool.reranker tool.result_sink out clean
                  (search_results-Allowed tool query limit out reads keeps e).0)
          | inr (m, e) ↦ rw (execute_search, e) clean
        ]

    execute_search-KeepsHandle :
        (tool : KnowledgeSearchTool lex Score) (query : String) (limit : ℕ)
        → KeepsHandle tool ((execute_search display tool query limit).1)
    unfolding execute_search
    execute_search-KeepsHandle tool query limit =
        elim (Outcome-cases (search_results tool query limit)) [
          | inl (out, e) ↦
              rw (execute_search, e)
                (recorded-KeepsHandle tool.knowledge tool.reranker tool.result_sink out)
          | inr (m, e) ↦ rw (execute_search, e) (refl, refl)
        ]

    -- A tool that reads through a requester's reader does so after every call, whatever its
    -- arguments are, and what it has recorded stays readable by the requester.
    pub execute-IsClean :
        (tool : KnowledgeSearchTool lex Score) (arguments : json.Value)
        → ReadsAs tool
        → KeepsContract lex tool.reranker
        → IsClean tool
        → IsClean ((execute display json tool arguments).1)
          × KeepsHandle tool ((execute display json tool arguments).1)
    unfolding execute
    execute-IsClean tool arguments reads keeps clean =
        elim (Option-cases (str_field json arguments "query")) [
          | inl e ↦ rw (execute, e) (clean, (refl, refl))
          | inr (query, e) ↦
              let limit = clamped_limit (u64_field json arguments "limit") in
              rw (execute, e)
                (
                  execute_search-IsClean tool query limit reads keeps clean,
                  execute_search-KeepsHandle tool query limit,
                )
        ]
