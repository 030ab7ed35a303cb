-- ===== src/Search/Reordering.antt =====
-- What a reranker can do to the candidates: reorder them and leave some out, nothing else.
use mathlib.Core.List.{Perm}
use mathlib.Core.List.Perm
use mathlib.Core.Path.{subst}
use smooth_agent.Base.{
  ℕ, zero, suc, String, Bool, true, false, Option, none, some, List, [], ◌∷◌, ◌≡◌, refl, ap, ◌∙◌,
  sym, arith, string_eq, take, map, null, nat_eqb, All, All-imp, Bool-cases, inl, inr,
}
use smooth_agent.Base.Sort.{place, sort_by, sort_by-perm}
use smooth_agent.Engine.{KnowledgeResult}
use smooth_agent.Search.Rerank.{
  Lexicon, tokenize, occurrences, summed, lexical_score, as_set, scored_before, lexical_rerank,
  Reranker, noop, lexical, host, apply_optional_rerank,
}

-- `out` is the beginning of a reordering of `candidates`, of at most `top_k` elements.
pub record Selected {A : Type 0} (candidates out : List A) (top_k : ℕ) : Type 0 where
  pub order : List A
  pub reordered : Perm order candidates
  pub first : out ≡ take top_k order

map-take : {A B : Type 0} (f : A → B) (n : ℕ) (xs : List A) → map f (take n xs) ≡ take n (map f xs)
map-take f zero xs = refl
map-take f (suc n) [] = refl
map-take f (suc n) (x ∷ xs) = ap (λ l. f x ∷ l) (map-take f n xs)

unscored :
    {F A : Type 0} (f : A → F) (xs : List A)
    → map (λ (s : F × A). s.1) (map (λ c. (f c, c)) xs) ≡ xs
unscored f [] = refl
unscored f (c ∷ cs) = ap (λ l. c ∷ l) (unscored f cs)

Selected-take : {A : Type 0} (xs : List A) (n : ℕ) → Selected xs (take n xs) n
Selected-take xs n = record { order = xs; reordered = Perm.refl xs; first = refl }

sorted-Selected :
    {F A : Type 0} (f : A → F) (le : (F × A) → (F × A) → Bool) (xs : List A) (n : ℕ)
    → Selected xs (map (λ s. s.1) (take n (sort_by le (map (λ c. (f c, c)) xs)))) n
sorted-Selected f le xs n =
    let scored = map (λ c. (f c, c)) xs in
    record {
      order = map (λ s. s.1) (sort_by le scored);
      reordered =
          subst (λ l. Perm (map (λ s. s.1) (sort_by le scored)) l) (unscored f xs)
            (Perm.map (λ s. s.1) (sort_by-perm le scored));
      first = map-take (λ s. s.1) n (sort_by le scored);
    }

take_nil : {A : Type 0} (n : ℕ) → take {A = A} n [] ≡ []
take_nil zero = refl
take_nil (suc n) = refl

place-first :
    {A : Type 0} (le : A → A → Bool) (x : A) (xs : List A)
    → All (λ y. le x y ≡ true) xs
    → place le x xs ≡ x ∷ xs
unfolding place
place-first le x [] h = refl
place-first le x (y ∷ ys) h = rw h.0 refl

module _ (lex : Lexicon) where
  -- A candidate in which no term of the query occurs scores zero.
  summed-silent :
      (k1 penalty : lex.F32) (tokens : List String) (score : lex.F32) (terms : List String)
      → All (λ t. occurrences t tokens ≡ 0) terms
      → summed lex k1 penalty tokens score terms ≡ score
  unfolding summed
  summed-silent k1 penalty tokens score [] h = refl
  summed-silent k1 penalty tokens score (t ∷ ts) h =
      rw h.0 (summed-silent k1 penalty tokens score ts h.1)

  silent_score :
      (k1 : lex.F32) (query : String) (chunk : String)
      → All (λ t. occurrences t (tokenize lex chunk) ≡ 0) (lex.walk (as_set (tokenize lex query)))
      → lexical_score lex k1 (as_set (tokenize lex query)) chunk ≡ lex.zero_f32
  unfolding lexical_score
  silent_score k1 query chunk h = elim (Bool-cases (null (tokenize lex chunk))) [
    | inl e ↦ rw e refl
    | inr e ↦ rw e (summed-silent k1 _ _ lex.zero_f32 _ h)
  ]

module _ (lex : Lexicon) {Score : Type 0} where
  -- What a host's reranker promises: the reranked candidates, cut to `top_k`.
  abbrev pub KeepsContract : Option (Reranker lex Score) → Type 0
  KeepsContract (some (host f)) =
      (query : String) (candidates : List (KnowledgeResult Score)) (top_k : ℕ)
      → Selected candidates (f query candidates top_k) top_k
  KeepsContract (some noop) = Unit
  KeepsContract (some (lexical k1)) = Unit
  KeepsContract none = Unit

  -- The positive case, without the test for an empty result.
  abbrev rescored :
      lex.F32 → String → List (KnowledgeResult Score) → List (lex.F32 × KnowledgeResult Score)
  rescored k1 query candidates =
      map (λ c. (lexical_score lex k1 (as_set (tokenize lex query)) c.chunk, c)) candidates

  lexical_rerank_cons :
      (k1 : lex.F32) (query : String) (c : KnowledgeResult Score)
      (cs : List (KnowledgeResult Score)) (n : ℕ)
      → lexical_rerank lex k1 query (c ∷ cs) (suc n)
        ≡ map (λ s. s.1) (take (suc n) (sort_by (scored_before lex) (rescored k1 query (c ∷ cs))))
  unfolding lexical_rerank
  lexical_rerank_cons k1 query c cs n =
      let positive : nat_eqb (suc n) 0 ≡ false = ground arith in rw (lexical_rerank, positive) refl

  lexical-Selected :
      (k1 : lex.F32) (query : String) (candidates : List (KnowledgeResult Score)) (top_k : ℕ)
      → Selected candidates (lexical_rerank lex k1 query candidates top_k) top_k
  unfolding lexical_rerank
  lexical-Selected k1 query [] top_k = record {
    order = [];
    reordered = Perm.refl [];
    first = sym (take_nil top_k);
  }
  lexical-Selected k1 query (c ∷ cs) zero = Selected-take (c ∷ cs) zero
  lexical-Selected k1 query (c ∷ cs) (suc n) =
      subst (λ out. Selected (c ∷ cs) out (suc n)) (sym (lexical_rerank_cons k1 query c cs n))
        (sorted-Selected (λ r. lexical_score lex k1 (as_set (tokenize lex query)) r.chunk)
          (scored_before lex) (c ∷ cs) (suc n))

  -- The optional stage reorders what was retrieved and cuts it to `top_k`: it adds no document,
  -- repeats none, and without a reranker keeps the order. A host's own reranker is taken to do so.
  pub apply_optional_rerank-Selected :
      (r : Option (Reranker lex Score)) (query : String) (candidates : List (KnowledgeResult Score))
      (top_k : ℕ)
      → KeepsContract r
      → Selected candidates (apply_optional_rerank lex r query candidates top_k) top_k
        × (r ≡ none → apply_optional_rerank lex r query candidates top_k ≡ take top_k candidates)
  unfolding apply_optional_rerank
  apply_optional_rerank-Selected none query candidates top_k k =
      (Selected-take candidates top_k, λ e. refl)
  apply_optional_rerank-Selected (some noop) query candidates top_k k =
      (Selected-take candidates top_k, λ e. refl)
  apply_optional_rerank-Selected (some (lexical k1)) query candidates top_k k =
      (lexical-Selected k1 query candidates top_k, λ e. cc)
  apply_optional_rerank-Selected (some (host f)) query candidates top_k k =
      (k query candidates top_k, λ e. cc)

  -- The candidates share no term with the query.
  abbrev pub IsSilent : String → List (KnowledgeResult Score) → Type 0
  IsSilent query = All (λ c.
      All (λ t. occurrences t (tokenize lex c.chunk) ≡ 0) (lex.walk (as_set (tokenize lex query))))

  sort_by-even :
      (xs : List (lex.F32 × KnowledgeResult Score))
      → lex.not_greater lex.zero_f32 lex.zero_f32 ≡ true
      → All (λ (s : lex.F32 × KnowledgeResult Score). s.0 ≡ lex.zero_f32) xs
      → sort_by (scored_before lex) xs ≡ xs
  unfolding sort_by
  sort_by-even [] z h = refl
  sort_by-even (x ∷ xs) z h = rw (sort_by-even xs z h.1) (
      place-first (scored_before lex) x xs (
        All-imp (λ (s : lex.F32 × KnowledgeResult Score). s.0 ≡ lex.zero_f32) _
          (λ s e. rw (e, h.0) z) xs h.1))

  silent_scores :
      (k1 : lex.F32) (query : String) (cs : List (KnowledgeResult Score))
      → IsSilent query cs
      → All
          (λ (s : lex.F32 × KnowledgeResult Score). s.0 ≡ lex.zero_f32)
          (map (λ c. (lexical_score lex k1 (as_set (tokenize lex query)) c.chunk, c)) cs)
  silent_scores k1 query [] h = tt
  silent_scores k1 query (c ∷ cs) h =
      (silent_score lex k1 query c.chunk h.0, silent_scores k1 query cs h.1)

  -- If no term of the query occurs in any candidate, the lexical reranker keeps the order of the
  -- retrieval, given that zero is not greater than itself.
  pub lexical_rerank-silent :
      (k1 : lex.F32) (query : String) (candidates : List (KnowledgeResult Score)) (top_k : ℕ)
      → lex.not_greater lex.zero_f32 lex.zero_f32 ≡ true
      → IsSilent query candidates
      → lexical_rerank lex k1 query candidates top_k ≡ take top_k candidates
  unfolding lexical_rerank
  lexical_rerank-silent k1 query [] top_k z h = sym (take_nil top_k)
  lexical_rerank-silent k1 query (c ∷ cs) zero z h = refl
  lexical_rerank-silent k1 query (c ∷ cs) (suc n) z h =
      lexical_rerank_cons k1 query c cs n
      ∙ map-take (λ (s : lex.F32 × KnowledgeResult Score). s.1) (suc n) _
      ∙ ap (λ l. take (suc n) (map (λ (s : lex.F32 × KnowledgeResult Score). s.1) l))
          (sort_by-even _ z (silent_scores k1 query (c ∷ cs) h))
      ∙ ap (take (suc n)) (unscored _ (c ∷ cs))
