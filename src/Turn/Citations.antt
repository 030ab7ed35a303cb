-- ===== src/Turn/Citations.antt =====
-- Citations (rust/smooth-operator/src/domain.rs; `collect_citations` of
-- rust/smooth-operator/src/runtime.rs, with its copy in rust/smooth-operator-server/src/runner.rs).
use Prim.Native.String.{◌++◌}
use mathlib.Core.List
use text.Mathlib.TextLemmas.{cons-append}
use text.Mathlib.TextEquality.{eq_iff}
use smooth_agent.Base.{
  ℕ, zero, suc, ◌≤◌, ◌+◌, String, Bool, true, false, Option, none, some, List, [], ◌∷◌, ◌≡◌, refl,
  arith, string_eq, ◌==◌, length, take, map, contains, Distinct, leb, min, ◌||◌, if◌then◌else◌,
  Bool-cases, inl, inr, length-take, ap,
}
use smooth_agent.Base.Text.{chars}
use smooth_agent.Base.Sets.{set_insert, contains-set_insert}
use smooth_agent.Engine.{KnowledgeResult}

pub record Citation (Score : Type 0) : Type 0 where
  pub id : String
  pub title : String
  pub url : Option String
  pub snippet : String
  pub score : Score

abbrev pub citation_snippet_max_chars : ℕ
citation_snippet_max_chars = 280

abbrev pub max_citations : ℕ
max_citations = 8

-- `source.starts_with(prefix)`
unfoldable pub starts_with : String → String → Bool
starts_with source String.[] = true
starts_with String.[] (String.◌∷◌ p prefix) = false
starts_with (String.◌∷◌ c source) (String.◌∷◌ p prefix) =
    let rest = starts_with source prefix in
    if String.◌∷◌ c String.[] == String.◌∷◌ p String.[] then rest else false

unfoldable pub web_url : String → Option String
unfolding starts_with
web_url source =
    if starts_with source "http://" || starts_with source "https://" then some source else none

-- `text.chars().take(max)`
unfoldable pub take_chars : ℕ → String → String
take_chars zero text = String.[]
take_chars (suc n) String.[] = String.[]
take_chars (suc n) (String.◌∷◌ c text) = String.◌∷◌ c (take_chars n text)

unfoldable pub truncate_snippet : String → ℕ → String
unfolding take_chars
truncate_snippet text max = if leb (chars text) max then text else take_chars max text ++ "…"

module _ {Score : Type 0} where
  unfoldable pub from_knowledge_result : KnowledgeResult Score → Citation Score
  unfolding web_url truncate_snippet
  from_knowledge_result result = record {
    id = result.document_id;
    title = result.source;
    url = web_url result.source;
    snippet = truncate_snippet result.chunk citation_snippet_max_chars;
    score = result.score;
  }

  -- The `filter` with its set of the ids that it has seen.
  unfoldable pub first_seen :
      List String → List (KnowledgeResult Score) → List (KnowledgeResult Score)
  first_seen seen [] = []
  first_seen seen (r ∷ rs) =
      let rest = first_seen (set_insert seen r.document_id) rs in
      if contains seen r.document_id then rest else r ∷ rest

  unfoldable pub collect_citations :
      List (KnowledgeResult Score) → List (KnowledgeResult Score) → List (Citation Score)
  unfolding first_seen from_knowledge_result
  collect_citations auto tool =
      map from_knowledge_result (take max_citations (first_seen [] (List.◌++◌ auto tool)))

  abbrev pub sources : List (KnowledgeResult Score) → List String
  sources rs = map (λ r. r.document_id) rs

  first_seen-sources :
      (seen : List String) (rs : List (KnowledgeResult Score)) (id : String)
      → contains (sources (first_seen seen rs)) id
        ≡ (if contains seen id then false else contains (sources rs) id)
  unfolding first_seen
  first_seen-sources seen [] id = ground arith
  first_seen-sources seen (r ∷ rs) id = ground (
    arith,
    eq_iff r.document_id id,
    contains-set_insert seen r.document_id id,
    first_seen-sources (set_insert seen r.document_id) rs id,
  )

  first_seen-Distinct :
      (seen : List String) (rs : List (KnowledgeResult Score))
      → Distinct (sources (first_seen seen rs))
  unfolding first_seen
  first_seen-Distinct seen [] = tt
  first_seen-Distinct seen (r ∷ rs) = ground (
    arith,
    eq_iff r.document_id r.document_id,
    contains-set_insert seen r.document_id r.document_id,
    first_seen-sources (set_insert seen r.document_id) rs r.document_id,
    first_seen-Distinct (set_insert seen r.document_id) rs,
  )

  contains-take :
      (n : ℕ) (rs : List (KnowledgeResult Score)) (id : String)
      → contains (sources rs) id ≡ false
      → contains (sources (take n rs)) id ≡ false
  contains-take zero rs id h = refl
  contains-take (suc n) [] id h = refl
  contains-take (suc n) (r ∷ rs) id h = ground (arith, contains-take n rs id)

  take-Distinct :
      (n : ℕ) (rs : List (KnowledgeResult Score))
      → Distinct (sources rs)
      → Distinct (sources (take n rs))
  take-Distinct zero rs d = tt
  take-Distinct (suc n) [] d = tt
  take-Distinct (suc n) (r ∷ rs) d = (contains-take n rs r.document_id d.0, take-Distinct n rs d.1)

  cited_ids :
      (rs : List (KnowledgeResult Score))
      → map (λ c. c.id) (map from_knowledge_result rs) ≡ sources rs
  unfolding from_knowledge_result
  cited_ids [] = refl
  cited_ids (r ∷ rs) = ap (λ l. r.document_id ∷ l) (cited_ids rs)

  length-cited :
      (rs : List (KnowledgeResult Score)) → length (map from_knowledge_result rs) ≡ length rs
  length-cited [] = refl
  length-cited (r ∷ rs) = ap suc (length-cited rs)

  -- No document is cited twice in a turn, and there are at most eight citations, whatever the
  -- automatic context and the tool calls found.
  pub collect_citations-Distinct :
      (auto tool : List (KnowledgeResult Score))
      → Distinct (map (λ c. c.id) (collect_citations auto tool))
        × (length (collect_citations auto tool) ≤ max_citations)
  unfolding collect_citations
  collect_citations-Distinct auto tool =
      let found = first_seen [] (List.◌++◌ auto tool) in
      (
        rw (cited_ids (take max_citations found))
            (take-Distinct max_citations found (first_seen-Distinct [] (List.◌++◌ auto tool))),
        rw (length-cited (take max_citations found), length-take max_citations found) (omega arith),
      )

chars-append_one : (s : String) → chars (s ++ "…") ≡ chars s + 1
chars-append_one String.[] = refl
chars-append_one (String.◌∷◌ c s) = rw (cons-append c s "…", chars-append_one s) (omega arith)

chars-take_chars : (n : ℕ) (s : String) → chars (take_chars n s) ≡ min n (chars s)
unfolding take_chars
chars-take_chars zero s = omega arith
chars-take_chars (suc n) String.[] = omega arith
chars-take_chars (suc n) (String.◌∷◌ c s) = rw (chars-take_chars n s) (omega arith)

-- A snippet has as many characters as its text, or, where that is longer than the limit, one more
-- than the limit, for the ellipsis.
pub chars-truncate_snippet :
    (text : String) (max : ℕ)
    → chars (truncate_snippet text max) ≡ (if leb (chars text) max then chars text else max + 1)
unfolding truncate_snippet
chars-truncate_snippet text max = elim (Bool-cases (leb (chars text) max)) [
  | inl e ↦ rw e refl
  | inr e ↦
      rw e (rw (chars-append_one (take_chars max text), chars-take_chars max text) (ground arith))
]
