-- ===== src/Curation/Filter.antt =====
-- `RetrievalFilter`, and what it means for a document to match.
use smooth_agent.Base.{
  String, Bool, true, false, Option, none, some, List, [], ◌∷◌, ◌&&◌, ◌≡◌, ◌↔◌, refl, arith, any,
  all, null, ◌==◌, string_eq, if◌then◌else◌, All, Memᴰ, any-true, any_of_mem, Bool-cases, inl, inr,
  ==_refl,
}
use text.Mathlib.TextEquality.{eq_iff}
use smooth_agent.Base.Dict.{Dict, get, insert}
use smooth_agent.Curation.Meta.{DocMeta, in_set}

pub record RetrievalFilter : Type 0 where
  pub document_sets : Option (List String)
  pub metadata_eq : Dict String String

-- `RetrievalFilter::none()`
abbrev pub no_filter : RetrievalFilter
no_filter = record { document_sets = none; metadata_eq = [] }

abbrev pub in_sets : List String → RetrievalFilter
in_sets sets = record { document_sets = some sets; metadata_eq = [] }

unfoldable pub with_metadata_eq : RetrievalFilter → String → String → RetrievalFilter
with_metadata_eq f key value = record f { metadata_eq = insert f.metadata_eq key value }

abbrev pub is_none : {A : Type 0} → Option A → Bool
is_none none = true
is_none (some a) = false

unfoldable pub is_unconstrained : RetrievalFilter → Bool
is_unconstrained f = is_none f.document_sets && null f.metadata_eq

-- The scope test, on the sets of the filter.
abbrev pub in_scope : Option (List String) → List String → Bool
in_scope none document_sets = true
in_scope (some sets) document_sets = any (λ s. in_set document_sets s) sets

-- `is_some_and(|mv| mv == v)`
abbrev pub holds : Option String → String → Bool
holds none v = false
holds (some mv) v = mv == v

-- A document is in scope if the filter names no sets, or one that the document is in.
pub data InScope : Option (List String) → List String → Type 0 where
  unscoped : (sets : List String) → InScope none sets
  shared :
      (wanted sets : List String) (s : String)
      → Memᴰ s wanted
      → Memᴰ s sets
      → InScope (some wanted) sets

in_set→mem : (sets : List String) (s : String) → in_set sets s ≡ true → Memᴰ s sets
in_set→mem sets s h = let (x, m, q) = any-true (λ x. x == s) sets h in rw ((eq_iff x s).0 q) at m

in_scope→InScope :
    (o : Option (List String)) (sets : List String) → in_scope o sets ≡ true → InScope o sets
in_scope→InScope none sets h = unscoped sets
in_scope→InScope (some wanted) sets h =
    let (s, m, q) = any-true (λ s. in_set sets s) wanted h in
    shared wanted sets s m (in_set→mem sets s q)

InScope→in_scope :
    (o : Option (List String)) (sets : List String) → InScope o sets → in_scope o sets ≡ true
InScope→in_scope none sets h = refl
InScope→in_scope (some wanted) sets (shared _ _ s m k) =
    any_of_mem (λ s. in_set sets s) m (any_of_mem (λ x. x == s) k (==_refl s))

holds→eq : (o : Option String) (v : String) → holds o v ≡ true → o ≡ some v
holds→eq none v h = cc
holds→eq (some mv) v h = ground (arith, eq_iff mv v)

all→All :
    (metadata : Dict String String) (es : Dict String String)
    → all (λ e. holds (get metadata e.0) e.1) es ≡ true
    → All (λ e. get metadata e.0 ≡ some e.1) es
all→All metadata [] h = tt
all→All metadata ((k, v) ∷ es) h = elim (Bool-cases (holds (get metadata k) v)) [
  | inl q ↦ (holds→eq (get metadata k) v q, all→All metadata es (rw q at h))
  | inr q ↦ absurd (cc (rw q at h))
]

All→all :
    (metadata : Dict String String) (es : Dict String String)
    → All (λ e. get metadata e.0 ≡ some e.1) es
    → all (λ e. holds (get metadata e.0) e.1) es ≡ true
All→all metadata [] h = refl
All→all metadata ((k, v) ∷ es) h = rw (h.0) (rw (==_refl v) (All→all metadata es h.1))

module _ {Score : Type 0} where
  unfoldable pub matches : RetrievalFilter → DocMeta Score → Bool
  matches f meta =
      if in_scope f.document_sets meta.document_sets
      then all (λ e. holds (get meta.metadata e.0) e.1) f.metadata_eq
      else false

  pub record Matches (f : RetrievalFilter) (meta : DocMeta Score) : Type 0 where
    pub scope : InScope f.document_sets meta.document_sets
    pub equalities : All (λ e. get meta.metadata e.0 ≡ some e.1) f.metadata_eq

  -- A filter passes a document exactly when the filter names no sets or one of the document's, and
  -- the document's metadata has every key of the filter with the required value.
  pub matches_iff :
      (f : RetrievalFilter) (meta : DocMeta Score) → (matches f meta ≡ true) ↔ Matches f meta
  unfolding matches
  matches_iff f meta = (
    λ h. elim (Bool-cases (in_scope f.document_sets meta.document_sets)) [
      | inl s ↦ record {
        scope = in_scope→InScope f.document_sets meta.document_sets s;
        equalities = all→All meta.metadata f.metadata_eq (rw s at h);
      }
      | inr s ↦ absurd (cc (rw s at h))
    ],
    λ m.
        rw (InScope→in_scope f.document_sets meta.document_sets m.scope)
          (All→all meta.metadata f.metadata_eq m.equalities),
  )
