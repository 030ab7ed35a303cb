-- ===== src/Curation/Meta.antt =====
-- `DocMeta` and the builders that stamp it. `f32` is a type that is passed in with the operations
-- that the code uses.
use smooth_agent.Base.{
  String, Bool, not, Option, none, some, List, [], map, any, filter, ◌==◌, string_eq, if◌then◌else◌,
}
use smooth_agent.Base.Dict.{Dict, get}
use smooth_agent.Base.Text.{trim, split, join, is_empty}
use smooth_agent.Engine.{Documents}

-- The part of `f32` that curation uses: `total_leb a b` says that `a.total_cmp(&b)` is not `Greater`,
-- and `floor_zero` is `.max(0.0)`.
pub record FloatOps (Score : Type 0) : Type 0 where
  pub one : Score
  pub mul : Score → Score → Score
  pub floor_zero : Score → Score
  pub is_finite : Score → Bool
  pub parse : String → Option Score
  pub format : Score → String
  pub total_leb : Score → Score → Bool

pub record DocMeta (Score : Type 0) : Type 0 where
  pub document_sets : List String
  pub boost : Score
  pub metadata : Dict String String

abbrev pub document_set_key : String
document_set_key = "document_set"

abbrev pub boost_key : String
boost_key = "boost"

unfoldable pub parse_sets : Dict String String → List String
parse_sets metadata = elim (get metadata document_set_key) [
  | none ↦ []
  | some raw ↦ filter (λ s. not (is_empty s)) (map trim (split b',' raw))
]

-- `in_set`, on the sets of a document.
abbrev pub in_set : List String → String → Bool
in_set document_sets set = any (λ s. s == set) document_sets

-- The names that `with_document_set` keeps.
abbrev pub named : List String → List String
named sets = filter (λ s. not (is_empty (trim s))) sets

module _ (docs : Documents) where
  unfoldable pub with_document_set : docs.Document → List String → docs.Document
  with_document_set doc sets =
      let joined = join "," (named sets) in
      if is_empty joined then doc else docs.with_metadata doc document_set_key joined

module _ {Score : Type 0} (float : FloatOps Score) where
  abbrev pub finite_boost : Option Score → Score
  finite_boost none = float.one
  finite_boost (some b) = if float.is_finite b then float.floor_zero b else float.one

  unfoldable pub parse_boost : Dict String String → Score
  parse_boost metadata = elim (get metadata boost_key) [
    | none ↦ float.one
    | some raw ↦ finite_boost (float.parse (trim raw))
  ]

  unfoldable pub from_metadata : Dict String String → DocMeta Score
  from_metadata metadata = record {
    document_sets = parse_sets metadata;
    boost = parse_boost metadata;
    metadata = metadata;
  }

  -- What the reader takes for a document with no recorded metadata.
  abbrev pub unrecorded : DocMeta Score
  unrecorded = record { document_sets = []; boost = float.one; metadata = [] }

  unfoldable pub with_boost : (docs : Documents) → docs.Document → Score → docs.Document
  with_boost docs doc boost =
      docs.with_metadata doc boost_key
        (float.format (if float.is_finite boost then float.floor_zero boost else float.one))
