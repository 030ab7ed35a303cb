-- ===== src/Curation/Stamps.antt =====
-- What is stamped onto a document is what the store later knows of it.
use Prim.Native.Char.{Char}
use Prim.Native.String.{◌++◌ as str_append}
use text.Mathlib.TextLemmas.{cons-append}
use smooth_agent.Base.{
  String, true, false, not, Option, none, some, List, [], ◌∷◌, ◌≡◌, ◌≢◌, refl, ◌∙◌, ap, arith, map,
  filter, string_eq, if◌then◌else◌, All, All-filter, All-filter_of, ◌==◌,
}
use smooth_agent.Base.Dict.{get, get-insert, get-insert_self}
use smooth_agent.Base.Text.{trim, split, join, is_empty, Free, split-join}
use smooth_agent.Engine.{Documents, KnowledgeBase}
use smooth_agent.Access.Acl
use smooth_agent.Access.Acl.{AclJson}
use smooth_agent.Access.Recording.{recorded}
use smooth_agent.Curation.Meta.{
  FloatOps, document_set_key, boost_key, named, parse_sets, with_document_set, parse_boost,
  with_boost, from_metadata,
}
use smooth_agent.Curation.Store.{CuratedKnowledgeStore, ingest}

is_empty-trim : (s : String) → is_empty (trim s) ≡ false → is_empty s ≡ false
unfolding trim
is_empty-trim String.[] h = cc
is_empty-trim (String.◌∷◌ c s) h = refl

is_empty-append : (s t : String) → is_empty s ≡ false → is_empty (str_append s t) ≡ false
is_empty-append String.[] t h = cc
is_empty-append (String.◌∷◌ c s) t h = rw (cons-append c s t)

is_empty-join :
    (s : String) (ss : List String) → is_empty s ≡ false → is_empty (join "," (s ∷ ss)) ≡ false
unfolding join
is_empty-join s [] h = h
is_empty-join s (t ∷ ts) h = is_empty-append s _ h

named_trimmed :
    (xs : List String)
    → All (λ s. not (is_empty (trim s)) ≡ true) xs
    → filter (λ s. not (is_empty s)) (map trim xs) ≡ map trim xs
named_trimmed [] h = refl
named_trimmed (x ∷ xs) h = rw (h.0) (ap (λ l. trim x ∷ l) (named_trimmed xs h.1))

abbrev comma : Char
comma = ","

split-join_comma : (xs : List String) → All (Free b',') xs → xs ≢ [] → split b',' (join "," xs) ≡ xs
split-join_comma [] h n = absurd (n refl)
split-join_comma (s ∷ ss) h n = split-join comma s ss h

named-nonempty :
    (xs : List String)
    → All (λ s. not (is_empty (trim s)) ≡ true) xs
    → xs ≢ []
    → is_empty (join "," xs) ≡ false
named-nonempty [] h n = absurd (n refl)
named-nonempty (s ∷ ss) h n = is_empty-join s ss (is_empty-trim s (ground (arith, h.0)))

-- The names that are stamped onto a document are the sets that are read back, each trimmed and
-- blank ones dropped, in order; provided that one is not blank and none has a comma in it.
pub parse_sets-with_document_set :
    (docs : Documents) (doc : docs.Document) (sets : List String)
    → All (Free b',') sets
    → named sets ≢ []
    → parse_sets (docs.metadata (with_document_set docs doc sets)) ≡ map trim (named sets)
unfolding parse_sets with_document_set
parse_sets-with_document_set docs doc sets free some_name =
    let keep = λ (s : String). not (is_empty (trim s)) in
    let blank_free : All (λ s. not (is_empty (trim s)) ≡ true) (named sets) =
      All-filter keep sets in
    let joined = named-nonempty (named sets) blank_free some_name in
    let back = split-join_comma (named sets) (All-filter_of (Free b',') keep sets free) some_name in
    rw
      (
        joined,
        docs.metadata-with_metadata doc document_set_key (join "," (named sets)),
        get-insert_self (docs.metadata doc) document_set_key (join "," (named sets)),
        parse_sets,
      )
      (ap (λ xs. filter (λ s. not (is_empty s)) (map trim xs)) back
        ∙ named_trimmed (named sets) blank_free)

-- A boost that is stamped onto a document is the boost that is read back, cut off at zero, provided
-- that the number is finite, cutting it off again changes nothing, and the number that was printed
-- parses to itself.
pub parse_boost-with_boost :
    {Score : Type 0} (float : FloatOps Score) (docs : Documents) (doc : docs.Document)
    (boost : Score)
    → float.is_finite boost ≡ true
    → float.is_finite (float.floor_zero boost) ≡ true
    → float.floor_zero (float.floor_zero boost) ≡ float.floor_zero boost
    → float.parse (trim (float.format (float.floor_zero boost))) ≡ some (float.floor_zero boost)
    → parse_boost float (docs.metadata (with_boost float docs doc boost)) ≡ float.floor_zero boost
unfolding parse_boost with_boost
parse_boost-with_boost float docs doc boost finite still idem codec =
    rw
      (
        finite,
        docs.metadata-with_metadata doc boost_key (float.format (float.floor_zero boost)),
        get-insert_self (docs.metadata doc) boost_key (float.format (float.floor_zero boost)),
        codec,
        still,
        with_boost,
        parse_boost,
      )
      idem

module _ (docs : Documents) {Score : Type 0} (kb : KnowledgeBase docs.Document Score)
    (float : FloatOps Score) (json : AclJson) (s : CuratedKnowledgeStore kb.State Score)
    (doc : docs.Document) where
  -- Ingestion with healthy locks records the metadata of every document under its id, and its
  -- access list only if it is stamped with one; no other entry of either table changes, whether or
  -- not the backend then fails.
  pub get-ingest_meta :
      s.meta.poisoned ≡ false
      → s.acls.poisoned ≡ false
      → (id : String)
      → (get (ingest docs kb float json s doc).1.meta.content id ≡ (
          if docs.id doc == id
          then some (from_metadata float (docs.metadata doc))
          else get s.meta.content id))
        × (get (ingest docs kb float json s doc).1.acls.content id
            ≡ recorded
                (Acl.from_metadata json (docs.metadata doc))
                (docs.id doc)
                id
                (get s.acls.content id))
  unfolding ingest
  get-ingest_meta meta_healthy acls_healthy id =
      go (Acl.from_metadata json (docs.metadata doc)) refl
    where
      go :
          (o : Option Acl.DocAcl)
          → Acl.from_metadata json (docs.metadata doc) ≡ o
          → (get (ingest docs kb float json s doc).1.meta.content id ≡ (
              if docs.id doc == id
              then some (from_metadata float (docs.metadata doc))
              else get s.meta.content id))
            × (get (ingest docs kb float json s doc).1.acls.content id
                ≡ recorded o (docs.id doc) id (get s.acls.content id))
      go none e = ground (
        arith,
        get-insert s.meta.content (docs.id doc) id (from_metadata float (docs.metadata doc)),
      )
      go (some acl) e = ground (
        arith,
        get-insert s.meta.content (docs.id doc) id (from_metadata float (docs.metadata doc)),
        get-insert s.acls.content (docs.id doc) id acl,
      )
