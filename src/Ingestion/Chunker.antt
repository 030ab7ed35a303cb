-- ===== src/Ingestion/Chunker.antt =====
-- `RawDocument` and `Chunker` (rust/ingestion/src/connector.rs, rust/ingestion/src/chunker.rs).
use Prim.Native.String.{◌++◌}
use mathlib.Core.List
use smooth_agent.Base.{
  ℕ, ◌+◌, ◌-◌, String, Option, none, some, List, [], ◌∷◌, length, drop, string_eq, min, max, ltb,
  leb, nat_eqb, if◌then◌else◌, ◌||◌,
}
use smooth_agent.Base.Dict.{Dict, get, insert}
use smooth_agent.Base.Text.{chars, is_empty, trim, join}
use smooth_agent.Base.Words.{split_paragraphs, split_whitespace, decimal}

pub record RawDocument : Type 0 where
  pub id : String
  pub source : String
  pub title : Option String
  pub content : String
  pub metadata : Dict String String
  pub acl : Option (List String)

abbrev pub raw_document : String → String → String → RawDocument
raw_document id source content = record {
  id = id;
  source = source;
  title = none;
  content = content;
  metadata = [];
  acl = none;
}

abbrev pub with_title : RawDocument → String → RawDocument
with_title doc title = record doc { title = some title }

abbrev pub with_metadata : RawDocument → String → String → RawDocument
with_metadata doc key value = record doc { metadata = insert doc.metadata key value }

abbrev pub with_acl : RawDocument → List String → RawDocument
with_acl doc acl = record doc { acl = some acl }

pub record Chunk : Type 0 where
  pub id : String
  pub document_id : String
  pub index : ℕ
  pub text : String
  pub metadata : Dict String String
  pub acl : Option (List String)

pub record Chunker : Type 0 where
  pub max_chars : ℕ
  pub overlap_chars : ℕ

abbrev pub default_max_chars : ℕ
default_max_chars = 500

abbrev pub default_overlap_chars : ℕ
default_overlap_chars = 64

unfoldable pub new : ℕ → ℕ → Chunker
new max_chars overlap_chars =
    let max_chars = max max_chars 1 in
    record { max_chars = max_chars; overlap_chars = min overlap_chars (max_chars - 1) }

-- The greedy loop of `split_text` and of `hard_split_words`: pieces go into the current text with
-- `gap` between them while it holds at most `limit` characters.
unfoldable pub pack : String → ℕ → String → List String → List String
pack gap limit current [] = if is_empty current then [] else current ∷ []
pack gap limit current (piece ∷ pieces) =
    let fits = leb (chars current + chars gap + chars piece) limit in
    let next =
      if is_empty current then piece else if fits then current ++ (gap ++ piece) else piece in
    let rest = pack gap limit next pieces in
    if is_empty current || fits then rest else current ∷ rest

unfoldable pub hard_split_words : ℕ → String → List String
unfolding pack
hard_split_words limit para = pack " " limit "" (split_whitespace para)

-- The paragraph units of `split_text`.
unfoldable pub units : ℕ → List String → List String
units limit [] = []
units limit (para ∷ paras) =
    let rest = units limit paras in
    let trimmed = trim para in
    if is_empty trimmed
    then rest
    else if leb (chars trimmed) limit
    then trimmed ∷ rest
    else List.◌++◌ (hard_split_words limit trimmed) rest

-- The number of words that the loop of `trailing_words` takes, from the last on.
unfoldable pub trailing : ℕ → ℕ → ℕ → List String → ℕ
trailing limit taken len [] = taken
trailing limit taken len (word ∷ words) =
    let add = chars word + (if ltb 0 taken then 1 else 0) in
    let rest = trailing limit (taken + 1) (len + add) words in
    if ltb limit (len + add) then taken else rest

unfoldable pub trailing_words : ℕ → String → String
unfolding trailing
trailing_words limit s =
    let words = split_whitespace s in
    let taken = trailing limit 0 0 (List.reverse words) in
    if nat_eqb taken 0 then "" else join " " (drop (length words - taken) words)

-- A chunk behind another one, with its tail in front.
unfoldable pub overlapped : ℕ → String → String → String
unfolding trailing_words
overlapped limit before chunk =
    let tail = trailing_words limit before in
    if is_empty tail then chunk else tail ++ (" " ++ chunk)

-- The loop of `apply_overlap` behind its first chunk.
unfoldable pub overlap_rest : ℕ → String → List String → List String
unfolding overlapped
overlap_rest limit before [] = []
overlap_rest limit before (chunk ∷ chunks) =
    overlapped limit before chunk ∷ overlap_rest limit chunk chunks

unfoldable pub apply_overlap : ℕ → List String → List String
unfolding overlap_rest
apply_overlap limit [] = []
apply_overlap limit (chunk ∷ chunks) =
    if nat_eqb limit 0 || ltb (length (chunk ∷ chunks)) 2
    then chunk ∷ chunks
    else chunk ∷ overlap_rest limit chunk chunks

-- The chunks of `split_text` before they overlap.
unfoldable pub packed : Chunker → String → List String
unfolding pack units
packed chunker content =
    pack "\n\n" chunker.max_chars "" (units chunker.max_chars (split_paragraphs content))

unfoldable pub split_text : Chunker → String → List String
unfolding packed apply_overlap
split_text chunker content = apply_overlap chunker.overlap_chars (packed chunker content)

-- `map.entry(key).or_insert(value)`
abbrev pub or_insert : Dict String String → String → String → Dict String String
or_insert m key value = elim (get m key) [ none ↦ insert m key value | some _ ↦ m ]

unfoldable pub base_metadata : RawDocument → Dict String String
base_metadata doc =
    let titled : Dict String String = elim doc.title [
      | none ↦ doc.metadata
      | some title ↦ or_insert doc.metadata "title" title
    ] in
    or_insert titled "source" doc.source

-- The closure of `chunk`, on the texts from position `index` on.
unfoldable pub number : RawDocument → ℕ → List String → List Chunk
unfolding base_metadata
number doc index [] = []
number doc index (text ∷ texts) =
    record {
      id = doc.id ++ ("#" ++ decimal index);
      document_id = doc.id;
      index = index;
      text = text;
      metadata = base_metadata doc;
      acl = doc.acl;
    }
    ∷ number doc (index + 1) texts

unfoldable pub chunk : Chunker → RawDocument → List Chunk
unfolding split_text number
chunk chunker doc = number doc 0 (split_text chunker doc.content)
