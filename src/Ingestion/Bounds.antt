-- ===== src/Ingestion/Bounds.antt =====
-- The size of chunks (rust/ingestion/src/chunker.rs).
use Prim.Native.Char.{code}
use Prim.Native.String.{◌++◌}
use text.Mathlib.TextLemmas.{cons-append, nil-append}
use smooth_agent.Base.{
  ℕ, suc, ◌+◌, ◌≤◌, ◌<◌, String, false, List, [], ◌∷◌, ◌≡◌, refl, ◌⊎◌, inl, inr, arith, All,
  All-append, length, ltb, leb, nat_eqb, ◌||◌, Bool-cases, ap,
}
use smooth_agent.Base.Text.{chars, is_empty, is_whitespace, trim}
use smooth_agent.Base.Words.{split_paragraphs, split_whitespace, word_parts}
use smooth_agent.Ingestion.Chunker.{
  RawDocument, Chunk, Chunker, new, pack, hard_split_words, units, packed, split_text,
  apply_overlap, overlap_rest, number, chunk,
}

-- No character of the text is white space.
abbrev pub Unbroken : String → Type 0
Unbroken String.[] = Unit
Unbroken (String.◌∷◌ c s) = (is_whitespace (code c) ≡ false) × Unbroken s

word_parts-Unbroken : (s : String) → Unbroken (word_parts s).0 × All Unbroken (word_parts s).1
unfolding word_parts
word_parts-Unbroken String.[] = (tt, tt)
word_parts-Unbroken (String.◌∷◌ c s) =
    let (word, words) = word_parts-Unbroken s in
    elim (Bool-cases (is_whitespace (code c))) [
      | inl e ↦ elim (Bool-cases (is_empty (word_parts s).0)) [
        | inl none ↦ rw (e, none) (tt, words)
        | inr some ↦ rw (e, some) (tt, (word, words))
      ]
      | inr e ↦ rw e ((e, word), words)
    ]

pub split_whitespace-Unbroken : (s : String) → All Unbroken (split_whitespace s)
unfolding split_whitespace
split_whitespace-Unbroken s =
    let (word, words) = word_parts-Unbroken s in
    elim (Bool-cases (is_empty (word_parts s).0)) [
      | inl e ↦ rw e words
      | inr e ↦ rw e (word, words)
    ]

-- A text within the limit, or a single word.
abbrev pub Fits : ℕ → String → Type 0
Fits limit t = (chars t ≤ limit) ⊎ Unbroken t

chars-append : (s t : String) → chars (s ++ t) ≡ chars s + chars t
chars-append String.[] t = rw (nil-append t) (omega arith)
chars-append (String.◌∷◌ c s) t = rw (cons-append c s t, chars-append s t) (omega arith)

pack-Fits :
    (gap : String) (limit : ℕ) (current : String) (pieces : List String)
    → Fits limit current
    → All (Fits limit) pieces
    → All (Fits limit) (pack gap limit current pieces)
unfolding pack
pack-Fits gap limit current [] h hs = elim (Bool-cases (is_empty current)) [
  | inl e ↦ rw e tt
  | inr e ↦ rw e (h, tt)
]
pack-Fits gap limit current (piece ∷ pieces) h hs = elim (Bool-cases (is_empty current)) [
  | inl e ↦ rw e (pack-Fits gap limit piece pieces hs.0 hs.1)
  | inr e ↦ elim (Bool-cases (leb (chars current + chars gap + chars piece) limit)) [
    | inl fits ↦
        let joined : Fits limit (current ++ (gap ++ piece)) =
          inl (rw (chars-append current (gap ++ piece), chars-append gap piece) (ground arith)) in
        rw (e, fits) (pack-Fits gap limit (current ++ (gap ++ piece)) pieces joined hs.1)
    | inr full ↦ rw (e, full) (h, pack-Fits gap limit piece pieces hs.0 hs.1)
  ]
]

All-Fits : (limit : ℕ) (words : List String) → All Unbroken words → All (Fits limit) words
All-Fits limit [] h = tt
All-Fits limit (w ∷ words) h = (inr h.0, All-Fits limit words h.1)

units-Fits : (limit : ℕ) (paras : List String) → All (Fits limit) (units limit paras)
unfolding units hard_split_words
units-Fits limit [] = tt
units-Fits limit (para ∷ paras) =
    let rest = units-Fits limit paras in
    elim (Bool-cases (is_empty (trim para))) [
      | inl e ↦ rw e rest
      | inr e ↦ elim (Bool-cases (leb (chars (trim para)) limit)) [
        | inl fits ↦ rw (e, fits) (inl (ground arith), rest)
        | inr large ↦
            let words = split_whitespace (trim para) in
            let split =
              pack-Fits " " limit "" words (inr tt)
                (All-Fits limit words (split_whitespace-Unbroken (trim para))) in
            rw (e, large)
              (All-append (Fits limit) (pack " " limit "" words) (units limit paras) split rest)
      ]
    ]

-- Before they overlap, the chunks of a text have at most `max_chars` characters each, but for a
-- chunk that is a single word.
pub packed-Fits :
    (chunker : Chunker) (content : String) → All (Fits chunker.max_chars) (packed chunker content)
unfolding packed
packed-Fits chunker content =
    pack-Fits "\n\n" chunker.max_chars "" (units chunker.max_chars (split_paragraphs content))
      (inr tt) (units-Fits chunker.max_chars (split_paragraphs content))

length-overlap_rest :
    (limit : ℕ) (before : String) (chunks : List String)
    → length (overlap_rest limit before chunks) ≡ length chunks
unfolding overlap_rest
length-overlap_rest limit before [] = refl
length-overlap_rest limit before (c ∷ chunks) = ap suc (length-overlap_rest limit c chunks)

length-split_text :
    (chunker : Chunker) (content : String)
    → length (split_text chunker content) ≡ length (packed chunker content)
unfolding split_text
length-split_text chunker content = go (packed chunker content)
  where
    go :
        (chunks : List String) → length (apply_overlap chunker.overlap_chars chunks) ≡ length chunks
    go [] = unfold apply_overlap in refl
    go (c ∷ chunks) =
        let short = nat_eqb chunker.overlap_chars 0 || ltb (length (c ∷ chunks)) 2 in
        unfold apply_overlap in
        (elim (Bool-cases short) [
          | inl e ↦ rw e refl
          | inr e ↦ rw e (ap suc (length-overlap_rest chunker.overlap_chars c chunks))
        ])

-- A chunker always has room for a character, and its overlap is smaller than a chunk.
pub new_lem :
    (max_chars overlap_chars : ℕ)
    → (1 ≤ (new max_chars overlap_chars).max_chars)
      × ((new max_chars overlap_chars).overlap_chars < (new max_chars overlap_chars).max_chars)
unfolding new
new_lem max_chars overlap_chars = (omega arith, omega arith)

-- The chunk at a position of a list that starts at `index`: its number, document and labels.
abbrev pub Numbered : RawDocument → ℕ → List Chunk → Type 0
Numbered doc index [] = Unit
Numbered doc index (c ∷ cs) =
    (c.index ≡ index) × (c.document_id ≡ doc.id) × (c.acl ≡ doc.acl) × Numbered doc (index + 1) cs

number-Numbered :
    (doc : RawDocument) (index : ℕ) (texts : List String)
    → Numbered doc index (number doc index texts) × (length (number doc index texts) ≡ length texts)
unfolding number
number-Numbered doc index [] = (tt, refl)
number-Numbered doc index (t ∷ texts) =
    let (rest, same) = number-Numbered doc (index + 1) texts in
    ((refl, refl, refl, rest), ap suc same)

-- The chunks of a document are numbered from 0 on, one for each packed text, and each of them has
-- the document's id and its access labels.
pub chunk-Numbered :
    (chunker : Chunker) (doc : RawDocument)
    → Numbered doc 0 (chunk chunker doc)
      × (length (chunk chunker doc) ≡ length (packed chunker doc.content))
unfolding chunk
chunk-Numbered chunker doc =
    let (rest, same) = number-Numbered doc 0 (split_text chunker doc.content) in
    (rest, rw same (length-split_text chunker doc.content))
