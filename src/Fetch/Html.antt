-- ===== src/Fetch/Html.antt =====
-- From a page to its text: `html_to_text` and its helpers (rust/smooth-operator/src/tools/fetch_url.rs).
-- The code's byte offsets all lie at ASCII characters, so they are offsets of characters here.
use Prim.Native.Char.{Char, code}
use Prim.Native.String.{◌++◌}
use smooth_agent.Base.{
  ℕ, zero, suc, ◌+◌, ◌-◌, ◌≡◌, String, Bool, Option, none, some, refl, string_eq, nat_eqb,
  if◌then◌else◌,
}
use smooth_agent.Base.Text.{chars, is_empty, join}
use smooth_agent.Base.Words.{split_whitespace}
use smooth_agent.Base.Ascii.{to_ascii_lowercase, has_prefix, strip_prefix}

-- `hay.find(needle)`
unfoldable pub find_text : String → String → Option ℕ
find_text needle String.[] = if is_empty needle then some 0 else none
find_text needle (String.◌∷◌ c hay) =
    let rest = find_text needle hay in
    if has_prefix (String.◌∷◌ c hay) needle
    then some 0
    else (elim rest [ none ↦ none | some i ↦ some (suc i) ])

unfoldable pub drop_chars : ℕ → String → String
drop_chars zero text = text
drop_chars (suc n) String.[] = String.[]
drop_chars (suc n) (String.◌∷◌ c text) = drop_chars n text

-- How much a block that opens here takes, up to its end or that of the text.
unfoldable pub skip_to : String → String → String → Option ℕ
unfolding find_text
skip_to opening close lower =
    if has_prefix lower opening
    then some (elim (find_text close lower) [ none ↦ chars lower | some rel ↦ rel + chars close ])
    else none

abbrev pub skip_block : String → String → Option ℕ
skip_block lower tag = skip_to ("<" ++ tag) ("</" ++ (tag ++ ">")) lower

abbrev pub is_open : Char → Bool
is_open c = nat_eqb (code c) 0x3c

-- The characters up to the next `<`, and what follows.
unfoldable pub text_run : String → String × String
text_run String.[] = (String.[], String.[])
text_run (String.◌∷◌ c text) =
    let (run, rest) = text_run text in
    if is_open c then (String.[], String.◌∷◌ c text) else (String.◌∷◌ c run, rest)

-- What the loop does at a `<`: skip so much and write a blank, skip so much, or stop.
pub data Step : Type 0 where
  blank : ℕ → Step
  silent : ℕ → Step
  stop : Step

abbrev pub or_blank : Option ℕ → Step → Step
or_blank none otherwise = otherwise
or_blank (some k) otherwise = blank k

abbrev pub comment_step : Option ℕ → Step
comment_step none = stop
comment_step (some rel) = silent (rel + 3)

abbrev pub tag_step : Option ℕ → Step
tag_step none = stop
tag_step (some rel) = blank (rel + 1)

unfoldable pub markup_step : String → Step
unfolding skip_to find_text
markup_step html =
    let lower = to_ascii_lowercase html in
    or_blank (skip_block lower "script") (
      or_blank (skip_block lower "style") (
        if has_prefix lower "<!--"
        then comment_step (find_text "-->" lower)
        else tag_step (find_text ">" html)))

-- The loop, on fuel.
unfoldable pub strip_markup : ℕ → String → Option String
unfolding markup_step text_run
strip_markup zero html = none
strip_markup (suc n) String.[] = some ""
strip_markup (suc n) (String.◌∷◌ c text) =
    if is_open c
    then (elim (markup_step (String.◌∷◌ c text)) [
      | stop ↦ some ""
      | silent k ↦ strip_markup n (drop_chars k (String.◌∷◌ c text))
      | blank k ↦ elim (strip_markup n (drop_chars k (String.◌∷◌ c text))) [
        | none ↦ none
        | some out ↦ some (" " ++ out)
      ]
    ])
    else (let (run, rest) = text_run (String.◌∷◌ c text) in
        elim (strip_markup n rest) [ none ↦ none | some out ↦ some (run ++ out) ])

-- `s.replace(from, to)` for a text that is not empty: what is left to skip of a match comes first.
unfoldable pub replace_from : ℕ → String → String → String → String
replace_from skip from to String.[] = ""
replace_from (suc skip) from to (String.◌∷◌ c text) = replace_from skip from to text
replace_from zero from to (String.◌∷◌ c text) =
    let matched = replace_from (chars from - 1) from to text in
    let copied = replace_from zero from to text in
    if has_prefix (String.◌∷◌ c text) from then to ++ matched else String.◌∷◌ c copied

abbrev pub replace_all : String → String → String → String
replace_all from to text = replace_from 0 from to text

unfoldable pub decode_entities : String → String
unfolding replace_from
decode_entities s = replace_all "&nbsp;" " " (
    replace_all "&apos;" "'" (
      replace_all "&#39;" "'" (
        replace_all "&quot;" "\""
          (replace_all "&gt;" ">" (replace_all "&lt;" "<" (replace_all "&amp;" "&" s))))))

unfoldable pub collapse_whitespace : String → String
collapse_whitespace s = join " " (split_whitespace s)

unfoldable pub html_to_text : String → Option String
unfolding strip_markup decode_entities collapse_whitespace
html_to_text html = elim (strip_markup (chars html + 1) html) [
  | none ↦ none
  | some out ↦ some (collapse_whitespace (decode_entities out))
]

entities :
    (decode_entities "a&amp;b" ≡ "a&b")
    × (decode_entities "&lt;i&gt;" ≡ "<i>")
    × (decode_entities "&amp;lt;" ≡ "<")
unfolding decode_entities strip_prefix
entities = (refl, refl, refl)
