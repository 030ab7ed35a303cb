-- ===== src/Base/Words.antt =====
-- Words and paragraphs of a text: `split_whitespace`, `split("\n\n")`, and a number's digits.
use Prim.Native.Nat.{ℕ, zero, suc, ◌/◌, ◌%◌}
use Prim.Native.Char.{Char, char, code}
use Prim.Native.String.{String, ◌++◌}
use mathlib.Core.Path.{◌≡◌, refl}
use mathlib.Core.Bool.{Bool, false, ◌&&◌, not}
use mathlib.Core.List.{List, [], ◌∷◌}
use smooth_agent.Base.Tests.{nat_eqb, ltb, if◌then◌else◌}
use smooth_agent.Base.Text.{is_empty, is_whitespace, push_front}

-- The text up to the first white space, and the words behind it.
unfoldable pub word_parts : String → String × List String
word_parts String.[] = (String.[], [])
word_parts (String.◌∷◌ c s) =
    let (word, words) = word_parts s in
    if is_whitespace (code c)
    then (String.[], if is_empty word then words else word ∷ words)
    else (String.◌∷◌ c word, words)

-- `s.split_whitespace()`
unfoldable pub split_whitespace : String → List String
split_whitespace s =
    let (word, words) = word_parts s in if is_empty word then words else word ∷ words

abbrev pub newline_char : Char
newline_char = char 10 tt

-- `s.split("\n\n")`; the flag says that a newline stands before the text and is not yet used.
unfoldable pub split_lines : Bool → String → List String
split_lines pending String.[] = (if pending then "\n" else "") ∷ []
split_lines pending (String.◌∷◌ c s) =
    let newline = nat_eqb (code c) 0xa in
    let rest = split_lines (newline && not pending) s in
    if pending
    then (if newline then "" ∷ rest else push_front newline_char (push_front c rest))
    else if newline
    then rest
    else push_front c rest

unfoldable pub split_paragraphs : String → List String
unfolding split_lines
split_paragraphs s = split_lines false s

-- The character at a position, as a text.
unfoldable pub nth_char : String → ℕ → String
nth_char String.[] n = String.[]
nth_char (String.◌∷◌ c s) zero = String.◌∷◌ c String.[]
nth_char (String.◌∷◌ c s) (suc n) = nth_char s n

unfoldable pub digit : ℕ → String
unfolding nth_char
digit n = nth_char "0123456789abcdef" n

-- `to_string` of a number below 2 ^ 64, which has 20 digits at most.
unfoldable pub decimal_digits : ℕ → ℕ → String → String
decimal_digits zero n behind = behind
decimal_digits (suc fuel) n behind =
    let now = digit (n % 10) ++ behind in
    let rest = decimal_digits fuel (n / 10) now in if ltb n 10 then now else rest

unfoldable pub decimal : ℕ → String
unfolding decimal_digits digit
decimal n = decimal_digits 20 n ""

-- `{n:016x}` of a number below 2 ^ 64.
unfoldable pub hex_digits : ℕ → ℕ → String → String
hex_digits zero n behind = behind
hex_digits (suc k) n behind = hex_digits k (n / 16) (digit (n % 16) ++ behind)

decimal-tests : (decimal 0 ≡ "0") × (decimal 407 ≡ "407") × (hex_digits 4 2571 "" ≡ "0a0b")
unfolding decimal hex_digits digit
decimal-tests = (refl, refl, refl)

split-tests :
    (split_paragraphs "a\n\nb\n\n\nc" ≡ "a" ∷ "b" ∷ "\nc" ∷ [])
    × (split_whitespace " a  bc\n d " ≡ "a" ∷ "bc" ∷ "d" ∷ [])
unfolding split_paragraphs split_whitespace word_parts is_whitespace
split-tests = (refl, refl)
