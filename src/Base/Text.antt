-- ===== src/Base/Text.antt =====
-- Strings as their characters: the `str` methods of Rust that the program calls, by clauses.
use Prim.Native.Nat.{ℕ, suc}
use Prim.Native.Char.{Char, code}
use Prim.Native.String.{String, ◌++◌}
use mathlib.Core.Path.{◌≡◌, refl, ap, ◌∙◌}
use mathlib.Core.Bool.{Bool, true, false, ◌&&◌, ◌||◌}
use mathlib.Core.List.{List}
use native.Mathlib.Omega.{arith}
use text.Mathlib.TextLemmas.{cons-append, nil-append}
use smooth_agent.Base.Tests.{nat_eqb, leb, if◌then◌else◌}
use smooth_agent.Base.Lists.{All}

-- `s.chars().count()`
abbrev pub chars : String → ℕ
chars String.[] = 0
chars (String.◌∷◌ c s) = suc (chars s)

abbrev pub is_empty : String → Bool
is_empty String.[] = true
is_empty (String.◌∷◌ c s) = false

-- `char::is_whitespace`: the Unicode property White_Space.
unfoldable pub is_whitespace : ℕ → Bool
is_whitespace c =
    leb 0x9 c && leb c 0xd
    || nat_eqb c 0x20
    || nat_eqb c 0x85
    || nat_eqb c 0xa0
    || nat_eqb c 0x1680
    || leb 0x2000 c && leb c 0x200a
    || nat_eqb c 0x2028
    || nat_eqb c 0x2029
    || nat_eqb c 0x202f
    || nat_eqb c 0x205f
    || nat_eqb c 0x3000

unfoldable pub trim_start : String → String
trim_start String.[] = String.[]
trim_start (String.◌∷◌ c s) = if is_whitespace (code c) then trim_start s else String.◌∷◌ c s

unfoldable pub trim_end : String → String
trim_end String.[] = String.[]
trim_end (String.◌∷◌ c s) =
    let rest = trim_end s in
    if is_empty rest && is_whitespace (code c) then String.[] else String.◌∷◌ c rest

unfoldable pub trim : String → String
unfolding trim_start trim_end is_whitespace
trim s = trim_end (trim_start s)

abbrev pub push_front : Char → List String → List String
push_front c List.[] = List.◌∷◌ (String.◌∷◌ c String.[]) List.[]
push_front c (List.◌∷◌ p ps) = List.◌∷◌ (String.◌∷◌ c p) ps

-- `s.split(sep)` for one character.
unfoldable pub split : ℕ → String → List String
split sep String.[] = List.◌∷◌ String.[] List.[]
split sep (String.◌∷◌ c s) =
    let rest = split sep s in
    if nat_eqb (code c) sep then List.◌∷◌ String.[] rest else push_front c rest

-- `xs.join(sep)`
unfoldable pub join : String → List String → String
join sep List.[] = String.[]
join sep (List.◌∷◌ s List.[]) = s
join sep (List.◌∷◌ s (List.◌∷◌ t ts)) = s ++ (sep ++ join sep (List.◌∷◌ t ts))

-- No character of the text is `sep`.
abbrev pub Free : ℕ → String → Type 0
Free sep String.[] = Unit
Free sep (String.◌∷◌ c s) = (nat_eqb (code c) sep ≡ false) × Free sep s

split-Free : (sep : ℕ) (s : String) → Free sep s → split sep s ≡ List.◌∷◌ s List.[]
unfolding split
split-Free sep String.[] h = refl
split-Free sep (String.◌∷◌ c s) h = rw (h.0, split-Free sep s h.1)

split-append :
    (sep : Char) (s t : String)
    → Free (code sep) s
    → split (code sep) (s ++ String.◌∷◌ sep t) ≡ List.◌∷◌ s (split (code sep) t)
unfolding split
split-append sep String.[] t h = rw (nil-append (String.◌∷◌ sep t)) (ground arith)
split-append sep (String.◌∷◌ c s) t h =
    rw (cons-append c s (String.◌∷◌ sep t), split) (rw (h.0, split-append sep s t h.1))

-- Splitting undoes joining, if there is a part and no part has the separator in it.
pub split-join :
    (sep : Char) (s : String) (ss : List String)
    → All (Free (code sep)) (List.◌∷◌ s ss)
    → split (code sep) (join (String.◌∷◌ sep String.[]) (List.◌∷◌ s ss)) ≡ List.◌∷◌ s ss
unfolding join
split-join sep s List.[] h = split-Free (code sep) s h.0
split-join sep s (List.◌∷◌ t ts) h =
    let more = join (String.◌∷◌ sep String.[]) (List.◌∷◌ t ts) in
    rw (cons-append sep String.[] more, nil-append more)
      (split-append sep s more h.0 ∙ ap (λ l. List.◌∷◌ s l) (split-join sep t ts h.1))
