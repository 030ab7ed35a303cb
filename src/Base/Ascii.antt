-- ===== src/Base/Ascii.antt =====
-- The `str` methods of Rust on prefixes, suffixes and ASCII case.
use Prim.Native.Nat.{◌-◌}
use Prim.Native.Char.{Char, code}
use Prim.Native.String.{String, ◌++◌}
use mathlib.Core.Path.{◌≡◌, refl}
use mathlib.Core.Bool.{Bool, true, false, ◌&&◌}
use mathlib.Core.Option.{Option, none, some}
use smooth_agent.Base.Tests.{leb, nat_eqb, if◌then◌else◌, ◌==◌, string_eq}
use smooth_agent.Base.Words.{nth_char}

-- `s.to_ascii_lowercase()`
unfoldable pub lower_char : Char → String
unfolding nth_char
lower_char c =
    if leb 65 (code c) && leb (code c) 90
    then nth_char "abcdefghijklmnopqrstuvwxyz" (code c - 65)
    else String.◌∷◌ c String.[]

unfoldable pub to_ascii_lowercase : String → String
unfolding lower_char
to_ascii_lowercase String.[] = String.[]
to_ascii_lowercase (String.◌∷◌ c s) = lower_char c ++ to_ascii_lowercase s

-- `s.strip_prefix(prefix)`
unfoldable pub strip_prefix : String → String → Option String
strip_prefix s String.[] = some s
strip_prefix String.[] (String.◌∷◌ p prefix) = none
strip_prefix (String.◌∷◌ c s) (String.◌∷◌ p prefix) =
    let rest = strip_prefix s prefix in if nat_eqb (code c) (code p) then rest else none

abbrev pub has_prefix : String → String → Bool
has_prefix s prefix = elim (strip_prefix s prefix) [ none ↦ false | some _ ↦ true ]

-- `s.ends_with(suffix)`
unfoldable pub ends_with : String → String → Bool
ends_with String.[] suffix = String.[] == suffix
ends_with (String.◌∷◌ c s) suffix =
    let rest = ends_with s suffix in if String.◌∷◌ c s == suffix then true else rest

-- `s.split_once(sep)` at the first place where the separator stands; it is not empty.
unfoldable pub split_once : String → String → Option (String × String)
split_once String.[] sep = none
split_once (String.◌∷◌ c s) sep =
    let later = split_once s sep in
    elim (strip_prefix (String.◌∷◌ c s) sep) [
      | some after ↦ some (String.[], after)
      | none ↦ elim later [ none ↦ none | some (before, after) ↦ some (String.◌∷◌ c before, after) ]
    ]

tests :
    (to_ascii_lowercase "AbZ-9é" ≡ "abz-9é")
    × (split_once "https://a://b" "://" ≡ some ("https", "a://b"))
    × (ends_with "app.smoo.ai" ".smoo.ai" ≡ true)
unfolding to_ascii_lowercase split_once strip_prefix ends_with
tests = (refl, refl, refl)
