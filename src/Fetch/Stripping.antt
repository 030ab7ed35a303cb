-- ===== src/Fetch/Stripping.antt =====
-- Stripping ends, and leaves no markup behind.
use Prim.Native.Char.{Char}
use Prim.Native.String.{◌++◌}
use smooth_agent.Base.{
  ℕ, zero, suc, ◌-◌, ◌≤◌, ◌<◌, ◌≡◌, String, true, false, Option, none, some, refl, ap, arith,
  Bool-cases, Option-cases, inl, inr,
}
use smooth_agent.Base.Text.{chars, Free}
use smooth_agent.Base.Ascii.{to_ascii_lowercase, has_prefix, strip_prefix}
use text.Mathlib.TextLemmas.{cons-append, nil-append}
use smooth_agent.Fetch.Html.{
  find_text, drop_chars, skip_to, skip_block, is_open, text_run, Step, blank, silent, stop,
  or_blank, comment_step, tag_step, markup_step, strip_markup,
}

chars-drop_chars : (n : ℕ) (text : String) → chars (drop_chars n text) ≡ chars text - n
unfolding drop_chars
chars-drop_chars zero text = omega arith
chars-drop_chars (suc n) String.[] = omega arith
chars-drop_chars (suc n) (String.◌∷◌ c text) = omega (arith, chars-drop_chars n text)

chars-text_run : (text : String) → chars (text_run text).1 ≤ chars text
unfolding text_run
chars-text_run String.[] = omega arith
chars-text_run (String.◌∷◌ c text) = elim (Bool-cases (is_open c)) [
  | inl e ↦ rw e (omega arith)
  | inr e ↦ rw e (omega (arith, chars-text_run text))
]

text_run-Free : (text : String) → Free 0x3c (text_run text).0
unfolding text_run
text_run-Free String.[] = tt
text_run-Free (String.◌∷◌ c text) = elim (Bool-cases (is_open c)) [
  | inl e ↦ rw e tt
  | inr e ↦ rw e (e, text_run-Free text)
]

Free-append : (a b : String) → Free 0x3c a → Free 0x3c b → Free 0x3c (a ++ b)
Free-append String.[] b h k = rw (nil-append b) k
Free-append (String.◌∷◌ c a) b h k = rw (cons-append c a b) (h.0, Free-append a b h.1 k)

prefix_pos :
    (lower opening : String) → 0 < chars opening → has_prefix lower opening ≡ true → 0 < chars lower
unfolding strip_prefix
prefix_pos String.[] String.[] o h = absurd (omega (arith, o))
prefix_pos String.[] (String.◌∷◌ p opening) o h = cc
prefix_pos (String.◌∷◌ c lower) opening o h = omega arith

skip_to_pos :
    (opening close lower : String) (k : ℕ)
    → 0 < chars opening
    → 0 < chars close
    → skip_to opening close lower ≡ some k
    → 0 < k
unfolding skip_to
skip_to_pos opening close lower k o c h = elim (Bool-cases (has_prefix lower opening)) [
  | inr e ↦ cc (rw (skip_to, e) at h)
  | inl e ↦
      let there = prefix_pos lower opening o e in
      elim (Option-cases (find_text close lower)) [
        | inl f ↦ let same = rw (skip_to, e, f) at h in ground (arith, there)
        | inr (rel, f) ↦ let same = rw (skip_to, e, f) at h in ground (arith, c)
      ]
]

-- A step at a `<` that goes on consumes something.
abbrev Advances : Step → Type 0
Advances (blank k) = 0 < k
Advances (silent k) = 0 < k
Advances stop = Unit

or_blank-Advances :
    (o : Option ℕ) (s : Step)
    → ((k : ℕ) → o ≡ some k → 0 < k)
    → Advances s
    → Advances (or_blank o s)
or_blank-Advances none s h a = a
or_blank-Advances (some k) s h a = h k refl

comment_step-Advances : (o : Option ℕ) → Advances (comment_step o)
comment_step-Advances none = tt
comment_step-Advances (some rel) = omega arith

tag_step-Advances : (o : Option ℕ) → Advances (tag_step o)
tag_step-Advances none = tt
tag_step-Advances (some rel) = omega arith

markup_step-Advances : (html : String) → Advances (markup_step html)
unfolding markup_step
markup_step-Advances html =
    let lower = to_ascii_lowercase html in
    or_blank-Advances (skip_block lower "script") _
      (λ k e. skip_to_pos "<script" "</script>" lower k (omega arith) (omega arith) e)
      (or_blank-Advances (skip_block lower "style") _
        (λ k e. skip_to_pos "<style" "</style>" lower k (omega arith) (omega arith) e)
        (elim (Bool-cases (has_prefix lower "<!--")) [
          | inl c ↦ rw c (comment_step-Advances (find_text "-->" lower))
          | inr c ↦ rw c (tag_step-Advances (find_text ">" html))
        ]))

-- The loop ended with a text without `<`.
abbrev pub IsStripped : Option String → Type 0
IsStripped r = (out : String) × (r ≡ some out) × Free 0x3c out

-- A step at a `<`, given what the loop does afterwards.
markup-IsStripped :
    (n : ℕ) (c : Char) (text : String) (s : Step)
    → markup_step (String.◌∷◌ c text) ≡ s
    → is_open c ≡ true
    → Advances s
    → ((k : ℕ) → 0 < k → IsStripped (strip_markup n (drop_chars k (String.◌∷◌ c text))))
    → IsStripped (strip_markup (suc n) (String.◌∷◌ c text))
unfolding strip_markup
markup-IsStripped n c text (blank k) e o a onwards =
    let (out, p, free) = onwards k a in
    (" " ++ out, rw (strip_markup, o, e, p) refl, Free-append " " out (refl, tt) free)
markup-IsStripped n c text (silent k) e o a onwards =
    let (out, p, free) = onwards k a in (out, rw (strip_markup, o, e) p, free)
markup-IsStripped n c text stop e o a onwards = ("", rw (strip_markup, o, e) refl, tt)

first_run :
    (c : Char) (text : String)
    → is_open c ≡ false
    → (text_run (String.◌∷◌ c text)).0 ≡ String.◌∷◌ c (text_run text).0
unfolding text_run
first_run c text o = rw o refl

run-IsStripped :
    (n : ℕ) (c : Char) (text : String)
    → is_open c ≡ false
    → IsStripped (strip_markup n (text_run text).1)
    → IsStripped (strip_markup (suc n) (String.◌∷◌ c text))
unfolding strip_markup text_run
run-IsStripped n c text o (out, p, free) = (
  String.◌∷◌ c (text_run text).0 ++ out,
  rw (strip_markup, o, p) (ap (λ r. some (r ++ out)) (first_run c text o)),
  Free-append (String.◌∷◌ c (text_run text).0) out (o, text_run-Free text) free,
)

-- Stripping a page ends: with more fuel than the page has characters there is a result, and no `<`
-- stands in it, however broken the markup is.
pub strip_markup-IsStripped :
    (n : ℕ) (html : String) → chars html < n → IsStripped (strip_markup n html)
unfolding strip_markup
strip_markup-IsStripped zero html h = absurd (omega (arith, h))
strip_markup-IsStripped (suc n) String.[] h = ("", refl, tt)
strip_markup-IsStripped (suc n) (String.◌∷◌ c text) h = elim (Bool-cases (is_open c)) [
  | inl o ↦ markup-IsStripped n c text _ refl o (markup_step-Advances (String.◌∷◌ c text)) (λ k pos.
      let dropped = chars-drop_chars k (String.◌∷◌ c text) in
      strip_markup-IsStripped n (drop_chars k (String.◌∷◌ c text)) (omega (arith, dropped, pos, h)))
  | inr o ↦
      let run = chars-text_run text in
      run-IsStripped n c text o
        (strip_markup-IsStripped n (text_run text).1 (omega (arith, run, h)))
]
