-- ===== src/Assembly/Lines/Fuel.antt =====
-- A label takes characters off its line.
use Prim.Native.Char.{code}
use vibe_pio.Base.{
  ℕ, suc, ◌≤◌, ◌<◌, arith, Bool, true, false, ◌&&◌, ◌||◌, ◌==◌, Option, none, some, if_both,
}
use vibe_pio.Text.{
  String, starts_with, is_space, is_alpha, is_word, lstrip_by, span, drop_chars, chars,
}
use vibe_pio.Text.Lengths.{chars-lstrip_by, chars-span, chars-drop_chars}
use vibe_pio.Assembly.Lines.{Label, after_colon, named, or_plain, label_at, space_first}

-- What stands behind the label is shorter than `n`.
abbrev pub Shorter : ℕ → Option Label → Type 0
Shorter n none = Unit {0}
Shorter n (some l) = chars l.rest < n

weaken-Shorter : (k n : ℕ) (l : Option Label) → k ≤ n → Shorter k l → Shorter n l
weaken-Shorter k n none h l = tt
weaken-Shorter k n (some label) h l = omega arith

after_colon-Shorter : (mark : Bool) (name r : String) → Shorter (chars r) (after_colon mark name r)
unfolding chars
after_colon-Shorter mark name String.[] = tt
after_colon-Shorter mark name (String.◌∷◌ c s) =
    if_both (Shorter (suc (chars s))) (code c == b':') (omega arith) tt

named-Shorter : (mark : Bool) (s : String) → Shorter (chars s) (named mark s)
unfolding named chars
named-Shorter mark String.[] = tt
named-Shorter mark (String.◌∷◌ c s) =
    let p = span is_word (String.◌∷◌ c s) in
    let r = lstrip_by is_space p.1 in
    let cut = chars-span is_word (String.◌∷◌ c s) in
    let stripped = chars-lstrip_by is_space p.1 in
    let fits : chars r ≤ suc (chars s) = omega arith in
    if_both (Shorter (suc (chars s))) (is_alpha c || (code c == b'_'))
      (weaken-Shorter (chars r) (suc (chars s)) _ fits (after_colon-Shorter mark p.0 r)) tt

or_plain-Shorter :
    (n : ℕ) (l plain : Option Label) → Shorter n l → Shorter n plain → Shorter n (or_plain l plain)
or_plain-Shorter n none plain h k = k
or_plain-Shorter n (some l) plain h k = h

pub label_at-Shorter : (s : String) → Shorter (chars s) (label_at s)
unfolding label_at
label_at-Shorter s =
    let r = lstrip_by is_space (drop_chars 6 s) in
    let stripped = chars-lstrip_by is_space (drop_chars 6 s) in
    let dropped = chars-drop_chars 6 s in
    or_plain-Shorter (chars s) _ (named false s)
      (if_both (Shorter (chars s))
        ((starts_with s "public" || starts_with s "PUBLIC") && space_first (drop_chars 6 s))
        {no = none}
        (weaken-Shorter (chars r) (chars s) (named true r) (omega arith) (named-Shorter true r)) tt)
      (named-Shorter false s)
