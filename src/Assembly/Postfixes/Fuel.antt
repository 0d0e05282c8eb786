-- ===== src/Assembly/Postfixes/Fuel.antt =====
-- The loop over the postfixes of a line never runs out of fuel.
use Prim.Native.Char.{Char}
use vibe_pio.Base.{
  ℕ, zero, suc, ◌<◌, arith, Bool, true, false, Option, none, some, if◌then◌else◌, if_both, ◌&&◌,
  not, Fuelled, Fuelled-bind,
}
use vibe_pio.Text.{
  String, starts_with, is_empty, is_space, is_word, lstrip_by, span, drop_chars, chars,
}
use vibe_pio.Text.Lengths.{chars-lstrip_by, chars-strip, chars-span, chars-drop_chars}
use vibe_pio.Assembly.Expressions.{Symbols, eval_expr}
use vibe_pio.Assembly.Expressions.Fuel.{eval_expr-Fuelled}
use vibe_pio.Assembly.Postfixes.{
  not_space, space_first, delay_at, delay_here, delay_search, side_at, side_here, side_search,
  Postfixed, one_round, take_postfixes, start_postfixed, postfixes,
}

-- What a search leaves of a text is shorter than `n`.
abbrev Before : ℕ → Option (String × String) → Type 0
Before n none = Unit {0}
Before n (some (before, group)) = chars before < n

abbrev After : ℕ → Option (String × String) → Type 0
After n none = Unit {0}
After n (some (group, line)) = chars line < n

delay_here-Before :
    (c : Char) (here : Option String) (later : Option (String × String)) (n : ℕ)
    → Before n later
    → Before (suc n) (delay_here c here later)
unfolding chars
delay_here-Before c (some group) later n h = omega arith
delay_here-Before c none none n h = tt
delay_here-Before c none (some (before, group)) n h = omega arith

delay_search-Before : (s : String) → Before (chars s) (delay_search s)
unfolding delay_search chars
delay_search-Before String.[] = tt
delay_search-Before (String.◌∷◌ c s) =
    delay_here-Before c (if is_space c then delay_at s else none) (delay_search s) (chars s)
      (delay_search-Before s)

only_if-After :
    (b : Bool) (p : String × String) (n : ℕ) → chars p.1 < n → After n (if b then some p else none)
only_if-After true p n h = h
only_if-After false p n h = tt

side_at-After : (c : Char) (s : String) → After (suc (chars s)) (side_at (String.◌∷◌ c s))
unfolding side_at drop_chars
side_at-After c s =
    let r = drop_chars 3 s in
    let dropped = chars-drop_chars 3 s in
    let stripped = chars-lstrip_by is_space r in
    let cut = chars-span not_space (lstrip_by is_space r) in
    let cut_text = span not_space (lstrip_by is_space r) in
    let shorter : chars cut_text.1 < suc (chars s) = omega arith in
    only_if-After
      (starts_with (String.◌∷◌ c s) "side" && space_first r && not (is_empty cut_text.0)) cut_text
      (suc (chars s)) shorter

side_here-After :
    (c : Char) (here : Option (String × String)) (later : Option (String × String)) (n : ℕ)
    → After (suc n) here
    → After n later
    → After (suc n) (side_here c here later)
unfolding chars
side_here-After c (some (group, rest)) later n h k = h
side_here-After c none none n h k = tt
side_here-After c none (some (group, line)) n h k = omega arith

side_search-After : (inside : Bool) (s : String) → After (chars s) (side_search inside s)
unfolding side_search chars
side_search-After inside String.[] = tt
side_search-After inside (String.◌∷◌ c s) =
    side_here-After c (if inside then none else side_at (String.◌∷◌ c s))
      (side_search (is_word c) s) (chars s)
      (if_both (After (suc (chars s))) inside tt (side_at-After c s))
      (side_search-After (is_word c) s)

one_round-Fuelled :
    (f : ℕ) (syms : Symbols) (p : Postfixed) (delay side : Option (String × String))
    → ((q : Postfixed) → chars q.line < f → Fuelled (take_postfixes f syms q))
    → Before (chars p.line) delay
    → After (chars p.line) side
    → chars p.line < suc f
    → Fuelled (one_round (take_postfixes f syms) syms p delay side)
one_round-Fuelled f syms p (some (before, group)) side next d s h =
    Fuelled-bind (eval_expr group syms) _ (eval_expr-Fuelled group syms)
      (λ v _. let shorter = chars-strip before in next _ (omega arith))
one_round-Fuelled f syms p none (some (group, line)) next d s h =
    Fuelled-bind (eval_expr group syms) _ (eval_expr-Fuelled group syms)
      (λ v _. let shorter = chars-strip line in next _ (omega arith))
one_round-Fuelled f syms p none none next d s h = tt

take_postfixes-Fuelled :
    (f : ℕ) (syms : Symbols) (p : Postfixed) → chars p.line < f → Fuelled (take_postfixes f syms p)
unfolding take_postfixes
take_postfixes-Fuelled zero syms p h = absurd (omega arith)
take_postfixes-Fuelled (suc f) syms p h =
    one_round-Fuelled f syms p (delay_search p.line) (side_search false p.line)
      (take_postfixes-Fuelled f syms) (delay_search-Before p.line) (side_search-After false p.line)
      h

pub postfixes-Fuelled : (text : String) (syms : Symbols) → Fuelled (postfixes text syms)
unfolding postfixes
postfixes-Fuelled text syms =
    take_postfixes-Fuelled (suc (suc (suc (chars text)))) syms (start_postfixed text) (omega arith)
