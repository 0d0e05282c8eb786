-- ===== src/Assembly/Postfixes.antt =====
-- The `[delay]` and `side` postfixes of an instruction: `_DELAY_RE`, `_SIDE_RE` and the loop of
-- `assemble_instruction` of tools/pio_model/asm.py that takes them off a line.
pub mod Fuel
use Prim.Native.Char.{Char, code}
use vibe_pio.Base.{
  ℕ, zero, suc, ◌==◌, ◌&&◌, not, Bool, true, false, if◌then◌else◌, Option, none, some, Result, ok,
  err, ◌>>=◌, out_of_fuel,
}
use vibe_pio.Text.{
  String, starts_with, is_empty, is_space, is_word, lstrip_by, strip, span, drop_chars, chars,
}
use vibe_pio.Assembly.Integers.{ℤ, pos}
use vibe_pio.Assembly.Expressions.{Symbols, eval_expr}

abbrev pub space_first : String → Bool
space_first String.[] = false
space_first (String.◌∷◌ c s) = is_space c

abbrev not_close : Char → Bool
not_close c = not (code c == b']')

abbrev pub not_space : Char → Bool
not_space c = not (is_space c)

-- `\]\s*$` behind a group.
abbrev closes : String → String → Option String
closes group String.[] = none
closes group (String.◌∷◌ c s) =
    if (code c == b']') && is_empty (lstrip_by is_space s) then some group else none

-- The group [^\]]+ in the text `r` behind the bracket. Where nothing but spaces stands in the
-- brackets, \s* leaves the last of them to the group.
delay_group : String → Option String
delay_group r =
    let (group, rest) = span not_close (lstrip_by is_space r) in
    if is_empty group then (if space_first r then closes " " rest else none) else closes group rest

-- `\[\s*([^\]]+)\]\s*$` at the start of a text.
unfoldable pub delay_at : String → Option String
unfolding delay_group span lstrip_by
delay_at String.[] = none
delay_at (String.◌∷◌ c r) = if code c == b'[' then delay_group r else none

-- `_DELAY_RE.search`: the text before the match, and the group.
abbrev pub delay_here : Char → Option String → Option (String × String) → Option (String × String)
delay_here c (some group) later = some (String.[], group)
delay_here c none none = none
delay_here c none (some (before, group)) = some (String.◌∷◌ c before, group)

unfoldable pub delay_search : String → Option (String × String)
delay_search String.[] = none
delay_search (String.◌∷◌ c s) =
    delay_here c (if is_space c then delay_at s else none) (delay_search s)

-- `side\s+(\S+)` at the start of a text: the group, and the text behind it.
unfoldable pub side_at : String → Option (String × String)
unfolding starts_with span drop_chars lstrip_by
side_at s =
    let r = drop_chars 4 s in
    let (group, rest) = span not_space (lstrip_by is_space r) in
    if starts_with s "side" && space_first r && not (is_empty group)
    then some (group, rest)
    else none

-- `_SIDE_RE.search`: the group, and the line without the match. `inside` says that a word character
-- stands before the text.
abbrev pub side_here :
    Char → Option (String × String) → Option (String × String) → Option (String × String)
side_here c (some (group, rest)) later = some (group, rest)
side_here c none none = none
side_here c none (some (group, line)) = some (group, String.◌∷◌ c line)

unfoldable pub side_search : Bool → String → Option (String × String)
side_search inside String.[] = none
side_search inside (String.◌∷◌ c s) =
    side_here c (if inside then none else side_at (String.◌∷◌ c s)) (side_search (is_word c) s)

-- The variables of the loop.
pub record Postfixed : Type 0 where
  pub line : String
  pub delay : ℤ
  pub side_val : ℤ
  pub side_present : Bool

-- The body of the loop, with what its two searches find and the rounds behind it.
abbrev pub one_round :
    (Postfixed → Result Postfixed)
    → Symbols
    → Postfixed
    → Option (String × String)
    → Option (String × String)
    → Result Postfixed
one_round next sym p (some (before, group)) side = do
  v ← eval_expr group sym
  next (record p { line = strip before; delay = v })
one_round next sym p none (some (group, line)) = do
  v ← eval_expr group sym
  next (record p { line = strip line; side_val = v; side_present = true })
one_round next sym p none none = ok p

-- The loop. Each round makes the line shorter, so that its characters and three more are enough fuel.
unfoldable pub take_postfixes : ℕ → Symbols → Postfixed → Result Postfixed
take_postfixes zero sym p = err out_of_fuel
take_postfixes (suc f) sym p =
    one_round (take_postfixes f sym) sym p (delay_search p.line) (side_search false p.line)

abbrev pub start_postfixed : String → Postfixed
start_postfixed text = record { line = text; delay = pos 0; side_val = pos 0; side_present = false }

unfoldable pub postfixes : String → Symbols → Result Postfixed
unfolding take_postfixes
postfixes text sym = take_postfixes (suc (suc (suc (chars text)))) sym (start_postfixed text)
