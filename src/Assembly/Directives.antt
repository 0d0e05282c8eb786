-- ===== src/Assembly/Directives.antt =====
-- `_directive` of tools/pio_model/asm.py, and what starts a program.
pub mod Fuel
use Prim.Native.Char.{Char, code}
use vibe_pio.Base.{
  ℕ, zero, suc, ◌+◌, ◌-◌, ◌*◌, ◌==◌, ◌&&◌, ◌||◌, not, Bool, true, false, leb, List, [], ◌∷◌, ◌++◌,
  map, length, if◌then◌else◌, Option, none, some, Result, ok, err, ◌>>=◌, ◌>>◌, raise_if,
  assembly_error, index_error, value_error, out_of_fuel,
}
use vibe_pio.Text.{
  String, str_eq, starts_with, is_empty, is_space, is_digit, lower, lstrip_by, rstrip_by, strip,
  span, drop_chars, chars, split_words,
}
use vibe_pio.Assembly.Integers.{ℤ, pos, negsuc, neg, ◌-ℤ◌}
use vibe_pio.Assembly.Expressions.{Symbols, eval_expr}
use vibe_pio.Assembly.Program.{Program}
use vibe_pio.Assembly.Lines.{split_lines, strip_comment, Label, label_at}
use vibe_pio.Assembly.Instruction.{assemble_instruction}

-- `Program(name)`
abbrev pub new_program : String → Program
new_program name = record {
  name = name;
  pio_version = none;
  origin = negsuc 0;
  wrap_target = none;
  wrap = none;
  sideset_bits = none;
  sideset_opt = false;
  sideset_pindirs = false;
  symbols = [];
  public_symbols = [];
  labels = [];
  public_labels = [];
  src_lines = [];
  words = [];
}

-- The digits of `int(text)`, where single underscores may stand between them; `may` says that one may
-- stand here, `ends` that the text may end here.
decimal_from : Bool → ℕ → String → Option ℕ
decimal_from after_digit n String.[] = if after_digit then some n else none
decimal_from after_digit n (String.◌∷◌ c s) =
    let rest = decimal_from (is_digit c) (if is_digit c then n * 10 + (code c - b'0') else n) s in
    if is_digit c || (after_digit && (code c == b'_')) then rest else none

abbrev signed : (ℕ → ℤ) → Option ℕ → Result ℤ
signed f none = err value_error
signed f (some n) = ok (f n)

-- `int(text)`
unfoldable pub int_of_text : String → Result ℤ
unfolding decimal_from lstrip_by rstrip_by drop_chars starts_with
int_of_text text =
    let s = strip text in
    if starts_with s "-"
    then signed (λ n. neg (pos n)) (decimal_from false 0 (drop_chars 1 s))
    else if starts_with s "+"
    then signed pos (decimal_from false 0 (drop_chars 1 s))
    else signed pos (decimal_from false 0 s)

-- The first word of a text and what follows it.
not_space : Char → Bool
not_space c = not (is_space c)

unfoldable pub cut_word : String → String × String
unfolding not_space span lstrip_by
cut_word s = let (w, r) = span not_space (lstrip_by is_space s) in (w, lstrip_by is_space r)

abbrev pub word_at : ℕ → List String → Result String
word_at n [] = err index_error
word_at zero (w ∷ ws) = ok w
word_at (suc n) (w ∷ ws) = word_at n ws

side_options : List String → Program → Result Program
side_options [] prog = ok prog
side_options (opt ∷ opts) prog =
    (if str_eq opt "opt"
      then ok (record prog { sideset_opt = true })
      else if str_eq opt "pindirs"
      then ok (record prog { sideset_pindirs = true })
      else err assembly_error)
    >>= side_options opts

side_set : List String → Program → Result Program
side_set [] prog = err index_error
side_set (bits ∷ opts) prog = do
  v ← eval_expr bits []
  side_options opts (record prog { sideset_bits = some v })

-- `.define NAME EXPR`, the two texts cut already.
define_symbol : Bool → String → String → Program → Result Program
define_symbol is_public name expr prog = do
  raise_if (is_empty name || is_empty expr) assembly_error
  v ← eval_expr expr prog.symbols
  ok (record prog {
    symbols = (name, v) ∷ prog.symbols;
    public_symbols = if is_public then name ∷ prog.public_symbols else prog.public_symbols;
  })

define : String → Program → Result Program
define arg prog =
    let (name, expr) = cut_word arg in
    let (name', expr') = cut_word expr in
    if str_eq (lower name) "public"
    then define_symbol true name' expr' prog
    else define_symbol false name expr prog

-- The directives other than `.program`, of a program that there is.
unfoldable pub directive : String → String → Program → Result Program
unfolding side_set side_options define define_symbol
directive d arg prog =
    if str_eq d ".pio_version"
    then (do v ← int_of_text arg; ok (record prog { pio_version = some v }))
    else if str_eq d ".origin"
    then (do v ← eval_expr arg []; ok (record prog { origin = v }))
    else if str_eq d ".wrap_target"
    then ok (record prog { wrap_target = some (length prog.src_lines) })
    else if str_eq d ".wrap"
    then ok (record prog { wrap = some (pos (length prog.src_lines) -ℤ pos 1) })
    else if str_eq d ".side_set"
    then side_set (split_words arg) prog
    else if str_eq d ".define"
    then define arg prog
    else if str_eq d ".lang_opt"
    then ok prog
    else err assembly_error
