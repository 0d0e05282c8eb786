-- ===== src/Assembly/Source.antt =====
-- `_finish` and `parse_text` of tools/pio_model/asm.py.
pub mod Fuel
use Prim.Native.Char.{Char, code}
use vibe_pio.Base.{
  ℕ, zero, suc, ◌+◌, ◌-◌, ◌*◌, ◌==◌, ◌&&◌, ◌||◌, not, Bool, true, false, leb, List, [], ◌∷◌, ◌++◌,
  map, length, if◌then◌else◌, Option, none, some, Result, ok, err, ◌>>=◌, ◌>>◌, raise_if,
  assembly_error, index_error, value_error, out_of_fuel,
}
use vibe_pio.Text.{
  String, str_eq, starts_with, is_empty, is_space, is_digit, lower, lstrip_by, rstrip_by, strip,
  span, drop_chars, chars, split_words,
}
use vibe_pio.Assembly.Integers.{ℤ, pos, negsuc, neg, ◌-ℤ◌}
use vibe_pio.Assembly.Expressions.{Symbols, eval_expr}
use vibe_pio.Assembly.Program.{Program}
use vibe_pio.Assembly.Directives.{new_program, int_of_text, word_at, directive}
use vibe_pio.Assembly.Lines.{split_lines, strip_comment, Label, label_at}
use vibe_pio.Assembly.Instruction.{assemble_instruction}

has_label : List (String × ℕ) → String → Bool
has_label [] name = false
has_label ((k, v) ∷ m) name = str_eq k name || has_label m name

-- One label put on the next instruction.
put_label : Label → Program → Result Program
put_label l prog = do
  raise_if (has_label prog.labels l.name) assembly_error
  ok (record prog {
    labels = (l.name, length prog.src_lines) ∷ prog.labels;
    public_labels = if l.is_public then l.name ∷ prog.public_labels else prog.public_labels;
  })

-- The loop over the labels of a line, with the instruction that it leaves; each label makes the line
-- shorter.
abbrev label_round :
    (String → Program → Result (Program × String))
    → String
    → Program
    → Option Label
    → Result (Program × String)
label_round next s prog none = ok (prog, s)
label_round next s prog (some l) = do prog' ← put_label l prog; next (strip l.rest) prog'

take_labels : ℕ → String → Program → Result (Program × String)
take_labels zero s prog = err out_of_fuel
take_labels (suc f) s prog = label_round (take_labels f) s prog (label_at s)

instruction_line : ℕ → String → Program → Result Program
instruction_line lineno s prog = do
  r ← take_labels (suc (chars s)) s prog
  ok (if is_empty r.1 then r.0 else record r.0 { src_lines = r.0.src_lines ++ (r.1, lineno) ∷ [] })

-- The variables of the loop of `parse_text`: the programs but the current one, which is the last.
pub record Source : Type 0 where
  pub closed : List Program
  pub current : Option Program
  pub in_block : Bool
  pub pending_version : Option ℤ

abbrev all_programs : List Program → Option Program → List Program
all_programs closed none = closed
all_programs closed (some prog) = closed ++ prog ∷ []

open_program : String → Source → Source
open_program name st = record {
  closed = all_programs st.closed st.current;
  current = some (record (new_program name) { pio_version = st.pending_version });
  in_block = false;
  pending_version = none;
}

abbrev with_current : (Program → Result Program) → Option Program → Source → Result Source
with_current f none st = err assembly_error
with_current f (some prog) st = do prog' ← f prog; ok (record st { current = some prog' })

abbrev is_none : Option Program → Bool
is_none none = true
is_none (some prog) = false

-- A line that begins with a dot.
dot_line : String → Source → Result Source
dot_line s st = do
  let toks = split_words s
  first ← word_at 0 toks
  let d = lower first
  let arg = strip (drop_chars (chars first) s)
  let opened = (do name ← word_at 1 toks; ok (open_program name st))
  let versioned = (do
    raise_if (is_empty arg) index_error
    v ← int_of_text arg
    ok (record st { pending_version = some v }))
  if str_eq d ".program"
      then opened
      else if str_eq d ".lang_opt"
      then ok st
      else if str_eq d ".pio_version" && is_none st.current
      then versioned
      else with_current (directive d arg) st.current st

ends_block : String → Bool
ends_block String.[] = false
ends_block (String.◌∷◌ c s) = str_eq (String.◌∷◌ c s) "%}" || ends_block s

-- The body of the loop, on a line that is stripped, comments and all.
unfoldable pub source_line : ℕ → String → Source → Result Source
unfolding dot_line open_program instruction_line take_labels put_label has_label ends_block
    starts_with
source_line lineno s st =
    if st.in_block
    then ok (record st { in_block = not (str_eq s "%}") })
    else if is_empty s
    then ok st
    else if starts_with s "%"
    then ok (record st { in_block = not (ends_block s) })
    else if starts_with s "."
    then dot_line s st
    else with_current (instruction_line lineno s) st.current st

source_lines : ℕ → List String → Source → Result Source
source_lines lineno [] st = ok st
source_lines lineno (raw ∷ raws) st = do
  st' ← source_line lineno (strip (strip_comment raw)) st
  source_lines (lineno + 1) raws st'

-- `prog.sideset_bits is not None and prog.sideset_bits > 5`
abbrev too_wide : Option ℤ → Bool
too_wide none = false
too_wide (some (negsuc n)) = false
too_wide (some (pos n)) = not (leb n 5)

abbrev or_else {ℓ} : {A : Type ℓ} → Option A → A → Option A
or_else none a = some a
or_else (some b) a = some b

assemble_lines : Program → Symbols → List (String × ℕ) → Result (List ℕ)
assemble_lines prog syms [] = ok []
assemble_lines prog syms ((t, lineno) ∷ lines) = do
  word ← assemble_instruction t prog syms
  words ← assemble_lines prog syms lines
  ok (word ∷ words)

abbrev as_symbol : String × ℕ → String × ℤ
as_symbol (name, n) = (name, pos n)

abbrev no_wrap : Option ℤ → Program → Program
no_wrap none prog = record prog { wrap = some (pos 0); wrap_target = some 0 }
no_wrap (some w) prog = prog

-- A label stands before a symbol of its name.
unfoldable pub finish : Program → Result Program
unfolding assemble_lines
finish prog = do
  raise_if (too_wide prog.sideset_bits) assembly_error
  let bounded = record prog {
    wrap = or_else prog.wrap (pos (length prog.src_lines) -ℤ pos 1);
    wrap_target = or_else prog.wrap_target 0;
  }
  let assembled = (do
    words ← assemble_lines bounded (map as_symbol prog.labels ++ prog.symbols) prog.src_lines
    ok (record bounded { words = words }))
  if length prog.src_lines == 0 then ok (no_wrap prog.wrap prog) else assembled

finish_all : List Program → Result (List Program)
finish_all [] = ok []
finish_all (p ∷ ps) = do q ← finish p; qs ← finish_all ps; ok (q ∷ qs)

abbrev start_source : Source
start_source = record { closed = []; current = none; in_block = false; pending_version = none }

unfoldable pub parse_text : String → Result (List Program)
unfolding source_lines finish_all
parse_text text = do
  st ← source_lines 1 (split_lines text) start_source
  finish_all (all_programs st.closed st.current)
