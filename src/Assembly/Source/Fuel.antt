-- ===== src/Assembly/Source/Fuel.antt =====
-- `parse_text` never runs out of fuel.
use vibe_pio.Base.{
  ℕ, zero, suc, ◌+◌, ◌<◌, ◌≢◌, ◌==◌, ◌&&◌, arith, List, [], ◌∷◌, ◌++◌, map, length, Option, none,
  some, Result, ok, err, index_error, assembly_error, out_of_fuel, Fuelled, Fuelled-bind,
  if-Fuelled, Fuelled-ne, raise_if-Fuelled,
}
use vibe_pio.Text.{
  String, str_eq, starts_with, is_empty, lower, strip, drop_chars, chars, split_words,
}
use vibe_pio.Text.Lengths.{chars-strip}
use vibe_pio.Assembly.Expressions.{Symbols}
use vibe_pio.Assembly.Program.{Program}
use vibe_pio.Assembly.Lines.{Label, label_at, strip_comment, split_lines}
use vibe_pio.Assembly.Lines.Fuel.{Shorter, label_at-Shorter}
use vibe_pio.Assembly.Instruction.{assemble_instruction}
use vibe_pio.Assembly.Instruction.Fuel.{assemble_instruction-Fuelled}
use vibe_pio.Assembly.Directives.{int_of_text, word_at, directive}
use vibe_pio.Assembly.Directives.Fuel.{int_of_text-Fuelled, word_at-Fuelled, directive-Fuelled}
use vibe_pio.Assembly.Source.{
  has_label, put_label, label_round, take_labels, instruction_line, Source, all_programs,
  with_current, is_none, dot_line, source_line, source_lines, too_wide, assemble_lines, as_symbol,
  finish, finish_all, start_source, parse_text, no_wrap,
}

put_label-Fuelled : (l : Label) (prog : Program) → Fuelled (put_label l prog)
unfolding put_label
put_label-Fuelled l prog =
    raise_if-Fuelled (has_label prog.labels l.name) assembly_error _ (λ h. cc) tt

label_round-Fuelled :
    (f : ℕ) (s : String) (prog : Program) (l : Option Label)
    → ((t : String) (p : Program) → chars t < f → Fuelled (take_labels f t p))
    → Shorter (chars s) l
    → chars s < suc f
    → Fuelled (label_round (take_labels f) s prog l)
label_round-Fuelled f s prog none next l h = tt
label_round-Fuelled f s prog (some label) next l h =
    Fuelled-bind (put_label label prog) _ (put_label-Fuelled label prog)
      (λ p _. let shorter = chars-strip label.rest in next (strip label.rest) p (omega arith))

take_labels-Fuelled :
    (f : ℕ) (s : String) (prog : Program) → chars s < f → Fuelled (take_labels f s prog)
unfolding take_labels
take_labels-Fuelled zero s prog h = absurd (omega arith)
take_labels-Fuelled (suc f) s prog h =
    label_round-Fuelled f s prog (label_at s) (take_labels-Fuelled f) (label_at-Shorter s) h

instruction_line-Fuelled :
    (lineno : ℕ) (s : String) (prog : Program) → Fuelled (instruction_line lineno s prog)
unfolding instruction_line
instruction_line-Fuelled lineno s prog =
    Fuelled-bind (take_labels (suc (chars s)) s prog) _
      (take_labels-Fuelled (suc (chars s)) s prog (omega arith)) (λ r _. tt)

with_current-Fuelled :
    (f : Program → Result Program) (current : Option Program) (st : Source)
    → ((p : Program) → Fuelled (f p))
    → Fuelled (with_current f current st)
with_current-Fuelled f none st h = λ e. cc
with_current-Fuelled f (some prog) st h = Fuelled-bind (f prog) _ (h prog) (λ p _. tt)

dot_line-Fuelled : (s : String) (st : Source) → Fuelled (dot_line s st)
unfolding dot_line
dot_line-Fuelled s st =
    let toks = split_words s in
    Fuelled-bind (word_at 0 toks) _ (word_at-Fuelled 0 toks) (λ first _.
      let d = lower first in
      let arg = strip (drop_chars (chars first) s) in
      if-Fuelled (str_eq d ".program") _ _
        (Fuelled-bind (word_at 1 toks) _ (word_at-Fuelled 1 toks) (λ name _. tt))
        (if-Fuelled (str_eq d ".lang_opt") _ _ tt (
          if-Fuelled (str_eq d ".pio_version" && is_none st.current) _ _
            (raise_if-Fuelled (is_empty arg) index_error _ (λ h. cc)
              (Fuelled-bind (int_of_text arg) _ (int_of_text-Fuelled arg) (λ v _. tt)))
            (with_current-Fuelled (directive d arg) st.current st (directive-Fuelled d arg)))))

source_line-Fuelled : (lineno : ℕ) (s : String) (st : Source) → Fuelled (source_line lineno s st)
unfolding source_line
source_line-Fuelled lineno s st = if-Fuelled st.in_block _ _ tt (
    if-Fuelled (is_empty s) _ _ tt (
      if-Fuelled (starts_with s "%") _ _ tt (
        if-Fuelled (starts_with s ".") _ _ (dot_line-Fuelled s st) (
          with_current-Fuelled (instruction_line lineno s) st.current st
            (instruction_line-Fuelled lineno s)))))

source_lines-Fuelled :
    (lineno : ℕ) (raws : List String) (st : Source) → Fuelled (source_lines lineno raws st)
unfolding source_lines
source_lines-Fuelled lineno [] st = tt
source_lines-Fuelled lineno (raw ∷ raws) st =
    let s = strip (strip_comment raw) in
    Fuelled-bind (source_line lineno s st) _ (source_line-Fuelled lineno s st)
      (λ st' _. source_lines-Fuelled (lineno + 1) raws st')

assemble_lines-Fuelled :
    (prog : Program) (syms : Symbols) (lines : List (String × ℕ))
    → Fuelled (assemble_lines prog syms lines)
unfolding assemble_lines
assemble_lines-Fuelled prog syms [] = tt
assemble_lines-Fuelled prog syms ((t, lineno) ∷ lines) =
    Fuelled-bind (assemble_instruction t prog syms) _ (assemble_instruction-Fuelled t prog syms)
      (λ w _.
        Fuelled-bind (assemble_lines prog syms lines) _ (assemble_lines-Fuelled prog syms lines)
          (λ ws _. tt))

finish-Fuelled : (prog : Program) → Fuelled (finish prog)
unfolding finish
finish-Fuelled prog =
    raise_if-Fuelled (too_wide prog.sideset_bits) assembly_error _ (λ h. cc)
      (if-Fuelled (length prog.src_lines == 0) (ok (no_wrap prog.wrap prog)) _ tt (
        Fuelled-bind _ _
          (assemble_lines-Fuelled _ (map as_symbol prog.labels ++ prog.symbols) prog.src_lines)
          (λ ws _. tt)))

finish_all-Fuelled : (ps : List Program) → Fuelled (finish_all ps)
unfolding finish_all
finish_all-Fuelled [] = tt
finish_all-Fuelled (p ∷ ps) =
    Fuelled-bind (finish p) _ (finish-Fuelled p)
      (λ q _. Fuelled-bind (finish_all ps) _ (finish_all-Fuelled ps) (λ qs _. tt))

-- No loop of parse_text runs out of the fuel it is given, those over the labels and the postfixes
-- of a line and the parser of expressions included: whatever the text is, it returns programs or
-- an error of the source.
pub parse_text_terminates : (text : String) → parse_text text ≢ err out_of_fuel
unfolding parse_text
parse_text_terminates text =
    let lines = split_lines text in
    Fuelled-ne _ (
      Fuelled-bind (source_lines 1 lines start_source) _ (source_lines-Fuelled 1 lines start_source)
        (λ st _. finish_all-Fuelled (all_programs st.closed st.current)))
