-- ===== src/Assembly/Instruction/Fuel.antt =====
-- `assemble_instruction` never runs out of fuel.
use vibe_pio.Base.{
  if-Fuelled, ℕ, ◌==◌, ◌&&◌, Bool, not, low_bits, ltb, List, [], ◌∷◌, Result, ok, err, key_error,
  value_error, index_error, reserved_encoding, assertion_error, assembly_error, zero_division,
  overflow_error, out_of_fuel, Fuelled, Fuelled-bind,
}
use vibe_pio.Text.{String, split_words, lower, strip, drop_chars, chars}
use vibe_pio.Encoding.Split.{pack_ds, pack_fields}
use vibe_pio.Assembly.Integers.{low_word}
use vibe_pio.Assembly.Expressions.{Symbols}
use vibe_pio.Assembly.Program.{Program, side_en, sideset_count}
use vibe_pio.Assembly.Postfixes.{Postfixed, postfixes}
use vibe_pio.Assembly.Postfixes.Fuel.{postfixes-Fuelled}
use vibe_pio.Assembly.Operands.{encode_core}
use vibe_pio.Assembly.Operands.Fuel.{encode_core-Fuelled}
use vibe_pio.Assembly.Instruction.{
  space_commas, first_word, as_assembly_error, assemble_core, pack_postfixes, assemble_line,
  assemble_instruction,
}

pack_ds-Fuelled :
    (delay v : ℕ) (en : Bool) (count : ℕ) (present : Bool)
    → Fuelled (pack_ds delay v en count present)
unfolding pack_ds pack_fields
pack_ds-Fuelled delay v en count present =
    if-Fuelled (low_bits count 3 == 0) _ _
      (if-Fuelled (present && not (v == 0)) (err reserved_encoding) (ok (low_bits delay 5))
        (λ h. cc) tt)
      (if-Fuelled (ltb 5 (low_bits count 3)) (err value_error) _ (λ h. cc) tt)

pack_postfixes-Fuelled :
    (en : Bool) (count : ℕ) (p : Postfixed) → Fuelled (pack_postfixes en count p)
unfolding pack_postfixes
pack_postfixes-Fuelled en count p =
    pack_ds-Fuelled (low_word p.delay) (low_word p.side_val) en count p.side_present

first_word-Fuelled : (ws : List String) → Fuelled (first_word ws)
first_word-Fuelled [] = λ h. cc
first_word-Fuelled (w ∷ ws) = tt

as_assembly_error-Fuelled : (r : Result ℕ) → Fuelled r → Fuelled (as_assembly_error r)
as_assembly_error-Fuelled (ok w) h = tt
as_assembly_error-Fuelled (err key_error) h = λ e. cc
as_assembly_error-Fuelled (err reserved_encoding) h = h
as_assembly_error-Fuelled (err value_error) h = h
as_assembly_error-Fuelled (err index_error) h = h
as_assembly_error-Fuelled (err assertion_error) h = h
as_assembly_error-Fuelled (err assembly_error) h = h
as_assembly_error-Fuelled (err zero_division) h = h
as_assembly_error-Fuelled (err overflow_error) h = h
as_assembly_error-Fuelled (err out_of_fuel) h = h

assemble_core-Fuelled : (syms : Symbols) (line : String) → Fuelled (assemble_core syms line)
unfolding assemble_core
assemble_core-Fuelled syms line =
    let ws = split_words (space_commas line) in
    Fuelled-bind (first_word ws) _ (first_word-Fuelled ws) (λ w _.
      let rest = strip (drop_chars (chars w) line) in
      as_assembly_error-Fuelled (encode_core syms (lower w) rest)
        (encode_core-Fuelled syms (lower w) rest))

assemble_line-Fuelled :
    (en : Bool) (count : ℕ) (syms : Symbols) (text : String)
    → Fuelled (assemble_line en count syms text)
unfolding assemble_line
assemble_line-Fuelled en count syms text =
    Fuelled-bind (postfixes text syms) _ (postfixes-Fuelled text syms) (λ p _.
      Fuelled-bind (pack_postfixes en count p) _ (pack_postfixes-Fuelled en count p) (λ ds _.
        Fuelled-bind (assemble_core syms p.line) _ (assemble_core-Fuelled syms p.line) (λ w _. tt)))

pub assemble_instruction-Fuelled :
    (text : String) (prog : Program) (syms : Symbols)
    → Fuelled (assemble_instruction text prog syms)
unfolding assemble_instruction
assemble_instruction-Fuelled text prog syms =
    assemble_line-Fuelled (side_en prog) (low_word (sideset_count prog)) syms text
