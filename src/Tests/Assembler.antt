-- ===== src/Tests/Assembler.antt =====
-- The doctests of tools/pio_model/asm.py and disasm.py, and the theorems on the two applied to them.
use vibe_pio.Base.{
  ◌↔◌, low_bits, shr, ℕ, ◌≡◌, ◌≢◌, refl, arith, true, false, List, [], ◌∷◌, none, some, Result, ok,
  err, ◌>>=◌, map, Error, reserved_encoding, out_of_fuel, assembly_error, value_error,
  zero_division,
}
use vibe_pio.Text.{String}
use vibe_pio.Disassembly.{disassemble}
use vibe_pio.Assembly.Integers.{ℤ, pos, negsuc, low_word}
use vibe_pio.Assembly.Expressions.{Symbols, eval_expr}
use vibe_pio.Assembly.Program.{Program, sideset_count, side_en}
use vibe_pio.Assembly.Instruction.{assemble_instruction}
use vibe_pio.Assembly.Directives.{new_program}
use vibe_pio.Assembly.Source.{parse_text}
use vibe_pio.Assembly.Source.Fuel.{parse_text_terminates}
use vibe_pio.Assembly.Laws.RoundTrip.{assemble_instruction-disassemble}
use vibe_pio.Assembly.Laws.Named.{decoded}
use vibe_pio.Assembly.Laws.Cores.{plain_side, decode_plain}
use vibe_pio.Assembly.Laws.Texts.{has_text, disassemble-completes}
use vibe_pio.Encoding.Split.{pack_ds}
use vibe_pio.Encoding.Decode.{Decoded}
use vibe_pio.Assembly.Laws.Refusals.{disassemble-err}

parse_text_terminates_example :
    parse_text ".program t\na: b: nop side 0 [((1<<4) | N\n" ≢ err out_of_fuel
parse_text_terminates_example = parse_text_terminates ".program t\na: b: nop side 0 [((1<<4) | N\n"

-- `.side_set 1 opt`
abbrev sided : Program
sided = record (new_program "sided") { sideset_bits = some (pos 1); sideset_opt = true }

sided_text :
    disassemble 0xFB01 (side_en sided) (low_word (sideset_count sided))
    ≡ ok "set pins, 1 side 1 [3]"
unfolding vibe_pio.Text.decimal vibe_pio.Encoding.Split.split vibe_pio.Encoding.Split.sideset_fields
    vibe_pio.Encoding.Split.split_sideset vibe_pio.Encoding.Split.pack_fields
    vibe_pio.Encoding.Split.pack_ds vibe_pio.Encoding.Split.encode vibe_pio.Encoding.Decode.blank
    vibe_pio.Encoding.Decode.decode_wait vibe_pio.Encoding.Decode.decode_in
    vibe_pio.Encoding.Decode.decode_pp vibe_pio.Encoding.Decode.decode_mov
    vibe_pio.Encoding.Decode.decode_irq vibe_pio.Encoding.Decode.decode_set
    vibe_pio.Encoding.Decode.decode_class vibe_pio.Encoding.Decode.decode vibe_pio.Base.bit_length
    vibe_pio.Disassembly.mode_name vibe_pio.Disassembly.op_text vibe_pio.Disassembly.postfix
    vibe_pio.Disassembly.jmp_text vibe_pio.Disassembly.wait_text vibe_pio.Disassembly.in_text
    vibe_pio.Disassembly.out_text vibe_pio.Disassembly.push_pull_text vibe_pio.Disassembly.aux_text
    vibe_pio.Disassembly.mov_text vibe_pio.Disassembly.irq_text vibe_pio.Disassembly.set_text
    vibe_pio.Disassembly.core_text vibe_pio.Disassembly.disassemble vibe_pio.Assembly.Integers.◌+ℤ◌
    vibe_pio.Assembly.Integers.low_word vibe_pio.Assembly.Program.sideset_count
    vibe_pio.Assembly.Program.side_en
sided_text = refl

assemble_instruction-disassemble_example :
    assemble_instruction "set pins, 1 side 1 [3]" sided (("pins", pos 7) ∷ []) ≡ ok 0xFB01
assemble_instruction-disassemble_example =
    assemble_instruction-disassemble 0xFB01 "set pins, 1 side 1 [3]" sided (("pins", pos 7) ∷ [])
      (omega arith) sided_text

disassemble-completes_example : ((text : String) × (disassemble 0xE301 false 0 ≡ ok text)) ↔ (
    ((decoded 0xE301 (plain_side 0xE301)).illegal ≡ false)
    × (pack_ds
          (decoded 0xE301 (plain_side 0xE301)).delay
          (decoded 0xE301 (plain_side 0xE301)).ss_val
          false
          0
          (decoded 0xE301 (plain_side 0xE301)).ss_valid
        ≡ ok (low_bits (shr 0xE301 8) 5))
    × (has_text 0xE301 ≡ true))
disassemble-completes_example =
    disassemble-completes 0xE301 false 0 (decoded 0xE301 (plain_side 0xE301)) (omega arith)
      (decode_plain 0xE301)

reserved_text : disassemble 0x9F08 false 0 ≡ err reserved_encoding
unfolding vibe_pio.Text.decimal vibe_pio.Encoding.Split.split vibe_pio.Encoding.Split.sideset_fields
    vibe_pio.Encoding.Split.split_sideset vibe_pio.Encoding.Split.pack_fields
    vibe_pio.Encoding.Split.pack_ds vibe_pio.Encoding.Split.encode vibe_pio.Encoding.Decode.blank
    vibe_pio.Encoding.Decode.decode_wait vibe_pio.Encoding.Decode.decode_in
    vibe_pio.Encoding.Decode.decode_pp vibe_pio.Encoding.Decode.decode_mov
    vibe_pio.Encoding.Decode.decode_irq vibe_pio.Encoding.Decode.decode_set
    vibe_pio.Encoding.Decode.decode_class vibe_pio.Encoding.Decode.decode vibe_pio.Base.bit_length
    vibe_pio.Disassembly.mode_name vibe_pio.Disassembly.op_text vibe_pio.Disassembly.postfix
    vibe_pio.Disassembly.jmp_text vibe_pio.Disassembly.wait_text vibe_pio.Disassembly.in_text
    vibe_pio.Disassembly.out_text vibe_pio.Disassembly.push_pull_text vibe_pio.Disassembly.aux_text
    vibe_pio.Disassembly.mov_text vibe_pio.Disassembly.irq_text vibe_pio.Disassembly.set_text
    vibe_pio.Disassembly.core_text vibe_pio.Disassembly.disassemble vibe_pio.Assembly.Integers.◌+ℤ◌
    vibe_pio.Assembly.Integers.low_word vibe_pio.Assembly.Program.sideset_count
    vibe_pio.Assembly.Program.side_en
reserved_text = refl

disassemble-err_example : reserved_encoding ≡ reserved_encoding
disassemble-err_example =
    disassemble-err 0x9F08 false 0 reserved_encoding (omega arith) reserved_text

-- The words of each program of a text, with everything open that the assembler computes with.
words_of : Result (List Program) → Result (List (List ℕ))
words_of r = do ps ← r; ok (map (λ p. p.words) ps)

assembled : String → Result (List (List ℕ))
unfolding vibe_pio.Text.starts_with vibe_pio.Text.lower vibe_pio.Text.lstrip_by
    vibe_pio.Text.rstrip_by vibe_pio.Text.span vibe_pio.Text.drop_chars vibe_pio.Text.chars
    vibe_pio.Text.split_words vibe_pio.Text.contains vibe_pio.Text.contains_word
    vibe_pio.Encoding.Split.pack_fields vibe_pio.Encoding.Split.pack_ds
    vibe_pio.Encoding.Split.encode vibe_pio.Encoding.Encode.encode_jmp
    vibe_pio.Encoding.Encode.encode_wait vibe_pio.Encoding.Encode.encode_in
    vibe_pio.Encoding.Encode.encode_out vibe_pio.Encoding.Encode.encode_push
    vibe_pio.Encoding.Encode.encode_pull vibe_pio.Encoding.Encode.encode_put
    vibe_pio.Encoding.Encode.encode_get vibe_pio.Encoding.Encode.encode_mov
    vibe_pio.Encoding.Encode.encode_irq vibe_pio.Encoding.Encode.encode_set vibe_pio.Base.bit_length
    vibe_pio.Assembly.Integers.◌+ℤ◌ vibe_pio.Assembly.Integers.◌-ℤ◌ vibe_pio.Assembly.Integers.◌*ℤ◌
    vibe_pio.Assembly.Integers.and_ℤ vibe_pio.Assembly.Integers.or_ℤ
    vibe_pio.Assembly.Integers.xor_ℤ vibe_pio.Assembly.Integers.shl_ℤ
    vibe_pio.Assembly.Integers.shr_ℤ vibe_pio.Assembly.Integers.cut_quotient
    vibe_pio.Assembly.Integers.quot_ℤ vibe_pio.Assembly.Integers.low_word
    vibe_pio.Assembly.Expressions.symbol vibe_pio.Assembly.Expressions.token_at
    vibe_pio.Assembly.Expressions.expr_tokens vibe_pio.Assembly.Expressions.int_of
    vibe_pio.Assembly.Expressions.precedence vibe_pio.Assembly.Expressions.apply_op
    vibe_pio.Assembly.Expressions.operand vibe_pio.Assembly.Expressions.eval_expr
    vibe_pio.Assembly.Program.sideset_count vibe_pio.Assembly.Program.side_en
    vibe_pio.Assembly.Postfixes.delay_at vibe_pio.Assembly.Postfixes.delay_search
    vibe_pio.Assembly.Postfixes.side_at vibe_pio.Assembly.Postfixes.side_search
    vibe_pio.Assembly.Postfixes.take_postfixes vibe_pio.Assembly.Postfixes.postfixes
    vibe_pio.Assembly.Operands.opnd vibe_pio.Assembly.Operands.split2
    vibe_pio.Assembly.Operands.encode_jmp_core vibe_pio.Assembly.Operands.encode_wait_core
    vibe_pio.Assembly.Operands.rxfifo_index vibe_pio.Assembly.Operands.encode_mov_core
    vibe_pio.Assembly.Operands.encode_irq_core vibe_pio.Assembly.Operands.encode_core
    vibe_pio.Assembly.Instruction.space_commas vibe_pio.Assembly.Instruction.assemble_core
    vibe_pio.Assembly.Instruction.pack_postfixes vibe_pio.Assembly.Instruction.assemble_line
    vibe_pio.Assembly.Instruction.assemble_instruction vibe_pio.Assembly.Lines.split_lines
    vibe_pio.Assembly.Lines.strip_comment vibe_pio.Assembly.Lines.label_at
    vibe_pio.Assembly.Directives.int_of_text vibe_pio.Assembly.Directives.cut_word
    vibe_pio.Assembly.Directives.directive vibe_pio.Assembly.Source.source_line
    vibe_pio.Assembly.Source.finish vibe_pio.Assembly.Source.parse_text vibe_pio.Base.dict_get
assembled text = words_of (parse_text text)

doctest : assembled ".program t\nloop: set pins, 1 [3]\njmp loop\n" ≡ ok ((0xE301 ∷ 0 ∷ []) ∷ [])
unfolding words_of assembled
doctest = refl

-- Comments, a block of another language, a side-set, a symbol, a label of the next line and a loop.
listing :
    assembled
      ".program a ; first\n.side_set 1 opt\n.define public T 4-1\n/* x */ wait 1 gpio T side 0 [T]\nup:\n mov x, ~isr // y\n jmp x--, up\n% c {\njunk\n%}\n"
    ≡ ok ((0x3383 ∷ 0xA02E ∷ 0x0041 ∷ []) ∷ [])
unfolding words_of assembled
listing = refl

unknown : assembled ".program t\njmp nowhere\n" ≡ err assembly_error
unfolding words_of assembled
unknown = refl

-- A label whose name begins with a condition is taken for the condition.
pin_label :
    assembled ".program t\npinloop: nop\nloop: jmp pinloop\n" ≡ ok ((0xA042 ∷ 0x00C1 ∷ []) ∷ [])
unfolding words_of assembled
pin_label = refl

-- The other operand of a FIFO move is not looked at.
any_source : assembled ".program t\nmov rxfifo[1], nonsense\n" ≡ ok ((0x8019 ∷ []) ∷ [])
unfolding words_of assembled
any_source = refl

-- A count of 6 passes the test of the bits, and then a shift by a negative count raises.
six_bits : assembled ".program t\n.side_set 5 opt\nnop side 0\n" ≡ err value_error
unfolding words_of assembled
six_bits = refl

-- The values of an expression.
value_of : String → Symbols → Result ℤ
unfolding vibe_pio.Text.starts_with vibe_pio.Text.lower vibe_pio.Text.lstrip_by
    vibe_pio.Text.rstrip_by vibe_pio.Text.span vibe_pio.Text.drop_chars vibe_pio.Text.chars
    vibe_pio.Text.split_words vibe_pio.Text.contains vibe_pio.Text.contains_word
    vibe_pio.Base.bit_length vibe_pio.Assembly.Integers.◌+ℤ◌ vibe_pio.Assembly.Integers.◌-ℤ◌
    vibe_pio.Assembly.Integers.◌*ℤ◌ vibe_pio.Assembly.Integers.and_ℤ vibe_pio.Assembly.Integers.or_ℤ
    vibe_pio.Assembly.Integers.xor_ℤ vibe_pio.Assembly.Integers.shl_ℤ
    vibe_pio.Assembly.Integers.shr_ℤ vibe_pio.Assembly.Integers.cut_quotient
    vibe_pio.Assembly.Integers.quot_ℤ vibe_pio.Assembly.Integers.low_word
    vibe_pio.Assembly.Expressions.symbol vibe_pio.Assembly.Expressions.token_at
    vibe_pio.Assembly.Expressions.expr_tokens vibe_pio.Assembly.Expressions.int_of
    vibe_pio.Assembly.Expressions.precedence vibe_pio.Assembly.Expressions.apply_op
    vibe_pio.Assembly.Expressions.operand vibe_pio.Assembly.Expressions.eval_expr
value_of = eval_expr

precedences : value_of "1+2*3" [] ≡ ok (pos 7)
unfolding value_of
precedences = refl

truncates : value_of " -7/2" [] ≡ ok (negsuc 2)
unfolding value_of
truncates = refl

symbols : value_of "(1<<4) | N" (("N", pos 1) ∷ []) ≡ ok (pos 17)
unfolding value_of
symbols = refl

-- The quotient is a float of 53 bits before it is cut.
rounds : value_of "9007199254740993/1" [] ≡ ok (pos 9007199254740992)
unfolding value_of
rounds = refl

no_modulus : value_of "1%0" [] ≡ err zero_division
unfolding value_of
no_modulus = refl
