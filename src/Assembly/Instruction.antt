-- ===== src/Assembly/Instruction.antt =====
-- `assemble_instruction` of tools/pio_model/asm.py.
pub mod Fuel
use Prim.Native.Char.{code}
use vibe_pio.Base.{
  ℕ, ◌==◌, Bool, ltb, shl, low_bits, bit_or, List, [], ◌∷◌, if◌then◌else◌, Result, ok, err, ◌>>=◌,
  ◌>>◌, raise_if, key_error, value_error, index_error, assembly_error,
}
use vibe_pio.Text.{String, ◌<>◌, lower, lstrip_by, rstrip_by, strip, drop_chars, chars, split_words}
use vibe_pio.Encoding.Split.{pack_ds}
use vibe_pio.Assembly.Integers.{low_word}
use vibe_pio.Assembly.Expressions.{Symbols}
use vibe_pio.Assembly.Program.{Program, sideset_count, side_en}
use vibe_pio.Assembly.Postfixes.{Postfixed, postfixes}
use vibe_pio.Assembly.Operands.{encode_core}

-- `line.replace(",", " , ")`
unfoldable pub space_commas : String → String
space_commas String.[] = String.[]
space_commas (String.◌∷◌ c s) =
    if code c == b',' then " , " <> space_commas s else String.◌∷◌ c (space_commas s)

abbrev first_word : List String → Result String
first_word [] = err index_error
first_word (w ∷ ws) = ok w

-- `except KeyError`
abbrev as_assembly_error : Result ℕ → Result ℕ
as_assembly_error (ok word) = ok word
as_assembly_error (err key_error) = err assembly_error
as_assembly_error (err e) = err e

-- The line without its postfixes.
unfoldable pub assemble_core : Symbols → String → Result ℕ
unfolding space_commas lower lstrip_by rstrip_by drop_chars chars
assemble_core sym line = do
  w ← first_word (split_words (space_commas line))
  as_assembly_error (encode_core sym (lower w) (strip (drop_chars (chars w) line)))

-- `E.pack_ds` reads at most the low bits of the two values.
unfoldable pub pack_postfixes : Bool → ℕ → Postfixed → Result ℕ
unfolding low_word
pack_postfixes side_en count p =
    pack_ds (low_word p.delay) (low_word p.side_val) side_en count p.side_present

unfoldable pub assemble_line : Bool → ℕ → Symbols → String → Result ℕ
assemble_line side_en count sym text = do
  p ← postfixes text sym
  ds ← pack_postfixes side_en count p
  word ← assemble_core sym p.line
  ok (low_bits (bit_or word (shl ds 8)) 16)

unfoldable pub assemble_instruction : String → Program → Symbols → Result ℕ
unfolding low_word
assemble_instruction text prog sym =
    assemble_line (side_en prog) (low_word (sideset_count prog)) sym text
