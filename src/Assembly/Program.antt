-- ===== src/Assembly/Program.antt =====
-- `Program` of tools/pio_model/asm.py, the lines and the words of one program. Its canonical texts,
-- which the assembler never writes, are left out.
use vibe_pio.Base.{ℕ, Bool, ◌&&◌, List, Option, none, some, bool_int}
use vibe_pio.Text.{String}
use vibe_pio.Assembly.Integers.{ℤ, pos, ◌+ℤ◌}
use vibe_pio.Assembly.Expressions.{Symbols}

pub record Program : Type 0 where
  pub name : String
  pub pio_version : Option ℤ
  pub origin : ℤ
  pub wrap_target : Option ℕ
  pub wrap : Option ℤ
  pub sideset_bits : Option ℤ
  pub sideset_opt : Bool
  pub sideset_pindirs : Bool
  pub symbols : Symbols
  pub public_symbols : List String
  pub labels : List (String × ℕ)
  pub public_labels : List String
  pub src_lines : List (String × ℕ)
  pub words : List ℕ

abbrev present : Option ℤ → Bool
present none = Bool.false
present (some b) = Bool.true

-- The property `sideset_count`.
abbrev count_of : Option ℤ → Bool → ℤ
count_of none opt = pos 0
count_of (some bits) opt = bits +ℤ pos (bool_int opt)

unfoldable pub sideset_count : Program → ℤ
sideset_count prog = count_of prog.sideset_bits prog.sideset_opt

unfoldable pub side_en : Program → Bool
side_en prog = present prog.sideset_bits && prog.sideset_opt
