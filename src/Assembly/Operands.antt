-- ===== src/Assembly/Operands.antt =====
-- `_opnd`, `_split2` and `_encode_core` of tools/pio_model/asm.py: the operands of one instruction.
pub mod Fuel
use Prim.Native.Char.{Char, code}
use vibe_pio.Base.{
  ℕ, ◌==◌, ◌&&◌, ◌||◌, not, Bool, true, false, ltb, shl, bit_or, List, [], ◌∷◌, if◌then◌else◌,
  Option, none, some, Result, ok, err, ◌>>=◌, ◌>>◌, raise_if, index_error, assembly_error, dict_get,
}
use vibe_pio.Text.{
  String, str_eq, starts_with, is_empty, is_space, lower, lstrip_by, rstrip_by, strip_by, strip,
  span, drop_chars, chars, split_words, contains, contains_word,
}
use vibe_pio.Encoding.Tables.{
  wsrc_gpio, wsrc_pin, wsrc_irq, wsrc_jmppin, mop_none, mop_inv, mop_rev, idx_modes,
}
use vibe_pio.Encoding.Encode.{
  encode_jmp, encode_wait, encode_in, encode_out, encode_push, encode_pull, encode_put, encode_get,
  encode_mov, encode_irq, encode_set, by_code,
}
use vibe_pio.Assembly.Integers.{low_word}
use vibe_pio.Assembly.Expressions.{Symbols, eval_expr}

abbrev is_comma : Char → Bool
is_comma c = code c == b','

abbrev not_comma : Char → Bool
not_comma c = not (code c == b',')

-- `rest.strip().rstrip(",").strip()`, evaluated; the encoders read at most its low 32 bits.
unfoldable pub opnd : Symbols → String → Result ℕ
unfolding lstrip_by rstrip_by low_word
opnd sym rest = do v ← eval_expr (strip (rstrip_by is_comma (strip rest))) sym; ok (low_word v)

abbrev halves : String × String → Result (String × String)
halves (a, String.[]) = err assembly_error
halves (a, String.◌∷◌ c b) = ok (strip a, strip b)

unfoldable pub split2 : String → Result (String × String)
unfolding span lstrip_by rstrip_by
split2 rest = halves (span not_comma rest)

-- The loop over the conditions, with what it leaves of the operands.
pick_cond : List String → String → Option String × String
pick_cond [] rest = (none, rest)
pick_cond (c ∷ cs) rest =
    if starts_with (lower rest) c && ltb (chars c) (chars rest)
    then (some c, strip (lstrip_by is_comma (strip (drop_chars (chars c) rest))))
    else pick_cond cs rest

abbrev cond_texts : List String
cond_texts = "x != y" ∷ "!x" ∷ "x--" ∷ "!y" ∷ "y--" ∷ "pin" ∷ "!osre" ∷ []

unfoldable pub encode_jmp_core : Symbols → String → Result ℕ
unfolding pick_cond lower starts_with drop_chars chars opnd
encode_jmp_core sym rest = do
  let (cond, target) = pick_cond cond_texts rest
  addr ← opnd sym target
  encode_jmp cond addr 0

abbrev is_mode : String → Bool
is_mode t = str_eq t "rel" || str_eq t "prev" || str_eq t "next"

-- The variables of the loops over the words of WAIT and IRQ; the index of WAIT starts at 0.
pub record Words : Type 0 where
  pub mode : Option String
  pub idx : Option ℕ
  pub clr : Bool
  pub wait : Bool

abbrev no_words : Words
no_words = record { mode = none; idx = none; clr = false; wait = false }

wait_words : Symbols → Words → List String → Result Words
wait_words sym w [] = ok w
wait_words sym w (t ∷ ts) =
    let tl = strip_by is_comma t in
    let value : Result Words = (do
      v ← eval_expr tl sym
      ok (record w { idx = some (low_word v) })) in
    (if is_mode tl then ok (record w { mode = some tl }) else value) >>= λ w'. wait_words sym w' ts

-- `srcmap[src]`
wait_src_code : String → Result ℕ
wait_src_code src =
    if str_eq src "gpio"
    then ok wsrc_gpio
    else if str_eq src "pin"
    then ok wsrc_pin
    else if str_eq src "irq"
    then ok wsrc_irq
    else if str_eq src "jmppin"
    then ok wsrc_jmppin
    else err assembly_error

abbrev or_zero : Option ℕ → ℕ
or_zero none = 0
or_zero (some n) = n

wait_parts : Symbols → List String → Result ℕ
wait_parts sym [] = err index_error
wait_parts sym (pol ∷ []) = err index_error
wait_parts sym (pol ∷ (source ∷ ts)) = do
  let src = lower (strip_by is_comma source)
  w ← wait_words sym no_words ts
  c ← wait_src_code src
  index ←
      if str_eq src "irq"
      then (do m ← dict_get idx_modes w.mode; ok (bit_or (shl m 3) (or_zero w.idx)))
      else ok (or_zero w.idx)
  ok (encode_wait (str_eq pol "1") c index 0)

unfoldable pub encode_wait_core : Symbols → String → Result ℕ
unfolding wait_parts wait_words wait_src_code
encode_wait_core sym rest = wait_parts sym (split_words rest)

-- IN, OUT and SET: a name and an expression.
abbrev pair_core : (String → ℕ → ℕ → Result ℕ) → Symbols → String → Result ℕ
pair_core encoder sym rest = do ab ← split2 rest; v ← opnd sym ab.1; encoder (lower ab.0) v 0

-- What stands in the brackets of `rxfifo\s*\[([^\]]*)\]` at the start of a text.
abbrev not_close : Char → Bool
not_close c = not (code c == b']')

abbrev bracketed : String × String → Option String
bracketed (group, rest) = if is_empty rest then none else some group

after_rxfifo : String → Option String
after_rxfifo String.[] = none
after_rxfifo (String.◌∷◌ c s) = if code c == b'[' then bracketed (span not_close s) else none

unfoldable pub rxfifo_index : String → Option String
unfolding after_rxfifo lower starts_with drop_chars lstrip_by
rxfifo_index s =
    if starts_with (lower s) "rxfifo"
    then after_rxfifo (lstrip_by is_space (drop_chars 6 s))
    else none

aux_value : Symbols → String → Result (Option ℕ)
aux_value sym group =
    let idx = strip group in
    let value : Result (Option ℕ) = (do v ← eval_expr idx sym; ok (some (low_word v))) in
    if is_empty idx || str_eq (lower idx) "y" then ok none else value

-- The source without its operator.
mov_operator : String → ℕ × String
mov_operator src =
    if starts_with src "~" || starts_with src "!"
    then (mop_inv, drop_chars 1 src)
    else if starts_with src "::"
    then (mop_rev, drop_chars 2 src)
    else (mop_none, src)

mov_operands : Symbols → String → String → Option String → Option String → Result ℕ
mov_operands sym dst src (some group) from = do idx ← aux_value sym group; ok (encode_put idx 0)
mov_operands sym dst src none (some group) = do idx ← aux_value sym group; ok (encode_get idx 0)
mov_operands sym dst src none none =
    let (op, s) = mov_operator src in encode_mov (lower dst) (strip (lower s)) op 0

unfoldable pub encode_mov_core : Symbols → String → Result ℕ
unfolding mov_operands mov_operator aux_value starts_with drop_chars
encode_mov_core sym rest = do
  ab ← split2 rest
  mov_operands sym ab.0 ab.1 (rxfifo_index ab.0) (rxfifo_index ab.1)

abbrev irq_value : Symbols → String → Words → Option ℕ → Result Words
irq_value sym tl w (some n) = ok w
irq_value sym tl w none = do v ← eval_expr tl sym; ok (record w { idx = some (low_word v) })

irq_words : Symbols → Words → List String → Result Words
irq_words sym w [] = ok w
irq_words sym w (t ∷ ts) =
    let tl = strip_by is_comma t in
    (if str_eq tl "clear"
      then ok (record w { clr = true })
      else if str_eq tl "wait"
      then ok (record w { wait = true })
      else if str_eq tl "nowait" || str_eq tl "set"
      then ok w
      else if is_mode tl
      then ok (record w { mode = some tl })
      else irq_value sym tl w w.idx)
    >>= λ w'. irq_words sym w' ts

abbrev irq_index : Option ℕ → Result ℕ
irq_index none = err assembly_error
irq_index (some n) = ok n

unfoldable pub encode_irq_core : Symbols → String → Result ℕ
unfolding irq_words
encode_irq_core sym rest = do
  w ← irq_words sym no_words (split_words rest)
  idx ← irq_index w.idx
  m ← dict_get idx_modes w.mode
  encode_irq w.clr w.wait (by_code m) idx 0

-- The branches on the mnemonic.
unfoldable pub encode_core : Symbols → String → String → Result ℕ
encode_core sym mn rest =
    if str_eq mn "nop"
    then (raise_if (not (is_empty rest)) assembly_error >> encode_mov "y" "y" mop_none 0)
    else if str_eq mn "jmp"
    then encode_jmp_core sym rest
    else if str_eq mn "wait"
    then encode_wait_core sym rest
    else if str_eq mn "in"
    then pair_core encode_in sym rest
    else if str_eq mn "out"
    then pair_core encode_out sym rest
    else if str_eq mn "push"
    then ok (
        encode_push (contains rest "iffull" || contains rest "ifempty")
          (not (contains_word rest "noblock")) 0)
    else if str_eq mn "pull"
    then ok (
        encode_pull (contains rest "iffull" || contains rest "ifempty")
          (not (contains_word rest "noblock")) 0)
    else if str_eq mn "mov"
    then encode_mov_core sym rest
    else if str_eq mn "irq"
    then encode_irq_core sym rest
    else if str_eq mn "set"
    then pair_core encode_set sym rest
    else err assembly_error
