-- ===== src/Disassembly.antt =====
-- `disassemble` of tools/pio_model/disasm.py, with its tables of names.
use vibe_pio.Base.{
  ℕ, ◌==◌, ◌&&◌, ◌||◌, not, Bool, true, false, shr, low_bits, [], ◌∷◌, Option, none, some,
  if◌then◌else◌, Result, ok, err, ◌>>=◌, ◌>>◌, raise_if, key_error, reserved_encoding, Dict,
}
use vibe_pio.Text.{String, ◌<>◌, decimal, is_empty}
use vibe_pio.Encoding.Split.{has_bit, pack_ds}
use vibe_pio.Encoding.Tables.{
  jc_always, jmp_conds, wsrc_gpio, wsrc_irq, wsrc_jmppin, in_srcs, out_dsts, movd_dsts, movs_srcs,
  mop_none, mop_inv, mop_rev, set_dsts, idx_modes,
}
use vibe_pio.Encoding.Decode.{Decoded, decode, bit_count}

abbrev or_else : Option String → Option String → Option String
or_else none t = t
or_else (some s) t = some s

-- `{v: k for k, v in table.items() if k is not None}` read at one value: the last key that has it.
name_of {ℓ} : {V : Type ℓ} → (V → Bool) → Dict V → Option String
name_of is [] = none
name_of is ((k, v) ∷ m) = or_else (name_of is m) (if is v then k else none)

abbrev is_code : ℕ → Option ℕ → Bool
is_code n none = false
is_code n (some v) = v == n

abbrev found : Option String → Result String
found none = err key_error
found (some t) = ok t

-- `table[v]`
abbrev name_at : Dict ℕ → ℕ → Result String
name_at table n = found (name_of (λ v. v == n) table)

-- `_IDX_MODES.get(v, "")`
abbrev or_empty : Option String → String
or_empty none = ""
or_empty (some t) = t

unfoldable pub mode_name : ℕ → String
unfolding name_of
mode_name n = or_empty (name_of (λ v. v == n) idx_modes)

-- `_OPS`
unfoldable pub op_text : ℕ → Result String
op_text n =
    if n == mop_none
    then ok ""
    else if n == mop_inv
    then ok "~"
    else if n == mop_rev
    then ok "::"
    else err key_error

-- `d[key]`
abbrev field : Option ℕ → Result ℕ
field none = err key_error
field (some v) = ok v

abbrev pub text_if : Bool → String → String
text_if true t = t
text_if false t = ""

unfoldable pub postfix : Decoded → String
postfix d =
    text_if d.ss_valid (" side " <> decimal d.ss_val)
    <> text_if (not (d.delay == 0)) (" [" <> (decimal d.delay <> "]"))

unfoldable pub jmp_text : Decoded → Result String
unfolding name_of
jmp_text d = do
  c ← field d.jmp_cond
  cond ← name_at jmp_conds c
  addr ← field d.jmp_addr
  ok ("jmp" <> (text_if (not (c == jc_always)) (" " <> (cond <> ",")) <> (" " <> decimal addr)))

abbrev wait_irq_text : ℕ → ℕ → String
wait_irq_text pol index =
    let mode = mode_name (shr index 3) in
    "wait "
    <> (decimal pol
        <> (" irq " <> (decimal (low_bits index 3) <> text_if (not (is_empty mode)) (" " <> mode))))

unfoldable pub wait_text : Decoded → Result String
unfolding mode_name
wait_text d = do
  src ← field d.wait_src
  index ← field d.wait_index
  pol ← field d.wait_pol
  ok (
      if src == wsrc_irq
      then wait_irq_text pol index
      else if src == wsrc_jmppin
      then "wait " <> (decimal pol <> (" jmppin " <> decimal (low_bits index 2)))
      else "wait "
        <> (decimal pol <> ((if src == wsrc_gpio then " gpio " else " pin ") <> decimal index)))

unfoldable pub in_text : Decoded → Result String
unfolding name_of
in_text d = do
  c ← field d.in_src
  src ← name_at in_srcs c
  ok ("in " <> (src <> (", " <> decimal (bit_count (low_bits d.word 5)))))

unfoldable pub out_text : Decoded → Result String
unfolding name_of
out_text d = do
  c ← field d.out_dst
  dst ← name_at out_dsts c
  ok ("out " <> (dst <> (", " <> decimal (bit_count (low_bits d.word 5)))))

abbrev block_text : ℕ → String
block_text blk = if blk == 0 then " noblock" else " block"

unfoldable pub push_pull_text : Decoded → Result String
push_pull_text d = do
  iff ← if d.is_push then field d.push_iff else ok 0
  ife ← if d.is_pull then field d.pull_ife else ok 0
  blk ← if d.is_push then field d.push_blk else field d.pull_blk
  ok (
      (if d.is_push then "push" else "pull")
      <> (text_if (d.is_push && not (iff == 0)) " iffull"
          <> (text_if (d.is_pull && not (ife == 0)) " ifempty" <> block_text blk)))

unfoldable pub aux_text : Decoded → Result String
aux_text d = do
  raise_if (not (low_bits (shr d.word 5) 3 == (if d.is_get then 4 else 0))) reserved_encoding
  idxi ← field d.aux_idxi
  index ← field d.aux_index
  let idx = if idxi == 0 then "[y]" else "[" <> (decimal index <> "]")
  ok (if d.is_put then "mov rxfifo" <> (idx <> ", isr") else "mov osr, rxfifo" <> idx)

unfoldable pub mov_text : ℕ → Decoded → Result String
unfolding name_of op_text
mov_text word d = do
  dst ← field d.mov_dst
  src ← field d.mov_src
  op ← field d.mov_op
  let moved = do
    to ← found (name_of (is_code dst) movd_dsts)
    o ← op_text op
    from ← found (name_of (is_code src) movs_srcs)
    ok ("mov " <> (to <> (", " <> (o <> from))))
  if low_bits word 16 == 0xa042 then ok "nop" else moved

unfoldable pub irq_text : Decoded → Result String
unfolding mode_name
irq_text d = do
  raise_if (has_bit d.word 7) reserved_encoding
  clr ← field d.irq_clr
  wait ← field d.irq_wait
  m ← field d.irq_idxmode
  index ← field d.irq_index
  let mode = mode_name m
  ok (
      "irq"
      <> ((if not (clr == 0) then " clear" else if not (wait == 0) then " wait" else "")
          <> (" " <> (decimal index <> text_if (not (is_empty mode)) (" " <> mode)))))

unfoldable pub set_text : Decoded → Result String
unfolding name_of
set_text d = do
  c ← field d.set_dst
  dst ← name_at set_dsts c
  v ← field d.set_data
  ok ("set " <> (dst <> (", " <> decimal v)))

-- The instruction without its postfix.
unfoldable pub core_text : ℕ → Decoded → Result String
core_text word d =
    if d.is_jmp
    then jmp_text d
    else if d.is_wait
    then wait_text d
    else if d.is_in
    then in_text d
    else if d.is_out
    then out_text d
    else if d.is_push || d.is_pull
    then push_pull_text d
    else if d.is_put || d.is_get
    then aux_text d
    else if d.is_mov
    then mov_text word d
    else if d.is_irq
    then irq_text d
    else set_text d

unfoldable pub disassemble : ℕ → Bool → ℕ → Result String
disassemble word side_en sideset_count = do
  d ← decode word side_en sideset_count
  raise_if d.illegal reserved_encoding
  repack ← pack_ds d.delay d.ss_val side_en sideset_count d.ss_valid
  raise_if (not (repack == low_bits (shr word 8) 5)) reserved_encoding
  core ← core_text word d
  ok (core <> postfix d)
