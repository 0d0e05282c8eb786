-- ===== src/Encoding/Encode.antt =====
-- The `encode_*` functions of tools/pio_model/encoding.py, one for each instruction form.
use Prim.Native.String.{String}
use vibe_pio.Base.{
  ℕ, Bool, bool_int, shl, low_bits, bit_or, Result, ok, err, ◌>>=◌, Option, none, some, dict_get,
  key_error,
}
use vibe_pio.Encoding.Split.{encode}
use vibe_pio.Encoding.Tables.{
  c_jmp, c_wait, c_in, c_out, c_pp, c_mov, c_irq, c_set, jmp_conds, in_srcs, out_dsts, movd_dsts,
  movs_srcs, set_dsts, idx_modes,
}

unfoldable pub encode_jmp : Option String → ℕ → ℕ → Result ℕ
encode_jmp cond addr ds = do code ← dict_get jmp_conds cond; ok (encode c_jmp code addr ds)

unfoldable pub encode_wait : Bool → ℕ → ℕ → ℕ → ℕ
encode_wait pol src index ds = encode c_wait (bit_or (shl (bool_int pol) 2) src) index ds

unfoldable pub encode_in : String → ℕ → ℕ → Result ℕ
encode_in src count ds = do
  code ← dict_get in_srcs (some src)
  ok (encode c_in code (low_bits count 5) ds)

unfoldable pub encode_out : String → ℕ → ℕ → Result ℕ
encode_out dst count ds = do
  code ← dict_get out_dsts (some dst)
  ok (encode c_out code (low_bits count 5) ds)

unfoldable pub encode_push : Bool → Bool → ℕ → ℕ
encode_push iffull block ds = encode c_pp (bit_or (bool_int block) (shl (bool_int iffull) 1)) 0 ds

unfoldable pub encode_pull : Bool → Bool → ℕ → ℕ
encode_pull ifempty block ds =
    encode c_pp (bit_or (bit_or 4 (bool_int block)) (shl (bool_int ifempty) 1)) 0 ds

-- `0x10 | ((8 | (index & 3)) if index is not None else 0)`
abbrev pub aux_arg2 : Option ℕ → ℕ
aux_arg2 none = bit_or 0x10 0
aux_arg2 (some index) = bit_or 0x10 (bit_or 8 (low_bits index 2))

unfoldable pub encode_put : Option ℕ → ℕ → ℕ
encode_put index ds = encode c_pp 0 (aux_arg2 index) ds

unfoldable pub encode_get : Option ℕ → ℕ → ℕ
encode_get index ds = encode c_pp 4 (aux_arg2 index) ds

-- `rxfifo` is in both tables with no code, and is refused.
abbrev pub mov_code : Option ℕ → Result ℕ
mov_code none = err key_error
mov_code (some code) = ok code

unfoldable pub encode_mov : String → String → ℕ → ℕ → Result ℕ
encode_mov dst src op ds = do
  d ← dict_get movd_dsts (some dst)
  s ← dict_get movs_srcs (some src)
  dst_code ← mov_code d
  src_code ← mov_code s
  ok (encode c_mov dst_code (bit_or (shl (low_bits op 2) 3) src_code) ds)

-- The index mode is given by its number, or by its name (or `None`).
pub data Mode : Type 0 where
  by_code : ℕ → Mode
  by_name : Option String → Mode

abbrev pub mode_code : Mode → Result ℕ
mode_code (by_code m) = ok m
mode_code (by_name k) = dict_get idx_modes k

unfoldable pub encode_irq : Bool → Bool → Mode → ℕ → ℕ → Result ℕ
encode_irq clr wait mode index ds = do
  m ← mode_code mode
  ok (
      encode c_irq (bit_or (shl (bool_int clr) 1) (bool_int wait))
        (bit_or (shl (low_bits m 2) 3) (low_bits index 3)) ds)

unfoldable pub encode_set : String → ℕ → ℕ → Result ℕ
encode_set dst value ds = do code ← dict_get set_dsts (some dst); ok (encode c_set code value ds)
