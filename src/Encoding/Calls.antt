-- ===== src/Encoding/Calls.antt =====
-- One call of an encoder, and what `decode` must read from the word that it returns.
use Prim.Native.String.{String}
use vibe_pio.Base.{
  ℕ, ◌%◌, ◌<◌, ◌≡◌, ◌≢◌, ◌⊎◌, Bool, true, false, bool_int, Result, ok, Option, none, some, dict_get,
}
use vibe_pio.Encoding.Decode.{Decoded, bit_count}
use vibe_pio.Encoding.Tables.{jmp_conds, in_srcs, out_dsts, movd_dsts, movs_srcs, set_dsts}
use vibe_pio.Encoding.Tables.{wsrc_jmppin}
use vibe_pio.Encoding.Encode.{
  encode_jmp, encode_wait, encode_in, encode_out, encode_push, encode_pull, encode_put, encode_get,
  encode_mov, encode_irq, encode_set, Mode, mode_code,
}

pub data Call : Type 0 where
  jmp : Option String → ℕ → Call
  wait : Bool → ℕ → ℕ → Call
  shift_in : String → ℕ → Call
  shift_out : String → ℕ → Call
  push : Bool → Bool → Call
  pull : Bool → Bool → Call
  put : Option ℕ → Call
  get : Option ℕ → Call
  mov : String → String → ℕ → Call
  irq : Bool → Bool → Mode → ℕ → Call
  set : String → ℕ → Call

unfoldable pub issue : Call → ℕ → Result ℕ
issue (jmp cond addr) ds = encode_jmp cond addr ds
issue (wait pol src index) ds = ok (encode_wait pol src index ds)
issue (shift_in src count) ds = encode_in src count ds
issue (shift_out dst count) ds = encode_out dst count ds
issue (push iffull block) ds = ok (encode_push iffull block ds)
issue (pull ifempty block) ds = ok (encode_pull ifempty block ds)
issue (put index) ds = ok (encode_put index ds)
issue (get index) ds = ok (encode_get index ds)
issue (mov dst src op) ds = encode_mov dst src op ds
issue (irq clr hold mode index) ds = encode_irq clr hold mode index ds
issue (set dst value) ds = encode_set dst value ds

-- The calls whose word is not one of the reserved encodings.
abbrev pub IsLegal : Call → Type 0
IsLegal (wait pol src index) = (src < 4) × ((src ≢ wsrc_jmppin) ⊎ (index % 32 < 4))
IsLegal (mov dst src op) = op % 4 ≢ 3
IsLegal (irq clr hold mode index) = (clr ≡ false) ⊎ (hold ≡ false)
IsLegal _ = Unit

abbrev pub aux_index_of : Option ℕ → ℕ
aux_index_of none = 0
aux_index_of (some i) = i % 4

abbrev pub aux_literal : Option ℕ → ℕ
aux_literal none = 0
aux_literal (some i) = 1

-- The strobe and the operands.
abbrev pub Reads : Call → Decoded → Type 0
Reads (jmp cond addr) d =
    (d.is_jmp ≡ true)
    × (d.jmp_addr ≡ some (addr % 32))
    × ((code : ℕ) × (dict_get jmp_conds cond ≡ ok code) × (d.jmp_cond ≡ some code))
Reads (wait pol src index) d =
    (d.is_wait ≡ true)
    × (d.wait_pol ≡ some (bool_int pol))
    × (d.wait_src ≡ some src)
    × (d.wait_index ≡ some (index % 32))
Reads (shift_in src count) d =
    (d.is_in ≡ true)
    × (d.in_count ≡ some (bit_count (count % 32)))
    × ((code : ℕ) × (dict_get in_srcs (some src) ≡ ok code) × (d.in_src ≡ some code))
Reads (shift_out dst count) d =
    (d.is_out ≡ true)
    × (d.out_count ≡ some (bit_count (count % 32)))
    × ((code : ℕ) × (dict_get out_dsts (some dst) ≡ ok code) × (d.out_dst ≡ some code))
Reads (push iffull block) d =
    (d.is_push ≡ true)
    × (d.push_iff ≡ some (bool_int iffull))
    × (d.push_blk ≡ some (bool_int block))
Reads (pull ifempty block) d =
    (d.is_pull ≡ true)
    × (d.pull_ife ≡ some (bool_int ifempty))
    × (d.pull_blk ≡ some (bool_int block))
Reads (put index) d =
    (d.is_put ≡ true)
    × (d.aux_idxi ≡ some (aux_literal index))
    × (d.aux_index ≡ some (aux_index_of index))
Reads (get index) d =
    (d.is_get ≡ true)
    × (d.aux_idxi ≡ some (aux_literal index))
    × (d.aux_index ≡ some (aux_index_of index))
Reads (mov dst src op) d =
    (d.is_mov ≡ true)
    × (d.mov_op ≡ some (op % 4))
    × ((code : ℕ) × (dict_get movd_dsts (some dst) ≡ ok (some code)) × (d.mov_dst ≡ some code))
    × ((code : ℕ) × (dict_get movs_srcs (some src) ≡ ok (some code)) × (d.mov_src ≡ some code))
Reads (irq clr hold mode index) d =
    (d.is_irq ≡ true)
    × (d.irq_clr ≡ some (bool_int clr))
    × (d.irq_wait ≡ some (bool_int hold))
    × (d.irq_index ≡ some (index % 8))
    × ((m : ℕ) × (mode_code mode ≡ ok m) × (d.irq_idxmode ≡ some (m % 4)))
Reads (set dst value) d =
    (d.is_set ≡ true)
    × (d.set_data ≡ some (value % 32))
    × ((code : ℕ) × (dict_get set_dsts (some dst) ≡ ok code) × (d.set_dst ≡ some code))
