-- ===== src/Model/Comb/Shift.antt =====
-- The shifter values of `comb`: what OUT takes from the OSR, what IN leaves in the ISR, and the
-- saturating counts.
use vibe_pio.Base.{
  ℕ, ◌+◌, ◌-◌, Bool, ◌&&◌, ◌==◌, leb, min, if◌then◌else◌, shr, shl, low_bits, bit_or,
}
use vibe_pio.Encoding.Decode.{Decoded, get}
use vibe_pio.Encoding.Tables.{ins_pins, ins_x, ins_y, ins_isr, ins_osr}
use vibe_pio.Model.Slice.{Slice}
use vibe_pio.Model.Config.{out_shift_left, in_shift_left, autopull, autopush}
use vibe_pio.Model.Comb.Tick.{CombIn}
use vibe_pio.Model.Comb.View.{pull_thr, push_thr}

abbrev pub out_count : Decoded → ℕ
out_count d = get d.out_count 0

abbrev pub in_count : Decoded → ℕ
in_count d = get d.in_count 0

-- The source's values for a direction and a count, as functions of the register.
unfoldable pub shift_out_data : Bool → ℕ → ℕ → ℕ
shift_out_data left osr n = if left then shr osr (32 - n) else low_bits osr n

unfoldable pub shift_out_rest : Bool → ℕ → ℕ → ℕ
shift_out_rest left osr n = if left then low_bits (shl osr n) 32 else shr osr n

unfoldable pub shift_in : Bool → ℕ → ℕ → ℕ → ℕ
shift_in left isr data_in n =
    if n == 32
    then data_in
    else if left
    then bit_or (low_bits (shl isr n) 32) (low_bits data_in n)
    else low_bits (bit_or (shr isr n) (shl (low_bits data_in n) (32 - n))) 32

unfoldable pub rotate_isr : Bool → ℕ → ℕ → ℕ
rotate_isr left isr n =
    if n == 32
    then isr
    else if left
    then bit_or (low_bits (shl isr n) 32) (shr isr (32 - n))
    else low_bits (bit_or (shr isr n) (low_bits (shl isr (32 - n)) 32)) 32

module _ (s : Slice) (d : Decoded) where
  unfoldable pub out_data : ℕ
  out_data = shift_out_data (out_shift_left s) s.osr_r (out_count d)

  unfoldable pub osr_shifted : ℕ
  osr_shifted = shift_out_rest (out_shift_left s) s.osr_r (out_count d)

  unfoldable pub osr_cnt_sat : ℕ
  osr_cnt_sat = min (s.osr_cnt_r + out_count d) 32

  unfoldable pub isr_cnt_sat : ℕ
  isr_cnt_sat = min (s.isr_cnt_r + in_count d) 32

  unfoldable pub autopull_ge_thr : Bool
  autopull_ge_thr = autopull s && leb (pull_thr s) s.osr_cnt_r

  unfoldable pub autopull_post_thr : Bool
  unfolding osr_cnt_sat
  autopull_post_thr = autopull s && leb (pull_thr s) osr_cnt_sat

  unfoldable pub autopush_req : Bool
  unfolding isr_cnt_sat
  autopush_req = autopush s && leb (push_thr s) isr_cnt_sat

module _ (s : Slice) (c : CombIn) (d : Decoded) where
  unfoldable pub in_data : ℕ
  in_data =
      let in_src = get d.in_src 0 in
      if in_src == ins_pins
      then c.in_bus
      else if in_src == ins_x
      then s.x_r
      else if in_src == ins_y
      then s.y_r
      else if in_src == ins_osr
      then s.osr_r
      else 0

  unfoldable pub isr_next_in : ℕ
  isr_next_in =
      if get d.in_src 0 == ins_isr
      then rotate_isr (in_shift_left s) s.isr_r (in_count d)
      else shift_in (in_shift_left s) s.isr_r in_data (in_count d)
