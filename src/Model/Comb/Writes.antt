-- ===== src/Model/Comb/Writes.antt =====
-- The decisions of `comb` on the PC, the scratch registers and the EXEC latch.
use vibe_pio.Base.{ℕ, ◌+◌, Bool, not, ◌&&◌, ◌||◌, ◌==◌, if◌then◌else◌, low_bits}
use vibe_pio.Encoding.Decode.{Decoded, get}
use vibe_pio.Encoding.Tables.{
  jc_xdec, jc_ydec, outd_x, outd_y, outd_pc, outd_exec, movd_x, movd_y, movd_pc, movd_exec, setd_x,
  setd_y,
}
use vibe_pio.Model.Slice.{Slice}
use vibe_pio.Model.Config.{wrap_top, wrap_bottom}
use vibe_pio.Model.Comb.Tick.{CombIn, Tick}
use vibe_pio.Model.Comb.View.{jmp_taken, mov_result, dec32}
use vibe_pio.Model.Comb.Shift.{out_data}
use vibe_pio.Model.Comb.Stall.{compl, done}

module _ (d : Decoded) where
  -- `d["is_out"] and d.get("out_dst", 0) == dst`, and the same of MOV, SET and JMP.
  abbrev pub out_to : ℕ → Bool
  out_to dst = d.is_out && (get d.out_dst 0 == dst)

  abbrev pub mov_to : ℕ → Bool
  mov_to dst = d.is_mov && (get d.mov_dst 0 == dst)

  abbrev pub set_to : ℕ → Bool
  set_to dst = d.is_set && (get d.set_dst 0 == dst)

  abbrev pub jmp_on : ℕ → Bool
  jmp_on cond = d.is_jmp && (get d.jmp_cond 0 == cond)

-- The PC after the one at `pc`, inside the wrap window.
unfoldable pub advance : Slice → ℕ
advance s =
    if s.mut.wrap_off
    then low_bits (s.pc_r + 1) 5
    else if s.pc_r == wrap_top s
    then wrap_bottom s
    else low_bits (s.pc_r + 1) 5

module _ (s : Slice) (c : CombIn) (t : Tick) (d : Decoded) where
  unfoldable pub pc_wr_explicit : Bool
  pc_wr_explicit =
      done s c t d && ((d.is_jmp && jmp_taken s c d) || (out_to d outd_pc || mov_to d movd_pc))

  unfoldable pub pc_wr_val : ℕ
  pc_wr_val =
      if d.is_jmp
      then get d.jmp_addr 0
      else if d.is_out
      then low_bits (out_data s d) 5
      else low_bits (mov_result s c d) 5

  unfoldable pub pc_next : ℕ
  unfolding pc_wr_explicit pc_wr_val
  pc_next = if pc_wr_explicit then pc_wr_val else if t.src_latch then s.pc_r else advance s

  unfoldable pub just_latched : Bool
  just_latched = done s c t d && (out_to d outd_exec || mov_to d movd_exec)

  unfoldable pub exec_word : ℕ
  exec_word = if d.is_out then low_bits (out_data s d) 16 else low_bits (mov_result s c d) 16

  unfoldable pub delay_load : Bool
  unfolding just_latched
  delay_load = compl s c t d && (not just_latched && not t.tick_forced)

  unfoldable pub x_wr : Bool
  x_wr =
      done s c t d
      && (jmp_on d jc_xdec || (out_to d outd_x || (set_to d setd_x || mov_to d movd_x)))

  unfoldable pub y_wr : Bool
  y_wr =
      done s c t d
      && (jmp_on d jc_ydec || (out_to d outd_y || (set_to d setd_y || mov_to d movd_y)))

  -- The value written to a scratch register that now holds `v`.
  unfoldable pub scratch_val : ℕ → ℕ
  scratch_val v =
      if d.is_jmp
      then dec32 v
      else if d.is_out
      then out_data s d
      else if d.is_set
      then get d.set_data 0
      else mov_result s c d
