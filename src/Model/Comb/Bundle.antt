-- ===== src/Model/Comb/Bundle.antt =====
-- `_SMComb`, the bundle that `comb` returns, and `comb` itself.
use vibe_pio.Base.{ℕ, Bool, not, ◌&&◌, Result, ok, ◌>>=◌}
use vibe_pio.Encoding.Decode.{Decoded}
use vibe_pio.Model.Slice.{Slice, FifoMode, mode_eq}
use vibe_pio.Model.Config.{fifo_mode}
use vibe_pio.Model.Comb.Tick.{
  CombIn, Tick, Divider, divider, arbitrate, select_decode, irq_set_early, irq_flag_idx,
  irq_idx_mode,
}
use vibe_pio.Model.Comb.View.{put_mode}
use vibe_pio.Model.Comb.Shift.{osr_shifted, osr_cnt_sat, isr_cnt_sat, isr_next_in}
use vibe_pio.Model.Comb.Stall
use vibe_pio.Model.Comb.Writes
use vibe_pio.Model.Comb.Dispatch.{Load}
use vibe_pio.Model.Comb.Dispatch
use vibe_pio.Model.Comb.Pins.{PinWrite}
use vibe_pio.Model.Comb.Pins

pub record Comb : Type 0 where
  pub tick : Tick
  pub d : Decoded
  pub div : Divider
  pub irq_set_early : ℕ
  pub irq_clr_req : Bool
  pub irq_flag_idx : ℕ
  pub irq_idx_mode : ℕ
  pub os_write : PinWrite
  pub ss_write : PinWrite
  pub sticky_wr : Bool
  pub sticky_isdir_next : Bool
  pub pc_next : ℕ
  pub pc_wr_explicit : Bool
  pub just_latched : Bool
  pub exec_word : ℕ
  pub delay_load : Bool
  pub x_wr : Bool
  pub y_wr : Bool
  pub x_val : ℕ
  pub y_val : ℕ
  pub osr_load : Load
  pub out_en : Bool
  pub osr_shifted : ℕ
  pub osr_cnt_sat : ℕ
  pub isr_load : Load
  pub in_en : Bool
  pub isr_next_in : ℕ
  pub isr_cnt_sat : ℕ
  pub tx_pop : Bool
  pub rx_push : Bool
  pub rx_push_data : ℕ
  pub aux_put_en : Bool
  pub aux_idx : ℕ
  pub flush : Bool
  pub fm_pre : FifoMode
  pub tx_stall_req : Bool
  pub rx_stall_req : Bool
  pub stall : Bool
  pub compl : Bool

-- The bundle of a decoded instruction.
unfoldable pub bundle : Slice → CombIn → Tick → Decoded → Comb
bundle s c t d = record {
  tick = t;
  d = d;
  div = divider s c.sm_en;
  irq_set_early = irq_set_early s t d;
  irq_clr_req = Pins.irq_clr_req s c t d;
  irq_flag_idx = irq_flag_idx d;
  irq_idx_mode = irq_idx_mode d;
  os_write = Pins.os_write s c t d;
  ss_write = Pins.ss_write s c t d;
  sticky_wr = Pins.sticky_wr s c t d;
  sticky_isdir_next = Pins.sticky_isdir_next s c t d;
  pc_next = Writes.pc_next s c t d;
  pc_wr_explicit = Writes.pc_wr_explicit s c t d;
  just_latched = Writes.just_latched s c t d;
  exec_word = Writes.exec_word s c t d;
  delay_load = Writes.delay_load s c t d;
  x_wr = Writes.x_wr s c t d;
  y_wr = Writes.y_wr s c t d;
  x_val = Writes.scratch_val s c t d s.x_r;
  y_val = Writes.scratch_val s c t d s.y_r;
  osr_load = Dispatch.osr_load s c t d;
  out_en = Dispatch.out_en s c t d;
  osr_shifted = osr_shifted s d;
  osr_cnt_sat = osr_cnt_sat s d;
  isr_load = Dispatch.isr_load s c t d;
  in_en = Dispatch.in_en s c t d;
  isr_next_in = isr_next_in s c d;
  isr_cnt_sat = isr_cnt_sat s d;
  tx_pop = Dispatch.tx_pop s c t d;
  rx_push = Dispatch.rx_push s c t d;
  rx_push_data = Dispatch.rx_push_data s c t d;
  aux_put_en = t.tick_any && (Dispatch.aux_put s c t d && put_mode (fifo_mode s));
  aux_idx = Dispatch.aux_idx s c t d;
  flush = not (mode_eq (fifo_mode s) s.mode_r);
  fm_pre = fifo_mode s;
  tx_stall_req = Dispatch.tx_stall_req s c t d;
  rx_stall_req = Dispatch.rx_stall_req s c t d;
  stall = Stall.stall s c t d;
  compl = Stall.compl s c t d;
}

-- The whole method: it raises where `decode` does.
unfoldable pub comb : Slice → CombIn → Result Comb
comb s c = do d ← select_decode s c; ok (bundle s c (arbitrate s c.sm_en) d)
