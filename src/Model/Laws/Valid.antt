-- ===== src/Model/Laws/Valid.antt =====
-- Well-formed registers: every field of a state machine in its width, the FIFOs as rings, and the
-- EXEC latch consistent. What a bundle must satisfy for `edge` to keep that.
use vibe_pio.Base.{ℕ, All, ◌^◌, ◌<◌, ◌≤◌, ◌≡◌, Bool, true, false, not, ◌||◌}
use vibe_pio.Model.Slice.{Slice, mode_eq}
use vibe_pio.Model.Config.{fifo_mode, depths_of}
use vibe_pio.Model.Comb.Bundle.{Comb}
use vibe_pio.Model.Comb.Pins.{PinWrite}
use vibe_pio.Model.Block.Registers.{Sticky}
use vibe_pio.Model.Laws.Fifo.{IsRing}

abbrev pub Is32 : ℕ → Type 0
Is32 w = w < 2 ^ 32

-- A pin write of 32-bit masks and data.
pub record PinFits (p : PinWrite) : Type 0 where
  pub lvl_mask_fits : p.lvl_mask < 2 ^ 32
  pub lvl_data_fits : p.lvl_data < 2 ^ 32
  pub dir_mask_fits : p.dir_mask < 2 ^ 32
  pub dir_data_fits : p.dir_data < 2 ^ 32

pub record StickyFits (k : Sticky) : Type 0 where
  pub mask_fits : k.mask < 2 ^ 32
  pub lvl_fits : k.lvl < 2 ^ 32
  pub dir_fits : k.dir < 2 ^ 32

pub record Regs (s : Slice) : Type 0 where
  pub clkdiv_fits : s.clkdiv_r < 2 ^ 32
  pub execctrl_fits : s.execctrl_r < 2 ^ 32
  pub shiftctrl_fits : s.shiftctrl_r < 2 ^ 32
  pub pinctrl_fits : s.pinctrl_r < 2 ^ 32
  pub phase_fits : s.phase_r < 256
  pub count_fits : s.count_r < 65536
  pub pc_fits : s.pc_r < 32
  pub x_fits : s.x_r < 2 ^ 32
  pub y_fits : s.y_r < 2 ^ 32
  pub delay_fits : s.delay_cnt_r < 32
  pub latch_fits : s.latch_r < 2 ^ 16
  pub osr_fits : s.osr_r < 2 ^ 32
  pub isr_fits : s.isr_r < 2 ^ 32
  pub osr_cnt_fits : s.osr_cnt_r ≤ 32
  pub isr_cnt_fits : s.isr_cnt_r ≤ 32
  pub tx_ring : IsRing s.tx_mem s.tx_head s.tx_tail s.tx_level
  pub rx_ring : IsRing s.rx_mem s.rx_head s.rx_tail s.rx_level
  pub tx_words_fit : All Is32 s.tx_mem
  pub rx_words_fit : All Is32 s.rx_mem
  -- A forced instruction is in the latch for as long as it is pending, and only a pending one stalls.
  pub force_latched : s.force_pend_r ≡ s.latch_force_r
  pub force_valid : s.force_pend_r ≡ true → s.latch_vld_r ≡ true
  pub forced_stall_pending : s.forced_stall_r ≡ true → s.force_pend_r ≡ true

pub record IsValid (s : Slice) : Type 0 where
  pub regs : Regs s
  -- While SHIFTCTRL selects the mode that was sampled, neither FIFO holds more than its depth; a new
  -- selection is sampled, and the FIFOs flushed, at the next edge.
  pub tx_in_depth : fifo_mode s ≡ s.mode_r → s.tx_level ≤ (depths_of s.mode_r).tx_depth
  pub rx_in_depth : fifo_mode s ≡ s.mode_r → s.rx_level ≤ (depths_of s.mode_r).rx_depth

pub record Fits (c : Comb) (s : Slice) (sm_en : Bool) : Type 0 where
  pub phase_next_fits : c.div.phase_next < 256
  pub count_below : sm_en ≡ true → c.div.terminal ≡ false → s.count_r < 65535
  pub delay_in : c.d.delay < 32
  pub exec_word_fits : c.exec_word < 2 ^ 16
  pub osr_load_cnt : c.osr_load.cnt ≤ 32
  pub isr_load_cnt : c.isr_load.cnt ≤ 32
  pub osr_shifted_fits : c.osr_shifted < 2 ^ 32
  pub osr_cnt_in : c.osr_cnt_sat ≤ 32
  pub isr_cnt_in : c.isr_cnt_sat ≤ 32
  pub mode_sampled : c.fm_pre ≡ fifo_mode s
  pub flush_is : c.flush ≡ not (mode_eq c.fm_pre s.mode_r)
  pub os_fits : PinFits c.os_write
  pub forced_is : c.tick.tick_forced ≡ (s.force_pend_r || s.forced_stall_r)
