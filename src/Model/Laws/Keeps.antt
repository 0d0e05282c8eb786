-- ===== src/Model/Laws/Keeps.antt =====
-- Each group of `edge` keeps the registers well formed.
use vibe_pio.Base.{
  ℕ, ◌&&◌, low_bits, All, All-set, set, if_both, ◌^◌, ◌<◌, ◌≤◌, ◌≡◌, true, false, ◌||◌, arith,
}
use vibe_pio.Model.Slice.{Slice, mode_eq, txget}
use vibe_pio.Model.Comb.Bundle.{Comb}
use vibe_pio.Model.Edge.Control.{
  EdgeIn, bank_edge, divider_edge, state_edge, scratch_edge, delay_edge, next_delay,
}
use vibe_pio.Model.Edge.Latch.{latch_edge, irqw_edge}
use vibe_pio.Model.Edge.Data.{
  shift_edge, fifo_edge, fifo_ops, fifo_flush, sticky_edge, tx_wr, rx_queue_wr, rx_mem_next,
}
use vibe_pio.Model.Config.{fifo_mode}
use vibe_pio.Model.Laws.Fifo.{tx-IsRing_kept, rx-IsRing_kept}
use vibe_pio.Model.Laws.Valid.{Is32, Regs}

module _ (c : Comb) (i : EdgeIn) where
  pub bank_keeps : (s : Slice) → i.wdata < 2 ^ 32 → Regs s → Regs (bank_edge i s)
  unfolding bank_edge
  bank_keeps s w v = ground arith

  pub divider_keeps :
      (s : Slice)
      → c.div.phase_next < 256
      → (i.sm_en ≡ true → c.div.terminal ≡ false → s.count_r < 65535)
      → Regs s
      → Regs (divider_edge c i s)
  unfolding divider_edge
  divider_keeps s p q v = ground arith

  pub state_keeps : (s : Slice) → Regs s → Regs (state_edge c i s)
  unfolding state_edge
  state_keeps s v = ground arith

  pub scratch_keeps : (s : Slice) → Regs s → Regs (scratch_edge c s)
  unfolding scratch_edge
  scratch_keeps s v = ground arith

  pub delay_keeps : (s : Slice) → c.d.delay < 32 → Regs s → Regs (delay_edge c i s)
  unfolding delay_edge next_delay
  delay_keeps s h v = ground arith

  pub latch_keeps :
      (s : Slice)
      → c.exec_word < 2 ^ 16
      → c.tick.tick_forced ≡ (s.force_pend_r || s.forced_stall_r)
      → Regs s
      → Regs (latch_edge c i s)
  unfolding latch_edge
  latch_keeps s h e v = ground arith

  pub irqw_keeps : (s : Slice) → Regs s → Regs (irqw_edge c i s)
  unfolding irqw_edge
  irqw_keeps s v = ground arith

  pub shift_keeps :
      (s : Slice)
      → c.osr_load.cnt ≤ 32
      → c.isr_load.cnt ≤ 32
      → c.osr_shifted < 2 ^ 32
      → c.osr_cnt_sat ≤ 32
      → c.isr_cnt_sat ≤ 32
      → Regs s
      → Regs (shift_edge c s)
  unfolding shift_edge
  shift_keeps s a b d e f v = ground arith

  pub sticky_keeps : (s t : Slice) → Regs t → Regs (sticky_edge c i s t)
  unfolding sticky_edge
  sticky_keeps s t v = ground arith

  tx_words_kept : (s : Slice) → i.wdata < 2 ^ 32 → Regs s → All Is32 (fifo_edge c i s).tx_mem
  unfolding fifo_edge fifo_flush fifo_ops
  tx_words_kept s w v =
      if_both (λ (t : Slice). All Is32 t.tx_mem) c.flush v.tx_words_fit
        (if_both (All Is32) (tx_wr c i s) (All-set Is32 s.tx_mem s.tx_tail i.wdata v.tx_words_fit w)
          v.tx_words_fit)

  rx_words_kept : (s : Slice) → Regs s → All Is32 (fifo_edge c i s).rx_mem
  unfolding fifo_edge fifo_flush fifo_ops rx_mem_next
  rx_words_kept s v =
      let stored : (place w : ℕ) → All Is32 (set s.rx_mem place (low_bits w 32)) =
        λ place w. All-set Is32 s.rx_mem place (low_bits w 32) v.rx_words_fit (omega arith) in
      if_both (λ (t : Slice). All Is32 t.rx_mem) c.flush v.rx_words_fit
        (if_both (All Is32) (rx_queue_wr c i s) (stored _ _) (
          if_both (All Is32) c.aux_put_en (stored _ _) (
            if_both (All Is32) (i.sys_aux_wr && mode_eq (fifo_mode s) txget) (stored _ _)
              v.rx_words_fit)))

  pub fifo_keeps : (s : Slice) → i.wdata < 2 ^ 32 → Regs s → Regs (fifo_edge c i s)
  unfolding fifo_edge fifo_flush fifo_ops
  fifo_keeps s w v =
      ground
        (arith, tx-IsRing_kept c i s, rx-IsRing_kept c i s, tx_words_kept s w v, rx_words_kept s v)
