-- ===== src/Model/Laws/EdgeValid.antt =====
-- The whole of `edge` keeps the registers well formed.
use vibe_pio.Base.{◌^◌, ◌<◌, ◌≤◌, ◌≡◌, sym, ◌∙◌, true, false, arith, Bool-cases, inl, inr}
use vibe_pio.Model.Slice.{Slice, FifoMode, mode_eq}
use vibe_pio.Model.Config.{fifo_mode, depths_of, fjoin_rx_put, fjoin_rx_get, fjoin_tx, fjoin_rx}
use vibe_pio.Model.Comb.Bundle.{Comb}
use vibe_pio.Model.Edge.{edge}
use vibe_pio.Model.Edge.Control.{
  EdgeIn, bank_edge, divider_edge, state_edge, scratch_edge, delay_edge,
}
use vibe_pio.Model.Edge.Latch.{latch_edge, irqw_edge}
use vibe_pio.Model.Edge.Data.{shift_edge, fifo_edge, fifo_ops, fifo_flush, sticky_edge}
use vibe_pio.Model.Laws.Fifo.{tx_level_kept, rx_level_kept}
use vibe_pio.Model.Laws.Valid.{Regs, IsValid, Fits}
use vibe_pio.Model.Laws.Keeps.{
  bank_keeps, divider_keeps, state_keeps, scratch_keeps, delay_keeps, latch_keeps, irqw_keeps,
  shift_keeps, sticky_keeps, fifo_keeps,
}

-- The fields that the groups before the FIFOs leave alone.
record SameQueues (s t : Slice) : Type 0 where
  mode : t.mode_r ≡ s.mode_r
  tx_level : t.tx_level ≡ s.tx_level
  rx_level : t.rx_level ≡ s.rx_level

mode_eq_sound : (m n : FifoMode) → mode_eq m n ≡ true → m ≡ n
mode_eq_sound m n h = ground arith

module _ (c : Comb) (i : EdgeIn) (s : Slice) where
  abbrev to_divider : Slice
  to_divider = divider_edge c i (bank_edge i s)

  abbrev to_delay : Slice
  to_delay = delay_edge c i (scratch_edge c (state_edge c i to_divider))

  abbrev to_shift : Slice
  to_shift = shift_edge c (irqw_edge c i (latch_edge c i to_delay))

  same_force :
      (to_delay.force_pend_r ≡ s.force_pend_r) × (to_delay.forced_stall_r ≡ s.forced_stall_r)
  unfolding bank_edge divider_edge state_edge scratch_edge delay_edge
  same_force = ground arith

  queues_to_divider : SameQueues s to_divider
  unfolding bank_edge divider_edge
  queues_to_divider = ground arith

  queues_latch : (t : Slice) → SameQueues t (latch_edge c i t)
  unfolding latch_edge
  queues_latch t = ground arith

  queues_after : (t : Slice) → SameQueues t (shift_edge c (irqw_edge c i t))
  unfolding shift_edge irqw_edge
  queues_after t = ground arith

  queues_to_shift : SameQueues s to_shift
  unfolding state_edge scratch_edge delay_edge
  queues_to_shift =
      ground
        (arith, queues_to_divider, queues_latch to_delay, queues_after (latch_edge c i to_delay))

  module _ (v : IsValid s) (f : Fits c s i.sm_en) (w : i.wdata < 2 ^ 32) where
    Regs-to_delay : Regs to_delay
    unfolding bank_edge
    Regs-to_delay = delay_keeps c i _ f.delay_in (
        scratch_keeps c i _ (
          state_keeps c i _
            (divider_keeps c i _ f.phase_next_fits f.count_below (bank_keeps c i s w v.regs))))

    Regs-to_shift : Regs to_shift
    Regs-to_shift =
        shift_keeps c i _ f.osr_load_cnt f.isr_load_cnt f.osr_shifted_fits f.osr_cnt_in f.isr_cnt_in
          (irqw_keeps c i _ (
            latch_keeps c i to_delay f.exec_word_fits (rw (same_force.0, same_force.1) f.forced_is)
              Regs-to_delay))

    abbrev after_fifo : Slice
    after_fifo = fifo_edge c i to_shift

    -- Where the mode was sampled, the FIFOs were within the depths that the mode still selects.
    in_depth_before :
        c.flush ≡ false
        → fifo_mode to_shift ≡ c.fm_pre
        → (to_shift.tx_level ≤ (depths_of (fifo_mode to_shift)).tx_depth)
          × (to_shift.rx_level ≤ (depths_of (fifo_mode to_shift)).rx_depth)
    in_depth_before nf m =
        let sampled : c.fm_pre ≡ s.mode_r =
          mode_eq_sound c.fm_pre s.mode_r (ground (arith, f.flush_is)) in
        let now : fifo_mode s ≡ s.mode_r = sym f.mode_sampled ∙ sampled in
        rw (m ∙ sampled, queues_to_shift.tx_level, queues_to_shift.rx_level)
          (v.tx_in_depth now, v.rx_in_depth now)

    mode_after : after_fifo.mode_r ≡ c.fm_pre
    unfolding fifo_edge fifo_flush fifo_ops
    mode_after = ground arith

    config_after : fifo_mode after_fifo ≡ fifo_mode to_shift
    unfolding fifo_edge fifo_flush fifo_ops fifo_mode fjoin_rx_put fjoin_rx_get fjoin_tx fjoin_rx
    config_after = ground arith

    flushed : c.flush ≡ true → (after_fifo.tx_level ≡ 0) × (after_fifo.rx_level ≡ 0)
    unfolding fifo_edge fifo_flush
    flushed e = ground arith

    in_depth_after :
        fifo_mode after_fifo ≡ after_fifo.mode_r
        → (after_fifo.tx_level ≤ (depths_of after_fifo.mode_r).tx_depth)
          × (after_fifo.rx_level ≤ (depths_of after_fifo.mode_r).rx_depth)
    in_depth_after e = elim (Bool-cases c.flush) [
      | inl y ↦ omega (arith, flushed y)
      | inr n ↦
          let b = in_depth_before n (sym config_after ∙ e ∙ mode_after) in
          rw (← e, config_after)
            (tx_level_kept c i to_shift n b.0, rx_level_kept c i to_shift n b.1)
    ]

    -- With well-formed registers, a bundle that fits them and a 32-bit data word, one clk edge
    -- keeps every register of a state machine and every word of its FIFO memories in its width,
    -- both FIFOs rings of eight slots, within the depths of the sampled mode wherever SHIFTCTRL
    -- then selects that mode, and a forced instruction valid in the latch for as long as it is
    -- pending.
    pub edge-IsValid : IsValid (edge c i s)
    unfolding edge sticky_edge fifo_mode fjoin_rx_put fjoin_rx_get fjoin_tx fjoin_rx
    edge-IsValid = record {
      regs = sticky_keeps c i _ after_fifo (fifo_keeps c i to_shift w Regs-to_shift);
      tx_in_depth = λ e. (in_depth_after e).0;
      rx_in_depth = λ e. (in_depth_after e).1;
    }
