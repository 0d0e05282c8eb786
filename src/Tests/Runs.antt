-- ===== src/Tests/Runs.antt =====
-- The doctest of `PIOBlockModel` and short runs of the whole block.
use vibe_pio.Base.{Result, ◌≢◌, ◌≤◌, arith, ℕ, ◌≡◌, refl, true, false, ok}
use vibe_pio.Model.Slice.{Slice, no_mutations}
use vibe_pio.Model.Config.{fifo_depths}
use vibe_pio.Model.Laws.Divider.{InPeriod}
use vibe_pio.Model.Block.Registers.{Block, block_reset}
use vibe_pio.Model.Block.Bus.{StepIn, bus_decode}
use vibe_pio.Model.Comb.Tick.{CombIn, divider}
use vibe_pio.Model.Comb.Bundle.{Comb, comb}
use vibe_pio.Model.Edge.Control.{EdgeIn}
use vibe_pio.Model.Block.Step.{Observables, Cycle, cycle, step}

abbrev pub idle : StepIn
idle = record {
  gpio_in = 0;
  op = 0;
  addr = 0;
  wdata = 0;
  nb_set = 0;
  nb_clr = 0;
  irq_prev = 0;
  irq_next = 0;
}

-- A register write.
abbrev pub writing : ℕ → ℕ → StepIn
writing a w = record idle { op = 1; addr = a; wdata = w }

-- A cycle, with everything open that it computes with.
cycle_of : Block → StepIn → Result (Block × Observables)
unfolding vibe_pio.Encoding.Decode.blank vibe_pio.Encoding.Decode.decode_wait
    vibe_pio.Encoding.Decode.decode_in vibe_pio.Encoding.Decode.decode_pp
    vibe_pio.Encoding.Decode.decode_mov vibe_pio.Encoding.Decode.decode_irq
    vibe_pio.Encoding.Decode.decode_set vibe_pio.Encoding.Decode.decode_class
    vibe_pio.Encoding.Decode.decode vibe_pio.Encoding.Split.split
    vibe_pio.Encoding.Split.sideset_fields vibe_pio.Encoding.Split.split_sideset
    vibe_pio.Encoding.Split.pack_fields vibe_pio.Encoding.Split.pack_ds
    vibe_pio.Encoding.Split.encode vibe_pio.Model.Block.Bus.bus_decode
    vibe_pio.Model.Block.Bus.sm_write vibe_pio.Model.Block.Bus.bit_write
    vibe_pio.Model.Block.Bus.byte_write vibe_pio.Model.Block.Bus.edge_in
    vibe_pio.Model.Block.Flags.outer_set vibe_pio.Model.Block.Flags.outer_clr
    vibe_pio.Model.Block.Flags.local_set vibe_pio.Model.Block.Flags.local_clr
    vibe_pio.Model.Block.Flags.loc_set vibe_pio.Model.Block.Flags.loc_clr
    vibe_pio.Model.Block.Flags.flags_after vibe_pio.Model.Block.Flags.flags_next
    vibe_pio.Model.Block.Flags.early_view vibe_pio.Model.Block.Input.seen_from
    vibe_pio.Model.Block.Input.gpio_seen vibe_pio.Model.Block.Input.in_bus
    vibe_pio.Model.Block.Input.sm_en vibe_pio.Model.Block.Input.comb_in
    vibe_pio.Model.Block.Input.run_combs vibe_pio.Model.Block.Pads.write_masked
    vibe_pio.Model.Block.Pads.write_pads vibe_pio.Model.Block.Pads.pads_round
    vibe_pio.Model.Block.Pads.pads_next vibe_pio.Model.Block.Pads.sticky_next
    vibe_pio.Model.Block.Read.tx_full vibe_pio.Model.Block.Read.rx_empty
    vibe_pio.Model.Block.Read.fstat vibe_pio.Model.Block.Read.fdebug
    vibe_pio.Model.Block.Read.flevel vibe_pio.Model.Block.Read.intr
    vibe_pio.Model.Block.Read.execctrl_rb vibe_pio.Model.Block.Read.sm_rdata
    vibe_pio.Model.Block.Read.rdata vibe_pio.Model.Block.Registers.block_reset
    vibe_pio.Model.Block.Step.cycle vibe_pio.Model.Block.Step.observe
    vibe_pio.Model.Block.Step.block_edge vibe_pio.Model.Block.Step.step
    vibe_pio.Model.Comb.Bundle.bundle vibe_pio.Model.Comb.Bundle.comb
    vibe_pio.Model.Comb.Dispatch.ap_ge_refill vibe_pio.Model.Comb.Dispatch.ap_post_refill
    vibe_pio.Model.Comb.Dispatch.ap_bg vibe_pio.Model.Comb.Dispatch.pull_load
    vibe_pio.Model.Comb.Dispatch.pull_fallb vibe_pio.Model.Comb.Dispatch.get_en
    vibe_pio.Model.Comb.Dispatch.mov_osr vibe_pio.Model.Comb.Dispatch.aux_idx
    vibe_pio.Model.Comb.Dispatch.aux_put vibe_pio.Model.Comb.Dispatch.out_en
    vibe_pio.Model.Comb.Dispatch.tx_pop vibe_pio.Model.Comb.Dispatch.osr_load
    vibe_pio.Model.Comb.Dispatch.in_en vibe_pio.Model.Comb.Dispatch.in_ap
    vibe_pio.Model.Comb.Dispatch.push_do vibe_pio.Model.Comb.Dispatch.rx_push
    vibe_pio.Model.Comb.Dispatch.rx_push_data vibe_pio.Model.Comb.Dispatch.isr_load
    vibe_pio.Model.Comb.Dispatch.tx_stall_req vibe_pio.Model.Comb.Dispatch.rx_stall_req
    vibe_pio.Model.Comb.Pins.masked_write vibe_pio.Model.Comb.Pins.gpio_ss_valid
    vibe_pio.Model.Comb.Pins.gpio_ss_bits vibe_pio.Model.Comb.Pins.gpio_out_we
    vibe_pio.Model.Comb.Pins.gpio_out_pindir vibe_pio.Model.Comb.Pins.gpio_set_we
    vibe_pio.Model.Comb.Pins.irq_clr_req vibe_pio.Model.Comb.Pins.os_write
    vibe_pio.Model.Comb.Pins.ss_write vibe_pio.Model.Comb.Pins.sticky_wr
    vibe_pio.Model.Comb.Pins.sticky_isdir_next vibe_pio.Model.Comb.Shift.shift_out_data
    vibe_pio.Model.Comb.Shift.shift_out_rest vibe_pio.Model.Comb.Shift.shift_in
    vibe_pio.Model.Comb.Shift.rotate_isr vibe_pio.Model.Comb.Shift.out_data
    vibe_pio.Model.Comb.Shift.osr_shifted vibe_pio.Model.Comb.Shift.osr_cnt_sat
    vibe_pio.Model.Comb.Shift.isr_cnt_sat vibe_pio.Model.Comb.Shift.autopull_ge_thr
    vibe_pio.Model.Comb.Shift.autopull_post_thr vibe_pio.Model.Comb.Shift.autopush_req
    vibe_pio.Model.Comb.Shift.in_data vibe_pio.Model.Comb.Shift.isr_next_in
    vibe_pio.Model.Comb.Stall.push_guard vibe_pio.Model.Comb.Stall.pull_guard
    vibe_pio.Model.Comb.Stall.pull_fence vibe_pio.Model.Comb.Stall.irqw_rel
    vibe_pio.Model.Comb.Stall.out_ap_ge vibe_pio.Model.Comb.Stall.stall
    vibe_pio.Model.Comb.Stall.compl vibe_pio.Model.Comb.Stall.done vibe_pio.Model.Comb.Tick.int_eff
    vibe_pio.Model.Comb.Tick.frac_eff vibe_pio.Model.Comb.Tick.divider
    vibe_pio.Model.Comb.Tick.arbitrate vibe_pio.Model.Comb.Tick.select_decode
    vibe_pio.Model.Comb.Tick.wsrc vibe_pio.Model.Comb.Tick.widx5
    vibe_pio.Model.Comb.Tick.irq_flag_idx vibe_pio.Model.Comb.Tick.irq_idx_mode
    vibe_pio.Model.Comb.Tick.irq_set_early vibe_pio.Model.Comb.View.tx_queue_mode
    vibe_pio.Model.Comb.View.rx_queue_mode vibe_pio.Model.Comb.View.put_mode
    vibe_pio.Model.Comb.View.get_mode vibe_pio.Model.Comb.View.tx_empty
    vibe_pio.Model.Comb.View.rx_full vibe_pio.Model.Comb.View.pull_thr
    vibe_pio.Model.Comb.View.push_thr vibe_pio.Model.Comb.View.rx_queue
    vibe_pio.Model.Comb.View.put_ok vibe_pio.Model.Comb.View.get_ok vibe_pio.Model.Comb.View.ap_on
    vibe_pio.Model.Comb.View.aph_on vibe_pio.Model.Comb.View.osre
    vibe_pio.Model.Comb.View.tx_head_data vibe_pio.Model.Comb.View.status_val
    vibe_pio.Model.Comb.View.jmp_taken vibe_pio.Model.Comb.View.wait_cond
    vibe_pio.Model.Comb.View.mov_src_val vibe_pio.Model.Comb.View.mov_result
    vibe_pio.Model.Comb.Writes.advance vibe_pio.Model.Comb.Writes.pc_wr_explicit
    vibe_pio.Model.Comb.Writes.pc_wr_val vibe_pio.Model.Comb.Writes.pc_next
    vibe_pio.Model.Comb.Writes.just_latched vibe_pio.Model.Comb.Writes.exec_word
    vibe_pio.Model.Comb.Writes.delay_load vibe_pio.Model.Comb.Writes.x_wr
    vibe_pio.Model.Comb.Writes.y_wr vibe_pio.Model.Comb.Writes.scratch_val
    vibe_pio.Model.Config.clkdiv_int vibe_pio.Model.Config.clkdiv_frac vibe_pio.Model.Config.side_en
    vibe_pio.Model.Config.side_pindir vibe_pio.Model.Config.jmp_pin
    vibe_pio.Model.Config.out_sticky_en vibe_pio.Model.Config.wrap_top
    vibe_pio.Model.Config.wrap_bottom vibe_pio.Model.Config.status_sel
    vibe_pio.Model.Config.status_n vibe_pio.Model.Config.fjoin_rx vibe_pio.Model.Config.fjoin_tx
    vibe_pio.Model.Config.pull_thresh vibe_pio.Model.Config.push_thresh
    vibe_pio.Model.Config.out_shift_left vibe_pio.Model.Config.in_shift_left
    vibe_pio.Model.Config.autopull vibe_pio.Model.Config.autopush vibe_pio.Model.Config.fjoin_rx_put
    vibe_pio.Model.Config.fjoin_rx_get vibe_pio.Model.Config.in_mask_count
    vibe_pio.Model.Config.sideset_count vibe_pio.Model.Config.set_count
    vibe_pio.Model.Config.out_count vibe_pio.Model.Config.in_base vibe_pio.Model.Config.sideset_base
    vibe_pio.Model.Config.set_base vibe_pio.Model.Config.out_base vibe_pio.Model.Config.fifo_mode
    vibe_pio.Model.Config.depths_of vibe_pio.Model.Config.rel_index vibe_pio.Model.Config.flag_rd
    vibe_pio.Model.Edge.edge vibe_pio.Model.Edge.Control.bank_edge
    vibe_pio.Model.Edge.Control.divider_edge vibe_pio.Model.Edge.Control.next_state
    vibe_pio.Model.Edge.Control.state_edge vibe_pio.Model.Edge.Control.scratch_edge
    vibe_pio.Model.Edge.Control.next_delay vibe_pio.Model.Edge.Control.delay_edge
    vibe_pio.Model.Edge.Data.shift_edge vibe_pio.Model.Edge.Data.rx_queue_wr
    vibe_pio.Model.Edge.Data.rx_queue_rd vibe_pio.Model.Edge.Data.tx_wr
    vibe_pio.Model.Edge.Data.tx_rd vibe_pio.Model.Edge.Data.rx_mem_next
    vibe_pio.Model.Edge.Data.fifo_flush vibe_pio.Model.Edge.Data.fifo_ops
    vibe_pio.Model.Edge.Data.fifo_edge vibe_pio.Model.Edge.Data.sticky_edge
    vibe_pio.Model.Edge.Latch.latch_edge vibe_pio.Model.Edge.Latch.irqw_edge
    vibe_pio.Model.Slice.reset vibe_pio.Model.Word.ror32 vibe_pio.Model.Word.rol32
    vibe_pio.Model.Word.digits_reversed vibe_pio.Model.Word.int_of_binary
    vibe_pio.Model.Word.bitrev32 vibe_pio.Model.Word.place_mask vibe_pio.Trace.Format.classify
    vibe_pio.Trace.Format.normalize vibe_pio.Trace.Format.diverge vibe_pio.Trace.Format.compare
cycle_of b i = step b i

abbrev pub Ran : Block → StepIn → Type 0
Ran b i = (r : Block × Observables) × (step b i ≡ ok r)

-- `set pins, 1` goes to address 0 of the instruction memory of a reset block.
pub programmed : Ran (block_reset no_mutations) (writing 72 0xe001)
unfolding cycle_of
programmed = (_, refl)

-- State machine 0 is enabled.
pub enabled : Ran programmed.0.0 (writing 0 1)
unfolding cycle_of programmed
enabled = (_, refl)

-- Its divider comes to a terminal count.
pub ticking : Ran enabled.0.0 idle
unfolding cycle_of programmed enabled
ticking = (_, refl)

-- It executes the instruction.
pub executed : Ran ticking.0.0 idle
unfolding cycle_of programmed enabled ticking
executed = (_, refl)

-- The flag view and the bundles of that cycle.
pub cycled : (now : Cycle) × (cycle ticking.0.0 idle (bus_decode idle) ≡ ok now)
unfolding cycle_of programmed enabled ticking
cycled = (_, refl)

-- As in the doctest, the interrupt word of a block with empty queues is 240 and the pad is set.
doctest : (programmed.0.1.intr ≡ 240) × (ticking.0.0.gpio_lvl_r ≡ 0) × (executed.0.0.gpio_lvl_r ≡ 1)
unfolding programmed enabled ticking executed
doctest = (refl, refl, refl)

-- State machine 0 at the tick, with another instruction in memory.
abbrev pub fed : ℕ → CombIn
fed word = record {
  sm_en = true;
  instr = word;
  in_bus = 0;
  gpio_seen = 0;
  views = record { flags = 0; irq_prev = 0; irq_next = 0 };
}

abbrev pub sm0 : Slice
sm0 = ticking.0.0.sms.e0

-- `wait 1 gpio 0` waits.
pub waiting : (b : Comb) × (comb sm0 (fed 0x2080) ≡ ok b) × (b.stall ≡ true)
unfolding cycle_of programmed enabled ticking
waiting = (_, refl, refl)

-- IN from the reserved source 4 is illegal.
pub refused :
    (b : Comb) × (comb sm0 (fed 0x4080) ≡ ok b) × (b.tick.m_exec ≡ true) × (b.d.illegal ≡ true)
unfolding cycle_of programmed enabled ticking
refused = (_, refl, refl, refl)

-- `push noblock` pushes, with no flush.
pub pushing :
    (b : Comb) × (comb sm0 (fed 0x8000) ≡ ok b)
    × (b.flush ≡ false)
    × (b.aux_put_en ≡ false)
    × (b.rx_push ≡ true)
    × (b.div ≡ divider sm0 true)
unfolding cycle_of programmed enabled ticking
pushing = (_, refl, refl, refl, refl, refl)

-- The bus writes 77 to the TX FIFO of the enabled state machine.
abbrev pub feeding : EdgeIn
feeding = record {
  sm_en = true;
  sm_restart = false;
  clkdiv_restart = false;
  clkdiv_we = false;
  execctrl_we = false;
  shiftctrl_we = false;
  pinctrl_we = false;
  force_we = false;
  wdata = 77;
  sys_tx_wr = true;
  sys_rx_rd = false;
  sys_aux_wr = false;
  bus_aux_idx = 0;
  clr_tx_stall = false;
  clr_rx_stall = false;
  clr_tx_over = false;
  clr_rx_under = false;
}

-- The queues of state machine 0.
pub tx_room : sm0.tx_level ≤ (fifo_depths sm0).tx_depth
unfolding cycle_of programmed enabled ticking
tx_room = omega arith

pub rx_room : sm0.rx_level ≤ (fifo_depths sm0).rx_depth
unfolding cycle_of programmed enabled ticking
rx_room = omega arith

pub rx_queued : (fifo_depths sm0).rx_depth ≢ 0
unfolding cycle_of programmed enabled ticking
rx_queued e = omega arith

-- Its divider is inside a period.
pub in_period : InPeriod sm0
unfolding cycle_of programmed enabled ticking
in_period = record { counts = omega arith; phase_in = omega arith }

pub sm0_faithful : sm0.mut.irq_rel_off ≡ false
unfolding cycle_of programmed enabled ticking
sm0_faithful = refl
