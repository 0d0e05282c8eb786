-- ===== src/Model/Edge/Latch.antt =====
-- G4 and G5 of `edge`: the EXEC latch, the two-phase IRQ wait and the pending restart.
use vibe_pio.Base.{true, false, not, ◌&&◌, if◌then◌else◌, low_bits}
use vibe_pio.Encoding.Decode.{get}
use vibe_pio.Model.Slice.{Slice}
use vibe_pio.Model.Comb.Stall.{flag}
use vibe_pio.Model.Comb.Bundle.{Comb}
use vibe_pio.Model.Edge.Control.{EdgeIn}

unfoldable pub latch_edge : Comb → EdgeIn → Slice → Slice
latch_edge c i s =
    let latched = c.compl && c.just_latched in
    if i.force_we
    then record s {
      latch_r = low_bits i.wdata 16;
      latch_vld_r = true;
      latch_force_r = true;
      force_pend_r = true;
      forced_stall_r = false;
    }
    else if i.sm_restart
    then record s {
      force_pend_r = false;
      forced_stall_r = false;
      latch_r = if latched then c.exec_word else s.latch_r;
      latch_vld_r = if latched then true else if s.latch_force_r then false else s.latch_vld_r;
      latch_force_r = false;
    }
    else if c.tick.tick_forced
    then (if c.compl
        then record s {
          force_pend_r = false;
          forced_stall_r = false;
          latch_vld_r = c.just_latched;
          latch_force_r = false;
          latch_r = if c.just_latched then c.exec_word else s.latch_r;
        }
        else record s { forced_stall_r = true })
    else if latched
    then record s { latch_r = c.exec_word; latch_vld_r = true; latch_force_r = false }
    else if c.tick.m_exec && (c.tick.src_latch && c.compl)
    then record s { latch_vld_r = false }
    else s

unfoldable pub irqw_edge : Comb → EdgeIn → Slice → Slice
irqw_edge c i s =
    let irq_waits =
      (c.tick.m_exec && not c.d.illegal)
      && (c.d.is_irq && (flag (get c.d.irq_wait 0) && not (flag (get c.d.irq_clr 0)))) in
    if i.sm_restart then record s { irqw_wait_r = false; restart_pend_r = true } else record s {
      restart_pend_r = if c.tick.m_restart then false else s.restart_pend_r;
      irqw_wait_r =
          if irq_waits
          then not c.compl
          else if c.tick.tick_forced && (c.compl && c.pc_wr_explicit)
          then false
          else s.irqw_wait_r;
    }
