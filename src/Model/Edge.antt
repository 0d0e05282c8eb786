-- ===== src/Model/Edge.antt =====
-- `_SMSlice.edge` of tools/pio_model/model.py: the register updates of one state machine, in the
-- order of the method, each over the registers as the updates before it left them.
pub mod Control
pub mod Latch
pub mod Data
use vibe_pio.Model.Slice.{Slice}
use vibe_pio.Model.Comb.Bundle.{Comb}
use Control.{EdgeIn, bank_edge, divider_edge, state_edge, scratch_edge, delay_edge}
use Latch.{latch_edge, irqw_edge}
use Data.{shift_edge, fifo_edge, sticky_edge}

unfoldable pub edge : Comb → EdgeIn → Slice → Slice
edge c i s =
    let s1 = divider_edge c i (bank_edge i s) in
    let s2 = delay_edge c i (scratch_edge c (state_edge c i s1)) in
    let s3 = irqw_edge c i (latch_edge c i s2) in
    sticky_edge c i s3 (fifo_edge c i (shift_edge c s3))
