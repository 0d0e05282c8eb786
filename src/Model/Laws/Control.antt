-- ===== src/Model/Laws/Control.antt =====
-- What an illegal instruction does: nothing but to advance.
use vibe_pio.Base.{◌≡◌, subst, Bool, true, false, if◌then◌else◌, arith, ok, >>=-eq-ok, ok-injective}
use vibe_pio.Encoding.Decode.{Decoded}
use vibe_pio.Model.Slice.{Slice}
use vibe_pio.Model.Comb.Tick.{CombIn, Tick, arbitrate, select_decode, irq_set_early}
use vibe_pio.Model.Comb.Stall.{done, compl}
use vibe_pio.Model.Comb.Stall
use vibe_pio.Model.Comb.Writes.{advance, pc_wr_explicit, pc_next, just_latched, x_wr, y_wr}
use vibe_pio.Model.Comb.Dispatch.{
  osr_load, isr_load, out_en, in_en, tx_pop, rx_push, in_ap, push_do, ap_ge_refill, ap_post_refill,
  ap_bg, pull_load, pull_fallb, get_en, mov_osr, aux_put,
}
use vibe_pio.Model.Comb.Stall.{out_ap_ge}
use vibe_pio.Model.Comb.Pins.{
  no_write, os_write, ss_write, gpio_out_we, gpio_set_we, irq_clr_req, sticky_wr,
}
use vibe_pio.Model.Comb.Bundle.{Comb, bundle, comb}

-- The requests of a tick that touch neither pins, flags, scratch registers, shifters nor queues.
pub record IsNoOp (s : Slice) (b : Comb) : Type 0 where
  pub completes : b.compl ≡ true
  pub no_stall : b.stall ≡ false
  pub no_os : b.os_write ≡ no_write
  pub no_ss : b.ss_write ≡ no_write
  pub no_sticky : b.sticky_wr ≡ false
  pub no_flag_set : b.irq_set_early ≡ 0
  pub no_flag_clr : b.irq_clr_req ≡ false
  pub no_x : b.x_wr ≡ false
  pub no_y : b.y_wr ≡ false
  pub no_jump : b.pc_wr_explicit ≡ false
  pub no_exec : b.just_latched ≡ false
  pub next_pc : b.pc_next ≡ (if b.tick.src_latch then s.pc_r else advance s)
  pub no_osr_load : b.osr_load.en ≡ false
  pub no_out : b.out_en ≡ false
  pub no_isr_load : b.isr_load.en ≡ false
  pub no_in : b.in_en ≡ false
  pub no_pop : b.tx_pop ≡ false
  pub no_push : b.rx_push ≡ false
  pub no_put : b.aux_put_en ≡ false

pub exec-no_restart :
    (s : Slice) (en : Bool) → (arbitrate s en).m_exec ≡ true → (arbitrate s en).m_restart ≡ false
unfolding arbitrate
exec-no_restart s en h = ground arith

module _ (s : Slice) (c : CombIn) (t : Tick) (d : Decoded) (runs : t.m_exec ≡ true)
    (no_restart : t.m_restart ≡ false) where
  bundle-IsNoOp : d.illegal ≡ true → IsNoOp s (bundle s c t d)
  unfolding bundle
  bundle-IsNoOp h = record {
    completes = unfold compl Stall.stall in ground arith;
    no_stall = unfold Stall.stall in ground arith;
    no_os = unfold os_write gpio_out_we gpio_set_we done in ground arith;
    no_ss = unfold ss_write in ground arith;
    no_sticky = unfold sticky_wr gpio_out_we gpio_set_we done in ground arith;
    no_flag_set = unfold irq_set_early in ground arith;
    no_flag_clr = unfold irq_clr_req done in ground arith;
    no_x = unfold x_wr done in ground arith;
    no_y = unfold y_wr done in ground arith;
    no_jump = unfold pc_wr_explicit done in ground arith;
    no_exec = unfold just_latched done in ground arith;
    next_pc = unfold pc_next pc_wr_explicit done in ground arith;
    no_osr_load =
        unfold osr_load tx_pop pull_fallb get_en mov_osr pull_load ap_ge_refill ap_post_refill ap_bg
          out_ap_ge done in
        ground arith;
    no_out = unfold out_en done in ground arith;
    no_isr_load = unfold isr_load in_ap push_do done in ground arith;
    no_in = unfold in_en done in ground arith;
    no_pop =
        unfold tx_pop pull_load ap_ge_refill ap_post_refill ap_bg out_ap_ge done in ground arith;
    no_push = unfold rx_push in_ap push_do done in ground arith;
    no_put = unfold aux_put done in ground arith;
  }

-- An illegal instruction runs as a no-op: the tick completes, the PC advances as after any other
-- instruction, and no pin, flag, scratch register, shift register or queue is written.
pub illegal-IsNoOp :
    (s : Slice) (c : CombIn) {b : Comb}
    → comb s c ≡ ok b
    → b.tick.m_exec ≡ true
    → b.d.illegal ≡ true
    → IsNoOp s b
unfolding comb bundle
illegal-IsNoOp s c {b} e =
    let (d, ed, e') = >>=-eq-ok (select_decode s c) _ e in
    subst (λ (b : Comb). b.tick.m_exec ≡ true → b.d.illegal ≡ true → IsNoOp s b) (ok-injective e')
      (λ m h. bundle-IsNoOp s c (arbitrate s c.sm_en) d m (exec-no_restart s c.sm_en m) h)
