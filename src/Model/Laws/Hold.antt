-- ===== src/Model/Laws/Hold.antt =====
-- What a stalled tick leaves alone: the registers that an instruction writes, through the whole
-- edge.
use vibe_pio.Base.{
  ℕ, ◌≡◌, refl, ap, ◌∙◌, subst, true, false, ◌&&◌, if◌then◌else◌, arith, low_bits, ok, >>=-eq-ok,
  ok-injective,
}
use vibe_pio.Encoding.Decode.{Decoded}
use vibe_pio.Model.Slice.{Slice}
use vibe_pio.Model.Comb.Tick.{CombIn, Tick, arbitrate, select_decode}
use vibe_pio.Model.Comb.Stall.{done, compl}
use vibe_pio.Model.Comb.Stall
use vibe_pio.Model.Comb.Writes.{delay_load}
use vibe_pio.Model.Comb.Dispatch.{isr_load, out_en, in_en, rx_push, in_ap, push_do, aux_put}
use vibe_pio.Model.Comb.Stall.{out_ap_ge}
use vibe_pio.Model.Comb.Pins.{no_write, os_write, gpio_out_we, gpio_set_we, irq_clr_req}
use vibe_pio.Model.Comb.Bundle.{Comb, bundle, comb}
use vibe_pio.Model.Edge.Control.{
  EdgeIn, bank_edge, divider_edge, state_edge, scratch_edge, delay_edge,
}
use vibe_pio.Model.Edge.Latch.{latch_edge, irqw_edge}
use vibe_pio.Model.Edge.Data.{shift_edge, fifo_edge, fifo_flush, fifo_ops, sticky_edge}
use vibe_pio.Model.Edge.{edge}
use vibe_pio.Model.Laws.Control.{exec-no_restart}

-- The program counter and the scratch registers.
pub record Scratch : Type 0 where
  pub pc : ℕ
  pub x : ℕ
  pub y : ℕ

abbrev pub scratch_of : Slice → Scratch
scratch_of s = record { pc = s.pc_r; x = s.x_r; y = s.y_r }

module _ (c : Comb) (i : EdgeIn) (s : Slice) where
  divider_scratch : scratch_of (divider_edge c i s) ≡ scratch_of s
  unfolding divider_edge
  divider_scratch = ground arith

  latch_scratch : scratch_of (latch_edge c i s) ≡ scratch_of s
  unfolding latch_edge
  latch_scratch = ground arith

  irqw_scratch : scratch_of (irqw_edge c i s) ≡ scratch_of s
  unfolding irqw_edge
  irqw_scratch = ground arith

  shift_scratch : scratch_of (shift_edge c s) ≡ scratch_of s
  unfolding shift_edge
  shift_scratch = ground arith

  fifo_scratch : scratch_of (fifo_edge c i s) ≡ scratch_of s
  unfolding fifo_edge fifo_flush fifo_ops
  fifo_scratch = ground arith

  delay_scratch : scratch_of (delay_edge c i s) ≡ scratch_of s
  unfolding delay_edge
  delay_scratch = refl

abbrev scratch_after : Comb → Scratch → Scratch
scratch_after c r = record {
  pc = if c.compl then low_bits c.pc_next 5 else r.pc;
  x = if c.compl && c.x_wr then low_bits c.x_val 32 else r.x;
  y = if c.compl && c.y_wr then low_bits c.y_val 32 else r.y;
}

scratch_edge_same :
    (c : Comb) (s t : Slice)
    → scratch_of s ≡ scratch_of t
    → scratch_of (scratch_edge c s) ≡ scratch_of (scratch_edge c t)
unfolding scratch_edge
scratch_edge_same c s t e = ap (λ (r : Scratch). scratch_after c r) e

-- The edge writes the program counter and the scratch registers only in its second group.
edge_scratch :
    (c : Comb) (i : EdgeIn) (s : Slice) → scratch_of (edge c i s) ≡ scratch_of (scratch_edge c s)
unfolding edge sticky_edge
edge_scratch c i s =
    let s1 = divider_edge c i (bank_edge i s) in
    let s2 = delay_edge c i (scratch_edge c (state_edge c i s1)) in
    let s3 = irqw_edge c i (latch_edge c i s2) in
    fifo_scratch c i (shift_edge c s3)
    ∙ shift_scratch c i s3
    ∙ irqw_scratch c i (latch_edge c i s2)
    ∙ latch_scratch c i s2
    ∙ delay_scratch c i (scratch_edge c (state_edge c i s1))
    ∙ scratch_edge_same c (state_edge c i s1) s
        (unfold state_edge in divider_scratch c i (bank_edge i s) ∙ (unfold bank_edge in refl))

-- A tick that holds its instruction: no result of it is written, though the OSR may be refilled.
pub record IsHeld (b : Comb) : Type 0 where
  pub executes : b.tick.m_exec ≡ true
  pub not_complete : b.compl ≡ false
  pub held_os : b.os_write ≡ no_write
  pub held_flag_clr : b.irq_clr_req ≡ false
  pub held_out : b.out_en ≡ false
  pub held_in : b.in_en ≡ false
  pub held_isr : b.isr_load.en ≡ false
  pub held_push : b.rx_push ≡ false
  pub held_put : b.aux_put_en ≡ false
  pub held_delay : b.delay_load ≡ false

stall-m_exec :
    (s : Slice) (c : CombIn) (t : Tick) (d : Decoded) → Stall.stall s c t d ≡ true → t.m_exec ≡ true
unfolding Stall.stall
stall-m_exec s c t d h = ground arith

bundle-IsHeld :
    (s : Slice) (c : CombIn) (t : Tick) (d : Decoded)
    → (t.m_exec ≡ true → t.m_restart ≡ false)
    → Stall.stall s c t d ≡ true
    → IsHeld (bundle s c t d)
unfolding bundle compl done
bundle-IsHeld s c t d r h =
    let m = stall-m_exec s c t d h in
    let n = r m in
    record {
      executes = m;
      not_complete = ground arith;
      held_os = unfold os_write gpio_out_we gpio_set_we in ground arith;
      held_flag_clr = unfold irq_clr_req in ground arith;
      held_out = unfold out_en in ground arith;
      held_in = unfold in_en in ground arith;
      held_isr = unfold isr_load in_ap push_do in ground arith;
      held_push = unfold rx_push in_ap push_do in ground arith;
      held_put = unfold aux_put in ground arith;
      held_delay = unfold delay_load in ground arith;
    }

comb-IsHeld : (s : Slice) (c : CombIn) {b : Comb} → comb s c ≡ ok b → b.stall ≡ true → IsHeld b
unfolding comb
comb-IsHeld s c {b} e =
    let (d, ed, e') = >>=-eq-ok (select_decode s c) _ e in
    subst (λ (b : Comb). b.stall ≡ true → IsHeld b) (ok-injective e')
      (unfold bundle in bundle-IsHeld s c (arbitrate s c.sm_en) d (exec-no_restart s c.sm_en))

-- A stalled tick writes no pin by OUT, MOV or SET, clears no flag, shifts nothing in or out and
-- pushes nothing, and the edge after it leaves the program counter and both scratch registers as
-- they were, whatever the bus does in the cycle.
pub stall_freezes :
    (s : Slice) (c : CombIn) (i : EdgeIn) {b : Comb}
    → comb s c ≡ ok b
    → b.stall ≡ true
    → IsHeld b × (scratch_of (edge b i s) ≡ scratch_of s)
unfolding scratch_edge
stall_freezes s c i {b} e h =
    let held = comb-IsHeld s c e h in
    (held, edge_scratch b i s ∙ (let n = held.not_complete in ground arith))
