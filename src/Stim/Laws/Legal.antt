-- ===== src/Stim/Laws/Legal.antt =====
-- Cycles of a schedule that writes no reserved SIDESET_COUNT complete, and a read samples a value.
use vibe_pio.Base.{
  ℕ, ◌/◌, ◌<◌, ◌≤◌, ◌≡◌, inl, inr, refl, sym, ap, subst, ◌∙◌, Bool, true, if◌then◌else◌, arith,
  if_both, shr, low_bits, List, [], ◌∷◌, ok, raises, completes, >>=-eq-ok, ok-injective, Four,
  Bool-cases, ◌==◌, some,
}
use vibe_pio.Model.Config.{sideset_count}
use vibe_pio.Model.Block.Registers.{Block}
use vibe_pio.Model.Block.Bus.{StepIn, bus_decode, edge_in, sm_write}
use vibe_pio.Model.Block.Input.{sm_en}
use vibe_pio.Model.Block.Read.{rdata}
use vibe_pio.Model.Block.Step.{Observables, cycle, observe, block_edge, step}
use vibe_pio.Model.Laws.StepValid.{Each}
use vibe_pio.Model.Laws.Reach.{step-RaisesWhen}
use vibe_pio.Trace.Format.{Rec, observed, read}
use vibe_pio.Stim.Addresses.{sm_addr, op_wr, op_rd}
use vibe_pio.Stim.Schedule.{StimCycle}
use vibe_pio.Stim.Run.{inputs, cycle_recs}
use vibe_pio.Model.Slice.{Slice}
use vibe_pio.Model.Comb.Bundle.{Comb}
use vibe_pio.Model.Edge.{edge}
use vibe_pio.Model.Edge.Control.{
  EdgeIn, bank_edge, divider_edge, state_edge, scratch_edge, delay_edge,
}
use vibe_pio.Model.Edge.Latch.{latch_edge, irqw_edge}
use vibe_pio.Model.Edge.Data.{shift_edge, fifo_edge, fifo_ops, fifo_flush, sticky_edge}

fifo_edge-pinctrl : (c : Comb) (i : EdgeIn) (s : Slice) → (fifo_edge c i s).pinctrl_r ≡ s.pinctrl_r
unfolding fifo_edge fifo_flush fifo_ops
fifo_edge-pinctrl c i s = if_both (λ (t : Slice). t.pinctrl_r ≡ s.pinctrl_r) c.flush refl refl

divider_edge-pinctrl :
    (c : Comb) (i : EdgeIn) (s : Slice) → (divider_edge c i s).pinctrl_r ≡ s.pinctrl_r
unfolding divider_edge
divider_edge-pinctrl c i s = ground arith

state_edge-pinctrl :
    (c : Comb) (i : EdgeIn) (s : Slice) → (state_edge c i s).pinctrl_r ≡ s.pinctrl_r
unfolding state_edge
state_edge-pinctrl c i s = ground arith

scratch_edge-pinctrl : (c : Comb) (s : Slice) → (scratch_edge c s).pinctrl_r ≡ s.pinctrl_r
unfolding scratch_edge
scratch_edge-pinctrl c s = ground arith

delay_edge-pinctrl :
    (c : Comb) (i : EdgeIn) (s : Slice) → (delay_edge c i s).pinctrl_r ≡ s.pinctrl_r
unfolding delay_edge
delay_edge-pinctrl c i s = ground arith

latch_edge-pinctrl :
    (c : Comb) (i : EdgeIn) (s : Slice) → (latch_edge c i s).pinctrl_r ≡ s.pinctrl_r
unfolding latch_edge
latch_edge-pinctrl c i s = ground arith

irqw_edge-pinctrl : (c : Comb) (i : EdgeIn) (s : Slice) → (irqw_edge c i s).pinctrl_r ≡ s.pinctrl_r
unfolding irqw_edge
irqw_edge-pinctrl c i s = ground arith

shift_edge-pinctrl : (c : Comb) (s : Slice) → (shift_edge c s).pinctrl_r ≡ s.pinctrl_r
unfolding shift_edge
shift_edge-pinctrl c s = ground arith

sticky_edge-pinctrl :
    (c : Comb) (i : EdgeIn) (before s : Slice) → (sticky_edge c i before s).pinctrl_r ≡ s.pinctrl_r
unfolding sticky_edge
sticky_edge-pinctrl c i before s = refl

edge-pinctrl :
    (c : Comb) (i : EdgeIn) (s : Slice)
    → (edge c i s).pinctrl_r ≡ (if i.pinctrl_we then i.wdata else s.pinctrl_r)
unfolding edge bank_edge
edge-pinctrl c i s =
    sticky_edge-pinctrl c i _ _
    ∙ fifo_edge-pinctrl c i _
    ∙ shift_edge-pinctrl c _
    ∙ irqw_edge-pinctrl c i _
    ∙ latch_edge-pinctrl c i _
    ∙ delay_edge-pinctrl c i _
    ∙ scratch_edge-pinctrl c _
    ∙ state_edge-pinctrl c i _
    ∙ divider_edge-pinctrl c i (bank_edge i s)

-- A SIDESET_COUNT that is no reserved one.
abbrev pub IsLegal : ℕ → Type 0
IsLegal pinctrl = low_bits (shr pinctrl 29) 3 ≤ 5

-- What a cycle writes to the PINCTRL of any state machine has no reserved SIDESET_COUNT.
abbrev pub WritesLegal : StimCycle → Type 0
WritesLegal c =
    (n : ℕ)
    → n < 4
    → c.op ≡ op_wr
    → low_bits (shr c.addr 2) 7 ≡ sm_addr n 5 / 4
    → IsLegal (low_bits c.wdata 32)

unfoldable pub AllLegal : Block → Type 0
AllLegal b = Each (λ _ s. IsLegal s.pinctrl_r) b.sms

module _ (c : StimCycle) (legal : WritesLegal c) (m : Block) where
  written :
      (n : ℕ)
      → n < 4
      → sm_write (bus_decode (inputs m c)) n 5 ≡ true
      → IsLegal (low_bits c.wdata 32)
  unfolding sm_write bus_decode inputs
  written n small h = legal n small (ground arith) (ground arith)

  edge-IsLegal :
      (n : ℕ) (k : Comb) (en : Bool) (s : Slice)
      → n < 4
      → IsLegal s.pinctrl_r
      → IsLegal (edge k (edge_in (bus_decode (inputs m c)) en n) s).pinctrl_r
  unfolding edge_in bus_decode inputs
  edge-IsLegal n k en s small old =
      let i = edge_in (bus_decode (inputs m c)) en n in
      subst IsLegal (sym (edge-pinctrl k i s))
        (elim (Bool-cases i.pinctrl_we) [ inl h ↦ rw h (written n small h) | inr h ↦ rw h old ])

  block_edge-AllLegal :
      (combs : Four Comb)
      → AllLegal m
      → AllLegal (block_edge m (inputs m c) (bus_decode (inputs m c)) combs)
  unfolding block_edge AllLegal
  block_edge-AllLegal k h = (
    edge-IsLegal 0 k.e0 (sm_en m 0) m.sms.e0 (omega arith) h.0,
    edge-IsLegal 1 k.e1 (sm_en m 1) m.sms.e1 (omega arith) h.1,
    edge-IsLegal 2 k.e2 (sm_en m 2) m.sms.e2 (omega arith) h.2,
    edge-IsLegal 3 k.e3 (sm_en m 3) m.sms.e3 (omega arith) h.3,
  )

  pub step-AllLegal :
      {after : Block × Observables} → AllLegal m → step m (inputs m c) ≡ ok after → AllLegal after.0
  unfolding step
  step-AllLegal h e =
      let (now, _, e') = >>=-eq-ok (cycle m (inputs m c) (bus_decode (inputs m c))) _ e in
      subst (λ (p : Block × Observables). AllLegal p.0) (ok-injective e')
        (block_edge-AllLegal now.combs h)

-- With no reserved SIDESET_COUNT a cycle completes.
pub step_completes :
    (m : Block) (i : StepIn) → AllLegal m → (after : Block × Observables) × (step m i ≡ ok after)
unfolding AllLegal sideset_count
step_completes m i h = elim (step-RaisesWhen m i) [
  | raises reserved _ ↦ absurd (ground (arith, reserved))
  | completes _ after e ↦ (after, e)
]

-- A read samples a value.
pub step-sampled :
    (m : Block) (c : StimCycle) {after : Block × Observables}
    → step m (inputs m c) ≡ ok after
    → (c.op == op_rd) ≡ true
    → (v : ℕ) × (after.1.rdata ≡ some v)
unfolding step bus_decode inputs observe
step-sampled m c e h =
    let (now, _, e') = >>=-eq-ok (cycle m (inputs m c) (bus_decode (inputs m c))) _ e in
    (
      rdata m (bus_decode (inputs m c)) now.flags_now,
      sym (ap (λ (p : Block × Observables). p.1.rdata) (ok-injective e')) ∙ (rw h refl),
    )

pub cycle_recs-ok :
    (k : ℕ) (m : Block) (c : StimCycle) {after : Block × Observables}
    → step m (inputs m c) ≡ ok after
    → (recs : List Rec) × (cycle_recs k c after.1 ≡ ok recs)
unfolding cycle_recs
cycle_recs-ok k m c {after} e = elim (Bool-cases (c.op == op_rd)) [
  | inl h ↦
      let (v, sample) = step-sampled m c e h in (seen ∷ read k c.addr v ∷ [], rw h (rw sample refl))
  | inr h ↦ (seen ∷ [], rw h refl)
]
  where
    seen : Rec
    seen = observed k after.1.gpio_out after.1.gpio_oe after.1.intr
