-- ===== src/Model/Laws/StepValid.antt =====
-- `step` keeps the block well formed, from reset on, and when it raises.
use vibe_pio.Base.{
  bit_or-lt, ℕ, ◌^◌, ◌<◌, ◌≡◌, inl, inr, refl, ap, subst, ◌∙◌, Bool, true, false, ◌==◌,
  if◌then◌else◌, arith, low_bits, List, All, All-set, length, length-set, Result, ok, >>=-eq-ok,
  ok-injective, Four, at, all_ok, Bool-cases, if_both, two_pow_pos,
}
use vibe_pio.Model.Slice.{Mutations, reset}
use vibe_pio.Model.Comb.Tick.{CombIn}
use vibe_pio.Model.Comb.Bundle.{Comb, comb}
use vibe_pio.Model.Block.Registers.{Sticky, Block, block_reset}
use vibe_pio.Model.Block.Bus.{StepIn, Bus, bus_decode, edge_in}
use vibe_pio.Model.Block.Input.{comb_in, run_combs, sm_en}
use vibe_pio.Model.Block.Flags.{flags_next, flags_after, early_view}
use vibe_pio.Model.Block.Pads.{Pads, write_masked, write_pads, pads_round, pads_next, sticky_next}
use vibe_pio.Model.Block.Step.{Cycle, Observables, cycle, block_edge, step}
use vibe_pio.Model.Laws.Valid.{IsValid, Fits, PinFits, StickyFits}
use vibe_pio.Model.Laws.EdgeValid.{edge-IsValid}
use vibe_pio.Model.Laws.CombFits.{comb-Fits}

-- Of four of anything.
abbrev pub Each {ℓ κ} : {A : Type ℓ} → (ℕ → A → Type κ) → Four A → Type κ
Each P f = P 0 f.e0 × P 1 f.e1 × P 2 f.e2 × P 3 f.e3

abbrev pub IsWord : ℕ → Type 0
IsWord w = w < 2 ^ 16

pub record IsBlock (b : Block) : Type 0 where
  pub ctrl_fits : b.ctrl_r < 16
  pub isb_fits : b.isb_r < 2 ^ 32
  pub imem_length : length b.imem ≡ 32
  pub imem_words : All IsWord b.imem
  pub flags_fit : b.flags_r < 256
  pub sync1_fits : b.sync1_r < 2 ^ 32
  pub sync2_fits : b.sync2_r < 2 ^ 32
  pub lvl_fits : b.gpio_lvl_r < 2 ^ 32
  pub oe_fits : b.gpio_oe_r < 2 ^ 32
  pub stickies_fit : Each (λ _ k. StickyFits k) b.stickies
  pub sms_valid : Each (λ n s. IsValid s) b.sms

all_ok-eq-ok {ℓ} :
    {A : Type ℓ} (f : Four (Result A)) {g : Four A}
    → all_ok f ≡ ok g
    → Each (λ n a. at f n ≡ ok a) g
all_ok-eq-ok f {g} h =
    let (a, ea, ha) = >>=-eq-ok f.e0 _ h in
    let (b, eb, hb) = >>=-eq-ok f.e1 _ ha in
    let (c, ec, hc) = >>=-eq-ok f.e2 _ hb in
    let (d, ed, hd) = >>=-eq-ok f.e3 _ hc in
    subst (Each (λ n a. at f n ≡ ok a)) (ok-injective hd) (ea, eb, ec, ed)

-- The bundles of a cycle fit the registers that they came from.
abbrev AllFit : Block → Four Comb → Type 0
AllFit b combs = Each (λ n c. Fits c (at b.sms n) (sm_en b n)) combs

run_combs-Each {κ} :
    (P : ℕ → Comb → Type κ) (b : Block) (i : StepIn) (view : ℕ) {combs : Four Comb}
    → ((n : ℕ) (c : CombIn) (k : Comb) → c.sm_en ≡ sm_en b n → comb (at b.sms n) c ≡ ok k → P n k)
    → run_combs b i view ≡ ok combs
    → Each P combs
unfolding run_combs comb_in
run_combs-Each P b i view holds h =
    let each_ok = all_ok-eq-ok _ h in
    (
      holds 0 _ _ refl each_ok.0,
      holds 1 _ _ refl each_ok.1,
      holds 2 _ _ refl each_ok.2,
      holds 3 _ _ refl each_ok.3,
    )

picked {ℓ} : {A : Type ℓ} {b : Bool} {x r : A} (y : A) → b ≡ true → (if b then x else y) ≡ r → x ≡ r
picked {b = true} y e h = h
picked {b = false} y e h = cc

not_picked {ℓ} :
    {A : Type ℓ} {b : Bool} {y r : A} (x : A) → b ≡ false → (if b then x else y) ≡ r → y ≡ r
not_picked {b = true} x e h = cc
not_picked {b = false} x e h = h

-- What holds of every bundle that `comb` returns for a state machine holds of the bundles of a cycle.
pub cycle-Each {κ} :
    (P : ℕ → Comb → Type κ) (b : Block) (i : StepIn) (bus : Bus) {now : Cycle}
    → ((n : ℕ) (c : CombIn) (k : Comb) → c.sm_en ≡ sm_en b n → comb (at b.sms n) c ≡ ok k → P n k)
    → cycle b i bus ≡ ok now
    → Each P now.combs
unfolding cycle
cycle-Each P b i bus {now} holds h =
    let (first, e, h') = >>=-eq-ok (run_combs b i b.flags_r) _ h in
    let early = early_view b i bus first in
    let plain : ok (record { flags_now = b.flags_r; combs = first }) ≡ ok now → Each P now.combs =
      λ k.
        subst (λ (n : Cycle). Each P n.combs) (ok-injective k)
          (run_combs-Each P b i b.flags_r holds e) in
    elim (Bool-cases b.mut.irq_same_cycle) [
      | inl y ↦
          let (again, ea, ha) = >>=-eq-ok (run_combs b i early) _ (picked _ y h') in
          subst (λ (n : Cycle). Each P n.combs) (ok-injective ha)
            (run_combs-Each P b i early holds ea)
      | inr n ↦ plain (not_picked _ n h')
    ]

at-IsValid : (b : Block) (n : ℕ) → IsBlock b → IsValid (at b.sms n)
at-IsValid b n v =
    if_both IsValid (n == 0) v.sms_valid.0 (
      if_both IsValid (n == 1) v.sms_valid.1 (if_both IsValid (n == 2) v.sms_valid.2 v.sms_valid.3))

cycle-AllFit :
    (b : Block) (i : StepIn) (bus : Bus) {now : Cycle}
    → IsBlock b
    → cycle b i bus ≡ ok now
    → AllFit b now.combs
cycle-AllFit b i bus v h =
    cycle-Each (λ n c. Fits c (at b.sms n) (sm_en b n)) b i bus
      (λ n c _ e k. subst (Fits _ (at b.sms n)) e (comb-Fits (at b.sms n) c (at-IsValid b n v) k)) h

write_masked-lt : (old mask value : ℕ) → write_masked old mask value < 2 ^ 32
unfolding write_masked
write_masked-lt old mask value = omega arith

abbrev PadsFit : Pads → Type 0
PadsFit p = (p.lvl < 2 ^ 32) × (p.oe < 2 ^ 32)

pads_round-fit :
    (b : Block) (combs : Four Comb) (n : ℕ) (p : Pads) → PadsFit (pads_round b combs n p)
unfolding pads_round write_pads
pads_round-fit b combs n p = (write_masked-lt _ _ _, write_masked-lt _ _ _)

pads-fit : (b : Block) (combs : Four Comb) → PadsFit (pads_next b combs)
unfolding pads_next
pads-fit b combs =
    if_both PadsFit b.mut.gpio_pri_low (pads_round-fit b combs 0 _) (pads_round-fit b combs 3 _)

sticky_next-fits :
    (c : Comb) (k : Sticky) → PinFits c.os_write → StickyFits k → StickyFits (sticky_next c k)
unfolding sticky_next
sticky_next-fits c k p f =
    let mask =
      bit_or-lt 32 c.os_write.lvl_mask c.os_write.dir_mask p.lvl_mask_fits p.dir_mask_fits in
    ground arith

low_bits-lt : (n w : ℕ) → low_bits n w < 2 ^ w
low_bits-lt n w = omega (arith, two_pow_pos w)

-- The edge update of the block keeps it well formed.
block_edge-IsBlock :
    (b : Block) (i : StepIn) (combs : Four Comb)
    → IsBlock b
    → AllFit b combs
    → IsBlock (block_edge b i (bus_decode i) combs)
unfolding block_edge bus_decode edge_in
block_edge-IsBlock b i combs v f = record {
  ctrl_fits = if_both (λ w. w < 16) _ (low_bits-lt (low_bits i.wdata 32) 4) v.ctrl_fits;
  isb_fits = if_both (λ w. w < 2 ^ 32) _ (low_bits-lt i.wdata 32) v.isb_fits;
  imem_length =
      if_both (λ (m : List ℕ). length m ≡ 32) _ (length-set b.imem _ _ ∙ v.imem_length)
        v.imem_length;
  imem_words =
      if_both (All IsWord) _
        (All-set IsWord b.imem _ _ v.imem_words (low_bits-lt (low_bits i.wdata 32) 16))
        v.imem_words;
  flags_fit = unfold flags_next flags_after in omega arith;
  sync1_fits = omega arith;
  sync2_fits = v.sync1_fits;
  lvl_fits = (pads-fit b combs).0;
  oe_fits = (pads-fit b combs).1;
  stickies_fit = (
    sticky_next-fits combs.e0 b.stickies.e0 f.0.os_fits v.stickies_fit.0,
    sticky_next-fits combs.e1 b.stickies.e1 f.1.os_fits v.stickies_fit.1,
    sticky_next-fits combs.e2 b.stickies.e2 f.2.os_fits v.stickies_fit.2,
    sticky_next-fits combs.e3 b.stickies.e3 f.3.os_fits v.stickies_fit.3,
  );
  sms_valid = (
    edge-IsValid combs.e0 (edge_in (bus_decode i) (sm_en b 0) 0) b.sms.e0 v.sms_valid.0 f.0
        (omega arith),
    edge-IsValid combs.e1 (edge_in (bus_decode i) (sm_en b 1) 1) b.sms.e1 v.sms_valid.1 f.1
        (omega arith),
    edge-IsValid combs.e2 (edge_in (bus_decode i) (sm_en b 2) 2) b.sms.e2 v.sms_valid.2 f.2
        (omega arith),
    edge-IsValid combs.e3 (edge_in (bus_decode i) (sm_en b 3) 3) b.sms.e3 v.sms_valid.3 f.3
        (omega arith),
  );
}

-- A cycle that completes keeps a well-formed block well formed: every register of the block and of
-- its state machines in its width, the sticky pin records and the words of the FIFO memories
-- included, the instruction memory 32 words of 16 bits, every FIFO a ring of eight slots that,
-- while SHIFTCTRL selects the mode sampled last, holds no more than the depth of that mode, and a
-- forced instruction valid in the latch for as long as it is pending.
pub step-IsBlock :
    (b : Block) (i : StepIn) {b' : Block} {o : Observables}
    → IsBlock b
    → step b i ≡ ok (b', o)
    → IsBlock b'
unfolding step
step-IsBlock b i {b'} {o} v h =
    let (now, e, h') = >>=-eq-ok (cycle b i (bus_decode i)) _ h in
    subst IsBlock (ap (λ p. p.0) (ok-injective h'))
      (block_edge-IsBlock b i now.combs v (cycle-AllFit b i (bus_decode i) v e))

-- The reset state is well formed.
pub reset-IsBlock : (mut : Mutations) → IsBlock (block_reset mut)
unfolding block_reset reset
reset-IsBlock mut = ground arith
