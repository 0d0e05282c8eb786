-- ===== src/Model/Laws/Covered.antt =====
-- Every pin write of the model has data within its mask, and so have the sticky records: what the
-- priority of the pins rests on.
use vibe_pio.Base.{
  ℕ, digit-of_ge, two_pow_pos, ◌<◌, ◌≡◌, ap, Bool, true, false, not, ◌&&◌, ◌==◌, if◌then◌else◌,
  if_both, arith, bit_or, bit_and, digit, digit-bit_or, digit-bit_and, at, ok, >>=-eq-ok,
  ok-injective, subst,
}
use vibe_pio.Model.Slice.{Slice, Mutations}
use vibe_pio.Model.Comb.Tick.{CombIn, select_decode, Tick}
use vibe_pio.Encoding.Decode.{Decoded}
use vibe_pio.Model.Config.{set_count}
use vibe_pio.Model.Comb.Pins.{no_write, masked_write, os_write, ss_write, gpio_out_we, gpio_set_we}
use vibe_pio.Model.Comb.Bundle.{Comb, bundle, comb}
use vibe_pio.Model.Block.Registers.{Sticky, Block, block_reset}
use vibe_pio.Model.Block.Bus.{StepIn, Bus, bus_decode}
use vibe_pio.Model.Block.Pads.{sticky_next}
use vibe_pio.Model.Block.Step.{step, cycle, block_edge, Cycle}
use vibe_pio.Model.Laws.Pads.{
  Covered, CoveredWrite, CoveredComb, CoveredSticky, CoveredStickies, CoveredCombs, first_of,
  ranked, lvl_writer, dir_writer, digit-pads_next,
}
use vibe_pio.Model.Laws.StepValid.{cycle-Each}
use vibe_pio.Model.Laws.Reach.{Reach, start, after}

Covered-none : (m : ℕ) → Covered m 0
Covered-none m k = omega (arith, digit-of_ge k 0 (two_pow_pos k))

Covered-masked : (m v : ℕ) → Covered m (bit_and v m)
Covered-masked m v k = omega (arith, digit-bit_and k v m)

masked_write-CoveredWrite : (is_dir : Bool) (m v : ℕ) → CoveredWrite (masked_write is_dir m v)
unfolding masked_write
masked_write-CoveredWrite true m v = record {
  lvl_covered = Covered-none 0;
  dir_covered = Covered-masked m v;
}
masked_write-CoveredWrite false m v = record {
  lvl_covered = Covered-masked m v;
  dir_covered = Covered-none 0;
}

no_write-CoveredWrite : CoveredWrite no_write
no_write-CoveredWrite = record { lvl_covered = Covered-none 0; dir_covered = Covered-none 0 }

os_write-CoveredWrite :
    (s : Slice) (c : CombIn) (t : Tick) (d : Decoded) → CoveredWrite (os_write s c t d)
unfolding os_write
os_write-CoveredWrite s c t d =
    if_both CoveredWrite (gpio_out_we s c t d) (masked_write-CoveredWrite _ _ _) (
      if_both CoveredWrite (gpio_set_we s c t d && not (set_count s == 0))
        (masked_write-CoveredWrite _ _ _) no_write-CoveredWrite)

ss_write-CoveredWrite :
    (s : Slice) (c : CombIn) (t : Tick) (d : Decoded) → CoveredWrite (ss_write s c t d)
unfolding ss_write
ss_write-CoveredWrite s c t d =
    if_both CoveredWrite _ (masked_write-CoveredWrite _ _ _) no_write-CoveredWrite

comb-CoveredComb : (s : Slice) (c : CombIn) {b : Comb} → comb s c ≡ ok b → CoveredComb b
unfolding comb bundle
comb-CoveredComb s c h =
    let (d, e, h') = >>=-eq-ok (select_decode s c) _ h in
    subst CoveredComb (ok-injective h') record {
      os_covered = os_write-CoveredWrite s c _ d;
      ss_covered = ss_write-CoveredWrite s c _ d;
    }

level_union :
    (is_dir : Bool) (m n v w : ℕ)
    → is_dir ≡ false
    → Covered m v
    → Covered (bit_or m n) (if is_dir then w else v)
level_union true m n v w e c k = cc
level_union false m n v w e c k = omega (arith, c k, digit-bit_or k m n)

direction_union :
    (is_dir : Bool) (m n v w : ℕ)
    → is_dir ≡ true
    → Covered n v
    → Covered (bit_or m n) (if is_dir then v else w)
direction_union true m n v w e c k = omega (arith, c k, digit-bit_or k m n)
direction_union false m n v w e c k = cc

cycle-CoveredCombs :
    (b : Block) (i : StepIn) (bus : Bus) {now : Cycle}
    → cycle b i bus ≡ ok now
    → CoveredCombs now.combs
cycle-CoveredCombs b i bus h =
    cycle-Each (λ n c. CoveredComb c) b i bus (λ n c k e h. comb-CoveredComb (at b.sms n) c h) h

reset_sticky : CoveredSticky record { mask = 0; lvl = 0; dir = 0; is_dir = false }
reset_sticky = record { lvl_in_mask = λ e. Covered-none 0; dir_in_mask = λ e. Covered-none 0 }

sticky_next-CoveredSticky :
    (c : Comb) (k : Sticky) → CoveredComb c → CoveredSticky k → CoveredSticky (sticky_next c k)
unfolding sticky_next
sticky_next-CoveredSticky c k cc' ck =
    if_both CoveredSticky c.sticky_wr
      record {
        lvl_in_mask = λ e. level_union c.sticky_isdir_next _ _ _ _ e cc'.os_covered.lvl_covered;
        dir_in_mask = λ e. direction_union c.sticky_isdir_next _ _ _ _ e cc'.os_covered.dir_covered;
      }
      ck

-- The sticky records of a block that a run from reset reaches have their data within their masks.
Reach-CoveredStickies :
    (mut : Mutations) {b : Block} → Reach (block_reset mut) b → CoveredStickies b.stickies
unfolding block_reset step block_edge
Reach-CoveredStickies mut start = (reset_sticky, reset_sticky, reset_sticky, reset_sticky)
Reach-CoveredStickies mut (after {c} i r e) =
    let (now, ec, e') = >>=-eq-ok (cycle c i (bus_decode i)) _ e in
    let cs = Reach-CoveredStickies mut r in
    let cc' = cycle-CoveredCombs c i (bus_decode i) ec in
    subst (λ (b : Block). CoveredStickies b.stickies) (ap (λ p. p.0) (ok-injective e'))
      (
        sticky_next-CoveredSticky now.combs.e0 c.stickies.e0 cc'.0 cs.0,
        sticky_next-CoveredSticky now.combs.e1 c.stickies.e1 cc'.1 cs.1,
        sticky_next-CoveredSticky now.combs.e2 c.stickies.e2 cc'.2 cs.2,
        sticky_next-CoveredSticky now.combs.e3 c.stickies.e3 cc'.3 cs.3,
      )

-- After any cycles from reset, a cycle leaves each pin at what the highest-numbered state machine
-- that drives it makes of it (the lowest-numbered one under that deviation), with side-set before
-- OUT, MOV or SET and that before the sticky write; a pin that none drives keeps its level, and
-- the directions follow their own writes in the same way.
pub digit_step-gpio :
    (mut : Mutations) (b : Block) (i : StepIn) (k : ℕ) {now : Cycle}
    → Reach (block_reset mut) b
    → cycle b i (bus_decode i) ≡ ok now
    → k < 32
    → (digit (block_edge b i (bus_decode i) now.combs).gpio_lvl_r k
        ≡ first_of (ranked b.mut.gpio_pri_low (lvl_writer b now.combs k)) (digit b.gpio_lvl_r k))
      × (digit (block_edge b i (bus_decode i) now.combs).gpio_oe_r k
          ≡ first_of (ranked b.mut.gpio_pri_low (dir_writer b now.combs k)) (digit b.gpio_oe_r k))
unfolding block_edge
digit_step-gpio mut b i k {now} r e h =
    digit-pads_next b now.combs k h (Reach-CoveredStickies mut r)
      (cycle-CoveredCombs b i (bus_decode i) e)
