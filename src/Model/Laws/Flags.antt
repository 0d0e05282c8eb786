-- ===== src/Model/Laws/Flags.antt =====
-- The IRQ flag register, bit by bit, and the index composition of relative flags.
use vibe_pio.Base.{
  ℕ, ◌+◌, ◌-◌, ◌*◌, ◌/◌, ◌%◌, ◌<◌, ◌≡◌, ◌↔◌, ap, ◌∙◌, false, arith, max, low_bits, bit_or, and_not,
  bit_or_fields, digit, digit-bit_or, digit-and_not, digit-low_bits, Four,
}
use vibe_pio.Model.Slice.{Slice}
use vibe_pio.Model.Config.{rel_index}
use vibe_pio.Model.Comb.Bundle.{Comb}
use vibe_pio.Model.Block.Registers.{Block}
use vibe_pio.Model.Block.Bus.{StepIn, Bus, byte_write}
use vibe_pio.Model.Block.Flags.{
  flags_after, flags_next, loc_set, loc_clr, outer_set, outer_clr, local_set, local_clr,
}

digit-flags_after :
    (flags set_mask clr k : ℕ)
    → k < 8
    → digit (flags_after flags set_mask clr) k
      ≡ max (digit flags k) (digit set_mask k) - digit clr k
unfolding flags_after
digit-flags_after flags set_mask clr k h = omega (
  arith,
  digit-low_bits 8 k (and_not (bit_or flags set_mask) clr) h,
  digit-and_not k (bit_or flags set_mask) clr,
  digit-bit_or k flags set_mask,
)

digit-bit_or_six :
    (k a b c d e f : ℕ)
    → digit (bit_or (bit_or (bit_or (bit_or (bit_or a b) c) d) e) f) k
      ≡ max
          (max (digit a k) (digit b k))
          (max (max (digit c k) (digit d k)) (max (digit e k) (digit f k)))
digit-bit_or_six k a b c d e f = omega (
  arith,
  digit-bit_or k a b,
  digit-bit_or k (bit_or a b) c,
  digit-bit_or k (bit_or (bit_or a b) c) d,
  digit-bit_or k (bit_or (bit_or (bit_or a b) c) d) e,
  digit-bit_or k (bit_or (bit_or (bit_or (bit_or a b) c) d) e) f,
)

module _ (b : Block) (i : StepIn) (bus : Bus) (combs : Four Comb) (k : ℕ) where
  -- Somebody sets flag `k`: the bus, a neighbour or a state machine.
  abbrev pub set_by_any : ℕ
  set_by_any = max (max (digit (byte_write bus 13) k) (digit (low_bits i.nb_set 8) k)) (
      max (max (digit (local_set combs.e0) k) (digit (local_set combs.e1) k))
        (max (digit (local_set combs.e2) k) (digit (local_set combs.e3) k)))

  abbrev pub cleared_by_any : ℕ
  cleared_by_any = max (max (digit (byte_write bus 12) k) (digit (low_bits i.nb_clr 8) k)) (
      max (max (digit (local_clr b.sms.e0 combs.e0) k) (digit (local_clr b.sms.e1 combs.e1) k))
        (max (digit (local_clr b.sms.e2 combs.e2) k) (digit (local_clr b.sms.e3 combs.e3) k)))

  digit-loc_set : digit (loc_set i bus combs) k ≡ set_by_any
  unfolding loc_set outer_set
  digit-loc_set = digit-bit_or_six k _ _ _ _ _ _

  digit-loc_clr : digit (loc_clr b i bus combs) k ≡ cleared_by_any
  unfolding loc_clr outer_clr
  digit-loc_clr = digit-bit_or_six k _ _ _ _ _ _

-- Each of the eight IRQ flags is set at the next cycle exactly when nobody clears it and it was
-- set or somebody sets it, the bus, the neighbours and the four state machines alike: a clear wins
-- over a set.
pub digit-flags_next :
    (b : Block) (i : StepIn) (bus : Bus) (combs : Four Comb) (k : ℕ)
    → k < 8
    → digit (flags_next b i bus combs) k
      ≡ max (digit b.flags_r k) (set_by_any b i bus combs k) - cleared_by_any b i bus combs k
unfolding flags_next
digit-flags_next b i bus combs k h =
    digit-flags_after b.flags_r (loc_set i bus combs) (loc_clr b i bus combs) k h
    ∙ ap (λ n. max (digit b.flags_r k) n - digit (loc_clr b i bus combs) k)
        (digit-loc_set b i bus combs k)
    ∙ ap (λ n. max (digit b.flags_r k) (set_by_any b i bus combs k) - n)
        (digit-loc_clr b i bus combs k)

rel_index_lem :
    (s : Slice) (idx : ℕ)
    → s.mut.irq_rel_off ≡ false
    → idx < 8
    → rel_index s idx ≡ 4 * (idx / 4) + (idx + s.sm_id) % 4
unfolding rel_index
rel_index_lem s idx e h =
    ground (arith, bit_or_fields 2 (idx / 4 % 2) ((idx + s.sm_id) % 4) (omega arith))

-- Without the deviation that drops it, the relative index of a state machine for an index below 8
-- is a flag number below 8 that keeps the half of the index and has in its two low bits the sum of
-- the index and the number of the state machine modulo 4; so the relative indices of two state
-- machines name one flag exactly when the indices lie in the same half and these sums agree modulo
-- 4.
pub rel_index-eq :
    (s t : Slice) (i j : ℕ)
    → s.mut.irq_rel_off ≡ false
    → t.mut.irq_rel_off ≡ false
    → i < 8
    → j < 8
    → (rel_index s i < 8)
      × (rel_index s i / 4 ≡ i / 4)
      × (rel_index s i % 4 ≡ (i + s.sm_id) % 4)
      × ((rel_index s i ≡ rel_index t j)
          ↔ ((i / 4 ≡ j / 4) × ((i + s.sm_id) % 4 ≡ (j + t.sm_id) % 4)))
rel_index-eq s t i j e e' hi hj =
    let at_s = rel_index_lem s i e hi in
    let at_t = rel_index_lem t j e' hj in
    (omega arith, omega arith, omega arith, (λ h. (omega arith, omega arith), λ h. omega arith))
