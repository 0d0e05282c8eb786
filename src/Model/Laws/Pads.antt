-- ===== src/Model/Laws/Pads.antt =====
-- The pads, pin by pin: which writer of a cycle a pin follows.
use vibe_pio.Base.{
  ℕ, ◌-◌, ◌<◌, ◌≤◌, ◌≡◌, refl, ap, ◌∙◌, Bool, true, false, not, ◌&&◌, ◌==◌, if◌then◌else◌, if_both,
  arith, bit_or, and_not, digit, digit-bit_or, digit-and_not, digit-low_bits, digit-lt, max, Four,
  at, Option, none, some, List, [], ◌∷◌,
}
use vibe_pio.Model.Slice.{Slice}
use vibe_pio.Model.Config.{out_sticky_en}
use vibe_pio.Model.Comb.Pins.{PinWrite}
use vibe_pio.Model.Comb.Bundle.{Comb}
use vibe_pio.Model.Block.Registers.{Sticky, Block}
use vibe_pio.Model.Block.Pads.{Pads, write_masked, write_pads, pads_round, pads_next}

-- Data has bits where its mask has.
abbrev pub Covered : ℕ → ℕ → Type 0
Covered mask value = (k : ℕ) → digit value k ≤ digit mask k

abbrev pub follow : Option ℕ → ℕ → ℕ
follow none old = old
follow (some v) old = v

-- What a masked write makes of one pin, over what another leaves.
abbrev pub over : ℕ → ℕ → ℕ → Option ℕ → Option ℕ
over mask value k below = if digit mask k == 1 then some (digit value k) else below

digit-low_or :
    (old mask value k : ℕ)
    → k < 32
    → digit (write_masked old mask value) k ≡ max (digit old k - digit mask k) (digit value k)
unfolding write_masked
digit-low_or old mask value k h = omega (
  arith,
  digit-low_bits 32 k (bit_or (and_not old mask) value) h,
  digit-bit_or k (and_not old mask) value,
  digit-and_not k old mask,
)

follow_if :
    (b : Bool) (v : ℕ) (below : Option ℕ) (rest : ℕ)
    → (if b then v else follow below rest) ≡ follow (if b then some v else below) rest
follow_if true v below rest = refl
follow_if false v below rest = refl

digit-write_masked :
    (old mask value k : ℕ) (below : Option ℕ) (rest : ℕ)
    → k < 32
    → digit value k ≤ digit mask k
    → digit old k ≡ follow below rest
    → digit (write_masked old mask value) k ≡ follow (over mask value k below) rest
digit-write_masked old mask value k below rest h c e =
    ground (arith, digit-low_or old mask value k h, digit-lt k mask, digit-lt k old)
    ∙ ap (λ r. if digit mask k == 1 then digit value k else r) e
    ∙ follow_if (digit mask k == 1) (digit value k) below rest

-- What the writes of one state machine make of a pin: side-set over OUT or SET over the sticky write.
abbrev pub drives : Bool → ℕ → ℕ → ℕ → ℕ → ℕ → ℕ → ℕ → Option ℕ
drives on sm sv om ov m v k = over m v k (over om ov k (if on then over sm sv k none else none))

digit_round :
    (on : Bool) (sm sv om ov m v k old : ℕ)
    → k < 32
    → (on ≡ true → digit sv k ≤ digit sm k)
    → digit ov k ≤ digit om k
    → digit v k ≤ digit m k
    → digit (write_masked (write_masked (if on then write_masked old sm sv else old) om ov) m v) k
      ≡ follow (drives on sm sv om ov m v k) (digit old k)
digit_round true sm sv om ov m v k old h c1 c2 c3 =
    digit-write_masked _ m v k _ _ h c3 (
      digit-write_masked _ om ov k _ _ h c2
        (digit-write_masked old sm sv k none _ h (c1 refl) refl))
digit_round false sm sv om ov m v k old h c1 c2 c3 =
    digit-write_masked _ m v k _ _ h c3 (digit-write_masked old om ov k none _ h c2 refl)

pub record CoveredWrite (w : PinWrite) : Type 0 where
  pub lvl_covered : Covered w.lvl_mask w.lvl_data
  pub dir_covered : Covered w.dir_mask w.dir_data

pub record CoveredComb (c : Comb) : Type 0 where
  pub os_covered : CoveredWrite c.os_write
  pub ss_covered : CoveredWrite c.ss_write

-- The record in use, of levels or of directions, is within its mask.
pub record CoveredSticky (k : Sticky) : Type 0 where
  pub lvl_in_mask : k.is_dir ≡ false → Covered k.mask k.lvl
  pub dir_in_mask : k.is_dir ≡ true → Covered k.mask k.dir

-- The level and the direction that one state machine drives a pin to, if it does.
abbrev pub lvl_driven : Slice → Sticky → Comb → ℕ → Option ℕ
lvl_driven s st c k =
    drives (out_sticky_en s && not st.is_dir) st.mask st.lvl c.os_write.lvl_mask c.os_write.lvl_data
      c.ss_write.lvl_mask c.ss_write.lvl_data k

abbrev pub dir_driven : Slice → Sticky → Comb → ℕ → Option ℕ
dir_driven s st c k =
    drives (out_sticky_en s && st.is_dir) st.mask st.dir c.os_write.dir_mask c.os_write.dir_data
      c.ss_write.dir_mask c.ss_write.dir_data k

is_not : {b : Bool} → not b ≡ true → b ≡ false
is_not {b = true} h = cc
is_not {b = false} h = refl

and_right : (a b : Bool) → (a && b) ≡ true → b ≡ true
and_right a b h = ground arith

write_pads_lem :
    (s : Slice) (st : Sticky) (c : Comb) (p : Pads) (k : ℕ)
    → k < 32
    → CoveredSticky st
    → CoveredComb c
    → (digit (write_pads s st c p).lvl k ≡ follow (lvl_driven s st c k) (digit p.lvl k))
      × (digit (write_pads s st c p).oe k ≡ follow (dir_driven s st c k) (digit p.oe k))
unfolding write_pads
write_pads_lem s st c p k h cs cc' = (
  digit_round (out_sticky_en s && not st.is_dir) st.mask st.lvl _ _ _ _ k p.lvl h
      (λ e. cs.lvl_in_mask (is_not (and_right _ _ e)) k) (cc'.os_covered.lvl_covered k)
      (cc'.ss_covered.lvl_covered k),
  digit_round (out_sticky_en s && st.is_dir) st.mask st.dir _ _ _ _ k p.oe h
      (λ e. cs.dir_in_mask (and_right _ _ e) k) (cc'.os_covered.dir_covered k)
      (cc'.ss_covered.dir_covered k),
)

-- The first of a list that drives the pin decides it; if none does it keeps its value.
abbrev pub first_of : List (Option ℕ) → ℕ → ℕ
first_of [] old = old
first_of (w ∷ ws) old = follow w (first_of ws old)

abbrev pub ranked : Bool → (ℕ → Option ℕ) → List (Option ℕ)
ranked low w = if low then w 0 ∷ w 1 ∷ w 2 ∷ w 3 ∷ [] else w 3 ∷ w 2 ∷ w 1 ∷ w 0 ∷ []

abbrev pub CoveredStickies : Four Sticky → Type 0
CoveredStickies f =
    CoveredSticky f.e0 × CoveredSticky f.e1 × CoveredSticky f.e2 × CoveredSticky f.e3

abbrev pub CoveredCombs : Four Comb → Type 0
CoveredCombs f = CoveredComb f.e0 × CoveredComb f.e1 × CoveredComb f.e2 × CoveredComb f.e3

module _ (b : Block) (combs : Four Comb) (k : ℕ) where
  -- What state machine `n` drives pin `k` to.
  abbrev pub lvl_writer : ℕ → Option ℕ
  lvl_writer n = lvl_driven (at b.sms n) (at b.stickies n) (at combs n) k

  abbrev pub dir_writer : ℕ → Option ℕ
  dir_writer n = dir_driven (at b.sms n) (at b.stickies n) (at combs n) k

if_ranked :
    (low : Bool) (f : Pads → ℕ) (old : ℕ) (w : ℕ → Option ℕ) (p q : Pads)
    → f p ≡ first_of (ranked true w) old
    → f q ≡ first_of (ranked false w) old
    → f (if low then p else q) ≡ first_of (ranked low w) old
if_ranked true f old w p q hp hq = hp
if_ranked false f old w p q hp hq = hq

-- The rounds of the loop in any order of four, for one bit of the pads.
rounds :
    (f : Pads → ℕ) (round : ℕ → Pads → Pads) (w : ℕ → Option ℕ)
    → ((n : ℕ) (p : Pads) → f (round n p) ≡ follow (w n) (f p))
    → (n0 n1 n2 n3 : ℕ) (p : Pads)
    → f (round n0 (round n1 (round n2 (round n3 p))))
      ≡ follow (w n0) (follow (w n1) (follow (w n2) (follow (w n3) (f p))))
rounds f round w e n0 n1 n2 n3 p =
    e n0 _ ∙ ap (follow (w n0)) (e n1 _ ∙ ap (follow (w n1)) (e n2 _ ∙ ap (follow (w n2)) (e n3 p)))

at_each {ℓ κ} :
    {A : Type ℓ} (P : A → Type κ) (f : Four A) (n : ℕ)
    → P f.e0 × P f.e1 × P f.e2 × P f.e3
    → P (at f n)
at_each P f n h = if_both P (n == 0) h.0 (if_both P (n == 1) h.1 (if_both P (n == 2) h.2 h.3))

pads_round_lem :
    (b : Block) (combs : Four Comb) (k : ℕ)
    → k < 32
    → CoveredStickies b.stickies
    → CoveredCombs combs
    → (n : ℕ) (p : Pads)
    → (digit (pads_round b combs n p).lvl k ≡ follow (lvl_writer b combs k n) (digit p.lvl k))
      × (digit (pads_round b combs n p).oe k ≡ follow (dir_writer b combs k n) (digit p.oe k))
unfolding pads_round
pads_round_lem b combs k h cs cc' n p =
    write_pads_lem (at b.sms n) (at b.stickies n) (at combs n) p k h
      (at_each CoveredSticky b.stickies n cs) (at_each CoveredComb combs n cc')

-- Each pin follows the highest-numbered state machine that drives it (the lowest-numbered one under
-- that deviation), whose side-set goes before its OUT or SET and that before its sticky write.
-- A pin that none drives keeps its level, and its direction likewise.
pub digit-pads_next :
    (b : Block) (combs : Four Comb) (k : ℕ)
    → k < 32
    → CoveredStickies b.stickies
    → CoveredCombs combs
    → (digit (pads_next b combs).lvl k
        ≡ first_of (ranked b.mut.gpio_pri_low (lvl_writer b combs k)) (digit b.gpio_lvl_r k))
      × (digit (pads_next b combs).oe k
          ≡ first_of (ranked b.mut.gpio_pri_low (dir_writer b combs k)) (digit b.gpio_oe_r k))
unfolding pads_next
digit-pads_next b combs k h cs cc' =
    let e = pads_round_lem b combs k h cs cc' in
    let lvl_rounds =
      rounds (λ p. digit p.lvl k) (pads_round b combs) (lvl_writer b combs k) (λ n p. (e n p).0) in
    let oe_rounds =
      rounds (λ p. digit p.oe k) (pads_round b combs) (dir_writer b combs k) (λ n p. (e n p).1) in
    (
      if_ranked b.mut.gpio_pri_low (λ p. digit p.lvl k) _ (lvl_writer b combs k) _ _
          (lvl_rounds 0 1 2 3 _) (lvl_rounds 3 2 1 0 _),
      if_ranked b.mut.gpio_pri_low (λ p. digit p.oe k) _ (dir_writer b combs k) _ _
          (oe_rounds 0 1 2 3 _) (oe_rounds 3 2 1 0 _),
    )
