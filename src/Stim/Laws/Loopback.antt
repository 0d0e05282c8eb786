-- ===== src/Stim/Laws/Loopback.antt =====
-- The loopback pins of `_fold_loopback`.
use vibe_pio.Base.{
  ℕ, zero, suc, ◌+◌, ◌<◌, ◌≡◌, ap, arith, true, not, ◌==◌, ltb, ◌&&◌, if◌then◌else◌, shl, bit_or,
  and_not, Bool-cases, inl, inr, digit, digit-bit_or, digit-and_not, digit-shr, digit-lt,
  digit-shl_bit, digit-of_ge, two_pow_pos,
}
use vibe_pio.Encoding.Split.{bit, has_bit}
use vibe_pio.Model.Block.Registers.{Block}
use vibe_pio.Stim.Run.{own_level, fold_from, fold_loopback}

module _ (m : Block) (lb : ℕ) where
  own_level-lt : (p : ℕ) → own_level m p < 2
  own_level-lt p = ground arith

  -- One pin replaced.
  digit-replaced :
      (p i gin : ℕ)
      → digit (bit_or (and_not gin (shl 1 p)) (shl (own_level m p) p)) i
        ≡ (if i == p then own_level m p else digit gin i)
  digit-replaced p i gin = ground (
    arith,
    digit-bit_or i (and_not gin (shl 1 p)) (shl (own_level m p) p),
    digit-and_not i gin (shl 1 p),
    digit-shl_bit p i 1 (omega arith),
    digit-shl_bit p i (own_level m p) (own_level-lt p),
    digit-lt i gin,
    own_level-lt p,
  )

  -- The rounds from `p` on replace the pins of the mask from `p` on.
  digit-fold_from :
      (left p i gin : ℕ)
      → digit (fold_from m lb left p gin) i ≡ (
          if not (ltb i p) && (ltb i (p + left) && has_bit lb i)
          then own_level m i
          else digit gin i)
  unfolding fold_from
  digit-fold_from zero p i gin = ground arith
  digit-fold_from (suc left) p i gin = elim (Bool-cases (has_bit lb p)) [
    | inl h ↦ rw h (
        ground (
          arith,
          h,
          e i p,
          digit-fold_from left (p + 1) i (bit_or (and_not gin (shl 1 p)) (shl (own_level m p) p)),
          digit-replaced p i gin,
        ))
    | inr h ↦ rw h (ground (arith, h, e i p, digit-fold_from left (p + 1) i gin))
  ]
    where
      e :
          (a b : ℕ)
          → (a == b) ≡ true
          → (has_bit lb a ≡ has_bit lb b) × (own_level m a ≡ own_level m b)
      e a b h = let same : a ≡ b = ground arith in (ap (has_bit lb) same, ap (own_level m) same)

-- A pin below 32 that the loopback mask marks reads the level that the block itself drives on it,
-- or 0 where it drives none; every other bit reads the input.
pub fold_loopback_lem :
    (m : Block) (gpio lb p : ℕ)
    → bit (fold_loopback m gpio lb) p ≡ (
        if ltb p 32 && has_bit lb p
        then (if has_bit m.gpio_oe_r p then bit m.gpio_lvl_r p else 0)
        else bit gpio p)
unfolding fold_loopback
fold_loopback_lem m gpio lb p = elim (Bool-cases (lb == 0)) [
  | inl h ↦ rw h (ground (arith, digit-shr p lb, digit-of_ge p lb, two_pow_pos p))
  | inr h ↦ rw h (
      ground (
        arith,
        digit-fold_from m lb 32 0 p gpio,
        digit-shr p gpio,
        digit-shr p (fold_from m lb 32 0 gpio),
      ))
]
