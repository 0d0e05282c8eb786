-- ===== src/Optimize/Laws/Surgery.antt =====
-- What packing a delay does to each bit of a word.
use vibe_pio.Base.{
  ℕ, ◌+◌, ◌-◌, ◌^◌, ◌≤◌, ◌<◌, ◌≡◌, ◌∙◌, sym, ap, arith, ◌&&◌, ltb, leb, if◌then◌else◌, shl,
  low_bits, bit_and, and_not, digit, digit-shr, digit-bit_or, digit-bit_and, digit-and_not,
  digit-low_bits, digit-lt, digit-shl, digit-mask,
}
use vibe_pio.Encoding.Split.{bit}
use vibe_pio.Optimize.Candidate.{SeedCtx}
use vibe_pio.Optimize.Surgery.{put_delay, set_delay}

-- The delay field is the `n` bits from bit 8 on.
digit-put_delay :
    (n word delay i : ℕ)
    → i < 16
    → digit (put_delay (2 ^ n - 1) word delay) i
      ≡ (if leb 8 i && ltb i (8 + n) then digit delay (i - 8) else digit word i)
unfolding put_delay
digit-put_delay n word delay i small =
    let m = 2 ^ n - 1 in
    ground (
      arith,
      digit-bit_or i (low_bits (and_not word (shl m 8)) 16) (shl (bit_and delay m) 8),
      digit-low_bits 16 i (and_not word (shl m 8)) small,
      digit-and_not i word (shl m 8),
      digit-shl 8 i m,
      digit-shl 8 i (bit_and delay m),
      digit-bit_and (i - 8) delay m,
      digit-mask n (i - 8),
      digit-lt i word,
      digit-lt (i - 8) delay,
    )

-- For a side-set total of at most 5, each of the 16 bits of a word with a new delay is that bit of
-- the delay inside the delay field and the old bit everywhere else.
pub set_delay_lem :
    (ctx : SeedCtx) (word delay i : ℕ)
    → i < 16
    → ctx.ss_total ≤ 5
    → bit (set_delay ctx word delay) i
      ≡ (if leb 8 i && ltb i (13 - ctx.ss_total) then bit delay (i - 8) else bit word i)
unfolding set_delay
set_delay_lem ctx word delay i small total =
    let n = 5 - ctx.ss_total in
    let mask : shl 1 n - 1 ≡ 2 ^ n - 1 = omega arith in
    ap (λ (m : ℕ). bit (put_delay m word delay) i) mask
    ∙ sym (digit-shr i (put_delay (2 ^ n - 1) word delay))
    ∙ digit-put_delay n word delay i small
    ∙ ground (arith, digit-shr (i - 8) delay, digit-shr i word)
