-- ===== src/Stim/Laws/Config.antt =====
-- The configuration words of `pctrl`, `shiftctrl` and `clkdiv`, as the model reads them back.
use vibe_pio.Base.{
  ℕ, ◌+◌, ◌-◌, ◌*◌, ◌/◌, ◌^◌, ◌<◌, ◌≡◌, ◌↔◌, ◌∙◌, refl, sym, ap, arith, true, shl, shr, low_bits,
  bit_or, bit_or_fields, min,
}
use vibe_pio.Model.Slice.{Slice}
use vibe_pio.Model.Config.{
  sideset_count, set_count, out_count, in_base, sideset_base, set_base, out_base,
}
use vibe_pio.Model.Block.Bus.{StepIn, bus_decode, sm_write}
use vibe_pio.Stim.Addresses.{sm_addr, op_wr}
use vibe_pio.Stim.Words.{pctrl}

-- A field put below those that are there.
under :
    (width low acc high : ℕ) → acc ≡ high * 2 ^ width → low < 2 ^ width → bit_or acc low ≡ acc + low
under width low acc high e h =
    ap (λ (t : ℕ). bit_or t low) e
    ∙ bit_or_fields width high low h
    ∙ ap (λ (t : ℕ). t + low) (sym e)

pctrl_sum :
    (ss_cnt set_cnt out_cnt in_b ss_b set_b out_b : ℕ)
    → ss_cnt < 8
    → set_cnt < 8
    → out_cnt < 64
    → in_b < 32
    → ss_b < 32
    → set_b < 32
    → out_b < 32
    → pctrl ss_cnt set_cnt out_cnt in_b ss_b set_b out_b
      ≡ ss_cnt * 2 ^ 29
        + set_cnt * 2 ^ 26
        + out_cnt * 2 ^ 20
        + in_b * 2 ^ 15
        + ss_b * 2 ^ 10
        + set_b * 2 ^ 5
        + out_b
unfolding pctrl
pctrl_sum a b c d e f g ha hb hc hd he hf hg =
    let s1 = under 29 (b * 2 ^ 26) (a * 2 ^ 29) a refl (omega arith) in
    let s2 =
      under 26 (c * 2 ^ 20) (a * 2 ^ 29 + b * 2 ^ 26) (a * 8 + b) (omega arith) (omega arith) in
    let s3 =
      under 20 (d * 2 ^ 15) (a * 2 ^ 29 + b * 2 ^ 26 + c * 2 ^ 20) (a * 512 + b * 64 + c)
        (omega arith) (omega arith) in
    let s4 =
      under 15 (e * 2 ^ 10) (a * 2 ^ 29 + b * 2 ^ 26 + c * 2 ^ 20 + d * 2 ^ 15)
        (a * 2 ^ 14 + b * 2 ^ 11 + c * 32 + d) (omega arith) (omega arith) in
    let s5 =
      under 10 (f * 2 ^ 5) (a * 2 ^ 29 + b * 2 ^ 26 + c * 2 ^ 20 + d * 2 ^ 15 + e * 2 ^ 10)
        (a * 2 ^ 19 + b * 2 ^ 16 + c * 2 ^ 10 + d * 32 + e) (omega arith) (omega arith) in
    let s6 =
      under 5 g (a * 2 ^ 29 + b * 2 ^ 26 + c * 2 ^ 20 + d * 2 ^ 15 + e * 2 ^ 10 + f * 2 ^ 5)
        (a * 2 ^ 24 + b * 2 ^ 21 + c * 2 ^ 15 + d * 2 ^ 10 + e * 32 + f) (omega arith)
        (omega arith) in
    ap (λ (t : ℕ). bit_or t g)
      (ap (λ (t : ℕ). bit_or t (shl f 5))
          (ap (λ (t : ℕ). bit_or t (shl e 10))
              (ap (λ (t : ℕ). bit_or t (shl d 15)) (ap (λ (t : ℕ). bit_or t (shl c 20)) s1 ∙ s2)
                ∙ s3)
            ∙ s4)
        ∙ s5)
    ∙ s6

-- From a PINCTRL word that pctrl packed from counts and bases in their widths, the model reads
-- back each of the seven fields.
pub pctrl_lem :
    (ss_cnt set_cnt out_cnt in_b ss_b set_b out_b : ℕ) (s : Slice)
    → ss_cnt < 8
    → set_cnt < 8
    → out_cnt < 64
    → in_b < 32
    → ss_b < 32
    → set_b < 32
    → out_b < 32
    → s.pinctrl_r ≡ pctrl ss_cnt set_cnt out_cnt in_b ss_b set_b out_b
    → (sideset_count s ≡ ss_cnt)
      × (set_count s ≡ set_cnt)
      × (out_count s ≡ out_cnt)
      × (in_base s ≡ in_b)
      × (sideset_base s ≡ ss_b)
      × (set_base s ≡ set_b)
      × (out_base s ≡ out_b)
unfolding sideset_count set_count out_count in_base sideset_base set_base out_base
pctrl_lem a b c d e f g s ha hb hc hd he hf hg w =
    omega (arith, pctrl_sum a b c d e f g ha hb hc hd he hf hg)

-- A write at `sm_addr`.
pub sm_addr_lem :
    (i : StepIn) (sm reg n k : ℕ)
    → sm < 4
    → reg < 6
    → i.op ≡ op_wr
    → i.addr ≡ sm_addr sm reg
    → (sm_write (bus_decode i) n k ≡ true) ↔ (n ≡ sm) × (k ≡ reg)
unfolding sm_write bus_decode
sm_addr_lem i sm reg n k small_sm small_reg op addr =
    let word : low_bits (shr i.addr 2) 7 ≡ 50 + 6 * sm + reg = omega arith in
    let sel : min ((50 + 6 * sm + reg - 50) / 6) 3 ≡ sm = omega arith in
    let off : 50 + 6 * sm + reg - 50 - 6 * sm ≡ reg = omega arith in
    rw (word, sel, off) (ground arith)
