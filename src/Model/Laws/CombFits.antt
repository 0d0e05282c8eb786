-- ===== src/Model/Laws/CombFits.antt =====
-- What `comb` returns satisfies what `edge` relies on, and when it raises.
use vibe_pio.Base.{
  ◌-◌, ◌==◌, ◌&&◌, not, ltb, shr, m32, bit_and-lt, if_both, ℕ, ◌^◌, ◌<◌, ◌≡◌, refl, subst, Bool,
  true, false, ◌||◌, arith, low_bits, ok, >>=-eq-ok, if◌then◌else◌, ok-injective, reserved_encoding,
  RaisesWhen, RaisesWhen_weaken, map-RaisesWhen,
}
use native.Mathlib.Nat.{div-le_self}
use vibe_pio.Encoding.Decode.{Decoded}
use vibe_pio.Encoding.Bundle.{InRange, decode-InRange, decode-RaisesWhen}
use vibe_pio.Model.Slice.{Slice}
use vibe_pio.Model.Config.{clkdiv_int, sideset_count, side_en, set_count}
use vibe_pio.Model.Comb.Tick.{CombIn, Tick, int_eff, divider, arbitrate, select_decode}
use vibe_pio.Model.Comb.Shift.{shift_out_rest, osr_shifted, osr_cnt_sat, isr_cnt_sat}
use vibe_pio.Model.Comb.Dispatch.{osr_load, isr_load}
use vibe_pio.Model.Comb.Writes.{exec_word}
use vibe_pio.Model.Comb.Bundle.{Comb, bundle, comb}
use vibe_pio.Model.Laws.Valid.{IsValid, Fits, PinFits}
use vibe_pio.Model.Word.{rol32, place_mask}
use vibe_pio.Model.Comb.Pins.{masked_write, os_write, gpio_out_we, gpio_set_we}

shift_out_rest-lt : (left : Bool) (osr n : ℕ) → osr < 2 ^ 32 → shift_out_rest left osr n < 2 ^ 32
unfolding shift_out_rest
shift_out_rest-lt true osr n h = omega arith
shift_out_rest-lt false osr n h = omega (arith, div-le_self osr (2 ^ n))

rol32-lt : (v n : ℕ) → rol32 v n < 2 ^ 32
unfolding rol32
rol32-lt v n = if_both (λ w. w < 2 ^ 32) (low_bits n 5 == 0) (omega arith) (omega arith)

place_mask-lt : (base n : ℕ) → place_mask base n < 2 ^ 32
unfolding place_mask
place_mask-lt base n =
    if_both (λ w. w < 2 ^ 32) (n == 0 || ltb 31 n) (omega arith) (rol32-lt (shr m32 (32 - n)) base)

masked_write-PinFits :
    (is_dir : Bool) (m value : ℕ) → m < 2 ^ 32 → PinFits (masked_write is_dir m value)
unfolding masked_write
masked_write-PinFits is_dir m value h =
    let cut = bit_and-lt 32 value m h in if_both PinFits is_dir (omega arith) (omega arith)

module _ (s : Slice) (c : CombIn) (t : Tick) (d : Decoded) where
  count_below : c.sm_en ≡ true → (divider s c.sm_en).terminal ≡ false → s.count_r < 65535
  unfolding divider int_eff clkdiv_int
  count_below e n = ground arith

  os_write-PinFits : PinFits (os_write s c t d)
  unfolding os_write
  os_write-PinFits =
      if_both PinFits (gpio_out_we s c t d) (masked_write-PinFits _ _ _ (place_mask-lt _ _)) (
        if_both PinFits (gpio_set_we s c t d && not (set_count s == 0))
          (masked_write-PinFits _ _ _ (place_mask-lt _ _)) (omega arith))

  bundle-Fits :
      IsValid s
      → InRange d
      → t.tick_forced ≡ (s.force_pend_r || s.forced_stall_r)
      → Fits (bundle s c t d) s c.sm_en
  unfolding bundle
  bundle-Fits v r e = record {
    phase_next_fits = unfold divider in omega arith;
    count_below = count_below;
    delay_in = r.delay_fits;
    exec_word_fits = unfold exec_word in ground arith;
    osr_load_cnt = unfold osr_load in ground arith;
    isr_load_cnt = unfold isr_load in ground arith;
    osr_shifted_fits = unfold osr_shifted in shift_out_rest-lt _ _ _ v.regs.osr_fits;
    osr_cnt_in = unfold osr_cnt_sat in omega arith;
    isr_cnt_in = unfold isr_cnt_sat in omega arith;
    mode_sampled = refl;
    flush_is = refl;
    os_fits = os_write-PinFits;
    forced_is = e;
  }

-- The bundle of well-formed registers fits them.
pub comb-Fits : (s : Slice) (c : CombIn) {b : Comb} → IsValid s → comb s c ≡ ok b → Fits b s c.sm_en
unfolding comb arbitrate select_decode
comb-Fits s c v h =
    let (d, e, h') = >>=-eq-ok (select_decode s c) _ h in
    subst (λ b. Fits b s c.sm_en) (ok-injective h')
      (bundle-Fits s c (arbitrate s c.sm_en) d v (decode-InRange _ (side_en s) (sideset_count s) e)
        refl)

sideset_count_mod : (s : Slice) → low_bits (sideset_count s) 3 ≡ sideset_count s
unfolding sideset_count
sideset_count_mod s = omega arith

-- The combinational section of a state machine raises the error of a reserved encoding when its
-- SIDESET_COUNT is above 5, whatever the tick, the instruction and the inputs, and completes otherwise.
pub comb-RaisesWhen :
    (s : Slice) (c : CombIn) → RaisesWhen (comb s c) reserved_encoding (5 < sideset_count s)
unfolding comb select_decode
comb-RaisesWhen s c =
    let word = if (arbitrate s c.sm_en).src_latch then s.latch_r else c.instr in
    map-RaisesWhen _ _ (
      RaisesWhen_weaken
        (λ h. omega (arith, sideset_count_mod s), λ h. omega (arith, sideset_count_mod s))
        (decode-RaisesWhen word (side_en s) (sideset_count s)))
