-- ===== src/Tests/Witnesses.antt =====
-- The theorems at concrete inputs: the runs of Tests/Runs, and small words and fields.
use vibe_pio.Base.{
  value_error, ◌⊎◌, ℕ, ◌+◌, ◌-◌, ◌*◌, ◌/◌, ◌^◌, ◌%◌, ◌<◌, ◌≤◌, ◌≡◌, ◌≢◌, ◌↔◌, refl, arith, max,
  true, false, ok, err, RaisesWhen, reserved_encoding, low_bits, digit, dict_get, some, bool_int,
}
use vibe_pio.Base.{[], ◌∷◌, none}
use vibe_pio.Trace.Format.{read, normalize, compare}
use vibe_pio.Trace.Laws.{compare_iff}
use vibe_pio.Encoding.Split.{sideset_fields, split, encode, pack_ds, split_sideset}
use vibe_pio.Encoding.SideSets.{
  split_sideset-pack_ds, split_sideset-Fits, pack_ds_raises, packed, Fits,
}
use vibe_pio.Encoding.Decode.{Decoded, decode, blank, decode_class, decode_set}
use vibe_pio.Encoding.Bundle.{decode-InRange, decode-RaisesWhen, InRange}
use vibe_pio.Encoding.Encode.{encode_jmp}
use vibe_pio.Encoding.Calls.{Call, issue}
use vibe_pio.Encoding.RoundTrip.{Decodes, decode-issue}
use vibe_pio.Model.Word.{ror32, rol32}
use vibe_pio.Model.Slice.{no_mutations}
use vibe_pio.Model.Config.{fifo_depths, rel_index}
use vibe_pio.Model.Comb.Tick.{int_eff, frac_eff}
use vibe_pio.Model.Comb.Shift.{shift_out_data, shift_out_rest, shift_in}
use vibe_pio.Model.Edge.Control.{divider_edge}
use vibe_pio.Model.Edge.Data.{fifo_edge}
use vibe_pio.Model.Edge.{edge}
use vibe_pio.Model.Block.Registers.{block_reset}
use vibe_pio.Model.Block.Bus.{bus_decode}
use vibe_pio.Model.Block.Flags.{flags_next}
use vibe_pio.Model.Block.Step.{step, block_edge}
use vibe_pio.Model.Laws.Valid.{IsValid}
use vibe_pio.Model.Laws.Fifo.{
  IsRing, tx_words, rx_words, tx_put, tx_take, rx_put, tx_refines, rx_refines,
}
use vibe_pio.Model.Laws.Divider.{stretch, InPeriod, DivRun, DivRun_rate}
use vibe_pio.Model.Laws.Divider
use vibe_pio.Model.Laws.Queue.{queue_cycle}
use vibe_pio.Model.Laws.Rotate.{ror32-rol32}
use vibe_pio.Model.Laws.Shifter.{shift_out_whole, shift_in_whole}
use vibe_pio.Model.Laws.Flags.{digit-flags_next, set_by_any, cleared_by_any, rel_index-eq}
use vibe_pio.Model.Laws.Pads.{first_of, ranked, lvl_writer, dir_writer}
use vibe_pio.Model.Laws.Covered.{digit_step-gpio}
use vibe_pio.Model.Laws.CombFits.{comb-Fits}
use vibe_pio.Model.Laws.EdgeValid.{edge-IsValid}
use vibe_pio.Model.Laws.StepValid.{IsBlock, step-IsBlock}
use vibe_pio.Model.Laws.Reach.{Reach, start, after, AnyReserved, Reach-IsBlock, step-RaisesWhen}
use vibe_pio.Model.Laws.Control.{IsNoOp, illegal-IsNoOp}
use vibe_pio.Model.Laws.Hold.{IsHeld, scratch_of, stall_freezes}
use vibe_pio.Tests.Runs.{
  idle, writing, fed, feeding, sm0, programmed, enabled, ticking, executed, cycled, waiting,
  refused, pushing, tx_room, rx_room, rx_queued, in_period, sm0_faithful,
}

-- The runs as sequences of cycles.
to_ticking : Reach (block_reset no_mutations) ticking.0.0
to_ticking =
    after idle (after (writing 0 1) (after (writing 72 0xe001) start programmed.1) enabled.1)
      ticking.1

Reach-IsBlock_example : IsBlock executed.0.0
Reach-IsBlock_example = Reach-IsBlock no_mutations (after idle to_ticking executed.1)

ticking_valid : IsBlock ticking.0.0
ticking_valid = Reach-IsBlock no_mutations to_ticking

step-IsBlock_example : IsBlock executed.0.0
step-IsBlock_example = step-IsBlock ticking.0.0 idle ticking_valid executed.1

step-RaisesWhen_example :
    RaisesWhen (step ticking.0.0 idle) reserved_encoding (AnyReserved ticking.0.0)
step-RaisesWhen_example = step-RaisesWhen ticking.0.0 idle

-- `jmp x-- 9`, with the delay/side-set field 26 under SIDE_EN and a count of 2.
issued : issue (Call.jmp (some "x--") 9) 26 ≡ ok 0x1a49
unfolding issue encode_jmp encode dict_get
issued = refl

two_fits : low_bits 2 3 ≤ 5
two_fits = omega arith

decode-issue_example : Decodes true 2 two_fits (Call.jmp (some "x--") 9) 26 0x1a49
decode-issue_example = decode-issue true 2 two_fits (Call.jmp (some "x--") 9) 26 tt issued

tx_refines_example :
    let s = fifo_edge pushing.0 feeding sm0 in
    (tx_words s
      ≡ queue_cycle
          (fifo_depths sm0).tx_depth
          (tx_put pushing.0 feeding sm0)
          (tx_take pushing.0 feeding sm0)
          (tx_words sm0))
    × IsRing s.tx_mem s.tx_head s.tx_tail s.tx_level
    × (s.tx_level ≤ (fifo_depths sm0).tx_depth)
tx_refines_example =
    tx_refines pushing.0 feeding sm0 pushing.2 tx_room ticking_valid.sms_valid.0.regs.tx_ring

rx_refines_example :
    let s = fifo_edge pushing.0 feeding sm0 in
    (rx_words s
      ≡ queue_cycle (fifo_depths sm0).rx_depth (rx_put pushing.0 feeding sm0) false (rx_words sm0))
    × IsRing s.rx_mem s.rx_head s.rx_tail s.rx_level
    × (s.rx_level ≤ (fifo_depths sm0).rx_depth)
rx_refines_example =
    rx_refines pushing.0 feeding sm0 pushing.2 pushing.3 rx_queued rx_room
      ticking_valid.sms_valid.0.regs.rx_ring

digit_step-gpio_example :
    (digit (block_edge ticking.0.0 idle (bus_decode idle) cycled.0.combs).gpio_lvl_r 0
      ≡ first_of
          (ranked ticking.0.0.mut.gpio_pri_low (lvl_writer ticking.0.0 cycled.0.combs 0))
          (digit ticking.0.0.gpio_lvl_r 0))
    × (digit (block_edge ticking.0.0 idle (bus_decode idle) cycled.0.combs).gpio_oe_r 0
        ≡ first_of
            (ranked ticking.0.0.mut.gpio_pri_low (dir_writer ticking.0.0 cycled.0.combs 0))
            (digit ticking.0.0.gpio_oe_r 0))
digit_step-gpio_example =
    digit_step-gpio no_mutations ticking.0.0 idle 0 to_ticking cycled.1 (omega arith)

-- One cycle of the divider of state machine 0.
one_cycle : DivRun sm0 (0 + bool_int pushing.0.div.terminal) 1 (divider_edge pushing.0 feeding sm0)
one_cycle = Divider.cycle Divider.start pushing.0 feeding pushing.5 refl refl

DivRun_rate_example :
    let t = divider_edge pushing.0 feeding sm0 in
    (256 * (1 + sm0.count_r + stretch t) + t.phase_r
      ≡ (0 + bool_int pushing.0.div.terminal) * (256 * int_eff sm0 + frac_eff sm0)
        + 256 * (t.count_r + stretch sm0)
        + sm0.phase_r)
    × (int_eff t ≡ int_eff sm0)
    × (frac_eff t ≡ frac_eff sm0)
    × InPeriod t
DivRun_rate_example = DivRun_rate in_period one_cycle

digit-flags_next_example :
    digit (flags_next ticking.0.0 idle (bus_decode idle) cycled.0.combs) 3
    ≡ max
        (digit ticking.0.0.flags_r 3)
        (set_by_any ticking.0.0 idle (bus_decode idle) cycled.0.combs 3)
      - cleared_by_any ticking.0.0 idle (bus_decode idle) cycled.0.combs 3
digit-flags_next_example =
    digit-flags_next ticking.0.0 idle (bus_decode idle) cycled.0.combs 3 (omega arith)

stall_freezes_example :
    IsHeld waiting.0 × (scratch_of (edge waiting.0 feeding sm0) ≡ scratch_of sm0)
stall_freezes_example = stall_freezes sm0 (fed 0x2080) feeding waiting.1 waiting.2

illegal-IsNoOp_example : IsNoOp sm0 refused.0
illegal-IsNoOp_example = illegal-IsNoOp sm0 (fed 0x4080) refused.1 refused.2 refused.3

edge-IsValid_example : IsValid (edge pushing.0 feeding sm0)
edge-IsValid_example =
    edge-IsValid pushing.0 feeding sm0 ticking_valid.sms_valid.0
      (comb-Fits sm0 (fed 0x8000) ticking_valid.sms_valid.0 pushing.1) (omega arith)

split_sideset-pack_ds_example :
    (f : ℕ) × (pack_ds 2 1 true 2 true ≡ ok f)
    × (f < 32)
    × (split_sideset f true 2 ≡ ok (packed 2 1 true 2 true))
split_sideset-pack_ds_example =
    split_sideset-pack_ds 2 1 true true 2 (omega arith) (omega arith) (omega arith)

-- `split_sideset(0b11010, True, 2)`
opt_field :
    split_sideset 26 true 2 ≡ ok (record { delay = 2; ss_valid = true; ss_val = 1; ss_bits = 1 })
unfolding split_sideset sideset_fields
opt_field = refl

split_sideset-Fits_example : Fits 2 (record { delay = 2; ss_valid = true; ss_val = 1; ss_bits = 1 })
split_sideset-Fits_example = split_sideset-Fits 26 true 2 (omega arith) opt_field

abbrev one_value : ℕ
one_value = 1

pack_ds_raises_example :
    ((pack_ds 7 one_value false 6 true ≡ err reserved_encoding)
      ↔ (low_bits 6 3 ≡ 0) × (true ≡ true) × (one_value ≢ 0))
    × ((pack_ds 7 one_value false 6 true ≡ err value_error) ↔ (5 < low_bits 6 3))
    × (((f : ℕ) × (pack_ds 7 one_value false 6 true ≡ ok f))
        ↔ ((low_bits 6 3 ≤ 5) × ((low_bits 6 3 ≢ 0) ⊎ ((true ≡ false) ⊎ (one_value ≡ 0)))))
pack_ds_raises_example = pack_ds_raises 7 one_value false 6 true

decode-RaisesWhen_example : RaisesWhen (decode 0xe001 false 6) reserved_encoding (5 < low_bits 6 3)
decode-RaisesWhen_example = decode-RaisesWhen 0xe001 false 6

-- `set pins, 1` decoded with no side-set.
set_pins : (d : Decoded) × (decode 0xe001 false 0 ≡ ok d)
unfolding decode split split_sideset sideset_fields blank decode_class decode_set
set_pins = (_, refl)

decode-InRange_example : InRange set_pins.0
decode-InRange_example = decode-InRange 0xe001 false 0 set_pins.1

shift_out_whole_example :
    (shift_out_data true 0x80000001 4 * 2 ^ 32 + shift_out_rest true 0x80000001 4
      ≡ 0x80000001 * 2 ^ 4)
    × (shift_out_rest false 0x80000001 4 * 2 ^ 4 + shift_out_data false 0x80000001 4 ≡ 0x80000001)
shift_out_whole_example = shift_out_whole 0x80000001 4 (omega arith)

shift_in_whole_example :
    (shift_in true 3 0xff 4 ≡ 3 % 2 ^ (32 - 4) * 2 ^ 4 + 0xff % 2 ^ 4)
    × (shift_in false 3 0xff 4 ≡ 0xff % 2 ^ 4 * 2 ^ (32 - 4) + 3 / 2 ^ 4)
shift_in_whole_example = shift_in_whole 3 0xff 4 (omega arith) (omega arith) (omega arith)

ror32-rol32_example :
    (ror32 (rol32 0x80000003 37) 37 ≡ 0x80000003) × (rol32 (ror32 0x80000003 37) 37 ≡ 0x80000003)
ror32-rol32_example = ror32-rol32 0x80000003 37 (omega arith)

rel_index-eq_example :
    (rel_index sm0 3 < 8)
    × (rel_index sm0 3 / 4 ≡ 3 / 4)
    × (rel_index sm0 3 % 4 ≡ (3 + sm0.sm_id) % 4)
    × ((rel_index sm0 3 ≡ rel_index sm0 7)
        ↔ ((3 / 4 ≡ 7 / 4) × ((3 + sm0.sm_id) % 4 ≡ (7 + sm0.sm_id) % 4)))
rel_index-eq_example =
    rel_index-eq sm0 sm0 3 7 sm0_faithful sm0_faithful (omega arith) (omega arith)

-- Two reads of SM0_EXECCTRL that differ in bit 31, and one of SM0_ADDR.
compare_iff_example :
    (compare (read 0 204 0x80001234 ∷ read 1 212 5 ∷ []) (read 0 204 0x1234 ∷ []) ≡ none) ↔ (
      normalize (read 0 204 0x80001234 ∷ read 1 212 5 ∷ []) 0x7FFFFFFF
      ≡ normalize (read 0 204 0x1234 ∷ []) 0x7FFFFFFF)
compare_iff_example =
    compare_iff (read 0 204 0x80001234 ∷ read 1 212 5 ∷ []) (read 0 204 0x1234 ∷ [])
