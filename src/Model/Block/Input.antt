-- ===== src/Model/Block/Input.antt =====
-- The input path of `step`, and the combinational sections of the four state machines.
use vibe_pio.Base.{
  ℕ, zero, suc, ◌+◌, ◌-◌, Bool, ◌==◌, if◌then◌else◌, shr, shl, low_bits, m32, bit_and, bit_or,
  get_or, Result, Four, each, at, all_ok,
}
use vibe_pio.Encoding.Split.{bit, has_bit}
use vibe_pio.Model.Word.{ror32}
use vibe_pio.Model.Slice.{Slice}
use vibe_pio.Model.Config.{in_mask_count, in_base}
use vibe_pio.Model.Comb.Tick.{CombIn}
use vibe_pio.Model.Comb.Bundle.{Comb, comb}
use vibe_pio.Model.Block.Registers.{Block}
use vibe_pio.Model.Block.Bus.{StepIn}

-- `for p in range(32): gpio_seen |= seen << p`, with `left` rounds to go.
unfoldable pub seen_from : Block → ℕ → ℕ → ℕ → ℕ
seen_from b zero p acc = acc
seen_from b (suc left) p acc =
    let seen = if has_bit b.isb_r p then bit b.sync1_r p else bit b.sync2_r p in
    seen_from b left (p + 1) (bit_or acc (shl seen p))

unfoldable pub gpio_seen : Block → ℕ
gpio_seen b = if b.mut.sync_1ff then b.sync1_r else seen_from b 32 0 0

-- The input mapping of one state machine.
unfoldable pub in_bus : ℕ → Slice → ℕ
in_bus seen s =
    let count = in_mask_count s in
    let mask = if count == 0 then m32 else shr m32 (32 - count) in
    bit_and (ror32 seen (in_base s)) mask

unfoldable pub sm_en : Block → ℕ → Bool
sm_en b n = has_bit b.ctrl_r n

unfoldable pub comb_in : Block → StepIn → ℕ → ℕ → CombIn
comb_in b i flags_view n =
    let s = at b.sms n in
    record {
      sm_en = sm_en b n;
      instr = get_or b.imem s.pc_r 0;
      in_bus = in_bus (gpio_seen b) s;
      gpio_seen = gpio_seen b;
      views = record {
        flags = flags_view;
        irq_prev = low_bits i.irq_prev 8;
        irq_next = low_bits i.irq_next 8;
      };
    }

-- `run_combs`
unfoldable pub run_combs : Block → StepIn → ℕ → Result (Four Comb)
run_combs b i flags_view = all_ok (each (λ n. comb (at b.sms n) (comb_in b i flags_view n)))
