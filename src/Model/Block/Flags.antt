-- ===== src/Model/Block/Flags.antt =====
-- The IRQ flag register of `step`: sets, clears, and the view that the state machines read.
use vibe_pio.Base.{
  ℕ, ◌&&◌, ◌==◌, if◌then◌else◌, shl, low_bits, bit_or, and_not, Four, at, fold_four,
}
use vibe_pio.Model.Slice.{Slice}
use vibe_pio.Model.Config.{rel_index}
use vibe_pio.Model.Comb.Tick.{is_local}
use vibe_pio.Model.Comb.Bundle.{Comb}
use vibe_pio.Model.Block.Registers.{Block}
use vibe_pio.Model.Block.Bus.{StepIn, Bus, byte_write}

-- What the bus and the neighbours request, before the state machines.
unfoldable pub outer_set : StepIn → Bus → ℕ
outer_set i bus = bit_or (byte_write bus 13) (low_bits i.nb_set 8)

unfoldable pub outer_clr : StepIn → Bus → ℕ
outer_clr i bus = bit_or (byte_write bus 12) (low_bits i.nb_clr 8)

-- The flags that state machine `s` sets and clears here, by its bundle.
unfoldable pub local_set : Comb → ℕ
local_set c = if is_local c.irq_idx_mode then c.irq_set_early else 0

unfoldable pub local_clr : Slice → Comb → ℕ
local_clr s c =
    if is_local c.irq_idx_mode && c.irq_clr_req
    then shl 1 (if c.irq_idx_mode == 0 then c.irq_flag_idx else rel_index s c.irq_flag_idx)
    else 0

unfoldable pub loc_set : StepIn → Bus → Four Comb → ℕ
loc_set i bus = fold_four (λ acc n c. bit_or acc (local_set c)) (outer_set i bus)

unfoldable pub loc_clr : Block → StepIn → Bus → Four Comb → ℕ
loc_clr b i bus = fold_four (λ acc n c. bit_or acc (local_clr (at b.sms n) c)) (outer_clr i bus)

-- `(flags | set) & ~clr & 0xFF`
unfoldable pub flags_after : ℕ → ℕ → ℕ → ℕ
flags_after flags set_mask clr = low_bits (and_not (bit_or flags set_mask) clr) 8

unfoldable pub flags_next : Block → StepIn → Bus → Four Comb → ℕ
flags_next b i bus combs = flags_after b.flags_r (loc_set i bus combs) (loc_clr b i bus combs)

-- The view under the `irq_same_cycle` deviation, from a first run of the sections.
unfoldable pub early_view : Block → StepIn → Bus → Four Comb → ℕ
early_view b i bus combs =
    flags_after b.flags_r
      (fold_four (λ acc n c. bit_or acc c.irq_set_early) (outer_set i bus) combs) (outer_clr i bus)
