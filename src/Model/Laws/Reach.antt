-- ===== src/Model/Laws/Reach.antt =====
-- Runs of `PIOBlockModel.step`: the blocks that a sequence of cycles from reset can give, and when
-- a cycle raises.
use vibe_pio.Base.{
  ℕ, ◌<◌, ◌≡◌, ◌⊎◌, Result, ok, reserved_encoding, RaisesWhen, completes, >>=-RaisesWhen,
  again-RaisesWhen, map-RaisesWhen, if_both, refl,
}
use vibe_pio.Model.Slice.{Mutations}
use vibe_pio.Model.Config.{sideset_count}
use vibe_pio.Model.Block.Registers.{Block, block_reset}
use vibe_pio.Model.Block.Bus.{StepIn, Bus, bus_decode}
use vibe_pio.Model.Block.Input.{run_combs}
use vibe_pio.Model.Block.Step.{Observables, Cycle, step, cycle}
use vibe_pio.Model.Block.Flags.{early_view}
use vibe_pio.Model.Laws.CombFits.{comb-RaisesWhen}
use vibe_pio.Model.Laws.StepValid.{IsBlock, step-IsBlock, reset-IsBlock}

-- The blocks that cycles with any inputs lead to from a block.
pub data Reach (b : Block) : Block → Type 0 where
  start : Reach b b
  after :
      {c d : Block} (i : StepIn) {o : Observables} → Reach b c → step c i ≡ ok (d, o) → Reach b d

-- Every block that cycles with any inputs lead to from reset is well formed, whichever deviations
-- are enabled: every register of the block and of its state machines in its width, the sticky pin
-- records and the words of the FIFO memories included, the instruction memory 32 words of 16 bits,
-- every FIFO a ring of eight slots that, while SHIFTCTRL selects the mode sampled last, holds no
-- more than the depth of that mode, and a forced instruction valid in the latch for as long as it
-- is pending.
pub Reach-IsBlock : (mut : Mutations) {b : Block} → Reach (block_reset mut) b → IsBlock b
Reach-IsBlock mut start = reset-IsBlock mut
Reach-IsBlock mut (after i r e) = step-IsBlock _ i (Reach-IsBlock mut r) e

-- Some state machine has a reserved SIDESET_COUNT.
abbrev pub AnyReserved : Block → Type 0
AnyReserved b =
    (5 < sideset_count b.sms.e0)
    ⊎ (5 < sideset_count b.sms.e1)
    ⊎ (5 < sideset_count b.sms.e2)
    ⊎ (5 < sideset_count b.sms.e3)

-- The four combinational sections raise when a state machine has a reserved SIDESET_COUNT.
run_combs-RaisesWhen :
    (b : Block) (i : StepIn) (view : ℕ)
    → RaisesWhen (run_combs b i view) reserved_encoding (AnyReserved b)
unfolding run_combs
run_combs-RaisesWhen b i view = >>=-RaisesWhen _ _ (comb-RaisesWhen b.sms.e0 _) λ _.
    >>=-RaisesWhen _ _ (comb-RaisesWhen b.sms.e1 _) λ _.
      >>=-RaisesWhen _ _ (comb-RaisesWhen b.sms.e2 _)
        λ _. map-RaisesWhen _ _ (comb-RaisesWhen b.sms.e3 _)

cycle-RaisesWhen :
    (b : Block) (i : StepIn) (bus : Bus)
    → RaisesWhen (cycle b i bus) reserved_encoding (AnyReserved b)
unfolding cycle
cycle-RaisesWhen b i bus = again-RaisesWhen _ _ (run_combs-RaisesWhen b i b.flags_r) λ n first.
    if_both (λ (r : Result Cycle). RaisesWhen r reserved_encoding (AnyReserved b))
      b.mut.irq_same_cycle
      (map-RaisesWhen _ _ (run_combs-RaisesWhen b i (early_view b i bus first)))
      (completes n _ refl)

-- A cycle raises the error of a reserved encoding when some state machine has a SIDESET_COUNT
-- above 5, enabled or not, and completes otherwise, whatever the registers and the inputs.
pub step-RaisesWhen :
    (b : Block) (i : StepIn) → RaisesWhen (step b i) reserved_encoding (AnyReserved b)
unfolding step
step-RaisesWhen b i = map-RaisesWhen _ _ (cycle-RaisesWhen b i (bus_decode i))
