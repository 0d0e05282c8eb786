-- ===== src/Equiv/Laws/Replay.antt =====
-- The replay of a counterexample drives the two sides independently, each with its own write data.
use vibe_pio.Base.{
  ℕ, ◌+◌, ◌≡◌, ◌≢◌, ◌==◌, if◌then◌else◌, true, false, List, [], ◌∷◌, ◌++◌, some, ok,
}
use mathlib.Core.List.{zip}
use vibe_pio.Model.Block.Registers.{Block, block_reset}
use vibe_pio.Model.Block.Bus.{StepIn}
use vibe_pio.Model.Block.Step.{Observables, step}
use vibe_pio.Trace.Format.{Rec, observed, read}
use vibe_pio.Stim.Addresses.{op_rd}
use vibe_pio.Stim.Schedule.{StimCycle}
use vibe_pio.Stim.Run.{sampled}
use vibe_pio.Stim.Laws.Legal.{AllLegal, WritesLegal}
use vibe_pio.Equiv.Lockstep.{Lock}
use vibe_pio.Equiv.Counterexample.{
  Signal, Sample, signal_value, wd_a, wd_b, gpio_in, nbs, nbc, iprev, inext, truthy, cex_op,
  cex_addr, cex_inputs, replay_from,
}

-- The cycle of a schedule that a sample drives on the side with the write data `wd`.
abbrev pub cex_cycle : Signal → Sample → StimCycle
cex_cycle wd s = record {
  gpio = signal_value s gpio_in;
  lb = 0;
  op = cex_op s;
  addr = cex_addr s;
  wdata = signal_value s wd;
  nb_set = signal_value s nbs;
  nb_clr = signal_value s nbc;
  irq_prev = signal_value s iprev;
  irq_next = signal_value s inext;
}

-- Neither side writes a reserved SIDESET_COUNT to a PINCTRL.
abbrev pub BothLegal : Sample → Type 0
BothLegal s = WritesLegal (cex_cycle wd_a s) × WritesLegal (cex_cycle wd_b s)

-- What `step` is given for a sample.
abbrev pub side_inputs : Signal → Sample → StepIn
side_inputs wd s = record {
  gpio_in = signal_value s gpio_in;
  op = cex_op s;
  addr = cex_addr s;
  wdata = signal_value s wd;
  nb_set = signal_value s nbs;
  nb_clr = signal_value s nbc;
  irq_prev = signal_value s iprev;
  irq_next = signal_value s inext;
}

-- One block alone, driven by the samples with the write data `wd`, with what it records from cycle
-- `k` on and its program counter ahead of each cycle. A reset takes no cycle.
pub data SideRun (wd : Signal) : ℕ → Block → List Sample → List Rec → List ℕ → Type 0 where
  ends : {k : ℕ} {m : Block} → SideRun wd k m [] [] []
  resets :
      {k : ℕ} {m : Block} {s : Sample} {ss : List Sample} {recs : List Rec} {pcs : List ℕ}
      → truthy s.rst ≡ true
      → SideRun wd k (block_reset m.mut) ss recs pcs
      → SideRun wd k m (s ∷ ss) recs pcs
  quiet :
      {k : ℕ} {m after : Block} {s : Sample} {ss : List Sample} {o : Observables} {recs : List Rec}
      {pcs : List ℕ}
      → truthy s.rst ≡ false
      → cex_op s ≢ op_rd
      → step m (side_inputs wd s) ≡ ok (after, o)
      → SideRun wd (k + 1) after ss recs pcs
      → SideRun wd k m
          (s ∷ ss)
          (observed k o.gpio_out o.gpio_oe o.intr ∷ recs)
          (m.sms.e0.pc_r ∷ pcs)
  reading :
      {k v : ℕ} {m after : Block} {s : Sample} {ss : List Sample} {o : Observables}
      {recs : List Rec} {pcs : List ℕ}
      → truthy s.rst ≡ false
      → cex_op s ≡ op_rd
      → step m (side_inputs wd s) ≡ ok (after, o)
      → o.rdata ≡ some v
      → SideRun wd (k + 1) after ss recs pcs
      → SideRun wd k m
          (s ∷ ss)
          (observed k o.gpio_out o.gpio_oe o.intr ∷ (read k (cex_addr s) v ∷ recs))
          (m.sms.e0.pc_r ∷ pcs)

-- One cycle of a side: the block after it, what it records, and how it extends a run.
record Stepped (wd : Signal) (k : ℕ) (m : Block) (s : Sample) : Type 0 where
  after : Block
  seen : Observables
  reads : List Rec
  steps : step m (cex_inputs s wd) ≡ ok (after, seen)
  samples : (if cex_op s == op_rd then sampled k (cex_addr s) seen.rdata else ok []) ≡ ok reads
  legal : AllLegal after
  extends :
      (ss : List Sample) (recs : List Rec) (pcs : List ℕ)
      → SideRun wd (k + 1) after ss recs pcs
      → SideRun wd k m
          (s ∷ ss)
          (observed k seen.gpio_out seen.gpio_oe seen.intr ∷ (reads ++ recs))
          (m.sms.e0.pc_r ∷ pcs)

-- The two runs that the loop makes from the state `l`, and how it ends.
record Sides (l : Lock) (ss : List Sample) : Type 0 where
  la : List Rec
  lb : List Rec
  pa : List ℕ
  pb : List ℕ
  run_a : SideRun wd_a l.clk l.ma ss la pa
  run_b : SideRun wd_b l.clk l.mb ss lb pb
  last : Lock
  completes : replay_from ss l ≡ ok last
  whole_a : last.recs_a ≡ l.recs_a ++ la
  whole_b : last.recs_b ≡ l.recs_b ++ lb
  whole_pcs : last.pcs ≡ l.pcs ++ zip pa pb
