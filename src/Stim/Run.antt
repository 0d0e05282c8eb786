-- ===== src/Stim/Run.antt =====
-- The runs of the model over a schedule: `run_model_trace` of tools/pio_model/difftest.py, and
-- `_fold_loopback` and `_visited_pcs` of tools/hyperopt.py.
use vibe_pio.Base.{
  ℕ, zero, suc, ◌+◌, ◌==◌, if◌then◌else◌, shl, bit_or, and_not, List, [], ◌∷◌, ◌++◌, Option, none,
  some, Result, ok, err, assertion_error, ◌>>=◌,
}
use vibe_pio.Encoding.Split.{bit, has_bit}
use vibe_pio.Model.Slice.{Mutations, no_mutations}
use vibe_pio.Model.Block.Registers.{Block, block_reset}
use vibe_pio.Model.Block.Bus.{StepIn}
use vibe_pio.Model.Block.Step.{Observables, step}
use vibe_pio.Trace.Format.{Rec, observed, read}
use vibe_pio.Stim.Addresses.{op_rd}
use vibe_pio.Stim.Schedule.{StimCycle, Schedule}

-- `(gpio_lvl_r >> p) & 1 if (gpio_oe_r >> p) & 1 else 0`
abbrev pub own_level : Block → ℕ → ℕ
own_level m p = if has_bit m.gpio_oe_r p then bit m.gpio_lvl_r p else 0

-- `for p in range(32)`, with `left` rounds to go.
unfoldable pub fold_from : Block → ℕ → ℕ → ℕ → ℕ → ℕ
fold_from m lb zero p gin = gin
fold_from m lb (suc left) p gin =
    fold_from m lb left (p + 1)
      (if has_bit lb p then bit_or (and_not gin (shl 1 p)) (shl (own_level m p) p) else gin)

unfoldable pub fold_loopback : Block → ℕ → ℕ → ℕ
fold_loopback m gpio lb = if lb == 0 then gpio else fold_from m lb 32 0 gpio

-- The arguments of the call of `step`.
unfoldable pub inputs : Block → StimCycle → StepIn
inputs m c = record {
  gpio_in = fold_loopback m c.gpio c.lb;
  op = c.op;
  addr = c.addr;
  wdata = c.wdata;
  nb_set = c.nb_set;
  nb_clr = c.nb_clr;
  irq_prev = c.irq_prev;
  irq_next = c.irq_next;
}

-- The records of cycle `k`.
abbrev pub sampled : ℕ → ℕ → Option ℕ → Result (List Rec)
sampled k addr none = err assertion_error
sampled k addr (some rdata) = ok (read k addr rdata ∷ [])

unfoldable pub cycle_recs : ℕ → StimCycle → Observables → Result (List Rec)
cycle_recs k c o = do
  reads ← if c.op == op_rd then sampled k c.addr o.rdata else ok []
  ok (observed k o.gpio_out o.gpio_oe o.intr ∷ reads)

unfoldable pub trace_from : Block → ℕ → List StimCycle → Result (List Rec)
trace_from m k [] = ok []
trace_from m k (c ∷ cs) = do
  after ← step m (inputs m c)
  recs ← cycle_recs k c after.1
  others ← trace_from after.0 (k + 1) cs
  ok (recs ++ others)

unfoldable pub run_model_trace : Schedule → Mutations → Result (List Rec)
run_model_trace sched mut = trace_from (block_reset mut) 0 sched.cycles

-- The pcs in the order of their cycles; the source collects them in a set.
unfoldable pub pcs_from : Block → List StimCycle → Result (List ℕ)
pcs_from m [] = ok []
pcs_from m (c ∷ cs) = do
  after ← step m (inputs m c)
  others ← pcs_from after.0 cs
  ok (after.0.sms.e0.pc_r ∷ others)

unfoldable pub visited_pcs : Schedule → Result (List ℕ)
visited_pcs sched = pcs_from (block_reset no_mutations) sched.cycles
