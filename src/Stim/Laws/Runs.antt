-- ===== src/Stim/Laws/Runs.antt =====
-- What `run_model_trace` returns, when it returns, and what it can raise.
use vibe_pio.Base.{
  ◌≢◌, ◌⊎◌, Bool, ◌↔◌, subst, true, false, ℕ, ◌+◌, ◌≡◌, refl, ap, ◌∙◌, arith, ◌==◌, if◌then◌else◌,
  List, [], ◌∷◌, ◌++◌, All, Option, none, some, ok, err, Error, reserved_encoding, raises,
  completes, >>=-eq-ok, >>=-ok-eq-err, ok-injective, inl, inr,
}
use vibe_pio.Model.Slice.{Mutations, reset}
use vibe_pio.Model.Block.Registers.{Block, block_reset}
use vibe_pio.Model.Block.Step.{Observables, step}
use vibe_pio.Model.Laws.Reach.{step-RaisesWhen}
use vibe_pio.Trace.Format.{Rec, observed, read}
use vibe_pio.Stim.Addresses.{op_rd}
use vibe_pio.Stim.Schedule.{StimCycle, Schedule}
use vibe_pio.Model.Block.Bus.{StepIn}
use vibe_pio.Stim.Run.{fold_loopback, inputs, sampled, cycle_recs, trace_from, run_model_trace}
use vibe_pio.Stim.Laws.Legal.{AllLegal, WritesLegal, step-AllLegal, step_completes, cycle_recs-ok}

trace_from-completes :
    (cs : List StimCycle) (m : Block) (k : ℕ)
    → All WritesLegal cs
    → AllLegal m
    → (recs : List Rec) × (trace_from m k cs ≡ ok recs)
unfolding trace_from
trace_from-completes [] m k legal h = ([], refl)
trace_from-completes (c ∷ cs) m k legal h =
    let (after, e) = step_completes m (inputs m c) h in
    let (recs, e') = cycle_recs-ok k m c e in
    let (others, e'') =
      trace_from-completes cs after.0 (k + 1) legal.1 (step-AllLegal c legal.0 m h e) in
    (recs ++ others, rw e (rw e' (rw e'' refl)))

-- A run over a schedule completes where no cycle writes a SIDESET_COUNT above 5 to the PINCTRL of
-- a state machine, whichever deviations are enabled.
pub run_model_trace-completes :
    (sched : Schedule) (mut : Mutations)
    → All WritesLegal sched.cycles
    → (recs : List Rec) × (run_model_trace sched mut ≡ ok recs)
unfolding run_model_trace AllLegal block_reset reset
run_model_trace-completes sched mut legal =
    trace_from-completes sched.cycles (block_reset mut) 0 legal (omega arith)

trace_from-raises :
    (cs : List StimCycle) (m : Block) (k : ℕ) {e : Error}
    → trace_from m k cs ≡ err e
    → e ≡ reserved_encoding
unfolding trace_from
trace_from-raises [] m k h = cc
trace_from-raises (c ∷ cs) m k h = elim (step-RaisesWhen m (inputs m c)) [
  | raises _ e ↦ let raised = rw e at h in cc
  | completes _ after e ↦
      let (recs, e') = cycle_recs-ok k m c e in
      trace_from-raises cs after.0 (k + 1) (
        (>>=-ok-eq-err (trace_from after.0 (k + 1) cs) (λ others. recs ++ others) _).0
          (rw (e, e') at h))
]

-- What `step` is given in a cycle of the schedule.
abbrev driven : Block → StimCycle → StepIn
driven m c = record {
  gpio_in = fold_loopback m c.gpio c.lb;
  op = c.op;
  addr = c.addr;
  wdata = c.wdata;
  nb_set = c.nb_set;
  nb_clr = c.nb_clr;
  irq_prev = c.irq_prev;
  irq_next = c.irq_next;
}

-- The cycles of a schedule from cycle `k` on, one step of the block each, with what they record:
-- the observables of the step, and the value that a read samples.
pub data Runs : ℕ → Block → List StimCycle → List Rec → Type 0 where
  ends : {k : ℕ} {m : Block} → Runs k m [] []
  quiet :
      {k : ℕ} {m after : Block} {c : StimCycle} {cs : List StimCycle} {o : Observables}
      {recs : List Rec}
      → c.op ≢ op_rd
      → step m (driven m c) ≡ ok (after, o)
      → Runs (k + 1) after cs recs
      → Runs k m (c ∷ cs) (observed k o.gpio_out o.gpio_oe o.intr ∷ recs)
  reading :
      {k v : ℕ} {m after : Block} {c : StimCycle} {cs : List StimCycle} {o : Observables}
      {recs : List Rec}
      → c.op ≡ op_rd
      → step m (driven m c) ≡ ok (after, o)
      → o.rdata ≡ some v
      → Runs (k + 1) after cs recs
      → Runs k m (c ∷ cs) (observed k o.gpio_out o.gpio_oe o.intr ∷ (read k c.addr v ∷ recs))

sampled-eq-ok :
    (k addr : ℕ) (rdata : Option ℕ) {recs : List Rec}
    → sampled k addr rdata ≡ ok recs
    → (v : ℕ) × (rdata ≡ some v) × (read k addr v ∷ [] ≡ recs)
sampled-eq-ok k addr none h = cc
sampled-eq-ok k addr (some v) h = (v, refl, ok-injective h)

-- What a cycle records for its read, if it is one.
Reads : ℕ → ℕ → Bool → Option ℕ → List Rec → Type 0
Reads k addr is_read rdata reads =
    ((is_read ≡ false) × ([] ≡ reads))
    ⊎ ((is_read ≡ true) × ((v : ℕ) × (rdata ≡ some v) × (read k addr v ∷ [] ≡ reads)))

sampled-Reads :
    (k addr : ℕ) (is_read : Bool) (rdata : Option ℕ) {reads : List Rec}
    → (if is_read then sampled k addr rdata else ok []) ≡ ok reads
    → Reads k addr is_read rdata reads
unfolding Reads
sampled-Reads k addr false rdata h = inl (refl, ok-injective h)
sampled-Reads k addr true rdata h = inr (refl, sampled-eq-ok k addr rdata h)

seen_first :
    (k : ℕ) (m : Block) (c : StimCycle) (cs : List StimCycle) (after : Block) (o : Observables)
    (reads later : List Rec)
    → step m (driven m c) ≡ ok (after, o)
    → Reads k c.addr (c.op == op_rd) o.rdata reads
    → Runs (k + 1) after cs later
    → Runs k m (c ∷ cs) (observed k o.gpio_out o.gpio_oe o.intr ∷ (reads ++ later))
unfolding Reads
seen_first k m c cs after o reads later e (inl (other, none_read)) r =
    subst
      (λ (l : List Rec). Runs k m (c ∷ cs) (observed k o.gpio_out o.gpio_oe o.intr ∷ (l ++ later)))
      none_read (quiet (λ is_rd. ground (arith, is_rd)) e r)
seen_first k m c cs after o reads later e (inr (is_read, (v, sample, one))) r =
    subst
      (λ (l : List Rec). Runs k m (c ∷ cs) (observed k o.gpio_out o.gpio_oe o.intr ∷ (l ++ later)))
      one (reading (ground arith) e sample r)

trace_from-Runs :
    (cs : List StimCycle) (m : Block) (k : ℕ) {recs : List Rec}
    → trace_from m k cs ≡ ok recs
    → Runs k m cs recs
unfolding trace_from cycle_recs inputs
trace_from-Runs [] m k h = subst (Runs k m []) (ok-injective h) ends
trace_from-Runs (c ∷ cs) m k h =
    let (after, e1, h1) = >>=-eq-ok (step m (inputs m c)) _ h in
    let (recs, e2, h2) = >>=-eq-ok (cycle_recs k c after.1) _ h1 in
    let (others, e3, h3) = >>=-eq-ok (trace_from after.0 (k + 1) cs) _ h2 in
    let (reads, e4, h4) =
      >>=-eq-ok (if c.op == op_rd then sampled k c.addr after.1.rdata else ok []) _ e2 in
    subst (Runs k m (c ∷ cs))
      (ap (λ (l : List Rec). l ++ others) (ok-injective h4) ∙ ok-injective h3)
      (seen_first k m c cs after.0 after.1 reads others e1
        (sampled-Reads k c.addr (c.op == op_rd) after.1.rdata e4)
        (trace_from-Runs cs after.0 (k + 1) e3))

Runs-trace_from :
    (cs : List StimCycle) (m : Block) (k : ℕ) {recs : List Rec}
    → Runs k m cs recs
    → trace_from m k cs ≡ ok recs
unfolding trace_from cycle_recs inputs
Runs-trace_from [] m k ends = refl
Runs-trace_from (c ∷ cs) m k (quiet {after = after} n e r) =
    let other : (c.op == op_rd) ≡ false = ground arith in
    rw e (rw other (rw (Runs-trace_from cs after (k + 1) r) refl))
Runs-trace_from (c ∷ cs) m k (reading {after = after} is_rd e sample r) =
    let is_read : (c.op == op_rd) ≡ true = ground arith in
    rw e (rw is_read (rw sample (rw (Runs-trace_from cs after (k + 1) r) refl)))

-- A run returns a trace exactly when the cycles of the schedule, each given to one step of the
-- block from reset on with its pins folded, make that trace: for each cycle in order its number
-- with the levels, directions and interrupts of that step, and behind them, for a read and only
-- for a read, its address and the value that the step answers.
pub run_model_trace-Runs :
    (sched : Schedule) (mut : Mutations) (recs : List Rec)
    → (run_model_trace sched mut ≡ ok recs) ↔ Runs 0 (block_reset mut) sched.cycles recs
unfolding run_model_trace
run_model_trace-Runs sched mut recs = (
  trace_from-Runs sched.cycles (block_reset mut) 0,
  Runs-trace_from sched.cycles (block_reset mut) 0,
)

-- The error of a run.
pub run_model_trace-raises :
    (sched : Schedule) (mut : Mutations) {e : Error}
    → run_model_trace sched mut ≡ err e
    → e ≡ reserved_encoding
unfolding run_model_trace
run_model_trace-raises sched mut h = trace_from-raises sched.cycles (block_reset mut) 0 h
