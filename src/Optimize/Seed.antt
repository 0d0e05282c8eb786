-- ===== src/Optimize/Seed.antt =====
-- `load_seed` and `miter_prefilter` of tools/hyperopt.py. The program's words and the schedule, which
-- `load_seed` gets from the assembler and from the conformance schedules, are its arguments.
use vibe_pio.Base.{
  ℕ, ◌+◌, ◌*◌, ◌==◌, ◌&&◌, ◌||◌, not, Bool, true, false, shr, low_bits, List, [], ◌∷◌, Option, none,
  some, if◌then◌else◌, Result, ok, ◌>>=◌,
}
use vibe_pio.Encoding.Tables.{outd_pc, movd_pc}
use vibe_pio.Encoding.Split.{has_bit}
use vibe_pio.Encoding.Decode.{Decoded, decode}
use vibe_pio.Model.Slice.{no_mutations, pinctrl_reset}
use vibe_pio.Stim.Addresses.{a_sm0, op_wr}
use vibe_pio.Stim.Schedule.{StimCycle, Schedule}
use vibe_pio.Stim.Run.{run_model_trace, visited_pcs}
use vibe_pio.Equiv.Stimulus.{Rng}
use vibe_pio.Equiv.Divergence.{Divergence, prefilter}
use vibe_pio.Optimize.Candidate.{Candidate, SeedCtx}
use vibe_pio.Optimize.Surgery.{has}
use vibe_pio.Optimize.Pareto.{trace_period}

-- The variables of the loop over the schedule.
pub record Scan : Type 0 where
  pub execctrl : ℕ
  pub pinctrl : ℕ
  pub entry : Option ℕ

abbrev pub start_scan : Scan
start_scan = record { execctrl = 0; pinctrl = pinctrl_reset; entry = none }

unfoldable pub scan_cycle : Scan → StimCycle → Scan
scan_cycle s c =
    if not (c.op == op_wr)
    then s
    else if c.addr == a_sm0 + 4 * 1
    then record s { execctrl = c.wdata }
    else if c.addr == a_sm0 + 4 * 5
    then record s { pinctrl = c.wdata }
    else if c.addr == a_sm0 + 4 * 4
    then record s { entry = some (low_bits c.wdata 5) }
    else s

unfoldable pub scan : Scan → List StimCycle → Scan
scan s [] = s
scan s (c ∷ cs) = scan (scan_cycle s c) cs

abbrev pub is_dyn : Decoded → Bool
is_dyn d = (d.is_out && has d.out_dst outd_pc) || (d.is_mov && has d.mov_dst movd_pc)

-- `any` stops at the first word that writes the PC.
unfoldable pub any_dyn : List ℕ → Result Bool
any_dyn [] = ok false
any_dyn (w ∷ ws) = do
  d ← decode w false 0
  let later = any_dyn ws
  if is_dyn d then ok true else later

unfoldable pub load_seed : List ℕ → Schedule → Result SeedCtx
load_seed words sched = do
  let s = scan start_scan sched.cycles
  trace ← run_model_trace sched no_mutations
  has_dyn_pc ← any_dyn words
  visited ← visited_pcs sched
  ok (record {
    words = words;
    execctrl = s.execctrl;
    sched = sched;
    entry = s.entry;
    side_en = has_bit s.execctrl 30;
    ss_total = low_bits (shr s.pinctrl 29) 3;
    has_dyn_pc = has_dyn_pc;
    visited = visited;
    trace = trace;
    period = trace_period trace;
  })

unfoldable pub miter_prefilter :
    SeedCtx → (ℕ → Rng) → Candidate → ℕ → ℕ → ℕ → Result (Option Divergence)
miter_prefilter ctx rngs cand horizon rounds seed =
    prefilter
      (record {
        words_a = ctx.words;
        words_b = cand.words;
        execctrl = ctx.execctrl;
        execctrl_b = some cand.execctrl;
      })
      rngs horizon rounds seed
