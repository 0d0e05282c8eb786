-- ===== src/Optimize/Stalls.antt =====
-- `_min_stall_runs` and `rw_delay_absorb` of tools/hyperopt.py. The dictionary of the source is an
-- association list with the last update first.
use vibe_pio.Base.{
  ℕ, ◌+◌, ◌==◌, ◌&&◌, ◌||◌, not, Bool, true, false, ltb, min, List, [], ◌∷◌, set, Option, none,
  some, if◌then◌else◌, Result, ok, ◌>>=◌,
}
use vibe_pio.Model.Slice.{stall, state_eq, no_mutations}
use vibe_pio.Model.Block.Registers.{Block, block_reset}
use vibe_pio.Model.Block.Step.{step}
use vibe_pio.Stim.Schedule.{StimCycle, Schedule}
use vibe_pio.Stim.Run.{inputs}
use vibe_pio.Optimize.Candidate.{Candidate, SeedCtx, decode_in_ctx}
use vibe_pio.Optimize.Surgery.{set_delay, no_side_clean}
use vibe_pio.Optimize.Rewrites.{noted}

-- `best.get(pc)`
unfoldable pub best_at : List (ℕ × ℕ) → ℕ → Option ℕ
best_at [] pc = none
best_at ((k, v) ∷ rest) pc = if k == pc then some v else best_at rest pc

abbrev pub at_most : Option ℕ → ℕ → ℕ
at_most none run = run
at_most (some best) run = min best run

-- `best[pc] = min(best.get(pc, run), run)` where there is a run.
abbrev pub close_run : List (ℕ × ℕ) → ℕ → ℕ → List (ℕ × ℕ)
close_run best pc run = if run == 0 then best else (pc, at_most (best_at best pc) run) ∷ best

unfoldable pub stalls_from : Block → List (ℕ × ℕ) → ℕ → ℕ → List StimCycle → Result (List (ℕ × ℕ))
stalls_from m best run pc [] = ok (close_run best pc run)
stalls_from m best run pc (c ∷ cs) = do
  after ← step m (inputs m c)
  let s = after.0.sms.e0
  let stalled = state_eq s.state_r stall
  let best' = if stalled then best else close_run best pc run
  let run' = if stalled then run + 1 else 0
  let pc' = if stalled && (run == 0) then s.pc_r else pc
  stalls_from after.0 best' run' pc' cs

unfoldable pub min_stall_runs : Schedule → Result (List (ℕ × ℕ))
min_stall_runs sched = stalls_from (block_reset no_mutations) [] 0 0 sched.cycles

-- `runs.get(i, -1) > delay`
abbrev pub stalls_over : Option ℕ → ℕ → Bool
stalls_over none delay = false
stalls_over (some run) delay = ltb delay run

-- The loop of `rw_delay_absorb` over the words from `i` on, `ws`.
unfoldable pub absorb_from :
    SeedCtx → Candidate → List (ℕ × ℕ) → ℕ → List ℕ → Result (List Candidate)
absorb_from ctx cand runs i [] = ok []
absorb_from ctx cand runs i (w ∷ ws) = do
  let later = absorb_from ctx cand runs (i + 1) ws
  d ← decode_in_ctx ctx w
  clean ← no_side_clean ctx w
  let stripped = record cand { words = set cand.words i (set_delay ctx w 0) }
  let kept = d.illegal || (d.delay == 0) || not clean || not (stalls_over (best_at runs i) d.delay)
  if kept then later else ok (noted cand.trail "delay_absorb" i (some stripped))

abbrev pub has_trail : Candidate → Bool
has_trail cand = elim cand.trail [ [] ↦ false | _ ∷ _ ↦ true ]

unfoldable pub rw_delay_absorb : SeedCtx → Candidate → Result (List Candidate)
rw_delay_absorb ctx cand =
    let search : Result (List Candidate) = (do
      runs ← min_stall_runs ctx.sched
      absorb_from ctx cand runs 0 cand.words) in
    if has_trail cand then ok [] else search
