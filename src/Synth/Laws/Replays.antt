-- ===== src/Synth/Laws/Replays.antt =====
-- The replay of a witness completes.
use vibe_pio.Base.{
  length-append, length-map, ℕ, zero, suc, ◌+◌, ◌-◌, ◌*◌, ◌≤◌, ◌<◌, ◌≡◌, refl, ap, ◌∙◌, arith, ◌==◌,
  leb, min, low_bits, List, [], ◌∷◌, ◌++◌, map, length, All, Bool-cases, inl, inr, ok,
  if◌then◌else◌,
}
use vibe_pio.Model.Slice.{no_mutations, reset}
use vibe_pio.Model.Block.Registers.{Block, block_reset}
use vibe_pio.Stim.Addresses.{a_sm0, a_ctrl}
use vibe_pio.Stim.Schedule.{StimCycle}
use vibe_pio.Stim.Run.{inputs, fold_loopback}
use vibe_pio.Stim.Laws.Legal.{AllLegal, WritesLegal, step-AllLegal, step_completes}
use vibe_pio.Optimize.Candidate.{item}
use vibe_pio.Synth.Replay.{
  Env, Step, word_steps, prologue_steps, free_step, timeline, config_step, first_env, pinctrl_w,
  execctrl_w, ctrl_w,
}
use vibe_pio.Synth.Witness.{
  Witness, ReplayError, step_inputs, outputs_from, any_env, first_difference, window_errors,
  seen_bits, replay_model, output_differs,
}

-- The cycle of a schedule that a step drives.
abbrev step_cycle : Step → StimCycle
step_cycle st = record {
  gpio = st.env.gpio;
  lb = 0;
  op = st.op;
  addr = st.addr;
  wdata = st.wdata;
  nb_set = st.env.nbs;
  nb_clr = st.env.nbc;
  irq_prev = st.env.iprev;
  irq_next = st.env.inext;
}

abbrev StepLegal : Step → Type 0
StepLegal st = WritesLegal (step_cycle st)

outputs_from-completes :
    (sts : List Step) (m : Block)
    → All StepLegal sts
    → AllLegal m
    → (out : List ℕ) × (outputs_from m sts ≡ ok out) × (length out ≡ length sts)
unfolding outputs_from step_inputs inputs fold_loopback
outputs_from-completes [] m legal h = ([], refl, refl)
outputs_from-completes (st ∷ sts) m legal h =
    let c = step_cycle st in
    let (after, e) = step_completes m (inputs m c) h in
    let (out, e', len) =
      outputs_from-completes sts after.0 legal.1 (step-AllLegal c legal.0 m h e) in
    (after.1.gpio_out ∷ out, rw e (rw e' refl), ap suc len)

item-ok : (xs : List ℕ) (i : ℕ) → i < length xs → (x : ℕ) × (item xs i ≡ ok x)
unfolding item
item-ok [] i h = absurd (omega arith)
item-ok (x ∷ xs) zero h = (x, refl)
item-ok (x ∷ xs) (suc i) h = item-ok xs i (omega arith)

first_difference-completes :
    (left prologue : ℕ) (out vcd : List ℕ) (j : ℕ)
    → prologue + (j + left) ≤ length out
    → j + left ≤ length vcd
    → (errs : List ReplayError) × (first_difference left prologue out vcd j ≡ ok errs)
unfolding first_difference
first_difference-completes zero prologue out vcd j p q = ([], refl)
first_difference-completes (suc left) prologue out vcd j p q =
    let (x, ex) = item-ok out (prologue + j) (omega arith) in
    let (y, ey) = item-ok vcd j (omega arith) in
    let (errs, e) =
      first_difference-completes left prologue out vcd (j + 1) (omega arith) (omega arith) in
    elim (Bool-cases (x == y)) [
      | inl same ↦ (errs, rw ex (rw ey (rw same e)))
      | inr other ↦ (output_differs j x y ∷ [], rw ex (rw ey (rw other refl)))
    ]

legal-append : (xs ys : List Step) → All StepLegal xs → All StepLegal ys → All StepLegal (xs ++ ys)
legal-append [] ys p q = q
legal-append (x ∷ xs) ys p q = (p.0, legal-append xs ys p.1 q)

word_steps-legal :
    (env0 : Env) (i : ℕ) (ws : List ℕ) → i + length ws ≤ 32 → All StepLegal (word_steps env0 i ws)
unfolding word_steps
word_steps-legal env0 i [] room = tt
word_steps-legal env0 i (w ∷ ws) room =
    (λ n small op at_n. absurd (omega arith), word_steps-legal env0 (i + 1) ws (omega arith))

free_steps-legal : (es : List Env) → All StepLegal (map free_step es)
free_steps-legal [] = tt
free_steps-legal (e ∷ es) = (λ n small op at_n. absurd (omega arith), free_steps-legal es)

timeline-legal :
    (canon : List ℕ) (free_env : List Env)
    → length canon ≤ 32
    → All StepLegal (timeline canon free_env)
unfolding timeline prologue_steps
timeline-legal canon free_env room =
    legal-append (prologue_steps canon (first_env free_env)) (map free_step free_env)
      (legal-append (word_steps (first_env free_env) 0 canon) _
        (word_steps-legal (first_env free_env) 0 canon (omega arith))
        (
          λ n small op at_n. omega arith,
          (λ n small op at_n. omega arith, (λ n small op at_n. omega arith, tt)),
        ))
      (free_steps-legal free_env)

length-word_steps : (env0 : Env) (i : ℕ) (ws : List ℕ) → length (word_steps env0 i ws) ≡ length ws
unfolding word_steps
length-word_steps env0 i [] = refl
length-word_steps env0 i (w ∷ ws) = ap suc (length-word_steps env0 (i + 1) ws)

length-timeline :
    (canon : List ℕ) (free_env : List Env)
    → length (timeline canon free_env) ≡ length canon + 3 + length free_env
unfolding timeline prologue_steps
length-timeline canon free_env =
    let env0 = first_env free_env in
    let words = length-word_steps env0 0 canon in
    let free = length-map free_step free_env in
    let whole = length-append (prologue_steps canon env0) (map free_step free_env) in
    let configs : List Step =
      config_step (a_sm0 + 4 * 5) pinctrl_w
      ∷ config_step (a_sm0 + 4 * 1) execctrl_w
      ∷ config_step a_ctrl ctrl_w
      ∷ [] in
    let front = length-append (word_steps env0 0 canon) configs in omega arith

reset_legal : AllLegal (block_reset no_mutations)
unfolding AllLegal block_reset reset
reset_legal = omega arith

compared :
    (w : Witness) (out : List ℕ) (off : ℕ)
    → w.horizon ≤ length w.free_env
    → length out ≡ length w.canon + 3 + length w.free_env
    → (errs : List ReplayError) × (first_difference
          (min w.horizon (length w.out32) - off)
          (length w.canon + 3)
          out
          w.out32
          off
        ≡ ok errs)
unfolding first_difference
compared w out off enough len = elim (Bool-cases (leb off (min w.horizon (length w.out32)))) [
  | inl fits ↦
      first_difference-completes (min w.horizon (length w.out32) - off) (length w.canon + 3) out
        w.out32 off (ground arith) (ground arith)
  | inr short ↦
      let nothing : min w.horizon (length w.out32) - off ≡ 0 = ground arith in ([], rw nothing refl)
]

-- Of at most 32 canonical words and a free environment for each cycle of the horizon, replay_model
-- completes, with a waveform of one bit for each canonical word, each of the three configuration
-- writes and each free cycle.
pub replay_model-completes :
    (w : Witness)
    → length w.canon ≤ 32
    → w.horizon ≤ length w.free_env
    → (errs : List ReplayError) × (bits : List ℕ) × (replay_model w ≡ ok (errs, bits))
      × (length bits ≡ length w.canon + 3 + length w.free_env)
unfolding replay_model
replay_model-completes w room enough =
    let steps = timeline w.canon w.free_env in
    let (out, e, len) =
      outputs_from-completes steps (block_reset no_mutations)
        (timeline-legal w.canon w.free_env room) reset_legal in
    let len' = len ∙ length-timeline w.canon w.free_env in
    let bits = map (λ (o : ℕ). low_bits o 1) out in
    let (diffs, e') = compared w out (if any_env 3 steps then 2 else 0) enough len' in
    (
      diffs ++ window_errors w.target.kind w.target (seen_bits bits),
      bits,
      rw e (rw e' refl),
      length-map (λ (o : ℕ). low_bits o 1) out ∙ len',
    )
