-- ===== src/Equiv/Laws/Completes.antt =====
-- The lockstep run completes on a stimulus that writes no reserved SIDESET_COUNT.
use vibe_pio.Base.{
  ℕ, zero, suc, ◌+◌, ◌*◌, ◌≤◌, ◌<◌, ◌≡◌, refl, arith, ◌==◌, shr, low_bits, List, [], ◌∷◌, ◌++◌, All,
  Bool-cases, inl, inr, ok,
}
use vibe_pio.Model.Slice.{reset}
use vibe_pio.Model.Block.Registers.{Block, block_reset}
use vibe_pio.Trace.Format.{Rec, observed, read}
use vibe_pio.Stim.Addresses.{a_imem0, a_sm0, a_ctrl, op_rd}
use vibe_pio.Stim.Schedule.{StimCycle}
use vibe_pio.Stim.Run.{inputs, fold_loopback}
use vibe_pio.Stim.Laws.Legal.{AllLegal, WritesLegal, step-AllLegal, step_completes, step-sampled}
use vibe_pio.Equiv.Pair.{ProgPair, ec_b, prog_len, word_at}
use vibe_pio.Equiv.Lockstep.{
  FreeStim, Lock, step_rec, both, write_stim, load_pair, free_phase, start_lock, run_pair_models,
}

-- The cycle of a schedule with no loopback.
abbrev pub as_cycle : FreeStim → StimCycle
as_cycle st = record {
  gpio = st.gpio;
  lb = 0;
  op = st.op;
  addr = st.addr;
  wdata = st.wdata;
  nb_set = st.nbs;
  nb_clr = st.nbc;
  irq_prev = st.iprev;
  irq_next = st.inext;
}

-- It writes no reserved SIDESET_COUNT to a PINCTRL.
abbrev pub StimLegal : FreeStim → Type 0
StimLegal st = WritesLegal (as_cycle st)

step_rec-completes :
    (m : Block) (clk : ℕ) (st : FreeStim)
    → AllLegal m
    → StimLegal st
    → (out : Block × List Rec) × (step_rec m clk st ≡ ok out) × AllLegal out.0
unfolding step_rec fold_loopback inputs
step_rec-completes m clk st h legal =
    let c = as_cycle st in
    let (after, e) = step_completes m (inputs m c) h in
    let kept = step-AllLegal c legal m h e in
    let seen = observed clk after.1.gpio_out after.1.gpio_oe after.1.intr in
    elim (Bool-cases (st.op == op_rd)) [
      | inl is_read ↦
          let (v, sample) = step-sampled m c e is_read in
          ((after.0, seen ∷ read clk st.addr v ∷ []), rw e (rw is_read (rw sample refl)), kept)
      | inr other ↦ ((after.0, seen ∷ []), rw e (rw other refl), kept)
    ]

BothLegal : Lock → Type 0
BothLegal l = AllLegal l.ma × AllLegal l.mb

both-completes :
    (l : Lock) (sa sb : FreeStim)
    → BothLegal l
    → StimLegal sa
    → StimLegal sb
    → (l' : Lock) × (both l sa sb ≡ ok l') × BothLegal l'
unfolding both BothLegal
both-completes l sa sb h pa pb =
    let (a, ea, ka) = step_rec-completes l.ma l.clk sa h.0 pa in
    let (b, eb, kb) = step_rec-completes l.mb l.clk sb h.1 pb in
    (
      record {
        ma = a.0;
        mb = b.0;
        recs_a = l.recs_a ++ a.1;
        recs_b = l.recs_b ++ b.1;
        pcs = l.pcs ++ (l.ma.sms.e0.pc_r, l.mb.sms.e0.pc_r) ∷ [];
        clk = l.clk + 1;
      },
      rw ea (rw eb refl),
      (ka, kb),
    )

write_legal : (addr value : ℕ) → low_bits (shr addr 2) 7 < 55 → StimLegal (write_stim addr value)
write_legal addr value h n small w e = absurd (omega arith)

free_phase-completes :
    (sts : List FreeStim) (l : Lock)
    → BothLegal l
    → All StimLegal sts
    → (l' : Lock) × (free_phase sts l ≡ ok l')
unfolding free_phase
free_phase-completes [] l h p = (l, refl)
free_phase-completes (st ∷ sts) l h p =
    let (next, e, k) = both-completes l st st h p.0 p.0 in
    let (l', e') = free_phase-completes sts next k p.1 in (l', rw e e')

module _ (pair : ProgPair) where
  load_pair-completes :
      (left i : ℕ) (l : Lock)
      → i + left ≤ 32
      → BothLegal l
      → (l' : Lock) × (load_pair pair left i l ≡ ok l') × BothLegal l'
  unfolding load_pair
  load_pair-completes zero i l room h = (l, refl, h)
  load_pair-completes (suc left) i l room h =
      let at_i =
        λ (words : List ℕ). write_legal (a_imem0 + 4 * i) (word_at words i) (omega arith) in
      let (next, e, k) =
        both-completes l (write_stim (a_imem0 + 4 * i) (word_at pair.words_a i))
          (write_stim (a_imem0 + 4 * i) (word_at pair.words_b i)) h (at_i pair.words_a)
          (at_i pair.words_b) in
      let (l', e', k') = load_pair-completes left (i + 1) next (omega arith) k in (l', rw e e', k')

  -- The run of a pair that fits the memory.
  pub run_pair_models-completes :
      (free : List FreeStim)
      → prog_len pair ≤ 32
      → All StimLegal free
      → (l : Lock) × (run_pair_models pair free ≡ ok l)
  unfolding run_pair_models BothLegal AllLegal block_reset reset
  run_pair_models-completes free room legal =
      let (loaded, e1, k1) =
        load_pair-completes (prog_len pair) 0 start_lock (omega arith) (omega arith) in
      let (configured, e2, k2) =
        both-completes loaded (write_stim (a_sm0 + 4 * 1) pair.execctrl)
          (write_stim (a_sm0 + 4 * 1) (ec_b pair)) k1
          (write_legal (a_sm0 + 4 * 1) pair.execctrl (omega arith))
          (write_legal (a_sm0 + 4 * 1) (ec_b pair) (omega arith)) in
      let (enabled, e3, k3) =
        both-completes configured (write_stim a_ctrl 1) (write_stim a_ctrl 1) k2
          (write_legal a_ctrl 1 (omega arith)) (write_legal a_ctrl 1 (omega arith)) in
      let (l, e4) = free_phase-completes free enabled k3 legal in (l, rw e1 (rw e2 (rw e3 e4)))
