-- ===== src/Equiv/Lockstep.antt =====
-- `_step_rec` and `run_pair_models` of tools/hyperequiv.py.
use vibe_pio.Base.{
  ℕ, zero, suc, ◌+◌, ◌*◌, ◌==◌, List, [], ◌∷◌, ◌++◌, if◌then◌else◌, Result, ok, ◌>>=◌,
}
use vibe_pio.Model.Slice.{no_mutations}
use vibe_pio.Model.Block.Registers.{Block, block_reset}
use vibe_pio.Model.Block.Step.{step}
use vibe_pio.Trace.Format.{Rec, observed}
use vibe_pio.Stim.Addresses.{a_imem0, a_sm0, a_ctrl, op_none, op_wr, op_rd}
use vibe_pio.Stim.Run.{sampled}
use vibe_pio.Equiv.Pair.{ProgPair, ec_b, prog_len, word_at}

-- `Stim`
pub record FreeStim : Type 0 where
  pub op : ℕ
  pub addr : ℕ
  pub wdata : ℕ
  pub gpio : ℕ
  pub nbs : ℕ
  pub nbc : ℕ
  pub iprev : ℕ
  pub inext : ℕ

abbrev pub idle_stim : FreeStim
idle_stim = record {
  op = op_none;
  addr = 0;
  wdata = 0;
  gpio = 0;
  nbs = 0;
  nbc = 0;
  iprev = 0;
  inext = 0;
}

-- The model after the cycle, with its records. The arguments `op`, `addr` and `wdata` stand in `st`.
unfoldable pub step_rec : Block → ℕ → FreeStim → Result (Block × List Rec)
step_rec mdl clk st = do
  after ← step mdl (record {
    gpio_in = st.gpio;
    op = st.op;
    addr = st.addr;
    wdata = st.wdata;
    nb_set = st.nbs;
    nb_clr = st.nbc;
    irq_prev = st.iprev;
    irq_next = st.inext;
  })
  let o = after.1
  reads ← if st.op == op_rd then sampled clk st.addr o.rdata else ok []
  ok (after.0, observed clk o.gpio_out o.gpio_oe o.intr ∷ reads)

-- The variables of the loops.
pub record Lock : Type 0 where
  pub ma : Block
  pub mb : Block
  pub recs_a : List Rec
  pub recs_b : List Rec
  pub pcs : List (ℕ × ℕ)
  pub clk : ℕ

-- One cycle of both models.
unfoldable pub both : Lock → FreeStim → FreeStim → Result Lock
both l sa sb = do
  a ← step_rec l.ma l.clk sa
  b ← step_rec l.mb l.clk sb
  ok (record {
    ma = a.0;
    mb = b.0;
    recs_a = l.recs_a ++ a.1;
    recs_b = l.recs_b ++ b.1;
    pcs = l.pcs ++ (l.ma.sms.e0.pc_r, l.mb.sms.e0.pc_r) ∷ [];
    clk = l.clk + 1;
  })

abbrev pub write_stim : ℕ → ℕ → FreeStim
write_stim addr wdata = record idle_stim { op = op_wr; addr = addr; wdata = wdata }

-- The loop over the words, with `left` rounds to go.
unfoldable pub load_pair : ProgPair → ℕ → ℕ → Lock → Result Lock
load_pair pair zero i l = ok l
load_pair pair (suc left) i l = do
  l' ←
      both l (write_stim (a_imem0 + 4 * i) (word_at pair.words_a i))
        (write_stim (a_imem0 + 4 * i) (word_at pair.words_b i))
  load_pair pair left (i + 1) l'

unfoldable pub free_phase : List FreeStim → Lock → Result Lock
free_phase [] l = ok l
free_phase (st ∷ sts) l = do l' ← both l st st; free_phase sts l'

abbrev pub start_lock : Lock
start_lock = record {
  ma = block_reset no_mutations;
  mb = block_reset no_mutations;
  recs_a = [];
  recs_b = [];
  pcs = [];
  clk = 0;
}

unfoldable pub run_pair_models : ProgPair → List FreeStim → Result Lock
run_pair_models pair free = do
  loaded ← load_pair pair (prog_len pair) 0 start_lock
  configured ←
      both loaded (write_stim (a_sm0 + 4 * 1) pair.execctrl)
        (write_stim (a_sm0 + 4 * 1) (ec_b pair))
  enabled ← both configured (write_stim a_ctrl 1) (write_stim a_ctrl 1)
  free_phase free enabled
