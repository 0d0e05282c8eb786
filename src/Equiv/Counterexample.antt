-- ===== src/Equiv/Counterexample.antt =====
-- `Sample`, `_active_samples`, `samples_to_recs`, `decode_vcd`, `_read_subst` and `replay_cex` of
-- tools/hyperequiv.py. The note of `replay_cex` is left out; a missing divergence says which.
use vibe_pio.Base.{
  ℕ, ◌+◌, ◌-◌, ◌/◌, ◌==◌, Bool, ◌&&◌, ◌||◌, not, leb, shr, low_bits, List, [], ◌∷◌, ◌++◌,
  if◌then◌else◌, Option, none, some, Result, ok, ◌>>=◌,
}
use vibe_pio.Model.Block.Registers.{block_reset}
use vibe_pio.Model.Block.Bus.{StepIn}
use vibe_pio.Model.Block.Step.{step}
use vibe_pio.Trace.Format.{Rec, observed, read}
use vibe_pio.Stim.Addresses.{a_fstat, op_none, op_wr, op_rd}
use vibe_pio.Stim.Run.{sampled}
use vibe_pio.Equiv.Lockstep.{Lock, start_lock}
use vibe_pio.Equiv.Divergence.{Divergence, decode_first_divergence}

-- The names of the signals that are read from a sample.
pub data Signal : Type 0 where
  pc_a pc_b out_a out_b oe_a oe_b intr_a intr_b rd_a rd_b : Signal
  read_strobe write_strobe addr wd_a wd_b gpio_in nbs nbc iprev inext : Signal

-- Without the timestamp, which these functions do not read.
pub record Sample : Type 0 where
  pub step : ℕ
  pub rst : ℕ
  pub vals : Signal → Option ℕ

abbrev pub present_or : Option ℕ → ℕ → ℕ
present_or none d = d
present_or (some n) d = n

-- `v.get(name, 0)`
unfoldable pub signal_value : Sample → Signal → ℕ
signal_value s name = present_or (s.vals name) 0

abbrev pub truthy : ℕ → Bool
truthy n = not (n == 0)

-- The loop that finds `start`, from sample `i` on.
unfoldable pub start_from : List Sample → ℕ → ℕ → ℕ
start_from [] i start = start
start_from (s ∷ ss) i start = start_from ss (i + 1) (if truthy s.rst then i + 1 else start)

unfoldable pub since : ℕ → List Sample → List Sample
since start [] = []
since start (s ∷ ss) = if leb start s.step then s ∷ since start ss else since start ss

unfoldable pub active_samples : List Sample → List Sample
active_samples samples = since (start_from samples 0 1) samples

-- `recs_a`, `recs_b` and `pcs` of `samples_to_recs`.
pub record Recs : Type 0 where
  pub recs_a : List Rec
  pub recs_b : List Rec
  pub pcs : List (ℕ × ℕ)

-- The records of one side: its outputs, and the read if there is one.
unfoldable pub side_recs : ℕ → Sample → Signal → Signal → Signal → Signal → List Rec
side_recs clk s out oe intr rd =
    observed clk (signal_value s out) (signal_value s oe) (signal_value s intr)
    ∷ (if truthy (signal_value s read_strobe)
        then read clk (signal_value s addr) (signal_value s rd) ∷ []
        else [])

-- The loop over the active samples, from cycle `clk` on.
unfoldable pub recs_from : ℕ → List Sample → Recs
recs_from clk [] = record { recs_a = []; recs_b = []; pcs = [] }
recs_from clk (s ∷ ss) =
    let later = recs_from (clk + 1) ss in
    record {
      recs_a = side_recs clk s out_a oe_a intr_a rd_a ++ later.recs_a;
      recs_b = side_recs clk s out_b oe_b intr_b rd_b ++ later.recs_b;
      pcs = (signal_value s pc_a, signal_value s pc_b) ∷ later.pcs;
    }

unfoldable pub samples_to_recs : List Sample → Recs
samples_to_recs samples = recs_from 0 (active_samples samples)

unfoldable pub decode_vcd : List Sample → ℕ → Result (Option Divergence)
decode_vcd samples mask =
    let r = samples_to_recs samples in decode_first_divergence r.recs_a r.recs_b r.pcs mask

unfoldable pub read_subst : ℕ → ℕ
read_subst requested =
    let widx = low_bits (shr requested 2) 7 in
    let in_sm = leb 50 widx && leb widx 73 in
    let sm_sel = if in_sm then (widx - 50) / 6 else 0 in
    if (in_sm && not (sm_sel == 0)) || ((widx == 9) || ((widx == 10) || (widx == 11)))
    then a_fstat
    else requested

unfoldable pub cex_op : Sample → ℕ
cex_op s =
    if truthy (signal_value s write_strobe)
    then op_wr
    else if truthy (signal_value s read_strobe)
    then op_rd
    else op_none

unfoldable pub cex_addr : Sample → ℕ
cex_addr s = if cex_op s == op_rd then read_subst (signal_value s addr) else signal_value s addr

-- The arguments of a model's `step`, with the write data `wd` of its side.
unfoldable pub cex_inputs : Sample → Signal → StepIn
cex_inputs s wd = record {
  gpio_in = signal_value s gpio_in;
  op = cex_op s;
  addr = cex_addr s;
  wdata = signal_value s wd;
  nb_set = signal_value s nbs;
  nb_clr = signal_value s nbc;
  irq_prev = signal_value s iprev;
  irq_next = signal_value s inext;
}

-- One sample that does not reset.
unfoldable pub replay_clk : Lock → Sample → Result Lock
replay_clk l s = do
  a ← step l.ma (cex_inputs s wd_a)
  b ← step l.mb (cex_inputs s wd_b)
  reads_a ← if cex_op s == op_rd then sampled l.clk (cex_addr s) a.1.rdata else ok []
  reads_b ← if cex_op s == op_rd then sampled l.clk (cex_addr s) b.1.rdata else ok []
  ok (record {
    ma = a.0;
    mb = b.0;
    recs_a = l.recs_a ++ observed l.clk a.1.gpio_out a.1.gpio_oe a.1.intr ∷ reads_a;
    recs_b = l.recs_b ++ observed l.clk b.1.gpio_out b.1.gpio_oe b.1.intr ∷ reads_b;
    pcs = l.pcs ++ (l.ma.sms.e0.pc_r, l.mb.sms.e0.pc_r) ∷ [];
    clk = l.clk + 1;
  })

abbrev pub reset_both : Lock → Lock
reset_both l = record l { ma = block_reset l.ma.mut; mb = block_reset l.mb.mut }

-- The loop over the samples.
unfoldable pub replay_from : List Sample → Lock → Result Lock
replay_from [] l = ok l
replay_from (s ∷ ss) l = do
  l' ← if truthy s.rst then ok (reset_both l) else replay_clk l s
  replay_from ss l'

unfoldable pub replay_cex : List Sample → ℕ → Result (Option Divergence)
replay_cex samples mask = do
  l ← replay_from samples start_lock
  decode_first_divergence l.recs_a l.recs_b l.pcs mask
