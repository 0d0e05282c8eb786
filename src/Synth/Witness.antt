-- ===== src/Synth/Witness.antt =====
-- `Target`, `Witness` and `replay_model` of tools/hypersynth.py. The fields that `replay_model` does
-- not read are left out.
use vibe_pio.Base.{
  ℕ, zero, suc, ◌+◌, ◌-◌, ◌==◌, ◌&&◌, ◌||◌, not, Bool, false, ltb, min, low_bits, List, [], ◌∷◌,
  ◌++◌, map, length, if◌then◌else◌, Result, ok, ◌>>=◌,
}
use vibe_pio.Model.Slice.{no_mutations}
use vibe_pio.Model.Block.Registers.{Block, block_reset}
use vibe_pio.Model.Block.Bus.{StepIn}
use vibe_pio.Model.Block
use vibe_pio.Optimize.Candidate.{item}
use vibe_pio.Synth.Windows.{SquareError, UartError, check_square, check_uart}
use vibe_pio.Synth.Replay.{Env, Step, idle_env, timeline}

pub data TargetKind : Type 0 where
  sq uart : TargetKind

pub record Target : Type 0 where
  pub kind : TargetKind
  pub window : ℕ
  pub payload : ℕ

pub record Witness : Type 0 where
  pub target : Target
  pub canon : List ℕ
  pub free_env : List Env
  pub out32 : List ℕ
  pub horizon : ℕ

-- The errors, with the numbers of their messages.
pub data ReplayError : Type 0 where
  output_differs : ℕ → ℕ → ℕ → ReplayError
  square_error : SquareError → ReplayError
  uart_error : UartError → ReplayError

unfoldable pub step_inputs : Step → StepIn
step_inputs st = record {
  gpio_in = st.env.gpio;
  op = st.op;
  addr = st.addr;
  wdata = st.wdata;
  nb_set = st.env.nbs;
  nb_clr = st.env.nbc;
  irq_prev = st.env.iprev;
  irq_next = st.env.inext;
}

-- `gpio_out` of every step; the other two observables are collected and not read.
unfoldable pub outputs_from : Block → List Step → Result (List ℕ)
outputs_from m [] = ok []
outputs_from m (st ∷ sts) = do
  after ← Block.Step.step m (step_inputs st)
  later ← outputs_from after.0 sts
  ok (after.1.gpio_out ∷ later)

abbrev pub env_eq : Env → Env → Bool
env_eq e f =
    (e.gpio == f.gpio)
    && ((e.nbs == f.nbs) && ((e.nbc == f.nbc) && ((e.iprev == f.iprev) && (e.inext == f.inext))))

-- `any(s.env != IDLE_ENV for s in ...[:3])`, over the first `n` steps.
unfoldable pub any_env : ℕ → List Step → Bool
any_env zero sts = false
any_env (suc n) [] = false
any_env (suc n) (st ∷ sts) = not (env_eq st.env idle_env) || any_env n sts

-- The loop over the free cycles from `j` on, with `left` to go.
unfoldable pub first_difference : ℕ → ℕ → List ℕ → List ℕ → ℕ → Result (List ReplayError)
first_difference zero prologue out vcd j = ok []
first_difference (suc left) prologue out vcd j = do
  x ← item out (prologue + j)
  y ← item vcd j
  let later = first_difference left prologue out vcd (j + 1)
  if x == y then later else ok (output_differs j x y ∷ [])

-- `bits[:-1] if len(bits) > 1 else bits`
unfoldable pub all_but_last : List ℕ → List ℕ
all_but_last [] = []
all_but_last (b ∷ []) = []
all_but_last (b ∷ (c ∷ bs)) = b ∷ all_but_last (c ∷ bs)

unfoldable pub seen_bits : List ℕ → List ℕ
seen_bits bits = if ltb 1 (length bits) then all_but_last bits else bits

abbrev pub window_errors : TargetKind → Target → List ℕ → List ReplayError
window_errors sq t seen = map square_error (check_square seen t.window)
window_errors uart t seen = map uart_error (check_uart seen t.window t.payload).0

unfoldable pub replay_model : Witness → Result (List ReplayError × List ℕ)
replay_model w = do
  let steps = timeline w.canon w.free_env
  out ← outputs_from (block_reset no_mutations) steps
  let bits = map (λ (o : ℕ). low_bits o 1) out
  let off = if any_env 3 steps then 2 else 0
  let left = min w.horizon (length w.out32) - off
  errs ← first_difference left (length w.canon + 3) out w.out32 off
  ok (errs ++ window_errors w.target.kind w.target (seen_bits bits), bits)
