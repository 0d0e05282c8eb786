-- ===== src/Synth/Replay.antt =====
-- The replay of tools/hypersynth.py: the prologue of a program's words, and the words of the
-- packed 512-bit vector.
use vibe_pio.Base.{
  ℕ, zero, suc, ◌+◌, ◌*◌, ltb, shr, low_bits, List, [], ◌∷◌, ◌++◌, if◌then◌else◌, map,
}
use vibe_pio.Stim.Addresses.{a_imem0, a_sm0, a_ctrl, op_none, op_wr}

pub record Env : Type 0 where
  pub gpio : ℕ
  pub nbs : ℕ
  pub nbc : ℕ
  pub iprev : ℕ
  pub inext : ℕ

abbrev pub idle_env : Env
idle_env = record { gpio = 0; nbs = 0; nbc = 0; iprev = 0; inext = 0 }

pub record Step : Type 0 where
  pub op : ℕ
  pub addr : ℕ
  pub wdata : ℕ
  pub env : Env

-- The comprehension over the words, from word `i` on.
unfoldable pub word_steps : Env → ℕ → List ℕ → List Step
word_steps env0 i [] = []
word_steps env0 i (w ∷ ws) =
    record {
      op = op_wr;
      addr = a_imem0 + 4 * i;
      wdata = low_bits w 16;
      env = if ltb i 3 then env0 else idle_env;
    }
    ∷ word_steps env0 (i + 1) ws

abbrev pub pinctrl_w : ℕ
pinctrl_w = 0x04000000

abbrev pub execctrl_w : ℕ
execctrl_w = 0

abbrev pub ctrl_w : ℕ
ctrl_w = 1

abbrev pub config_step : ℕ → ℕ → Step
config_step addr wdata = record { op = op_wr; addr = addr; wdata = wdata; env = idle_env }

unfoldable pub prologue_steps : List ℕ → Env → List Step
prologue_steps words env0 =
    word_steps env0 0 words
    ++ config_step (a_sm0 + 4 * 5) pinctrl_w
      ∷ config_step (a_sm0 + 4 * 1) execctrl_w
      ∷ config_step a_ctrl ctrl_w
      ∷ []

abbrev pub free_step : Env → Step
free_step e = record { op = op_none; addr = 0; wdata = 0; env = e }

abbrev pub first_env : List Env → Env
first_env [] = idle_env
first_env (e ∷ es) = e

-- `Witness.timeline`, of its canonical words and its free environment.
unfoldable pub timeline : List ℕ → List Env → List Step
timeline canon free_env = prologue_steps canon (first_env free_env) ++ map free_step free_env

-- `[(sym >> (16 * i)) & 0xFFFF for i in range(32)]`, from word `i` on with `left` to go.
unfoldable pub words_from : ℕ → ℕ → ℕ → List ℕ
words_from v zero i = []
words_from v (suc left) i = low_bits (shr v (16 * i)) 16 ∷ words_from v left (i + 1)

unfoldable pub words_of : ℕ → List ℕ
words_of sym = words_from sym 32 0
