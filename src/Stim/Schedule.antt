-- ===== src/Stim/Schedule.antt =====
-- `Schedule` of tools/pio_model/stim.py with the shared shape `_sched_basic`. The memory image is
-- the list of its words; their hexadecimal digits are left out.
use vibe_pio.Base.{
  ℕ, zero, suc, ◌+◌, ◌-◌, ◌*◌, ◌==◌, not, if◌then◌else◌, shl, low_bits, bit_or, List, [], ◌∷◌, ◌++◌,
  foldl, length, Option, none, some,
}
use vibe_pio.Stim.Addresses.{a_ctrl, a_txf0, a_imem0, a_sm0, sm_addr, op_none, op_wr, op_rd}
use vibe_pio.Stim.Words.{clkdiv}

-- One list of nine integers of `cycles`.
pub record StimCycle : Type 0 where
  pub gpio : ℕ
  pub lb : ℕ
  pub op : ℕ
  pub addr : ℕ
  pub wdata : ℕ
  pub nb_set : ℕ
  pub nb_clr : ℕ
  pub irq_prev : ℕ
  pub irq_next : ℕ

pub record Schedule : Type 0 where
  pub cycles : List StimCycle
  pub gpio : ℕ
  pub lb : ℕ
  pub nb_set : ℕ
  pub nb_clr : ℕ
  pub irq_prev : ℕ
  pub irq_next : ℕ

-- `Schedule()`
abbrev pub empty : Schedule
empty = record { cycles = []; gpio = 0; lb = 0; nb_set = 0; nb_clr = 0; irq_prev = 0; irq_next = 0 }

-- The cycle that `_append` adds.
abbrev pub cycle_for : Schedule → ℕ → ℕ → ℕ → StimCycle
cycle_for s op addr wdata = record {
  gpio = s.gpio;
  lb = s.lb;
  op = op;
  addr = addr;
  wdata = wdata;
  nb_set = s.nb_set;
  nb_clr = s.nb_clr;
  irq_prev = s.irq_prev;
  irq_next = s.irq_next;
}

unfoldable pub append : Schedule → ℕ → ℕ → ℕ → Schedule
append s op addr wdata = record s { cycles = s.cycles ++ cycle_for s op addr wdata ∷ [] }

unfoldable pub w : Schedule → ℕ → ℕ → Schedule
w s addr value = append s op_wr addr value

unfoldable pub r : Schedule → ℕ → Schedule
r s addr = append s op_rd addr 0

unfoldable pub idle : ℕ → Schedule → Schedule
idle zero s = s
idle (suc n) s = idle n (append s op_none 0 0)

-- The `while` loop, over the rounds left: each round adds one cycle.
unfoldable pub run_to : Schedule → ℕ → Schedule
run_to s k = idle (k - length s.cycles) s

unfoldable pub set_gpio : Schedule → ℕ → Schedule
set_gpio s value = record s { gpio = low_bits value 32 }

unfoldable pub set_lb : Schedule → ℕ → Schedule
set_lb s mask = record s { lb = low_bits mask 32 }

unfoldable pub load_imem : Schedule → List ℕ → ℕ → Schedule
load_imem s [] base = s
load_imem s (word ∷ words) base = load_imem (w s (a_imem0 + 4 * base) word) words (base + 1)

unfoldable pub enable : Schedule → ℕ → Schedule
enable s mask = w s a_ctrl mask

unfoldable pub set_pc : Schedule → ℕ → ℕ → Schedule
set_pc s pc sm = w s (sm_addr sm 4) (low_bits pc 5)

unfoldable pub feed : Schedule → ℕ → ℕ → Schedule
feed s word sm = w s (a_txf0 + 4 * low_bits sm 2) word

-- The six words of one cycle.
unfoldable pub cycle_words : StimCycle → List ℕ
cycle_words c =
    c.gpio
    ∷ c.lb
    ∷ bit_or (shl c.op 9) (low_bits c.addr 9)
    ∷ c.wdata
    ∷ bit_or (shl c.nb_set 8) c.nb_clr
    ∷ bit_or (shl c.irq_prev 8) c.irq_next
    ∷ []

unfoldable pub cycles_words : List StimCycle → List ℕ
cycles_words [] = []
cycles_words (c ∷ cs) = cycle_words c ++ cycles_words cs

unfoldable pub to_mem : Schedule → List ℕ
to_mem s = length s.cycles ∷ cycles_words s.cycles

-- The arguments of `_sched_basic`; `post` is a function that a caller passes.
pub record Basic : Type 0 where
  pub words : List ℕ
  pub pctrl_v : ℕ
  pub exec_v : ℕ
  pub shift_v : Option ℕ
  pub clkdiv_v : ℕ
  pub entry : Option ℕ
  pub feeds : List ℕ
  pub post : Schedule → Schedule
  pub nclk : ℕ

abbrev pub shift_part : Option ℕ → Schedule → Schedule
shift_part none s = s
shift_part (some v) s = idle 1 (w s (a_sm0 + 4 * 2) v)

abbrev pub entry_part : Option ℕ → Schedule → Schedule
entry_part none s = s
entry_part (some pc) s = set_pc s pc 0

unfoldable pub sched_basic : Basic → Schedule
sched_basic b =
    let loaded = load_imem empty b.words 0 in
    let config = w (w loaded (a_sm0 + 4 * 5) b.pctrl_v) (a_sm0 + 4 * 1) b.exec_v in
    let shifted = shift_part b.shift_v config in
    let divided =
      if not (b.clkdiv_v == clkdiv 1 0) then w shifted (a_sm0 + 4 * 0) b.clkdiv_v else shifted in
    let fed = foldl (λ s f. feed s f 0) (entry_part b.entry divided) b.feeds in
    run_to (b.post (enable fed 1)) b.nclk
