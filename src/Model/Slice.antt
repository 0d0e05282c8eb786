-- ===== src/Model/Slice.antt =====
-- `_SMSlice` of tools/pio_model/model.py: the registers of one state machine, and their reset.
-- The constants of one-hot states and of FIFO modes are data types; a register that holds 0 or 1
-- and is only tested, or shifted into place, is a Boolean.
use vibe_pio.Base.{ℕ, Bool, true, false, List, replicate}

-- `ST_FETCH`, `ST_EXEC`, `ST_STALL`, `ST_DELAY`
pub data State : Type 0 where
  fetch exec stall delay : State

abbrev pub state_eq : State → State → Bool
state_eq fetch fetch = true
state_eq exec exec = true
state_eq stall stall = true
state_eq delay delay = true
state_eq _ _ = false

-- `FM_TXRX`, `FM_TX`, `FM_RX`, `FM_TXPUT`, `FM_TXGET`, `FM_PUTGET`
pub data FifoMode : Type 0 where
  txrx tx rx txput txget putget : FifoMode

abbrev pub mode_eq : FifoMode → FifoMode → Bool
mode_eq txrx txrx = true
mode_eq tx tx = true
mode_eq rx rx = true
mode_eq txput txput = true
mode_eq txget txget = true
mode_eq putget putget = true
mode_eq _ _ = false

-- `MUTATIONS`: the set of named deviations, as one flag for each name.
pub record Mutations : Type 0 where
  pub jmp_postdec : Bool
  pub cc11_no_stall : Bool
  pub ss_opt_ignored : Bool
  pub sync_1ff : Bool
  pub wrap_off : Bool
  pub delay_in_stall : Bool
  pub irq_same_cycle : Bool
  pub gpio_pri_low : Bool
  pub irq_rel_off : Bool

-- The empty set: the model whose contract is the hardware's trace.
abbrev pub no_mutations : Mutations
no_mutations = record {
  jmp_postdec = false;
  cc11_no_stall = false;
  ss_opt_ignored = false;
  sync_1ff = false;
  wrap_off = false;
  delay_in_stall = false;
  irq_same_cycle = false;
  gpio_pri_low = false;
  irq_rel_off = false;
}

abbrev pub clkdiv_reset : ℕ
clkdiv_reset = 0x00010000

abbrev pub execctrl_reset : ℕ
execctrl_reset = 0x00001fff

abbrev pub shiftctrl_reset : ℕ
shiftctrl_reset = 0x000c0000

abbrev pub pinctrl_reset : ℕ
pinctrl_reset = 0x14000000

pub record Slice : Type 0 where
  pub sm_id : ℕ
  pub mut : Mutations
  pub clkdiv_r : ℕ
  pub execctrl_r : ℕ
  pub shiftctrl_r : ℕ
  pub pinctrl_r : ℕ
  pub phase_r : ℕ
  pub stretch_r : Bool
  pub count_r : ℕ
  pub pending_r : Bool
  pub state_r : State
  pub pc_r : ℕ
  pub x_r : ℕ
  pub y_r : ℕ
  pub delay_cnt_r : ℕ
  pub latch_r : ℕ
  pub latch_vld_r : Bool
  pub latch_force_r : Bool
  pub force_pend_r : Bool
  pub forced_stall_r : Bool
  pub irqw_wait_r : Bool
  pub restart_pend_r : Bool
  pub osr_r : ℕ
  pub isr_r : ℕ
  pub osr_cnt_r : ℕ
  pub isr_cnt_r : ℕ
  pub mode_r : FifoMode
  pub tx_mem : List ℕ
  pub rx_mem : List ℕ
  pub tx_head : ℕ
  pub tx_tail : ℕ
  pub rx_head : ℕ
  pub rx_tail : ℕ
  pub tx_level : ℕ
  pub rx_level : ℕ
  pub fdbg_tx_stall : Bool
  pub fdbg_rx_stall : Bool
  pub fdbg_tx_over : Bool
  pub fdbg_rx_under : Bool
  pub mut_stall_seen : Bool

-- `_SMSlice.__init__`, which only calls `reset`.
unfoldable pub reset : ℕ → Mutations → Slice
reset sm_id mut = record {
  sm_id = sm_id;
  mut = mut;
  clkdiv_r = clkdiv_reset;
  execctrl_r = execctrl_reset;
  shiftctrl_r = shiftctrl_reset;
  pinctrl_r = pinctrl_reset;
  phase_r = 0;
  stretch_r = false;
  count_r = 0;
  pending_r = false;
  state_r = fetch;
  pc_r = 0;
  x_r = 0;
  y_r = 0;
  delay_cnt_r = 0;
  latch_r = 0;
  latch_vld_r = false;
  latch_force_r = false;
  force_pend_r = false;
  forced_stall_r = false;
  irqw_wait_r = false;
  restart_pend_r = false;
  osr_r = 0;
  isr_r = 0;
  osr_cnt_r = 32;
  isr_cnt_r = 0;
  mode_r = txrx;
  tx_mem = replicate 8 0;
  rx_mem = replicate 8 0;
  tx_head = 0;
  tx_tail = 0;
  rx_head = 0;
  rx_tail = 0;
  tx_level = 0;
  rx_level = 0;
  fdbg_tx_stall = false;
  fdbg_rx_stall = false;
  fdbg_tx_over = false;
  fdbg_rx_under = false;
  mut_stall_seen = false;
}
