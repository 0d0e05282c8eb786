-- ===== src/Model/Edge/Control.antt =====
-- The configuration banks, the clock divider, the FSM state, the scratch registers and the delay
-- counter: the groups of `edge` up to G3.
use vibe_pio.Base.{ℕ, ◌+◌, Bool, true, false, not, ◌&&◌, ◌||◌, ◌==◌, if◌then◌else◌, low_bits}
use vibe_pio.Model.Slice.{Slice, State, fetch, exec, stall, delay, state_eq}
use vibe_pio.Model.Comb.Bundle.{Comb}

-- The arguments of `edge` besides the bundle.
pub record EdgeIn : Type 0 where
  pub sm_en : Bool
  pub sm_restart : Bool
  pub clkdiv_restart : Bool
  pub clkdiv_we : Bool
  pub execctrl_we : Bool
  pub shiftctrl_we : Bool
  pub pinctrl_we : Bool
  pub force_we : Bool
  pub wdata : ℕ
  pub sys_tx_wr : Bool
  pub sys_rx_rd : Bool
  pub sys_aux_wr : Bool
  pub bus_aux_idx : ℕ
  pub clr_tx_stall : Bool
  pub clr_rx_stall : Bool
  pub clr_tx_over : Bool
  pub clr_rx_under : Bool

unfoldable pub bank_edge : EdgeIn → Slice → Slice
bank_edge i s = record s {
  clkdiv_r = if i.clkdiv_we then i.wdata else s.clkdiv_r;
  execctrl_r = if i.execctrl_we then i.wdata else s.execctrl_r;
  shiftctrl_r = if i.shiftctrl_we then i.wdata else s.shiftctrl_r;
  pinctrl_r = if i.pinctrl_we then i.wdata else s.pinctrl_r;
}

unfoldable pub divider_edge : Comb → EdgeIn → Slice → Slice
divider_edge c i s =
    if i.clkdiv_restart
    then record s { phase_r = 0; stretch_r = false; count_r = 0; pending_r = false }
    else if i.sm_en
    then (if c.div.terminal
        then record s {
          count_r = 0;
          pending_r = true;
          phase_r = c.div.phase_next;
          stretch_r = c.div.phase_carry;
        }
        else record s {
          count_r = s.count_r + 1;
          pending_r = if not (c.tick.tick_forced && s.pending_r) then false else s.pending_r;
        })
    else s

-- G1, as the next state.
unfoldable pub next_state : Comb → EdgeIn → Slice → State
next_state c i s =
    if c.tick.m_restart
    then (if i.sm_restart && state_eq s.state_r delay then fetch else s.state_r)
    else if c.tick.tick_forced
    then (if c.compl
        then (if c.just_latched
            then exec
            else if c.pc_wr_explicit
            then fetch
            else if state_eq s.state_r exec
            then fetch
            else if i.sm_restart && state_eq s.state_r delay
            then fetch
            else s.state_r)
        else if i.sm_restart && (state_eq s.state_r delay || state_eq s.state_r exec)
        then fetch
        else s.state_r)
    else if c.tick.m_exec
    then (if not c.compl
        then stall
        else if c.just_latched
        then exec
        else if not (c.d.delay == 0)
        then delay
        else fetch)
    else if i.sm_restart
    then (if state_eq s.state_r delay || (state_eq s.state_r exec && s.latch_force_r)
        then fetch
        else s.state_r)
    else if c.tick.m_delay
    then (if s.delay_cnt_r == 1 then fetch else s.state_r)
    else s.state_r

unfoldable pub state_edge : Comb → EdgeIn → Slice → Slice
state_edge c i s = record s { state_r = next_state c i s }

-- G2
unfoldable pub scratch_edge : Comb → Slice → Slice
scratch_edge c s = record s {
  pc_r = if c.compl then low_bits c.pc_next 5 else s.pc_r;
  x_r = if c.compl && c.x_wr then low_bits c.x_val 32 else s.x_r;
  y_r = if c.compl && c.y_wr then low_bits c.y_val 32 else s.y_r;
}

-- `(v - 1) & 0x1F`
abbrev pub dec5 : ℕ → ℕ
dec5 v = low_bits (v + 31) 5

-- G3, as the next count.
unfoldable pub next_delay : Comb → EdgeIn → Slice → ℕ
next_delay c i s =
    let mut_dly = s.mut.delay_in_stall && s.mut_stall_seen in
    if c.delay_load && not mut_dly
    then c.d.delay
    else if i.sm_restart
    then 0
    else if c.tick.tick_forced && (c.compl && (c.just_latched || c.pc_wr_explicit))
    then 0
    else if c.tick.m_delay
    then dec5 s.delay_cnt_r
    else if s.mut.delay_in_stall && (c.tick.m_exec && c.stall)
    then (if c.tick.first_tick then c.d.delay else dec5 s.delay_cnt_r)
    else s.delay_cnt_r

unfoldable pub delay_edge : Comb → EdgeIn → Slice → Slice
delay_edge c i s = record s {
  delay_cnt_r = next_delay c i s;
  mut_stall_seen =
      if c.compl then false else if c.tick.m_exec && c.stall then true else s.mut_stall_seen;
}
