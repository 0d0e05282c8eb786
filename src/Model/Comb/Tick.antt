-- ===== src/Model/Comb/Tick.antt =====
-- The clock divider and the tick arbitration of `comb`, the instruction that it decodes, and the
-- early IRQ set.
use vibe_pio.Base.{
  ℕ, ◌+◌, ◌-◌, Bool, not, ◌&&◌, ◌||◌, ◌==◌, leb, if◌then◌else◌, shr, shl, low_bits, Result,
}
use vibe_pio.Encoding.Decode.{Decoded, get, decode}
use vibe_pio.Model.Slice.{Slice, delay, stall, state_eq}
use vibe_pio.Model.Config.{FlagViews, clkdiv_int, clkdiv_frac, side_en, sideset_count, rel_index}

-- The arguments of `comb`.
pub record CombIn : Type 0 where
  pub sm_en : Bool
  pub instr : ℕ
  pub in_bus : ℕ
  pub gpio_seen : ℕ
  pub views : FlagViews

pub record Divider : Type 0 where
  pub terminal : Bool
  pub phase_next : ℕ
  pub phase_carry : Bool

-- An integer part of 0 stands for 65536, and its fraction is not used.
unfoldable pub int_eff : Slice → ℕ
int_eff s = if clkdiv_int s == 0 then 65536 else clkdiv_int s

unfoldable pub frac_eff : Slice → ℕ
frac_eff s = if clkdiv_int s == 0 then 0 else clkdiv_frac s

unfoldable pub divider : Slice → Bool → Divider
divider s sm_en =
    let target = int_eff s + (if s.stretch_r && not (clkdiv_int s == 0) then 1 else 0) in
    let phase_sum = s.phase_r + frac_eff s in
    record {
      terminal = sm_en && leb (target - 1) s.count_r;
      phase_next = low_bits phase_sum 8;
      phase_carry = leb 256 phase_sum;
    }

pub record Tick : Type 0 where
  pub tick_forced : Bool
  pub tick_any : Bool
  pub m_restart : Bool
  pub m_delay : Bool
  pub m_exec : Bool
  pub src_latch : Bool
  pub first_tick : Bool

unfoldable pub arbitrate : Slice → Bool → Tick
arbitrate s sm_en =
    let force_tick = s.force_pend_r || s.forced_stall_r in
    let sm_tick = sm_en && (s.pending_r && not force_tick) in
    let tick_sm = sm_tick && not force_tick in
    let m_exec =
      force_tick || (tick_sm && (not s.restart_pend_r && not (state_eq s.state_r delay))) in
    record {
      tick_forced = force_tick;
      tick_any = sm_tick || force_tick;
      m_restart = tick_sm && s.restart_pend_r;
      m_delay = tick_sm && (not s.restart_pend_r && state_eq s.state_r delay);
      m_exec = m_exec;
      src_latch = force_tick || (s.latch_vld_r && not s.latch_force_r);
      first_tick =
          m_exec && (if force_tick then not s.forced_stall_r else not (state_eq s.state_r stall));
    }

-- The instruction word comes from the EXEC latch or from memory; decoding may raise.
unfoldable pub select_decode : Slice → CombIn → Result Decoded
select_decode s c =
    let instr_cur = if (arbitrate s c.sm_en).src_latch then s.latch_r else c.instr in
    decode instr_cur (side_en s) (sideset_count s)

module _ (d : Decoded) where
  unfoldable pub wsrc : ℕ
  wsrc = get d.wait_src 0

  unfoldable pub widx5 : ℕ
  widx5 = get d.wait_index 0

unfoldable pub irq_flag_idx : Decoded → ℕ
unfolding widx5
irq_flag_idx d = if d.is_irq then get d.irq_index 0 else low_bits (widx5 d) 3

unfoldable pub irq_idx_mode : Decoded → ℕ
unfolding widx5
irq_idx_mode d = if d.is_irq then get d.irq_idxmode 0 else low_bits (shr (widx5 d) 3) 2

-- `irq_idx_mode in (0, 2)`: the set or clear goes to the local register.
abbrev pub is_local : ℕ → Bool
is_local mode = mode == 0 || mode == 2

unfoldable pub irq_set_early : Slice → Tick → Decoded → ℕ
irq_set_early s t d =
    let irq_set_req = t.first_tick && (not d.illegal && (d.is_irq && (get d.irq_clr 0 == 0))) in
    if is_local (irq_idx_mode d) && irq_set_req
    then shl 1 (if irq_idx_mode d == 0 then irq_flag_idx d else rel_index s (irq_flag_idx d))
    else 0
