-- ===== src/Model/Block/Bus.antt =====
-- The address decode of `step` and the write strobes that it hands to each state machine.
use vibe_pio.Base.{ℕ, ◌+◌, ◌-◌, ◌*◌, ◌/◌, Bool, ◌&&◌, ◌==◌, leb, min, if◌then◌else◌, shr, low_bits}
use vibe_pio.Encoding.Split.{has_bit}
use vibe_pio.Model.Edge.Control.{EdgeIn}

-- The arguments of `step`. The source takes `lb_mask` too, and does not read it.
pub record StepIn : Type 0 where
  pub gpio_in : ℕ
  pub op : ℕ
  pub addr : ℕ
  pub wdata : ℕ
  pub nb_set : ℕ
  pub nb_clr : ℕ
  pub irq_prev : ℕ
  pub irq_next : ℕ

-- `sm_sel`, `sm_reg`, `aux_sel`, `bus_aux_idx` and `imem_addr` are read only under their hit, where
-- no subtraction is negative.
pub record Bus : Type 0 where
  pub reg_write : Bool
  pub reg_read : Bool
  pub wdata : ℕ
  pub widx : ℕ
  pub imem_hit : Bool
  pub imem_addr : ℕ
  pub sm_hit : Bool
  pub sm_sel : ℕ
  pub sm_reg : ℕ
  pub aux_hit : Bool
  pub aux_sel : ℕ
  pub bus_aux_idx : ℕ

unfoldable pub bus_decode : StepIn → Bus
bus_decode i =
    let widx = low_bits (shr i.addr 2) 7 in
    let sm_off = widx - 50 in
    let sm_sel = min (sm_off / 6) 3 in
    let aux_off = widx - 74 in
    record {
      reg_write = i.op == 1;
      reg_read = i.op == 2;
      wdata = low_bits i.wdata 32;
      widx = widx;
      imem_hit = leb 18 widx && leb widx 49;
      imem_addr = low_bits (widx - 18) 5;
      sm_hit = leb 50 widx && leb widx 73;
      sm_sel = sm_sel;
      sm_reg = sm_off - 6 * sm_sel;
      aux_hit = leb 74 widx && leb widx 89;
      aux_sel = shr aux_off 2;
      bus_aux_idx = low_bits aux_off 2;
    }

module _ (b : Bus) where
  -- A write to register `reg` of state machine `n`.
  unfoldable pub sm_write : ℕ → ℕ → Bool
  sm_write n reg = b.reg_write && (b.sm_hit && ((b.sm_sel == n) && (b.sm_reg == reg)))

  -- A write of the block register at word `w` with bit `k` of its data set.
  unfoldable pub bit_write : ℕ → ℕ → Bool
  bit_write w k = b.reg_write && ((b.widx == w) && has_bit b.wdata k)

  -- The data byte of a write to the block register at word `w`.
  unfoldable pub byte_write : ℕ → ℕ
  byte_write w = if b.reg_write && (b.widx == w) then low_bits b.wdata 8 else 0

  -- The arguments of `edge` for state machine `n`.
  unfoldable pub edge_in : Bool → ℕ → EdgeIn
  unfolding sm_write bit_write
  edge_in sm_en n = record {
    sm_en = sm_en;
    sm_restart = bit_write 0 (4 + n);
    clkdiv_restart = bit_write 0 (8 + n);
    clkdiv_we = sm_write n 0;
    execctrl_we = sm_write n 1;
    shiftctrl_we = sm_write n 2;
    pinctrl_we = sm_write n 5;
    force_we = sm_write n 4;
    wdata = b.wdata;
    sys_tx_wr = b.reg_write && (b.widx == 4 + n);
    sys_rx_rd = b.reg_read && (b.widx == 8 + n);
    sys_aux_wr = b.reg_write && (b.aux_hit && (b.aux_sel == n));
    bus_aux_idx = b.bus_aux_idx;
    clr_tx_stall = bit_write 2 (24 + n);
    clr_rx_stall = bit_write 2 (0 + n);
    clr_tx_over = bit_write 2 (16 + n);
    clr_rx_under = bit_write 2 (8 + n);
  }
