-- ===== src/Model/Block/Read.antt =====
-- The status words and the register read of `step`.
use vibe_pio.Base.{
  ℕ, ◌+◌, ◌-◌, ◌*◌, Bool, not, ◌&&◌, ◌||◌, ◌==◌, leb, if◌then◌else◌, bool_int, shl, low_bits,
  bit_or, get_or, at, fold_four,
}
use vibe_pio.Model.Slice.{Slice}
use vibe_pio.Model.Config.{fifo_depths}
use vibe_pio.Model.Comb.View.{tx_empty, rx_full}
use vibe_pio.Model.Block.Registers.{Block}
use vibe_pio.Model.Block.Bus.{Bus}

unfoldable pub tx_full : Slice → Bool
tx_full s = (fifo_depths s).tx_depth == 0 || leb (fifo_depths s).tx_depth s.tx_level

unfoldable pub rx_empty : Slice → Bool
rx_empty s = (fifo_depths s).rx_depth == 0 || s.rx_level == 0

-- Four status bits of state machine `n`, in the layout shared by FSTAT and FDEBUG.
abbrev pub status_bits : ℕ → Bool → Bool → Bool → Bool → ℕ
status_bits n top high mid low =
    bit_or
      (bit_or (bit_or (shl (bool_int top) (24 + n)) (shl (bool_int high) (16 + n)))
        (shl (bool_int mid) (8 + n)))
      (shl (bool_int low) n)

unfoldable pub fstat : Block → ℕ
fstat b =
    fold_four
      (λ acc n s. bit_or acc (status_bits n (tx_empty s) (tx_full s) (rx_empty s) (rx_full s))) 0
      b.sms

unfoldable pub fdebug : Block → ℕ
fdebug b =
    fold_four
      (λ acc n s.
        bit_or acc (status_bits n s.fdbg_tx_stall s.fdbg_tx_over s.fdbg_rx_under s.fdbg_rx_stall))
      0 b.sms

unfoldable pub flevel : Block → ℕ
flevel b =
    fold_four
      (λ acc n s.
        bit_or acc
          (bit_or (shl (low_bits s.tx_level 4) (8 * n)) (shl (low_bits s.rx_level 4) (8 * n + 4))))
      0 b.sms

unfoldable pub intr : Block → ℕ → ℕ
intr b flags_now =
    low_bits
      (fold_four
        (λ acc n s.
          bit_or acc (
            bit_or (shl (bool_int (not (tx_full s))) (4 + n))
              (shl (bool_int (not (rx_empty s))) n)))
        (shl flags_now 8) b.sms)
      16

-- EXECCTRL with the stalled bit of a forced instruction over its bit 31.
unfoldable pub execctrl_rb : Slice → ℕ
execctrl_rb s = bit_or (low_bits s.execctrl_r 31) (if s.forced_stall_r then 0x80000000 else 0)

unfoldable pub sm_rdata : Block → Slice → ℕ → ℕ
sm_rdata b s reg =
    if reg == 0
    then s.clkdiv_r
    else if reg == 1
    then execctrl_rb s
    else if reg == 2
    then s.shiftctrl_r
    else if reg == 3
    then s.pc_r
    else if reg == 4
    then get_or b.imem s.pc_r 0
    else s.pinctrl_r

unfoldable pub rdata : Block → Bus → ℕ → ℕ
rdata b bus flags_now =
    let w = bus.widx in
    if w == 0
    then low_bits b.ctrl_r 4
    else if w == 1
    then fstat b
    else if w == 2
    then fdebug b
    else if w == 3
    then flevel b
    else if leb 8 w && leb w 11
    then (let s = at b.sms (w - 8) in get_or s.rx_mem s.rx_head 0)
    else if w == 12
    then flags_now
    else if w == 14
    then b.isb_r
    else if w == 15
    then b.gpio_lvl_r
    else if w == 16
    then b.gpio_oe_r
    else if w == 17
    then 0x10200404
    else if bus.sm_hit
    then sm_rdata b (at b.sms bus.sm_sel) bus.sm_reg
    else if bus.aux_hit
    then get_or (at b.sms bus.aux_sel).rx_mem bus.bus_aux_idx 0
    else 0
