-- ===== src/Model/Config.antt =====
-- The configuration fields that `_SMSlice` reads from its four bank registers, each a property of
-- the source, with the FIFO mode that they select and the index composition of the IRQ flags.
use vibe_pio.Base.{ℕ, ◌+◌, Bool, not, ◌==◌, if◌then◌else◌, shr, shl, low_bits, bit_or}
use vibe_pio.Encoding.Split.{bit, has_bit}
use vibe_pio.Model.Slice.{Slice, FifoMode, txrx, tx, rx, txput, txget, putget}

unfoldable pub clkdiv_int : Slice → ℕ
clkdiv_int s = low_bits (shr s.clkdiv_r 16) 16

unfoldable pub clkdiv_frac : Slice → ℕ
clkdiv_frac s = low_bits (shr s.clkdiv_r 8) 8

unfoldable pub side_en : Slice → Bool
side_en s = has_bit s.execctrl_r 30

unfoldable pub side_pindir : Slice → Bool
side_pindir s = has_bit s.execctrl_r 29

unfoldable pub jmp_pin : Slice → ℕ
jmp_pin s = low_bits (shr s.execctrl_r 24) 5

unfoldable pub out_sticky_en : Slice → Bool
out_sticky_en s = has_bit s.execctrl_r 17

unfoldable pub wrap_top : Slice → ℕ
wrap_top s = low_bits (shr s.execctrl_r 12) 5

unfoldable pub wrap_bottom : Slice → ℕ
wrap_bottom s = low_bits (shr s.execctrl_r 7) 5

unfoldable pub status_sel : Slice → ℕ
status_sel s = low_bits (shr s.execctrl_r 5) 2

unfoldable pub status_n : Slice → ℕ
status_n s = low_bits s.execctrl_r 5

unfoldable pub fjoin_rx : Slice → Bool
fjoin_rx s = has_bit s.shiftctrl_r 31

unfoldable pub fjoin_tx : Slice → Bool
fjoin_tx s = has_bit s.shiftctrl_r 30

unfoldable pub pull_thresh : Slice → ℕ
pull_thresh s = low_bits (shr s.shiftctrl_r 25) 5

unfoldable pub push_thresh : Slice → ℕ
push_thresh s = low_bits (shr s.shiftctrl_r 20) 5

unfoldable pub out_shift_left : Slice → Bool
out_shift_left s = not (has_bit s.shiftctrl_r 19)

unfoldable pub in_shift_left : Slice → Bool
in_shift_left s = not (has_bit s.shiftctrl_r 18)

unfoldable pub autopull : Slice → Bool
autopull s = has_bit s.shiftctrl_r 17

unfoldable pub autopush : Slice → Bool
autopush s = has_bit s.shiftctrl_r 16

unfoldable pub fjoin_rx_put : Slice → Bool
fjoin_rx_put s = has_bit s.shiftctrl_r 15

unfoldable pub fjoin_rx_get : Slice → Bool
fjoin_rx_get s = has_bit s.shiftctrl_r 14

unfoldable pub in_mask_count : Slice → ℕ
in_mask_count s = low_bits s.shiftctrl_r 5

unfoldable pub sideset_count : Slice → ℕ
sideset_count s = low_bits (shr s.pinctrl_r 29) 3

unfoldable pub set_count : Slice → ℕ
set_count s = low_bits (shr s.pinctrl_r 26) 3

unfoldable pub out_count : Slice → ℕ
out_count s = low_bits (shr s.pinctrl_r 20) 6

unfoldable pub in_base : Slice → ℕ
in_base s = low_bits (shr s.pinctrl_r 15) 5

unfoldable pub sideset_base : Slice → ℕ
sideset_base s = low_bits (shr s.pinctrl_r 10) 5

unfoldable pub set_base : Slice → ℕ
set_base s = low_bits (shr s.pinctrl_r 5) 5

unfoldable pub out_base : Slice → ℕ
out_base s = low_bits s.pinctrl_r 5

unfoldable pub fifo_mode : Slice → FifoMode
fifo_mode s =
    if fjoin_rx_put s
    then (if fjoin_rx_get s then putget else txput)
    else if fjoin_rx_get s
    then txget
    else if fjoin_tx s
    then tx
    else if fjoin_rx s
    then rx
    else txrx

pub record Depths : Type 0 where
  pub tx_depth : ℕ
  pub rx_depth : ℕ

-- `fifo_depths`, by the mode that `fifo_mode` gives.
unfoldable pub depths_of : FifoMode → Depths
depths_of tx = record { tx_depth = 8; rx_depth = 0 }
depths_of rx = record { tx_depth = 0; rx_depth = 8 }
depths_of txput = record { tx_depth = 4; rx_depth = 0 }
depths_of txget = record { tx_depth = 4; rx_depth = 0 }
depths_of putget = record { tx_depth = 4; rx_depth = 0 }
depths_of txrx = record { tx_depth = 4; rx_depth = 4 }

abbrev pub fifo_depths : Slice → Depths
fifo_depths s = depths_of (fifo_mode s)

-- `(idx & 4) | ((idx + self.sm_id) & 3)`
unfoldable pub rel_index : Slice → ℕ → ℕ
rel_index s idx =
    if s.mut.irq_rel_off
    then low_bits idx 3
    else bit_or (shl (bit idx 2) 2) (low_bits (idx + s.sm_id) 2)

-- The flag registers that a state machine can see: its own block's and its two neighbours'.
pub record FlagViews : Type 0 where
  pub flags : ℕ
  pub irq_prev : ℕ
  pub irq_next : ℕ

unfoldable pub flag_rd : Slice → FlagViews → ℕ → ℕ → ℕ
flag_rd s v mode idx =
    if mode == 0
    then bit v.flags idx
    else if mode == 1
    then bit v.irq_prev idx
    else if mode == 2
    then bit v.flags (rel_index s idx)
    else bit v.irq_next idx
