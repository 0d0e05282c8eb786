-- ===== src/Model/Comb/View.antt =====
-- What `comb` reads of the FIFOs, the status selector, and the conditions of JMP and WAIT, with the
-- operand of MOV.
use vibe_pio.Base.{
  ℕ, ◌+◌, ◌*◌, Bool, true, false, not, ◌&&◌, ◌||◌, ◌==◌, ltb, leb, if◌then◌else◌, shr, low_bits,
  m32, and_not, get_or,
}
use vibe_pio.Encoding.Split.{bit}
use vibe_pio.Encoding.Decode.{Decoded, get}
use vibe_pio.Encoding.Tables.{
  jc_always, jc_notx, jc_xdec, jc_noty, jc_ydec, jc_xney, jc_pin, wsrc_gpio, wsrc_pin, wsrc_irq,
  movs_pins, movs_x, movs_y, movs_null, movs_isr, movs_osr, mop_inv, mop_rev,
}
use vibe_pio.Model.Word.{bitrev32}
use vibe_pio.Model.Slice.{Slice, FifoMode, txrx, rx, txput, txget, putget}
use vibe_pio.Model.Config.{
  fifo_mode, fifo_depths, autopull, autopush, pull_thresh, push_thresh, status_sel, status_n,
  jmp_pin, flag_rd,
}
use vibe_pio.Model.Comb.Tick.{CombIn, wsrc, widx5}

-- `(v - 1) & M32`
abbrev pub dec32 : ℕ → ℕ
dec32 v = low_bits (v + m32) 32

unfoldable pub tx_queue_mode : FifoMode → Bool
tx_queue_mode rx = false
tx_queue_mode putget = false
tx_queue_mode _ = true

unfoldable pub rx_queue_mode : FifoMode → Bool
rx_queue_mode txrx = true
rx_queue_mode rx = true
rx_queue_mode _ = false

unfoldable pub put_mode : FifoMode → Bool
put_mode txput = true
put_mode putget = true
put_mode _ = false

unfoldable pub get_mode : FifoMode → Bool
get_mode txget = true
get_mode putget = true
get_mode _ = false

module _ (s : Slice) where
  unfoldable pub tx_empty : Bool
  tx_empty = (fifo_depths s).tx_depth == 0 || s.tx_level == 0

  unfoldable pub rx_full : Bool
  rx_full = (fifo_depths s).rx_depth == 0 || leb (fifo_depths s).rx_depth s.rx_level

  unfoldable pub pull_thr : ℕ
  pull_thr = if pull_thresh s == 0 then 32 else pull_thresh s

  unfoldable pub push_thr : ℕ
  push_thr = if push_thresh s == 0 then 32 else push_thresh s

  unfoldable pub rx_queue : Bool
  rx_queue = rx_queue_mode (fifo_mode s)

  unfoldable pub put_ok : Bool
  put_ok = put_mode (fifo_mode s)

  unfoldable pub get_ok : Bool
  get_ok = get_mode (fifo_mode s)

  unfoldable pub ap_on : Bool
  ap_on = autopull s && tx_queue_mode (fifo_mode s)

  unfoldable pub aph_on : Bool
  unfolding rx_queue
  aph_on = autopush s && rx_queue

  unfoldable pub osre : Bool
  osre = leb pull_thr s.osr_cnt_r

  unfoldable pub tx_head_data : ℕ
  tx_head_data = get_or s.tx_mem s.tx_head 0

module _ (s : Slice) (c : CombIn) where
  -- The MOV source STATUS, by the selector.
  unfoldable pub status_val : ℕ
  status_val =
      let n = status_n s in
      if status_sel s == 0
      then (if ltb s.tx_level n then m32 else 0)
      else if status_sel s == 1
      then (if ltb s.rx_level n then m32 else 0)
      else if status_sel s == 2
      then (if flag_rd s c.views (bit n 4 * 2 + bit n 3) (low_bits n 3) == 0 then 0 else m32)
      else 0

module _ (s : Slice) (c : CombIn) (d : Decoded) where
  unfoldable pub jmp_taken : Bool
  jmp_taken =
      let cond = get d.jmp_cond 0 in
      if s.mut.jmp_postdec && (cond == jc_xdec || cond == jc_ydec)
      then not (dec32 (if cond == jc_xdec then s.x_r else s.y_r) == 0)
      else if cond == jc_always
      then true
      else if cond == jc_notx
      then s.x_r == 0
      else if cond == jc_xdec
      then not (s.x_r == 0)
      else if cond == jc_noty
      then s.y_r == 0
      else if cond == jc_ydec
      then not (s.y_r == 0)
      else if cond == jc_xney
      then not (s.x_r == s.y_r)
      else if cond == jc_pin
      then not (bit c.gpio_seen (jmp_pin s) == 0)
      else not (osre s)

  unfoldable pub wait_cond : Bool
  wait_cond =
      let w = widx5 d in
      let wait_pin =
        if wsrc d == wsrc_gpio
        then bit c.gpio_seen w
        else if wsrc d == wsrc_pin
        then bit c.in_bus w
        else if wsrc d == wsrc_irq
        then flag_rd s c.views (low_bits (shr w 3) 2) (low_bits w 3)
        else bit c.gpio_seen (low_bits (jmp_pin s + low_bits w 2) 5) in
      wait_pin == get d.wait_pol 1

  unfoldable pub mov_src_val : ℕ
  mov_src_val =
      let msrc = get d.mov_src 0 in
      if msrc == movs_pins
      then c.in_bus
      else if msrc == movs_x
      then s.x_r
      else if msrc == movs_y
      then s.y_r
      else if msrc == movs_null
      then 0
      else if msrc == movs_isr
      then s.isr_r
      else if msrc == movs_osr
      then s.osr_r
      else status_val s c

  unfoldable pub mov_result : ℕ
  mov_result =
      let mop = get d.mov_op 0 in
      if mop == mop_inv
      then and_not m32 mov_src_val
      else if mop == mop_rev
      then bitrev32 mov_src_val
      else mov_src_val
