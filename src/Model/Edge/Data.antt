-- ===== src/Model/Edge/Data.antt =====
-- The shifter, FIFO and debug-sticky groups of `edge`.
use vibe_pio.Base.{
  ℕ, ◌+◌, ◌-◌, Bool, true, false, not, ◌&&◌, ◌==◌, ltb, if◌then◌else◌, bool_int, low_bits, List,
  set,
}
use vibe_pio.Model.Slice.{Slice, txget, mode_eq}
use vibe_pio.Model.Config.{fifo_mode, fifo_depths}
use vibe_pio.Model.Comb.Bundle.{Comb}
use vibe_pio.Model.Edge.Control.{EdgeIn}

unfoldable pub shift_edge : Comb → Slice → Slice
shift_edge c s =
    if c.tick.tick_any
    then record s {
      osr_r =
          if c.osr_load.en
          then low_bits c.osr_load.value 32
          else if c.out_en
          then c.osr_shifted
          else s.osr_r;
      osr_cnt_r =
          if c.osr_load.en
          then low_bits c.osr_load.cnt 6
          else if c.out_en
          then c.osr_cnt_sat
          else s.osr_cnt_r;
      isr_r =
          if c.isr_load.en
          then low_bits c.isr_load.value 32
          else if c.in_en
          then low_bits c.isr_next_in 32
          else s.isr_r;
      isr_cnt_r =
          if c.isr_load.en
          then low_bits c.isr_load.cnt 6
          else if c.in_en
          then c.isr_cnt_sat
          else s.isr_cnt_r;
    }
    else s

module _ (c : Comb) (i : EdgeIn) (s : Slice) where
  -- The queue operations that are accepted, by the depths of the mode configured by now.
  unfoldable pub rx_queue_wr : Bool
  rx_queue_wr =
      c.tick.tick_any
      && (c.rx_push
          && (not ((fifo_depths s).rx_depth == 0) && ltb s.rx_level (fifo_depths s).rx_depth))

  unfoldable pub rx_queue_rd : Bool
  rx_queue_rd = i.sys_rx_rd && (not ((fifo_depths s).rx_depth == 0) && not (s.rx_level == 0))

  unfoldable pub tx_wr : Bool
  tx_wr =
      i.sys_tx_wr
      && (not ((fifo_depths s).tx_depth == 0) && ltb s.tx_level (fifo_depths s).tx_depth)

  unfoldable pub tx_rd : Bool
  tx_rd =
      c.tick.tick_any
      && (c.tx_pop && (not ((fifo_depths s).tx_depth == 0) && not (s.tx_level == 0)))

  unfoldable pub rx_mem_next : List ℕ
  unfolding rx_queue_wr
  rx_mem_next =
      if rx_queue_wr
      then set s.rx_mem s.rx_tail (low_bits c.rx_push_data 32)
      else if c.aux_put_en
      then set s.rx_mem (low_bits c.aux_idx 2) (low_bits s.isr_r 32)
      else if i.sys_aux_wr && mode_eq (fifo_mode s) txget
      then set s.rx_mem i.bus_aux_idx (low_bits i.wdata 32)
      else s.rx_mem

-- `(p + 1) & 7`
abbrev pub next_slot : ℕ → ℕ
next_slot p = low_bits (p + 1) 3

unfoldable pub fifo_flush : Comb → Slice → Slice
fifo_flush c s = record s {
  mode_r = c.fm_pre;
  tx_head = 0;
  tx_tail = 0;
  tx_level = 0;
  rx_head = 0;
  rx_tail = 0;
  rx_level = 0;
}

-- A level never falls below 0: a queue is read only at a level above 0.
unfoldable pub fifo_ops : Comb → EdgeIn → Slice → Slice
fifo_ops c i s = record s {
  mode_r = c.fm_pre;
  tx_mem = if tx_wr c i s then set s.tx_mem s.tx_tail i.wdata else s.tx_mem;
  tx_tail = if tx_wr c i s then next_slot s.tx_tail else s.tx_tail;
  tx_head = if tx_rd c i s then next_slot s.tx_head else s.tx_head;
  tx_level = s.tx_level + bool_int (tx_wr c i s) - bool_int (tx_rd c i s);
  rx_mem = rx_mem_next c i s;
  rx_tail = if rx_queue_wr c i s then next_slot s.rx_tail else s.rx_tail;
  rx_head = if rx_queue_rd c i s then next_slot s.rx_head else s.rx_head;
  rx_level = s.rx_level + bool_int (rx_queue_wr c i s) - bool_int (rx_queue_rd c i s);
}

unfoldable pub fifo_edge : Comb → EdgeIn → Slice → Slice
fifo_edge c i s = if c.flush then fifo_flush c s else fifo_ops c i s

-- One sticky: clearing beats setting.
abbrev pub sticky : Bool → Bool → Bool → Bool
sticky clr req old = if clr then false else if req then true else old

-- The debug stickies. `before` holds the levels from which the source took the accepted queue
-- operations, ahead of the queue updates.
unfoldable pub sticky_edge : Comb → EdgeIn → Slice → Slice → Slice
sticky_edge c i before s = record s {
  fdbg_tx_stall = sticky i.clr_tx_stall (c.tx_stall_req && c.tick.tick_any) s.fdbg_tx_stall;
  fdbg_rx_stall = sticky i.clr_rx_stall (c.rx_stall_req && c.tick.tick_any) s.fdbg_rx_stall;
  fdbg_tx_over = sticky i.clr_tx_over (i.sys_tx_wr && not (tx_wr c i before)) s.fdbg_tx_over;
  fdbg_rx_under =
      sticky i.clr_rx_under (i.sys_rx_rd && not (rx_queue_rd c i before)) s.fdbg_rx_under;
}
