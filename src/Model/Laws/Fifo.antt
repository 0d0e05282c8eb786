-- ===== src/Model/Laws/Fifo.antt =====
-- The two FIFOs of a state machine refine the bounded queue of Model/Laws/Queue.
use vibe_pio.Base.{
  ℕ, zero, suc, ◌+◌, ◌-◌, ◌%◌, ◌<◌, ◌≤◌, ◌≡◌, ◌≢◌, refl, ap, ◌∙◌, Bool, true, false, ◌&&◌, ◌==◌,
  bool_int, if◌then◌else◌, List, [], ◌∷◌, ◌++◌, Option, none, some, arith, length, set, low_bits,
  length-set,
}
use vibe_pio.Model.Slice.{Slice, FifoMode}
use vibe_pio.Model.Config.{depths_of, fifo_mode, fifo_depths}
use vibe_pio.Model.Comb.Bundle.{Comb}
use vibe_pio.Model.Edge.Control.{EdgeIn}
use vibe_pio.Model.Edge.Data.{
  rx_queue_wr, rx_queue_rd, tx_wr, tx_rd, rx_mem_next, fifo_ops, fifo_edge,
}
use vibe_pio.Model.Laws.Ring.{window, length-window, window-push}
use vibe_pio.Model.Laws.Queue.{is_empty, dequeue, queue_cycle}

-- A ring of eight slots whose tail is `level` slots past its head.
pub record IsRing (mem : List ℕ) (head tail level : ℕ) : Type 0 where
  pub slots : length mem ≡ 8
  pub head_in : head < 8
  pub tail_at : tail ≡ (head + level) % 8
  pub level_in : level ≤ 8

-- The words held, oldest first.
abbrev pub tx_words : Slice → List ℕ
tx_words s = window s.tx_mem s.tx_head s.tx_level

abbrev pub rx_words : Slice → List ℕ
rx_words s = window s.rx_mem s.rx_head s.rx_level

depth-le : (m : FifoMode) → ((depths_of m).tx_depth ≤ 8) × ((depths_of m).rx_depth ≤ 8)
unfolding depths_of
depth-le m = ground arith

window-is_empty : (mem : List ℕ) (h n : ℕ) → is_empty (window mem h n) ≡ (n == 0)
window-is_empty mem h zero = refl
window-is_empty mem h (suc n) = ground arith

module _ (mem : List ℕ) (h i v : ℕ) where
  -- One cycle of a ring, by what is accepted.
  ring_cycle :
      (wr rd : Bool) (n : ℕ)
      → IsRing mem h i n
      → (rd ≡ true → n ≢ 0)
      → (wr ≡ true → n < 8)
      → window
          (if wr then set mem i v else mem)
          (if rd then (h + 1) % 8 else h)
          (n + bool_int wr - bool_int rd)
        ≡ dequeue rd (if wr then window mem h n ++ (v ∷ []) else window mem h n)
  ring_cycle false false n r p q = ap (window mem h) (omega arith)
  ring_cycle true false n r p q =
      ap (window (set mem i v) h) {y = suc n} (omega arith)
      ∙ window-push mem v h n i r.slots r.head_in (q refl) r.tail_at
  ring_cycle wr true zero r p q = absurd (p refl refl)
  ring_cycle false true (suc n) r p q = ap (window mem ((h + 1) % 8)) (omega arith)
  ring_cycle true true (suc n) r p q =
      ap (window (set mem i v) ((h + 1) % 8)) {y = suc n} (omega arith)
      ∙ window-push mem v ((h + 1) % 8) n i r.slots (omega arith) (omega (arith, q refl))
          (omega (arith, r.tail_at))

  IsRing-kept :
      (wr rd : Bool) (n : ℕ)
      → IsRing mem h i n
      → (rd ≡ true → n ≢ 0)
      → (wr ≡ true → n < 8)
      → IsRing
          (if wr then set mem i v else mem)
          (if rd then (h + 1) % 8 else h)
          (if wr then (i + 1) % 8 else i)
          (n + bool_int wr - bool_int rd)
  IsRing-kept wr rd n r p q = ground (arith, length-set mem i v, p, q)

level_kept :
    (wr rd : Bool) {n depth : ℕ}
    → n ≤ depth
    → (wr ≡ true → n < depth)
    → n + bool_int wr - bool_int rd ≤ depth
level_kept wr rd h q = ground (arith, q)

fifo_edge-ops :
    (c : Comb) (i : EdgeIn) (s : Slice) → c.flush ≡ false → fifo_edge c i s ≡ fifo_ops c i s
unfolding fifo_edge
fifo_edge-ops c i s f = ground arith

module _ (c : Comb) (i : EdgeIn) (s : Slice) where
  -- What the bus writes to the TX FIFO, and whether the state machine pops it.
  abbrev pub tx_put : Option ℕ
  tx_put = if i.sys_tx_wr then some i.wdata else none

  abbrev pub tx_take : Bool
  tx_take = c.tick.tick_any && c.tx_pop

  abbrev accepted_tx : List ℕ → List ℕ
  accepted_tx q = dequeue (tx_rd c i s) (if tx_wr c i s then q ++ (i.wdata ∷ []) else q)

  tx_lem :
      s.tx_level ≤ (fifo_depths s).tx_depth
      → accepted_tx (tx_words s) ≡ queue_cycle (fifo_depths s).tx_depth tx_put tx_take (tx_words s)
  unfolding tx_wr tx_rd
  tx_lem h = ground (
    arith,
    length-window s.tx_mem s.tx_head s.tx_level,
    window-is_empty s.tx_mem s.tx_head s.tx_level,
  )

  tx_wr-lt : tx_wr c i s ≡ true → s.tx_level < (fifo_depths s).tx_depth
  unfolding tx_wr
  tx_wr-lt e = ground arith

  tx_rd-ne_zero : tx_rd c i s ≡ true → s.tx_level ≢ 0
  unfolding tx_rd
  tx_rd-ne_zero e = ground arith

  -- Outside a flush, with no more words than the configured depth, the TX FIFO after a cycle holds
  -- what the bounded queue of that depth holds after the same put and take, and is still a ring
  -- within that depth.
  pub tx_refines :
      c.flush ≡ false
      → s.tx_level ≤ (fifo_depths s).tx_depth
      → IsRing s.tx_mem s.tx_head s.tx_tail s.tx_level
      → let s' = fifo_edge c i s in
        (tx_words s' ≡ queue_cycle (fifo_depths s).tx_depth tx_put tx_take (tx_words s))
        × IsRing s'.tx_mem s'.tx_head s'.tx_tail s'.tx_level
        × (s'.tx_level ≤ (fifo_depths s).tx_depth)
  unfolding fifo_ops
  tx_refines f h r = rw (fifo_edge-ops c i s f) (
    ring_cycle s.tx_mem s.tx_head s.tx_tail i.wdata (tx_wr c i s) (tx_rd c i s) s.tx_level r
          tx_rd-ne_zero wr_room
        ∙ tx_lem h,
    IsRing-kept s.tx_mem s.tx_head s.tx_tail i.wdata (tx_wr c i s) (tx_rd c i s) s.tx_level r
        tx_rd-ne_zero wr_room,
    level_kept (tx_wr c i s) (tx_rd c i s) h tx_wr-lt,
  )
    where
      wr_room : tx_wr c i s ≡ true → s.tx_level < 8
      wr_room e = omega (arith, tx_wr-lt e, depth-le (fifo_mode s))

  -- What the state machine pushes to the RX FIFO, and whether the bus reads it.
  abbrev pub rx_put : Option ℕ
  rx_put = if c.tick.tick_any && c.rx_push then some (low_bits c.rx_push_data 32) else none

  abbrev accepted_rx : List ℕ → List ℕ
  accepted_rx q =
      dequeue (rx_queue_rd c i s)
        (if rx_queue_wr c i s then q ++ (low_bits c.rx_push_data 32 ∷ []) else q)

  rx_lem :
      s.rx_level ≤ (fifo_depths s).rx_depth
      → accepted_rx (rx_words s)
        ≡ queue_cycle (fifo_depths s).rx_depth rx_put i.sys_rx_rd (rx_words s)
  unfolding rx_queue_wr rx_queue_rd
  rx_lem h = ground (
    arith,
    length-window s.rx_mem s.rx_head s.rx_level,
    window-is_empty s.rx_mem s.rx_head s.rx_level,
  )

  rx_queue_wr-lt : rx_queue_wr c i s ≡ true → s.rx_level < (fifo_depths s).rx_depth
  unfolding rx_queue_wr
  rx_queue_wr-lt e = ground arith

  rx_queue_rd-ne_zero : rx_queue_rd c i s ≡ true → s.rx_level ≢ 0
  unfolding rx_queue_rd
  rx_queue_rd-ne_zero e = ground arith

  -- In a queue mode the only write to the RX memory is the push.
  rx_mem_of_queue :
      (fifo_depths s).rx_depth ≢ 0
      → c.aux_put_en ≡ false
      → rx_mem_next c i s ≡ (
          if rx_queue_wr c i s
          then set s.rx_mem s.rx_tail (low_bits c.rx_push_data 32)
          else s.rx_mem)
  unfolding rx_mem_next depths_of
  rx_mem_of_queue h a = ground arith

  -- In the modes that make the RX FIFO a queue, outside a flush, with no FIFO-aux write and with
  -- no more words than the configured depth, the RX FIFO after a cycle holds what the bounded
  -- queue of that depth holds after the push of the state machine and the read of the bus, and is
  -- still a ring within that depth.
  pub rx_refines :
      c.flush ≡ false
      → c.aux_put_en ≡ false
      → (fifo_depths s).rx_depth ≢ 0
      → s.rx_level ≤ (fifo_depths s).rx_depth
      → IsRing s.rx_mem s.rx_head s.rx_tail s.rx_level
      → let s' = fifo_edge c i s in
        (rx_words s' ≡ queue_cycle (fifo_depths s).rx_depth rx_put i.sys_rx_rd (rx_words s))
        × IsRing s'.rx_mem s'.rx_head s'.rx_tail s'.rx_level
        × (s'.rx_level ≤ (fifo_depths s).rx_depth)
  unfolding fifo_ops
  rx_refines f a q h r =
      rw (fifo_edge-ops c i s f, rx_mem_of_queue q a)
        (
          ring_cycle s.rx_mem s.rx_head s.rx_tail (low_bits c.rx_push_data 32) (rx_queue_wr c i s)
                (rx_queue_rd c i s) s.rx_level r rx_queue_rd-ne_zero wr_room
              ∙ rx_lem h,
          IsRing-kept s.rx_mem s.rx_head s.rx_tail (low_bits c.rx_push_data 32) (rx_queue_wr c i s)
              (rx_queue_rd c i s) s.rx_level r rx_queue_rd-ne_zero wr_room,
          level_kept (rx_queue_wr c i s) (rx_queue_rd c i s) h rx_queue_wr-lt,
        )
    where
      wr_room : rx_queue_wr c i s ≡ true → s.rx_level < 8
      wr_room e = omega (arith, rx_queue_wr-lt e, depth-le (fifo_mode s))

  -- The RX memory stays a ring whatever is written to it, and holds no more than its depth.
  pub rx-IsRing_kept :
      c.flush ≡ false
      → IsRing s.rx_mem s.rx_head s.rx_tail s.rx_level
      → let s' = fifo_edge c i s in IsRing s'.rx_mem s'.rx_head s'.rx_tail s'.rx_level
  unfolding fifo_ops rx_mem_next
  rx-IsRing_kept f r = rw (fifo_edge-ops c i s f) (
      ground (
        arith,
        length-set s.rx_mem s.rx_tail (low_bits c.rx_push_data 32),
        length-set s.rx_mem (low_bits c.aux_idx 2) (low_bits s.isr_r 32),
        length-set s.rx_mem i.bus_aux_idx (low_bits i.wdata 32),
        rx_queue_wr-lt,
        rx_queue_rd-ne_zero,
        depth-le (fifo_mode s),
      ))

  pub rx_level_kept :
      c.flush ≡ false
      → s.rx_level ≤ (fifo_depths s).rx_depth
      → (fifo_edge c i s).rx_level ≤ (fifo_depths s).rx_depth
  unfolding fifo_ops
  rx_level_kept f h =
      rw (fifo_edge-ops c i s f)
        (level_kept (rx_queue_wr c i s) (rx_queue_rd c i s) h rx_queue_wr-lt)

  pub tx-IsRing_kept :
      c.flush ≡ false
      → IsRing s.tx_mem s.tx_head s.tx_tail s.tx_level
      → let s' = fifo_edge c i s in IsRing s'.tx_mem s'.tx_head s'.tx_tail s'.tx_level
  unfolding fifo_ops
  tx-IsRing_kept f r = rw (fifo_edge-ops c i s f) (
      IsRing-kept s.tx_mem s.tx_head s.tx_tail i.wdata (tx_wr c i s) (tx_rd c i s) s.tx_level r
        tx_rd-ne_zero (λ e. omega (arith, tx_wr-lt e, depth-le (fifo_mode s))))

  pub tx_level_kept :
      c.flush ≡ false
      → s.tx_level ≤ (fifo_depths s).tx_depth
      → (fifo_edge c i s).tx_level ≤ (fifo_depths s).tx_depth
  unfolding fifo_ops
  tx_level_kept f h = rw (fifo_edge-ops c i s f) (level_kept (tx_wr c i s) (tx_rd c i s) h tx_wr-lt)
