-- ===== src/Model/Comb/Stall.antt =====
-- The stall evaluation of `comb`: whether the instruction of this tick completes.
use vibe_pio.Base.{ℕ, Bool, false, not, ◌&&◌, ◌||◌, ◌==◌, leb, if◌then◌else◌}
use vibe_pio.Encoding.Decode.{Decoded, get}
use vibe_pio.Model.Slice.{Slice}
use vibe_pio.Model.Config.{flag_rd, autopull}
use vibe_pio.Model.Comb.Tick.{CombIn, Tick}
use vibe_pio.Model.Comb.View.{
  tx_empty, rx_full, pull_thr, push_thr, rx_queue, ap_on, aph_on, wait_cond,
}
use vibe_pio.Model.Comb.Shift.{autopull_ge_thr, autopush_req}

-- `d.get(key, default)` as a test.
abbrev pub flag : ℕ → Bool
flag v = not (v == 0)

module _ (s : Slice) (c : CombIn) (t : Tick) (d : Decoded) where
  unfoldable pub push_guard : Bool
  push_guard = not (flag (get d.push_iff 0)) || leb (push_thr s) s.isr_cnt_r

  unfoldable pub pull_guard : Bool
  pull_guard = not (flag (get d.pull_ife 0)) || leb (pull_thr s) s.osr_cnt_r

  unfoldable pub pull_fence : Bool
  pull_fence = not (autopull s) || leb (pull_thr s) s.osr_cnt_r

  unfoldable pub irqw_rel : Bool
  irqw_rel =
      s.irqw_wait_r && not (flag (flag_rd s c.views (get d.irq_idxmode 0) (get d.irq_index 0)))

  -- An OUT at the autopull threshold.
  unfoldable pub out_ap_ge : Bool
  out_ap_ge = t.m_exec && (d.is_out && (not d.illegal && (ap_on s && autopull_ge_thr s d)))

  -- An IRQ that waits for its flag.
  abbrev pub irq_waits : Bool
  irq_waits = d.is_irq && (flag (get d.irq_wait 0) && not (flag (get d.irq_clr 0)))

  unfoldable pub stall : Bool
  unfolding push_guard pull_guard pull_fence irqw_rel out_ap_ge
  stall =
      if not (t.m_exec && not d.illegal)
      then false
      else if d.is_wait
      then not (wait_cond s c d)
      else if irq_waits
      then not irqw_rel
      else if d.is_push
      then push_guard && (flag (get d.push_blk 1) && (rx_full s && rx_queue s))
      else if d.is_pull
      then pull_guard && (pull_fence && (flag (get d.pull_blk 1) && tx_empty s))
      else if d.is_out
      then (if s.mut.cc11_no_stall then false else out_ap_ge)
      else if d.is_in
      then aph_on s && (autopush_req s d && rx_full s)
      else false

  unfoldable pub compl : Bool
  unfolding stall
  compl = t.m_exec && not stall

  -- `compl and not d["illegal"]`
  unfoldable pub done : Bool
  unfolding compl
  done = compl && not d.illegal
