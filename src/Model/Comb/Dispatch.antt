-- ===== src/Model/Comb/Dispatch.antt =====
-- The shifter and FIFO dispatch of `comb`: refills of the OSR, pushes from the ISR, the FIFO-aux
-- accesses, and the requests for the debug stickies.
use vibe_pio.Base.{ℕ, Bool, not, ◌&&◌, ◌||◌, if◌then◌else◌, low_bits, get_or}
use vibe_pio.Encoding.Decode.{Decoded, get}
use vibe_pio.Encoding.Tables.{outd_isr, movd_isr, movd_osr}
use vibe_pio.Model.Slice.{Slice}
use vibe_pio.Model.Comb.Tick.{CombIn, Tick}
use vibe_pio.Model.Comb.View.{
  tx_empty, rx_full, rx_queue, ap_on, aph_on, put_ok, get_ok, tx_head_data, mov_result,
}
use vibe_pio.Model.Comb.Shift.{
  out_count, out_data, autopull_ge_thr, autopull_post_thr, autopush_req, isr_next_in,
}
use vibe_pio.Model.Comb.Stall.{flag, done, out_ap_ge, push_guard, pull_guard, pull_fence}
use vibe_pio.Model.Comb.Writes.{out_to, mov_to}

-- A register load: whether it happens, the word and its bit count.
pub record Load : Type 0 where
  pub en : Bool
  pub value : ℕ
  pub cnt : ℕ

module _ (s : Slice) (c : CombIn) (t : Tick) (d : Decoded) where
  unfoldable pub ap_ge_refill : Bool
  ap_ge_refill = out_ap_ge s c t d && not (tx_empty s)

  unfoldable pub ap_post_refill : Bool
  ap_post_refill =
      done s c t d && (d.is_out && (ap_on s && (autopull_post_thr s d && not (tx_empty s))))

  -- The background refill of an instruction that is no OUT and does not load the OSR itself.
  unfoldable pub ap_bg : Bool
  ap_bg =
      (t.m_exec && not d.illegal)
      && ((not d.is_out && ap_on s)
          && ((autopull_ge_thr s d && not (tx_empty s))
              && not (d.is_pull || ((d.is_get && get_ok s) || mov_to d movd_osr))))

  -- A PULL that is not held back by its threshold.
  abbrev pub pull_runs : Bool
  pull_runs = d.is_pull && (pull_guard s c t d && pull_fence s c t d)

  unfoldable pub pull_load : Bool
  pull_load = done s c t d && (pull_runs && not (tx_empty s))

  unfoldable pub pull_fallb : Bool
  pull_fallb = done s c t d && (pull_runs && (not (flag (get d.pull_blk 1)) && tx_empty s))

  unfoldable pub get_en : Bool
  get_en = done s c t d && (d.is_get && get_ok s)

  unfoldable pub mov_osr : Bool
  mov_osr = done s c t d && mov_to d movd_osr

  unfoldable pub aux_idx : ℕ
  aux_idx = if flag (get d.aux_idxi 0) then get d.aux_index 0 else low_bits s.y_r 2

  unfoldable pub aux_put : Bool
  aux_put = done s c t d && (d.is_put && put_ok s)

  unfoldable pub out_en : Bool
  out_en = done s c t d && d.is_out

  -- The loads of the OSR from the head of the TX queue; each of them pops it.
  unfoldable pub tx_pop : Bool
  unfolding pull_load ap_ge_refill ap_post_refill ap_bg
  tx_pop = pull_load || (ap_ge_refill || (ap_post_refill || ap_bg))

  unfoldable pub osr_load : Load
  unfolding tx_pop pull_fallb get_en mov_osr aux_idx
  osr_load = record {
    en = t.m_restart || (tx_pop || (pull_fallb || (get_en || mov_osr)));
    value =
        if t.m_restart
        then s.osr_r
        else if tx_pop
        then tx_head_data s
        else if pull_fallb
        then s.x_r
        else if get_en
        then get_or s.rx_mem aux_idx 0
        else mov_result s c d;
    cnt = if t.m_restart then 32 else 0;
  }

  unfoldable pub in_en : Bool
  in_en = done s c t d && d.is_in

  unfoldable pub in_ap : Bool
  in_ap = done s c t d && (d.is_in && (aph_on s && (autopush_req s d && not (rx_full s))))

  unfoldable pub push_do : Bool
  push_do = done s c t d && (d.is_push && (rx_queue s && push_guard s c t d))

  unfoldable pub rx_push : Bool
  unfolding in_ap push_do
  rx_push = in_ap || (push_do && not (rx_full s))

  unfoldable pub rx_push_data : ℕ
  rx_push_data = if d.is_push then s.isr_r else isr_next_in s c d

  unfoldable pub isr_load : Load
  unfolding in_ap push_do
  isr_load =
      let out_isr = done s c t d && out_to d outd_isr in
      let mov_isr = done s c t d && mov_to d movd_isr in
      record {
        en = t.m_restart || (in_ap || (push_do || (out_isr || mov_isr)));
        value =
            if t.m_restart
            then 0
            else if out_isr
            then out_data s d
            else if mov_isr
            then mov_result s c d
            else 0;
        cnt = if t.m_restart then 0 else if out_isr then out_count d else 0;
      }

  unfoldable pub tx_stall_req : Bool
  tx_stall_req =
      ((t.m_exec && not d.illegal) && (pull_runs && (flag (get d.pull_blk 1) && tx_empty s)))
      || (out_ap_ge s c t d && tx_empty s)

  unfoldable pub rx_stall_req : Bool
  unfolding push_do
  rx_stall_req =
      ((t.m_exec && not d.illegal) && (d.is_in && (aph_on s && (autopush_req s d && rx_full s))))
      || (push_do && (not (flag (get d.push_blk 1)) && rx_full s))
