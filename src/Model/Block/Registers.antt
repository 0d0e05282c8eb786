-- ===== src/Model/Block/Registers.antt =====
-- The registers of `PIOBlockModel` and their reset. The four parallel lists of sticky records are
-- one list of records; `irq_prev` and `irq_next`, which each step sets anew, are inputs of `step`.
use vibe_pio.Base.{ℕ, Bool, false, List, replicate, Four, each}
use vibe_pio.Model.Slice.{Slice, Mutations, reset}

-- The last OUT or SET pin write of one state machine.
pub record Sticky : Type 0 where
  pub mask : ℕ
  pub lvl : ℕ
  pub dir : ℕ
  pub is_dir : Bool

pub record Block : Type 0 where
  pub mut : Mutations
  pub ctrl_r : ℕ
  pub isb_r : ℕ
  pub imem : List ℕ
  pub flags_r : ℕ
  pub sync1_r : ℕ
  pub sync2_r : ℕ
  pub gpio_lvl_r : ℕ
  pub gpio_oe_r : ℕ
  pub stickies : Four Sticky
  pub sms : Four Slice

unfoldable pub block_reset : Mutations → Block
block_reset mut = record {
  mut = mut;
  ctrl_r = 0;
  isb_r = 0;
  imem = replicate 32 0;
  flags_r = 0;
  sync1_r = 0;
  sync2_r = 0;
  gpio_lvl_r = 0;
  gpio_oe_r = 0;
  stickies = each (λ _. record { mask = 0; lvl = 0; dir = 0; is_dir = false });
  sms = each (λ i. reset i mut);
}
