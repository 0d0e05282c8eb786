-- ===== src/Model/Block/Pads.antt =====
-- The output resolution of `step`: the order in which the state machines' writes land on the pads,
-- and the sticky records.
use vibe_pio.Base.{ℕ, not, ◌&&◌, if◌then◌else◌, low_bits, bit_or, and_not, Four, at}
use vibe_pio.Model.Slice.{Slice}
use vibe_pio.Model.Config.{out_sticky_en}
use vibe_pio.Model.Comb.Bundle.{Comb}
use vibe_pio.Model.Block.Registers.{Sticky, Block}

-- `lvl_next` and `oe_next`
pub record Pads : Type 0 where
  pub lvl : ℕ
  pub oe : ℕ

-- `((old & ~mask) | data) & M32`
unfoldable pub write_masked : ℕ → ℕ → ℕ → ℕ
write_masked old mask value = low_bits (bit_or (and_not old mask) value) 32

-- One round of the loop: the sticky write, then OUT or SET, then side-set.
unfoldable pub write_pads : Slice → Sticky → Comb → Pads → Pads
write_pads s k c p =
    let sticky_lvl =
      if out_sticky_en s && not k.is_dir then write_masked p.lvl k.mask k.lvl else p.lvl in
    let sticky_oe = if out_sticky_en s && k.is_dir then write_masked p.oe k.mask k.dir else p.oe in
    record {
      lvl =
          write_masked (write_masked sticky_lvl c.os_write.lvl_mask c.os_write.lvl_data)
            c.ss_write.lvl_mask c.ss_write.lvl_data;
      oe =
          write_masked (write_masked sticky_oe c.os_write.dir_mask c.os_write.dir_data)
            c.ss_write.dir_mask c.ss_write.dir_data;
    }

unfoldable pub pads_round : Block → Four Comb → ℕ → Pads → Pads
pads_round b combs n p = write_pads (at b.sms n) (at b.stickies n) (at combs n) p

-- The loop over `order`.
unfoldable pub pads_next : Block → Four Comb → Pads
pads_next b combs =
    let round = pads_round b combs in
    let start : Pads = record { lvl = b.gpio_lvl_r; oe = b.gpio_oe_r } in
    if b.mut.gpio_pri_low
    then round 0 (round 1 (round 2 (round 3 start)))
    else round 3 (round 2 (round 1 (round 0 start)))

unfoldable pub sticky_next : Comb → Sticky → Sticky
sticky_next c k =
    if c.sticky_wr
    then record {
      mask = bit_or c.os_write.lvl_mask c.os_write.dir_mask;
      lvl = if c.sticky_isdir_next then k.lvl else c.os_write.lvl_data;
      dir = if c.sticky_isdir_next then c.os_write.dir_data else k.dir;
      is_dir = c.sticky_isdir_next;
    }
    else k
