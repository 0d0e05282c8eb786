-- ===== src/Model/Comb/Pins.antt =====
-- The GPIO write bundles of `comb`, and its IRQ clear request.
use vibe_pio.Base.{ℕ, ◌-◌, Bool, not, ◌&&◌, ◌||◌, ◌==◌, if◌then◌else◌, bool_int, bit_and}
use vibe_pio.Encoding.Decode.{Decoded, get}
use vibe_pio.Encoding.Tables.{
  wsrc_irq, outd_pins, outd_pindirs, movd_pins, movd_pindirs, setd_pins, setd_pindirs,
}
use vibe_pio.Model.Word.{rol32, place_mask}
use vibe_pio.Model.Slice.{Slice}
use vibe_pio.Model.Config.{
  side_en, side_pindir, sideset_count, sideset_base, set_count, set_base, out_base,
}
use vibe_pio.Model.Config
use vibe_pio.Model.Comb.Tick.{CombIn, Tick, wsrc}
use vibe_pio.Model.Comb.View.{mov_result}
use vibe_pio.Model.Comb.Shift.{out_data}
use vibe_pio.Model.Comb.Stall.{flag, done}
use vibe_pio.Model.Comb.Writes.{out_to, mov_to, set_to}

-- A masked write of levels and one of directions: data bits count where the mask has a bit.
pub record PinWrite : Type 0 where
  pub lvl_mask : ℕ
  pub lvl_data : ℕ
  pub dir_mask : ℕ
  pub dir_data : ℕ

abbrev pub no_write : PinWrite
no_write = record { lvl_mask = 0; lvl_data = 0; dir_mask = 0; dir_data = 0 }

-- `m, data & m` go to the directions or to the levels.
unfoldable pub masked_write : Bool → ℕ → ℕ → PinWrite
masked_write is_dir m value =
    if is_dir
    then record { lvl_mask = 0; lvl_data = 0; dir_mask = m; dir_data = bit_and value m }
    else record { lvl_mask = m; lvl_data = bit_and value m; dir_mask = 0; dir_data = 0 }

module _ (s : Slice) (c : CombIn) (t : Tick) (d : Decoded) where
  unfoldable pub gpio_ss_valid : Bool
  gpio_ss_valid = (s.mut.ss_opt_ignored && not (sideset_count s == 0)) || d.ss_valid

  unfoldable pub gpio_ss_bits : ℕ
  gpio_ss_bits =
      if s.mut.ss_opt_ignored && not (sideset_count s == 0)
      then sideset_count s - bool_int (side_en s)
      else d.ss_bits

  unfoldable pub gpio_out_we : Bool
  gpio_out_we =
      done s c t d
      && ((out_to d outd_pins || out_to d outd_pindirs)
          || (mov_to d movd_pins || mov_to d movd_pindirs))

  unfoldable pub gpio_out_pindir : Bool
  gpio_out_pindir =
      if d.is_out then get d.out_dst 0 == outd_pindirs else get d.mov_dst 0 == movd_pindirs

  unfoldable pub gpio_set_we : Bool
  gpio_set_we = done s c t d && (set_to d setd_pins || set_to d setd_pindirs)

  unfoldable pub irq_clr_req : Bool
  irq_clr_req =
      done s c t d
      && ((d.is_irq && flag (get d.irq_clr 0))
          || (d.is_wait && ((wsrc d == wsrc_irq) && flag (get d.wait_pol 1))))

  -- The OUT, MOV or SET write.
  unfoldable pub os_write : PinWrite
  unfolding gpio_out_we gpio_out_pindir gpio_set_we
  os_write =
      if gpio_out_we
      then masked_write gpio_out_pindir (place_mask (out_base s) (Config.out_count s))
          (rol32 (if d.is_out then out_data s d else mov_result s c d) (out_base s))
      else if gpio_set_we && not (set_count s == 0)
      then masked_write (get d.set_dst 0 == setd_pindirs) (place_mask (set_base s) (set_count s))
          (rol32 (get d.set_data 0) (set_base s))
      else no_write

  -- The side-set write.
  unfoldable pub ss_write : PinWrite
  unfolding gpio_ss_valid gpio_ss_bits
  ss_write =
      let gpio_ss_we = t.first_tick && (gpio_ss_valid && not d.illegal) in
      if gpio_ss_we && not (gpio_ss_bits == 0)
      then masked_write (side_pindir s) (place_mask (sideset_base s) gpio_ss_bits)
          (rol32 d.ss_val (sideset_base s))
      else no_write

  unfoldable pub sticky_wr : Bool
  unfolding gpio_out_we gpio_set_we
  sticky_wr = gpio_out_we || (gpio_set_we && not (set_count s == 0))

  unfoldable pub sticky_isdir_next : Bool
  unfolding gpio_out_we gpio_out_pindir
  sticky_isdir_next = if gpio_out_we then gpio_out_pindir else get d.set_dst 0 == setd_pindirs
