-- ===== src/Stim/Words.antt =====
-- The builders of configuration words of tools/pio_model/stim.py, and its UART frame.
use vibe_pio.Base.{ℕ, Bool, bool_int, shl, low_bits, bit_or, List, [], ◌∷◌, ◌++◌, map}
use vibe_pio.Encoding.Split.{bit}

unfoldable pub pctrl : ℕ → ℕ → ℕ → ℕ → ℕ → ℕ → ℕ → ℕ
pctrl ss_cnt set_cnt out_cnt in_base ss_base set_base out_base =
    bit_or
      (bit_or
        (bit_or
          (bit_or (bit_or (bit_or (shl ss_cnt 29) (shl set_cnt 26)) (shl out_cnt 20))
            (shl in_base 15))
          (shl ss_base 10))
        (shl set_base 5))
      out_base

-- `(1 << k) if flag else 0`
abbrev pub flag_bit : Bool → ℕ → ℕ
flag_bit flag k = shl (bool_int flag) k

unfoldable pub execctrl : ℕ → ℕ → ℕ → Bool → Bool → ℕ → ℕ → Bool → ℕ
execctrl wrap_top wrap_bot jmp_pin side_en side_pindirs status_sel status_n out_sticky =
    bit_or
      (bit_or
        (bit_or
          (bit_or
            (bit_or (bit_or (bit_or (shl wrap_top 12) (shl wrap_bot 7)) (shl jmp_pin 24))
              (flag_bit side_en 30))
            (flag_bit side_pindirs 29))
          (shl status_sel 5))
        status_n)
      (flag_bit out_sticky 17)

-- The keyword arguments of `shiftctrl`.
pub record ShiftConfig : Type 0 where
  pub fjoin_rx : Bool
  pub fjoin_tx : Bool
  pub pull_thr : ℕ
  pub push_thr : ℕ
  pub out_right : Bool
  pub in_right : Bool
  pub autopull : Bool
  pub autopush : Bool
  pub fjoin_rx_put : Bool
  pub fjoin_rx_get : Bool
  pub in_count : ℕ

unfoldable pub shiftctrl : ShiftConfig → ℕ
shiftctrl c =
    bit_or
      (bit_or
        (bit_or
          (bit_or
            (bit_or
              (bit_or
                (bit_or
                  (bit_or
                    (bit_or (bit_or (flag_bit c.fjoin_rx 31) (flag_bit c.fjoin_tx 30))
                      (shl (low_bits c.pull_thr 5) 25))
                    (shl (low_bits c.push_thr 5) 20))
                  (flag_bit c.out_right 19))
                (flag_bit c.in_right 18))
              (flag_bit c.autopull 17))
            (flag_bit c.autopush 16))
          (flag_bit c.fjoin_rx_put 15))
        (flag_bit c.fjoin_rx_get 14))
      (low_bits c.in_count 5)

unfoldable pub clkdiv : ℕ → ℕ → ℕ
clkdiv intg frac = bit_or (shl (low_bits intg 16) 16) (shl (low_bits frac 8) 8)

unfoldable pub uart_frame : ℕ → List ℕ
uart_frame byte = 0 ∷ (map (bit byte) (0 ∷ 1 ∷ 2 ∷ 3 ∷ 4 ∷ 5 ∷ 6 ∷ 7 ∷ []) ++ 1 ∷ 1 ∷ [])
