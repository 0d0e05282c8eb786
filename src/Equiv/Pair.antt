-- ===== src/Equiv/Pair.antt =====
-- `ProgPair`, `pack_words` and `default_execctrl` of tools/hyperequiv.py.
use vibe_pio.Base.{
  ℕ, ◌+◌, ◌-◌, ◌*◌, ltb, max, shl, bit_and, bit_or, bit_xor, and_not, List, [], ◌∷◌, length, get_or,
  Option, none, some, if◌then◌else◌, Result, ok, err, value_error,
}

pub record ProgPair : Type 0 where
  pub words_a : List ℕ
  pub words_b : List ℕ
  pub execctrl : ℕ
  pub execctrl_b : Option ℕ

abbrev pub or_shared : Option ℕ → ℕ → ℕ
or_shared none shared = shared
or_shared (some own) shared = own

module _ (pair : ProgPair) where
  unfoldable pub ec_b : ℕ
  ec_b = or_shared pair.execctrl_b pair.execctrl

  unfoldable pub ec_mask : ℕ
  unfolding ec_b
  ec_mask = and_not 0x7fffffff (bit_and (bit_xor pair.execctrl ec_b) 0x7fffffff)

  unfoldable pub prog_len : ℕ
  prog_len = max (length pair.words_a) (length pair.words_b)

  unfoldable pub prologue_clks : ℕ
  unfolding prog_len
  prologue_clks = prog_len + 2

-- `word` of one side's words.
abbrev pub word_at : List ℕ → ℕ → ℕ
word_at words i = get_or words i 0

-- The loop of `pack_words` from word `i` on.
unfoldable pub pack_from : ℕ → ℕ → List ℕ → ℕ
pack_from i v [] = v
pack_from i v (w ∷ ws) = pack_from (i + 1) (bit_or v (shl w (16 * i))) ws

unfoldable pub pack_words : List ℕ → Result ℕ
pack_words words = if ltb 32 (length words) then err value_error else ok (pack_from 0 0 words)

-- At two empty programs the source's -1 << 12 masks to all ones of the field.
unfoldable pub default_execctrl : List ℕ → List ℕ → ℕ
default_execctrl words_a words_b =
    let n = max (length words_a) (length words_b) in
    if ltb 0 n then bit_and (shl (n - 1) 12) 0x1f000 else 0x1f000
