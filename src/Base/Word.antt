-- ===== src/Base/Word.antt =====
-- Python's shifts and masks on the non-negative integers. `low_bits v k` is `v & (2 ^ k - 1)`
-- (`bit_and_mask` of Base/Bits), and `and_not a m` is `a & ~m`.
use mathlib.Core.Bool.{true, false}
use vibe_pio.Base.Tests.{◌==◌}
use Prim.Native.Nat.{ℕ, zero, suc, ◌-◌, ◌*◌, ◌/◌, ◌%◌, ◌^◌, bit_and, bit_xor}

abbrev pub shr : ℕ → ℕ → ℕ
shr v k = v / 2 ^ k

abbrev pub shl : ℕ → ℕ → ℕ
shl v k = v * 2 ^ k

abbrev pub low_bits : ℕ → ℕ → ℕ
low_bits v k = v % 2 ^ k

abbrev pub m32 : ℕ
m32 = 2 ^ 32 - 1

abbrev pub and_not : ℕ → ℕ → ℕ
and_not a m = bit_xor a (bit_and a m)

-- `d.bit_length()`, for `d` of at most `n` digits; any number has at most itself.
unfoldable pub bit_length : ℕ → ℕ → ℕ
bit_length zero d = 0
bit_length (suc n) d = elim (d == 0) [ true ↦ 0 | false ↦ suc (bit_length n (d / 2)) ]
