-- ===== src/Model/Word.antt =====
-- The 32-bit helpers at the top of tools/pio_model/model.py. `_bit` is `bit` of Encoding/Split.
use vibe_pio.Base.{
  ℕ, zero, suc, ◌+◌, ◌-◌, ◌*◌, ◌/◌, ◌%◌, ◌||◌, ◌==◌, ltb, if◌then◌else◌, shr, shl, low_bits, m32,
  bit_or, List, [], ◌∷◌, foldl,
}

-- `_ror32`: rotate right.
unfoldable pub ror32 : ℕ → ℕ → ℕ
ror32 v s =
    let k = low_bits s 5 in
    if k == 0 then low_bits v 32 else low_bits (bit_or (shr v k) (shl v (32 - k))) 32

-- `_rol32`: rotate left.
unfoldable pub rol32 : ℕ → ℕ → ℕ
rol32 v s =
    let k = low_bits s 5 in
    if k == 0 then low_bits v 32 else low_bits (bit_or (shl v k) (shr v (32 - k))) 32

-- The characters of `f"{v:032b}"[::-1]`, for `v` of at most `n` (32) digits.
unfoldable pub digits_reversed : ℕ → ℕ → List ℕ
digits_reversed zero v = []
digits_reversed (suc n) v = v % 2 ∷ digits_reversed n (v / 2)

-- `int(text, 2)`
unfoldable pub int_of_binary : List ℕ → ℕ
int_of_binary = foldl (λ acc d. acc * 2 + d) 0

-- `_bitrev32`: the source calls it on 32-bit values only.
unfoldable pub bitrev32 : ℕ → ℕ
bitrev32 v = int_of_binary (digits_reversed 32 v)

-- `_place_mask`: `n` ones (32 where `n` is 0 or above 31), rotated to `base`.
unfoldable pub place_mask : ℕ → ℕ → ℕ
place_mask base n = if n == 0 || ltb 31 n then m32 else rol32 (shr m32 (32 - n)) base
