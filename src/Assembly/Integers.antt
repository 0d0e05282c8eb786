-- ===== src/Assembly/Integers.antt =====
-- Python's integers with the operators of an expression. `negsuc n` is -(n + 1).
use vibe_pio.Base.{
  Bool, false, ℕ, zero, suc, ◌+◌, ◌-◌, ◌*◌, ◌/◌, ◌%◌, ◌^◌, ◌==◌, bit_and, bit_or, bit_xor, and_not,
  leb, ltb, if◌then◌else◌, Result, ok, err, value_error, zero_division, overflow_error, bit_length,
}

pub data ℤ : Type 0 where
  pos : ℕ → ℤ
  negsuc : ℕ → ℤ

abbrev pub pos_part : ℤ → ℕ
pos_part (pos n) = n
pos_part (negsuc n) = 0

abbrev pub neg_part : ℤ → ℕ
neg_part (pos n) = 0
neg_part (negsuc n) = suc n

abbrev pub is_zero : ℤ → Bool
is_zero (pos n) = n == 0
is_zero (negsuc n) = false

abbrev pub sub_ℕ : ℕ → ℕ → ℤ
sub_ℕ a b = if leb b a then pos (a - b) else negsuc (b - a - 1)

abbrev pub neg : ℤ → ℤ
neg a = sub_ℕ (neg_part a) (pos_part a)

infixl 65 ◌+ℤ◌ ◌-ℤ◌
infixl 70 ◌*ℤ◌
unfoldable pub ◌+ℤ◌ : ℤ → ℤ → ℤ
a +ℤ b = sub_ℕ (pos_part a + pos_part b) (neg_part a + neg_part b)

unfoldable pub ◌-ℤ◌ : ℤ → ℤ → ℤ
a -ℤ b = sub_ℕ (pos_part a + neg_part b) (neg_part a + pos_part b)

unfoldable pub ◌*ℤ◌ : ℤ → ℤ → ℤ
a *ℤ b =
    sub_ℕ (pos_part a * pos_part b + neg_part a * neg_part b)
      (pos_part a * neg_part b + neg_part a * pos_part b)

-- `~a`
abbrev pub complement : ℤ → ℤ
complement (pos n) = negsuc n
complement (negsuc n) = pos n

-- `&`, `|` and `^` on two's complements without end.
unfoldable pub and_ℤ : ℤ → ℤ → ℤ
and_ℤ (pos a) (pos b) = pos (bit_and a b)
and_ℤ (pos a) (negsuc b) = pos (and_not a b)
and_ℤ (negsuc a) (pos b) = pos (and_not b a)
and_ℤ (negsuc a) (negsuc b) = negsuc (bit_or a b)

unfoldable pub or_ℤ : ℤ → ℤ → ℤ
unfolding and_ℤ
or_ℤ a b = complement (and_ℤ (complement a) (complement b))

unfoldable pub xor_ℤ : ℤ → ℤ → ℤ
xor_ℤ (pos a) (pos b) = pos (bit_xor a b)
xor_ℤ (pos a) (negsuc b) = negsuc (bit_xor a b)
xor_ℤ (negsuc a) (pos b) = negsuc (bit_xor a b)
xor_ℤ (negsuc a) (negsuc b) = pos (bit_xor a b)

-- A negative count raises.
unfoldable pub shl_ℤ : ℤ → ℤ → Result ℤ
shl_ℤ a (negsuc n) = err value_error
shl_ℤ (pos a) (pos n) = ok (pos (a * 2 ^ n))
shl_ℤ (negsuc a) (pos n) = ok (negsuc (suc a * 2 ^ n - 1))

unfoldable pub shr_ℤ : ℤ → ℤ → Result ℤ
shr_ℤ a (negsuc n) = err value_error
shr_ℤ (pos a) (pos n) = ok (pos (a / 2 ^ n))
shr_ℤ (negsuc a) (pos n) = ok (negsuc (a / 2 ^ n))

-- `n / d` to the nearest integer, a half to the even one.
abbrev nearest : ℕ → ℕ → ℕ
nearest n d =
    let q = n / d in
    let r = n % d in if ltb (2 * r) d then q else if ltb d (2 * r) then q + 1 else q + q % 2

-- `int(n / d)` for n, d above 0: the quotient in binary floating point with 53 bits, cut. A quotient
-- below a half has fewer digits here, and is cut to 0 either way.
unfoldable pub cut_quotient : ℕ → ℕ → ℕ
cut_quotient n d =
    let w = bit_length (n / d) (n / d) in
    if leb w 53
    then nearest (n * 2 ^ (53 - w)) d / 2 ^ (53 - w)
    else nearest n (d * 2 ^ (w - 53)) * 2 ^ (w - 53)

abbrev in_range : ℕ → ℤ → Result ℤ
in_range size z = if ltb size (2 ^ 1024) then ok z else err overflow_error

-- `int(a / b)`
unfoldable pub quot_ℤ : ℤ → ℤ → Result ℤ
unfolding cut_quotient
quot_ℤ a (pos zero) = err zero_division
quot_ℤ (pos a) (pos (suc b)) = let q = cut_quotient a (suc b) in in_range q (pos q)
quot_ℤ (pos a) (negsuc b) = let q = cut_quotient a (suc b) in in_range q (sub_ℕ 0 q)
quot_ℤ (negsuc a) (pos (suc b)) = let q = cut_quotient (suc a) (suc b) in in_range q (sub_ℕ 0 q)
quot_ℤ (negsuc a) (negsuc b) = let q = cut_quotient (suc a) (suc b) in in_range q (pos q)

-- A number with the same low 32 bits that is 0 only for 0.
unfoldable pub low_word : ℤ → ℕ
low_word (pos n) = n
low_word (negsuc n) = 2 ^ 33 - 1 - n % 2 ^ 32
