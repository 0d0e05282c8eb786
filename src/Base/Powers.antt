-- ===== src/Base/Powers.antt =====
-- Powers of two at variables, and shifts that wrap at a product of two of them.
use Prim.Native.Nat.{ℕ, zero, suc, ◌+◌, ◌-◌, ◌*◌, ◌/◌, ◌%◌, ◌^◌, ◌≤◌, ◌<◌}
use mathlib.Core.Path.{◌≡◌, sym, ap, ◌∙◌}
use native.Mathlib.Nat.{
  pow-suc, one-le-pow, div-add-mod, mod-lt, mod-eq_of_lt, add-mul-mod_self_right, div-lt_iff_lt-mul,
  mul-add-mod_self_right, div-eq_of_lt-le,
}
use native.Mathlib.Omega.{arith}

pub two_pow_add : (a b : ℕ) → 2 ^ (a + b) ≡ 2 ^ a * 2 ^ b
two_pow_add zero b = ap (λ (k : ℕ). 2 ^ k) {y = b} (omega arith) ∙ omega arith
two_pow_add (suc a) b =
    ap (λ (k : ℕ). 2 ^ k) {y = suc (a + b)} (omega arith)
    ∙ pow-suc 2 (a + b)
    ∙ ap (λ (t : ℕ). t * 2) (two_pow_add a b)
    ∙ omega (arith, ap (λ (t : ℕ). t * 2 ^ b) (pow-suc 2 a))

pub two_pow_split : (n : ℕ) → n ≤ 32 → 2 ^ (32 - n) * 2 ^ n ≡ 2 ^ 32
two_pow_split n h = sym (two_pow_add (32 - n) n) ∙ ap (λ (k : ℕ). 2 ^ k) {y = 32} (omega arith)

pub two_pow_pos : (n : ℕ) → 0 < 2 ^ n
two_pow_pos n = one-le-pow n 2 (omega arith)

module _ (m p : ℕ) (m_pos : 0 < m) (p_pos : 0 < p) where
  pub mul_lt : (r h : ℕ) → r < m → h < p → r * p + h < m * p
  mul_lt r h a b = grind arith

  -- `v << k` with `h` in the bits that it frees, cut to the width.
  pub mul-mod_add : (v h : ℕ) → h < p → (v * p + h) % (m * p) ≡ v % m * p + h
  mul-mod_add v h b =
      ap (λ (t : ℕ). t % (m * p)) splits
      ∙ add-mul-mod_self_right (v % m * p + h) (v / m) (m * p)
      ∙ mod-eq_of_lt (mul_lt (v % m) h (mod-lt v m_pos) b)
    where
      splits : v * p + h ≡ v % m * p + h + v / m * (m * p)
      splits = omega (arith, ap (λ (t : ℕ). t * p) (div-add-mod v m))

  pub div_lt : (v : ℕ) → v < m * p → v / m < p
  div_lt v h = (div-lt_iff_lt-mul m_pos).1 (omega arith)

  -- Exchanging the two halves of a number is undone by exchanging them back.
  pub swap_halves : (v : ℕ) → v < m * p → let w = v % m * p + v / m in w % p * m + w / p ≡ v
  swap_halves v h = ground (arith, low, high, div-add-mod v m)
    where
      low : (v % m * p + v / m) % p ≡ v / m
      low = mul-add-mod_self_right (v % m) p (v / m) ∙ mod-eq_of_lt (div_lt v h)

      high : (v % m * p + v / m) / p ≡ v % m
      high = div-eq_of_lt-le p {m = v % m * p + v / m} (omega arith) (grind (arith, div_lt v h))
