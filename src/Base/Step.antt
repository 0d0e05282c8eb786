-- ===== src/Base/Step.antt =====
-- The lowest digit of each native bit operation. The library defines the operations by a recursion
-- on fuel, of which any amount from the first argument on gives the same.
use Prim.Native.Nat.{ℕ, zero, suc, ◌+◌, ◌-◌, ◌*◌, ◌/◌, ◌%◌, ◌≤◌, ◌<◌, min, max}
use Prim.Native.Nat.{digits, bitwise, differ, bit_and, bit_or, bit_xor}
use Prim.Native.Nat.{bit_and-bitwise, bit_or-bitwise, bit_xor-bitwise}
use mathlib.Core.Path.{◌≡◌, refl, ap, ◌∙◌}
use native.Mathlib.Omega.{arith}

module _ (rest : ℕ → ℕ) (op : ℕ → ℕ → ℕ) where
  one_more : (fuel x y : ℕ) → x ≤ fuel → digits rest op (suc fuel) x y ≡ digits rest op fuel x y
  one_more zero zero y h = refl
  one_more (suc fuel) zero y h = refl
  one_more zero (suc x) y h = absurd (omega arith)
  one_more (suc fuel) (suc x) y h =
      ap (λ (t : ℕ). t * 2 + op (suc x % 2) (y % 2))
        (one_more fuel (suc x / 2) (y / 2) (omega arith))

  many_more :
      (more fuel total x y : ℕ)
      → total ≡ more + fuel
      → x ≤ fuel
      → digits rest op total x y ≡ digits rest op fuel x y
  many_more zero fuel total x y e h = ap (λ (t : ℕ). digits rest op t x y) (omega arith)
  many_more (suc more) fuel total x y e h =
      ap (λ (t : ℕ). digits rest op t x y) {y = suc (more + fuel)} (omega arith)
      ∙ one_more (more + fuel) x y (omega arith)
      ∙ many_more more fuel (more + fuel) x y refl h

  -- Where the recursion ends alike, an operation is itself on the halves and once on the last digits.
  halves :
      (x y : ℕ)
      → rest y ≡ rest (y / 2) * 2 + op 0 (y % 2)
      → bitwise rest op x y ≡ bitwise rest op (x / 2) (y / 2) * 2 + op (x % 2) (y % 2)
  halves zero y ends = ends
  halves (suc x) y ends =
      let half = suc x / 2 in
      ap (λ (t : ℕ). t * 2 + op (suc x % 2) (y % 2))
        (many_more (x - half) half x half (y / 2) (omega arith) (omega arith))

pub bit_and_step : (x y : ℕ) → bit_and x y ≡ bit_and (x / 2) (y / 2) * 2 + min (x % 2) (y % 2)
bit_and_step x y = simp bit_and-bitwise (halves (λ _. 0) min x y (omega arith))

pub bit_or_step : (x y : ℕ) → bit_or x y ≡ bit_or (x / 2) (y / 2) * 2 + max (x % 2) (y % 2)
bit_or_step x y = simp bit_or-bitwise (halves (λ t. t) max x y (omega arith))

differ_sum : (x y : ℕ) → x < 2 → y < 2 → differ x y ≡ (x + y) % 2
differ_sum zero y p q = omega arith
differ_sum (suc zero) zero p q = refl
differ_sum (suc zero) (suc y) p q = omega arith
differ_sum (suc (suc x)) y p q = absurd (omega arith)

pub bit_xor_step : (x y : ℕ) → bit_xor x y ≡ bit_xor (x / 2) (y / 2) * 2 + (x + y) % 2
bit_xor_step x y = simp bit_xor-bitwise (
    omega (
      arith,
      halves (λ t. t) differ x y (omega (arith, differ_sum 0 (y % 2) (omega arith) (omega arith))),
      differ_sum (x % 2) (y % 2) (omega arith) (omega arith),
    ))
