-- ===== src/Model/Laws/Rotate.antt =====
-- Rotations and shifts of 32-bit registers as arithmetic on their two halves.
use vibe_pio.Base.{
  ℕ, ◌+◌, ◌-◌, ◌*◌, ◌/◌, ◌%◌, ◌^◌, ◌<◌, ◌≤◌, ◌≡◌, ap, sym, ◌∙◌, ◌==◌, arith, low_bits, shl, shr,
  bit_or, bit_or_fields, bit_or_comm, two_pow_split, two_pow_pos, mul-mod_add, div_lt, swap_halves,
  mul_lt, Bool-cases, inl, inr,
}
use native.Mathlib.Nat.{mod-lt}
use vibe_pio.Model.Word.{ror32, rol32}

-- The low `32 - k` bits moved up by `k`, with the top `k` bits below them.
abbrev pub swapped : ℕ → ℕ → ℕ
swapped k v = v % 2 ^ (32 - k) * 2 ^ k + v / 2 ^ (32 - k)

pub top_lt : (k v : ℕ) → k ≤ 32 → v < 2 ^ 32 → v / 2 ^ (32 - k) < 2 ^ k
top_lt k v h b =
    div_lt (2 ^ (32 - k)) (2 ^ k) (two_pow_pos (32 - k)) (two_pow_pos k) v
      (omega (arith, two_pow_split k h))

-- `((v << k) | (v >> (32 - k))) & M32`
pub left_swapped :
    (k v : ℕ) → k ≤ 32 → v < 2 ^ 32 → low_bits (bit_or (shl v k) (shr v (32 - k))) 32 ≡ swapped k v
left_swapped k v h b =
    ap (λ (t : ℕ). t % 2 ^ 32) (bit_or_fields k v (v / 2 ^ (32 - k)) (top_lt k v h b))
    ∙ ap (λ (t : ℕ). (v * 2 ^ k + v / 2 ^ (32 - k)) % t) (sym (two_pow_split k h))
    ∙ mul-mod_add (2 ^ (32 - k)) (2 ^ k) (two_pow_pos (32 - k)) (two_pow_pos k) v _ (top_lt k v h b)

-- `((v >> k) | (v << (32 - k))) & M32`
pub right_swapped :
    (k v : ℕ)
    → k ≤ 32
    → v < 2 ^ 32
    → low_bits (bit_or (shr v k) (shl v (32 - k))) 32 ≡ swapped (32 - k) v
right_swapped k v h b =
    ap (λ (t : ℕ). t % 2 ^ 32) (bit_or_comm (shr v k) (shl v (32 - k)))
    ∙ ap (λ (t : ℕ). low_bits (bit_or (shl v (32 - k)) (shr v t)) 32) (omega arith)
    ∙ left_swapped (32 - k) v (omega arith) b

pub swapped_inverse : (k v : ℕ) → k ≤ 32 → v < 2 ^ 32 → swapped (32 - k) (swapped k v) ≡ v
swapped_inverse k v h b =
    let w = swapped k v in
    ap (λ (t : ℕ). w % 2 ^ t * 2 ^ (32 - k) + w / 2 ^ t) (omega arith)
    ∙ swap_halves (2 ^ (32 - k)) (2 ^ k) (two_pow_pos (32 - k)) (two_pow_pos k) v
        (omega (arith, two_pow_split k h))

pub swapped_lt : (k v : ℕ) → k ≤ 32 → v < 2 ^ 32 → swapped k v < 2 ^ 32
swapped_lt k v h b = omega (
  arith,
  two_pow_split k h,
  mul_lt (2 ^ (32 - k)) (2 ^ k) (two_pow_pos (32 - k)) (two_pow_pos k) (v % 2 ^ (32 - k))
      (v / 2 ^ (32 - k)) (mod-lt v (two_pow_pos (32 - k))) (top_lt k v h b),
)

pub rol32_lem : (v s : ℕ) → v < 2 ^ 32 → rol32 v s ≡ swapped (s % 32) v
unfolding rol32
rol32_lem v s b = elim (Bool-cases (s % 32 == 0)) [
  | inl e ↦ rw e (at_zero ∙ ap (λ (k : ℕ). swapped k v) {x = 0} (ground arith))
  | inr e ↦ rw e (left_swapped (s % 32) v (omega arith) b)
]
  where
    at_zero : v % 2 ^ 32 ≡ swapped 0 v
    at_zero = omega arith

pub ror32_lem : (v s : ℕ) → v < 2 ^ 32 → ror32 v s ≡ swapped (32 - s % 32) v
unfolding ror32
ror32_lem v s b = elim (Bool-cases (s % 32 == 0)) [
  | inl e ↦ rw e (at_zero ∙ ap (λ (k : ℕ). swapped k v) {x = 32} (ground arith))
  | inr e ↦ rw e (right_swapped (s % 32) v (omega arith) b)
]
  where
    at_zero : v % 2 ^ 32 ≡ swapped 32 v
    at_zero = omega arith

-- Rotating a 32-bit word left and then right by the same amount, whatever the amount, gives the
-- word back, and so does the other order.
pub ror32-rol32 : (v s : ℕ) → v < 2 ^ 32 → (ror32 (rol32 v s) s ≡ v) × (rol32 (ror32 v s) s ≡ v)
ror32-rol32 v s b = (
  ap (λ (w : ℕ). ror32 w s) (rol32_lem v s b)
      ∙ ror32_lem (swapped k v) s (swapped_lt k v k_le b)
      ∙ swapped_inverse k v k_le b,
  ap (λ (w : ℕ). rol32 w s) (ror32_lem v s b)
      ∙ rol32_lem (swapped (32 - k) v) s (swapped_lt (32 - k) v (omega arith) b)
      ∙ ap (λ (j : ℕ). swapped j (swapped (32 - k) v)) {y = 32 - (32 - k)} (omega arith)
      ∙ swapped_inverse (32 - k) v (omega arith) b,
)
  where
    k : ℕ
    k = s % 32

    k_le : k ≤ 32
    k_le = omega arith
