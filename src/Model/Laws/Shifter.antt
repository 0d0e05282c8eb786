-- ===== src/Model/Laws/Shifter.antt =====
-- The input and output shift registers: OUT and IN lose no bit, and rotation can be undone.
use vibe_pio.Base.{
  ℕ, ◌+◌, ◌-◌, ◌*◌, ◌/◌, ◌%◌, ◌^◌, ◌<◌, ◌≤◌, ◌≡◌, ap, sym, ◌∙◌, true, false, ◌==◌, arith, low_bits,
  shl, shr, bit_or, bit_or_fields, bit_or_comm, two_pow_split, two_pow_pos, mul-mod_add, div_lt,
  mul_lt, subst, Bool-cases, inl, inr,
}
use native.Mathlib.Nat.{div-add-mod, mod-lt, mod-eq_of_lt}
use vibe_pio.Model.Comb.Shift.{shift_out_data, shift_out_rest, shift_in, rotate_isr}
use vibe_pio.Model.Laws.Rotate.{swapped, swapped_inverse, swapped_lt, top_lt}

-- `(v << n) & M32` as the low bits moved up.
shl_mod : (n v : ℕ) → n ≤ 32 → low_bits (shl v n) 32 ≡ v % 2 ^ (32 - n) * 2 ^ n
shl_mod n v h =
    let m = 2 ^ (32 - n) in
    let p = 2 ^ n in
    ap (λ (t : ℕ). v * p % t) (sym (two_pow_split n h))
    ∙ ap (λ (t : ℕ). t % (m * p)) {y = v * p + 0} (omega arith)
    ∙ mul-mod_add m p (two_pow_pos (32 - n)) (two_pow_pos n) v 0 (two_pow_pos n)
    ∙ omega arith

-- OUT of at most 32 bits takes its bits from the end that the direction names and leaves the rest:
-- together they are the whole OSR, shifted left or not.
pub shift_out_whole :
    (osr n : ℕ)
    → n ≤ 32
    → (shift_out_data true osr n * 2 ^ 32 + shift_out_rest true osr n ≡ osr * 2 ^ n)
      × (shift_out_rest false osr n * 2 ^ n + shift_out_data false osr n ≡ osr)
unfolding shift_out_data shift_out_rest
shift_out_whole osr n h = (
  omega (
    arith,
    shl_mod n osr h,
    ap (λ (t : ℕ). t * 2 ^ n) (div-add-mod osr (2 ^ (32 - n))),
    ap (λ (t : ℕ). osr / 2 ^ (32 - n) * t) (two_pow_split n h),
  ),
  omega (arith, div-add-mod osr (2 ^ n)),
)

abbrev InWhole : ℕ → ℕ → ℕ → Type 0
InWhole isr v n =
    (shift_in true isr v n ≡ isr % 2 ^ (32 - n) * 2 ^ n + v % 2 ^ n)
    × (shift_in false isr v n ≡ v % 2 ^ n * 2 ^ (32 - n) + isr / 2 ^ n)

-- IN of at most 32 bits to the left puts the data below the old bits, IN to the right above them,
-- for 32-bit registers.
pub shift_in_whole :
    (isr v n : ℕ)
    → isr < 2 ^ 32
    → v < 2 ^ 32
    → n ≤ 32
    → (shift_in true isr v n ≡ isr % 2 ^ (32 - n) * 2 ^ n + v % 2 ^ n)
      × (shift_in false isr v n ≡ v % 2 ^ n * 2 ^ (32 - n) + isr / 2 ^ n)
unfolding shift_in
shift_in_whole isr v n a b h = elim (Bool-cases (n == 32)) [
  | inl e ↦ subst (InWhole isr v) {x = 32} (ground arith) (omega arith, omega arith)
  | inr e ↦ rw e (
    ap (λ (t : ℕ). bit_or t (v % 2 ^ n)) (shl_mod n isr h)
        ∙ bit_or_fields n (isr % 2 ^ (32 - n)) (v % 2 ^ n) (mod-lt v (two_pow_pos n)),
    ap (λ (t : ℕ). t % 2 ^ 32)
          (bit_or_comm (shr isr n) (shl (v % 2 ^ n) (32 - n))
            ∙ bit_or_fields (32 - n) (v % 2 ^ n) (isr / 2 ^ n) high)
        ∙ mod-eq_of_lt (
            omega (
              arith,
              whole,
              mul_lt (2 ^ n) (2 ^ (32 - n)) (two_pow_pos n) (two_pow_pos (32 - n)) (v % 2 ^ n)
                  (isr / 2 ^ n) (mod-lt v (two_pow_pos n)) high,
            )),
  )
]
  where
    whole : 2 ^ n * 2 ^ (32 - n) ≡ 2 ^ 32
    whole = omega (arith, two_pow_split n h)

    high : isr / 2 ^ n < 2 ^ (32 - n)
    high =
        div_lt (2 ^ n) (2 ^ (32 - n)) (two_pow_pos n) (two_pow_pos (32 - n)) isr
          (omega (arith, whole))

abbrev Rotates : ℕ → ℕ → Type 0
Rotates isr n =
    (rotate_isr true isr n ≡ swapped n isr) × (rotate_isr false isr n ≡ swapped (32 - n) isr)

-- The bits moved up, with others in their place, at a width below 32.
refill :
    (n v : ℕ) → n ≤ 32 → v < 2 ^ 32 → bit_or (low_bits (shl v n) 32) (shr v (32 - n)) ≡ swapped n v
refill n v h a =
    ap (λ (t : ℕ). bit_or t (shr v (32 - n))) (shl_mod n v h)
    ∙ bit_or_fields n (v % 2 ^ (32 - n)) (v / 2 ^ (32 - n)) (top_lt n v h a)

rotate_isr_lem : (isr n : ℕ) → isr < 2 ^ 32 → n ≤ 32 → Rotates isr n
unfolding rotate_isr
rotate_isr_lem isr n a h = elim (Bool-cases (n == 32)) [
  | inl e ↦ subst (Rotates isr) {x = 32} (ground arith) (omega arith, omega arith)
  | inr e ↦ rw e (
    refill n isr h a,
    ap (λ (t : ℕ). t % 2 ^ 32)
          (bit_or_comm (shr isr n) (low_bits (shl isr (32 - n)) 32)
            ∙ ap (λ (k : ℕ). bit_or (low_bits (shl isr (32 - n)) 32) (shr isr k))
                {y = 32 - (32 - n)} (omega arith)
            ∙ refill (32 - n) isr (omega arith) a)
        ∙ mod-eq_of_lt (swapped_lt (32 - n) isr (omega arith) a),
  )
]

-- Rotating a 32-bit ISR one way and then the other by the same count of at most 32 gives it back.
rotate_isr_back :
    (isr n : ℕ)
    → isr < 2 ^ 32
    → n ≤ 32
    → (rotate_isr false (rotate_isr true isr n) n ≡ isr)
      × (rotate_isr true (rotate_isr false isr n) n ≡ isr)
rotate_isr_back isr n a h =
    let there = rotate_isr_lem isr n a h in
    (
      ap (λ (w : ℕ). rotate_isr false w n) there.0
          ∙ (rotate_isr_lem (swapped n isr) n (swapped_lt n isr h a) h).1
          ∙ swapped_inverse n isr h a,
      ap (λ (w : ℕ). rotate_isr true w n) there.1
          ∙ (rotate_isr_lem (swapped (32 - n) isr) n (swapped_lt (32 - n) isr (omega arith) a) h).0
          ∙ ap (λ (j : ℕ). swapped j (swapped (32 - n) isr)) {y = 32 - (32 - n)} (omega arith)
          ∙ swapped_inverse (32 - n) isr (omega arith) a,
    )
