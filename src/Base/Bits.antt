-- ===== src/Base/Bits.antt =====
-- The bit operations at variables: masks are remainders, disjoint fields are sums, and each bit
-- of a result depends on that bit of the arguments.
use vibe_pio.Base.Word.{shr, shl, low_bits, and_not}
use vibe_pio.Base.Step.{bit_and_step, bit_or_step, bit_xor_step}
use Prim.Native.Nat.{ℕ, zero, suc, ◌+◌, ◌-◌, ◌*◌, ◌/◌, ◌%◌, ◌^◌, ◌≤◌, ◌<◌, min, max}
use Prim.Native.Nat.{bit_and, bit_or, bit_xor, bit_or-bitwise}
use vibe_pio.Base.Tests.{◌==◌, ltb, if◌then◌else◌}
use mathlib.Core.Path.{◌≡◌, refl, sym, ap, ◌∙◌}
use native.Mathlib.Nat.{pow-suc, one-le-pow, div-div-eq-div-mul, div-add-mod}
use native.Mathlib.Nat.{mod-eq_of_lt, add-mul-mod_self_right}
use native.Mathlib.Omega.{arith}

zero_below : (bound v : ℕ) → v < bound → (bit_or v 0 ≡ v) × (bit_and v 0 ≡ 0)
zero_below zero v h = absurd (omega arith)
zero_below (suc bound) zero h = (refl, refl)
zero_below (suc bound) (suc v) h =
    let half = zero_below bound (suc v / 2) (omega arith) in
    (omega (arith, bit_or_step (suc v) 0, half.0), omega (arith, bit_and_step (suc v) 0, half.1))

pub bit_or-zero : (a : ℕ) → bit_or a 0 ≡ a
bit_or-zero a = (zero_below (suc a) a (omega arith)).0

pub bit_and-zero : (a : ℕ) → bit_and a 0 ≡ 0
bit_and-zero a = (zero_below (suc a) a (omega arith)).1

shifted_once : (high width : ℕ) → high * 2 ^ suc width ≡ 2 * (high * 2 ^ width)
shifted_once high width = omega (arith, ap (λ (power : ℕ). high * power) (pow-suc 2 width))

-- A field put above another that fits its `width` bits adds to it.
pub bit_or_fields :
    (width high low : ℕ) → low < 2 ^ width → bit_or (shl high width) low ≡ high * 2 ^ width + low
bit_or_fields zero high low fits = ground (arith, bit_or-zero high)
bit_or_fields (suc width) high low fits =
    let inner = bit_or_fields width high (low / 2) (omega arith) in
    ground (arith, inner, shifted_once high width, bit_or_step (high * 2 ^ suc width) low)

-- A field put above the low digits of a number.
pub bit_or_above :
    (width high low field : ℕ)
    → low < 2 ^ width
    → bit_or (high * 2 ^ width + low) (shl field width) ≡ bit_or high field * 2 ^ width + low
bit_or_above zero high low field fits = ground arith
bit_or_above (suc width) high low field fits =
    let inner = bit_or_above width high (low / 2) field (omega arith) in
    ground (
      arith,
      inner,
      shifted_once high width,
      shifted_once field width,
      shifted_once (bit_or high field) width,
      bit_or_step (high * 2 ^ suc width + low) (field * 2 ^ suc width),
    )

mod-two_pow_suc : (k v : ℕ) → v % 2 ^ suc k ≡ v / 2 % 2 ^ k * 2 + v % 2
mod-two_pow_suc k v =
    ap (λ (t : ℕ). t % 2 ^ suc k) splits ∙ add-mul-mod_self_right low high _ ∙ fits
  where
    low : ℕ
    low = v / 2 % 2 ^ k * 2 + v % 2

    high : ℕ
    high = v / 2 / 2 ^ k

    splits : v ≡ low + high * 2 ^ suc k
    splits = omega (arith, div-add-mod (v / 2) (2 ^ k), shifted_once high k)

    fits : low % 2 ^ suc k ≡ low
    fits = mod-eq_of_lt (omega (arith, pow-suc 2 k, one-le-pow k 2))

-- `v & ((1 << k) - 1)` is the remainder by `2 ^ k`.
pub bit_and_mask : (width v : ℕ) → bit_and v (2 ^ width - 1) ≡ low_bits v width
bit_and_mask zero v = omega (arith, bit_and-zero v)
bit_and_mask (suc width) v =
    let inner = bit_and_mask width (v / 2) in
    omega (
      arith,
      inner,
      bit_and_step v (2 ^ suc width - 1),
      mod-two_pow_suc width v,
      pow-suc 2 width,
      one-le-pow width 2,
      ap (bit_and (v / 2)) {x = (2 ^ suc width - 1) / 2} {y = 2 ^ width - 1}
          (omega (arith, pow-suc 2 width, one-le-pow width 2)),
    )

-- Bit `i` of a number, as the digits are numbered.
pub digit : ℕ → ℕ → ℕ
digit v zero = v % 2
digit v (suc i) = digit (v / 2) i

pub digit-bit_and : (i a b : ℕ) → digit (bit_and a b) i ≡ min (digit a i) (digit b i)
unfolding digit
digit-bit_and zero a b = omega (arith, bit_and_step a b)
digit-bit_and (suc i) a b =
    let e : bit_and a b / 2 ≡ bit_and (a / 2) (b / 2) = omega (arith, bit_and_step a b) in
    rw e (digit-bit_and i (a / 2) (b / 2))

pub digit-bit_or : (i a b : ℕ) → digit (bit_or a b) i ≡ max (digit a i) (digit b i)
unfolding digit
digit-bit_or zero a b = omega (arith, bit_or_step a b)
digit-bit_or (suc i) a b =
    let e : bit_or a b / 2 ≡ bit_or (a / 2) (b / 2) = omega (arith, bit_or_step a b) in
    rw e (digit-bit_or i (a / 2) (b / 2))

pub digit-bit_xor : (i a b : ℕ) → digit (bit_xor a b) i ≡ (digit a i + digit b i) % 2
unfolding digit
digit-bit_xor zero a b = omega (arith, bit_xor_step a b)
digit-bit_xor (suc i) a b =
    let e : bit_xor a b / 2 ≡ bit_xor (a / 2) (b / 2) = omega (arith, bit_xor_step a b) in
    rw e (digit-bit_xor i (a / 2) (b / 2))

pub digit-lt : (i v : ℕ) → digit v i < 2
unfolding digit
digit-lt zero v = omega arith
digit-lt (suc i) v = digit-lt i (v / 2)

-- `a & ~m` keeps a bit exactly where the mask has none.
pub digit-and_not : (i a m : ℕ) → digit (and_not a m) i ≡ digit a i - digit m i
digit-and_not i a m =
    ground (arith, digit-bit_xor i a (bit_and a m), digit-bit_and i a m, digit-lt i a, digit-lt i m)

pub digit-low_bits : (k i v : ℕ) → i < k → digit (v % 2 ^ k) i ≡ digit v i
unfolding digit
digit-low_bits zero i v h = absurd (omega arith)
digit-low_bits (suc k) zero v h = omega (arith, mod-two_pow_suc k v)
digit-low_bits (suc k) (suc i) v h =
    let e : v % 2 ^ suc k / 2 ≡ (v / 2) % 2 ^ k = omega (arith, mod-two_pow_suc k v) in
    rw e (digit-low_bits k i (v / 2) (omega arith))

pub digit-of_ge : (i v : ℕ) → v < 2 ^ i → digit v i ≡ 0
unfolding digit
digit-of_ge zero v h = omega arith
digit-of_ge (suc i) v h = digit-of_ge i (v / 2) (omega (arith, pow-suc 2 i))

pub digit-shr : (i v : ℕ) → digit v i ≡ shr v i % 2
unfolding digit
digit-shr zero v = omega arith
digit-shr (suc i) v = rw (digit-shr i (v / 2)) (
    ap (λ (t : ℕ). t % 2)
      (div-div-eq-div-mul v 2 (2 ^ i) ∙ ap (λ (t : ℕ). v / t) (omega (arith, pow-suc 2 i))))

pub bit_or-lt : (k a b : ℕ) → a < 2 ^ k → b < 2 ^ k → bit_or a b < 2 ^ k
bit_or-lt zero a b p q =
    let b_zero : b ≡ 0 = omega arith in rw b_zero (omega (arith, bit_or-zero a))
bit_or-lt (suc k) a b p q = omega (
  arith,
  bit_or_step a b,
  pow-suc 2 k,
  bit_or-lt k (a / 2) (b / 2) (omega (arith, pow-suc 2 k)) (omega (arith, pow-suc 2 k)),
)

pub bit_and-lt : (k a b : ℕ) → b < 2 ^ k → bit_and a b < 2 ^ k
bit_and-lt zero a b q =
    let b_zero : b ≡ 0 = omega arith in rw b_zero (omega (arith, bit_and-zero a))
bit_and-lt (suc k) a b q = omega (
  arith,
  bit_and_step a b,
  pow-suc 2 k,
  bit_and-lt k (a / 2) (b / 2) (omega (arith, pow-suc 2 k)),
)

bit_or_comm_fuel : (n a b : ℕ) → a ≤ n → b ≤ n → bit_or a b ≡ bit_or b a
bit_or_comm_fuel n zero b p q = bit_or-bitwise 0 b ∙ sym (bit_or-zero b)
bit_or_comm_fuel n (suc a) zero p q = bit_or-zero (suc a) ∙ sym (bit_or-bitwise 0 (suc a))
bit_or_comm_fuel zero (suc a) (suc b) p q = absurd (omega arith)
bit_or_comm_fuel (suc n) (suc a) (suc b) p q = omega (
  arith,
  bit_or_step (suc a) (suc b),
  bit_or_step (suc b) (suc a),
  bit_or_comm_fuel n (suc a / 2) (suc b / 2) (omega arith) (omega arith),
)

pub bit_or_comm : (a b : ℕ) → bit_or a b ≡ bit_or b a
bit_or_comm a b = bit_or_comm_fuel (a + b) a b (omega arith) (omega arith)

-- The digits of one bit put at `k`.
pub digit-shl_bit : (k i v : ℕ) → v < 2 → digit (shl v k) i ≡ (if i == k then v else 0)
unfolding digit
digit-shl_bit zero zero v h = omega arith
digit-shl_bit zero (suc i) v h =
    let none_left : v * 2 ^ 0 / 2 ≡ 0 = omega arith in
    rw none_left (ground (arith, digit-of_ge i 0 (one-le-pow i 2 (omega arith))))
digit-shl_bit (suc k) zero v h = ground (arith, pow-suc 2 k, shifted_once v k)
digit-shl_bit (suc k) (suc i) v h =
    let halved : v * 2 ^ suc k / 2 ≡ v * 2 ^ k = omega (arith, shifted_once v k) in
    rw halved (ground (arith, digit-shl_bit k i v h))

-- The digits of a number shifted left.
pub digit-shl : (k i v : ℕ) → digit (shl v k) i ≡ (if ltb i k then 0 else digit v (i - k))
unfolding digit
digit-shl zero i v = ground (arith, ap (λ (t : ℕ). digit t i) {x = v * 2 ^ 0} {y = v} (omega arith))
digit-shl (suc k) zero v = ground (arith, pow-suc 2 k, shifted_once v k)
digit-shl (suc k) (suc i) v =
    let halved : v * 2 ^ suc k / 2 ≡ v * 2 ^ k = omega (arith, shifted_once v k) in
    rw halved (ground (arith, digit-shl k i v))

-- The digits of a mask.
pub digit-mask : (n i : ℕ) → digit (2 ^ n - 1) i ≡ (if ltb i n then 1 else 0)
unfolding digit
digit-mask zero i = ground (arith, digit-of_ge i 0, one-le-pow i 2)
digit-mask (suc n) zero = ground (arith, pow-suc 2 n, one-le-pow n 2)
digit-mask (suc n) (suc i) =
    let halved : (2 ^ suc n - 1) / 2 ≡ 2 ^ n - 1 = omega (arith, pow-suc 2 n, one-le-pow n 2) in
    rw halved (ground (arith, digit-mask n i))
