-- ===== src/Encoding/SideSets.antt =====
-- The delay/side-set field: which counts are refused, how large the parts are, and that unpacking
-- inverts packing.
use vibe_pio.Base.{
  ℕ, zero, suc, ◌+◌, ◌-◌, ◌*◌, ◌/◌, ◌^◌, ◌<◌, ◌≤◌, ◌≡◌, ◌↔◌, Bool, true, not, ◌&&◌, ◌||◌, low_bits,
  ◌==◌, if◌then◌else◌, arith, bit_or_fields, bit_or_comm, bit_and_mask, bit_or, ◌∙◌, ap, ◌≢◌, ok,
  err, reserved_encoding, value_error, ◌⊎◌, false, ltb, refl,
}
use vibe_pio.Encoding.Split.{
  SideSet, value_bits, sideset_fields, split_sideset, pack_fields, pack_ds,
}

-- `split_sideset` raises exactly at a count above 5, and otherwise returns the fields.
pub split_sideset_raises :
    (ds : ℕ) (en : Bool) (cnt : ℕ)
    → (split_sideset ds en cnt ≡ err reserved_encoding) ↔ (5 < low_bits cnt 3)
unfolding split_sideset
split_sideset_raises ds en cnt = ground arith

pub split_sideset-ok :
    (ds : ℕ) (en : Bool) (cnt : ℕ)
    → low_bits cnt 3 ≤ 5
    → split_sideset ds en cnt ≡ ok (sideset_fields ds en (low_bits cnt 3))
unfolding split_sideset
split_sideset-ok ds en cnt h = ground arith

-- The parts fit the bits that the count leaves them.
pub record Fits (total : ℕ) (s : SideSet) : Type 0 where
  pub delay_fits : s.delay < 2 ^ (5 - total)
  pub val_fits : s.ss_val < 2 ^ s.ss_bits
  pub bits_fit : s.ss_bits ≤ total
  pub total_fits : total ≤ 5
  pub delay_five : s.delay < 32

sideset-Fits : (ds : ℕ) (en : Bool) (t : ℕ) → ds < 32 → t ≤ 5 → Fits t (sideset_fields ds en t)
unfolding sideset_fields
sideset-Fits ds en zero h k = ground (arith, bit_and_mask 5 ds)
sideset-Fits ds en (suc zero) h k = ground (arith, bit_and_mask 4 ds, bit_and_mask 1 (ds / 16))
sideset-Fits ds en (suc (suc zero)) h k =
    ground (arith, bit_and_mask 3 ds, bit_and_mask 1 (ds / 8), bit_and_mask 2 (ds / 8))
sideset-Fits ds en (suc (suc (suc zero))) h k =
    ground (arith, bit_and_mask 2 ds, bit_and_mask 2 (ds / 4), bit_and_mask 3 (ds / 4))
sideset-Fits ds en (suc (suc (suc (suc zero)))) h k =
    ground (arith, bit_and_mask 1 ds, bit_and_mask 3 (ds / 2), bit_and_mask 4 (ds / 2))
sideset-Fits ds en (suc (suc (suc (suc (suc zero))))) h k =
    ground (arith, bit_and_mask 0 ds, bit_and_mask 4 (ds / 1), bit_and_mask 5 (ds / 1))
sideset-Fits ds en (suc (suc (suc (suc (suc (suc t)))))) h k = absurd (omega arith)

-- Whatever split_sideset returns for a five-bit field, the delay and the side-set value fit the
-- bits that the count leaves for each.
pub split_sideset-Fits :
    (ds : ℕ) (en : Bool) (cnt : ℕ) {s : SideSet}
    → ds < 32
    → split_sideset ds en cnt ≡ ok s
    → Fits (low_bits cnt 3) s
unfolding split_sideset
split_sideset-Fits ds en cnt h e = ground (arith, sideset-Fits ds en (low_bits cnt 3))

-- The side-set that a packed field reads back as: absent under `opt` it is invalid, absent without
-- `opt` it reads as the value 0.
abbrev pub packed : ℕ → ℕ → Bool → ℕ → Bool → SideSet
packed delay value en t present = record {
  delay = delay;
  ss_valid = not (t == 0) && (not en || present);
  ss_val = if present then value else 0;
  ss_bits = if not (t == 0) && (not en || present) then value_bits t en else 0;
}

-- The packed field as a sum.
abbrev field_sum : ℕ → ℕ → Bool → ℕ → Bool → ℕ
field_sum delay value en t present =
    delay + (if present then value * 2 ^ (5 - t) + (if en && not (t == 0) then 16 else 0) else 0)

or_low : (k d v : ℕ) → d < 2 ^ k → bit_or d (v * 2 ^ k) ≡ v * 2 ^ k + d
or_low k d v h = bit_or_comm d (v * 2 ^ k) ∙ bit_or_fields k v d h

or_enable : (x : ℕ) → x < 16 → bit_or x 16 ≡ x + 16
or_enable x h = omega (arith, bit_or_comm x 16, bit_or_fields 4 1 x h)

module _ (delay value : ℕ) (en : Bool) (present : Bool) where
  abbrev sum_of : ℕ → ℕ
  sum_of t = field_sum delay value en t present

  abbrev InRange : ℕ → Type 0
  InRange t = (delay < 2 ^ (5 - t)) × (value < 2 ^ value_bits t en)

  pack_sum :
      (t : ℕ)
      → t ≤ 5
      → delay < 2 ^ (5 - t)
      → value < 2 ^ value_bits t en
      → (pack_fields delay value en t present ≡ ok (sum_of t)) × (sum_of t < 32)
  unfolding pack_fields
  pack_sum zero k h v = ground arith
  pack_sum (suc zero) k h v =
      ground (arith, bit_and_mask 4 delay, or_low 4 delay value, or_enable (value * 16 + delay))
  pack_sum (suc (suc zero)) k h v =
      ground (arith, bit_and_mask 3 delay, or_low 3 delay value, or_enable (value * 8 + delay))
  pack_sum (suc (suc (suc zero))) k h v =
      ground (arith, bit_and_mask 2 delay, or_low 2 delay value, or_enable (value * 4 + delay))
  pack_sum (suc (suc (suc (suc zero)))) k h v =
      ground (arith, bit_and_mask 1 delay, or_low 1 delay value, or_enable (value * 2 + delay))
  pack_sum (suc (suc (suc (suc (suc zero))))) k h v =
      ground (arith, bit_and_mask 0 delay, or_low 0 delay value, or_enable (value * 1 + delay))
  pack_sum (suc (suc (suc (suc (suc (suc t)))))) k h v = absurd (omega arith)

  unpack_sum :
      (t : ℕ)
      → t ≤ 5
      → delay < 2 ^ (5 - t)
      → value < 2 ^ value_bits t en
      → sideset_fields (sum_of t) en t ≡ packed delay value en t present
  unfolding sideset_fields
  unpack_sum zero k h v = ground (arith, bit_and_mask 5 (sum_of 0))
  unpack_sum (suc zero) k h v = ground (
    arith,
    bit_and_mask 4 (sum_of 1),
    bit_and_mask 1 (sum_of 1 / 16),
    bit_and_mask 0 (sum_of 1 / 16),
  )
  unpack_sum (suc (suc zero)) k h v = ground (
    arith,
    bit_and_mask 3 (sum_of 2),
    bit_and_mask 2 (sum_of 2 / 8),
    bit_and_mask 1 (sum_of 2 / 8),
  )
  unpack_sum (suc (suc (suc zero))) k h v = ground (
    arith,
    bit_and_mask 2 (sum_of 3),
    bit_and_mask 3 (sum_of 3 / 4),
    bit_and_mask 2 (sum_of 3 / 4),
  )
  unpack_sum (suc (suc (suc (suc zero)))) k h v = ground (
    arith,
    bit_and_mask 1 (sum_of 4),
    bit_and_mask 4 (sum_of 4 / 2),
    bit_and_mask 3 (sum_of 4 / 2),
  )
  unpack_sum (suc (suc (suc (suc (suc zero))))) k h v = ground (
    arith,
    bit_and_mask 0 (sum_of 5),
    bit_and_mask 5 (sum_of 5 / 1),
    bit_and_mask 4 (sum_of 5 / 1),
  )
  unpack_sum (suc (suc (suc (suc (suc (suc t)))))) k h v = absurd (omega arith)

  -- For a count of at most 5, a delay and a value that fit their bits are packed into a five-bit
  -- field, and split_sideset reads from it that delay, and the value where one was given.
  pub split_sideset-pack_ds :
      (cnt : ℕ)
      → let t = low_bits cnt 3 in
        t ≤ 5
        → delay < 2 ^ (5 - t)
        → value < 2 ^ value_bits t en
        → (f : ℕ) × (pack_ds delay value en cnt present ≡ ok f)
          × (f < 32)
          × (split_sideset f en cnt ≡ ok (packed delay value en t present))
  unfolding pack_ds
  split_sideset-pack_ds cnt k h v =
      let p = pack_sum (low_bits cnt 3) k h v in
      (
        sum_of (low_bits cnt 3),
        p.0,
        p.1,
        split_sideset-ok _ en cnt k ∙ ap ok (unpack_sum (low_bits cnt 3) k h v),
      )

-- A chain of two tests that ends in a result.
choose-ok :
    (z bad full : Bool) (x y : ℕ)
    → (z ≡ true → bad ≡ false)
    → (z ≡ false → full ≡ false)
    → (f : ℕ) × ((if z
          then (if bad then err reserved_encoding else ok x)
          else if full
          then err value_error
          else ok y)
        ≡ ok f)
choose-ok true true full x y p q = let clash = p refl in cc
choose-ok true false full x y p q = (x, refl)
choose-ok false bad true x y p q = let clash = q refl in cc
choose-ok false bad false x y p q = (y, refl)

-- pack_ds raises the error of a reserved encoding exactly for a non-zero side value with no
-- side-set bits configured, raises ValueError exactly for a count above 5, and in all other cases,
-- and only in those, returns a field.
pub pack_ds_raises :
    (delay value : ℕ) (en : Bool) (cnt : ℕ) (present : Bool)
    → ((pack_ds delay value en cnt present ≡ err reserved_encoding)
        ↔ (low_bits cnt 3 ≡ 0) × (present ≡ true) × (value ≢ 0))
      × ((pack_ds delay value en cnt present ≡ err value_error) ↔ (5 < low_bits cnt 3))
      × (((f : ℕ) × (pack_ds delay value en cnt present ≡ ok f))
          ↔ ((low_bits cnt 3 ≤ 5) × ((low_bits cnt 3 ≢ 0) ⊎ ((present ≡ false) ⊎ (value ≡ 0)))))
unfolding pack_ds pack_fields
pack_ds_raises delay value en cnt present = (
  ground arith,
  ground arith,
  (
    λ (f, h). ground arith,
    λ h.
        choose-ok (low_bits cnt 3 == 0) (present && not (value == 0)) (ltb 5 (low_bits cnt 3)) _ _
          (λ e. ground arith) (λ e. ground arith),
  ),
)
