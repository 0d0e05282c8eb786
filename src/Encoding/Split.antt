-- ===== src/Encoding/Split.antt =====
-- `split`, `split_sideset`, `pack_ds` and `encode` of tools/pio_model/encoding.py: the four fields
-- of a word, and the delay/side-set field within one of them.
use vibe_pio.Base.{
  ℕ, ◌-◌, ◌%◌, Bool, not, ◌&&◌, ◌||◌, ◌==◌, ltb, if◌then◌else◌, shr, shl, low_bits, bit_and, bit_or,
  Result, ok, err, ◌>>◌, raise_if, reserved_encoding, value_error,
}

-- `(v >> i) & 1`
abbrev pub bit : ℕ → ℕ → ℕ
bit v i = shr v i % 2

-- `if v & (1 << i):`
abbrev pub has_bit : ℕ → ℕ → Bool
has_bit v i = not (bit v i == 0)

pub record Fields : Type 0 where
  pub cls : ℕ
  pub ds : ℕ
  pub arg1 : ℕ
  pub arg2 : ℕ

unfoldable pub split : ℕ → Fields
split word = record {
  cls = low_bits (shr word 13) 3;
  ds = low_bits (shr word 8) 5;
  arg1 = low_bits (shr word 5) 3;
  arg2 = low_bits word 5;
}

pub record SideSet : Type 0 where
  pub delay : ℕ
  pub ss_valid : Bool
  pub ss_val : ℕ
  pub ss_bits : ℕ

-- The number of value bits. The source's -1, at `total` 0 with `side_en`, is 0 here; it is read
-- only where the side-set is valid, which `total` 0 never is.
abbrev pub value_bits : ℕ → Bool → ℕ
value_bits total side_en = if side_en then total - 1 else total

-- The body of `split_sideset` after its range check.
unfoldable pub sideset_fields : ℕ → Bool → ℕ → SideSet
sideset_fields ds_field side_en total =
    let vbits = value_bits total side_en in
    let ss_field = if total == 0 then 0 else shr ds_field (5 - total) in
    let en_bit = if total == 0 then 0 else bit ss_field (total - 1) in
    let ss_valid = not (total == 0) && (not side_en || not (en_bit == 0)) in
    record {
      delay = bit_and ds_field (shr 0x1f total);
      ss_valid = ss_valid;
      ss_val = if ss_valid && not (vbits == 0) then bit_and ss_field (shr 0x1f (5 - vbits)) else 0;
      ss_bits = if ss_valid then vbits else 0;
    }

unfoldable pub split_sideset : ℕ → Bool → ℕ → Result SideSet
split_sideset ds_field side_en sideset_count = do
  let total = low_bits sideset_count 3
  raise_if (ltb 5 total) reserved_encoding
  ok (sideset_fields ds_field side_en total)

-- The body of `pack_ds` for the three low bits of its count. Above 5, `1 << (5 - total)` shifts by a
-- negative count and raises.
unfoldable pub pack_fields : ℕ → ℕ → Bool → ℕ → Bool → Result ℕ
pack_fields delay side_val side_en total side_present =
    let field = bit_and delay (shl 1 (5 - total) - 1) in
    let with_side = bit_or field (low_bits (shl side_val (5 - total)) 5) in
    if total == 0
    then (if side_present && not (side_val == 0)
        then err reserved_encoding
        else ok (low_bits delay 5))
    else if ltb 5 total
    then err value_error
    else ok (if side_present then (if side_en then bit_or with_side 0x10 else with_side) else field)

unfoldable pub pack_ds : ℕ → ℕ → Bool → ℕ → Bool → Result ℕ
pack_ds delay side_val side_en sideset_count side_present =
    pack_fields delay side_val side_en (low_bits sideset_count 3) side_present

unfoldable pub encode : ℕ → ℕ → ℕ → ℕ → ℕ
encode clz arg1 arg2 ds =
    low_bits
      (bit_or (bit_or (bit_or (shl clz 13) (shl (low_bits ds 5) 8)) (shl (low_bits arg1 3) 5))
        (low_bits arg2 5))
      16
